-- ===== src/Exceptions/Evaluation.antt =====
-- An evaluation of records that does what the checks rely on: a forbidding policy forbids, and a
-- requiring one permits what has each required field written.
use internal_package_contrac.Shared.{
  String, Bool, true, List, [], ◌∷◌, ◌≡◌, ◌≢◌, inl, inr, refl, All, string_Eq, ◌===◌, ◌!==◌, ◌&&◌,
  if◌then◌else◌, Bool-cases, and-eq-true, ne_of_same, false_of_negate,
}
use internal_package_contrac.Exceptions.Findings.{
  unmatched, forbidden, insufficient, permitted, Determinant, ExceptionPolicy, forbidding,
  requiring, Evaluate, IsEvaluation, resolved,
}

abbrev is_written : (String → String) → List String → Bool
is_written value [] = true
is_written value (key ∷ keys) = (value key !== "") && is_written value keys

is_written-All :
    (value : String → String) (keys : List String)
    → is_written value keys ≡ true
    → All (λ key. value key ≢ "") keys
is_written-All value [] h = tt
is_written-All value (key ∷ keys) h =
    let (here, later) = and-eq-true (value key !== "") (is_written value keys) h in
    (
      ne_of_same (value key) "" (false_of_negate (value key === "") here),
      is_written-All value keys later,
    )

abbrev by_policy : ExceptionPolicy → (String → String) → Determinant
by_policy forbidding value = record { verdict = forbidden; missing = [] }
by_policy (requiring keys) value = record {
  verdict = if is_written value keys then permitted else insufficient;
  missing = [];
}

abbrev pub evaluate : Evaluate
evaluate r c config default field_value = by_policy (resolved c config default) (field_value r)

by_policy-permitted :
    (value : String → String) (keys : List String)
    → (by_policy (requiring keys) value).verdict ≡ permitted
    → All (λ key. value key ≢ "") keys
by_policy-permitted value keys h = elim (Bool-cases (is_written value keys)) [
  | inl written ↦ is_written-All value keys written
  | inr missing ↦ cc (rw missing at h)
]

by_policy-decides :
    (policy : ExceptionPolicy) (value : String → String)
    → (by_policy policy value).verdict ≢ unmatched
by_policy-decides forbidding value e = cc
by_policy-decides (requiring keys) value e = elim (Bool-cases (is_written value keys)) [
  | inl written ↦ cc (rw written at e)
  | inr missing ↦ cc (rw missing at e)
]

pub evaluate-IsEvaluation : IsEvaluation evaluate
evaluate-IsEvaluation = record {
  forbids = λ r c config default value e. rw e refl;
  decides = λ r c config default value. by_policy-decides (resolved c config default) (value r);
  permits = λ r c config default value keys e h. by_policy-permitted (value r) keys (rw e at h);
}
