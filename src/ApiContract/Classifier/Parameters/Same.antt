-- ===== src/ApiContract/Classifier/Parameters/Same.antt =====
-- When no parameter is reported (scripts/api-contract/compatibility-classifier.ts).
use internal_package_contrac.Shared.{
  ℕ, suc, Option, none, some, List, [], ◌∷◌, ◌≡◌, ◌≢◌, ◌↔◌, refl, get_elem?, get_elem?-drop,
  get_elem?-drop_nil, drop, length, append-eq-nil, arith, bool_Eq, string_Eq,
}
use text.Mathlib.TextEquality.{eq_iff}
use internal_package_contrac.ApiContract.Evidence.{ApiContractChange}
use internal_package_contrac.ApiContract.Members.{NormalizedMember, NormalizedParameter}
use internal_package_contrac.ApiContract.Classifier.Changes.{ResolveAssignability}
use internal_package_contrac.ApiContract.Classifier.Parameters.{
  compare_parameter, compare_new, removed_from, compare_parameters,
}

-- Position by position the same optionality and type text; the names do not count.
abbrev pub SameParameters : List NormalizedParameter → List NormalizedParameter → Type 0
SameParameters [] [] = Unit
SameParameters (old ∷ olds) [] = ⊥
SameParameters [] (new ∷ news) = ⊥
SameParameters (old ∷ olds) (new ∷ news) =
    (old.is_optional ≡ new.is_optional)
    × (old.type_excerpt_text ≡ new.type_excerpt_text)
    × SameParameters olds news

module _ (baseline_member current_member : NormalizedMember) (resolve : ResolveAssignability) where
  abbrev compare_at : ℕ → Option NormalizedParameter → NormalizedParameter → List ApiContractChange
  compare_at = compare_parameter baseline_member current_member resolve

  compare_parameter-nil_iff :
      (i : ℕ) (old new : NormalizedParameter)
      → (compare_at i (some old) new ≡ [])
        ↔ ((old.is_optional ≡ new.is_optional) × (old.type_excerpt_text ≡ new.type_excerpt_text))
  unfolding compare_parameter
  compare_parameter-nil_iff i old new =
      ground (arith, eq_iff old.type_excerpt_text new.type_excerpt_text)

  added_parameter-reported : (i : ℕ) (new : NormalizedParameter) → compare_at i none new ≢ []
  unfolding compare_parameter
  added_parameter-reported i new h = cc

  abbrev NothingNew :
      List NormalizedParameter → ℕ → List NormalizedParameter → List NormalizedParameter → Type 0
  NothingNew olds i rest news =
      (compare_new baseline_member current_member resolve olds i news ≡ [])
      × (drop (length news) rest ≡ [])

  nothing→same :
      (olds : List NormalizedParameter) (i : ℕ) (rest news : List NormalizedParameter)
      → drop i olds ≡ rest
      → NothingNew olds i rest news
      → SameParameters rest news
  unfolding compare_new
  nothing→same olds i [] [] d h = tt
  nothing→same olds i (old ∷ rest) [] d (h, e) = cc
  nothing→same olds i [] (new ∷ news) d (h, e) =
      let (absent, later) = get_elem?-drop_nil olds i d in
      let (here, there) = (append-eq-nil (compare_at i (get_elem? olds i) new) _).0 h in
      absurd (added_parameter-reported i new (rw absent at here))
  nothing→same olds i (old ∷ rest) (new ∷ news) d (h, e) =
      let (found, later) = get_elem?-drop olds i d in
      let (here, there) = (append-eq-nil (compare_at i (get_elem? olds i) new) _).0 h in
      let (optional, type) = (compare_parameter-nil_iff i old new).0 (rw found at here) in
      (optional, type, nothing→same olds (suc i) rest news later (there, e))

  same→nothing :
      (olds : List NormalizedParameter) (i : ℕ) (rest news : List NormalizedParameter)
      → drop i olds ≡ rest
      → SameParameters rest news
      → NothingNew olds i rest news
  unfolding compare_new
  same→nothing olds i [] [] d h = (refl, refl)
  same→nothing olds i (old ∷ rest) [] d h = absurd h
  same→nothing olds i [] (new ∷ news) d h = absurd h
  same→nothing olds i (old ∷ rest) (new ∷ news) d (optional, type, h) =
      let (found, later) = get_elem?-drop olds i d in
      let (none_new, e) = same→nothing olds (suc i) rest news later h in
      (rw (found, (compare_parameter-nil_iff i old new).1 (optional, type)) none_new, e)

  nothing_removed :
      (i : ℕ) (rest : List NormalizedParameter)
      → removed_from baseline_member current_member resolve i rest ≡ []
      → rest ≡ []
  unfolding removed_from
  nothing_removed i [] h = refl
  nothing_removed i (old ∷ rest) h = cc

  pub compare_parameters-nil_iff :
      (olds news : List NormalizedParameter)
      → (compare_parameters baseline_member current_member resolve olds news ≡ [])
        ↔ SameParameters olds news
  unfolding compare_parameters removed_from
  compare_parameters-nil_iff olds news = (
    λ h.
        let (kept, removed) =
          (append-eq-nil (compare_new baseline_member current_member resolve olds 0 news) _).0 h in
        nothing→same olds 0 olds news refl (kept, nothing_removed (length news) _ removed),
    λ h. let (kept, e) = same→nothing olds 0 olds news refl h in rw (kept, e),
  )
