-- ===== src/ApiContract/Classifier/Parameters/Accepted.antt =====
-- When new parameters accept the old calls (scripts/api-contract/compatibility-classifier.ts).
use internal_package_contrac.Shared.{
  ℕ, suc, true, none, some, List, [], ◌∷◌, ◌≡◌, ◌⊎◌, ◌↔◌, refl, get_elem?, get_elem?-drop,
  get_elem?-drop_nil, drop, drop_nil, length, All, All-append, All-of_append, arith, bool_Eq,
  string_Eq,
}
use text.Mathlib.TextEquality.{eq_iff}
use internal_package_contrac.ApiContract.Evidence.{Compatibility}
use internal_package_contrac.ApiContract.Members.{NormalizedMember, NormalizedParameter}
use internal_package_contrac.ApiContract.Classifier.Changes.{
  ResolveAssignability, change_of, IsCompatible,
}
use internal_package_contrac.ApiContract.Classifier.Parameters.{
  parameter_query, added_parameter, optionality_change, type_change, compare_parameter, compare_new,
  removed_parameter, removed_from, compare_parameters,
}

module _ (baseline_member current_member : NormalizedMember) (resolve : ResolveAssignability) where
  -- A parameter keeps its old calls: it did not become required, and its type is the same text or
  -- one that the callback accepts.
  abbrev pub Accepts : ℕ → NormalizedParameter → NormalizedParameter → Type 0
  Accepts i old new =
      ((old.is_optional ≡ new.is_optional) ⊎ (new.is_optional ≡ true))
      × ((old.type_excerpt_text ≡ new.type_excerpt_text)
          ⊎ (parameter_query baseline_member current_member resolve i ≡ Compatibility.compatible))

  -- Position by position: no old parameter is gone, and each further one is optional.
  abbrev pub AcceptsAll : ℕ → List NormalizedParameter → List NormalizedParameter → Type 0
  AcceptsAll i [] [] = Unit
  AcceptsAll i (old ∷ olds) [] = ⊥
  AcceptsAll i [] (new ∷ news) = (new.is_optional ≡ true) × AcceptsAll (suc i) [] news
  AcceptsAll i (old ∷ olds) (new ∷ news) = Accepts i old new × AcceptsAll (suc i) olds news

  compare_parameter-IsCompatible_iff :
      (i : ℕ) (old new : NormalizedParameter)
      → All IsCompatible (compare_parameter baseline_member current_member resolve i (some old) new)
        ↔ Accepts i old new
  unfolding compare_parameter optionality_change type_change change_of
  compare_parameter-IsCompatible_iff i old new =
      ground (arith, eq_iff old.type_excerpt_text new.type_excerpt_text)

  added_parameter-IsCompatible_iff :
      (i : ℕ) (new : NormalizedParameter)
      → All IsCompatible (compare_parameter baseline_member current_member resolve i none new)
        ↔ (new.is_optional ≡ true)
  unfolding compare_parameter added_parameter change_of
  added_parameter-IsCompatible_iff i new = ground arith

  abbrev NewFits :
      List NormalizedParameter → ℕ → List NormalizedParameter → List NormalizedParameter → Type 0
  NewFits olds i rest news =
      All IsCompatible (compare_new baseline_member current_member resolve olds i news)
      × (drop (length news) rest ≡ [])

  fits→accepts :
      (olds : List NormalizedParameter) (i : ℕ) (rest news : List NormalizedParameter)
      → drop i olds ≡ rest
      → NewFits olds i rest news
      → AcceptsAll i rest news
  unfolding compare_new
  fits→accepts olds i [] [] d h = tt
  fits→accepts olds i (old ∷ rest) [] d (h, e) = cc
  fits→accepts olds i [] (new ∷ news) d (h, e) =
      let (absent, later) = get_elem?-drop_nil olds i d in
      let (here, there) =
        All-of_append IsCompatible
          (compare_parameter baseline_member current_member resolve i (get_elem? olds i) new) _ h in
      (
        (added_parameter-IsCompatible_iff i new).0 (rw absent at here),
        fits→accepts olds (suc i) [] news later (there, drop_nil (length news)),
      )
  fits→accepts olds i (old ∷ rest) (new ∷ news) d (h, e) =
      let (found, later) = get_elem?-drop olds i d in
      let (here, there) =
        All-of_append IsCompatible
          (compare_parameter baseline_member current_member resolve i (get_elem? olds i) new) _ h in
      (
        (compare_parameter-IsCompatible_iff i old new).0 (rw found at here),
        fits→accepts olds (suc i) rest news later (there, e),
      )

  accepts→fits :
      (olds : List NormalizedParameter) (i : ℕ) (rest news : List NormalizedParameter)
      → drop i olds ≡ rest
      → AcceptsAll i rest news
      → NewFits olds i rest news
  unfolding compare_new
  accepts→fits olds i [] [] d h = (tt, refl)
  accepts→fits olds i (old ∷ rest) [] d h = absurd h
  accepts→fits olds i [] (new ∷ news) d (h, hs) =
      let (absent, later) = get_elem?-drop_nil olds i d in
      (
        All-append IsCompatible _ _ (rw absent ((added_parameter-IsCompatible_iff i new).1 h))
            (accepts→fits olds (suc i) [] news later hs).0,
        refl,
      )
  accepts→fits olds i (old ∷ rest) (new ∷ news) d (h, hs) =
      let (found, later) = get_elem?-drop olds i d in
      let (fits, e) = accepts→fits olds (suc i) rest news later hs in
      (
        All-append IsCompatible _ _ (rw found ((compare_parameter-IsCompatible_iff i old new).1 h))
            fits,
        e,
      )

  nothing_removed :
      (i : ℕ) (rest : List NormalizedParameter)
      → All IsCompatible (removed_from baseline_member current_member resolve i rest)
      → rest ≡ []
  unfolding removed_from removed_parameter change_of
  nothing_removed i [] h = refl
  nothing_removed i (old ∷ rest) (h, _) = cc

  -- The parameters are reported as compatible throughout exactly if the new ones accept every call
  -- of the old: position by position, none gone, none newly required, each further one optional.
  pub compare_parameters-IsCompatible_iff :
      (olds news : List NormalizedParameter)
      → All IsCompatible (compare_parameters baseline_member current_member resolve olds news)
        ↔ AcceptsAll 0 olds news
  unfolding compare_parameters
  compare_parameters-IsCompatible_iff olds news = (
    λ h.
        let (kept, removed) = All-of_append IsCompatible _ _ h in
        fits→accepts olds 0 olds news refl (kept, nothing_removed _ _ removed),
    λ h.
        let (fits, e) = accepts→fits olds 0 olds news refl h in
        All-append IsCompatible _ _ fits (rw e (unfold removed_from in tt)),
  )
