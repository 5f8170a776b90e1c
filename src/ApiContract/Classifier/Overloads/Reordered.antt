-- ===== src/ApiContract/Classifier/Overloads/Reordered.antt =====
-- Overloads are matched by signature, not by position
-- (scripts/api-contract/compatibility-classifier.ts).
use internal_package_contrac.Shared.{
  String, some, List, [], ◌∷◌, ◌≡◌, ◌⊎◌, refl, sym, ap, ◌∙◌, subst, Memᴰ, Bool-cases, Option-cases,
  inl, inr, same_refl, eq_of_same, ◌===◌, string_Eq, All,
}
use internal_package_contrac.Shared.Dicts.{get, set, get-set, get_of_mem}
use internal_package_contrac.ApiContract.Members.{NormalizedMember}
use internal_package_contrac.ApiContract.Classifier.Changes.{
  ResolveAssignability, change_of, IsCompatible,
}
use internal_package_contrac.ApiContract.Classifier.Matched.Same.{
  SameContract, compare_matched_member-nil_iff,
}
use internal_package_contrac.ApiContract.Classifier.Overloads.{
  by_signature, parameter_signature, old_overloads, new_overloads, compare_overload_sets,
}
use internal_package_contrac.ApiContract.Classifier.Overloads.Handled.{by_signature-HasUniqueKeys}

-- What a signature looks up is an overload of that signature.
found_of_get :
    (so_far : List (String × NormalizedMember)) (ms : List NormalizedMember) (s : String)
    {x : NormalizedMember}
    → get s (by_signature so_far ms) ≡ some x
    → (get s so_far ≡ some x) ⊎ (Memᴰ x ms × (parameter_signature x ≡ s))
unfolding by_signature
found_of_get so_far [] s h = inl h
found_of_get so_far (m ∷ ms) s {x} h =
    elim (found_of_get (set (parameter_signature m) m so_far) ms s h) [
      | inr (i, e) ↦ inr (Memᴰ.tail i, e)
      | inl before ↦ elim (Bool-cases (parameter_signature m === s)) [
        | inl same ↦
            let here : m ≡ x =
              cc (rw (get-set (parameter_signature m) s m so_far, same) at before) in
            inr (Memᴰ.head (sym here), ap parameter_signature (sym here) ∙ eq_of_same _ _ same)
        | inr other ↦ inl (rw (get-set (parameter_signature m) s m so_far, other) at before)
      ]
    ]

abbrev IsThere : String → List (String × NormalizedMember) → Type 0
IsThere s m = (x : NormalizedMember) × (get s m ≡ some x)

IsThere-set :
    (s k : String) (v : NormalizedMember) (m : List (String × NormalizedMember))
    → IsThere s m
    → IsThere s (set k v m)
IsThere-set s k v m (x, e) = elim (Bool-cases (k === s)) [
  | inl same ↦ (v, rw (get-set k s v m, same))
  | inr other ↦ (x, rw (get-set k s v m, other) e)
]

IsThere-by_signature :
    (so_far : List (String × NormalizedMember)) (ms : List NormalizedMember) (s : String)
    → IsThere s so_far
    → IsThere s (by_signature so_far ms)
unfolding by_signature
IsThere-by_signature so_far [] s h = h
IsThere-by_signature so_far (m ∷ ms) s h =
    IsThere-by_signature (set (parameter_signature m) m so_far) ms s
      (IsThere-set s (parameter_signature m) m so_far h)

IsThere-of_mem :
    (so_far : List (String × NormalizedMember)) (ms : List NormalizedMember) {m : NormalizedMember}
    → Memᴰ m ms
    → IsThere (parameter_signature m) (by_signature so_far ms)
unfolding by_signature
IsThere-of_mem so_far [] i = elim i [ ]
IsThere-of_mem so_far (n ∷ ms) {m} (Memᴰ.head e) =
    IsThere-by_signature (set (parameter_signature n) n so_far) ms (parameter_signature m) (
      n,
      rw (
        get-set (parameter_signature n) (parameter_signature m) n so_far,
        ap parameter_signature e,
        same_refl (parameter_signature n),
      ),
    )
IsThere-of_mem so_far (n ∷ ms) (Memᴰ.tail i) =
    IsThere-of_mem (set (parameter_signature n) n so_far) ms i

-- No two overloads of a set have one signature.
abbrev pub HasUniqueSignatures : List NormalizedMember → Type 0
HasUniqueSignatures group =
    (m n : NormalizedMember)
    → Memᴰ m group
    → Memᴰ n group
    → parameter_signature m ≡ parameter_signature n
    → m ≡ n

get-by_signature :
    (group : List NormalizedMember) (m : NormalizedMember)
    → HasUniqueSignatures group
    → Memᴰ m group
    → get (parameter_signature m) (by_signature [] group) ≡ some m
get-by_signature group m unique i =
    let (x, e) = IsThere-of_mem [] group i in
    elim (found_of_get [] group (parameter_signature m) e) [
      | inl none_yet ↦ absurd (nothing none_yet)
      | inr (j, same) ↦ e ∙ ap some (unique x m j i same)
    ]
  where
    nothing : {x : NormalizedMember} → get (parameter_signature m) [] ≡ some x → ⊥
    nothing h = unfold get in cc h

-- An entry of the map is an overload of the set, under its own signature.
entry_of_mem :
    (group : List NormalizedMember) (s : String) (m : NormalizedMember)
    → Memᴰ (s, m) (by_signature [] group)
    → Memᴰ m group × (parameter_signature m ≡ s)
entry_of_mem group s m i =
    elim (found_of_get [] group s (get_of_mem _ (by_signature-HasUniqueKeys [] group tt) i)) [
      | inl none_yet ↦ absurd (nothing none_yet)
      | inr found ↦ found
    ]
  where
    nothing : get s [] ≡ some m → ⊥
    nothing h = unfold get in cc h

-- The set has an overload of the signature.
abbrev pub HasSignature : String → List NormalizedMember → Type 0
HasSignature signature group =
    (m : NormalizedMember) × Memᴰ m group × (parameter_signature m ≡ signature)

-- An overload of the same signature and with the same contract stands somewhere in the set; its place
-- in the set and its reference may have moved.
abbrev pub IsKeptIn : List NormalizedMember → NormalizedMember → Type 0
IsKeptIn group m =
    (n : NormalizedMember) × Memᴰ n group
    × (parameter_signature n ≡ parameter_signature m)
    × SameContract m n

module _ (resolve : ResolveAssignability) (olds news : List NormalizedMember)
    (unique : HasUniqueSignatures news)
    (kept : (m : NormalizedMember) → Memᴰ m olds → IsKeptIn news m) where
  old_overloads_kept :
      (entries : List (String × NormalizedMember))
      → ((e : String × NormalizedMember) → Memᴰ e entries → Memᴰ e (by_signature [] olds))
      → old_overloads resolve (by_signature [] news) entries ≡ []
  unfolding old_overloads
  old_overloads_kept [] h = refl
  old_overloads_kept ((s, m) ∷ entries) h =
      let (i, same) = entry_of_mem olds s m (h (s, m) (Memᴰ.head refl)) in
      let (n, there, sig, contract) = kept m i in
      let found : get s (by_signature [] news) ≡ some n =
        subst (λ z. get z (by_signature [] news) ≡ some n) (sig ∙ same)
          (get-by_signature news n unique there) in
      rw (found, old_overloads)
        (rw ((compare_matched_member-nil_iff m n resolve).1 contract)
          (old_overloads_kept entries (λ e j. h e (Memᴰ.tail j))))

  new_overloads-IsCompatible :
      (entries : List (String × NormalizedMember))
      → All IsCompatible (new_overloads resolve (by_signature [] olds) entries)
  unfolding new_overloads change_of
  new_overloads-IsCompatible [] = tt
  new_overloads-IsCompatible ((s, m) ∷ entries) =
      elim (Option-cases (get s (by_signature [] olds))) [
        | inl absent ↦ rw (absent, new_overloads) (refl, new_overloads-IsCompatible entries)
        | inr (x, found) ↦ rw (found, new_overloads) (new_overloads-IsCompatible entries)
      ]

  new_overloads_none :
      HasUniqueSignatures olds
      → ((n : NormalizedMember) → Memᴰ n news → HasSignature (parameter_signature n) olds)
      → (entries : List (String × NormalizedMember))
      → ((e : String × NormalizedMember) → Memᴰ e entries → Memᴰ e (by_signature [] news))
      → new_overloads resolve (by_signature [] olds) entries ≡ []
  unfolding new_overloads
  new_overloads_none unique_olds back [] h = refl
  new_overloads_none unique_olds back ((s, m) ∷ entries) h =
      let (i, same) = entry_of_mem news s m (h (s, m) (Memᴰ.head refl)) in
      let (o, there, sig) = back m i in
      let found : get s (by_signature [] olds) ≡ some o =
        subst (λ z. get z (by_signature [] olds) ≡ some o) (sig ∙ same)
          (get-by_signature olds o unique_olds there) in
      rw (found, new_overloads)
        (new_overloads_none unique_olds back entries (λ e j. h e (Memᴰ.tail j)))

  -- Where for every overload of the baseline the current side has one of the same signature and with
  -- the same contract, wherever in the set it stands, and no two of the current side have one
  -- signature, nothing but additions is reported, and each is compatible; where also no two of the
  -- baseline do and the current side has no other signature, nothing is.
  pub compare_overload_sets_kept :
      All IsCompatible (compare_overload_sets resolve olds news)
      × (HasUniqueSignatures olds
          → ((n : NormalizedMember) → Memᴰ n news → HasSignature (parameter_signature n) olds)
          → compare_overload_sets resolve olds news ≡ [])
  unfolding compare_overload_sets
  compare_overload_sets_kept =
      let none_old = old_overloads_kept (by_signature [] olds) (λ e i. i) in
      (
        rw none_old (new_overloads-IsCompatible (by_signature [] news)),
        λ unique_olds back.
            rw none_old (new_overloads_none unique_olds back (by_signature [] news) (λ e i. i)),
      )
