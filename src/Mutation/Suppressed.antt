-- ===== src/Mutation/Suppressed.antt =====
-- What the records of a registry suppress.
use internal_package_contrac.Shared.{
  suc, String, Bool, true, false, List, [], ◌∷◌, ◌≡◌, ◌≢◌, inl, inr, refl, sym, subst, arith, map,
  filter, length, All, Memᴰ, string_Eq, nat_Eq, option_Eq, pair_Eq, Bool-cases, mem_of_append,
}
use internal_package_contrac.Shared.Dicts.{get, contains-mem}
use internal_package_contrac.Exceptions.{ExceptionRecord}
use internal_package_contrac.Exceptions.Registry.{record_field_value}
use internal_package_contrac.Exceptions.Written.{IsWritten, All-IsWritten}
use internal_package_contrac.Exceptions.Findings.{
  Verdict, insufficient, forbidden, permitted, unmatched, Evaluate, IsEvaluation, requiring,
}
use internal_package_contrac.Mutation.{
  ResolvedMutant, Key, key_of, matches_record, requirements, classification, is_survived_like,
  by_verdict, by_matches, resolve_record_outcome, apply_exception_registry, has,
}

-- A record of the registry that describes the mutant and has each required field written; a record of version 1
-- has no structured fields to write.
abbrev pub IsWaived : List ExceptionRecord → ResolvedMutant → Type 0
IsWaived records m =
    (r : ExceptionRecord) × Memᴰ r records
    × (matches_record m r ≡ true)
    × All (IsWritten r) requirements

mem_of_filter :
    {A : Type 0} (p : A → Bool) {a : A} (xs : List A)
    → Memᴰ a (filter p xs)
    → Memᴰ a xs × (p a ≡ true)
mem_of_filter p [] m = elim m [ ]
mem_of_filter p {a} (x ∷ xs) m = elim (Bool-cases (p x)) [
  | inr out ↦ let (there, holds) = mem_of_filter p xs (rw out at m) in (Memᴰ.tail there, holds)
  | inl inside ↦
      let n = rw inside at m in
      elim n [
        | Memᴰ.head e ↦ (Memᴰ.head e, subst (λ y. p y ≡ true) (sym e) inside)
        | Memᴰ.tail t ↦ let (there, holds) = mem_of_filter p xs t in (Memᴰ.tail there, holds)
      ]
]

mem_of_map :
    {A B : Type 0} (f : A → B) {b : B} (xs : List A)
    → Memᴰ b (map f xs)
    → (a : A) × Memᴰ a xs × (b ≡ f a)
mem_of_map f [] m = elim m [ ]
mem_of_map f (x ∷ xs) (Memᴰ.head e) = (x, Memᴰ.head refl, e)
mem_of_map f (x ∷ xs) (Memᴰ.tail m) =
    let (a, there, e) = mem_of_map f xs m in (a, Memᴰ.tail there, e)

pub none_left :
    {A : Type 0} (p : A → Bool) {a : A} (xs : List A)
    → length (filter p xs) ≡ 0
    → Memᴰ a xs
    → p a ≡ false
none_left p [] h m = elim m [ ]
none_left p {a} (x ∷ xs) h m = elim (Bool-cases (p x)) [
  | inl holds ↦ let g : suc (length (filter p xs)) ≡ 0 = rw holds at h in absurd (omega arith)
  | inr out ↦ elim m [
    | Memᴰ.head e ↦ subst (λ y. p y ≡ false) (sym e) out
    | Memᴰ.tail t ↦ none_left p xs (rw out at h) t
  ]
]

module _ (evaluate : Evaluate) (laws : IsEvaluation evaluate) where
  by_verdict-suppressed :
      (r : ExceptionRecord) (matched : List ResolvedMutant) (v : Verdict) (missing : List String)
      {m : ResolvedMutant}
      → v ≢ unmatched
      → Memᴰ m (by_verdict r matched v missing).suppressed
      → (v ≡ permitted) × Memᴰ m matched × (is_survived_like m.status ≡ true)
  by_verdict-suppressed r matched insufficient missing d m = elim m [ ]
  by_verdict-suppressed r matched forbidden missing d m = elim m [ ]
  by_verdict-suppressed r matched unmatched missing d m = absurd (d refl)
  by_verdict-suppressed r matched permitted missing d m =
      let (there, holds) = mem_of_filter (λ k. is_survived_like k.status) matched m in
      (refl, there, holds)

  by_matches-suppressed :
      (r : ExceptionRecord) (matched : List ResolvedMutant) {m : ResolvedMutant}
      → Memᴰ m (by_matches evaluate r matched).suppressed
      → All (IsWritten r) requirements × Memᴰ m matched × (is_survived_like m.status ≡ true)
  unfolding get
  by_matches-suppressed r [] m = elim m [ ]
  by_matches-suppressed r (k ∷ matched) m =
      let (fine, there, holds) =
        by_verdict-suppressed r (k ∷ matched) _ _
          (laws.decides r classification [] (requiring requirements) record_field_value) m in
      (
        All-IsWritten r requirements (
            laws.permits r classification [] (requiring requirements) record_field_value
              requirements refl fine),
        there,
        holds,
      )

  -- What is suppressed has survived, and is the same as a mutant that a complete record describes.
  suppressed-IsWaived :
      (mutants : List ResolvedMutant) (records : List ExceptionRecord) {k : Key}
      → Memᴰ k (apply_exception_registry evaluate mutants records).suppressed
      → (m : ResolvedMutant) × (k ≡ key_of m)
        × IsWaived records m
        × (is_survived_like m.status ≡ true)
  unfolding apply_exception_registry resolve_record_outcome
  suppressed-IsWaived mutants [] m = elim m [ ]
  suppressed-IsWaived mutants (r ∷ records) m =
      elim (mem_of_append (map key_of (resolve_record_outcome evaluate r mutants).suppressed) m) [
        | inr later ↦
            let (a, e, (s, there, matched, written), holds) =
              suppressed-IsWaived mutants records later in
            (a, e, (s, Memᴰ.tail there, matched, written), holds)
        | inl now ↦
            let (a, there, e) = mem_of_map key_of _ now in
            let (written, inside, holds) =
              by_matches-suppressed r (filter (λ b. matches_record b r) mutants) there in
            let (_, matched) = mem_of_filter (λ b. matches_record b r) mutants inside in
            (a, e, (r, Memᴰ.head refl, matched, written), holds)
      ]

same_key :
    (m k : ResolvedMutant) (r : ExceptionRecord)
    → key_of m ≡ key_of k
    → matches_record k r ≡ true
    → matches_record m r ≡ true
unfolding matches_record
same_key m k r e h =
    let file : m.file ≡ k.file = cc e in
    let mutator : m.mutator ≡ k.mutator = cc e in
    let original : m.original ≡ k.original = cc e in
    let replacement : m.replacement ≡ k.replacement = cc e in
    rw (file, mutator, original, replacement) h

-- What is held as suppressed has survived, and a complete record describes it.
pub has-IsWaived :
    (evaluate : Evaluate) (laws : IsEvaluation evaluate) (mutants : List ResolvedMutant)
    (records : List ExceptionRecord) (m : ResolvedMutant)
    → has (apply_exception_registry evaluate mutants records).suppressed m ≡ true
    → IsWaived records m × (is_survived_like m.status ≡ true)
has-IsWaived evaluate laws mutants records m h =
    let (k, e, (r, there, matched, written), holds) =
      suppressed-IsWaived evaluate laws mutants records (contains-mem (key_of m) _ h) in
    let status : m.status ≡ k.status = cc e in
    ((r, there, same_key m k r e matched, written), rw status holds)
