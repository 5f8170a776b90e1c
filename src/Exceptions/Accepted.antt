-- ===== src/Exceptions/Accepted.antt =====
-- What a registry that is accepted holds: the record of each entry, in order, no id twice.
use mathlib.Core.List.{append-nil, append_assoc}
use internal_package_contrac.Shared.{
  ℕ, suc, String, none, some, List, [], ◌∷◌, ◌++◌, ◌≡◌, ◌≢◌, ◌↔◌, inl, inr, refl, sym, ap, subst,
  ◌∙◌, Option-cases, string_Eq, ◌===◌, All, append-eq-nil, same_of_ne, ne_of_same, Bool-cases,
}
use internal_package_contrac.Shared.Dicts.{get, set, get-set}
use internal_package_contrac.Shared.Json.{Json, array, Items, no_items, item}
use internal_package_contrac.Exceptions.{ExceptionRecord, Checked, ExceptionRegistrySchema}
use internal_package_contrac.Exceptions.Registry.{
  Progress, accept, validate_one, validate_items, validate_exception_registry, accepted, judged,
}
use internal_package_contrac.Exceptions.Settled.{
  IsSettled, IsSettledSchema, validate_one-IsSettled, List-cases, append-ne_nil_right,
}

abbrev pub HasUniqueIds : List ExceptionRecord → Type 0
HasUniqueIds [] = Unit
HasUniqueIds (r ∷ rs) = All (λ s. s.id ≢ r.id) rs × HasUniqueIds rs

-- No record's id is in the map of the ids that are taken, which grows along the list.
abbrev Fresh : ℕ → List (String × ℕ) → List ExceptionRecord → Type 0
Fresh index seen [] = Unit
Fresh index seen (r ∷ rs) = (get r.id seen ≡ none) × Fresh (suc index) (set r.id index seen) rs

abbrev IsFree : List (String × ℕ) → ExceptionRecord → Type 0
IsFree seen r = get r.id seen ≡ none

IsFree-of_set :
    (index : ℕ) (id : String) (seen : List (String × ℕ)) (rs : List ExceptionRecord)
    → All (IsFree (set id index seen)) rs
    → All (IsFree seen) rs × All (λ s. s.id ≢ id) rs
IsFree-of_set index id seen [] h = (tt, tt)
IsFree-of_set index id seen (r ∷ rs) (p, h) =
    let (free, others) = IsFree-of_set index id seen rs h in
    let q = rw (get-set id r.id index seen) at p in
    elim (Bool-cases (id === r.id)) [
      | inl same ↦ cc (rw same at q)
      | inr other ↦ ((rw other at q, free), (λ e. ne_of_same id r.id other (sym e), others))
    ]

IsFree-set :
    (index : ℕ) (id : String) (seen : List (String × ℕ)) (rs : List ExceptionRecord)
    → All (IsFree seen) rs
    → All (λ s. s.id ≢ id) rs
    → All (IsFree (set id index seen)) rs
IsFree-set index id seen [] h k = tt
IsFree-set index id seen (r ∷ rs) (p, h) (ne, k) = (
  rw (get-set id r.id index seen, same_of_ne id r.id (λ e. ne (sym e))) p,
  IsFree-set index id seen rs h k,
)

Fresh-unique :
    (index : ℕ) (seen : List (String × ℕ)) (rs : List ExceptionRecord)
    → Fresh index seen rs
    → All (IsFree seen) rs × HasUniqueIds rs
Fresh-unique index seen [] h = (tt, tt)
Fresh-unique index seen (r ∷ rs) (p, h) =
    let (free, unique) = Fresh-unique (suc index) (set r.id index seen) rs h in
    let (before, others) = IsFree-of_set index r.id seen rs free in ((p, before), (others, unique))

unique-Fresh :
    (index : ℕ) (seen : List (String × ℕ)) (rs : List ExceptionRecord)
    → All (IsFree seen) rs
    → HasUniqueIds rs
    → Fresh index seen rs
unique-Fresh index seen [] h k = tt
unique-Fresh index seen (r ∷ rs) (p, h) (others, k) = (
  p,
  unique-Fresh (suc index) (set r.id index seen) rs (IsFree-set index r.id seen rs h others) k,
)

All-IsFree : (rs : List ExceptionRecord) → All (IsFree []) rs
unfolding get
All-IsFree [] = tt
All-IsFree (r ∷ rs) = (refl, All-IsFree rs)

accept_new :
    (index : ℕ) (c : Checked ExceptionRecord) (p : Progress) (r : ExceptionRecord)
    → c.value ≡ some r
    → get r.id p.seen ≡ none
    → accept index c p ≡ record {
      errors = p.errors ++ c.messages;
      records = p.records ++ r ∷ [];
      seen = set r.id index p.seen;
    }
unfolding accept
accept_new index c p r e free = rw (e, free, accept) refl

-- An iteration that ends without errors has added the entry's record, under a new id.
accept_quiet :
    (index : ℕ) (c : Checked ExceptionRecord) (p : Progress)
    → IsSettled c
    → (accept index c p).errors ≡ []
    → (r : ExceptionRecord) × (c.value ≡ some r)
      × (c.messages ≡ [])
      × (p.errors ≡ [])
      × (get r.id p.seen ≡ none)
unfolding accept
accept_quiet index c p (inr (loud, absent)) h =
    absurd (append-ne_nil_right p.errors c.messages loud (rw (absent, accept) at h))
accept_quiet index c p (inl (quiet, (r, e))) h = elim (Option-cases (get r.id p.seen)) [
  | inl free ↦
      let (before, now) = (append-eq-nil p.errors c.messages).0 (rw (e, free, accept) at h) in
      (r, e, quiet, before, free)
  | inr (first, taken) ↦
      absurd
        (append-ne_nil_right (p.errors ++ c.messages) _ (λ q. cc q) (rw (e, taken, accept) at h))
]

silent_of_some :
    (c : Checked ExceptionRecord) {r : ExceptionRecord}
    → IsSettled c
    → c.value ≡ some r
    → c.messages ≡ []
silent_of_some c (inl (quiet, rest)) e = quiet
silent_of_some c (inr (loud, absent)) e = cc

accepted-inj : (rs rs' : List ExceptionRecord) → accepted rs ≡ accepted rs' → rs ≡ rs'
accepted-inj rs rs' h = cc h

judged-accepted_iff :
    (p : Progress) (rs : List ExceptionRecord)
    → (judged p ≡ accepted rs) ↔ ((p.errors ≡ []) × (p.records ≡ rs))
judged-accepted_iff p rs = elim (List-cases p.errors) [
  | inl no_errors ↦ (
    λ h. (no_errors, accepted-inj _ _ (rw no_errors at h)),
    λ (_, same). rw (no_errors, same) refl,
  )
  | inr (e, es, there) ↦ (λ h. cc (rw there at h), λ (none_left, _). cc (there, none_left))
]

abbrev start : Progress
start = record { errors = []; records = []; seen = [] }

module _ (schema : ExceptionRegistrySchema) where
  -- Each entry validates to the record in its place.
  abbrev pub Validates : ℕ → Items → List ExceptionRecord → Type 0
  Validates index no_items [] = Unit
  Validates index (item v vs) (r ∷ rs) =
      ((validate_one schema index v).value ≡ some r) × Validates (suc index) vs rs
  Validates index _ _ = ⊥

  forward :
      (settled : IsSettledSchema schema) (index : ℕ) (entries : Items) (p : Progress)
      → (validate_items schema index entries p).errors ≡ []
      → (rs : List ExceptionRecord) × (p.errors ≡ [])
        × Validates index entries rs
        × Fresh index p.seen rs
        × ((validate_items schema index entries p).records ≡ p.records ++ rs)
  unfolding validate_items
  forward settled index no_items p h = ([], h, tt, tt, sym (append-nil p.records))
  forward settled index (item v vs) p h =
      let c = validate_one schema index v in
      let (rs, now, valid, fresh, added) = forward settled (suc index) vs (accept index c p) h in
      let (r, e, quiet, before, free) =
        accept_quiet index c p (validate_one-IsSettled schema settled index v) now in
      let q = accept_new index c p r e free in
      (
        r ∷ rs,
        before,
        (e, valid),
        (free, subst (λ z. Fresh (suc index) z.seen rs) q fresh),
        added ∙ ap (λ z. z.records ++ rs) q ∙ append_assoc p.records (r ∷ []) rs,
      )

  backward :
      (settled : IsSettledSchema schema) (index : ℕ) (entries : Items) (p : Progress)
      (rs : List ExceptionRecord)
      → p.errors ≡ []
      → Validates index entries rs
      → Fresh index p.seen rs
      → ((validate_items schema index entries p).errors ≡ [])
        × ((validate_items schema index entries p).records ≡ p.records ++ rs)
  unfolding validate_items
  backward settled index no_items p [] h valid fresh = (h, sym (append-nil p.records))
  backward settled index no_items p (r ∷ rs) h valid fresh = absurd valid
  backward settled index (item v vs) p [] h valid fresh = absurd valid
  backward settled index (item v vs) p (r ∷ rs) h (e, valid) (free, fresh) =
      let c = validate_one schema index v in
      let q = accept_new index c p r e free in
      let quiet = silent_of_some c (validate_one-IsSettled schema settled index v) e in
      let (none_left, added) =
        backward settled (suc index) vs
          (record {
            errors = p.errors ++ c.messages;
            records = p.records ++ r ∷ [];
            seen = set r.id index p.seen;
          })
          rs ((append-eq-nil p.errors c.messages).1 (h, quiet)) valid fresh in
      subst
        (λ z.
          ((validate_items schema (suc index) vs z).errors ≡ [])
          × ((validate_items schema (suc index) vs z).records ≡ p.records ++ r ∷ rs))
        (sym q) (none_left, added ∙ append_assoc p.records (r ∷ []) rs)

  -- A registry whose schema either accepts in silence or refuses with a message is accepted with
  -- some records exactly if each entry validates to the record in its place and no two records
  -- have one id: one bad entry, or an id used twice, fails all of it.
  pub validate_exception_registry-accepted_iff :
      (settled : IsSettledSchema schema) (entries : Items) (rs : List ExceptionRecord)
      → (validate_exception_registry schema (array entries) ≡ accepted rs)
        ↔ (Validates 0 entries rs × HasUniqueIds rs)
  unfolding validate_exception_registry
  validate_exception_registry-accepted_iff settled entries rs = (
    λ h.
        let (none_left, same) =
          (judged-accepted_iff (validate_items schema 0 entries start) rs).0 h in
        let (rs', _, valid, fresh, added) = forward settled 0 entries start none_left in
        let e : rs' ≡ rs = cc (added, same) in
        (rw e at valid, rw e at (Fresh-unique 0 [] rs' fresh).1),
    λ (valid, unique). (judged-accepted_iff (validate_items schema 0 entries start) rs).1 (
        backward settled 0 entries start rs refl valid
          (unique-Fresh 0 [] rs (All-IsFree rs) unique)),
  )

  -- What each validated record has, each record of the list has.
  pub Validates-All {κ} :
      (P : ExceptionRecord → Type κ)
      → ((index : ℕ) (v : Json) (r : ExceptionRecord)
          → (validate_one schema index v).value ≡ some r
          → P r)
      → (index : ℕ) (entries : Items) (rs : List ExceptionRecord) → Validates index entries rs
      → All P rs
  Validates-All P h index no_items [] valid = tt
  Validates-All P h index no_items (r ∷ rs) valid = absurd valid
  Validates-All P h index (item v vs) [] valid = absurd valid
  Validates-All P h index (item v vs) (r ∷ rs) (e, valid) =
      (h index v r e, Validates-All P h (suc index) vs rs valid)
