-- ===== src/Adoption/Promote.antt =====
-- What a promotion enforces, and whose failure stays advisory (scripts/adoption/mode.mjs).
use internal_package_contrac.Shared.{
  String, true, false, Option, List, [], ◌∷◌, ◌++◌, filter, ◌≡◌, ◌≢◌, ◌↔◌, ◌⊎◌, refl, sym, subst,
  ap, inl, inr, arith, Memᴰ, Bool-cases, mem_of_append, mem-append_left, mem-append_right, ◌===◌,
  string_Eq, same_of_ne, ne_of_same, length, ltb,
}
use internal_package_contrac.Shared.Dicts.{
  contains, contains-mem, mem-contains, mem-set_of, mem_of_set_of,
}
use internal_package_contrac.Shared.Sorting.{mem-sort, mem_of_sort}
use internal_package_contrac.Shared.CodeUnits.{text_le}
use internal_package_contrac.Shared.Int.{ℤ}
use internal_package_contrac.Checks.Shared.{Outcome, pass, warn, fail}
use internal_package_contrac.Adoption.{
  AdoptionFile, Adoption, absent, invalid, active, expired, is_advisory, ids, advisory_failures,
}
use internal_package_contrac.Adoption.Promotion.{
  written, promoted, unknown_ids, is_nil, promote_file,
}

promoted_iff :
    (enforce argv : List String) (id : String)
    → Memᴰ id (promoted enforce argv) ↔ (Memᴰ id enforce ⊎ Memᴰ id argv)
unfolding promoted
promoted_iff enforce argv id = (
  λ m. mem_of_append enforce (mem_of_set_of _ (mem_of_sort text_le _ m)),
  λ h. mem-sort text_le _ (
      mem-set_of (enforce ++ argv)
        (elim h [ inl old ↦ mem-append_left argv old | inr new ↦ mem-append_right enforce new ])),
)

none_unknown :
    (argv available : List String)
    → is_nil (unknown_ids argv available) ≡ true
    → (id : String) → Memᴰ id argv
    → Memᴰ id available
none_unknown [] available h id m = elim m [ ]
none_unknown (a ∷ argv) available h id m = elim (Bool-cases (contains a available)) [
  | inr missing ↦ absurd (cc (rw missing at h))
  | inl there ↦ elim m [
    | Memᴰ.head p ↦ rw p (contains-mem a available there)
    | Memᴰ.tail t ↦ none_unknown argv available (rw there at h) id t
  ]
]

-- A promotion that writes the file keeps its dates, enforces exactly what was enforced before and
-- what it names, and names nothing but checks of the contract; it then exits with 0.
pub promote_file-written :
    (argv available : List String) (file new : AdoptionFile)
    → (promote_file argv available file).file ≡ written new
    → ((id : String) → Memᴰ id new.enforce ↔ (Memᴰ id file.enforce ⊎ Memᴰ id argv))
      × ((id : String) → Memᴰ id argv → Memᴰ id available)
      × (new.started_at ≡ file.started_at)
      × (new.expires_at ≡ file.expires_at)
      × ((promote_file argv available file).exit_code ≡ 0)
unfolding promote_file
promote_file-written argv available file new h = elim (Bool-cases (is_nil argv)) [
  | inl empty ↦ absurd (cc (rw empty at h))
  | inr some_named ↦ elim (Bool-cases (contains "--all" argv)) [
    | inl all ↦ elim (Bool-cases (ltb 1 (length argv))) [
      | inl more ↦ absurd (cc (rw (some_named, all, more) at h))
      | inr alone ↦ absurd (cc (rw (some_named, all, alone) at h))
    ]
    | inr listed ↦ elim (Bool-cases (is_nil (unknown_ids argv available))) [
      | inr unknown ↦ absurd (cc (rw (some_named, listed, unknown) at h))
      | inl known ↦
          let same : record {
            started_at = file.started_at;
            expires_at = file.expires_at;
            enforce = promoted file.enforce argv;
          }
              ≡ new =
            cc (rw (some_named, listed, known) at h) in
          (
            λ id.
                subst (λ z. Memᴰ id z ↔ (Memᴰ id file.enforce ⊎ Memᴰ id argv))
                  (ap (λ z. z.enforce) same) (promoted_iff file.enforce argv id),
            none_unknown argv available known,
            sym (ap (λ z. z.started_at) same),
            sym (ap (λ z. z.expires_at) same),
            rw (some_named, listed, known) refl,
          )
    ]
  ]
]

module _ (enforce : List String) where
  is_advisory_cases :
      (id : String) (outcome : Outcome)
      → (is_advisory enforce (id, outcome) ≡ true)
        ↔ ((outcome ≡ fail) × (contains id enforce ≡ false) × ((id === "AdoptionMode") ≡ false))
  is_advisory_cases id pass = ground arith
  is_advisory_cases id warn = ground arith
  is_advisory_cases id fail = ground arith

  advisory-mem :
      (results : List (String × Outcome)) (id : String)
      → Memᴰ id (ids (filter (is_advisory enforce) results)) ↔ (
          Memᴰ (id, fail) results
          × (contains id enforce ≡ false)
          × ((id === "AdoptionMode") ≡ false))
  advisory-mem [] id = (λ m. elim m [ ], λ h. elim h.0 [ ])
  advisory-mem ((k, o) ∷ results) id =
      let later = advisory-mem results id in
      let this = is_advisory_cases k o in
      elim (Bool-cases (is_advisory enforce (k, o))) [
        | inl kept ↦ (
          λ m. elim (rw kept at m) [
            | Memᴰ.head p ↦
                let (fails, out, other) = this.0 kept in
                rw p (Memᴰ.head (ap (λ z. (k, z)) (sym fails)), out, other)
            | Memᴰ.tail t ↦ (Memᴰ.tail (later.0 t).0, (later.0 t).1, (later.0 t).2)
          ],
          λ h. elim h.0 [
            | Memᴰ.head p ↦ rw kept (Memᴰ.head (ap (λ z. z.0) p))
            | Memᴰ.tail t ↦ rw kept (Memᴰ.tail (later.1 (t, h.1, h.2)))
          ],
        )
        | inr dropped ↦ (
          λ m. (
            Memᴰ.tail (later.0 (rw dropped at m)).0,
            (later.0 (rw dropped at m)).1,
            (later.0 (rw dropped at m)).2,
          ),
          λ h. elim h.0 [
            | Memᴰ.head p ↦
                let same : id ≡ k = ap (λ z. z.0) p in
                absurd (
                  cc (
                    dropped,
                    this.1 (
                      sym (ap (λ z. z.1) p),
                      subst (λ z. contains z enforce ≡ false) same h.1,
                      subst (λ z. (z === "AdoptionMode") ≡ false) same h.2,
                    ),
                  ))
            | Memᴰ.tail t ↦ rw dropped (later.1 (t, h.1, h.2))
          ],
        )
      ]

absent_iff :
    (id : String) (enforce : List String) → (contains id enforce ≡ false) ↔ (¬ Memᴰ id enforce)
absent_iff id enforce = (
  λ h m. cc (h, mem-contains id enforce m),
  λ h. elim (Bool-cases (contains id enforce)) [
    | inl there ↦ absurd (h (contains-mem id enforce there))
    | inr missing ↦ missing
  ],
)

-- While an adoption is active, a failure is advisory exactly if it is one of a check that is not
-- enforced and is not AdoptionMode itself; in every other state none is.
pub advisory_failures_iff :
    (results : List (String × Outcome)) (adoption : Adoption) (id : String)
    → Memᴰ id (advisory_failures results adoption) ↔ (
        (file : AdoptionFile) × (left : Option ℤ) × (adoption ≡ active file left)
        × Memᴰ (id, fail) results
        × (¬ Memᴰ id file.enforce)
        × (id ≢ "AdoptionMode"))
unfolding advisory_failures
advisory_failures_iff results absent id = (λ m. elim m [ ], λ h. absurd (cc (h.2)))
advisory_failures_iff results (invalid what) id = (λ m. elim m [ ], λ h. absurd (cc (h.2)))
advisory_failures_iff results (expired file left) id = (λ m. elim m [ ], λ h. absurd (cc (h.2)))
advisory_failures_iff results (active file left) id = (
  λ m.
      let (here, out, other) = (advisory-mem file.enforce results id).0 m in
      (
        file,
        left,
        refl,
        here,
        (absent_iff id file.enforce).0 out,
        ne_of_same id "AdoptionMode" other,
      ),
  λ h.
      let same : h.0 ≡ file = cc (h.2) in
      (advisory-mem file.enforce results id).1 (
        h.3,
        (absent_iff id file.enforce).1 (subst (λ z. ¬ Memᴰ id z.enforce) same h.4),
        same_of_ne id "AdoptionMode" h.5,
      ),
)

-- Once a promotion has written the file, no failure of a check that it names is advisory, and no
-- failure is advisory that was not before: a promotion never makes the run more lenient.
pub promote_file-advisory :
    (argv available : List String) (file new : AdoptionFile) (results : List (String × Outcome))
    (left : Option ℤ)
    → (promote_file argv available file).file ≡ written new
    → ((id : String) → Memᴰ id argv → ¬ Memᴰ id (advisory_failures results (active new left)))
      × ((id : String)
          → Memᴰ id (advisory_failures results (active new left))
          → Memᴰ id (advisory_failures results (active file left)))
unfolding advisory_failures
promote_file-advisory argv available file new results left h =
    let (enforced, known, started, expires, exits) =
      promote_file-written argv available file new h in
    (
      λ id named m.
          let (here, out, other) = (advisory-mem new.enforce results id).0 m in
          (absent_iff id new.enforce).0 out ((enforced id).1 (inr named)),
      λ id m.
          let (here, out, other) = (advisory-mem new.enforce results id).0 m in
          (advisory-mem file.enforce results id).1 (
            here,
            (absent_iff id file.enforce).1
                (λ old. (absent_iff id new.enforce).0 out ((enforced id).1 (inl old))),
            other,
          ),
    )
