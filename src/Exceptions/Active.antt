-- ===== src/Exceptions/Active.antt =====
-- The active records of a reconciled registry by their ids, as each check looks them up.
use internal_package_contrac.Shared.{
  String, Bool, true, false, Option, List, [], ◌∷◌, ◌≡◌, ◌⊎◌, inl, inr, refl, sym, ap, map, Memᴰ,
  string_Eq,
}
use internal_package_contrac.Shared.Dicts.{get, map_of}
use internal_package_contrac.Exceptions.{ExceptionRecord}
use internal_package_contrac.Exceptions.Findings.{
  Verdict, forbidden, insufficient, permitted, unmatched, PersistedExceptionRegistry, Persisted,
  persisted, not_persisted,
}

abbrev pub by_id : ExceptionRecord → String × ExceptionRecord
by_id r = (r.id, r)

-- `activeById.get(id)`
abbrev pub active_by_id : List ExceptionRecord → String → Option ExceptionRecord
active_by_id active id = get id (map_of (map by_id active))

abbrev pub is_permitted : Verdict → Bool
is_permitted permitted = true
is_permitted _ = false

pub mem_of_by_id :
    (active : List ExceptionRecord) {id : String} {r : ExceptionRecord}
    → Memᴰ (id, r) (map by_id active)
    → Memᴰ r active × (r.id ≡ id)
mem_of_by_id [] m = elim m [ ]
mem_of_by_id (s ∷ active) (Memᴰ.head e) =
    (Memᴰ.head (ap (λ p. p.1) e), rw (ap (λ p. p.1) e) (sym (ap (λ p. p.0) e)))
mem_of_by_id (s ∷ active) (Memᴰ.tail m) =
    let (there, same) = mem_of_by_id active m in (Memᴰ.tail there, same)

pub is_permitted-eq : (v : Verdict) → is_permitted v ≡ true → v ≡ permitted
is_permitted-eq permitted h = refl
is_permitted-eq forbidden h = cc
is_permitted-eq insufficient h = cc
is_permitted-eq unmatched h = cc

pub Persisted-cases :
    (p : Persisted)
    → ((rationale : String) × (p ≡ not_persisted rationale))
      ⊎ ((registry : PersistedExceptionRegistry) × (p ≡ persisted registry))
Persisted-cases (not_persisted rationale) = inl (rationale, refl)
Persisted-cases (persisted registry) = inr (registry, refl)
