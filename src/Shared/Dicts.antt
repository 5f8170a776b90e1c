-- ===== src/Shared/Dicts.antt =====
-- `Map` and `Set`, and the objects used as maps: entries in the order of their insertion.
use mathlib.Core.Path.{◌≡◌, refl, sym, subst}
use mathlib.Core.Logic.{◌≢◌, ◌⊎◌, inl, inr}
use mathlib.Core.Bool.{Bool, true, false, ◌||◌}
use mathlib.Core.Option.{Option, none, some}
use mathlib.Core.List.{List, [], ◌∷◌, ◌++◌, Memᴰ}
use native.Mathlib.Omega.{arith}
use internal_package_contrac.Shared.Tests.{
  Eq, ◌===◌, if◌then◌else◌, Bool-cases, same_refl, eq_of_same, ne_of_same, same_of_ne,
}
use internal_package_contrac.Shared.Lists.{mem-append_left, mem-append_right, mem_of_append}

module _ {ℓ κ} {K : Type ℓ} {V : Type κ} ⦃e : Eq K⦄ where
  -- `map.get(k)`, `object[k]`
  unfoldable pub get : K → List (K × V) → Option V
  get k [] = none
  get k ((j, v) ∷ m) = if j === k then some v else get k m

  -- `map.set(k, v)`: a key that is there keeps its place.
  unfoldable pub set : K → V → List (K × V) → List (K × V)
  set k v [] = (k, v) ∷ []
  set k v ((j, w) ∷ m) = if j === k then (j, v) ∷ m else (j, w) ∷ set k v m

  -- No key stands before an entry of the same key.
  abbrev pub Lacks : K → List (K × V) → Type ℓ
  Lacks k [] = Unit
  Lacks k ((j, v) ∷ m) = (j ≢ k) × Lacks k m

  abbrev pub HasUniqueKeys : List (K × V) → Type ℓ
  HasUniqueKeys [] = Unit
  HasUniqueKeys ((j, v) ∷ m) = Lacks j m × HasUniqueKeys m

  pub get-set :
      (k j : K) (v : V) (m : List (K × V))
      → get j (set k v m) ≡ (if k === j then some v else get j m)
  unfolding get set
  get-set k j v [] = refl
  get-set k j v ((i, w) ∷ m) = elim (Bool-cases (i === k)) [
    | inl same ↦
        let p : i ≡ k = eq_of_same i k same in
        ground (arith, same, subst (λ z. (i === j) ≡ (z === j)) p refl)
    | inr other ↦ elim (Bool-cases (i === j)) [
      | inl there ↦
          let k≢j : (k === j) ≡ false = same_of_ne k j (λ p. cc (
            subst (λ z. (z === k) ≡ true) (sym (eq_of_same i j there))
              (subst (λ z. (j === z) ≡ true) (sym p) (same_refl j)))) in
          ground (arith, other, there, k≢j)
      | inr absent ↦ ground (arith, other, absent, get-set k j v m)
    ]
  ]

  Lacks-mem : (k : K) {v : V} (m : List (K × V)) → Lacks k m → ¬ Memᴰ (k, v) m
  Lacks-mem k [] h m = elim m [ ]
  Lacks-mem k ((j, w) ∷ m) (p, h) (Memᴰ.head q) = p (cc)
  Lacks-mem k ((j, w) ∷ m) (p, h) (Memᴰ.tail t) = Lacks-mem k m h t

  -- In a map every entry is what its key looks up.
  pub get_of_mem :
      {k : K} {v : V} (m : List (K × V)) → HasUniqueKeys m → Memᴰ (k, v) m → get k m ≡ some v
  unfolding get
  get_of_mem [] h m = elim m [ ]
  get_of_mem {k} {v} ((j, w) ∷ m) (p, h) (Memᴰ.head q) =
      let here : (j === k) ≡ true = (e.same_iff j k).1 (cc) in
      let value : w ≡ v = cc in ground (arith, here, value)
  get_of_mem {k} {v} ((j, w) ∷ m) (p, h) (Memᴰ.tail t) =
      let other : (j === k) ≡ false =
        same_of_ne j k (λ q. Lacks-mem j m p (subst (λ z. Memᴰ (z, v) m) (sym q) t)) in
      rw other (get_of_mem m h t)

  pub mem_of_get : (k : K) {v : V} (m : List (K × V)) → get k m ≡ some v → Memᴰ (k, v) m
  unfolding get
  mem_of_get k [] h = cc
  mem_of_get k ((j, w) ∷ m) h = elim (Bool-cases (j === k)) [
    | inl same ↦ Memᴰ.head (cc (eq_of_same j k same, rw same at h))
    | inr other ↦ Memᴰ.tail (mem_of_get k m (rw other at h))
  ]

  Lacks-set : (k j : K) (v : V) (m : List (K × V)) → j ≢ k → Lacks k m → Lacks k (set j v m)
  unfolding set
  Lacks-set k j v [] p h = (p, tt)
  Lacks-set k j v ((i, w) ∷ m) p (q, h) = elim (Bool-cases (i === j)) [
    | inl same ↦ rw same (q, h)
    | inr other ↦ rw other (q, Lacks-set k j v m p h)
  ]

  pub set-HasUniqueKeys :
      (k : K) (v : V) (m : List (K × V)) → HasUniqueKeys m → HasUniqueKeys (set k v m)
  unfolding set
  set-HasUniqueKeys k v [] h = (tt, tt)
  set-HasUniqueKeys k v ((i, w) ∷ m) (p, h) = elim (Bool-cases (i === k)) [
    | inl same ↦ rw same (p, h)
    | inr other ↦
        rw other
          (Lacks-set i k v m (λ q. ne_of_same i k other (sym q)) p, set-HasUniqueKeys k v m h)
  ]

module _ {ℓ} {K : Type ℓ} ⦃e : Eq K⦄ where
  -- `set.has(k)`, `array.includes(k)`
  abbrev pub contains : K → List K → Bool
  contains k [] = false
  contains k (j ∷ s) = (j === k) || contains k s

  -- `set.add(k)`
  abbrev pub add : K → List K → List K
  add k s = if contains k s then s else s ++ k ∷ []

  add_all : List K → List K → List K
  add_all s [] = s
  add_all s (k ∷ ks) = add_all (add k s) ks

  -- `new Set(keys)`
  unfoldable pub set_of : List K → List K
  unfolding add_all
  set_of ks = add_all [] ks

  abbrev pub keys {κ} : {V : Type κ} → List (K × V) → List K
  keys [] = []
  keys ((k, v) ∷ m) = k ∷ keys m

  pub contains-mem : (k : K) (s : List K) → contains k s ≡ true → Memᴰ k s
  contains-mem k [] h = cc
  contains-mem k (j ∷ s) h = elim (Bool-cases (j === k)) [
    | inl same ↦ Memᴰ.head (sym (eq_of_same j k same))
    | inr other ↦ Memᴰ.tail (contains-mem k s (ground (arith, other)))
  ]

  pub mem-contains : (k : K) (s : List K) → Memᴰ k s → contains k s ≡ true
  mem-contains k [] m = elim m [ ]
  mem-contains k (j ∷ s) (Memᴰ.head p) = ground (arith, (e.same_iff j k).1 (sym p))
  mem-contains k (j ∷ s) (Memᴰ.tail m) = ground (arith, mem-contains k s m)

  pub mem-add_self : (k : K) (s : List K) → Memᴰ k (add k s)
  mem-add_self k s = elim (Bool-cases (contains k s)) [
    | inl there ↦ rw there (contains-mem k s there)
    | inr absent ↦ rw absent (mem-append_right s (Memᴰ.head refl))
  ]

  pub mem-add : {j : K} (k : K) (s : List K) → Memᴰ j s → Memᴰ j (add k s)
  mem-add k s m = elim (Bool-cases (contains k s)) [
    | inl there ↦ rw there m
    | inr absent ↦ rw absent (mem-append_left (k ∷ []) m)
  ]

  mem-add_all : {j : K} (s ks : List K) → Memᴰ j s → Memᴰ j (add_all s ks)
  unfolding add_all
  mem-add_all s [] m = m
  mem-add_all s (k ∷ ks) m = mem-add_all (add k s) ks (mem-add k s m)

  mem-add_all_right : {j : K} (s ks : List K) → Memᴰ j ks → Memᴰ j (add_all s ks)
  unfolding add_all
  mem-add_all_right s [] m = elim m [ ]
  mem-add_all_right {j} s (k ∷ ks) (Memᴰ.head p) =
      mem-add_all (add k s) ks (subst (λ z. Memᴰ z (add k s)) (sym p) (mem-add_self k s))
  mem-add_all_right s (k ∷ ks) (Memᴰ.tail m) = mem-add_all_right (add k s) ks m

  -- A set built from keys has each of them.
  pub mem-set_of : {k : K} (ks : List K) → Memᴰ k ks → Memᴰ k (set_of ks)
  unfolding set_of
  mem-set_of ks m = mem-add_all_right [] ks m

  pub mem-keys_of_get {κ} :
      {V : Type κ} (k : K) {v : V} (m : List (K × V)) → get k m ≡ some v → Memᴰ k (keys m)
  unfolding get
  mem-keys_of_get k [] h = cc
  mem-keys_of_get k ((j, w) ∷ m) h = elim (Bool-cases (j === k)) [
    | inl same ↦ Memᴰ.head (sym (eq_of_same j k same))
    | inr other ↦ Memᴰ.tail (mem-keys_of_get k m (rw other at h))
  ]

  mem_of_add : {j : K} (k : K) (s : List K) → Memᴰ j (add k s) → Memᴰ j s ⊎ (j ≡ k)
  mem_of_add {j} k s m = elim (Bool-cases (contains k s)) [
    | inl there ↦ inl (rw there at m)
    | inr absent ↦ elim (mem_of_append s (rw absent at m)) [
      | inl before ↦ inl before
      | inr here ↦ inr (elim here [ Memᴰ.head p ↦ p | Memᴰ.tail rest ↦ elim rest [ ] ])
    ]
  ]

  mem_of_add_all : {j : K} (s ks : List K) → Memᴰ j (add_all s ks) → Memᴰ j s ⊎ Memᴰ j ks
  unfolding add_all
  mem_of_add_all s [] m = inl m
  mem_of_add_all s (k ∷ ks) m = elim (mem_of_add_all (add k s) ks m) [
    | inl added ↦ elim (mem_of_add k s added) [
      | inl before ↦ inl before
      | inr p ↦ inr (Memᴰ.head p)
    ]
    | inr later ↦ inr (Memᴰ.tail later)
  ]

  -- A set built from keys has no others.
  pub mem_of_set_of : {k : K} (ks : List K) → Memᴰ k (set_of ks) → Memᴰ k ks
  unfolding set_of
  mem_of_set_of ks m = elim (mem_of_add_all [] ks m) [
    | inl before ↦ elim before [ ]
    | inr here ↦ here
  ]

  pub get_of_mem_keys {κ} :
      {V : Type κ} (k : K) (m : List (K × V)) → Memᴰ k (keys m) → (v : V) × (get k m ≡ some v)
  unfolding get
  get_of_mem_keys k [] m = elim m [ ]
  get_of_mem_keys k ((j, w) ∷ m) (Memᴰ.head p) =
      let here : (j === k) ≡ true = (e.same_iff j k).1 (sym p) in (w, ground (arith, here))
  get_of_mem_keys k ((j, w) ∷ m) (Memᴰ.tail t) = elim (Bool-cases (j === k)) [
    | inl same ↦ (w, ground (arith, same))
    | inr other ↦ let (v, there) = get_of_mem_keys k m t in (v, ground (arith, other, there))
  ]

module _ {ℓ κ} {K : Type ℓ} {V : Type κ} ⦃e : Eq K⦄ where
  set_all : List (K × V) → List (K × V) → List (K × V)
  set_all m [] = m
  set_all m ((k, v) ∷ entries) = set_all (set k v m) entries

  -- `new Map(entries)`
  unfoldable pub map_of : List (K × V) → List (K × V)
  unfolding set_all
  map_of entries = set_all [] entries

  mem_of_get-set_all :
      (k : K) {v : V} (m entries : List (K × V))
      → get k (set_all m entries) ≡ some v
      → (get k m ≡ some v) ⊎ Memᴰ (k, v) entries
  unfolding set_all
  mem_of_get-set_all k m [] h = inl h
  mem_of_get-set_all k {v} m ((j, w) ∷ entries) h =
      elim (mem_of_get-set_all k (set j w m) entries h) [
        | inr later ↦ inr (Memᴰ.tail later)
        | inl now ↦
            let q = rw (get-set j k w m) at now in
            elim (Bool-cases (j === k)) [
              | inl same ↦ inr (Memᴰ.head (cc (eq_of_same j k same, rw same at q)))
              | inr other ↦ inl (rw other at q)
            ]
      ]

  -- A map built from entries finds nothing but what they hold.
  pub mem_of_get_map_of :
      (k : K) {v : V} (entries : List (K × V))
      → get k (map_of entries) ≡ some v
      → Memᴰ (k, v) entries
  unfolding map_of get
  mem_of_get_map_of k entries h = elim (mem_of_get-set_all k [] entries h) [
    | inl absent ↦ cc absent
    | inr there ↦ there
  ]

  get-set_all-some :
      (k : K) {v : V} (m entries : List (K × V))
      → get k m ≡ some v
      → (w : V) × (get k (set_all m entries) ≡ some w)
  unfolding set_all
  get-set_all-some k {v} m [] h = (v, h)
  get-set_all-some k {v} m ((j, w) ∷ entries) h = elim (Bool-cases (j === k)) [
    | inl same ↦ get-set_all-some k {v = w} (set j w m) entries (rw (get-set j k w m, same) refl)
    | inr other ↦ get-set_all-some k {v = v} (set j w m) entries (rw (get-set j k w m, other) h)
  ]

  get-set_all_mem :
      (k : K) {v : V} (m entries : List (K × V))
      → Memᴰ (k, v) entries
      → (w : V) × (get k (set_all m entries) ≡ some w)
  unfolding set_all
  get-set_all_mem k m [] h = elim h [ ]
  get-set_all_mem k {v} m ((j, w) ∷ entries) (Memᴰ.head p) =
      let same : (j === k) ≡ true = (e.same_iff j k).1 (cc p) in
      get-set_all-some k {v = w} (set j w m) entries (rw (get-set j k w m, same) refl)
  get-set_all_mem k m ((j, w) ∷ entries) (Memᴰ.tail t) = get-set_all_mem k (set j w m) entries t

  -- A map built from entries finds each of their keys.
  pub get-map_of :
      (k : K) {v : V} (entries : List (K × V))
      → Memᴰ (k, v) entries
      → (w : V) × (get k (map_of entries) ≡ some w)
  unfolding map_of
  get-map_of k entries m = get-set_all_mem k [] entries m
