-- ===== src/ApiContract/Classifier/Overloads/Lookup.antt =====
-- Which overload sets a grouping has (scripts/api-contract/compatibility-classifier.ts).
use mathlib.Core.Option
use internal_package_contrac.Shared.{
  String, true, Option, none, some, List, [], ◌∷◌, ◌++◌, ◌≡◌, ◌≢◌, refl, ap, ◌∙◌, Memᴰ, Bool-cases,
  inl, inr, same_refl, Option-cases, subst, sym, mem_of_append, eq_of_same, ◌===◌, same_of_ne,
}
use internal_package_contrac.Shared.Dicts.{get, set, get-set}
use internal_package_contrac.ApiContract.Members.{NormalizedMember}
use internal_package_contrac.ApiContract.Classifier.Overloads.{
  GroupKey, group_key, group_key_Eq, Groups, Grouping, group_member, group_overloads,
  is_overloadable,
}

-- The groups have an overload set, with a member in it, under the key.
abbrev pub HasGroup : GroupKey → Groups → Type 0
HasGroup key groups =
    (x : NormalizedMember) × (xs : List NormalizedMember) × (get key groups ≡ some (x ∷ xs))

abbrev extended : NormalizedMember → Groups → List NormalizedMember
extended m groups = Option.get_or (get (group_key m) groups) [] ++ m ∷ []

nonempty :
    (o : Option (List NormalizedMember)) (m : NormalizedMember)
    → (x : NormalizedMember) × (xs : List NormalizedMember) × (Option.get_or o [] ++ m ∷ []
        ≡ x ∷ xs)
nonempty none m = (m, [], refl)
nonempty (some []) m = (m, [], refl)
nonempty (some (x ∷ xs)) m = (x, xs ++ m ∷ [], refl)

HasGroup-new :
    (m : NormalizedMember) (groups : Groups)
    → HasGroup (group_key m) (set (group_key m) (extended m groups) groups)
HasGroup-new m groups =
    let (x, xs, e) = nonempty (get (group_key m) groups) m in
    (
      x,
      xs,
      rw
          (
            get-set (group_key m) (group_key m) (extended m groups) groups,
            same_refl (group_key m),
            e,
          )
          refl,
    )

HasGroup-set :
    (key : GroupKey) (m : NormalizedMember) (groups : Groups)
    → HasGroup key groups
    → HasGroup key (set (group_key m) (extended m groups) groups)
HasGroup-set key m groups (x, xs, e) = elim (Bool-cases (group_key m === key)) [
  | inl same ↦
      let (y, ys, e') = nonempty (get (group_key m) groups) m in
      (y, ys, rw (get-set (group_key m) key (extended m groups) groups, same, e') refl)
  | inr other ↦ (x, xs, rw (get-set (group_key m) key (extended m groups) groups, other) e)
]

HasGroup-group_member :
    (key : GroupKey) (m : NormalizedMember) (s : Grouping)
    → HasGroup key s.groups
    → HasGroup key (group_member m s).groups
unfolding group_member
HasGroup-group_member key m s h = elim (Bool-cases (is_overloadable m)) [
  | inl over ↦ rw over (HasGroup-set key m s.groups h)
  | inr plain ↦ rw plain h
]

HasGroup-group_overloads :
    (key : GroupKey) (ms : List (String × NormalizedMember)) (s : Grouping)
    → HasGroup key s.groups
    → HasGroup key (group_overloads ms s).groups
unfolding group_overloads
HasGroup-group_overloads key [] s h = h
HasGroup-group_overloads key ((k, m) ∷ ms) s h =
    HasGroup-group_overloads key ms (group_member m s) (HasGroup-group_member key m s h)

-- The overload set of an overloadable member is there.
pub HasGroup-of_mem :
    (ms : List (String × NormalizedMember)) (s : Grouping) {k : String} {m : NormalizedMember}
    → Memᴰ (k, m) ms
    → is_overloadable m ≡ true
    → HasGroup (group_key m) (group_overloads ms s).groups
unfolding group_overloads group_member
HasGroup-of_mem [] s i over = elim i [ ]
HasGroup-of_mem ((j, n) ∷ ms) s {k} {m} (Memᴰ.head e) over =
    let member : m ≡ n = ap (λ x. x.1) e in
    HasGroup-group_overloads (group_key m) ms (group_member n s)
      (rw member (rw (rw member at over) (HasGroup-new n s.groups)))
HasGroup-of_mem ((j, n) ∷ ms) s (Memᴰ.tail i) over = HasGroup-of_mem ms (group_member n s) i over

-- No overloadable member of the map belongs to the overload set.
abbrev pub NoneInGroup : GroupKey → List (String × NormalizedMember) → Type 0
NoneInGroup key ms =
    (e : String × NormalizedMember) → Memᴰ e ms → is_overloadable e.1 ≡ true → group_key e.1 ≢ key

lacks-group_member :
    (key : GroupKey) (m : NormalizedMember) (s : Grouping)
    → (is_overloadable m ≡ true → group_key m ≢ key)
    → get key s.groups ≡ none
    → get key (group_member m s).groups ≡ none
unfolding group_member
lacks-group_member key m s other h = elim (Bool-cases (is_overloadable m)) [
  | inl over ↦ rw over (
      get-set (group_key m) key (extended m s.groups) s.groups
      ∙ (rw (same_of_ne (group_key m) key (other over)) h))
  | inr plain ↦ rw plain h
]

pub lacks_of_NoneInGroup :
    (key : GroupKey) (ms : List (String × NormalizedMember)) (s : Grouping)
    → NoneInGroup key ms
    → get key s.groups ≡ none
    → get key (group_overloads ms s).groups ≡ none
unfolding group_overloads
lacks_of_NoneInGroup key [] s n h = h
lacks_of_NoneInGroup key ((k, m) ∷ ms) s n h =
    lacks_of_NoneInGroup key ms (group_member m s) (λ e i. n e (Memᴰ.tail i))
      (lacks-group_member key m s (n (k, m) (Memᴰ.head refl)) h)

-- An overloadable member of the map, of the overload set of the key.
abbrev pub InGroup : GroupKey → List (String × NormalizedMember) → NormalizedMember → Type 0
InGroup key ms x =
    ((k : String) × Memᴰ (k, x) ms) × (is_overloadable x ≡ true) × (group_key x ≡ key)

-- Each member that the groups hold is of the map, under its own key.
abbrev AreFrom : List (String × NormalizedMember) → Groups → Type 0
AreFrom ms groups =
    (key : GroupKey) (xs : List NormalizedMember) (x : NormalizedMember)
    → get key groups ≡ some xs
    → Memᴰ x xs
    → InGroup key ms x

AreFrom-extended :
    (ms : List (String × NormalizedMember)) (groups : Groups) (m x : NormalizedMember)
    → AreFrom ms groups
    → InGroup (group_key m) ms m
    → Memᴰ x (extended m groups)
    → InGroup (group_key m) ms x
AreFrom-extended ms groups m x from here i = elim (Option-cases (get (group_key m) groups)) [
  | inl absent ↦ elim (rw absent at i) [
    | Memᴰ.head e ↦ subst (InGroup (group_key m) ms) (sym e) here
    | Memᴰ.tail t ↦ elim t [ ]
  ]
  | inr (xs, e) ↦ elim (mem_of_append xs (rw e at i)) [
    | inl before ↦ from (group_key m) xs x e before
    | inr last ↦ elim last [
      | Memᴰ.head p ↦ subst (InGroup (group_key m) ms) (sym p) here
      | Memᴰ.tail t ↦ elim t [ ]
    ]
  ]
]

AreFrom-group_member :
    (ms : List (String × NormalizedMember)) (k : String) (m : NormalizedMember) (s : Grouping)
    → AreFrom ms s.groups
    → Memᴰ (k, m) ms
    → AreFrom ms (group_member m s).groups
unfolding group_member
AreFrom-group_member ms k m s from here key xs x e i = elim (Bool-cases (is_overloadable m)) [
  | inr plain ↦ from key xs x (rw plain at e) i
  | inl over ↦ elim (Bool-cases (group_key m === key)) [
    | inr other ↦
        from key xs x
          (rw other at
            (sym (get-set (group_key m) key (extended m s.groups) s.groups) ∙ (rw over at e)))
          i
    | inl same ↦
        let q : extended m s.groups ≡ xs = cc (
          rw same at
            (sym (get-set (group_key m) key (extended m s.groups) s.groups) ∙ (rw over at e))) in
        subst (λ z. InGroup z ms x) (eq_of_same (group_key m) key same)
          (AreFrom-extended ms s.groups m x from ((k, here), over, refl) (rw (sym q) at i))
  ]
]

pub AreFrom-group_overloads :
    (ms rest : List (String × NormalizedMember)) (s : Grouping)
    → AreFrom ms s.groups
    → ((e : String × NormalizedMember) → Memᴰ e rest → Memᴰ e ms)
    → AreFrom ms (group_overloads rest s).groups
unfolding group_overloads
AreFrom-group_overloads ms [] s from h = from
AreFrom-group_overloads ms ((k, m) ∷ rest) s from h =
    AreFrom-group_overloads ms rest (group_member m s)
      (AreFrom-group_member ms k m s from (h (k, m) (Memᴰ.head refl))) (λ e i. h e (Memᴰ.tail i))
