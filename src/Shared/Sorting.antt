-- ===== src/Shared/Sorting.antt =====
-- `Array.prototype.sort` with a comparator: stable, so the result is determined by a total preorder.
use mathlib.Core.Path.{◌≡◌, refl, sym, subst}
use mathlib.Core.Logic.{inl, inr}
use mathlib.Core.Bool.{Bool, true, false}
use mathlib.Core.List.{List, [], ◌∷◌, Memᴰ, Perm}
use mathlib.Core.List.Perm
use internal_package_contrac.Shared.Tests.{if◌then◌else◌, Bool-cases}
use internal_package_contrac.Shared.Lists.{All}

-- What a sort relies on: the order is total and transitive.
pub record IsTotalPreorder {ℓ} {A : Type ℓ} (le : A → A → Bool) : Type ℓ where
  pub total : (a b : A) → le a b ≡ false → le b a ≡ true
  pub trans : (a b c : A) → le a b ≡ true → le b c ≡ true → le a c ≡ true

module _ {ℓ} {A : Type ℓ} (le : A → A → Bool) where
  -- Before the first item that it is not after.
  unfoldable pub insert : A → List A → List A
  insert a [] = a ∷ []
  insert a (x ∷ xs) = let rest = insert a xs in if le a x then a ∷ x ∷ xs else x ∷ rest

  unfoldable pub sort : List A → List A
  sort [] = []
  sort (x ∷ xs) = insert x (sort xs)

  abbrev pub IsSorted : List A → Type ℓ
  IsSorted [] = Unit
  IsSorted (x ∷ xs) = All (λ y. le x y ≡ true) xs × IsSorted xs

  insert-perm : (a : A) (xs : List A) → Perm (insert a xs) (a ∷ xs)
  unfolding insert
  insert-perm a [] = Perm.refl _
  insert-perm a (x ∷ xs) = elim (Bool-cases (le a x)) [
    | inl before ↦ rw before (Perm.refl _)
    | inr after ↦ rw after (Perm.trans (Perm.cons x (insert-perm a xs)) (Perm.swap a x xs))
  ]

  pub sort-perm : (xs : List A) → Perm (sort xs) xs
  unfolding sort
  sort-perm [] = Perm.refl _
  sort-perm (x ∷ xs) = Perm.trans (insert-perm x (sort xs)) (Perm.cons x (sort-perm xs))

  mem_of_insert : {a : A} (b : A) (xs : List A) → Memᴰ a (insert b xs) → Memᴰ a (b ∷ xs)
  unfolding insert
  mem_of_insert b [] m = m
  mem_of_insert {a} b (x ∷ xs) m = elim (Bool-cases (le b x)) [
    | inl before ↦ rw before at m
    | inr after ↦ swap (mem_of_insert b xs) (rw after at m)
  ]
    where
      swap :
          (Memᴰ a (insert b xs) → Memᴰ a (b ∷ xs)) → Memᴰ a (x ∷ insert b xs) → Memᴰ a (b ∷ x ∷ xs)
      swap ih (Memᴰ.head e) = Memᴰ.tail (Memᴰ.head e)
      swap ih (Memᴰ.tail t) = past (ih t)
        where
          past : Memᴰ a (b ∷ xs) → Memᴰ a (b ∷ x ∷ xs)
          past (Memᴰ.head e) = Memᴰ.head e
          past (Memᴰ.tail u) = Memᴰ.tail (Memᴰ.tail u)

  mem-insert_self : (a : A) (xs : List A) → Memᴰ a (insert a xs)
  unfolding insert
  mem-insert_self a [] = Memᴰ.head refl
  mem-insert_self a (x ∷ xs) = elim (Bool-cases (le a x)) [
    | inl before ↦ rw before (Memᴰ.head refl)
    | inr after ↦ rw after (Memᴰ.tail (mem-insert_self a xs))
  ]

  mem-insert_of_mem : {a : A} (b : A) (xs : List A) → Memᴰ a xs → Memᴰ a (insert b xs)
  unfolding insert
  mem-insert_of_mem b [] m = elim m [ ]
  mem-insert_of_mem b (x ∷ xs) (Memᴰ.head e) = elim (Bool-cases (le b x)) [
    | inl before ↦ rw before (Memᴰ.tail (Memᴰ.head e))
    | inr after ↦ rw after (Memᴰ.head e)
  ]
  mem-insert_of_mem b (x ∷ xs) (Memᴰ.tail t) = elim (Bool-cases (le b x)) [
    | inl before ↦ rw before (Memᴰ.tail (Memᴰ.tail t))
    | inr after ↦ rw after (Memᴰ.tail (mem-insert_of_mem b xs t))
  ]

  pub mem-sort : {a : A} (xs : List A) → Memᴰ a xs → Memᴰ a (sort xs)
  unfolding sort
  mem-sort [] m = m
  mem-sort (x ∷ xs) (Memᴰ.head e) =
      subst (λ z. Memᴰ z (insert x (sort xs))) (sym e) (mem-insert_self x (sort xs))
  mem-sort (x ∷ xs) (Memᴰ.tail t) = mem-insert_of_mem x (sort xs) (mem-sort xs t)

  pub mem_of_sort : {a : A} (xs : List A) → Memᴰ a (sort xs) → Memᴰ a xs
  unfolding sort
  mem_of_sort [] m = m
  mem_of_sort (x ∷ xs) m = later (mem_of_sort xs) (mem_of_insert x (sort xs) m)
    where
      later : {a : A} → (Memᴰ a (sort xs) → Memᴰ a xs) → Memᴰ a (x ∷ sort xs) → Memᴰ a (x ∷ xs)
      later ih (Memᴰ.head e) = Memᴰ.head e
      later ih (Memᴰ.tail t) = Memᴰ.tail (ih t)

  module _ (order : IsTotalPreorder le) where
    All-insert {κ} : (P : A → Type κ) (a : A) (xs : List A) → P a → All P xs → All P (insert a xs)
    unfolding insert
    All-insert P a [] p h = (p, tt)
    All-insert P a (x ∷ xs) p (q, h) = elim (Bool-cases (le a x)) [
      | inl before ↦ rw before (p, (q, h))
      | inr after ↦ rw after (q, All-insert P a xs p h)
    ]

    All-le :
        (a x : A) (xs : List A)
        → le a x ≡ true
        → All (λ y. le x y ≡ true) xs
        → All (λ y. le a y ≡ true) xs
    All-le a x [] e h = tt
    All-le a x (y ∷ ys) e (p, h) = (order.trans a x y e p, All-le a x ys e h)

    insert-IsSorted : (a : A) (xs : List A) → IsSorted xs → IsSorted (insert a xs)
    unfolding insert
    insert-IsSorted a [] h = (tt, tt)
    insert-IsSorted a (x ∷ xs) (p, h) = elim (Bool-cases (le a x)) [
      | inl before ↦ rw before ((before, All-le a x xs before p), (p, h))
      | inr after ↦
          rw after
            (All-insert (λ y. le x y ≡ true) a xs (order.total a x after) p, insert-IsSorted a xs h)
    ]

    pub sort-IsSorted : (xs : List A) → IsSorted (sort xs)
    unfolding sort
    sort-IsSorted [] = tt
    sort-IsSorted (x ∷ xs) = insert-IsSorted x (sort xs) (sort-IsSorted xs)
