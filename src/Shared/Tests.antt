-- ===== src/Shared/Tests.antt =====
-- Boolean tests on the native numbers, the conditional, and the test `===` as an interface.
use Prim.Native.Nat.{ℕ, ◌≤◌, ◌<◌, compare, Ordering}
use Prim.Native.String.{String}
use mathlib.Core.Path.{◌≡◌, refl, ap}
use mathlib.Core.Logic.{◌↔◌, ◌⊎◌, inl, inr, ◌≢◌}
use mathlib.Core.Bool.{Bool, true, false, ◌&&◌}
use mathlib.Core.Option.{Option, none, some}
use mathlib.Core.List.{List, [], ◌∷◌}
use native.Mathlib.Omega.{arith}
use text.Mathlib.Text.{◌==◌ as str_eq}
use text.Mathlib.TextEquality.{eq_iff}

abbrev pub ltb : ℕ → ℕ → Bool
ltb a b = elim (compare a b) [ Ordering.lt ↦ true | _ ↦ false ]

abbrev pub leb : ℕ → ℕ → Bool
leb a b = elim (compare a b) [ Ordering.gt ↦ false | _ ↦ true ]

abbrev pub nat_eq : ℕ → ℕ → Bool
nat_eq a b = elim (compare a b) [ Ordering.eq ↦ true | _ ↦ false ]

infix 1 if◌then◌else◌
abbrev pub if◌then◌else◌ {ℓ} : {A : Type ℓ} → Bool → A → A → A
if true then x else y = x
if false then x else y = y

pub ltb→lt : (a b : ℕ) → ltb a b ≡ true → a < b
ltb→lt a b h = ground arith

pub lt→ltb : (a b : ℕ) → a < b → ltb a b ≡ true
lt→ltb a b h = ground arith

pub leb→le : (a b : ℕ) → leb a b ≡ true → a ≤ b
leb→le a b h = ground arith

pub ruleset tests = (arith, ltb→lt, lt→ltb, leb→le)

-- To split on a computed value and keep the equation.
pub Bool-cases : (b : Bool) → (b ≡ true) ⊎ (b ≡ false)
Bool-cases true = inl refl
Bool-cases false = inr refl

pub Option-cases {ℓ} : {A : Type ℓ} (o : Option A) → (o ≡ none) ⊎ ((a : A) × (o ≡ some a))
Option-cases none = inl refl
Option-cases (some a) = inr (a, refl)

pub true_of_not_false : (b : Bool) → b ≢ false → b ≡ true
true_of_not_false true h = refl
true_of_not_false false h = absurd (h refl)

pub and-eq-true : (a b : Bool) → (a && b) ≡ true → (a ≡ true) × (b ≡ true)
and-eq-true a b h = ground arith

-- The types whose values `===` compares by value. Optional values and lists have it too: an
-- absent field is a value of its own, and lists are compared as their JSON texts are.
pub record Eq {ℓ} (A : Type ℓ) : Type ℓ where
  pub same : A → A → Bool
  pub same_iff : (a b : A) → (same a b ≡ true) ↔ (a ≡ b)

infix 50 ◌===◌ ◌!==◌
abbrev pub ◌===◌ {ℓ} : {A : Type ℓ} ⦃e : Eq A⦄ → A → A → Bool
◌===◌ ⦃e⦄ = e.same

abbrev pub negate : Bool → Bool
negate true = false
negate false = true

pub false_of_negate : (b : Bool) → negate b ≡ true → b ≡ false
false_of_negate b h = ground arith

abbrev pub ◌!==◌ {ℓ} : {A : Type ℓ} ⦃e : Eq A⦄ → A → A → Bool
◌!==◌ a b = negate (a === b)

pub same_refl {ℓ} : {A : Type ℓ} ⦃e : Eq A⦄ (a : A) → (a === a) ≡ true
same_refl ⦃e⦄ a = (e.same_iff a a).1 refl

pub eq_of_same {ℓ} : {A : Type ℓ} ⦃e : Eq A⦄ (a b : A) → (a === b) ≡ true → a ≡ b
eq_of_same ⦃e⦄ a b h = (e.same_iff a b).0 h

pub ne_of_same {ℓ} : {A : Type ℓ} ⦃e : Eq A⦄ (a b : A) → (a === b) ≡ false → a ≢ b
ne_of_same ⦃e⦄ a b h p = cc ((e.same_iff a b).1 p)

pub same_of_ne {ℓ} : {A : Type ℓ} ⦃e : Eq A⦄ (a b : A) → a ≢ b → (a === b) ≡ false
same_of_ne ⦃e⦄ a b h = elim (Bool-cases (e.same a b)) [
  | inl t ↦ absurd (h ((e.same_iff a b).0 t))
  | inr f ↦ f
]

pub nat_eq_iff : (a b : ℕ) → (nat_eq a b ≡ true) ↔ (a ≡ b)
nat_eq_iff a b = ground arith

instance abbrev pub nat_Eq : Eq ℕ
nat_Eq = record { same = nat_eq; same_iff = nat_eq_iff }

instance abbrev pub string_Eq : Eq String
string_Eq = record { same = str_eq; same_iff = eq_iff }

abbrev pub bool_eq : Bool → Bool → Bool
bool_eq true b = b
bool_eq false b = negate b

pub bool_eq_iff : (a b : Bool) → (bool_eq a b ≡ true) ↔ (a ≡ b)
bool_eq_iff a b = ground arith

instance abbrev pub bool_Eq : Eq Bool
bool_Eq = record { same = bool_eq; same_iff = bool_eq_iff }

module _ {ℓ} {A : Type ℓ} ⦃e : Eq A⦄ where
  abbrev pub option_eq : Option A → Option A → Bool
  option_eq none none = true
  option_eq none (some b) = false
  option_eq (some a) none = false
  option_eq (some a) (some b) = a === b

  pub option_eq_iff : (a b : Option A) → (option_eq a b ≡ true) ↔ (a ≡ b)
  option_eq_iff none none = (λ _. refl, λ _. refl)
  option_eq_iff none (some b) = (λ h. cc, λ h. cc)
  option_eq_iff (some a) none = (λ h. cc, λ h. cc)
  option_eq_iff (some a) (some b) =
      (λ h. ap some ((e.same_iff a b).0 h), λ h. (e.same_iff a b).1 (cc))

  abbrev pub list_eq : List A → List A → Bool
  list_eq [] [] = true
  list_eq [] (y ∷ ys) = false
  list_eq (x ∷ xs) [] = false
  list_eq (x ∷ xs) (y ∷ ys) = (x === y) && list_eq xs ys

  pub list_eq_iff : (a b : List A) → (list_eq a b ≡ true) ↔ (a ≡ b)
  list_eq_iff [] [] = (λ _. refl, λ _. refl)
  list_eq_iff [] (y ∷ ys) = (λ h. cc, λ h. cc)
  list_eq_iff (x ∷ xs) [] = (λ h. cc, λ h. cc)
  list_eq_iff (x ∷ xs) (y ∷ ys) = (
    λ h.
        let (here, later) = and-eq-true (x === y) (list_eq xs ys) h in
        cc ((e.same_iff x y).0 here, (list_eq_iff xs ys).0 later),
    λ h. ground (arith, (e.same_iff x y).1 (cc), (list_eq_iff xs ys).1 (cc)),
  )

instance abbrev pub option_Eq {ℓ} : {A : Type ℓ} ⦃e : Eq A⦄ → Eq (Option A)
option_Eq ⦃e⦄ = record { same = option_eq; same_iff = option_eq_iff }

instance abbrev pub list_Eq {ℓ} : {A : Type ℓ} ⦃e : Eq A⦄ → Eq (List A)
list_Eq ⦃e⦄ = record { same = list_eq; same_iff = list_eq_iff }

module _ {ℓ κ} {A : Type ℓ} {B : Type κ} ⦃e : Eq A⦄ ⦃f : Eq B⦄ where
  abbrev pub pair_eq : A × B → A × B → Bool
  pair_eq p q = (p.0 === q.0) && (p.1 === q.1)

  pub pair_eq_iff : (p q : A × B) → (pair_eq p q ≡ true) ↔ (p ≡ q)
  pair_eq_iff (a, b) (c, d) = (
    λ h.
        let (first, second) = and-eq-true (a === c) (b === d) h in
        cc ((e.same_iff a c).0 first, (f.same_iff b d).0 second),
    λ h. ground (arith, (e.same_iff a c).1 (ap (λ p. p.0) h), (f.same_iff b d).1 (ap (λ p. p.1) h)),
  )

instance abbrev pub pair_Eq {ℓ κ} : {A : Type ℓ} {B : Type κ} ⦃e : Eq A⦄ ⦃f : Eq B⦄ → Eq (A × B)
pair_Eq ⦃e⦄ ⦃f⦄ = record { same = pair_eq; same_iff = pair_eq_iff }
