-- ===== src/Report/Counting.antt =====
-- How often a test holds in a list, and what the counts of a report count.
use internal_package_contrac.Shared.{
  ℕ, ◌+◌, ◌≤◌, Bool, true, false, List, [], ◌∷◌, ◌++◌, ◌≡◌, ◌↔◌, inl, inr, refl, arith, map, filter,
  length, All, Bool-cases, if◌then◌else◌,
}
use internal_package_contrac.Report.{
  ResultClass, passed, warned, not_evaluated, unexcepted, failed, skipped, ReportedCheck, Counts,
  count_one, count_all,
}

abbrev pub is_failed : ResultClass → Bool
is_failed failed = true
is_failed _ = false

abbrev pub is_unexcepted : ResultClass → Bool
is_unexcepted unexcepted = true
is_unexcepted _ = false

abbrev pub number : {A : Type 0} → (A → Bool) → List A → ℕ
number p [] = 0
number p (x ∷ xs) = (if p x then 1 else 0) + number p xs

count_one-failed :
    (k : ResultClass) (c : Counts)
    → ((count_one k c).fail_count ≡ c.fail_count + (if is_failed k then 1 else 0))
      × ((count_one k c).unexcepted_count ≡ c.unexcepted_count + (if is_unexcepted k then 1 else 0))
count_one-failed passed c = (omega arith, omega arith)
count_one-failed warned c = (omega arith, omega arith)
count_one-failed not_evaluated c = (omega arith, omega arith)
count_one-failed unexcepted c = (omega arith, omega arith)
count_one-failed failed c = (omega arith, omega arith)
count_one-failed skipped c = (omega arith, omega arith)

pub count_all-failed :
    (checks : List ReportedCheck) (c : Counts)
    → ((count_all checks c).fail_count
        ≡ c.fail_count + number (λ k. is_failed k.result_class) checks)
      × ((count_all checks c).unexcepted_count
          ≡ c.unexcepted_count + number (λ k. is_unexcepted k.result_class) checks)
unfolding count_all
count_all-failed [] c = (omega arith, omega arith)
count_all-failed (k ∷ checks) c =
    let (f, u) = count_one-failed k.result_class c in
    let (fs, us) = count_all-failed checks (count_one k.result_class c) in
    (omega arith, omega arith)

pub number-append :
    {A : Type 0} (p : A → Bool) (xs ys : List A) → number p (xs ++ ys) ≡ number p xs + number p ys
number-append p [] ys = omega arith
number-append p (x ∷ xs) ys = let rest = number-append p xs ys in omega arith

pub number-map :
    {A B : Type 0} (p : B → Bool) (f : A → B) (xs : List A)
    → number p (map f xs) ≡ number (λ x. p (f x)) xs
number-map p f [] = refl
number-map p f (x ∷ xs) = let rest = number-map p f xs in omega arith

pub number-none :
    {A : Type 0} (p : A → Bool) (xs : List A) → ((x : A) → p x ≡ false) → number p xs ≡ 0
number-none p [] h = refl
number-none p (x ∷ xs) h = let rest = number-none p xs h in rw (h x) (omega arith)

pub number-cong :
    {A : Type 0} (p q : A → Bool) (xs : List A) → ((x : A) → p x ≡ q x) → number p xs ≡ number q xs
number-cong p q [] h = refl
number-cong p q (x ∷ xs) h = let rest = number-cong p q xs h in rw (h x, rest) refl

pub number-All_not :
    {A : Type 0} (p : A → Bool) (xs : List A) → (number p xs ≡ 0) ↔ All (λ x. p x ≡ false) xs
number-All_not p [] = (λ _. tt, λ _. refl)
number-All_not p (x ∷ xs) =
    let (to, from) = number-All_not p xs in
    elim (Bool-cases (p x)) [
      | inl holds ↦ rw holds (λ h. absurd (omega arith), λ (e, h). cc e)
      | inr fails ↦
          rw fails (λ h. (refl, to (omega arith)), λ (e, h). let rest = from h in omega arith)
    ]

pub length-map : {A B : Type 0} (f : A → B) (xs : List A) → length (map f xs) ≡ length xs
length-map f [] = refl
length-map f (x ∷ xs) = cc (length-map f xs)

pub length-filter : {A : Type 0} (p : A → Bool) (xs : List A) → length (filter p xs) ≡ number p xs
length-filter p [] = refl
length-filter p (x ∷ xs) =
    let rest = length-filter p xs in
    elim (Bool-cases (p x)) [
      | inl holds ↦ rw holds (omega arith)
      | inr fails ↦ rw fails (omega arith)
    ]

module _ {A : Type 0} (p q : A → Bool) (subset : (x : A) → p x ≡ true → q x ≡ true) where
  number_mono : (xs : List A) → number p xs ≤ number q xs
  number_mono [] = omega arith
  number_mono (x ∷ xs) =
      let rest = number_mono xs in
      elim (Bool-cases (p x)) [
        | inl holds ↦ rw (holds, subset x holds) (omega arith)
        | inr fails ↦ rw fails (omega arith)
      ]

  -- Some of a larger test are not of the smaller one, unless the larger implies the smaller.
  pub number-All : (xs : List A) → number q xs ≤ number p xs → All (λ x. q x ≡ true → p x ≡ true) xs
  number-All [] h = tt
  number-All (x ∷ xs) h =
      let rest = number_mono xs in
      elim (Bool-cases (p x)) [
        | inl holds ↦
            (λ _. holds, number-All xs (let g = rw (holds, subset x holds) at h in omega arith))
        | inr fails ↦ elim (Bool-cases (q x)) [
          | inl only ↦ absurd (let g = rw (fails, only) at h in omega arith)
          | inr neither ↦ (λ e. cc, number-All xs (let g = rw (fails, neither) at h in omega arith))
        ]
      ]

  pub All-number : (xs : List A) → All (λ x. q x ≡ true → p x ≡ true) xs → number q xs ≤ number p xs
  All-number [] h = omega arith
  All-number (x ∷ xs) (here, h) =
      let rest = All-number xs h in
      elim (Bool-cases (q x)) [
        | inl holds ↦ rw (holds, here holds) (omega arith)
        | inr fails ↦ rw fails (omega arith)
      ]
