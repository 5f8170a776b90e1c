-- ===== src/Exceptions/FieldChecks.antt =====
-- How the schemas validate their fields (checks/exception-record.ts, checks/security-socket.ts):
-- every problem is pushed, and a record is returned only if there was none.
use internal_package_contrac.Shared.{
  String, true, ◌||◌, Option, none, some, List, [], ◌∷◌, ◌++◌, ◌≡◌, inl, inr, refl, map, template,
  join, ◌===◌, string_Eq, if◌then◌else◌, Option-cases, Bool-cases,
}
use internal_package_contrac.Shared.Dicts.{contains}
use internal_package_contrac.Shared.Json.{Json, string_of, quoted, shown}
use internal_package_contrac.Exceptions.{Checked}
use internal_package_contrac.Exceptions.Settled.{IsSettled, append-ne_nil_left, append-ne_nil_right}

module _ {ℓ} {A : Type ℓ} where
  abbrev pub valid : A → Checked A
  valid a = record { messages = []; value = some a }

  abbrev pub problem : String → Checked A
  problem message = record { messages = message ∷ []; value = none }

  pub valid-IsSettled : (a : A) → IsSettled (valid a)
  valid-IsSettled a = inl (refl, (a, refl))

  pub problem-IsSettled : (message : String) → IsSettled (problem message)
  problem-IsSettled message = inr (λ e. cc, refl)

module _ {ℓ κ} {A : Type ℓ} {B : Type κ} where
  abbrev pair : Option A → Option B → Option (A × B)
  pair (some a) (some b) = some (a, b)
  pair _ _ = none

  -- Both are validated, whatever comes of the first.
  unfoldable pub both : Checked A → Checked B → Checked (A × B)
  both c d = record { messages = c.messages ++ d.messages; value = pair c.value d.value }

  -- The second is validated only where the first is valid.
  unfoldable pub and_then : Checked A → (A → Checked B) → Checked B
  and_then c f = elim c.value [
    | none ↦ record { messages = c.messages; value = none }
    | some a ↦ record { messages = c.messages ++ (f a).messages; value = (f a).value }
  ]

  pub both-IsSettled :
      (c : Checked A) (d : Checked B) → IsSettled c → IsSettled d → IsSettled (both c d)
  unfolding both
  both-IsSettled c d (inl (quiet, (a, e))) (inl (silent, (b, f))) =
      rw (quiet, silent, e, f) (inl (refl, ((a, b), refl)))
  both-IsSettled c d (inl (quiet, (a, e))) (inr (loud, f)) =
      rw (e, f) (inr (append-ne_nil_right c.messages d.messages loud, refl))
  both-IsSettled c d (inr (loud, e)) h =
      rw e (inr (append-ne_nil_left c.messages d.messages loud, refl))

  pub and_then-IsSettled :
      (c : Checked A) (f : A → Checked B)
      → IsSettled c
      → ((a : A) → IsSettled (f a))
      → IsSettled (and_then c f)
  unfolding and_then
  and_then-IsSettled c f (inl (quiet, (a, e))) h = elim (h a) [
    | inl (silent, (b, there)) ↦ rw (e, quiet, silent, there, and_then) (inl (refl, (b, refl)))
    | inr (loud, absent) ↦ rw (e, quiet, absent, and_then) (inr (loud, refl))
  ]
  and_then-IsSettled c f (inr (loud, e)) h = rw (e, and_then) (inr (loud, refl))

  pub both-value :
      (c : Checked A) (d : Checked B) {p : A × B}
      → (both c d).value ≡ some p
      → (c.value ≡ some p.0) × (d.value ≡ some p.1)
  unfolding both
  both-value c d h = elim (Option-cases c.value) [
    | inl absent ↦ cc (rw absent at h)
    | inr (a, e) ↦ elim (Option-cases d.value) [
      | inl absent ↦ cc (rw (e, absent) at h)
      | inr (b, f) ↦ let q : some (a, b) ≡ some _ = rw (e, f) at h in (cc (e, q), cc (f, q))
    ]
  ]

  pub and_then-value :
      (c : Checked A) (f : A → Checked B) {b : B}
      → (and_then c f).value ≡ some b
      → (a : A) × (c.value ≡ some a) × ((f a).value ≡ some b)
  unfolding and_then
  and_then-value c f h = elim (Option-cases c.value) [
    | inl absent ↦ cc (rw (absent, and_then) at h)
    | inr (a, e) ↦ (a, e, rw (e, and_then) at h)
  ]

-- `typeof value === "string"`, or the problem.
unfoldable pub text_or : String → Option Json → Checked String
text_or message v = elim (string_of v) [ none ↦ problem message | some s ↦ valid s ]

unfoldable pub is_valid_non_empty_string_field : Option Json → String → Checked String
is_valid_non_empty_string_field v where_ =
    let message = template (where_ ∷ " must be a non-empty string." ∷ []) in
    elim (string_of v) [
      | none ↦ problem message
      | some s ↦ if s === "" then problem message else valid s
    ]

unfoldable pub is_valid_optional_enum_field : Option Json → String → List String → Checked String
is_valid_optional_enum_field v where_ allowed =
    let message = template (
      where_
      ∷ " must be \"\" or one of "
      ∷ join ", " (map quoted allowed)
      ∷ " (got "
      ∷ shown v
      ∷ ")."
      ∷ []) in
    elim (string_of v) [
      | none ↦ problem message
      | some s ↦ if s === "" || contains s allowed then valid s else problem message
    ]

pub text_or-IsSettled : (message : String) (v : Option Json) → IsSettled (text_or message v)
unfolding text_or
text_or-IsSettled message v = elim (Option-cases (string_of v)) [
  | inl absent ↦ rw (absent, text_or) (problem-IsSettled message)
  | inr (s, e) ↦ rw (e, text_or) (valid-IsSettled s)
]

pub is_valid_non_empty_string_field-IsSettled :
    (v : Option Json) (where_ : String) → IsSettled (is_valid_non_empty_string_field v where_)
unfolding is_valid_non_empty_string_field
is_valid_non_empty_string_field-IsSettled v where_ = elim (Option-cases (string_of v)) [
  | inl absent ↦ rw (absent, is_valid_non_empty_string_field) (problem-IsSettled _)
  | inr (s, e) ↦ elim (Bool-cases (s === "")) [
    | inl blank ↦ rw (e, blank, is_valid_non_empty_string_field) (problem-IsSettled _)
    | inr filled ↦ rw (e, filled, is_valid_non_empty_string_field) (valid-IsSettled s)
  ]
]

pub is_valid_optional_enum_field-IsSettled :
    (v : Option Json) (where_ : String) (allowed : List String)
    → IsSettled (is_valid_optional_enum_field v where_ allowed)
unfolding is_valid_optional_enum_field
is_valid_optional_enum_field-IsSettled v where_ allowed = elim (Option-cases (string_of v)) [
  | inl absent ↦ rw (absent, is_valid_optional_enum_field) (problem-IsSettled _)
  | inr (s, e) ↦ elim (Bool-cases (s === "" || contains s allowed)) [
    | inl there ↦ rw (e, there, is_valid_optional_enum_field) (valid-IsSettled s)
    | inr other ↦ rw (e, other, is_valid_optional_enum_field) (problem-IsSettled _)
  ]
]

-- A valid choice is blank or one of those allowed.
pub is_valid_optional_enum_field-value :
    (v : Option Json) (where_ : String) (allowed : List String) {s : String}
    → (is_valid_optional_enum_field v where_ allowed).value ≡ some s
    → (s === "" || contains s allowed) ≡ true
unfolding is_valid_optional_enum_field
is_valid_optional_enum_field-value v where_ allowed {s} h = elim (Option-cases (string_of v)) [
  | inl absent ↦ cc (rw (absent, is_valid_optional_enum_field) at h)
  | inr (t, e) ↦ elim (Bool-cases (t === "" || contains t allowed)) [
    | inl there ↦
        let q : t ≡ s = cc (rw (e, there, is_valid_optional_enum_field) at h) in rw q at there
    | inr other ↦ cc (rw (e, other, is_valid_optional_enum_field) at h)
  ]
]
