-- ===== src/Adoption/Expiry.antt =====
-- When an adoption ends (scripts/adoption/mode.mjs).
use internal_package_contrac.Shared.{
  ℕ, ◌+◌, ◌*◌, ◌≤◌, ◌<◌, true, false, some, ◌≡◌, ◌⊎◌, refl, inl, inr, arith, ltb→lt, Bool-cases,
  Option-cases, ltb,
}
use internal_package_contrac.Adoption.{
  Date, date_pattern, days_of, epoch_days, day, exists_on, end_of, AdoptionFile, Adoption, absent,
  invalid, active, expired, FileRead, no_file, not_json, parsed, state_of, is_over, read_adoption,
  property, is_one, date_text, ids_of,
}

-- The last millisecond of a date, and a time since 1970, on one scale.
abbrev pub last_moment : Date → ℕ
last_moment d = days_of d * day + 86399999

abbrev pub moment : ℕ → ℕ
moment now = now + epoch_days * day

le_of_not_ltb : (a b : ℕ) → ltb a b ≡ false → b ≤ a
le_of_not_ltb a b h = ground arith

-- What the state says of a date.
abbrev pub IsOver : ℕ → Date → Type 0
IsOver now last = (exists_on last ≡ true) × (last_moment last < moment now)

abbrev pub IsOpen : ℕ → Date → Type 0
IsOpen now last = (exists_on last ≡ false) ⊎ (moment now ≤ last_moment last)

end_cases :
    (now : ℕ) (last : Date)
    → ((is_over (moment now) (end_of last) ≡ true) × IsOver now last)
      ⊎ ((is_over (moment now) (end_of last) ≡ false) × IsOpen now last)
unfolding end_of
end_cases now last = elim (Bool-cases (exists_on last)) [
  | inr unreal ↦ inr (rw unreal (refl, inl refl))
  | inl real ↦ elim (Bool-cases (ltb (last_moment last) (moment now))) [
    | inl over ↦ inl (rw real (over, (refl, ltb→lt (last_moment last) (moment now) over)))
    | inr later ↦ inr (rw real (later, inr (le_of_not_ltb (last_moment last) (moment now) later)))
  ]
]

abbrev pub Ends : Adoption → ℕ → Type 0
Ends absent now = Unit
Ends (invalid what) now = Unit
Ends (active file left) now =
    (last : Date) × (date_pattern file.expires_at ≡ some last) × IsOpen now last
Ends (expired file left) now =
    (last : Date) × (date_pattern file.expires_at ≡ some last) × IsOver now last

state_of-Ends :
    (now : ℕ) (file : AdoptionFile) (last : Date)
    → date_pattern file.expires_at ≡ some last
    → Ends (state_of now file last) now
unfolding state_of
state_of-Ends now file last found = elim (end_cases now last) [
  | inl (over, it_is) ↦ rw over (last, found, it_is)
  | inr (later, it_is) ↦ rw later (last, found, it_is)
]

-- Whatever was read: an adoption has a last date; it is expired exactly if that date exists and its
-- last millisecond is before now, and active exactly if the date does not exist or that millisecond
-- is not before now.
pub read_adoption-Ends : (read : FileRead) (now : ℕ) → Ends (read_adoption read now) now
unfolding read_adoption
read_adoption-Ends no_file now = tt
read_adoption-Ends not_json now = tt
read_adoption-Ends (parsed value) now = elim (Bool-cases (is_one (property "version" value))) [
  | inr other ↦ rw (other, read_adoption) tt
  | inl one ↦ elim (Option-cases (date_pattern (date_text (property "startedAt" value)))) [
    | inl bad ↦ rw (one, bad, read_adoption) tt
    | inr (first, started) ↦
        elim (Option-cases (date_pattern (date_text (property "expiresAt" value)))) [
          | inl bad ↦ rw (one, started, bad, read_adoption) tt
          | inr (last, ends) ↦ elim (Option-cases (ids_of (property "enforce" value))) [
            | inl bad ↦ rw (one, started, ends, bad, read_adoption) tt
            | inr (ids, listed) ↦
                rw (one, started, ends, listed, read_adoption) (state_of-Ends now _ last ends)
          ]
        ]
  ]
]
