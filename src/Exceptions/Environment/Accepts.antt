-- ===== src/Exceptions/Environment/Accepts.antt =====
-- How a run that could not evaluate its subject is classed in the report.
use Prim.Native.String
use text.Mathlib.TextLemmas.{cons-append}
use internal_package_contrac.Shared.{
  String, Bool, true, false, some, List, [], ◌∷◌, ◌≡◌, ◌↔◌, ◌⊎◌, inl, inr, refl, template, join,
  All, append-eq-nil, Option, none, ◌≢◌, subst, ne_of_same, same_of_ne, string_Eq, Bool-cases,
  Option-cases, nat_Eq,
}
use internal_package_contrac.Shared.Regex.{starts_with}
use internal_package_contrac.Shared.Dicts.{get}
use internal_package_contrac.Shared.Trim.{trim}
use internal_package_contrac.Exceptions.{ExceptionRecord, v2_field_keys, is_expired}
use internal_package_contrac.Exceptions.Settled.{List-cases}
use internal_package_contrac.Exceptions.Findings.{Loaded, records_of, load_errors}
use internal_package_contrac.Exceptions.Active.{active_by_id}
use internal_package_contrac.Exceptions.Environment.{
  degraded, warning, is_blank, blank_fields, expired_field, unaccepted, unaccepted_of, ids_of,
  incomplete_fields, registry_path,
}
use internal_package_contrac.Report.{
  not_evaluated_accepted, not_evaluated_unexcepted, not_evaluated, unexcepted, failed,
  classify_result,
}

-- A text is at least as long as a prefix.
abbrev fits : String → String → Bool
fits text String.[] = true
fits String.[] (String.◌∷◌ c prefix) = false
fits (String.◌∷◌ d text) (String.◌∷◌ c prefix) = fits text prefix

-- What follows a text that is long enough does not matter.
starts_with-append :
    (text prefix rest : String)
    → fits text prefix ≡ true
    → starts_with (String.◌++◌ text rest) prefix ≡ starts_with text prefix
unfolding starts_with
starts_with-append text String.[] rest h = refl
starts_with-append String.[] (String.◌∷◌ c prefix) rest h = cc
starts_with-append (String.◌∷◌ d text) (String.◌∷◌ c prefix) rest h =
    rw cons-append (rw (starts_with-append text prefix rest h) refl)

-- The record has a text for the key that is more than white space.
abbrev pub HasText : ExceptionRecord → String → Type 0
HasText r key = (value : String) × (get key r.fields ≡ some value) × (trim value ≢ "")

-- The justification and every structured field are there, and the date of expiry, if there is one, has
-- not passed.
abbrev pub IsComplete : ExceptionRecord → String → Type 0
IsComplete r today =
    All (HasText r) ("justification" ∷ v2_field_keys)
    × ((get "expires" r.fields ≡ none)
        ⊎ ((expires : String) × (get "expires" r.fields ≡ some expires)
            × (is_expired expires today ≡ false)))

-- Each of the ids has a record that is complete and has not expired.
abbrev pub AreAccepted : List ExceptionRecord → String → List String → Type 0
AreAccepted records today =
    All λ id. (r : ExceptionRecord) × (active_by_id records id ≡ some r) × IsComplete r today

is_blank-false :
    (o : Option String)
    → is_blank o ≡ false
    → (value : String) × (o ≡ some value) × (trim value ≢ "")
is_blank-false none h = cc h
is_blank-false (some s) h = (s, refl, ne_of_same (trim s) "" h)

text-is_blank :
    (o : Option String) (value : String) → o ≡ some value → trim value ≢ "" → is_blank o ≡ false
text-is_blank o value e h = rw e (same_of_ne (trim value) "" h)

blank_fields-nil_iff :
    (r : ExceptionRecord) (keys : List String) → (blank_fields r keys ≡ []) ↔ All (HasText r) keys
unfolding blank_fields
blank_fields-nil_iff r [] = (λ _. tt, λ _. refl)
blank_fields-nil_iff r (key ∷ keys) =
    let (to, from) = blank_fields-nil_iff r keys in
    elim (Bool-cases (is_blank (get key r.fields))) [
      | inl blank ↦ (
        λ h. cc (rw (blank, blank_fields) at h),
        λ ((value, e, filled), _). cc (blank, text-is_blank (get key r.fields) value e filled),
      )
      | inr filled ↦ (
        λ h. (is_blank-false (get key r.fields) filled, to (rw (filled, blank_fields) at h)),
        λ (_, later). rw (filled, blank_fields) (from later),
      )
    ]

expired_field-nil_iff :
    (o : Option String) (today : String)
    → (expired_field o today ≡ []) ↔ (
        (o ≡ none) ⊎ ((expires : String) × (o ≡ some expires) × (is_expired expires today ≡ false)))
expired_field-nil_iff none today = (λ _. inl refl, λ _. refl)
expired_field-nil_iff (some expires) today = elim (Bool-cases (is_expired expires today)) [
  | inl passed ↦ (
    λ h. cc (rw passed at h),
    λ h. elim h [ inl e ↦ cc e | inr (other, e, ahead) ↦ cc (passed, ahead, e) ],
  )
  | inr ahead ↦ (λ _. inr (expires, refl, ahead), λ _. rw ahead refl)
]

incomplete_fields-nil_iff :
    (r : ExceptionRecord) (today : String) → (incomplete_fields r today ≡ []) ↔ IsComplete r today
unfolding incomplete_fields
incomplete_fields-nil_iff r today =
    let (split, join_) =
      append-eq-nil (blank_fields r ("justification" ∷ v2_field_keys))
        (expired_field (get "expires" r.fields) today) in
    let (filled, blank) = blank_fields-nil_iff r ("justification" ∷ v2_field_keys) in
    let (ahead, passed) = expired_field-nil_iff (get "expires" r.fields) today in
    (
      λ h. let (here, later) = split h in (filled here, ahead later),
      λ (here, later). join_ (blank here, passed later),
    )

unaccepted_of-nil_iff :
    (records : List ExceptionRecord) (today id : String)
    → (unaccepted_of records today id ≡ [])
      ↔ ((r : ExceptionRecord) × (active_by_id records id ≡ some r) × IsComplete r today)
unaccepted_of-nil_iff records today id = elim (Option-cases (active_by_id records id)) [
  | inl absent ↦ (λ h. cc (rw (absent, unaccepted_of) at h), λ (r, e, _). cc (absent, e))
  | inr (r, e) ↦
      let (to, from) = incomplete_fields-nil_iff r today in
      elim (List-cases (incomplete_fields r today)) [
        | inl complete ↦ (λ _. (r, e, to complete), λ _. rw (e, complete, unaccepted_of) refl)
        | inr (key, keys, missing) ↦ (
          λ h. cc (rw (e, missing, unaccepted_of) at h),
          λ (s, f, complete).
              let same : s ≡ r = cc (e, f) in
              cc (missing, from (subst (λ z. IsComplete z today) same complete)),
        )
      ]
]

unaccepted-nil_iff :
    (records : List ExceptionRecord) (today : String) (ids : List String)
    → (unaccepted records today ids ≡ []) ↔ AreAccepted records today ids
unfolding unaccepted
unaccepted-nil_iff records today [] = (λ _. tt, λ _. refl)
unaccepted-nil_iff records today (id ∷ ids) =
    let (split, join_) =
      append-eq-nil (unaccepted_of records today id) (unaccepted records today ids) in
    let (to, from) = unaccepted_of-nil_iff records today id in
    let (tos, froms) = unaccepted-nil_iff records today ids in
    (
      λ h. let (here, later) = split h in (to here, tos later),
      λ (here, later). join_ (from here, froms later),
    )

accepted-class :
    (rest : List String)
    → starts_with (template (not_evaluated_accepted ∷ rest)) not_evaluated_accepted ≡ true
unfolding template starts_with
accepted-class rest =
    starts_with-append not_evaluated_accepted not_evaluated_accepted (template rest) refl

unexcepted-class :
    (rest : List String)
    → (starts_with (template (not_evaluated_unexcepted ∷ rest)) not_evaluated_accepted ≡ false)
      × (starts_with (template (not_evaluated_unexcepted ∷ rest)) not_evaluated_unexcepted ≡ true)
unfolding template starts_with
unexcepted-class rest = (
  starts_with-append not_evaluated_unexcepted not_evaluated_accepted (template rest) refl,
  starts_with-append not_evaluated_unexcepted not_evaluated_unexcepted (template rest) refl,
)

warning-accepted :
    (ids us : List String) (rationale : String)
    → us ≡ []
    → classify_result (warning ids us rationale) ≡ not_evaluated
unfolding classify_result
warning-accepted ids [] rationale h =
    rw (accepted-class (" " ∷ join ", " ids ∷ "): " ∷ rationale ∷ [])) refl
warning-accepted ids (u ∷ us) rationale h = cc

warning-unexcepted :
    (ids : List String) (u : String) (us vs : List String) (rationale : String)
    → vs ≡ u ∷ us
    → classify_result (warning ids vs rationale) ≡ unexcepted
unfolding classify_result
warning-unexcepted ids u us [] rationale h = cc
warning-unexcepted ids u us (v ∷ vs) rationale h =
    let (other, this) = unexcepted-class (
      "; add or complete in "
      ∷ registry_path
      ∷ ": "
      ∷ join "; " (v ∷ vs)
      ∷ "): "
      ∷ rationale
      ∷ []) in
    rw (other, this) refl

-- A check that could not evaluate its subject never passes. Where the registry is malformed, it has
-- failed; else it counts as not evaluated exactly if there is, for each of the reasons, a record of
-- that check and reason which is complete and has not expired, and as unexcepted otherwise: its
-- justification and each structured field of version 2 have more than white space, and its date of
-- expiry, if it has one, has not passed.
pub degraded-class :
    (check : String) (codes : List String) (rationale : String) (loaded : Loaded) (today : String)
    → ((errors : List String) × (loaded ≡ load_errors errors)
        × (classify_result (degraded check codes rationale loaded today) ≡ failed))
      ⊎ ((records : List ExceptionRecord) × (loaded ≡ records_of records)
          × ((classify_result (degraded check codes rationale loaded today) ≡ not_evaluated)
              ↔ AreAccepted records today (ids_of check codes))
          × ((classify_result (degraded check codes rationale loaded today) ≡ unexcepted)
              ↔ ¬ AreAccepted records today (ids_of check codes)))
unfolding degraded classify_result
degraded-class check codes rationale (load_errors errors) today = inl (errors, refl, refl)
degraded-class check codes rationale (records_of records) today =
    let ids = ids_of check codes in
    let (to, from) = unaccepted-nil_iff records today ids in
    elim (List-cases (unaccepted records today ids)) [
      | inl all_accepted ↦
          let class = warning-accepted ids _ rationale all_accepted in
          inr (
            records,
            refl,
            (λ _. to all_accepted, λ _. class),
            (λ h. cc (class, h), λ h. absurd (h (to all_accepted))),
          )
      | inr (u, us, some_left) ↦
          let class = warning-unexcepted ids u us _ rationale some_left in
          inr (
            records,
            refl,
            (λ h. cc (class, h), λ h. cc (some_left, from h)),
            (λ _ h. cc (some_left, from h), λ _. class),
          )
    ]
