-- ===== src/Tracing/Clean.antt =====
-- What the spans carry after any calls of the two functions.
use hermes_enterprise_deploy.Base.{
  ◌⊎◌, ◌≢◌, not, eq_iff, ◌≤◌, String, Bool, true, false, List, [], ◌∷◌, ◌≡◌, refl, ◌&&◌, ◌==◌,
  string_eq, arith, any, All, All-append, Bool-cases, inl, inr,
}
use Prim.Native.String.{count}
use hermes_enterprise_deploy.Base.Members.{contains}
use hermes_enterprise_deploy.Json.{
  Json, null, bool, int, float, str, arr, obj, Fields, end, field, set,
}
use hermes_enterprise_deploy.Platform.{Platform}
use hermes_enterprise_deploy.Tracing.Allowed

-- A value that may leave the process: no list and no dict; a text of 128 characters at most, with no marker of a secret.
abbrev pub IsSafe : Json → Type 0
IsSafe (str value) =
    (count value ≤ 128)
    × (any (λ marker. Allowed.occurs marker value) Allowed.forbidden_value_markers ≡ false)
IsSafe (bool b) = Unit
IsSafe (int n) = Unit
IsSafe (float n) = Unit
IsSafe _ = ⊥

-- A reason is one of the list of reasons.
abbrev pub IsReasoned : String → Json → Type 0
IsReasoned key value =
    (key ≢ "reason")
    ⊎ ((reason : String) × (value ≡ str reason)
        × (contains Allowed.allowed_reason_values reason ≡ true))

abbrev pub IsAllowed : String → Json → Type 0
IsAllowed key value =
    (contains Allowed.allowed_attribute_keys key ≡ true) × IsReasoned key value × IsSafe value

abbrev pub IsClean : Fields → Type 0
IsClean end = Unit
IsClean (field key value rest) = IsAllowed key value × IsClean rest

differs : (key : String) → (key == "reason") ≡ false → key ≢ "reason"
differs key h = ground (arith, eq_iff key "reason")

-- A tested reason is one of the list.
reason_in_list :
    (key : String) (value : Json) → Allowed.bad_reason key value ≡ false → IsReasoned key value
reason_in_list key (str value) h =
    elim (Bool-cases (contains Allowed.allowed_reason_values value)) [
      | inl listed ↦ inr (value, refl, listed)
      | inr foreign ↦ inl (differs key (ground arith))
    ]
reason_in_list key null h = inl (differs key h)
reason_in_list key (bool b) h = inl (differs key h)
reason_in_list key (int n) h = inl (differs key h)
reason_in_list key (float n) h = inl (differs key h)
reason_in_list key (arr items) h = inl (differs key h)
reason_in_list key (obj fields) h = inl (differs key h)

safe_value-IsSafe : (value : Json) → Allowed.safe_value value ≡ true → IsSafe value
unfolding Allowed.safe_value
safe_value-IsSafe (bool b) h = tt
safe_value-IsSafe (int n) h = tt
safe_value-IsSafe (float n) h = tt
safe_value-IsSafe (str value) h = (ground arith, ground arith)
safe_value-IsSafe null h = cc
safe_value-IsSafe (arr items) h = cc
safe_value-IsSafe (obj fields) h = cc

set-IsClean :
    (key : String) (value : Json) (fields : Fields)
    → IsAllowed key value
    → IsClean fields
    → IsClean (set key value fields)
unfolding set
set-IsClean key value end v h = (v, tt)
set-IsClean key value (field j w rest) v h = elim (Bool-cases (j == key)) [
  | inl same ↦ rw same (v, h.1)
  | inr other ↦ rw other (h.0, set-IsClean key value rest v h.1)
]

set_all-IsClean :
    (attributes more : Fields)
    → IsClean attributes
    → IsClean more
    → IsClean (Allowed.set_all attributes more)
set_all-IsClean attributes end h m = h
set_all-IsClean attributes (field key value rest) h m =
    set_all-IsClean (set key value attributes) rest (set-IsClean key value attributes m.0 h) m.1

abbrev pub IsCleanEvent : String × Fields → Type 0
IsCleanEvent (name, attributes) = (contains Allowed.allowed_events name ≡ true) × IsClean attributes

-- Every attribute and every event of the span is one of those allowed.
abbrev pub IsCleanSpan : Allowed.Span → Type 0
IsCleanSpan span = IsClean span.attributes × All IsCleanEvent span.events

unnegated : (b : Bool) → not b ≡ true → b ≡ false
unnegated false h = refl
unnegated true h = cc

pub both : (a b : Bool) → (a && b) ≡ true → (a ≡ true) × (b ≡ true)
both true b h = (refl, h)
both false b h = cc

module _ (p : Platform) where
  kept-IsAllowed :
      (key : String) (value : Json) → Allowed.kept p key value ≡ true → IsAllowed key value
  unfolding Allowed.kept
  kept-IsAllowed key value h =
      let (abc, safe) = both _ _ h in
      let (ab, reasoned) = both _ _ abc in
      (
        (both _ _ ab).0,
        reason_in_list key value (unnegated (Allowed.bad_reason key value) reasoned),
        safe_value-IsSafe value safe,
      )

  pub sanitize_attributes-IsClean :
      (fields : Fields) → IsClean (Allowed.sanitize_attributes p fields)
  unfolding Allowed.sanitize_attributes
  sanitize_attributes-IsClean end = tt
  sanitize_attributes-IsClean (field key value rest) =
      elim (Bool-cases (Allowed.kept p key value)) [
        | inl yes_kept ↦
            rw yes_kept (kept-IsAllowed key value yes_kept, sanitize_attributes-IsClean rest)
        | inr dropped ↦ rw dropped (sanitize_attributes-IsClean rest)
      ]

  -- A call on a span.
  pub data Call : Type 0 where
    set_attributes : Fields → Call
    add_event : String → Fields → Call

  abbrev pub run_call : Call → Allowed.Span → Allowed.Span
  run_call (set_attributes fields) span = Allowed.set_sanitized_attributes p fields span
  run_call (add_event name fields) span = Allowed.add_bounded_event p name fields span

  abbrev pub run_calls : List Call → Allowed.Span → Allowed.Span
  run_calls [] span = span
  run_calls (c ∷ cs) span = run_calls cs (run_call c span)

  run_call-IsClean :
      (c : Call) (span : Allowed.Span) → IsCleanSpan span → IsCleanSpan (run_call c span)
  unfolding Allowed.set_sanitized_attributes Allowed.add_bounded_event
  run_call-IsClean (set_attributes fields) span h = elim (Bool-cases span.is_recording) [
    | inl records ↦
        rw records (set_all-IsClean span.attributes _ h.0 (sanitize_attributes-IsClean fields), h.1)
    | inr silent ↦ rw silent h
  ]
  run_call-IsClean (add_event name fields) span h = elim (Bool-cases span.is_recording) [
    | inl records ↦ elim (Bool-cases (contains Allowed.allowed_events name)) [
      | inl allowed ↦
          rw (records, allowed)
            (
              h.0,
              All-append IsCleanEvent span.events _ h.1
                  ((allowed, sanitize_attributes-IsClean fields), tt),
            )
      | inr foreign ↦ rw (records, foreign) h
    ]
    | inr silent ↦ rw silent h
  ]

  -- Whatever attributes are set and whatever events are added, a span that starts with only such,
  -- or none, keeps only attributes and events of the allow-lists, whose texts have at most 128
  -- characters and no marker of a secret, and whose reasons are of the list of reasons.
  pub run_calls-IsCleanSpan :
      (calls : List Call) (span : Allowed.Span)
      → IsCleanSpan span
      → IsCleanSpan (run_calls calls span)
  run_calls-IsCleanSpan [] span h = h
  run_calls-IsCleanSpan (c ∷ cs) span h =
      run_calls-IsCleanSpan cs (run_call c span) (run_call-IsClean c span h)
