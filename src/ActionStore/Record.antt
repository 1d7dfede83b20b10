-- ===== src/ActionStore/Record.antt =====
-- `_validate_action_record` of enterprise-api/app/store.py, and the errors of the store.
use hermes_enterprise_deploy.Base.{
  suc, String, Bool, true, false, Option, none, some, List, [], ◌∷◌, ◌≡◌, arith, Result, ok, err,
  pos, not, if◌then◌else◌,
}
use hermes_enterprise_deploy.Json.{
  Json, int, obj, Fields, get, has_all, all_text, is_optional_text, text_at,
}
use hermes_enterprise_deploy.Platform.{Platform}

pub data StoreError : Type 0 where
  -- ValueError of the validator and of the loader
  invalid_record missing_fields invalid_field invalid_applied_at invalid_sequence : StoreError
  invalid_note corrupt_file invalid_shape invalid_records_list : StoreError
  duplicate_key duplicate_pair : StoreError
  -- OSError of the write
  write_failed : StoreError
  -- ActionConflictError, with the existing record
  key_binding_conflict : Fields → StoreError
  already_applied : Fields → StoreError

abbrev pub required_text : List String
required_text =
    "record_id" ∷ "incident_id" ∷ "action_id" ∷ "idempotency_key" ∷ "correlation_id" ∷ "applied_at"
    ∷ []

-- An `int` that is no `bool` and at least 1.
abbrev is_sequence : Option Json → Bool
is_sequence (some (int (pos (suc n)))) = true
is_sequence _ = false

abbrev pub is_some {ℓ} : {A : Type ℓ} → Option A → Bool
is_some none = false
is_some (some _) = true

module _ (p : Platform) where
  validate_fields : Fields → Result StoreError Fields
  validate_fields raw =
      if not (has_all ("sequence" ∷ required_text) raw)
      then err missing_fields
      else if not (all_text required_text raw)
      then err invalid_field
      else if not (is_some (p.fromisoformat (text_at "applied_at" raw)))
      then err invalid_applied_at
      else if not (is_sequence (get "sequence" raw))
      then err invalid_sequence
      else if not (is_optional_text (get "note" raw))
      then err invalid_note
      else ok raw

  unfoldable pub validate_action_record : Json → Result StoreError Fields
  unfolding validate_fields
  validate_action_record (obj raw) = validate_fields raw
  validate_action_record _ = err invalid_record

  -- The validator returns its argument.
  pub validate_action_record-same :
      (raw : Json) {item : Fields} → validate_action_record raw ≡ ok item → raw ≡ obj item
  unfolding validate_action_record
  validate_action_record-same (obj raw) e = ground arith
  validate_action_record-same _ e = cc

  -- A record that the validator accepts.
  abbrev pub IsRecord : Fields → Type 0
  IsRecord raw = validate_action_record (obj raw) ≡ ok raw
