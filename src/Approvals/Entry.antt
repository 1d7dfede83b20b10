-- ===== src/Approvals/Entry.antt =====
-- One entry of the approval file: `_validate_approval_entry`, `ApprovalRequest`, `_parse`.
use hermes_enterprise_deploy.Base.{
  ℕ, String, Bool, true, false, Option, none, some, List, [], ◌∷◌, Result, ok, err, not, ◌&&◌, ◌||◌,
  ◌==◌, string_eq, if◌then◌else◌,
}
use hermes_enterprise_deploy.Json.{
  Json, str, arr, obj, Items, nil, Fields, field, end, get, has_all, all_text, all_optional_text,
  all_dicts, is_str, text_at, optional,
}
use hermes_enterprise_deploy.Platform.{Platform, Datetime, naive, aware}

pub data ApprovalError : Type 0 where
  -- ValueError of the validator, the loader and `_request_from_entry`
  invalid_entry missing_fields invalid_field key_mismatch invalid_status : ApprovalError
  invalid_timestamp invalid_optional_field invalid_history : ApprovalError
  corrupt_file invalid_shape not_loadable : ApprovalError
  -- OSError of the write
  write_failed : ApprovalError
  -- AttributeError and TypeError of a client of the store, on JSON of another shape than it reads
  attribute_error type_error : ApprovalError

abbrev pub required_fields : List String
required_fields =
    "approval_id" ∷ "incident_id" ∷ "action_id" ∷ "idempotency_key" ∷ "requested_at" ∷ "expires_at"
    ∷ "status" ∷ []

abbrev pub optional_fields : List String
optional_fields =
    "correlation_id" ∷ "approved_at" ∷ "approved_by" ∷ "capability_hash" ∷ "applied_at"
    ∷ "applied_record_id" ∷ []

unfoldable pub contains : List String → String → Bool
contains [] s = false
contains (x ∷ xs) s = if x == s then true else contains xs s

abbrev pub allowed_statuses : List String
allowed_statuses = "pending" ∷ "approved" ∷ "applied" ∷ "expired" ∷ []

-- A naive timestamp is read as UTC.
abbrev pub in_utc : Option Datetime → Option ℕ
in_utc none = none
in_utc (some (naive t)) = some t
in_utc (some (aware t)) = some t

abbrev pub parse : Platform → String → Option ℕ
parse p value = in_utc (p.fromisoformat value)

abbrev pub is_instant : Option ℕ → Bool
is_instant none = false
is_instant (some _) = true

-- `raw.get("history", [])` is a list of dicts.
abbrev pub is_history : Option Json → Bool
is_history none = true
is_history (some (arr items)) = all_dicts items
is_history (some _) = false

module _ (p : Platform) where
  unfoldable pub validate_fields : String → Fields → Result ApprovalError Fields
  validate_fields approval_id raw =
      if not (has_all required_fields raw)
      then err missing_fields
      else if not (all_text required_fields raw)
      then err invalid_field
      else if not (is_str approval_id (get "approval_id" raw))
      then err key_mismatch
      else if not (contains allowed_statuses (text_at "status" raw))
      then err invalid_status
      else if not (
          is_instant (parse p (text_at "requested_at" raw))
          && is_instant (parse p (text_at "expires_at" raw)))
      then err invalid_timestamp
      else if not (all_optional_text optional_fields raw)
      then err invalid_optional_field
      else if not (is_history (get "history" raw))
      then err invalid_history
      else ok raw

  unfoldable pub validate_approval_entry : String → Json → Result ApprovalError Fields
  unfolding validate_fields
  validate_approval_entry approval_id (obj raw) = validate_fields approval_id raw
  validate_approval_entry approval_id _ = err invalid_entry

-- The dataclass. Its `history` holds dicts.
pub record ApprovalRequest : Type 0 where
  pub approval_id : String
  pub incident_id : String
  pub action_id : String
  pub idempotency_key : String
  pub requested_at : String
  pub expires_at : String
  pub status : String
  pub correlation_id : Option String
  pub approved_at : Option String
  pub approved_by : Option String
  pub capability_hash : Option String
  pub applied_at : Option String
  pub applied_record_id : Option String
  pub history : Items

unfoldable pub to_dict : ApprovalRequest → Fields
to_dict a = field "approval_id" (str a.approval_id) (
    field "incident_id" (str a.incident_id) (
      field "action_id" (str a.action_id) (
        field "idempotency_key" (str a.idempotency_key) (
          field "requested_at" (str a.requested_at) (
            field "expires_at" (str a.expires_at) (
              field "status" (str a.status) (
                field "correlation_id" (optional a.correlation_id) (
                  field "approved_at" (optional a.approved_at) (
                    field "approved_by" (optional a.approved_by) (
                      field "capability_hash" (optional a.capability_hash) (
                        field "applied_at" (optional a.applied_at) (
                          field "applied_record_id" (optional a.applied_record_id)
                            (field "history" (arr a.history) end)))))))))))))

abbrev pub to_optional : Option Json → Option String
to_optional (some (str s)) = some s
to_optional _ = none

abbrev pub optional_at : String → Fields → Option String
optional_at k raw = to_optional (get k raw)

-- `raw.get("history") or []` of a validated entry
abbrev pub history_of : Option Json → Items
history_of (some (arr items)) = items
history_of _ = nil

-- `cls(**data)` raises TypeError at a key that is no field.
unfoldable pub only_known : Fields → Bool
unfolding contains
only_known end = true
only_known (field k v rest) =
    (contains required_fields k || contains optional_fields k || k == "history") && only_known rest

unfoldable pub from_dict : Fields → Result ApprovalError ApprovalRequest
unfolding only_known
from_dict raw =
    if only_known raw
    then ok (record {
      approval_id = text_at "approval_id" raw;
      incident_id = text_at "incident_id" raw;
      action_id = text_at "action_id" raw;
      idempotency_key = text_at "idempotency_key" raw;
      requested_at = text_at "requested_at" raw;
      expires_at = text_at "expires_at" raw;
      status = text_at "status" raw;
      correlation_id = optional_at "correlation_id" raw;
      approved_at = optional_at "approved_at" raw;
      approved_by = optional_at "approved_by" raw;
      capability_hash = optional_at "capability_hash" raw;
      applied_at = optional_at "applied_at" raw;
      applied_record_id = optional_at "applied_record_id" raw;
      history = history_of (get "history" raw);
    })
    else err not_loadable
