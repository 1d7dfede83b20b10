-- ===== src/Tracing/Allowed.antt =====
-- What a span may carry: the lists of workflow_runner/tracing.py and its tests of an attribute. Python's `in`
-- on two texts is by their characters; a number, which is no JSON value of its own here, is `int` or `float`.
-- The value of a `reason` can be looked up in a set.
use Prim.Native.Char.{code}
use Prim.Native.String.{count}
use hermes_enterprise_deploy.Base.{
  String, Bool, true, false, List, [], ◌∷◌, ◌++◌, not, ◌&&◌, ◌||◌, ◌==◌, string_eq, if◌then◌else◌,
  nat_beq, leb, any,
}
use hermes_enterprise_deploy.Base.Members.{contains}
use hermes_enterprise_deploy.Json.{Json, bool, int, float, str, Fields, end, field, set}
use hermes_enterprise_deploy.Platform.{Platform}

abbrev pub allowed_attribute_keys : List String
allowed_attribute_keys =
    "http.method" ∷ "http.route" ∷ "http.status_class" ∷ "elapsed_ms" ∷ "correlation_id" ∷ "reason"
    ∷ []

abbrev pub allowed_reason_values : List String
allowed_reason_values =
    "unknown_action_id" ∷ "unknown_approval_capability"
    ∷ "approval_capability_bound_to_different_incident"
    ∷ "approval_capability_bound_to_different_action" ∷ "approval_expired"
    ∷ "approval_already_applied" ∷ "approval_not_granted" ∷ "approver_identity_required" ∷ []

abbrev pub allowed_events : List String
allowed_events =
    "approval.requested" ∷ "approval.accepted" ∷ "mutation.dispatched" ∷ "mutation.failed_resumable"
    ∷ "mutation.applied" ∷ "mutation.replayed" ∷ "approval.rejected" ∷ []

abbrev pub forbidden_key_fragments : List String
forbidden_key_fragments =
    "token" ∷ "auth" ∷ "bearer" ∷ "cookie" ∷ "capability" ∷ "idempotency" ∷ "note" ∷ "body"
    ∷ "password" ∷ "secret" ∷ "incident" ∷ "action_id" ∷ "approval_id" ∷ "record" ∷ "header" ∷ []

abbrev pub forbidden_value_markers : List String
forbidden_value_markers =
    "Bearer " ∷ "bearer " ∷ "cap_" ∷ "idem-" ∷ "apr_" ∷ "lab-read-token" ∷ "lab-write-token" ∷ []

unfoldable pub starts_with : String → String → Bool
starts_with String.[] text = true
starts_with (String.◌∷◌ c s) String.[] = false
starts_with (String.◌∷◌ c s) (String.◌∷◌ d t) = nat_beq (code c) (code d) && starts_with s t

-- `part in text`
unfoldable pub occurs : String → String → Bool
unfolding starts_with
occurs part String.[] = part == ""
occurs part (String.◌∷◌ d t) = starts_with part (String.◌∷◌ d t) || occurs part t

-- `_safe_value`
unfoldable pub safe_value : Json → Bool
unfolding occurs any
safe_value (bool b) = true
safe_value (int n) = true
safe_value (float n) = true
safe_value (str value) =
    leb (count value) 128 && not (any (λ marker. occurs marker value) forbidden_value_markers)
safe_value _ = false

-- `key == "reason" and value not in ALLOWED_REASON_VALUES`
abbrev pub bad_reason : String → Json → Bool
bad_reason key (str value) = key == "reason" && not (contains allowed_reason_values value)
bad_reason key _ = key == "reason"

-- A span: whether it records, and what has been set on it.
pub record Span : Type 0 where
  pub is_recording : Bool
  pub attributes : Fields
  pub events : List (String × Fields)

-- The loop of `span.set_attribute`
abbrev pub set_all : Fields → Fields → Fields
set_all attributes end = attributes
set_all attributes (field key value rest) = set_all (set key value attributes) rest

module _ (p : Platform) where
  unfoldable pub kept : String → Json → Bool
  unfolding contains any occurs safe_value
  kept key value =
      contains allowed_attribute_keys key
      && not (any (λ fragment. occurs fragment (p.lower key)) forbidden_key_fragments)
      && not (bad_reason key value)
      && safe_value value

  unfoldable pub sanitize_attributes : Fields → Fields
  unfolding kept
  sanitize_attributes end = end
  sanitize_attributes (field key value rest) =
      let cleaned = sanitize_attributes rest in
      if kept key value then field key value cleaned else cleaned

  unfoldable pub set_sanitized_attributes : Fields → Span → Span
  unfolding sanitize_attributes set
  set_sanitized_attributes attributes span =
      if span.is_recording
      then record span { attributes = set_all span.attributes (sanitize_attributes attributes) }
      else span

  unfoldable pub add_bounded_event : String → Fields → Span → Span
  unfolding sanitize_attributes contains
  add_bounded_event name attributes span =
      if not span.is_recording || not (contains allowed_events name)
      then span
      else record span { events = span.events ++ (name, sanitize_attributes attributes) ∷ [] }
