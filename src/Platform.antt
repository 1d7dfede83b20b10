-- ===== src/Platform.antt =====
-- The functions of the Python standard library that the components call, and what they rely on.
-- An instant is its number of microseconds; a datetime is naive or has a time zone.
use hermes_enterprise_deploy.Base.{ℕ, String, Option, none, some, ◌≡◌, ◌≢◌}
use hermes_enterprise_deploy.Base.Dict.{Dict, lookup, NodupKeys}
use hermes_enterprise_deploy.Base.{string_eq}
use hermes_enterprise_deploy.Json.{Fields}

pub data Datetime : Type 0 where
  naive : ℕ → Datetime
  aware : ℕ → Datetime

pub record Platform : Type 0 where
  -- `datetime.isoformat` and `datetime.fromisoformat`, with `none` for its ValueError
  pub isoformat : Datetime → String
  pub fromisoformat : String → Option Datetime
  -- `hashlib.sha256(text.encode("utf-8")).hexdigest()`
  pub sha256_hex : String → String
  -- `json.dumps(value, sort_keys=True, separators=(",", ":"))` of a dict
  pub dumps : Fields → String
  -- the key order that `json.dumps(data, sort_keys=True)` leaves in the file
  pub sort_keys : Dict String Fields → Dict String Fields
  -- `str.strip` and `str.lower`
  pub strip : String → String
  pub lower : String → String

-- What is documented of them.
pub record IsLawful (p : Platform) : Type 0 where
  pub fromisoformat-isoformat : (t : ℕ) → p.fromisoformat (p.isoformat (aware t)) ≡ some (aware t)
  pub fromisoformat-empty : p.fromisoformat "" ≡ none
  pub sha256_hex-ne : (s : String) → p.sha256_hex s ≢ ""
  pub lookup-sort_keys :
      (d : Dict String Fields) (k : String) → NodupKeys d → lookup k (p.sort_keys d) ≡ lookup k d
  pub NodupKeys-sort_keys : (d : Dict String Fields) → NodupKeys d → NodupKeys (p.sort_keys d)

-- `_iso(now)` of an instant in UTC
abbrev pub iso : Platform → ℕ → String
iso p t = p.isoformat (aware t)
