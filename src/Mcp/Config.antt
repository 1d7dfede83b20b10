-- ===== src/Mcp/Config.antt =====
-- enterprise-mcp/enterprise_mcp/config.py. A frozenset is the list that it is built from; only membership
-- is read of it. `split`, `rstrip` and `float` are those of Python.
use hermes_enterprise_deploy.Base.{
  String, Bool, false, Option, none, some, List, [], ◌∷◌, Result, ok, err, not, ◌||◌, ◌==◌,
  string_eq, if◌then◌else◌, filter,
}
use hermes_enterprise_deploy.Base.Members.{contains}
use hermes_enterprise_deploy.Platform.{Platform}

abbrev pub all_tools : List String
all_tools =
    "check_enterprise_api" ∷ "get_incident_context" ∷ "propose_incident_plan"
    ∷ "apply_incident_plan" ∷ []

abbrev pub default_tools : List String
default_tools = "check_enterprise_api" ∷ "get_incident_context" ∷ "propose_incident_plan" ∷ []

pub data ConfigurationError : Type 0 where
  unknown_tools : List String → ConfigurationError
  empty_surface missing_token : ConfigurationError
  no_implementation : String → ConfigurationError
  -- ValueError of `float`
  bad_timeout : ConfigurationError

-- What the module calls of Python's texts, besides `strip` and `lower`.
pub record Texts : Type 0 where
  -- `value.split(",")`
  pub split_commas : String → List String
  -- `value.rstrip("/")`
  pub rstrip_slash : String → String
  -- `float(value)`, as the text of the number
  pub float : String → Option String

pub record McpSettings : Type 0 where
  pub api_url : String
  pub api_token : String
  pub api_write_token : Option String
  pub timeout_seconds : String
  pub inject_failure : Option String

-- `bool(token)`
abbrev pub written : Option String → Bool
written none = false
written (some t) = not (t == "")

abbrev pub can_mutate : McpSettings → Bool
can_mutate s = written s.api_write_token

-- `os.environ.get`
abbrev pub Environ : Type 0
Environ = String → Option String

module _ (p : Platform) (texts : Texts) where
  -- The stripped items of a list of names, less the empty ones.
  unfoldable pub items_of : List String → List String
  items_of [] = []
  items_of (item ∷ rest) =
      let others = items_of rest in if p.strip item == "" then others else p.strip item ∷ others

  unfoldable pub unknown_of : List String → List String
  unknown_of = filter (λ name. not (contains all_tools name))

  -- From the unknown names and all names of a request.
  abbrev pub resolve_known : List String → List String → Result ConfigurationError (List String)
  resolve_known (name ∷ rest) requested = err (unknown_tools (name ∷ rest))
  resolve_known [] [] = err empty_surface
  resolve_known [] (name ∷ rest) = ok (name ∷ rest)

  abbrev pub resolve_requested : List String → Result ConfigurationError (List String)
  resolve_requested requested = resolve_known (unknown_of requested) requested

  unfoldable pub resolve_enabled_tools : Option String → Result ConfigurationError (List String)
  resolve_enabled_tools none = ok default_tools
  resolve_enabled_tools (some raw) =
      let value = p.strip raw in
      if value == ""
      then ok default_tools
      else if p.lower value == "all" || p.lower value == "*"
      then ok all_tools
      else resolve_requested (items_of (texts.split_commas value))

  unfoldable pub enabled_tools_from_env : Environ → Result ConfigurationError (List String)
  unfolding resolve_enabled_tools
  enabled_tools_from_env env = resolve_enabled_tools (env "ENTERPRISE_MCP_ENABLED_TOOLS")

  -- `os.environ.get(name, "").strip()`
  abbrev pub stripped : Option String → String
  stripped none = p.strip ""
  stripped (some value) = p.strip value

  -- `value or None`
  abbrev pub or_none : String → Option String
  or_none value = if value == "" then none else some value

  abbrev pub or_default : String → Option String → String
  or_default default none = default
  or_default default (some value) = value

  abbrev settings_with : Environ → String → Option String → Result ConfigurationError McpSettings
  settings_with env token none = err bad_timeout
  settings_with env token (some timeout) = ok (record {
    api_url = texts.rstrip_slash (or_default "http://127.0.0.1:8080" (env "ENTERPRISE_API_URL"));
    api_token = token;
    api_write_token = or_none (stripped (env "ENTERPRISE_API_WRITE_TOKEN"));
    timeout_seconds = timeout;
    inject_failure = or_none (stripped (env "ENTERPRISE_INJECT_FAILURE"));
  })

  unfoldable pub load_settings : Environ → Result ConfigurationError McpSettings
  load_settings env =
      let token = stripped (env "ENTERPRISE_API_TOKEN") in
      if token == ""
      then err missing_token
      else settings_with env token
          (texts.float (or_default "10" (env "ENTERPRISE_API_TIMEOUT_SECONDS")))
