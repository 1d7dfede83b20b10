-- ===== src/Api/Auth.antt =====
-- enterprise-api/app/auth.py: the two token scopes, and the HTTP errors that the handlers raise.
use hermes_enterprise_deploy.Base.{
  ℕ, String, Option, none, some, Result, ok, err, ◌>>=◌, ◌||◌, ◌==◌, string_eq, if◌then◌else◌,
}
use hermes_enterprise_deploy.Json.{Json, str}
use hermes_enterprise_deploy.Platform.{Platform}
use hermes_enterprise_deploy.ActionStore.Record.{StoreError}

-- `HTTPException` with its status and detail; or any other exception, which the framework answers with 500.
pub data Failure : Type 0 where
  http : ℕ → Json → Failure
  uncaught : StoreError → Failure

pub record Settings : Type 0 where
  pub api_token : String
  pub api_write_token : String

-- `HTTPAuthorizationCredentials`
pub record Credentials : Type 0 where
  pub scheme : String
  pub credentials : String

module _ (p : Platform) where
  unfoldable pub presented_token : Option Credentials → Result Failure String
  presented_token none = err (http 401 (str "Missing bearer token"))
  presented_token (some c) =
      if p.lower c.scheme == "bearer"
      then ok c.credentials
      else err (http 401 (str "Missing bearer token"))

  -- The write scope includes the read scope.
  unfoldable pub require_read_token : Settings → Option Credentials → Result Failure (Unit {0})
  unfolding presented_token
  require_read_token settings c = presented_token c >>= λ token.
      if token == settings.api_token || token == settings.api_write_token
      then ok tt
      else err (http 403 (str "Invalid or insufficient token scope"))

  unfoldable pub require_write_token : Settings → Option Credentials → Result Failure (Unit {0})
  unfolding presented_token
  require_write_token settings c = presented_token c >>= λ token.
      if token == settings.api_write_token
      then ok tt
      else err (http 403 (str "Token lacks write scope for incident actions"))
