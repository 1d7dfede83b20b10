-- ===== src/Tracing/Loopback.antt =====
-- Every sequence of the calls of the tracing module.
use hermes_enterprise_deploy.Base.{
  ℕ, ◌<◌, String, Bool, true, false, Option, none, some, List, [], ◌∷◌, ◌≡◌, refl, ap, ◌∙◌, not,
  ◌&&◌, ◌||◌, filter, Bool-cases, inl, inr, arith,
}
use hermes_enterprise_deploy.Tracing.Clean.{both}
use hermes_enterprise_deploy.Platform.{Platform}
use hermes_enterprise_deploy.Mcp.Config.{Environ}
use hermes_enterprise_deploy.Tracing.Provider
use hermes_enterprise_deploy.Tracing.Provider.{
  Urls, Exporter, supplied, otlp, Provider, Tracing, initial,
}

abbrev pub as_list : {A : Type 0} → Option A → List A
as_list none = []
as_list (some a) = a ∷ []

unsettled :
    (configured live on : Bool)
    → on ≡ false
    → (configured && (live || not on)) ≡ false
    → configured ≡ false
unsettled true true on e h = cc
unsettled true false true e h = cc
unsettled true false false e h = cc
unsettled false live on e h = refl

module _ (p : Platform) (urls : Urls) where
  -- Spans go to a caller's exporter, or to an address of this machine.
  abbrev pub IsLocal : Exporter → Type 0
  IsLocal supplied = Unit
  IsLocal (otlp endpoint) = Provider.is_loopback_url p urls endpoint ≡ true

  abbrev Made : ℕ → Option Provider → Type 0
  Made next none = Unit
  Made next (some q) = q.number < next

  abbrev LocalProvider : Option Provider → Type 0
  LocalProvider none = Unit
  LocalProvider (some q) = IsLocal q.exporter

  -- At most one provider lives, that of the module, and only if the module is configured.
  pub record IsCoherent (t : Tracing) : Type 0 where
    pub one_lives : t.live ≡ as_list t.provider
    pub numbered : Made t.next t.provider
    pub global_numbered : Made t.next t.global
    pub unconfigured : t.configured ≡ false → t.provider ≡ none
    pub local_exporter : LocalProvider t.provider

  shut-as_list : (o : Option Provider) → Provider.shut_any o (as_list o) ≡ []
  unfolding filter
  shut-as_list none = refl
  shut-as_list (some q) = ground arith

  shut-fresh :
      (o : Option Provider) (fresh : Provider)
      → Made fresh.number o
      → Provider.shut_any o (fresh ∷ []) ≡ fresh ∷ []
  unfolding filter
  shut-fresh none fresh m = refl
  shut-fresh (some q) fresh m = ground arith

  install-IsCoherent :
      (e : Exporter) (t : Tracing) → IsLocal e → IsCoherent t → IsCoherent (Provider.install e t)
  unfolding Provider.install Provider.reset_global_provider
  install-IsCoherent e t l h =
      let fresh : Provider = record { number = t.next; exporter = e } in
      let gone : Provider.shut_any t.provider t.live ≡ [] =
        ap (Provider.shut_any t.provider) h.one_lives ∙ shut-as_list t.provider in
      record {
        one_lives =
            ap (λ l. Provider.shut_any t.global (fresh ∷ l)) gone
            ∙ shut-fresh t.global fresh h.global_numbered;
        numbered = omega arith;
        global_numbered = omega arith;
        unconfigured = λ c. cc;
        local_exporter = l;
      }

  shutdown_tracing-IsCoherent :
      (t : Tracing) → IsCoherent t → IsCoherent (Provider.shutdown_tracing t)
  unfolding Provider.shutdown_tracing
  shutdown_tracing-IsCoherent t h = record {
    one_lives = ap (Provider.shut_any t.provider) h.one_lives ∙ shut-as_list t.provider;
    numbered = tt;
    global_numbered = h.global_numbered;
    unconfigured = λ c. refl;
    local_exporter = tt;
  }

  shut-none : (o : Option Provider) → Provider.shut_any o [] ≡ []
  unfolding filter
  shut-none none = refl
  shut-none (some q) = refl

  reset_tracing-IsCoherent :
      (t : Tracing) → IsCoherent t → IsCoherent (Provider.reset_tracing_for_tests t)
  unfolding Provider.reset_tracing_for_tests Provider.reset_global_provider
      Provider.shutdown_tracing
  reset_tracing-IsCoherent t h = record {
    one_lives =
        ap (Provider.shut_any t.global) (shutdown_tracing-IsCoherent t h).one_lives
        ∙ shut-none t.global;
    numbered = tt;
    global_numbered = tt;
    unconfigured = λ c. refl;
    local_exporter = tt;
  }

  disabled-IsCoherent :
      (t : Tracing) → t.provider ≡ none → IsCoherent t → IsCoherent (Provider.disabled p urls t)
  disabled-IsCoherent t gone h = record {
    one_lives = h.one_lives ∙ ap as_list gone;
    numbered = tt;
    global_numbered = h.global_numbered;
    unconfigured = λ c. refl;
    local_exporter = tt;
  }

  install_endpoint-IsCoherent :
      (o : Option String) (t : Tracing)
      → Provider.loopback_endpoint p urls o ≡ true
      → IsCoherent t
      → IsCoherent (Provider.install_endpoint p urls o t)
  install_endpoint-IsCoherent none t fine h = cc
  install_endpoint-IsCoherent (some endpoint) t fine h =
      install-IsCoherent (otlp endpoint) t (both _ _ fine).1 h

  enabled-loopback :
      (env : Environ)
      → Provider.tracing_enabled p urls env ≡ true
      → Provider.loopback_endpoint p urls (Provider.endpoint_from_env p urls env) ≡ true
  unfolding Provider.tracing_enabled
  enabled-loopback env h = (both _ _ h).1

  from_env-IsCoherent :
      (env : Environ) (t : Tracing)
      → IsCoherent t
      → IsCoherent (Provider.configure_tracing p urls none env t)
  unfolding Provider.configure_tracing
  from_env-IsCoherent env t h =
      elim (Bool-cases (
        t.configured
        && (Provider.is_some t.provider || not (Provider.tracing_enabled p urls env)))) [
          | inl settled ↦ rw settled h
          | inr open_yet ↦ elim (Bool-cases (Provider.tracing_enabled p urls env)) [
            | inl on ↦
                rw (open_yet, on)
                  (install_endpoint-IsCoherent (Provider.endpoint_from_env p urls env) t
                    (enabled-loopback env on) h)
            | inr off ↦
                rw (open_yet, off)
                  (disabled-IsCoherent t (h.unconfigured (unsettled _ _ _ off open_yet)) h)
          ]
        ]

  -- A call of the module; `supply` is `configure_tracing` with an exporter of the caller.
  pub data Call : Type 0 where
    supply configure : Environ → Call
    shutdown reset : Call

  abbrev pub run_call : Call → Tracing → Tracing
  run_call (supply env) t = Provider.configure_tracing p urls (some supplied) env t
  run_call (configure env) t = Provider.configure_tracing p urls none env t
  run_call shutdown t = Provider.shutdown_tracing t
  run_call reset t = Provider.reset_tracing_for_tests t

  abbrev pub run_calls : List Call → Tracing → Tracing
  run_calls [] t = t
  run_calls (c ∷ cs) t = run_calls cs (run_call c t)

  run_call-IsCoherent : (c : Call) (t : Tracing) → IsCoherent t → IsCoherent (run_call c t)
  unfolding Provider.configure_tracing
  run_call-IsCoherent (supply env) t h = install-IsCoherent supplied t tt h
  run_call-IsCoherent (configure env) t h = from_env-IsCoherent env t h
  run_call-IsCoherent shutdown t h = shutdown_tracing-IsCoherent t h
  run_call-IsCoherent reset t h = reset_tracing-IsCoherent t h

  run_calls-IsCoherent :
      (calls : List Call) (t : Tracing) → IsCoherent t → IsCoherent (run_calls calls t)
  run_calls-IsCoherent [] t h = h
  run_calls-IsCoherent (c ∷ cs) t h =
      run_calls-IsCoherent cs (run_call c t) (run_call-IsCoherent c t h)

  -- After any calls of the module, in any environments, at most one provider has not been shut
  -- down, that of the module; there is none while the module is not configured; and it sends to an
  -- exporter that a caller supplied or to an endpoint on a loopback address.
  pub run_calls-initial : (calls : List Call) → IsCoherent (run_calls calls initial)
  run_calls-initial calls = run_calls-IsCoherent calls initial (record {
    one_lives = refl;
    numbered = tt;
    global_numbered = tt;
    unconfigured = λ c. refl;
    local_exporter = tt;
  })
