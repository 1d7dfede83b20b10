-- ===== src/Runner/Correlation.antt =====
-- workflow-runner/workflow_runner/correlation.py (enterprise-api/app/correlation.py is the same code).
-- `canonical` is `str(uuid.UUID(value))`, or `none` for its ValueError; `fresh` is a new `uuid4`.
use hermes_enterprise_deploy.Base.{
  String, Option, none, some, ◌≡◌, ◌==◌, string_eq, if◌then◌else◌, eq_iff, sym, ap, ◌∙◌, refl,
  arith, ◌≢◌, ◌⊎◌, some-inj, Option-cases, Bool-cases, inl, inr,
}

abbrev keep_canonical : String → String → Option String → String
keep_canonical fresh value none = fresh
keep_canonical fresh value (some canonical) = if value == canonical then canonical else fresh

module _ (canonical : String → Option String) where
  unfoldable pub normalize_correlation_id : String → Option String → String
  normalize_correlation_id fresh none = fresh
  normalize_correlation_id fresh (some value) = keep_canonical fresh value (canonical value)

  -- The value that the caller gave is kept exactly when it is canonical.
  abbrev pub Normal : String → Option String → String → Type 0
  Normal fresh none result = result ≡ fresh
  Normal fresh (some value) result =
      ((canonical value ≡ some value) × (result ≡ value))
      ⊎ ((canonical value ≢ some value) × (result ≡ fresh))

  -- When the fresh ID is canonical, the normalized ID is canonical; it is the given value if that
  -- is canonical, and else, or when none is given, the fresh ID.
  pub normalize-Normal :
      (fresh : String) (value : Option String)
      → canonical fresh ≡ some fresh
      → (canonical (normalize_correlation_id fresh value)
          ≡ some (normalize_correlation_id fresh value))
        × Normal fresh value (normalize_correlation_id fresh value)
  unfolding normalize_correlation_id
  normalize-Normal fresh none c = (c, refl)
  normalize-Normal fresh (some value) c = elim (Option-cases (canonical value)) [
    | inl bad ↦ rw bad (c, inr (λ e. cc e, refl))
    | inr (form, good) ↦ elim (Bool-cases (value == form)) [
      | inl own ↦
          let eq : value ≡ form = (eq_iff value form).0 own in
          rw (good, own) (ap canonical (sym eq) ∙ good, inl (ap (λ v. some v) (sym eq), sym eq))
      | inr other ↦
          rw (good, other) (c, inr (λ e. ground (arith, eq_iff value form, some-inj e), refl))
    ]
  ]
