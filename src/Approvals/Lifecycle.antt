-- ===== src/Approvals/Lifecycle.antt =====
-- The state machine of one entry, and the proof that every method moves entries along it alone.
use hermes_enterprise_deploy.Base.{
  ℕ, ◌<◌, String, Bool, true, false, Option, none, some, List, [], ◌∷◌, ◌≡◌, refl, sym, ◌∙◌, subst,
  arith, eq_iff, Result, ok, ◌==◌, string_eq, Bool-cases, some-inj, inl, inr, ltb, ◌||◌,
}
use hermes_enterprise_deploy.Base.Dict.{lookup, insert, lookup-insert, lookup-insert_self}
use hermes_enterprise_deploy.Json.{str, Fields, obj, text_at, get-set}
use hermes_enterprise_deploy.Platform.{Platform, IsLawful}
use hermes_enterprise_deploy.Disk.{Disk}
use hermes_enterprise_deploy.Approvals.{
  Entries, is_live, status_of, expired_entry, approved_entry, applied_entry, with_event,
  expire_if_needed, expire_at, expire_entry, expire_all, load_file, save, save_if,
}
use hermes_enterprise_deploy.Approvals.Entry.{ApprovalError, parse, is_instant}
use hermes_enterprise_deploy.Approvals.Updates.{expired_entry-Facts}
use hermes_enterprise_deploy.Approvals.Entries.{IsEntries, insert-IsEntries, written-loads}

module _ (p : Platform) where
  -- One step of an entry.
  pub data Evolves (raw raw' : Fields) : Type 0 where
    same : raw' ≡ raw → Evolves raw raw'
    notes : (e : Fields) → raw' ≡ with_event (obj e) raw → Evolves raw raw'
    expires : (now : ℕ) → is_live raw ≡ true → raw' ≡ expired_entry p now raw → Evolves raw raw'
    grants :
        (now : ℕ) (approver capability : String)
        → status_of raw ≡ "pending"
        → raw' ≡ approved_entry p now approver capability raw
        → Evolves raw raw'
    applies :
        (now : ℕ) (record_id : String)
        → status_of raw ≡ "approved"
        → raw' ≡ applied_entry p now (str record_id) raw
        → Evolves raw raw'

  -- Every entry is still there, at most one step further.
  pub record EvolveAll (es es' : Entries) : Type 0 where
    pub at :
        (id : String) (raw : Fields)
        → lookup id es ≡ some raw
        → (raw' : Fields) × (lookup id es' ≡ some raw') × Evolves raw raw'

  pub EvolveAll-refl : (es : Entries) → EvolveAll es es
  EvolveAll-refl es = record { at = λ id raw e. (raw, e, same refl) }

  pub insert-EvolveAll :
      (id : String) (raw raw' : Fields) (es : Entries)
      → lookup id es ≡ some raw
      → Evolves raw raw'
      → EvolveAll es (insert id raw' es)
  insert-EvolveAll id raw raw' es here ev = record {
    at = λ j old e. elim (Bool-cases (id == j)) [
      | inl eq ↦
          let held : raw ≡ old = ground (arith, eq_iff id j) in
          (raw', rw (lookup-insert j id raw' es, eq), subst (λ x. Evolves x raw') held ev)
      | inr other ↦ (old, rw (lookup-insert j id raw' es, other) e, same refl)
    ];
  }

  pub insert_new-EvolveAll :
      (id : String) (raw : Fields) (es : Entries)
      → lookup id es ≡ none
      → EvolveAll es (insert id raw es)
  insert_new-EvolveAll id raw es fresh = record {
    at = λ j old e.
        let kept : lookup j (insert id raw es) ≡ some old =
          ground (arith, lookup-insert j id raw es, eq_iff id j) in
        (old, kept, same refl);
  }

  -- The step that the clock makes, and no other.
  pub data ExpiresTo (now : ℕ) (raw raw' : Fields) : Type 0 where
    unexpired : raw' ≡ raw → ExpiresTo now raw raw'
    expired : is_live raw ≡ true → raw' ≡ expired_entry p now raw → ExpiresTo now raw raw'

  pub record ExpireAll (now : ℕ) (es es' : Entries) : Type 0 where
    pub at :
        (id : String) (raw : Fields)
        → lookup id es ≡ some raw
        → (raw' : Fields) × (lookup id es' ≡ some raw') × ExpiresTo now raw raw'

  pub ExpireAll-refl : (now : ℕ) (es : Entries) → ExpireAll now es es
  ExpireAll-refl now es = record { at = λ id raw e. (raw, e, unexpired refl) }

  ExpiresTo-Evolves : (now : ℕ) (raw raw' : Fields) → ExpiresTo now raw raw' → Evolves raw raw'
  ExpiresTo-Evolves now raw raw' (unexpired e) = same e
  ExpiresTo-Evolves now raw raw' (expired l e) = expires now l e

  pub ExpireAll-EvolveAll : (now : ℕ) (es es' : Entries) → ExpireAll now es es' → EvolveAll es es'
  ExpireAll-EvolveAll now es es' h = record {
    at = λ id raw e.
        let (raw', e', step) = h.at id raw e in (raw', e', ExpiresTo-Evolves now raw raw' step);
  }

  insert-ExpireAll :
      (now : ℕ) (id : String) (raw : Fields) (es : Entries)
      → lookup id es ≡ some raw
      → is_live raw ≡ true
      → ExpireAll now es (insert id (expired_entry p now raw) es)
  insert-ExpireAll now id raw es here l = record {
    at = λ j old e. elim (Bool-cases (id == j)) [
      | inl eq ↦
          let held : raw ≡ old = ground (arith, eq_iff id j) in
          (
            expired_entry p now raw,
            rw (lookup-insert j id (expired_entry p now raw) es, eq),
            subst (λ x. ExpiresTo now x (expired_entry p now raw)) held (expired l refl),
          )
      | inr other ↦
          (old, rw (lookup-insert j id (expired_entry p now raw) es, other) e, unexpired refl)
    ];
  }

  -- What `_expire_if_needed` gives on valid entries.
  pub record Expiry (now : ℕ) (id : String) (es es' : Entries) (changed : Bool) : Type 0 where
    pub entries : IsEntries p es'
    pub expire : ExpireAll now es es'
    pub unchanged : changed ≡ false → es' ≡ es
    pub found :
        (raw : Fields)
        → lookup id es' ≡ some raw
        → is_live raw ≡ true
        → (t : ℕ) × (parse p (text_at "expires_at" raw) ≡ some t) × (now < t) × (es' ≡ es)

  pub status-expired_entry :
      (now : ℕ) (raw : Fields) → status_of (expired_entry p now raw) ≡ "expired"
  unfolding status_of
  status-expired_entry now raw = simp get-set

  dead_expired : (raw : Fields) → status_of raw ≡ "expired" → is_live raw ≡ false
  dead_expired raw e = rw e

  instant_of : (o : Option ℕ) → is_instant o ≡ true → (t : ℕ) × (o ≡ some t)
  instant_of none e = cc
  instant_of (some t) e = (t, refl)

  abbrev Expires : ℕ → String → Entries → Result ApprovalError (Entries × Bool) → Type 0
  Expires now id es r =
      (es' : Entries) × (changed : Bool) × (r ≡ ok (es', changed)) × Expiry now id es es' changed

  module _ (now : ℕ) (id : String) (es : Entries) (h : IsEntries p es) where
    kept :
        ((raw : Fields)
          → lookup id es ≡ some raw
          → is_live raw ≡ true
          → (t : ℕ) × (parse p (text_at "expires_at" raw) ≡ some t) × (now < t) × (es ≡ es))
        → Expires now id es (ok (es, false))
    kept found = (
      es,
      false,
      refl,
      record { entries = h; expire = ExpireAll-refl now es; unchanged = λ e. refl; found = found },
    )

    expire_at-Expires :
        (raw : Fields) (t : ℕ)
        → lookup id es ≡ some raw
        → is_live raw ≡ true
        → parse p (text_at "expires_at" raw) ≡ some t
        → Expires now id es (expire_at p now id es raw (some t))
    expire_at-Expires raw t e is_live_now et = elim (Bool-cases (ltb now t)) [
      | inl early ↦ rw early (
          kept λ raw' e' live'.
            let held : raw' ≡ raw = ground arith in (t, rw held et, ground arith, refl))
      | inr late ↦ rw late (
        insert id (expired_entry p now raw) es,
        true,
        refl,
        record {
          entries =
              insert-IsEntries p id _ es (expired_entry-Facts p id raw (h.valid id raw e) now) h;
          expire = insert-ExpireAll now id raw es e is_live_now;
          unchanged = λ e. cc;
          found = λ raw' e' live'.
              let held : expired_entry p now raw ≡ raw' =
                some-inj (sym (lookup-insert_self id (expired_entry p now raw) es) ∙ e') in
              let gone : status_of raw' ≡ "expired" = rw (← held) (status-expired_entry now raw) in
              cc (dead_expired raw' gone);
        },
      )
    ]

    expire_entry-Expires :
        (o : Option Fields) → lookup id es ≡ o → Expires now id es (expire_entry p now id es o)
    expire_entry-Expires none e = kept λ raw e' live. absurd (cc (e, e'))
    expire_entry-Expires (some raw) e = elim (Bool-cases (is_live raw)) [
      | inr dead ↦
          rw dead
            (kept λ raw' e' live. let held : raw' ≡ raw = ground arith in absurd (ground arith))
      | inl live ↦
          let (t, et) = instant_of _ (h.valid id raw e).expires in
          rw (live, et) (expire_at-Expires raw t e live et)
    ]

  pub expire-Expiry :
      (now : ℕ) (id : String) (es : Entries)
      → IsEntries p es
      → Expires now id es (expire_if_needed p now id es)
  unfolding expire_if_needed
  expire-Expiry now id es h = expire_entry-Expires now id es h (lookup id es) refl

  ExpiresTo-trans :
      (now : ℕ) (a b c : Fields) → ExpiresTo now a b → ExpiresTo now b c → ExpiresTo now a c
  ExpiresTo-trans now a b c (unexpired e) s = subst (λ x. ExpiresTo now x c) e s
  ExpiresTo-trans now a b c (expired l e) (unexpired e') = expired l (e' ∙ e)
  ExpiresTo-trans now a b c (expired l e) (expired l' e') =
      cc (dead_expired b (rw e (status-expired_entry now a)))

  pub expire_all-Expires :
      (now : ℕ) (ids : List String) (es : Entries) (changed : Bool)
      → IsEntries p es
      → (es' : Entries) × (changed' : Bool) × (expire_all p now ids es changed ≡ ok (es', changed'))
        × IsEntries p es'
        × ExpireAll now es es'
  unfolding expire_all
  expire_all-Expires now [] es changed h = (es, changed, refl, h, ExpireAll-refl now es)
  expire_all-Expires now (id ∷ ids) es changed h =
      let (es1, b, e, x) = expire-Expiry now id es h in
      let (es2, changed', e', h', y) = expire_all-Expires now ids es1 (b || changed) x.entries in
      (
        es2,
        changed',
        rw e e',
        h',
        record {
          at = λ j raw at_j.
              let (raw1, at1, step1) = x.expire.at j raw at_j in
              let (raw2, at2, step2) = y.at j raw1 at1 in
              (raw2, at2, ExpiresTo-trans now raw raw1 raw2 step1 step2);
        },
      )

  -- What a method leaves on disk: a file that loads, with every entry at most one step further.
  abbrev pub Kept : Entries → Disk → Type 0
  Kept es d = (es' : Entries) × (load_file p d.file ≡ ok es') × EvolveAll es es'

  module _ (law : IsLawful p) (d : Disk) (es : Entries) (loads : load_file p d.file ≡ ok es) where
    pub save-Kept : (es' : Entries) → IsEntries p es' → EvolveAll es es' → Kept es (save p es' d).1
    unfolding save
    save-Kept es' h ev = elim (Bool-cases d.writable) [
      | inr blocked ↦ rw blocked (es, loads, EvolveAll-refl es)
      | inl free ↦ rw free (
        p.sort_keys es',
        written-loads p law es' h,
        record {
          at = λ id raw e.
              let (raw', e', step) = ev.at id raw e in
              (raw', law.lookup-sort_keys es' id h.nodup ∙ e', step);
        },
      )
    ]

    pub save_if-Kept :
        (changed : Bool) (es' : Entries)
        → IsEntries p es'
        → EvolveAll es es'
        → Kept es (save_if p changed es' d).1
    save_if-Kept true es' h ev = save-Kept es' h ev
    save_if-Kept false es' h ev = (es, loads, EvolveAll-refl es)
