-- ===== src/ActionStore/Idempotent.antt =====
-- What a second call meets after a call that succeeded.
use hermes_enterprise_deploy.Base.{
  ◌+◌, String, Bool, true, false, Option, none, some, [], ◌∷◌, ◌++◌, ◌≡◌, refl, ap, sym, ◌∙◌, subst,
  arith, Result, ok, err, length, find, find-append, find_other, ◌==◌, pair_eq, string_eq,
  Bool-cases, inl, inr,
}
use hermes_enterprise_deploy.Json.{Json, str, Fields, get, is_str, text_of}
use hermes_enterprise_deploy.Platform.{Platform, IsLawful}
use hermes_enterprise_deploy.ActionStore.{World, Commit, Stamp, commit, open_store, set_index}
use hermes_enterprise_deploy.ActionStore.Record.{StoreError, already_applied}
use hermes_enterprise_deploy.ActionStore.Loading.{Index, empty_index, publish}
use hermes_enterprise_deploy.ActionStore.Indexed.{IsIndexed, IsIndexed-Finds, has_key, has_pair}
use hermes_enterprise_deploy.ActionStore.Valid.{IsRequest}
use hermes_enterprise_deploy.ActionStore.Spec.{
  Decision, replayed, pair_conflict, created, decide_commit, decide_created, decide_replayed,
  decide_replays, decide_taken, created_fits, loaded, reload-eq, perform, commit-refines, same_pair,
}
use hermes_enterprise_deploy.ActionStore.Durable.{
  IsStore, IsStore-loaded, created-IsIndexed, load-payload,
}

is_str-text : (s : String) (o : Option Json) → is_str s o ≡ true → (text_of o == s) ≡ true
is_str-text s (some (str t)) h = h
is_str-text s _ h = cc

same_pair-has_pair :
    (c : Commit) (r : Fields)
    → same_pair c r ≡ true
    → has_pair (c.incident_id, c.action_id) r ≡ true
same_pair-has_pair c r h = ground (
  arith,
  is_str-text c.incident_id (get "incident_id" r),
  is_str-text c.action_id (get "action_id" r),
)

module _ (p : Platform) where
  -- The record is bound to its key, and a restart finds what the memory holds.
  record Committed (c : Commit) (r : Fields) (w : World) : Type 0 where
    same_index : loaded p w ≡ ok w.store.index
    indexed : IsIndexed p w.store.index
    at_key : find (has_key c.idempotency_key) w.store.records ≡ some r
    bound : same_pair c r ≡ true

  abbrev Success : Commit → Result StoreError (Fields × Bool) × World → Type 0
  Success c (ok (r, _), w) = Committed c r w
  Success c (err _, _) = Unit

  loaded-set_index :
      (w : World) (ix : Index) → loaded p w ≡ ok ix → loaded p (set_index ix w) ≡ ok ix
  loaded-set_index w ix e = elim (Bool-cases w.store.file_backed) [
    | inl backed ↦ rw backed (rw backed at e)
    | inr memory ↦ rw memory
  ]

  module _ (law : IsLawful p) (c : Commit) (s : Stamp) (request : IsRequest c) where
    find_created :
        (ix : Index) {r : Fields}
        → decide_commit p c s ix.records ≡ created r
        → (find (has_key c.idempotency_key) (ix.records ++ r ∷ []) ≡ some r)
          × (same_pair c r ≡ true)
    find_created ix {r} e =
        let (new_key, new_pair, same) = decide_created p c s ix.records e in
        let (fits_key, fits_pair, fits) = created_fits p c s (length ix.records + 1) in
        (
          rw (find-append (has_key c.idempotency_key) ix.records r, new_key, same, fits_key),
          rw (same, fits),
        )

    perform-Success :
        (w : World) (d : Decision)
        → IsIndexed p w.store.index
        → loaded p w ≡ ok w.store.index
        → decide_commit p c s w.store.records ≡ d
        → Success c (perform p d w)
    perform-Success w (replayed r) h l e =
        let (at, same) = decide_replayed p c s w.store.records e in
        record { same_index = l; indexed = h; at_key = at; bound = same }
    perform-Success w (created r) h l e =
        let exact = created-IsIndexed p law c s request w.store.index h e in
        let (at, same) = find_created w.store.index e in
        elim (Bool-cases w.store.file_backed) [
          | inr memory ↦
              rw memory (record { same_index = refl; indexed = exact; at_key = at; bound = same })
          | inl backed ↦ rw backed (elim (Bool-cases w.disk.writable) [
            | inr blocked ↦ rw blocked tt
            | inl free ↦ rw free (record {
              same_index = load-payload p (publish r w.store.index) exact;
              indexed = exact;
              at_key = at;
              bound = same;
            })
          ])
        ]
    perform-Success w _ h l e = tt

    commit-Success : (w : World) → IsStore p w → Success c (commit p c s w)
    commit-Success w h =
        let (ix, e, hx) = IsStore-loaded p w h in
        rw (commit-refines p c s w ix e hx) (
          perform-Success (set_index ix w) (decide_commit p c s ix.records) hx
            (loaded-set_index w ix e) refl)

    pub commit-loaded :
        (w w' : World) (r : Fields) (created : Bool)
        → IsStore p w
        → commit p c s w ≡ (ok (r, created), w')
        → loaded p w' ≡ ok w'.store.index
    commit-loaded w w' r b h e = (subst (Success c) e (commit-Success w h)).same_index

    -- On a lawful platform, once a commit without empty texts has succeeded on an exact
    -- file-backed store over a file that loads, a new process that opens a store on that disk gets
    -- exactly the store that the commit left in memory.
    pub commit_durable :
        (w w' : World) (r : Fields) (created : Bool)
        → IsStore p w
        → w'.store.file_backed ≡ true
        → commit p c s w ≡ (ok (r, created), w')
        → open_store p true w'.disk ≡ ok w'
    unfolding open_store
    commit_durable w w' r b h backed e =
        let opened : World = record {
          store = record { file_backed = true; index = empty_index };
          disk = w'.disk;
        } in
        ap
          (λ (answer : Result StoreError (Unit {0}) × World).
            elim answer.0 as (λ x. Result StoreError World) [
              | ok _ ↦ ok answer.1
              | err e' ↦ err e'
            ])
          (reload-eq p opened (rw backed at (commit-loaded w w' r b h e)))
        ∙ (ap
            (λ kept.
              let back : Result StoreError World = ok (record {
                store = record { file_backed = kept; index = w'.store.index };
                disk = w'.disk;
              }) in
              back)
            (sym backed))

    -- On a lawful platform, once a commit without empty texts has succeeded on an exact store over
    -- a file that loads, a call on what it left with its key and its pair returns the same record,
    -- says that it is a replay, and changes nothing, whatever its note, correlation ID and time.
    pub commit_retry :
        (w w' : World) (r : Fields) (created : Bool) (c' : Commit) (s' : Stamp)
        → IsStore p w
        → commit p c s w ≡ (ok (r, created), w')
        → c'.idempotency_key ≡ c.idempotency_key
        → c'.incident_id ≡ c.incident_id
        → c'.action_id ≡ c.action_id
        → commit p c' s' w' ≡ (ok (r, false), w')
    commit_retry w w' r b c' s' h e same_key same_incident same_action =
        let done = subst (Success c) e (commit-Success w h) in
        commit-refines p c' s' w' w'.store.index done.same_index done.indexed
        ∙ ap (λ d. perform p d w')
            (let same : decide_commit p c' s' w'.store.records ≡ replayed r =
                decide_replays p c' s' w'.store.records (rw same_key done.at_key)
                  (rw (same_incident, same_action) done.bound) in
              same)

    -- On a lawful platform, once a commit without empty texts has succeeded on an exact store over
    -- a file that loads, a call on what it left for its pair under a key that no record has is
    -- refused with the record of the pair, and changes nothing.
    pub commit_other_key :
        (w w' : World) (r : Fields) (created : Bool) (c' : Commit) (s' : Stamp)
        → IsStore p w
        → commit p c s w ≡ (ok (r, created), w')
        → find (has_key c'.idempotency_key) w'.store.records ≡ none
        → c'.incident_id ≡ c.incident_id
        → c'.action_id ≡ c.action_id
        → commit p c' s' w' ≡ (err (already_applied r), w')
    commit_other_key w w' r b c' s' h e new_key same_incident same_action =
        let done = subst (Success c) e (commit-Success w h) in
        let taken : decide_commit p c' s' w'.store.records ≡ pair_conflict r =
          decide_taken p c' s' w'.store.records new_key (
            rw (same_incident, same_action)
              (find_other (has_key c.idempotency_key) (has_pair (c.incident_id, c.action_id))
                w'.store.records done.at_key (same_pair-has_pair c r done.bound)
                ((IsIndexed-Finds p w'.store.index done.indexed).one_pair
                  (c.incident_id, c.action_id)))) in
        commit-refines p c' s' w' w'.store.index done.same_index done.indexed
        ∙ ap (λ d. perform p d w') taken
