-- ===== src/ActionStore/Shared.antt =====
-- Several processes over one file. The file lock makes each call one step; between the calls the
-- memory of a process may be anything, since each call loads the file first.
use hermes_enterprise_deploy.Base.{
  ◌≤◌, String, Bool, true, ◌≡◌, refl, sym, ◌∙◌, ok, err, false, count, List, [], ◌∷◌, ◌++◌,
  Bool-cases, inl, inr, ◌⊎◌, Result,
}
use hermes_enterprise_deploy.Json.{Fields}
use hermes_enterprise_deploy.Platform.{Platform, IsLawful}
use hermes_enterprise_deploy.Disk.{absent, document, Disk}
use hermes_enterprise_deploy.ActionStore.{World, Commit, Stamp, commit, payload, reset, set_index}
use hermes_enterprise_deploy.ActionStore.Record.{StoreError}
use hermes_enterprise_deploy.ActionStore.Loading.{Index, empty_index, load_unlocked}
use hermes_enterprise_deploy.ActionStore.Indexed.{IsIndexed, IsIndexed-Finds, has_key, has_pair}
use hermes_enterprise_deploy.ActionStore.Valid.{IsRequest}
use hermes_enterprise_deploy.ActionStore.Spec.{
  Decision, created, decide_commit, loaded, perform, commit-refines,
}
use hermes_enterprise_deploy.ActionStore.Durable.{
  commit-loaded-IsStore, reset-loaded-IsStore, load_unlocked-IsIndexed,
}

-- How the records `rs` and the disk `d` of a call relate to what the call left.
-- With a path, the file of a create has all the records; without one the disk is not touched.
abbrev pub Extends : List Fields → Disk → Result StoreError (Fields × Bool) × World → Type 0
Extends rs d (ok (r, true), w) =
    (w.store.records ≡ rs ++ r ∷ [])
    × (((w.store.file_backed ≡ false) × (w.disk ≡ d))
        ⊎ (w.disk.file ≡ document (payload (rs ++ r ∷ []))))
Extends rs d (ok (r, false), w) = (w.store.records ≡ rs) × (w.disk ≡ d)
Extends rs d (err _, w) = (w.store.records ≡ rs) × (w.disk ≡ d)

module _ (p : Platform) where
  -- A call by some process, with any memory, or a change of whether the disk takes writes.
  pub data Step (d d' : Disk) : Type 0 where
    commits :
        (w : World) (c : Commit) (s : Stamp)
        → w.disk ≡ d
        → w.store.file_backed ≡ true
        → IsRequest c
        → d' ≡ (commit p c s w).1.disk
        → Step d d'
    resets :
        (w : World) → w.disk ≡ d → w.store.file_backed ≡ true → d' ≡ (reset p w).1.disk → Step d d'
    outage : (writable : Bool) → d' ≡ record d { writable = writable } → Step d d'

  pub data Reach (start : Disk) : Disk → Type 0 where
    here : Reach start start
    next : {d d' : Disk} → Reach start d → Step d d' → Reach start d'

  abbrev pub Loads : Disk → Type 0
  Loads d = (ix : Index) × (load_unlocked p d.file ≡ ok ix)

  module _ (law : IsLawful p) where
    backed_load :
        (w : World) (d : Disk)
        → w.disk ≡ d
        → w.store.file_backed ≡ true
        → (h : Loads d) → loaded p w ≡ ok h.0
    backed_load w d same backed h = rw (backed, same) h.1

    Step-Loads : {d d' : Disk} → Step d d' → Loads d → Loads d'
    Step-Loads {d} (commits w c s same backed request after) h =
        let exact = load_unlocked-IsIndexed p d.file h.1 in
        rw after
          (commit-loaded-IsStore p law c s request w h.0 (backed_load w d same backed h) exact
            (rw same h)).loads
    Step-Loads {d} (resets w same backed after) h =
        let exact = load_unlocked-IsIndexed p d.file h.1 in
        rw after
          (reset-loaded-IsStore p w h.0 (backed_load w d same backed h) exact (rw same h)).loads
    Step-Loads (outage writable after) h = rw after h

    Reach-Loads : {start d : Disk} → Reach start d → Loads start → Loads d
    Reach-Loads here h = h
    Reach-Loads (next r st) h = Step-Loads st (Reach-Loads r h)

    -- On a lawful platform, however the resets and the commits without empty texts of several
    -- file-backed processes interleave from a missing file, and whether or not writes fail in
    -- between, the file loads, and no incident/action pair and no key has two records in it.
    pub Reach-one_record :
        {d : Disk} (writable : Bool)
        → Reach (record { file = absent; writable = writable }) d
        → (ix : Index) × (load_unlocked p d.file ≡ ok ix)
          × ((q : String × String) → count (has_pair q) ix.records ≤ 1)
          × ((k : String) → count (has_key k) ix.records ≤ 1)
    Reach-one_record {d} writable r =
        let (ix, e) = Reach-Loads r (empty_index, unfold load_unlocked in refl) in
        let f = IsIndexed-Finds p ix (load_unlocked-IsIndexed p d.file e) in
        (ix, e, f.one_pair, f.one_key)

  -- On a file that loads, what a file-backed process had in memory does not change the outcome of
  -- a call.
  pub commit_memory :
      (w : World) (c : Commit) (s : Stamp) (old : Index) {ix : Index}
      → w.store.file_backed ≡ true
      → load_unlocked p w.disk.file ≡ ok ix
      → commit p c s (set_index old w) ≡ commit p c s w
  commit_memory w c s old {ix} backed e =
      let exact = load_unlocked-IsIndexed p w.disk.file e in
      commit-refines p c s (set_index old w) ix (rw backed e) exact
      ∙ sym (commit-refines p c s w ix (rw backed e) exact)

  perform-Extends : (d : Decision) (w : World) → Extends w.store.records w.disk (perform p d w)
  perform-Extends (created r) w = elim (Bool-cases w.store.file_backed) [
    | inr memory ↦ rw memory (refl, inl (refl, refl))
    | inl backed ↦ rw backed (elim (Bool-cases w.disk.writable) [
      | inr blocked ↦ rw blocked (refl, refl)
      | inl free ↦ rw free (refl, inr refl)
    ])
  ]
  perform-Extends _ w = (refl, refl)

  -- A call on a store whose index loads and is exact never changes or drops a record: a create
  -- adds its record at the end, in memory and, with a path, in the file, which without a path is
  -- not touched; a replay or an error leaves the loaded records and the disk as they are.
  pub commit-Extends :
      (w : World) (c : Commit) (s : Stamp) (ix : Index)
      → loaded p w ≡ ok ix
      → IsIndexed p ix
      → Extends ix.records w.disk (commit p c s w)
  commit-Extends w c s ix e h =
      rw (commit-refines p c s w ix e h)
        (perform-Extends (decide_commit p c s ix.records) (set_index ix w))
