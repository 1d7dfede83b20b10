-- ===== src/Approvals/Entries.antt =====
-- The dictionary of entries: what loading it gives, and that saving and loading keeps it.
use hermes_enterprise_deploy.Base.{
  String, some, [], ◌∷◌, ◌++◌, append_assoc, append-nil, ◌≡◌, sym, ◌∙◌, refl, false, err, Result,
  ap, subst, arith, eq_iff, ok, ◌==◌, string_eq, Bool-cases, inl, inr, >>=-eq-ok, ok-injective,
}
use text.Mathlib.TextPositions.{eq_refl}
use mathlib.Core.Path.{subst₂}
use hermes_enterprise_deploy.Base.Dict.{
  lookup, insert, lookup-insert, NodupKeys, NodupKeys-insert, NodupKeys-middle, insert_new,
}
use hermes_enterprise_deploy.Json.{Json, obj, Fields, field, end}
use hermes_enterprise_deploy.Platform.{Platform, IsLawful}
use hermes_enterprise_deploy.Disk.{Disk, File, absent, unreadable, document}
use hermes_enterprise_deploy.Approvals.{Entries, save, of_entries, load_entries, load_file}
use hermes_enterprise_deploy.Approvals.Entry.{ApprovalError, validate_approval_entry}
use hermes_enterprise_deploy.Approvals.Facts.{Facts, IsEntry-Facts, Facts-IsEntry}

validate_approval_entry-same :
    (p : Platform) (id : String) (entry : Json) {raw : Fields}
    → validate_approval_entry p id entry ≡ ok raw
    → entry ≡ obj raw
unfolding validate_approval_entry
validate_approval_entry-same p id (obj raw) e = ground arith
validate_approval_entry-same p id _ e = cc

module _ (p : Platform) where
  -- Distinct IDs, each with an entry that the validator accepts.
  pub record IsEntries (es : Entries) : Type 0 where
    pub nodup : NodupKeys es
    pub valid : (id : String) (raw : Fields) → lookup id es ≡ some raw → Facts p id raw

  pub empty-IsEntries : IsEntries []
  empty-IsEntries = record { nodup = tt; valid = λ id raw e. absurd (unfold lookup in cc e) }

  pub insert-IsEntries :
      (id : String) (raw : Fields) (es : Entries)
      → Facts p id raw
      → IsEntries es
      → IsEntries (insert id raw es)
  insert-IsEntries id raw es f h = record {
    nodup = NodupKeys-insert id raw es h.nodup;
    valid = λ j raw' e. elim (Bool-cases (id == j)) [
      | inl same ↦
          let held : raw ≡ raw' = ground (arith, lookup-insert j id raw es) in
          subst₂ (Facts p) ((eq_iff id j).0 same) held f
      | inr other ↦ h.valid j raw' (ground (arith, lookup-insert j id raw es))
    ];
  }

  load_entries-IsEntries :
      (fs : Fields) (acc : Entries) {es : Entries}
      → load_entries p fs acc ≡ ok es
      → IsEntries acc
      → IsEntries es
  unfolding load_entries
  load_entries-IsEntries end acc e h = subst IsEntries (ok-injective e) h
  load_entries-IsEntries (field id entry rest) acc e h =
      let (raw, valid, e') = >>=-eq-ok (validate_approval_entry p id entry) _ e in
      let same = validate_approval_entry-same p id entry valid in
      load_entries-IsEntries rest (insert id raw acc) e'
        (insert-IsEntries id raw acc (IsEntry-Facts p id raw (rw same at valid)) h)

  -- Whatever the file holds, what loads from it has distinct IDs and valid entries.
  pub load_file-IsEntries : (f : File) {es : Entries} → load_file p f ≡ ok es → IsEntries es
  unfolding load_file
  load_file-IsEntries absent e = subst IsEntries (ok-injective e) empty-IsEntries
  load_file-IsEntries unreadable e = cc
  load_file-IsEntries (document (obj raw)) e = load_entries-IsEntries raw [] e empty-IsEntries
  load_file-IsEntries (document _) e = cc

  tail-IsEntries :
      (id : String) (raw : Fields) (es : Entries) → IsEntries ((id, raw) ∷ es) → IsEntries es
  unfolding lookup
  tail-IsEntries id raw es h = record {
    nodup = h.nodup.1;
    valid = λ j raw' e. h.valid j raw' (ground (arith, eq_iff id j));
  }

  lookup_head : (id : String) (raw : Fields) (es : Entries) → lookup id ((id, raw) ∷ es) ≡ some raw
  unfolding lookup
  lookup_head id raw es = simp eq_refl

  load-of_entries :
      (es acc : Entries)
      → NodupKeys (acc ++ es)
      → IsEntries es
      → load_entries p (of_entries es) acc ≡ ok (acc ++ es)
  unfolding load_entries of_entries
  load-of_entries [] acc n h = ap (λ (x : Entries). ok x) (sym (append-nil acc))
  load-of_entries ((id, raw) ∷ es) acc n h =
      let valid = Facts-IsEntry p id raw (h.valid id raw (lookup_head id raw es)) in
      rw (valid, insert_new id raw acc (NodupKeys-middle id raw acc es n))
        (load-of_entries es (acc ++ (id, raw) ∷ []) (rw append_assoc n) (tail-IsEntries id raw es h)
          ∙ ap (λ (x : Entries). ok x) (append_assoc acc ((id, raw) ∷ []) es))

  sort_keys-IsEntries : IsLawful p → (es : Entries) → IsEntries es → IsEntries (p.sort_keys es)
  sort_keys-IsEntries law es h = record {
    nodup = law.NodupKeys-sort_keys es h.nodup;
    valid = λ id raw e. h.valid id raw (sym (law.lookup-sort_keys es id h.nodup) ∙ e);
  }

  pub written-loads :
      IsLawful p
      → (es : Entries) → IsEntries es
      → load_file p (document (obj (of_entries (p.sort_keys es)))) ≡ ok (p.sort_keys es)
  unfolding load_file
  written-loads law es h =
      load-of_entries (p.sort_keys es) [] (law.NodupKeys-sort_keys es h.nodup)
        (sort_keys-IsEntries law es h)

  -- After a save: the file loads with the same entry for each ID, or the disk took no writes and is
  -- as it was.
  abbrev pub Saved : Entries → Disk → Result ApprovalError (Unit {0}) × Disk → Type 0
  Saved es d (ok _, d') =
      (es' : Entries) × (load_file p d'.file ≡ ok es')
      × ((id : String) → lookup id es' ≡ lookup id es)
  Saved es d (err _, d') = (d.writable ≡ false) × (d' ≡ d)

  -- On a lawful platform, a save of a dictionary of valid entries succeeds and leaves a file that
  -- loads with the same entry for every ID, or the disk takes no writes and is left as it was.
  pub save-Saved : IsLawful p → (es : Entries) (d : Disk) → IsEntries es → Saved es d (save p es d)
  unfolding save
  save-Saved law es d h = elim (Bool-cases d.writable) [
    | inl free ↦
        rw free (p.sort_keys es, written-loads law es h, λ id. law.lookup-sort_keys es id h.nodup)
    | inr blocked ↦ rw blocked (refl, refl)
  ]
