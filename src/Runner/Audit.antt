-- ===== src/Runner/Audit.antt =====
-- workflow-runner/workflow_runner/audit.py: `AuditLog`. The file is its list of JSON lines.
use hermes_enterprise_deploy.Base.{
  ℕ, suc, ◌+◌, ◌≡◌, String, Option, List, [], ◌∷◌, ◌++◌, length, filter, ap, ◌∙◌, pos, arith, some,
  string_eq, sym, append_assoc, append-nil,
}
use hermes_enterprise_deploy.Json.{
  str, int, Fields, dict, update, set, get, get-set, optional, is_str,
}
use hermes_enterprise_deploy.Platform.{Platform, iso}

abbrev pub Lines : Type 0
Lines = List Fields

-- `_next_seq`
unfoldable pub next_seq : Lines → ℕ
next_seq lines = length lines + 1

module _ (p : Platform) where
  unfoldable pub audit_record :
      String → ℕ → String → String → Option String → Fields → Lines → Fields
  audit_record run_id now event actor correlation_id fields lines =
      set "seq" (int (pos (next_seq lines))) (
        update
          (dict (
            ("ts", str (iso p now))
            ∷ ("run_id", str run_id)
            ∷ ("event", str event)
            ∷ ("actor", str actor)
            ∷ ("correlation_id", optional correlation_id)
            ∷ []))
          fields)

  unfoldable pub append : String → ℕ → String → String → Option String → Fields → Lines → Lines
  unfolding audit_record next_seq
  append run_id now event actor correlation_id fields lines =
      lines ++ audit_record run_id now event actor correlation_id fields lines ∷ []

unfoldable pub events_for_run : String → Lines → List Fields
events_for_run run_id = filter (λ e. is_str run_id (get "run_id" e))

-- The lines are numbered 1, 2, 3, ….
unfoldable pub Numbered : ℕ → Lines → Type 0
Numbered n [] = Unit
Numbered n (line ∷ lines) = (get "seq" line ≡ some (int (pos n))) × Numbered (suc n) lines

Numbered-append :
    (n : ℕ) (lines : Lines) (line : Fields)
    → Numbered n lines
    → get "seq" line ≡ some (int (pos (length lines + n)))
    → Numbered n (lines ++ line ∷ [])
unfolding Numbered
Numbered-append n [] line h e =
    let q : 0 + n ≡ n = omega arith in (e ∙ ap (λ k. some (int (pos k))) q, tt)
Numbered-append n (l ∷ lines) line h e =
    let q : suc (length lines) + n ≡ length lines + suc n = omega arith in
    (h.0, Numbered-append (suc n) lines line h.1 (e ∙ ap (λ k. some (int (pos k))) q))

-- An append to a log whose lines are numbered from 1 leaves a log whose lines are numbered from 1,
-- whatever fields the caller passes, seq included.
pub append-Numbered :
    (p : Platform) (run_id : String) (now : ℕ) (event actor : String)
    (correlation_id : Option String) (fields : Fields) (lines : Lines)
    → Numbered 1 lines
    → Numbered 1 (append p run_id now event actor correlation_id fields lines)
unfolding append
append-Numbered p run_id now event actor correlation_id fields lines h =
    Numbered-append 1 lines _ h (simp get-set)

-- The log `base`, with whatever has been appended since.
unfoldable pub Continues : Lines → Lines → Type 0
Continues base lines = (more : Lines) × (lines ≡ base ++ more)

pub same-Continues : (base lines : Lines) → lines ≡ base → Continues base lines
unfolding Continues
same-Continues base lines e = ([], e ∙ sym (append-nil base))

pub append-Continues :
    (p : Platform) (run_id : String) (now : ℕ) (event actor : String)
    (correlation_id : Option String) (fields : Fields) (base lines : Lines)
    → Continues base lines
    → Continues base (append p run_id now event actor correlation_id fields lines)
unfolding append Continues
append-Continues p run_id now event actor correlation_id fields base lines (more, same) = (
  more ++ audit_record p run_id now event actor correlation_id fields lines ∷ [],
  ap (λ l. l ++ audit_record p run_id now event actor correlation_id fields lines ∷ []) same
      ∙ append_assoc base more
          (audit_record p run_id now event actor correlation_id fields lines ∷ []),
)
