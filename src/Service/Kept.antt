-- ===== src/Service/Kept.antt =====
-- internal/service/document.go: `Submit` and the token table, where tokens only go.
use sayari.Prelude.{
  ℕ, ◌≡◌, refl, inl, inr, not, none, some, Option, All-select, Option-cases, Text, arith,
}
use sayari.Domain.{Document, Token, RerunMode}
use sayari.Domain.Labels.{DocStatus}
use sayari.Store.{Db}
use sayari.Store.Documents.{belongs_to}
use sayari.Store.Robust.{Outcome-keeps}
use sayari.System.Counts.{AllTokens}
use sayari.Service.{submit}
use sayari.Service.Atomicity.{submit-atomic}
use sayari.Service.Decisions.{
  submit_new_runs, submit_full_runs, submit_completed_runs, submit_failed_runs, submit_active_runs,
}

module _ (P : Token → Type 0) where
  module _ (now : ℕ) (id text : Text) (d : Db) (h : AllTokens P d) where
    submit_known-AllTokens :
        (mode : RerunMode) (doc : Document) (s : DocStatus)
        → d.documents id ≡ some doc
        → doc.status ≡ s
        → AllTokens P (submit none now id text mode d).1
    submit_known-AllTokens RerunMode.full doc s found e =
        rw (submit_full_runs now id text d doc found)
          (All-select P (λ t. not (belongs_to id t)) d.tokens h)
    submit_known-AllTokens RerunMode.partial doc DocStatus.completed found e =
        rw (submit_completed_runs now id text d doc found e) h
    submit_known-AllTokens RerunMode.partial doc DocStatus.failed found e =
        rw (submit_failed_runs now id text d doc found e) h
    submit_known-AllTokens RerunMode.partial doc s found e =
        rw (submit_active_runs now id text d doc found (ground arith) (ground arith)) h

    pub submit-AllTokens :
        (link : Option ℕ) (mode : RerunMode) → AllTokens P (submit link now id text mode d).1
    submit-AllTokens link mode =
        Outcome-keeps (AllTokens P) d _ _ (submit-atomic link now id text mode d) h
          (elim (Option-cases (d.documents id)) [
            | inl missing ↦ rw (submit_new_runs now id text d mode missing) h
            | inr (doc, found) ↦ submit_known-AllTokens mode doc doc.status found refl
          ])
