-- ===== src/Coverage/Submission.antt =====
-- internal/service/document.go: `Submit` and the jobs of the tokens.
use sayari.Prelude.{ℕ, Option, List, Text}
use sayari.Domain.{RerunMode}
use sayari.Store.{Db, OutboxRow}
use sayari.Service.{submit}
use sayari.Service.Growth.{submit-Grows}
use sayari.Service.Kept.{submit-AllTokens}
use sayari.Coverage.{HasJob, Covered, Covered-grow}

-- Rows are added and tokens taken away.
pub submit-Covered :
    (now : ℕ) (id text : Text) (d : Db) (log : List OutboxRow)
    → Covered d.outbox log d.tokens
    → (link : Option ℕ) (mode : RerunMode)
    → Covered
        (submit link now id text mode d).1.outbox
        log
        (submit link now id text mode d).1.tokens
submit-Covered now id text d log c link mode =
    submit-AllTokens (HasJob (submit link now id text mode d).1.outbox log) now id text d
      (Covered-grow d _ log d.tokens (submit-Grows now id text d link mode) c) link mode
