-- ===== src/World/Completion.antt =====
-- The deliveries of classify jobs (internal/pipeline/classifier.go) that a document waits for: in any
-- order, repeated, late or failing.
pub mod Progress
pub mod Reached
use mathlib.Core.Option
use sayari.Prelude.{
  ℕ, ◌≤◌, ◌<◌, ◌≡◌, refl, sym, ap, subst, ◌⊎◌, inl, inr, Bool-cases, Option, none, some, List, [],
  ◌∷◌, Text, text_eq, text_eq→eq, All, All-map2, Any, count_where, arith,
}
use sayari.Domain.{Document, Token, Classification}
use sayari.Domain.Labels.{DocStatus, TokenStatus}
use sayari.Store.{Db}
use sayari.Store.Documents.{belongs_to}
use sayari.Store.Tx.{Result}
use sayari.Store.Tokens.{find_token, update_token}
use sayari.System.Counts.{OwnedBy, classified_of, classified_tokens}
use sayari.System.Invariant.{updated}
use sayari.Pipeline.Classification.Consistency.{updated_twice}
use sayari.Store.Robust.{Outcome-keeps}
use sayari.Pipeline.Extraction.{Conn, delivery}
use sayari.Pipeline.Classification.{apply}
use sayari.Pipeline.Classification.Atomicity.{apply-atomic}
use sayari.Pipeline.Classification.Runs.{Applied, apply-Applied, counted_row, completed_row}
use sayari.Pipeline.Classification.Delivery.{Settled, apply-Settled}
use sayari.Pipeline.Jobs.{ClassifyJob}
use sayari.World.{World, Event, applies, start, step, run}
use sayari.World.Safety.{IsSafe, step-IsSafe, run-start-IsSafe}
use sayari.World.Guarantees.{find-All}
use sayari.World.Stream.Settled.{Finds, All-Finds, job_of, Settled-classified}

-- A worker applies a result to the token of a job.
pub record Delivery : Type 0 where
  pub conn : Conn
  pub token_id : ℕ
  pub run_version : ℕ
  pub result : Classification

abbrev pub applied : Delivery → Event
applied x = applies x.conn x.token_id x.run_version x.result

abbrev pub all_applied : List Delivery → List Event
all_applied [] = []
all_applied (x ∷ xs) = applied x ∷ all_applied xs

-- The delivery is for the token in its run, and its connection holds.
abbrev pub DeliversTo : Token → Delivery → Type 0
DeliversTo t x = (x.conn.link ≡ none) × ((x.token_id ≡ t.id) × (x.run_version ≡ t.run_version))

-- If the token is one of the document and not classified, its job is among the deliveries.
abbrev pub IsServed : Text → List Delivery → Token → Type 0
IsServed id xs t = t.document_id ≡ id → t.status ≡ TokenStatus.pending → Any (DeliversTo t) xs

-- The document is COMPLETED, and every one of its tokens is counted.
abbrev pub IsCompleted : Text → World → Type 0
IsCompleted id w =
    (doc : Document) × ((w.db.documents id ≡ some doc)
      × ((doc.status ≡ DocStatus.completed) × (doc.classified_count ≡ doc.total_tokens)))
