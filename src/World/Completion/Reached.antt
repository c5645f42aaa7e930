-- ===== src/World/Completion/Reached.antt =====
-- internal/pipeline/classifier.go: once its tokens are delivered, a document is COMPLETED.
use sayari.Prelude.{
  ℕ, ◌<◌, ◌≡◌, refl, subst, inl, inr, none, some, List, [], ◌∷◌, Text, All, All-map2, arith,
}
use sayari.Domain.{Document, Token, Classification}
use sayari.Domain.Labels.{TokenStatus}
use sayari.Store.{Db}
use sayari.Store.Tx.{Result}
use sayari.System.Counts.{OwnedBy}
use sayari.Pipeline.Extraction.{delivery}
use sayari.Pipeline.Classification.{apply}
use sayari.Pipeline.Classification.Runs.{Applied, apply-Applied}
use sayari.Pipeline.Classification.Delivery.{Settled, apply-Settled}
use sayari.Pipeline.Jobs.{ClassifyJob}
use sayari.World.Completion.Progress.{
  Progresses, progresses, none_needed, apply-Progresses, apply-before,
}
use sayari.World.Completion.{Delivery, applied, all_applied, DeliversTo, IsServed, IsCompleted}
use sayari.World.{World, Event, start, step, run}
use sayari.World.Safety.{IsSafe, step-IsSafe, run-start-IsSafe}
use sayari.World.Guarantees.{find-All}
use sayari.World.Stream.Settled.{Finds, All-Finds, job_of, Settled-classified}

-- Over a connection that holds, every outcome of `apply` is acknowledged.
Applied-acked :
    (now k run : ℕ) (c : Classification) (d : Db) (r : Result (Unit {0}) × Db)
    → Applied now k run c d r
    → delivery r.0 ≡ none
Applied-acked now k run c d r (Applied.missing m e) = rw e refl
Applied-acked now k run c d r (Applied.stale t f ne e) = rw e refl
Applied-acked now k run c d r (Applied.already t f s st e) = rw e refl
Applied-acked now k run c d r (Applied.orphaned t f o e) = rw e refl
Applied-acked now k run c d r (Applied.superseded t doc f o ne e) = rw e refl
Applied-acked now k run c d r (Applied.counts t doc f s st o cur m e) = rw e refl
Applied-acked now k run c d r (Applied.completes t doc f s st o cur l e) = rw e refl

module _ (w : World) (x : Delivery) where
  abbrev after : World
  after = step w (applied x)

  -- A delivery for a token leaves it classified.
  delivered-classified :
      (t : Token)
      → Finds after.db.tokens t
      → OwnedBy after.db.documents t
      → DeliversTo t x
      → t.status ≡ TokenStatus.classified
  unfolding step
  delivered-classified t found owned (link, (token, version)) =
      Settled-classified after.db t found owned (
        subst (λ job. Settled job after.db) same
          (apply-Settled job x.conn.now x.result w.db x.conn.link acked))
    where
      job : ClassifyJob
      job = record {
        token_id = x.token_id;
        document_id = t.document_id;
        run_version = x.run_version;
      }

      same : job ≡ job_of t
      same = rw (token, version) refl

      acked :
          delivery (apply x.conn.link x.conn.now x.token_id x.run_version x.result w.db).0 ≡ none
      acked = rw link (
          Applied-acked _ _ _ _ _ _
            (apply-Applied x.conn.now x.token_id x.run_version x.result w.db))

  module _ (id : Text) (xs : List Delivery) (served : All (IsServed id (x ∷ xs)) w.db.tokens) where
    -- A token that is pending after the delivery is served by a later one.
    IsServed-after :
        (t : Token) → Finds after.db.tokens t → OwnedBy after.db.documents t → IsServed id xs t
    unfolding step
    IsServed-after t found owned own is_pending =
        let before =
          apply-before x.conn.now x.token_id x.run_version x.result w.db x.conn.link t.id t
            is_pending found in
        elim (find-All (IsServed id (x ∷ xs)) t.id t w.db.tokens served before own is_pending) [
          | inl here ↦ absurd (ground (arith, delivered-classified t found owned here, is_pending))
          | inr later ↦ later
        ]

    All-IsServed : IsSafe after → All (IsServed id xs) after.db.tokens
    All-IsServed s =
        All-map2 (Finds after.db.tokens) (OwnedBy after.db.documents) (IsServed id xs)
          after.db.tokens IsServed-after
          (All-Finds 0 after.db.next_token after.db.tokens s.consistent.ids) s.consistent.fenced

arrive :
    (id : Text) (w : World)
    → IsSafe w
    → All (IsServed id []) w.db.tokens
    → Progresses (w.db.documents id)
    → IsCompleted id w
arrive id w s served (progresses doc found (inr completed)) =
    (doc, (found, (completed, (s.consistent.documents id doc found).complete completed)))
arrive id w s served (progresses doc found (inl more)) =
    let h = s.consistent.documents id doc found in
    absurd (omega (arith, more, h.total, h.counted, none_needed id w.db.tokens served))

run-IsCompleted :
    (id : Text) (xs : List Delivery) (w : World)
    → IsSafe w
    → All (IsServed id xs) w.db.tokens
    → Progresses (w.db.documents id)
    → IsCompleted id (run w (all_applied xs))
unfolding run step
run-IsCompleted id [] w s served h = arrive id w s served h
run-IsCompleted id (x ∷ xs) w s served h =
    let s' = step-IsSafe w (applied x) s in
    run-IsCompleted id xs (step w (applied x)) s' (All-IsServed w x id xs served s')
      (apply-Progresses x.conn.now x.token_id x.run_version x.result w.db x.conn.link id h)

-- Whatever happened before, let a document have fewer classified tokens than tokens. After any
-- deliveries of classify jobs, in any order, for any documents and runs, late, repeated or over
-- connections that fail, it is COMPLETED and all its tokens are counted, provided that each of its
-- tokens that was not classified was delivered once over a connection that held.
pub run_reaches-IsCompleted :
    (es : List Event) (xs : List Delivery) (id : Text) (doc : Document)
    → (run start es).db.documents id ≡ some doc
    → doc.classified_count < doc.total_tokens
    → All (IsServed id xs) (run start es).db.tokens
    → IsCompleted id (run (run start es) (all_applied xs))
run_reaches-IsCompleted es xs id doc found more served =
    run-IsCompleted id xs (run start es) (run-start-IsSafe es) served
      (progresses doc found (inl more))
