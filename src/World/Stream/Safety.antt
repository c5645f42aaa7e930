-- ===== src/World/Stream/Safety.antt =====
-- What holds of the tables and the stream after any events, acknowledgements among them.
use sayari.Prelude.{
  ℕ, ◌≡◌, refl, sym, ◌∙◌, ap, ◌⊎◌, inl, inr, Bool, true, false, Option, none, some, List, [], ◌∷◌,
  Text, text_eq, text_eq→eq, Any, Bool-cases, get_elem?, arith,
}
use sayari.Domain.{Token, Classification}
use sayari.Domain.Labels.{TokenStatus}
use sayari.Queue.{stream_extract, stream_classify}
use sayari.Store.{Db, OutboxRow}
use sayari.Store.Tx.{Error, ok}
use sayari.Store.Tokens.{find_token, get_token}
use sayari.System.Growth.{Grows-rows}
use sayari.Coverage.{IsJobFor}
use sayari.Coverage.Classification.{apply-Grows, apply-Covered}
use sayari.Pipeline.Jobs.{ClassifyJob, decode_classify, decode_classify-encode_classify}
use sayari.Pipeline.Extraction.{Conn}
use sayari.Pipeline.Classification.{apply}
use sayari.Pipeline.Classification.Consistency.{apply-IsConsistent}
use sayari.Pipeline.Classification.Delivery.{
  Settled, gone, classified, get_token-cases, apply-Settled,
}
use sayari.World.{World, start}
use sayari.World.Safety.{IsSafe, step-IsSafe, start-IsSafe}
use sayari.World.Guarantees.{find-All}
use sayari.System.Counts.{OwnedBy}
use sayari.Coverage.{HasJob}
use sayari.World.Stream.{
  StreamEvent, happens, reads, settles, extracted, acks, read_delivery, acknowledge_if, read_job,
  settle_job, with_message, stream_step, stream_run,
}
use sayari.World.Stream.Settled.{Finds, job_of, Covered-erase, Settled-useless}

-- The message is the job of no token that is pending.
Useless : Db → OutboxRow → Type 0
Useless d r =
    (t : Token)
    → Finds d.tokens t
    → OwnedBy d.documents t
    → IsJobFor t r
    → t.status ≡ TokenStatus.classified

undecoded-Useless : (d : Db) (r : OutboxRow) → decode_classify r.payload ≡ none → Useless d r
unfolding Useless
undecoded-Useless d r e t found own (stream, payload) = absurd (ground (arith, undecoded))
  where
    undecoded : none ≡ some (job_of t)
    undecoded = sym e ∙ (ap decode_classify payload ∙ decode_classify-encode_classify (job_of t))

module _ (n : ℕ) (r : OutboxRow) (w : World) (at : get_elem? w.published n ≡ some r) where
  acknowledge-IsSafe :
      (b : Bool) → IsSafe w → (b ≡ true → Useless w.db r) → IsSafe (acknowledge_if b n w)
  unfolding Useless
  acknowledge-IsSafe false s useless = s
  acknowledge-IsSafe true s useless = record {
    consistent = s.consistent;
    rows = s.rows;
    covered = Covered-erase w.db w.published n r at (useless refl) s.consistent s.covered;
  }

-- Where the read ends the handling, the job is settled.
read-Settled :
    (c : Conn) (job : ClassifyJob) (d : Db)
    → read_delivery (get_token c.link c.now job.token_id d).0 ≡ true
    → Settled job d
read-Settled c job d h = elim (get_token-cases c.link c.now job.token_id d) [
  | inl cut ↦ absurd (ground (arith, rw cut at h))
  | inr (inl (missing, e)) ↦ gone missing
  | inr (inr (t, found, e)) ↦ by_status t t.status found refl (rw e at h)
]
  where
    by_status :
        (t : Token) (s : TokenStatus)
        → find_token job.token_id d.tokens ≡ some t
        → t.status ≡ s
        → read_delivery (ok t) ≡ true
        → Settled job d
    by_status t TokenStatus.classified found status h = classified t found status
    by_status t TokenStatus.pending found status h = absurd (ground (arith, status, h))

acks-none : (o : Option Error) → acks o ≡ true → o ≡ none
acks-none none h = refl
acks-none (some e) h = cc

module _ (w : World) (s : IsSafe w) (c : Conn) (n : ℕ) (r : OutboxRow)
    (at : get_elem? w.published n ≡ some r) where
  read_job-IsSafe :
      (o : Option ClassifyJob) → decode_classify r.payload ≡ o → IsSafe (read_job c n o w)
  unfolding read_job Useless
  read_job-IsSafe none e = acknowledge-IsSafe n r w at true s (λ _. undecoded-Useless w.db r e)
  read_job-IsSafe (some job) e =
      acknowledge-IsSafe n r w at _ s
        (λ h. Settled-useless w.db r job e (read-Settled c job w.db h))

  settle_job-IsSafe :
      (result : Classification) (o : Option ClassifyJob)
      → decode_classify r.payload ≡ o
      → IsSafe (settle_job c n result o w)
  unfolding settle_job Useless
  settle_job-IsSafe result none e = s
  settle_job-IsSafe result (some job) e =
      let d' = (apply c.link c.now job.token_id job.run_version result w.db).1 in
      let w' : World = record w { db = d' } in
      let s' : IsSafe w' = record {
        consistent =
            apply-IsConsistent c.now job.token_id job.run_version result w.db s.consistent c.link;
        rows =
            Grows-rows (apply-Grows c.now job.token_id job.run_version result w.db c.link) s.rows;
        covered =
            apply-Covered c.now job.token_id job.run_version result w.db w.published s.covered
              c.link;
      } in
      acknowledge-IsSafe n r w' at _ s' (λ h.
        Settled-useless d' r job e (apply-Settled job c.now result w.db c.link (acks-none _ h)))

extract-Useless : (d : Db) (r : OutboxRow) → r.stream ≡ stream_extract → Useless d r
unfolding Useless
extract-Useless d r e t found own (stream, payload) = absurd (ground (arith, e, stream))

-- A step with the message at a place.
with_message-IsSafe :
    (stream : Text) (o : Option OutboxRow) (w : World) (f : OutboxRow → World)
    → IsSafe w
    → ((r : OutboxRow) → o ≡ some r → r.stream ≡ stream → IsSafe (f r))
    → IsSafe (with_message stream o w f)
with_message-IsSafe stream none w f s h = s
with_message-IsSafe stream (some r) w f s h = elim (Bool-cases (text_eq r.stream stream)) [
  | inl same ↦ rw same (h r refl (text_eq→eq r.stream stream same))
  | inr other ↦ rw other s
]

-- One event, of any kind, keeps the tables and the stream safe: no message is acknowledged that a
-- pending token needs.
pub stream_step-IsSafe : (w : World) (e : StreamEvent) → IsSafe w → IsSafe (stream_step w e)
unfolding stream_step
stream_step-IsSafe w (happens e) s = step-IsSafe w e s
stream_step-IsSafe w (reads c n) s =
    with_message-IsSafe stream_classify _ w _ s (λ r at _. read_job-IsSafe w s c n r at _ refl)
stream_step-IsSafe w (settles c n result) s =
    with_message-IsSafe stream_classify _ w _ s
      (λ r at _. settle_job-IsSafe w s c n r at result _ refl)
stream_step-IsSafe w (extracted n) s =
    with_message-IsSafe stream_extract _ w _ s
      (λ r at e. acknowledge-IsSafe n r w at true s (λ _. extract-Useless w.db r e))

stream_run-IsSafe : (w : World) (es : List StreamEvent) → IsSafe w → IsSafe (stream_run w es)
unfolding stream_run
stream_run-IsSafe w [] s = s
stream_run-IsSafe w (e ∷ es) s = stream_run-IsSafe (stream_step w e) es (stream_step-IsSafe w e s)

-- End to end: after any events, acknowledgements among them, each token that is not classified has
-- its classify job in the outbox, or in the stream and not acknowledged: it will be delivered (again).
pub stream_no_lost_work :
    (es : List StreamEvent) (k : ℕ) (t : Token)
    → find_token k (stream_run start es).db.tokens ≡ some t
    → t.status ≡ TokenStatus.pending
    → Any (IsJobFor t) (stream_run start es).db.outbox
      ⊎ Any (IsJobFor t) (stream_run start es).published
stream_no_lost_work es k t at is_pending =
    let w = stream_run start es in
    find-All (HasJob w.db.outbox w.published) k t w.db.tokens
      (stream_run-IsSafe start es start-IsSafe).covered at is_pending
