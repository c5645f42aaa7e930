-- ===== src/Pipeline/Extraction/Jobs.antt =====
-- internal/pipeline/extractor.go: the loop of `persist` that enqueues the classify jobs.
use sayari.Prelude.{ℕ, ◌+◌, ◌≡◌, refl, ◌∙◌, none, List, [], ◌∷◌, ◌++◌}
use sayari.Domain.{Document, Token}
use sayari.Domain.Labels.{TokenStatus}
use sayari.Queue.{stream_classify}
use sayari.Store.{Db, OutboxRow}
use sayari.Store.Tx.{ok, session}
use sayari.Pipeline.Jobs.{ClassifyJob, encode_classify, format_int}
use sayari.Pipeline.Extraction.{enqueue_unless_classified, enqueue_pending}

abbrev pub job_of : Document → Token → ClassifyJob
job_of doc t = record { token_id = t.id; document_id = doc.id; run_version = doc.run_version }

abbrev pub classify_row : ℕ → ClassifyJob → OutboxRow
classify_row id job = record {
  id = id;
  stream = stream_classify;
  key = format_int job.token_id;
  payload = encode_classify job;
}

unfoldable pub with_job : TokenStatus → Document → Token → Db → Db
with_job TokenStatus.classified doc t d = d
with_job TokenStatus.pending doc t d = record d {
  outbox = d.outbox ++ classify_row d.next_outbox (job_of doc t) ∷ [];
  next_outbox = d.next_outbox + 1;
}

-- The tables with a job for each token that is not classified.
unfoldable pub with_jobs : Document → List Token → Db → Db
unfolding with_job
with_jobs doc [] d = d
with_jobs doc (t ∷ ts) d = with_jobs doc ts (with_job t.status doc t d)

enqueue_one_runs :
    (now : ℕ) (s : TokenStatus) (doc : Document) (t : Token) (d : Db)
    → enqueue_unless_classified s doc t (session none now d)
      ≡ ok (tt, session none now (with_job s doc t d))
unfolding enqueue_unless_classified with_job
enqueue_one_runs now TokenStatus.classified doc t d = refl
enqueue_one_runs now TokenStatus.pending doc t d = refl

pub enqueue_pending_runs :
    (now : ℕ) (doc : Document) (ts : List Token) (d : Db)
    → enqueue_pending doc ts (session none now d) ≡ ok (tt, session none now (with_jobs doc ts d))
unfolding enqueue_pending with_jobs
enqueue_pending_runs now doc [] d = refl
enqueue_pending_runs now doc (t ∷ ts) d =
    rw (enqueue_one_runs now t.status doc t d)
      (enqueue_pending_runs now doc ts (with_job t.status doc t d))

with_job_keeps :
    (s : TokenStatus) (doc : Document) (t : Token) (d : Db)
    → ((with_job s doc t d).documents ≡ d.documents)
      × ((with_job s doc t d).tokens ≡ d.tokens)
      × ((with_job s doc t d).next_token ≡ d.next_token)
unfolding with_job
with_job_keeps TokenStatus.classified doc t d = (refl, refl, refl)
with_job_keeps TokenStatus.pending doc t d = (refl, refl, refl)

-- Enqueueing changes nothing but the outbox.
pub with_jobs_keeps :
    (doc : Document) (ts : List Token) (d : Db)
    → ((with_jobs doc ts d).documents ≡ d.documents)
      × ((with_jobs doc ts d).tokens ≡ d.tokens)
      × ((with_jobs doc ts d).next_token ≡ d.next_token)
unfolding with_jobs
with_jobs_keeps doc [] d = (refl, refl, refl)
with_jobs_keeps doc (t ∷ ts) d =
    let rest = with_jobs_keeps doc ts (with_job t.status doc t d) in
    let first = with_job_keeps t.status doc t d in
    (rest.0 ∙ first.0, rest.1 ∙ first.1, rest.2 ∙ first.2)
