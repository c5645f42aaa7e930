-- ===== src/Tests/Stages.antt =====
-- The theorems of the service, the workers, the relay and the queries at concrete inputs.
use sayari.Prelude.{
  ℕ, ◌≡◌, refl, inl, ◌↔◌, pos, true, false, some, none, List, [], ◌∷◌, Any, text_eq, codes, select,
  arith, if◌then◌else◌, ◌==◌, length,
}
use sayari.Domain.{RerunMode, TokenFilter}
use sayari.Domain.Labels.{
  DocStatus, category_company, doc_status_valid, doc_status_text, doc_status_valid_iff,
}
use sayari.Queue.{Message}
use sayari.Store.{Db}
use sayari.Store.Tx.{ok, upstream}
use sayari.Store.Robust.{Outcome}
use sayari.Store.Tokens.{find_token, get_token, upsert_tokens}
use sayari.Store.Query.{build_query, run_query, wanted, at_most, from}
use sayari.Store.Query.Filtered.{run_query-build_query}
use sayari.Service.{submit}
use sayari.Service.Atomicity.{submit-atomic}
use sayari.Service.Decisions.{decided, submit-decided}
use sayari.Pipeline.Jobs.{
  ClassifyJob, encode_classify, decode_classify, decode_classify-encode_classify,
}
use sayari.Pipeline.Extraction.{claim, persist, enqueue_pending}
use sayari.Pipeline.Extraction.Atomicity.{persist-atomic}
use sayari.Pipeline.Extraction.Runs.{advanced_row}
use sayari.Pipeline.Extraction.Regression.{AllStored, persist_regresses, stuck_stays}
use sayari.Pipeline.Classification.{Classifier, apply, handle}
use sayari.Pipeline.Classification.Delivery.{Settled, handle-Settled, apply_twice}
use sayari.Relay.{Meeting, drain_batch, drain_all}
use sayari.Relay.Emptied.{with_outbox, drain_all_healthy}
use sayari.Relay.Drained.{Delivered, drain_batch-Delivered}
use sayari.World.{Event, start, step, run}
use sayari.World.Safety.{run-start-IsSafe}
use sayari.Tests.{
  doc_id, body, conn, acme, verdict, submitted, done, early, life, waiting_db, done_db, done_found,
}

submit-atomic_example :
    Outcome done_db
      (submit (some 2) 5 doc_id body RerunMode.full done_db)
      (submit none 5 doc_id body RerunMode.full done_db)
submit-atomic_example = submit-atomic (some 2) 5 doc_id body RerunMode.full done_db

submit-decided_example :
    let (res, d') = decided RerunMode.full (done_db.documents doc_id) 5 doc_id body done_db in
    submit none 5 doc_id body RerunMode.full done_db ≡ (ok res, d')
submit-decided_example = submit-decided 5 doc_id body done_db RerunMode.full

persist-atomic_example :
    Outcome waiting_db
      (persist (some 4) 5 submitted (acme ∷ []) waiting_db)
      (persist none 5 submitted (acme ∷ []) waiting_db)
persist-atomic_example = persist-atomic (some 4) 5 submitted (acme ∷ []) waiting_db

-- A second extraction of the run that finds the same entity.
stored_again : AllStored doc_id 1 (acme ∷ []) done_db.tokens
unfolding run step submit claim persist apply text_eq upsert_tokens enqueue_pending
stored_again = (refl, tt)

persist_regresses_example :
    let d' = (persist none 5 submitted (acme ∷ []) done_db).1 in
    (d'.documents doc_id ≡ some (advanced_row 5 1 done))
    × (d'.tokens ≡ done_db.tokens)
    × (d'.outbox ≡ done_db.outbox)
persist_regresses_example =
    persist_regresses 5 submitted done (acme ∷ []) done_db 0 (run-start-IsSafe life).consistent
      done_found refl refl refl stored_again

abbrev relapse : List Event
relapse =
    Event.submits (conn 1) doc_id body RerunMode.partial
    ∷ Event.claims (conn 2) doc_id
    ∷ Event.persists (conn 3) submitted (acme ∷ [])
    ∷ Event.applies (conn 4) 1 1 verdict
    ∷ Event.persists (conn 5) submitted (acme ∷ [])
    ∷ []

abbrev stuck_db : Db
stuck_db = (run start relapse).db

stuck_found : stuck_db.documents doc_id ≡ some (advanced_row 5 1 done)
unfolding run step submit claim persist apply text_eq upsert_tokens enqueue_pending
stuck_found = refl

stuck_stays_example :
    ((apply none 6 1 1 verdict stuck_db).1.documents doc_id ≡ some (advanced_row 5 1 done))
    × (claim none 6 doc_id stuck_db ≡ (ok (advanced_row 5 1 done), stuck_db))
    × ((submit none 6 doc_id body RerunMode.partial stuck_db).1.documents doc_id
        ≡ some (advanced_row 5 1 done))
stuck_stays_example =
    stuck_stays doc_id (advanced_row 5 1 done) stuck_db (run-start-IsSafe relapse).consistent
      stuck_found refl refl 6 1 1 verdict body

abbrev job : ClassifyJob
job = record { token_id = 1; document_id = doc_id; run_version = 1 }

abbrev job_message : Message
job_message = record { key = codes "1"; payload = encode_classify job }

abbrev sure : Classifier
sure _ = ok verdict

acknowledged : (handle sure (λ d. d) (conn 5) (conn 6) job_message waiting_db).0 ≡ none
unfolding handle run step submit claim persist apply text_eq upsert_tokens enqueue_pending
    find_token encode_classify decode_classify get_token
acknowledged = refl

handle-Settled_example :
    Settled job (handle sure (λ d. d) (conn 5) (conn 6) job_message waiting_db).1
handle-Settled_example =
    handle-Settled sure (λ t e h. absurd (ground (arith, h))) (λ d. d) (conn 5) (conn 6) job
      job_message waiting_db (decode_classify-encode_classify job) acknowledged

applied : (apply none 5 1 1 verdict waiting_db).0 ≡ ok tt
unfolding run step submit claim persist apply text_eq upsert_tokens enqueue_pending find_token
applied = refl

apply_twice_example :
    apply none 6 1 1 verdict (apply none 5 1 1 verdict waiting_db).1
    ≡ (ok tt, (apply none 5 1 1 verdict waiting_db).1)
apply_twice_example = apply_twice 5 6 1 1 verdict verdict waiting_db applied

-- The broker takes the first row and refuses the second.
abbrev flaky : Meeting
flaky = record {
  link = none;
  now = 5;
  broker = λ r. if r.id == 1 then none else some upstream;
  locked = λ r. false;
}

first_row_found : Any (λ r. r.id ≡ 1) waiting_db.outbox
unfolding run step submit claim persist apply text_eq upsert_tokens enqueue_pending
first_row_found = inl refl

drain_batch-Delivered_example :
    Delivered
      (λ r. r.id ≡ 1)
      ((drain_batch 100 flaky waiting_db).0.1, (drain_batch 100 flaky waiting_db).1)
drain_batch-Delivered_example =
    drain_batch-Delivered (λ r. r.id ≡ 1) 100 flaky waiting_db (run-start-IsSafe early).rows
      first_row_found

abbrev second_page : TokenFilter
second_page = record {
  classification = some category_company;
  status = some (codes "CLASSIFIED");
  page = some (pos 1);
  limit = pos 10;
  offset = pos 1;
}

run_query-build_query_example :
    run_query (build_query doc_id second_page) done_db
    ≡ at_most
        (pos 10)
        (from (pos 1) (select (wanted done_db.documents doc_id second_page) done_db.tokens))
run_query-build_query_example = run_query-build_query done_db doc_id second_page

job_survives : decode_classify (encode_classify job) ≡ some job
job_survives = decode_classify-encode_classify job

failed_is_valid :
    (doc_status_valid (codes "FAILED") ≡ true)
    ↔ ((d : DocStatus) × (doc_status_text d ≡ codes "FAILED"))
failed_is_valid = doc_status_valid_iff (codes "FAILED")

abbrev calm : ℕ → Meeting
calm i = record { link = none; now = i; broker = λ r. none; locked = λ r. false }

two_rows : length waiting_db.outbox ≡ 2
unfolding run step submit claim persist apply text_eq upsert_tokens enqueue_pending
two_rows = refl

drain_all_healthy_example :
    drain_all 3 1 calm (λ _. false) 0 waiting_db ≡ (with_outbox waiting_db [], waiting_db.outbox)
drain_all_healthy_example =
    drain_all_healthy 3 1 0 waiting_db.next_outbox calm (λ _. false) waiting_db
      (λ k. (refl, λ r. refl, λ r. refl)) (λ k. refl) (omega arith) (run-start-IsSafe early).rows
      (omega (arith, two_rows))
