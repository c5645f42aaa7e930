-- ===== src/Tests/Life.antt =====
-- The guarantees of World at one life of a document.
use sayari.Prelude.{◌≤◌, ◌≡◌, refl, ◌⊎◌, some, none, Any, count_where, text_eq}
use sayari.Domain.{Document, Token}
use sayari.Domain.Labels.{TokenStatus, category_company}
use sayari.Store.Documents.{belongs_to}
use sayari.Store.Real.{to_real}
use sayari.Store.Tokens.{find_token, upsert_tokens}
use sayari.System.Counts.{classified_of}
use sayari.Coverage.{IsJobFor}
use sayari.Service.{submit}
use sayari.Pipeline.Extraction.{claim, persist, enqueue_pending}
use sayari.Pipeline.Classification.{apply}
use sayari.World.{Event, start, step, run}
use sayari.World.Safety.{IsSafe, step-IsSafe, run-start-IsSafe}
use sayari.World.Traced.{AnsweredBy, run_answers}
use sayari.World.Guarantees.{run_progress, run_completed, run_no_lost_work, run_current_tokens}
use sayari.Tests.{doc_id, conn, acme, verdict, done, early, life, waiting_db, done_db, done_found}

abbrev pub waiting_token : Token
waiting_token = record {
  id = 1;
  document_id = doc_id;
  run_version = 1;
  text = acme.text;
  context = acme.context;
  position = acme.position;
  status = TokenStatus.pending;
  classification = none;
  confidence = none;
  reasoning = none;
  created_at = 3;
  classified_at = none;
}

abbrev done_token : Token
done_token = record waiting_token {
  status = TokenStatus.classified;
  classification = some category_company;
  confidence = some 0;
  reasoning = some verdict.reasoning;
  classified_at = some 4;
}

waiting_token_found : find_token 1 waiting_db.tokens ≡ some waiting_token
unfolding run step submit claim persist apply text_eq upsert_tokens enqueue_pending find_token
    to_real
waiting_token_found = refl

done_token_found : find_token 1 done_db.tokens ≡ some done_token
unfolding run step submit claim persist apply text_eq upsert_tokens enqueue_pending find_token
    to_real
done_token_found = refl

waiting_job :
    Any (IsJobFor waiting_token) waiting_db.outbox
    ⊎ Any (IsJobFor waiting_token) (run start early).published
waiting_job = run_no_lost_work early 1 waiting_token waiting_token_found refl

run_completed_example : done_token.status ≡ TokenStatus.classified
run_completed_example =
    run_completed life doc_id done done_found 1 done_token refl done_token_found refl

run_progress_example :
    (done.id ≡ doc_id)
    × (done.total_tokens ≡ count_where (belongs_to doc_id) done_db.tokens)
    × (done.classified_count ≡ count_where (classified_of doc_id) done_db.tokens)
    × (done.classified_count ≤ done.total_tokens)
run_progress_example = run_progress life doc_id done done_found

run_current_tokens_example :
    (doc : Document) × (done_db.documents done_token.document_id ≡ some doc)
    × (done_token.run_version ≡ doc.run_version)
run_current_tokens_example = run_current_tokens life 1 done_token done_token_found

step-IsSafe_example : IsSafe (step (run start early) (Event.applies (conn 4) 1 1 verdict))
step-IsSafe_example =
    step-IsSafe (run start early) (Event.applies (conn 4) 1 1 verdict) (run-start-IsSafe early)

run_answers_example : Any (AnsweredBy done_token) life
run_answers_example = run_answers life 1 done_token done_token_found refl
