-- ===== src/Tests/Lifecycles.antt =====
-- The lifecycle of one document, and its completion by late and failing deliveries.
use sayari.Prelude.{◌≡◌, refl, inl, inr, some, List, [], ◌∷◌, text_eq, arith}
use sayari.Domain.Labels.{DocStatus}
use sayari.Store.Tokens.{upsert_tokens}
use sayari.Service.{submit}
use sayari.Pipeline.Extraction.{claim, persist, enqueue_pending}
use sayari.Pipeline.Classification.{apply}
use sayari.World.{start, step, run}
use sayari.World.Completion.{Delivery, all_applied, IsCompleted}
use sayari.World.Completion.Reached.{run_reaches-IsCompleted}
use sayari.World.Lifecycle.{Lives, manifest}
use sayari.World.Lifecycle.Refined.{run_refines, IsLater, run-IsLater}
use sayari.Tests.{doc_id, conn, broken, verdict, early, life, waiting, waiting_db, waiting_found}

-- One delivery over a broken connection, one for no token, one that counts, and its repetition.
abbrev deliveries : List Delivery
deliveries =
    record { conn = broken 4; token_id = 1; run_version = 1; result = verdict }
    ∷ record { conn = conn 5; token_id = 9; run_version = 1; result = verdict }
    ∷ record { conn = conn 6; token_id = 1; run_version = 1; result = verdict }
    ∷ record { conn = conn 7; token_id = 1; run_version = 1; result = verdict }
    ∷ []

run_reaches-IsCompleted_example :
    IsCompleted doc_id (run (run start early) (all_applied deliveries))
unfolding run step submit claim persist apply text_eq upsert_tokens enqueue_pending
run_reaches-IsCompleted_example =
    run_reaches-IsCompleted early deliveries doc_id waiting waiting_found (omega arith)
      ((λ _ _. inr (inr (inl (refl, (refl, refl))))), tt)

late :
    manifest doc_id (run start life).db
    ≡ some (record { status = DocStatus.completed; run = 1; total = 1; classified = 1 })
unfolding run step submit claim persist apply text_eq upsert_tokens enqueue_pending
late = refl

run_refines_example :
    Lives doc_id life (manifest doc_id waiting_db) (manifest doc_id (run (run start early) life).db)
run_refines_example = run_refines early life doc_id

run-IsLater_example :
    IsLater (manifest doc_id waiting_db) (manifest doc_id (run (run start early) life).db)
run-IsLater_example = run-IsLater early life doc_id
