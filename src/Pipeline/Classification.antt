-- ===== src/Pipeline/Classification.antt =====
-- internal/pipeline/classifier.go: the classification stage.
pub mod Runs
pub mod Changes
pub mod Consistency
pub mod Delivery
pub mod Atomicity
use sayari.Prelude.{ℕ, ◌==◌, Bool, leb, Option, none, some, List, [], ◌∷◌, Text, if◌then◌else◌}
use sayari.Domain.{Document, Token, Classification}
use sayari.Domain.Labels.{TokenStatus}
use sayari.Queue.{Message}
use sayari.Store.{Db}
use sayari.Store.Tx.{Error, Result, ok, err, stale_write, Tx, pure, raise, ◌>>=◌, ◌>>◌, within_tx}
use sayari.Store.Documents.{
  get_document_for_update, increment_classified_count, mark_document_completed,
}
use sayari.Store.Tokens.{get_token, get_token_for_update, set_token_classified}
use sayari.Pipeline.Jobs.{ClassifyJob, decode_classify}
use sayari.Pipeline.Extraction.{Conn, delivery}

-- `llm.Classifier`.
abbrev pub Classifier : Type 0
Classifier = Token → Result Classification

-- The counter has moved: is the document complete?
complete_if_last : ℕ → Document → Text → Tx (Unit {0})
unfolding mark_document_completed
complete_if_last new_count doc id =
    if leb doc.total_tokens new_count then mark_document_completed id else pure tt

-- What `apply` does for a token that is not classified yet.
apply_pending : TokenStatus → Token → ℕ → ℕ → Classification → Tx (Unit {0})
unfolding complete_if_last get_document_for_update set_token_classified increment_classified_count
apply_pending TokenStatus.classified tok token_id run_version result = pure tt
apply_pending TokenStatus.pending tok token_id run_version result = do
  doc ← get_document_for_update tok.document_id
  if doc.run_version == run_version
      then (do
        set_token_classified token_id result
        new_count ← increment_classified_count tok.document_id
        complete_if_last new_count doc tok.document_id)
      else raise stale_write

unfoldable pub apply_tx : ℕ → ℕ → Classification → Tx (Unit {0})
unfolding apply_pending get_token_for_update
apply_tx token_id run_version result = do
  tok ← get_token_for_update token_id
  if tok.run_version == run_version
      then apply_pending tok.status tok token_id run_version result
      else raise stale_write

-- `ClassificationWorker.apply`.
unfoldable pub apply : Option ℕ → ℕ → ℕ → ℕ → Classification → Db → Result (Unit {0}) × Db
unfolding apply_tx within_tx
apply link now token_id run_version result =
    within_tx link now (apply_tx token_id run_version result)

module _ (classifier : Classifier) (others : Db → Db) (c : Conn) (job : ClassifyJob) where
  unfoldable pub apply_result : Result Classification → Db → Result (Unit {0}) × Db
  apply_result (err e) d = (err e, d)
  apply_result (ok result) d = apply c.link c.now job.token_id job.run_version result (others d)

  unfoldable pub classify_token : TokenStatus → Token → Db → Result (Unit {0}) × Db
  unfolding apply_result
  classify_token TokenStatus.classified tok d = (ok tt, d)
  classify_token TokenStatus.pending tok d = apply_result (classifier tok) d

  process_read : Result Token × Db → Result (Unit {0}) × Db
  unfolding classify_token
  process_read (err e, d) = (err e, d)
  process_read (ok tok, d) = classify_token tok.status tok d

-- `ClassificationWorker.Process`: `others` is what the other workers do to the tables while the
-- classifier runs.
unfoldable pub process :
    Classifier → (Db → Db) → Conn → Conn → ClassifyJob → Db → Result (Unit {0}) × Db
unfolding process_read
process classifier others c1 c2 job d =
    process_read classifier others c2 job (get_token c1.link c1.now job.token_id d)

unfoldable pub handle_job :
    Classifier → (Db → Db) → Conn → Conn → Option ClassifyJob → Db → Option Error × Db
handle_job classifier others c1 c2 none d = (none, d)
handle_job classifier others c1 c2 (some job) d =
    let (r, d') = process classifier others c1 c2 job d in (delivery r, d')

-- `ClassificationWorker.handle`: the same two errors are acknowledged as in the extraction.
unfoldable pub handle : Classifier → (Db → Db) → Conn → Conn → Message → Db → Option Error × Db
unfolding handle_job process
handle classifier others c1 c2 msg =
    handle_job classifier others c1 c2 (decode_classify msg.payload)
