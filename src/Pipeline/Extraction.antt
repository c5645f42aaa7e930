-- ===== src/Pipeline/Extraction.antt =====
-- internal/pipeline/extractor.go: the extraction stage.
pub mod Upsert
pub mod Jobs
pub mod Runs
pub mod Consistency
pub mod Growth
pub mod Kept
pub mod Regression
pub mod Written
pub mod Delivery
pub mod Atomicity
use sayari.Prelude.{
  ℕ, zero, suc, ◌==◌, Bool, Option, none, some, List, [], ◌∷◌, Text, if◌then◌else◌,
}
use sayari.Domain.{Document, Entity, Token}
use sayari.Domain.Labels.{DocStatus, TokenStatus}
use sayari.Queue.{Message}
use sayari.Store.{Db}
use sayari.Store.Tx.{
  Error, Result, ok, err, not_found, stale_write, Tx, pure, raise, ◌>>=◌, ◌>>◌, within_tx,
}
use sayari.Store.Documents.{
  get_document_for_update, set_extraction_started, advance_to_classifying,
  mark_extraction_completed_empty,
}
use sayari.Store.Tokens.{upsert_tokens, count_tokens, list_tokens_for_run}
use sayari.Pipeline.Jobs.{ExtractJob, decode_extract, enqueue_classify}

-- `nlp.Extractor`.
abbrev pub Extractor : Type 0
Extractor = Document → Result (List Entity)

claim_row : DocStatus → Document → Text → Tx Document
unfolding set_extraction_started
claim_row DocStatus.pending doc id =
    set_extraction_started id >> pure (record doc { status = DocStatus.extracting })
claim_row DocStatus.extracting doc id = pure doc
claim_row DocStatus.classifying doc id = pure doc
claim_row DocStatus.completed doc id = pure doc
claim_row DocStatus.failed doc id = pure doc

unfoldable pub claim_tx : Text → Tx Document
unfolding claim_row get_document_for_update
claim_tx id = do doc ← get_document_for_update id; claim_row doc.status doc id

-- `ExtractionWorker.claim`.
unfoldable pub claim : Option ℕ → ℕ → Text → Db → Result Document × Db
unfolding claim_tx within_tx
claim link now id = within_tx link now (claim_tx id)

enqueue_unless_classified : TokenStatus → Document → Token → Tx (Unit {0})
unfolding enqueue_classify
enqueue_unless_classified TokenStatus.classified doc t = pure tt
enqueue_unless_classified TokenStatus.pending doc t =
    enqueue_classify
      (record { token_id = t.id; document_id = doc.id; run_version = doc.run_version })

-- The loop over the tokens of the run.
unfoldable pub enqueue_pending : Document → List Token → Tx (Unit {0})
unfolding enqueue_unless_classified
enqueue_pending doc [] = pure tt
enqueue_pending doc (t ∷ ts) = enqueue_unless_classified t.status doc t >> enqueue_pending doc ts

advance_and_enqueue : Document → ℕ → Tx ℕ
unfolding mark_extraction_completed_empty advance_to_classifying list_tokens_for_run
advance_and_enqueue doc zero = mark_extraction_completed_empty doc.id >> pure 0
advance_and_enqueue doc (suc n) = do
  advance_to_classifying doc.id (suc n)
  tokens ← list_tokens_for_run doc.id doc.run_version
  enqueue_pending doc tokens
  pure (suc n)

unfoldable pub persist_tx : Document → List Entity → Tx ℕ
unfolding advance_and_enqueue get_document_for_update count_tokens
persist_tx doc entities = do
  cur ← get_document_for_update doc.id
  if cur.run_version == doc.run_version
      then (do
        upsert_tokens doc.id doc.run_version entities
        total ← count_tokens doc.id doc.run_version
        advance_and_enqueue doc total)
      else raise stale_write

-- `ExtractionWorker.persist`.
unfoldable pub persist : Option ℕ → ℕ → Document → List Entity → Db → Result ℕ × Db
unfolding persist_tx within_tx
persist link now doc entities = within_tx link now (persist_tx doc entities)

-- The connection and the time of a transaction.
pub record Conn : Type 0 where
  pub link : Option ℕ
  pub now : ℕ

abbrev pub discard : {A : Type 0} → Result A × Db → Result (Unit {0}) × Db
discard (ok a, d) = (ok tt, d)
discard (err e, d) = (err e, d)

module _ (extractor : Extractor) (others : Db → Db) (c : Conn) where
  persist_extracted : Document → Result (List Entity) → Db → Result (Unit {0}) × Db
  persist_extracted doc (err e) d = (err e, d)
  persist_extracted doc (ok entities) d = discard (persist c.link c.now doc entities (others d))

  -- The switch on the status of the claimed document.
  extract_claimed : DocStatus → Document → Db → Result (Unit {0}) × Db
  unfolding persist_extracted
  extract_claimed DocStatus.completed doc d = (ok tt, d)
  extract_claimed DocStatus.classifying doc d = (ok tt, d)
  extract_claimed DocStatus.pending doc d = persist_extracted doc (extractor doc) d
  extract_claimed DocStatus.extracting doc d = persist_extracted doc (extractor doc) d
  extract_claimed DocStatus.failed doc d = persist_extracted doc (extractor doc) d

  process_claimed : Result Document × Db → Result (Unit {0}) × Db
  unfolding extract_claimed
  process_claimed (err e, d) = (err e, d)
  process_claimed (ok doc, d) = extract_claimed doc.status doc d

-- `ExtractionWorker.Process`: the claim and the persist are two transactions, and `others` is what
-- the other workers do to the tables between them.
unfoldable pub process :
    Extractor → (Db → Db) → Conn → Conn → ExtractJob → Db → Result (Unit {0}) × Db
unfolding process_claimed
process extractor others c1 c2 job d =
    process_claimed extractor others c2 (claim c1.link c1.now job.document_id d)

-- The switch of `handle`: a missing document and a superseded run are acknowledged.
abbrev pub delivery : Result (Unit {0}) → Option Error
delivery (ok _) = none
delivery (err not_found) = none
delivery (err stale_write) = none
delivery (err e) = some e

handle_job : Extractor → (Db → Db) → Conn → Conn → Option ExtractJob → Db → Option Error × Db
handle_job extractor others c1 c2 none d = (none, d)
handle_job extractor others c1 c2 (some job) d =
    let (r, d') = process extractor others c1 c2 job d in (delivery r, d')

-- `ExtractionWorker.handle`.
unfoldable pub handle : Extractor → (Db → Db) → Conn → Conn → Message → Db → Option Error × Db
unfolding handle_job process
handle extractor others c1 c2 msg = handle_job extractor others c1 c2 (decode_extract msg.payload)
