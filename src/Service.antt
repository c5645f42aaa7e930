-- ===== src/Service.antt =====
-- internal/service/document.go: what a submission does. `Tx` errors end a transaction, but for the
-- missing document, which `Submit` reads as a new one.
pub mod Decisions
pub mod Growth
pub mod Kept
pub mod Consistency
pub mod Atomicity
use sayari.Prelude.{ℕ, Bool, true, false, Option, Text, if◌then◌else◌}
use sayari.Domain.{Document, RerunMode}
use sayari.Domain.Labels.{DocStatus}
use sayari.Store.{Db}
use sayari.Store.Tx.{Error, Result, ok, err, not_found, Session, Tx, pure, ◌>>=◌, ◌>>◌, within_tx}
use sayari.Store.Documents.{
  get_document_for_update, insert_document, reset_document, set_document_pending,
}
use sayari.Pipeline.Jobs.{enqueue_extract}

pub record SubmitResult : Type 0 where
  pub document : Document
  pub accepted : Bool
  pub full_rerun : Bool

module _ {A B : Type 0} where
  abbrev pub resume : Result (A × Session) → Session → Tx B → (A → Tx B) → Result (B × Session)
  resume (ok (a, s')) s missing found = found a s'
  resume (err not_found) s missing found = missing s
  resume (err e) s missing found = err e

  -- `switch { case errors.Is(err, ErrNotFound): … case err != nil: return err; … }`.
  abbrev pub switch_found : Tx A → Tx B → (A → Tx B) → Tx B
  switch_found m missing found s = resume (m s) s missing found

abbrev pub outcome : Document → Bool → Bool → SubmitResult
outcome doc accepted full_rerun = record {
  document = doc;
  accepted = accepted;
  full_rerun = full_rerun;
}

submit_new : Text → Text → Tx SubmitResult
unfolding insert_document
submit_new id text = do doc ← insert_document id text; pure (outcome doc true false)

-- A partial submission of a known document, by its status.
submit_partial : DocStatus → Text → Document → Tx SubmitResult
unfolding set_document_pending
submit_partial DocStatus.completed id existing = pure (outcome existing false false)
submit_partial DocStatus.failed id existing =
    set_document_pending id
    >> pure (outcome (record existing { status = DocStatus.pending }) true false)
submit_partial DocStatus.pending id existing = pure (outcome existing true false)
submit_partial DocStatus.extracting id existing = pure (outcome existing true false)
submit_partial DocStatus.classifying id existing = pure (outcome existing true false)

submit_existing : RerunMode → Text → Text → Document → Tx SubmitResult
unfolding submit_partial reset_document
submit_existing RerunMode.full id text existing = do
  doc ← reset_document id text
  pure (outcome doc true true)
submit_existing RerunMode.partial id text existing = submit_partial existing.status id existing

-- The first job goes into the outbox of the same transaction.
enqueue_if_accepted : SubmitResult → Tx SubmitResult
unfolding enqueue_extract
enqueue_if_accepted res =
    if res.accepted
    then (enqueue_extract
          (record { document_id = res.document.id; run_version = res.document.run_version })
        >> pure res)
    else pure res

unfoldable pub submit_tx : Text → Text → RerunMode → Tx SubmitResult
unfolding submit_new submit_existing enqueue_if_accepted get_document_for_update
submit_tx id text mode = do
  res ←
      switch_found (get_document_for_update id) (submit_new id text) (submit_existing mode id text)
  enqueue_if_accepted res

-- `DocumentService.Submit`.
unfoldable pub submit : Option ℕ → ℕ → Text → Text → RerunMode → Db → Result SubmitResult × Db
unfolding submit_tx within_tx
submit link now id text mode = within_tx link now (submit_tx id text mode)
