-- ===== src/Store/Documents.antt =====
-- internal/store/documents.go and the document operations of internal/store/store.go.
use mathlib.Core.Option
use sayari.Prelude.{ℕ, ◌+◌, Bool, not, Option, none, some, Text, text_eq, select, if◌then◌else◌}
use sayari.Domain.{Document, Token}
use sayari.Domain.Labels.{DocStatus}
use sayari.Store.{Db}
use sayari.Store.Sha256.{hash_text}
use sayari.Store.Tx.{
  Error, Result, ok, err, not_found, no_rows, duplicate_key, Tx, statement, send, exec, ◌>>◌,
  finish,
}

-- `CollectExactlyOneRow` of a query by primary key: no row is the error `e`.
abbrev pub one_row : {A : Type 0} → Option A → Error → Db → Result (A × Db)
one_row none e d = err e
one_row (some a) e d = ok (a, d)

-- A statement of its own, outside any transaction, over the pool.
abbrev pub autocommit :
    {A : Type 0} → Option ℕ → ℕ → (ℕ → Db → Result (A × Db)) → Db → Result A × Db
autocommit link now f d = finish d (send link now (f now d))

-- `UPDATE documents SET … WHERE id = …`.
unfoldable pub update_document : Text → (Document → Document) → Db → Db
update_document id f d = record d {
  documents = λ j. if text_eq j id then Option.map f (d.documents j) else d.documents j;
}

-- `Store.GetDocument`: the error of an empty result is pgx's, passed on as it is.
unfoldable pub get_document : Option ℕ → ℕ → Text → Db → Result Document × Db
get_document link now id = autocommit link now (λ now d. one_row (d.documents id) no_rows d)

-- `getDocumentTx`: here an empty result is the domain's error. The row's lock has no effect on
-- what is read.
unfoldable pub get_document_tx : Text → Tx Document
get_document_tx id = statement (λ now d. one_row (d.documents id) not_found d)

-- `Tx.GetDocumentForUpdate`.
unfoldable pub get_document_for_update : Text → Tx Document
unfolding get_document_tx
get_document_for_update id = get_document_tx id

abbrev pub new_document : ℕ → Text → Text → Document
new_document now id text = record {
  id = id;
  text = text;
  content_hash = hash_text text;
  status = DocStatus.pending;
  run_version = 1;
  total_tokens = 0;
  classified_count = 0;
  extraction_started_at = none;
  extraction_completed_at = none;
  classification_started_at = none;
  classification_completed_at = none;
  created_at = now;
  updated_at = now;
}

-- `INSERT INTO documents`, under the primary key.
abbrev pub insert_row : Option Document → Text → Document → Db → Result (Unit {0} × Db)
insert_row none id doc d =
    ok (tt, record d { documents = λ j. if text_eq j id then some doc else d.documents j })
insert_row (some old) id doc d = err duplicate_key

-- `Tx.InsertDocument`.
unfoldable pub insert_document : Text → Text → Tx Document
unfolding get_document_tx
insert_document id text = do
  statement (λ now d. insert_row (d.documents id) id (new_document now id text) d)
  get_document_tx id

abbrev pub belongs_to : Text → Token → Bool
belongs_to id t = text_eq t.document_id id

-- The assignments of the UPDATE in `Tx.ResetDocument`.
abbrev pub reset_row : ℕ → Text → Document → Document
reset_row now text doc = record doc {
  text = text;
  content_hash = hash_text text;
  status = DocStatus.pending;
  run_version = doc.run_version + 1;
  total_tokens = 0;
  classified_count = 0;
  extraction_started_at = none;
  extraction_completed_at = none;
  classification_started_at = none;
  classification_completed_at = none;
  updated_at = now;
}

-- `Tx.ResetDocument`: the tokens go, and the manifest starts a new run.
unfoldable pub reset_document : Text → Text → Tx Document
unfolding get_document_tx update_document
reset_document id text = do
  exec (λ now d. record d { tokens = select (λ t. not (belongs_to id t)) d.tokens })
  exec (λ now. update_document id (reset_row now text))
  get_document_tx id

-- `Tx.SetDocumentPending`.
unfoldable pub set_document_pending : Text → Tx (Unit {0})
unfolding update_document
set_document_pending id =
    exec (λ now.
      update_document id (λ doc. record doc { status = DocStatus.pending; updated_at = now }))

-- `Tx.SetExtractionStarted`.
unfoldable pub set_extraction_started : Text → Tx (Unit {0})
unfolding update_document
set_extraction_started id = exec λ now. update_document id λ doc. record doc {
  status = DocStatus.extracting;
  extraction_started_at = some now;
  updated_at = now;
}

-- `Tx.AdvanceToClassifying`.
unfoldable pub advance_to_classifying : Text → ℕ → Tx (Unit {0})
unfolding update_document
advance_to_classifying id total = exec λ now. update_document id λ doc. record doc {
  status = DocStatus.classifying;
  total_tokens = total;
  extraction_completed_at = some now;
  classification_started_at = some now;
  updated_at = now;
}

-- `Tx.MarkExtractionCompletedEmpty`.
unfoldable pub mark_extraction_completed_empty : Text → Tx (Unit {0})
unfolding update_document
mark_extraction_completed_empty id = exec λ now. update_document id λ doc. record doc {
  status = DocStatus.completed;
  total_tokens = 0;
  extraction_completed_at = some now;
  classification_started_at = some now;
  classification_completed_at = some now;
  updated_at = now;
}

-- `UPDATE … RETURNING classified_count`: no row is pgx's error.
abbrev pub returning_count : Option Document → Db → Result (ℕ × Db)
returning_count none d = err no_rows
returning_count (some doc) d = ok (doc.classified_count + 1, d)

-- `Tx.IncrementClassifiedCount`.
unfoldable pub increment_classified_count : Text → Tx ℕ
unfolding update_document
increment_classified_count id = statement λ now d. returning_count (d.documents id) (
    update_document id
      (λ doc. record doc { classified_count = doc.classified_count + 1; updated_at = now }) d)

-- `Tx.MarkDocumentCompleted`.
unfoldable pub mark_document_completed : Text → Tx (Unit {0})
unfolding update_document
mark_document_completed id = exec λ now. update_document id λ doc. record doc {
  status = DocStatus.completed;
  classification_completed_at = some now;
  updated_at = now;
}

-- `Store.MarkFailed`.
unfoldable pub mark_failed : Option ℕ → ℕ → Text → Db → Result (Unit {0}) × Db
unfolding update_document
mark_failed link now id = autocommit link now λ now d.
    ok
      (tt, update_document id (λ doc. record doc { status = DocStatus.failed; updated_at = now }) d)
