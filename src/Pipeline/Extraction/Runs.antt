-- ===== src/Pipeline/Extraction/Runs.antt =====
-- internal/pipeline/extractor.go: what `claim` and `persist` do over a connection that holds.
use sayari.Prelude.{
  ℕ, zero, suc, ◌≡◌, refl, ◌≢◌, none, some, List, Text, ==_iff, select, count_where, arith,
}
use sayari.Domain.{Document, Entity}
use sayari.Domain.Labels.{DocStatus}
use sayari.Store.{Db}
use sayari.Store.Tx.{ok, err, not_found, stale_write, session}
use sayari.Store.Tokens.{in_run}
use sayari.System.Invariant.{updated}
use sayari.Pipeline.Extraction.{claim, persist, advance_and_enqueue}
use sayari.Pipeline.Extraction.Upsert.{upserted, upsert_tokens_runs}
use sayari.Pipeline.Extraction.Jobs.{with_jobs, enqueue_pending_runs}

abbrev pub started_row : ℕ → Document → Document
started_row now doc = record doc {
  status = DocStatus.extracting;
  extraction_started_at = some now;
  updated_at = now;
}

abbrev pub advanced_row : ℕ → ℕ → Document → Document
advanced_row now total doc = record doc {
  status = DocStatus.classifying;
  total_tokens = total;
  extraction_completed_at = some now;
  classification_started_at = some now;
  updated_at = now;
}

abbrev pub emptied_row : ℕ → Document → Document
emptied_row now doc = record doc {
  status = DocStatus.completed;
  total_tokens = 0;
  extraction_completed_at = some now;
  classification_started_at = some now;
  classification_completed_at = some now;
  updated_at = now;
}

module _ (now : ℕ) (id : Text) (d : Db) where
  pub claim_missing_runs : d.documents id ≡ none → claim none now id d ≡ (err not_found, d)
  unfolding claim
  claim_missing_runs missing = ground arith

  pub claim_pending_runs :
      (doc : Document)
      → d.documents id ≡ some doc
      → doc.status ≡ DocStatus.pending
      → claim none now id d ≡ (
        ok (record doc { status = DocStatus.extracting }),
        record d { documents = updated id (started_row now) d.documents },
      )
  unfolding claim
  claim_pending_runs doc found status = ground arith

  pub claim_started_runs :
      (doc : Document)
      → d.documents id ≡ some doc
      → doc.status ≢ DocStatus.pending
      → claim none now id d ≡ (ok doc, d)
  unfolding claim
  claim_started_runs doc found status = ground arith

-- The tables of `persist` when `total` tokens were counted.
unfoldable pub persisted : ℕ → Document → ℕ → Db → Db
persisted now doc zero d = record d { documents = updated doc.id (emptied_row now) d.documents }
persisted now doc (suc n) d =
    with_jobs doc (select (in_run doc.id doc.run_version) d.tokens)
      (record d { documents = updated doc.id (advanced_row now (suc n)) d.documents })

advance_runs :
    (now : ℕ) (doc : Document) (total : ℕ) (d : Db)
    → advance_and_enqueue doc total (session none now d)
      ≡ ok (total, session none now (persisted now doc total d))
unfolding advance_and_enqueue persisted
advance_runs now doc zero d = refl
advance_runs now doc (suc n) d = rw (
    enqueue_pending_runs now doc (select (in_run doc.id doc.run_version) d.tokens)
      (record d { documents = updated doc.id (advanced_row now (suc n)) d.documents }))

module _ (now : ℕ) (doc : Document) (es : List Entity) (d : Db) where
  pub persist_missing_runs :
      d.documents doc.id ≡ none → persist none now doc es d ≡ (err not_found, d)
  unfolding persist
  persist_missing_runs missing = rw missing

  pub persist_stale_runs :
      (cur : Document)
      → d.documents doc.id ≡ some cur
      → cur.run_version ≢ doc.run_version
      → persist none now doc es d ≡ (err stale_write, d)
  unfolding persist
  persist_stale_runs cur found stale = ground (arith, ==_iff cur.run_version doc.run_version)

  abbrev pub stored : Db
  stored = upserted now doc.id doc.run_version es d

  abbrev pub stored_total : ℕ
  stored_total = count_where (in_run doc.id doc.run_version) stored.tokens

  pub persist_current_runs :
      (cur : Document)
      → d.documents doc.id ≡ some cur
      → cur.run_version ≡ doc.run_version
      → persist none now doc es d ≡ (ok stored_total, persisted now doc stored_total stored)
  unfolding persist
  persist_current_runs cur found same = rw (
    found,
    (==_iff cur.run_version doc.run_version).1 same,
    upsert_tokens_runs now doc.id doc.run_version es d cur found,
    advance_runs now doc stored_total stored,
  )
