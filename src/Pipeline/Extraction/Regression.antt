-- ===== src/Pipeline/Extraction/Regression.antt =====
-- internal/pipeline/extractor.go: `persist` checks the run of the document, not its status: a
-- second extraction of the same run that ends late.
use sayari.Prelude.{
  ℕ, suc, ◌+◌, ◌≡◌, refl, ◌≢◌, sym, ap, ◌∙◌, true, none, some, List, [], ◌∷◌, Text, text_eq_refl,
  text_eq_iff, select, count_where, All, arith,
}
use sayari.Domain.{Document, Entity, Token, RerunMode, Classification}
use sayari.Domain.Labels.{DocStatus, TokenStatus}
use sayari.Store.{Db}
use sayari.Store.Tx.{Result, ok}
use sayari.Store.Documents.{belongs_to}
use sayari.Store.Tokens.{in_run, has_key, find_token}
use sayari.System.Counts.{classified_of, classified-le, count-in_run, find_classified}
use sayari.System.Invariant.{DocInv, IsConsistent, updated}
use sayari.Service.{submit}
use sayari.Service.Decisions.{submit_active_runs}
use sayari.Pipeline.Extraction.{claim, persist}
use sayari.Pipeline.Extraction.Upsert.{upserted, insert_kept, upserted-documents, upserted-outbox}
use sayari.Pipeline.Extraction.Jobs.{with_job, with_jobs}
use sayari.Pipeline.Extraction.Runs.{
  advanced_row, claim_started_runs, persisted, persist_current_runs,
}
use sayari.Pipeline.Classification.{apply}
use sayari.Pipeline.Classification.Runs.{Applied, apply-Applied}

-- The extractor found again what an earlier extraction stored.
abbrev pub AllStored : Text → ℕ → List Entity → List Token → Type 0
AllStored id run es ts = All (λ e. has_key id run e ts ≡ true) es

upserted-stored :
    (now : ℕ) (id : Text) (run : ℕ) (es : List Entity) (d : Db)
    → AllStored id run es d.tokens
    → (upserted now id run es d).tokens ≡ d.tokens
unfolding upserted insert_kept
upserted-stored now id run [] d h = refl
upserted-stored now id run (e ∷ es) d h =
    rw (h.0, upserted)
      (upserted-stored now id run es (record d { next_token = d.next_token + 1 }) h.1)

with_job-classified :
    (s : TokenStatus) (doc : Document) (t : Token) (d : Db)
    → s ≡ TokenStatus.classified
    → with_job s doc t d ≡ d
unfolding with_job
with_job-classified TokenStatus.classified doc t d e = refl
with_job-classified TokenStatus.pending doc t d e = cc

-- No token of the list is pending, so no job is written.
with_jobs-classified :
    (doc : Document) (ts : List Token) (d : Db)
    → All (λ t. t.status ≡ TokenStatus.classified) ts
    → with_jobs doc ts d ≡ d
unfolding with_jobs
with_jobs-classified doc [] d h = refl
with_jobs-classified doc (t ∷ ts) d h =
    rw (with_job-classified t.status doc t d h.0) (with_jobs-classified doc ts d h.1)

-- The tokens of the run are classified, if the counts say that those of the document are.
select-classified :
    (id : Text) (run : ℕ) (ts : List Token)
    → count_where (classified_of id) ts ≡ count_where (belongs_to id) ts
    → All (λ t. t.status ≡ TokenStatus.classified) (select (in_run id run) ts)
select-classified id run [] e = tt
select-classified id run (t ∷ ts) e =
    ground (arith, classified-le id ts, select-classified id run ts)

persisted-classified :
    (now : ℕ) (doc : Document) (total n : ℕ) (d : Db)
    → total ≡ suc n
    → All (λ t. t.status ≡ TokenStatus.classified) (select (in_run doc.id doc.run_version) d.tokens)
    → persisted now doc total d
      ≡ record d { documents = updated doc.id (advanced_row now (suc n)) d.documents }
unfolding persisted
persisted-classified now doc total n d e h =
    rw e (with_jobs-classified doc (select (in_run doc.id doc.run_version) d.tokens) _ h)

-- In consistent tables and over a connection that holds, a persist of a COMPLETED document's own
-- run, with at least one token and with entities that are
-- all stored already, sets the document back to CLASSIFYING and enqueues no job: the tokens, the
-- counter and the outbox stay as they are.
pub persist_regresses :
    (now : ℕ) (doc cur : Document) (es : List Entity) (d : Db) (n : ℕ)
    → IsConsistent d
    → d.documents doc.id ≡ some cur
    → cur.run_version ≡ doc.run_version
    → cur.status ≡ DocStatus.completed
    → cur.total_tokens ≡ suc n
    → AllStored doc.id doc.run_version es d.tokens
    → let d' = (persist none now doc es d).1 in
      (d'.documents doc.id ≡ some (advanced_row now (suc n) cur))
      × (d'.tokens ≡ d.tokens)
      × (d'.outbox ≡ d.outbox)
persist_regresses now doc cur es d n v found same completed total stored =
    rw
      (
        persist_current_runs now doc es d cur found same,
        persisted-classified now doc _ n u counted classified,
      )
      (
        ground (arith, text_eq_refl doc.id, ap (λ f. f doc.id) docs, found),
        kept,
        (upserted-outbox now doc.id doc.run_version es d).0,
      )
  where
    u : Db
    u = upserted now doc.id doc.run_version es d

    kept : u.tokens ≡ d.tokens
    kept = upserted-stored now doc.id doc.run_version es d stored

    docs : u.documents ≡ d.documents
    docs = upserted-documents now doc.id doc.run_version es d

    inv : DocInv d.tokens doc.id cur
    inv = v.documents doc.id cur found

    counted : count_where (in_run doc.id doc.run_version) u.tokens ≡ suc n
    counted =
        rw (kept, ← same)
          (count-in_run d.documents doc.id cur d.tokens found v.fenced ∙ sym inv.total ∙ total)

    classified :
        All
          (λ t. t.status ≡ TokenStatus.classified)
          (select (in_run doc.id doc.run_version) u.tokens)
    classified = rw kept (
        select-classified doc.id doc.run_version d.tokens
          (omega (arith, inv.total, inv.counted, inv.complete completed)))

-- A document that waits for the classification of tokens which are all classified.
module _ (id : Text) (cur : Document) (d : Db) (v : IsConsistent d)
    (found : d.documents id ≡ some cur) (in_stage : cur.status ≡ DocStatus.classifying)
    (all : cur.classified_count ≡ cur.total_tokens) where
  -- A pending token is another document's.
  elsewhere :
      (k : ℕ) (t : Token)
      → find_token k d.tokens ≡ some t
      → t.status ≡ TokenStatus.pending
      → t.document_id ≢ id
  elsewhere k t at status own =
      let h = v.documents id cur found in
      absurd (
        ground
          (arith, status, find_classified id k t d.tokens (sym h.counted ∙ all ∙ h.total) at own))

  Applied-kept :
      (now k run : ℕ) (c : Classification) (r : Result (Unit {0}) × Db)
      → Applied now k run c d r
      → r.1.documents id ≡ some cur
  Applied-kept now k run c r (Applied.missing none_left e) = rw e found
  Applied-kept now k run c r (Applied.stale t at ne e) = rw e found
  Applied-kept now k run c r (Applied.already t at same status e) = rw e found
  Applied-kept now k run c r (Applied.orphaned t at orphan e) = rw e found
  Applied-kept now k run c r (Applied.superseded t doc at own ne e) = rw e found
  Applied-kept now k run c r (Applied.counts t doc at same status own current more e) =
      rw e (ground (arith, found, text_eq_iff id t.document_id, elsewhere k t at status))
  Applied-kept now k run c r (Applied.completes t doc at same status own current last e) =
      rw e (ground (arith, found, text_eq_iff id t.document_id, elsewhere k t at status))

  -- In consistent tables and over a connection that holds: while a document shows CLASSIFYING and
  -- its counter is at its total, no classification of any
  -- token, no claim and no partial submission changes its manifest.
  pub stuck_stays :
      (now k run : ℕ) (c : Classification) (text : Text)
      → ((apply none now k run c d).1.documents id ≡ some cur)
        × (claim none now id d ≡ (ok cur, d))
        × ((submit none now id text RerunMode.partial d).1.documents id ≡ some cur)
  stuck_stays now k run c text = (
    Applied-kept now k run c _ (apply-Applied now k run c d),
    claim_started_runs now id d cur found (ground (arith, in_stage)),
    rw
        (submit_active_runs now id text d cur found (ground (arith, in_stage))
          (ground (arith, in_stage)))
        found,
  )
