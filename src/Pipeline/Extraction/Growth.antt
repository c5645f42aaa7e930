-- ===== src/Pipeline/Extraction/Growth.antt =====
-- internal/pipeline/extractor.go: `claim`, `persist` and the outbox.
use sayari.Prelude.{
  ℕ, zero, suc, ◌≡◌, refl, inl, inr, none, some, Option, List, [], ◌∷◌, Text, ◌==◌, ==_iff, select,
  Option-cases, Bool-cases, arith,
}
use sayari.Domain.{Document, Entity, Token}
use sayari.Domain.Labels.{DocStatus, TokenStatus}
use sayari.Store.{Db}
use sayari.Store.Tokens.{in_run}
use sayari.Store.Robust.{Outcome-keeps}
use sayari.System.Growth.{Grows, Grows-same, Grows-trans}
use sayari.System.Invariant.{updated}
use sayari.Pipeline.Extraction.{claim, persist}
use sayari.Pipeline.Extraction.Atomicity.{claim-atomic, persist-atomic}
use sayari.Pipeline.Extraction.Upsert.{upserted, upserted-outbox}
use sayari.Pipeline.Extraction.Jobs.{job_of, classify_row, with_job, with_jobs}
use sayari.Pipeline.Extraction.Runs.{
  advanced_row, claim_missing_runs, claim_pending_runs, claim_started_runs, persisted,
  persist_missing_runs, persist_stale_runs, persist_current_runs,
}

with_job-Grows :
    (s : TokenStatus) (doc : Document) (t : Token) (d : Db) → Grows d (with_job s doc t d)
unfolding with_job
with_job-Grows TokenStatus.classified doc t d = Grows-same d d refl refl
with_job-Grows TokenStatus.pending doc t d = record {
  new = classify_row d.next_outbox (job_of doc t) ∷ [];
  grown = refl;
  fresh = omega arith;
}

pub with_jobs-Grows : (doc : Document) (ts : List Token) (d : Db) → Grows d (with_jobs doc ts d)
unfolding with_jobs
with_jobs-Grows doc [] d = Grows-same d d refl refl
with_jobs-Grows doc (t ∷ ts) d =
    Grows-trans (with_job-Grows t.status doc t d)
      (with_jobs-Grows doc ts (with_job t.status doc t d))

persisted-Grows :
    (now : ℕ) (doc : Document) (total : ℕ) (d : Db) → Grows d (persisted now doc total d)
unfolding persisted
persisted-Grows now doc zero d = Grows-same d _ refl refl
persisted-Grows now doc (suc n) d =
    let d' : Db = record d { documents = updated doc.id (advanced_row now (suc n)) d.documents } in
    Grows-trans {a = d} {b = d'} (Grows-same d d' refl refl)
      (with_jobs-Grows doc (select (in_run doc.id doc.run_version) d.tokens) d')

module _ (now : ℕ) (id : Text) (d : Db) where
  claim_known-Grows :
      (doc : Document) (s : DocStatus)
      → d.documents id ≡ some doc
      → doc.status ≡ s
      → Grows d (claim none now id d).1
  claim_known-Grows doc DocStatus.pending found e =
      rw (claim_pending_runs now id d doc found e) (Grows-same d _ refl refl)
  claim_known-Grows doc s found e =
      rw (claim_started_runs now id d doc found (ground arith)) (Grows-same d d refl refl)

  pub claim-Grows : (link : Option ℕ) → Grows d (claim link now id d).1
  claim-Grows link =
      Outcome-keeps (Grows d) d _ _ (claim-atomic link now id d) (Grows-same d d refl refl)
        (elim (Option-cases (d.documents id)) [
          | inl missing ↦ rw (claim_missing_runs now id d missing) (Grows-same d d refl refl)
          | inr (doc, found) ↦ claim_known-Grows doc doc.status found refl
        ])

module _ (now : ℕ) (doc : Document) (es : List Entity) (d : Db) where
  persist_runs-Grows : Grows d (persist none now doc es d).1
  persist_runs-Grows = elim (Option-cases (d.documents doc.id)) [
    | inl missing ↦ rw (persist_missing_runs now doc es d missing) (Grows-same d d refl refl)
    | inr (cur, found) ↦ elim (Bool-cases (cur.run_version == doc.run_version)) [
      | inl same ↦
          let u : Db = upserted now doc.id doc.run_version es d in
          let o = upserted-outbox now doc.id doc.run_version es d in
          rw (persist_current_runs now doc es d cur found ((==_iff _ _).0 same))
            (Grows-trans {a = d} {b = u} (Grows-same d u o.0 o.1) (persisted-Grows now doc _ u))
      | inr stale ↦
          rw
            (persist_stale_runs now doc es d cur found
              (ground (arith, ==_iff cur.run_version doc.run_version)))
            (Grows-same d d refl refl)
    ]
  ]

  pub persist-Grows : (link : Option ℕ) → Grows d (persist link now doc es d).1
  persist-Grows link =
      Outcome-keeps (Grows d) d _ _ (persist-atomic link now doc es d) (Grows-same d d refl refl)
        persist_runs-Grows
