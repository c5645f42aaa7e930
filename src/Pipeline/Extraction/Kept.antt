-- ===== src/Pipeline/Extraction/Kept.antt =====
-- internal/pipeline/extractor.go: `claim`, `persist` and the token table, where only pending tokens
-- come.
use sayari.Prelude.{
  ℕ, zero, suc, ◌≡◌, sym, inl, inr, Bool, true, false, none, some, Option, List, [], ◌∷◌, Text,
  ◌==◌, ==_iff, All, All-append, select, Option-cases, Bool-cases, subst, refl, arith,
}
use sayari.Domain.{Document, Token, Entity}
use sayari.Domain.Labels.{DocStatus}
use sayari.Store.{Db}
use sayari.Store.Tokens.{in_run, has_key, new_token}
use sayari.Store.Robust.{Outcome-keeps}
use sayari.System.Invariant.{updated}
use sayari.System.Counts.{AllTokens}
use sayari.Pipeline.Extraction.{claim, persist}
use sayari.Pipeline.Extraction.Atomicity.{claim-atomic, persist-atomic}
use sayari.Pipeline.Extraction.Upsert.{upserted, insert_kept}
use sayari.Pipeline.Extraction.Jobs.{with_jobs_keeps}
use sayari.Pipeline.Extraction.Runs.{
  advanced_row, claim_missing_runs, claim_pending_runs, claim_started_runs, persisted,
  persist_missing_runs, persist_stale_runs, persist_current_runs,
}

module _ (P : Token → Type 0) where
  module _ (now : ℕ) (id : Text) (d : Db) (h : AllTokens P d) where
    claim_known-AllTokens :
        (doc : Document) (s : DocStatus)
        → d.documents id ≡ some doc
        → doc.status ≡ s
        → AllTokens P (claim none now id d).1
    claim_known-AllTokens doc DocStatus.pending found e =
        rw (claim_pending_runs now id d doc found e) h
    claim_known-AllTokens doc s found e =
        rw (claim_started_runs now id d doc found (ground arith)) h

    pub claim-AllTokens : (link : Option ℕ) → AllTokens P (claim link now id d).1
    claim-AllTokens link =
        Outcome-keeps (AllTokens P) d _ _ (claim-atomic link now id d) h
          (elim (Option-cases (d.documents id)) [
            | inl missing ↦ rw (claim_missing_runs now id d missing) h
            | inr (doc, found) ↦ claim_known-AllTokens doc doc.status found refl
          ])

  module _ (now : ℕ) (id : Text) (run : ℕ)
      (fresh : (k : ℕ) (e : Entity) → P (new_token k now id run e)) where
    insert_kept-AllTokens :
        (b : Bool) (e : Entity) (d : Db)
        → AllTokens P d
        → AllTokens P (insert_kept now id run b e d)
    unfolding insert_kept
    insert_kept-AllTokens true e d h = h
    insert_kept-AllTokens false e d h = All-append P d.tokens _ h (fresh d.next_token e, tt)

    pub upserted-AllTokens :
        (es : List Entity) (d : Db) → AllTokens P d → AllTokens P (upserted now id run es d)
    unfolding upserted
    upserted-AllTokens [] d h = h
    upserted-AllTokens (e ∷ es) d h =
        upserted-AllTokens es _ (insert_kept-AllTokens (has_key id run e d.tokens) e d h)

  persisted-AllTokens :
      (now : ℕ) (doc : Document) (total : ℕ) (d : Db)
      → AllTokens P d
      → AllTokens P (persisted now doc total d)
  unfolding persisted
  persisted-AllTokens now doc zero d h = h
  persisted-AllTokens now doc (suc n) d h =
      let chosen = select (in_run doc.id doc.run_version) d.tokens in
      let start : Db = record d {
        documents = updated doc.id (advanced_row now (suc n)) d.documents;
      } in
      subst (All P) (sym (with_jobs_keeps doc chosen start).1) h

  module _ (now : ℕ) (doc : Document) (es : List Entity)
      (fresh : (k : ℕ) (e : Entity) → P (new_token k now doc.id doc.run_version e)) (d : Db)
      (h : AllTokens P d) where
    persist_runs-AllTokens : AllTokens P (persist none now doc es d).1
    persist_runs-AllTokens = elim (Option-cases (d.documents doc.id)) [
      | inl missing ↦ rw (persist_missing_runs now doc es d missing) h
      | inr (cur, found) ↦ elim (Bool-cases (cur.run_version == doc.run_version)) [
        | inl same ↦ rw (persist_current_runs now doc es d cur found ((==_iff _ _).0 same)) (
            persisted-AllTokens now doc _ _
              (upserted-AllTokens now doc.id doc.run_version fresh es d h))
        | inr stale ↦
            rw
              (persist_stale_runs now doc es d cur found
                (ground (arith, ==_iff cur.run_version doc.run_version)))
              h
      ]
    ]

    pub persist-AllTokens : (link : Option ℕ) → AllTokens P (persist link now doc es d).1
    persist-AllTokens link =
        Outcome-keeps (AllTokens P) d _ _ (persist-atomic link now doc es d) h
          persist_runs-AllTokens
