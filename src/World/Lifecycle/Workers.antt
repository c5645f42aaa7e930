-- ===== src/World/Lifecycle/Workers.antt =====
-- How `persist` and `apply` move a manifest: internal/pipeline/extractor.go and classifier.go.
use sayari.Prelude.{
  ℕ, zero, suc, ◌+◌, ◌≤◌, ◌≡◌, refl, sym, ◌∙◌, subst, inl, inr, Bool, Bool-cases, Option-cases,
  true, false, none, some, List, [], ◌∷◌, Text, text_eq_refl, count_where, count_where-append, ◌==◌,
  ==_iff, arith,
}
use sayari.Domain.{Document, Entity, Token, Classification}
use sayari.Store.{Db}
use sayari.Store.Robust.{Outcome-keeps}
use sayari.Store.Tokens.{in_run, has_key}
use sayari.System.Counts.{count-in_run}
use sayari.System.Invariant.{IsConsistent}
use sayari.Store.Tx.{Result}
use sayari.Pipeline.Extraction.{Conn, persist}
use sayari.Pipeline.Extraction.Atomicity.{persist-atomic}
use sayari.Pipeline.Extraction.Upsert.{insert_kept, upserted, upserted-documents}
use sayari.Pipeline.Extraction.Jobs.{with_jobs_keeps}
use sayari.Pipeline.Extraction.Runs.{
  advanced_row, emptied_row, persisted, persist_missing_runs, persist_stale_runs,
  persist_current_runs, stored_total,
}
use sayari.Pipeline.Classification.{apply}
use sayari.Pipeline.Classification.Consistency.{updated_twice, apply-IsConsistent}
use sayari.Pipeline.Classification.Atomicity.{apply-atomic}
use sayari.Pipeline.Classification.Runs.{
  counted_row, completed_row, completed_db, Applied, apply-Applied,
}
use sayari.World.{persists, applies}
use sayari.World.Lifecycle.{
  Moves, stays, extracts, finds_nothing, counts, completes, manifest_of, manifest,
}
use sayari.World.Lifecycle.Moved.{Moves-updated}

module _ (now : ℕ) (id : Text) (run : ℕ) (p : Token → Bool) where
  insert_kept-count :
      (b : Bool) (e : Entity) (d : Db)
      → count_where p d.tokens ≤ count_where p (insert_kept now id run b e d).tokens
  unfolding insert_kept
  insert_kept-count true e d = omega arith
  insert_kept-count false e d = omega (arith, count_where-append p d.tokens)

  -- No token goes while the entities are inserted.
  upserted-count :
      (es : List Entity) (d : Db)
      → count_where p d.tokens ≤ count_where p (upserted now id run es d).tokens
  unfolding upserted
  upserted-count [] d = omega arith
  upserted-count (e ∷ es) d =
      let b = has_key id run e d.tokens in
      omega (arith, insert_kept-count b e d, upserted-count es (insert_kept now id run b e d))

module _ (id : Text) (c : Conn) (doc : Document) (es : List Entity) (d : Db)
    (v : IsConsistent d) where
  abbrev PersistMoves : Db → Type 0
  PersistMoves d' = Moves id (persists c doc es) (manifest id d) (manifest id d')

  total-le :
      (cur : Document)
      → d.documents doc.id ≡ some cur
      → cur.run_version ≡ doc.run_version
      → cur.total_tokens ≤ stored_total c.now doc es d
  total-le cur found same =
      let all : count_where (in_run doc.id doc.run_version) d.tokens ≡ cur.total_tokens =
        subst (λ r. count_where (in_run doc.id r) d.tokens ≡ cur.total_tokens) same
          (count-in_run d.documents doc.id cur d.tokens found v.fenced
            ∙ sym (v.documents doc.id cur found).total) in
      omega (
        arith,
        all,
        upserted-count c.now doc.id doc.run_version (in_run doc.id doc.run_version) es d,
      )

  module _ (cur : Document) (found : d.documents doc.id ≡ some cur)
      (same_run : cur.run_version ≡ doc.run_version) where
    persisted-Moves :
        (total : ℕ) (u : Db)
        → cur.total_tokens ≤ total
        → u.documents ≡ d.documents
        → PersistMoves (persisted c.now doc total u)
    unfolding persisted
    persisted-Moves zero u le same = rw same (
        Moves-updated _ id doc.id (emptied_row c.now) d.documents (λ old here at.
          finds_nothing c doc es (manifest_of old) here (ground (arith, found, at, same_run))
            (ground (arith, found, at, le))))
    persisted-Moves (suc n) u le same =
        rw ((with_jobs_keeps doc _ _).0, same)
          (Moves-updated _ id doc.id (advanced_row c.now (suc n)) d.documents (λ old here at.
            extracts c doc es (manifest_of old) (suc n) here (ground (arith, found, at, same_run))
              (ground (arith, found, at, le)) (omega arith)))

  persist_runs-Moves : PersistMoves (persist none c.now doc es d).1
  persist_runs-Moves = elim (Option-cases (d.documents doc.id)) [
    | inl missing ↦ rw (persist_missing_runs c.now doc es d missing) (stays _ _)
    | inr (cur, found) ↦ elim (Bool-cases (cur.run_version == doc.run_version)) [
      | inl same ↦
          let same' = (==_iff cur.run_version doc.run_version).0 same in
          rw (persist_current_runs c.now doc es d cur found same') (
            persisted-Moves cur found same' (stored_total c.now doc es d)
              (upserted c.now doc.id doc.run_version es d) (total-le cur found same')
              (upserted-documents c.now doc.id doc.run_version es d))
      | inr stale ↦
          rw
            (persist_stale_runs c.now doc es d cur found
              (ground (arith, ==_iff cur.run_version doc.run_version)))
            (stays _ _)
    ]
  ]

  pub persist-Moves : PersistMoves (persist c.link c.now doc es d).1
  persist-Moves =
      Outcome-keeps PersistMoves d _ _ (persist-atomic c.link c.now doc es d) (stays _ _)
        persist_runs-Moves

module _ (id : Text) (conn : Conn) (k run : ℕ) (c : Classification) (d : Db)
    (v : IsConsistent d) where
  abbrev ApplyMoves : Db → Type 0
  ApplyMoves d' = Moves id (applies conn k run c) (manifest id d) (manifest id d')

  -- The last token makes the counter reach the total.
  counter-last :
      (t : Token) (doc : Document)
      → d.documents t.document_id ≡ some doc
      → IsConsistent (completed_db conn.now k c t d)
      → doc.classified_count + 1 ≡ doc.total_tokens
  counter-last t doc own v' =
      (v'.documents t.document_id (completed_row conn.now (counted_row conn.now doc))
          (rw (text_eq_refl t.document_id, own) refl)).complete
        refl

  Applied-Moves :
      (r : Result (Unit {0}) × Db)
      → Applied conn.now k run c d r
      → IsConsistent r.1
      → ApplyMoves r.1
  Applied-Moves r (Applied.missing m e) v' = rw e (stays _ _)
  Applied-Moves r (Applied.stale t f ne e) v' = rw e (stays _ _)
  Applied-Moves r (Applied.already t f s st e) v' = rw e (stays _ _)
  Applied-Moves r (Applied.orphaned t f o e) v' = rw e (stays _ _)
  Applied-Moves r (Applied.superseded t doc f o ne e) v' = rw e (stays _ _)
  Applied-Moves r (Applied.counts t doc f s st own cur more e) v' = rw e (
      Moves-updated _ id t.document_id (counted_row conn.now) d.documents (λ old here at.
        counts conn k run c (manifest_of old) (ground (arith, own, at, cur))
          (ground (arith, own, at, more))))
  Applied-Moves r (Applied.completes t doc f s st own cur last e) v' =
      let exact = counter-last t doc own (subst (λ x. IsConsistent x.1) e v') in
      rw
        (
          e,
          updated_twice t.document_id (counted_row conn.now) (completed_row conn.now) d.documents
              id,
        )
        (Moves-updated _ id t.document_id (λ old. completed_row conn.now (counted_row conn.now old))
          d.documents
          (λ old here at.
            completes conn k run c (manifest_of old) (ground (arith, own, at, cur))
              (ground (arith, own, at, exact))))

  pub apply-Moves : ApplyMoves (apply conn.link conn.now k run c d).1
  apply-Moves =
      Outcome-keeps ApplyMoves d _ _ (apply-atomic conn.link conn.now k run c d) (stays _ _) (
        Applied-Moves _ (apply-Applied conn.now k run c d)
          (apply-IsConsistent conn.now k run c d v none))
