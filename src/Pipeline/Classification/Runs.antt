-- ===== src/Pipeline/Classification/Runs.antt =====
-- internal/pipeline/classifier.go: what `apply` does over a connection that holds.
use sayari.Prelude.{
  ℕ, inl, inr, Option-cases, Bool-cases, ◌+◌, ◌≤◌, ◌<◌, ◌≡◌, refl, ◌≢◌, leb, none, some, ◌==◌,
  ==_iff, arith,
}
use sayari.Domain.{Document, Token, Classification}
use sayari.Domain.Labels.{DocStatus, TokenStatus}
use sayari.Store.{Db}
use sayari.Store.Tx.{Result, ok, err, not_found, stale_write}
use sayari.Store.Tokens.{find_token}
use sayari.System.Counts.{classified_tokens}
use sayari.System.Invariant.{updated}
use sayari.Pipeline.Classification.{apply}

abbrev pub counted_row : ℕ → Document → Document
counted_row now doc = record doc { classified_count = doc.classified_count + 1; updated_at = now }

abbrev pub completed_row : ℕ → Document → Document
completed_row now doc = record doc {
  status = DocStatus.completed;
  classification_completed_at = some now;
  updated_at = now;
}

-- The tables with the result stored and the counter moved.
abbrev pub counted_db : ℕ → ℕ → Classification → Token → Db → Db
counted_db now token_id c tok d = record d {
  documents = updated tok.document_id (counted_row now) d.documents;
  tokens = classified_tokens token_id now c d.tokens;
}

-- The same, with the document completed.
abbrev pub completed_db : ℕ → ℕ → Classification → Token → Db → Db
completed_db now token_id c tok d = record d {
  documents =
      updated tok.document_id (completed_row now)
        (updated tok.document_id (counted_row now) d.documents);
  tokens = classified_tokens token_id now c d.tokens;
}

module _ (now token_id run : ℕ) (c : Classification) (d : Db) where
  pub apply_missing_runs :
      find_token token_id d.tokens ≡ none → apply none now token_id run c d ≡ (err not_found, d)
  unfolding apply
  apply_missing_runs missing = rw missing

  module _ (tok : Token) (found : find_token token_id d.tokens ≡ some tok) where
    pub apply_stale_runs :
        tok.run_version ≢ run → apply none now token_id run c d ≡ (err stale_write, d)
    unfolding apply
    apply_stale_runs stale = ground (arith, ==_iff tok.run_version run)

    module _ (same : tok.run_version ≡ run) where
      pub apply_classified_runs :
          tok.status ≡ TokenStatus.classified → apply none now token_id run c d ≡ (ok tt, d)
      unfolding apply
      apply_classified_runs status = ground (arith, ==_iff tok.run_version run)

      module _ (status : tok.status ≡ TokenStatus.pending) where
        pub apply_orphan_runs :
            d.documents tok.document_id ≡ none
            → apply none now token_id run c d ≡ (err not_found, d)
        unfolding apply
        apply_orphan_runs orphan = ground (arith, ==_iff tok.run_version run)

        module _ (doc : Document) (own : d.documents tok.document_id ≡ some doc) where
          pub apply_superseded_runs :
              doc.run_version ≢ run → apply none now token_id run c d ≡ (err stale_write, d)
          unfolding apply
          apply_superseded_runs stale =
              ground (arith, ==_iff tok.run_version run, ==_iff doc.run_version run)

          module _ (current : doc.run_version ≡ run) where
            pub apply_counts_runs :
                doc.classified_count + 1 < doc.total_tokens
                → apply none now token_id run c d ≡ (ok tt, counted_db now token_id c tok d)
            unfolding apply
            apply_counts_runs more =
                ground (arith, ==_iff tok.run_version run, ==_iff doc.run_version run)

            pub apply_completes_runs :
                doc.total_tokens ≤ doc.classified_count + 1
                → apply none now token_id run c d ≡ (ok tt, completed_db now token_id c tok d)
            unfolding apply
            apply_completes_runs last =
                ground (arith, ==_iff tok.run_version run, ==_iff doc.run_version run)

-- The ways in which `apply` ends over a connection that holds, each with what was found.
pub data Applied (now k run : ℕ) (c : Classification) (d : Db) (r : Result (Unit {0}) × Db)
    : Type 0 where
  missing : find_token k d.tokens ≡ none → r ≡ (err not_found, d) → Applied now k run c d r
  stale :
      (t : Token)
      → find_token k d.tokens ≡ some t
      → t.run_version ≢ run
      → r ≡ (err stale_write, d)
      → Applied now k run c d r
  already :
      (t : Token)
      → find_token k d.tokens ≡ some t
      → t.run_version ≡ run
      → t.status ≡ TokenStatus.classified
      → r ≡ (ok tt, d)
      → Applied now k run c d r
  orphaned :
      (t : Token)
      → find_token k d.tokens ≡ some t
      → d.documents t.document_id ≡ none
      → r ≡ (err not_found, d)
      → Applied now k run c d r
  superseded :
      (t : Token) (doc : Document)
      → find_token k d.tokens ≡ some t
      → d.documents t.document_id ≡ some doc
      → doc.run_version ≢ run
      → r ≡ (err stale_write, d)
      → Applied now k run c d r
  counts :
      (t : Token) (doc : Document)
      → find_token k d.tokens ≡ some t
      → t.run_version ≡ run
      → t.status ≡ TokenStatus.pending
      → d.documents t.document_id ≡ some doc
      → doc.run_version ≡ run
      → doc.classified_count + 1 < doc.total_tokens
      → r ≡ (ok tt, counted_db now k c t d)
      → Applied now k run c d r
  completes :
      (t : Token) (doc : Document)
      → find_token k d.tokens ≡ some t
      → t.run_version ≡ run
      → t.status ≡ TokenStatus.pending
      → d.documents t.document_id ≡ some doc
      → doc.run_version ≡ run
      → doc.total_tokens ≤ doc.classified_count + 1
      → r ≡ (ok tt, completed_db now k c t d)
      → Applied now k run c d r

module _ (now k run : ℕ) (c : Classification) (d : Db) where
  Applied-owned :
      (t : Token) (doc : Document)
      → find_token k d.tokens ≡ some t
      → t.run_version ≡ run
      → t.status ≡ TokenStatus.pending
      → d.documents t.document_id ≡ some doc
      → doc.run_version ≡ run
      → Applied now k run c d (apply none now k run c d)
  Applied-owned t doc found same status own current =
      elim (Bool-cases (leb doc.total_tokens (doc.classified_count + 1))) [
        | inl last ↦
            let last' : doc.total_tokens ≤ doc.classified_count + 1 = ground (arith, last) in
            completes t doc found same status own current last'
              (apply_completes_runs now k run c d t found same status doc own current last')
        | inr more ↦
            let more' : doc.classified_count + 1 < doc.total_tokens = ground (arith, more) in
            counts t doc found same status own current more'
              (apply_counts_runs now k run c d t found same status doc own current more')
      ]

  Applied-known :
      (t : Token) (s : TokenStatus)
      → find_token k d.tokens ≡ some t
      → t.run_version ≡ run
      → t.status ≡ s
      → Applied now k run c d (apply none now k run c d)
  Applied-known t TokenStatus.classified found same status =
      already t found same status (apply_classified_runs now k run c d t found same status)
  Applied-known t TokenStatus.pending found same status =
      elim (Option-cases (d.documents t.document_id)) [
        | inl orphan ↦
            orphaned t found orphan (apply_orphan_runs now k run c d t found same status orphan)
        | inr (doc, own) ↦ elim (Bool-cases (doc.run_version == run)) [
          | inl current ↦ Applied-owned t doc found same status own ((==_iff _ _).0 current)
          | inr other ↦
              let ne : doc.run_version ≢ run = ground (arith, ==_iff doc.run_version run) in
              superseded t doc found own ne
                (apply_superseded_runs now k run c d t found same status doc own ne)
        ]
      ]

  -- `apply` ends in one of these ways.
  pub apply-Applied : Applied now k run c d (apply none now k run c d)
  apply-Applied = elim (Option-cases (find_token k d.tokens)) [
    | inl gone ↦ missing gone (apply_missing_runs now k run c d gone)
    | inr (t, found) ↦ elim (Bool-cases (t.run_version == run)) [
      | inl same ↦ Applied-known t t.status found ((==_iff _ _).0 same) refl
      | inr other ↦
          let ne : t.run_version ≢ run = ground (arith, ==_iff t.run_version run) in
          stale t found ne (apply_stale_runs now k run c d t found ne)
    ]
  ]
