-- ===== src/Pipeline/Classification/Changes.antt =====
-- internal/pipeline/classifier.go: the three ways in which `apply` leaves the tables, over any
-- connection.
use sayari.Prelude.{ℕ, ◌+◌, ◌≤◌, ◌<◌, ◌≡◌, refl, Option, some}
use sayari.Domain.{Document, Token, Classification}
use sayari.Domain.Labels.{TokenStatus}
use sayari.Store.{Db}
use sayari.Store.Tx.{Result}
use sayari.Store.Tokens.{find_token}
use sayari.Store.Robust.{Outcome-keeps}
use sayari.Pipeline.Classification.{apply}
use sayari.Pipeline.Classification.Atomicity.{apply-atomic}
use sayari.Pipeline.Classification.Runs.{Applied, apply-Applied, counted_db, completed_db}

pub data Changed (now k : ℕ) (c : Classification) (d d' : Db) : Type 0 where
  unchanged : d' ≡ d → Changed now k c d d'
  counted :
      (t : Token) (doc : Document)
      → find_token k d.tokens ≡ some t
      → t.status ≡ TokenStatus.pending
      → d.documents t.document_id ≡ some doc
      → doc.classified_count + 1 < doc.total_tokens
      → d' ≡ counted_db now k c t d
      → Changed now k c d d'
  completed :
      (t : Token) (doc : Document)
      → find_token k d.tokens ≡ some t
      → t.status ≡ TokenStatus.pending
      → d.documents t.document_id ≡ some doc
      → doc.total_tokens ≤ doc.classified_count + 1
      → d' ≡ completed_db now k c t d
      → Changed now k c d d'

module _ (now k run : ℕ) (c : Classification) (d : Db) where
  Applied-Changed : (r : Result (Unit {0}) × Db) → Applied now k run c d r → Changed now k c d r.1
  Applied-Changed r (Applied.missing m e) = rw e (unchanged refl)
  Applied-Changed r (Applied.stale t f ne e) = rw e (unchanged refl)
  Applied-Changed r (Applied.already t f s st e) = rw e (unchanged refl)
  Applied-Changed r (Applied.orphaned t f o e) = rw e (unchanged refl)
  Applied-Changed r (Applied.superseded t doc f o ne e) = rw e (unchanged refl)
  Applied-Changed r (Applied.counts t doc f s st own cur more e) =
      rw e (counted t doc f st own more refl)
  Applied-Changed r (Applied.completes t doc f s st own cur last e) =
      rw e (completed t doc f st own last refl)

  pub apply-Changed : (link : Option ℕ) → Changed now k c d (apply link now k run c d).1
  apply-Changed link =
      Outcome-keeps (Changed now k c d) d _ _ (apply-atomic link now k run c d) (unchanged refl)
        (Applied-Changed _ (apply-Applied now k run c d))
