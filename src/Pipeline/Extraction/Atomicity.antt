-- ===== src/Pipeline/Extraction/Atomicity.antt =====
-- internal/pipeline/extractor.go: `claim` and `persist` over a failing connection.
use sayari.Prelude.{ℕ, zero, suc, Option, none, List, [], ◌∷◌, Text}
use sayari.Domain.{Document, Entity, Token}
use sayari.Domain.Labels.{DocStatus, TokenStatus}
use sayari.Store.{Db}
use sayari.Store.Tokens.{upsert_tokens}
use sayari.Store.Robust.{
  Robust, Robust-pure, Robust-statement, Robust-exec, Robust-bind, Robust-then, robust_rules,
  Outcome, within_tx-atomic,
}
use sayari.Pipeline.Extraction.{
  claim_row, claim_tx, claim, enqueue_unless_classified, enqueue_pending, advance_and_enqueue,
  persist_tx, persist,
}

Robust-claim_row : (s : DocStatus) (doc : Document) (id : Text) → Robust (claim_row s doc id)
unfolding claim_row
Robust-claim_row DocStatus.pending doc id = search (robust_rules) depth 9
Robust-claim_row DocStatus.extracting doc id = Robust-pure _
Robust-claim_row DocStatus.classifying doc id = Robust-pure _
Robust-claim_row DocStatus.completed doc id = Robust-pure _
Robust-claim_row DocStatus.failed doc id = Robust-pure _

-- A claim that loses its connection changes nothing.
pub claim-atomic :
    (link : Option ℕ) (now : ℕ) (id : Text) (d : Db)
    → Outcome d (claim link now id d) (claim none now id d)
unfolding claim
claim-atomic link now id d =
    within_tx-atomic link now (claim_tx id) d
      (Robust-bind _ _ (Robust-statement _) (λ doc. Robust-claim_row doc.status doc id))

Robust-upsert_tokens : (id : Text) (run : ℕ) (es : List Entity) → Robust (upsert_tokens id run es)
unfolding upsert_tokens
Robust-upsert_tokens id run [] = Robust-pure tt
Robust-upsert_tokens id run (e ∷ es) =
    Robust-then _ _ (Robust-statement _) (Robust-upsert_tokens id run es)

Robust-enqueue_one :
    (s : TokenStatus) (doc : Document) (t : Token) → Robust (enqueue_unless_classified s doc t)
unfolding enqueue_unless_classified
Robust-enqueue_one TokenStatus.classified doc t = Robust-pure tt
Robust-enqueue_one TokenStatus.pending doc t = Robust-exec _

Robust-enqueue_pending : (doc : Document) (ts : List Token) → Robust (enqueue_pending doc ts)
unfolding enqueue_pending
Robust-enqueue_pending doc [] = Robust-pure tt
Robust-enqueue_pending doc (t ∷ ts) =
    Robust-then _ _ (Robust-enqueue_one t.status doc t) (Robust-enqueue_pending doc ts)

Robust-advance : (doc : Document) (total : ℕ) → Robust (advance_and_enqueue doc total)
unfolding advance_and_enqueue
Robust-advance doc zero = search (robust_rules) depth 9
Robust-advance doc (suc n) = search (robust_rules, Robust-enqueue_pending) depth 9

Robust-persist_tx : (doc : Document) (es : List Entity) → Robust (persist_tx doc es)
unfolding persist_tx
Robust-persist_tx doc es = search (robust_rules, Robust-upsert_tokens, Robust-advance) depth 9

-- Wherever the connection fails in `persist`, the tables are left as they were and the caller sees
-- the failure; else `persist` does what it does over a connection that holds.
pub persist-atomic :
    (link : Option ℕ) (now : ℕ) (doc : Document) (es : List Entity) (d : Db)
    → Outcome d (persist link now doc es d) (persist none now doc es d)
unfolding persist
persist-atomic link now doc es d =
    within_tx-atomic link now (persist_tx doc es) d (Robust-persist_tx doc es)
