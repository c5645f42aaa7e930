-- ===== src/Pipeline/Classification/Atomicity.antt =====
-- internal/pipeline/classifier.go: `apply` over a failing connection.
use sayari.Prelude.{ℕ, Option, none, Text}
use sayari.Domain.{Document, Token, Classification}
use sayari.Domain.Labels.{TokenStatus}
use sayari.Store.{Db}
use sayari.Store.Robust.{Robust, Robust-pure, robust_rules, Outcome, within_tx-atomic}
use sayari.Pipeline.Classification.{complete_if_last, apply_pending, apply_tx, apply}

Robust-complete : (n : ℕ) (doc : Document) (id : Text) → Robust (complete_if_last n doc id)
unfolding complete_if_last
Robust-complete n doc id = search (robust_rules) depth 9

Robust-apply_pending :
    (s : TokenStatus) (tok : Token) (token_id run : ℕ) (c : Classification)
    → Robust (apply_pending s tok token_id run c)
unfolding apply_pending
Robust-apply_pending TokenStatus.classified tok token_id run c = Robust-pure tt
Robust-apply_pending TokenStatus.pending tok token_id run c =
    search (robust_rules, Robust-complete) depth 9

Robust-apply_tx : (token_id run : ℕ) (c : Classification) → Robust (apply_tx token_id run c)
unfolding apply_tx
Robust-apply_tx token_id run c = search (robust_rules, Robust-apply_pending) depth 9

-- Wherever the connection fails in `apply`, the tables are left as they were and the caller sees
-- the failure; else `apply` does what it does over a connection that holds.
pub apply-atomic :
    (link : Option ℕ) (now token_id run : ℕ) (c : Classification) (d : Db)
    → Outcome d (apply link now token_id run c d) (apply none now token_id run c d)
unfolding apply
apply-atomic link now token_id run c d =
    within_tx-atomic link now (apply_tx token_id run c) d (Robust-apply_tx token_id run c)
