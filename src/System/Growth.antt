-- ===== src/System/Growth.antt =====
-- How the transactions of the producers change the outbox: they add rows at its end.
use sayari.Prelude.{
  ℕ, suc, ◌≡◌, ◌∙◌, sym, List, [], ◌∷◌, ◌++◌, append_assoc, append-nil, Any, Any-append_left, arith,
}
use sayari.Store.{Db, OutboxRow}
use sayari.Relay.Drained.{RowsBetween}

pub RowsBetween-append :
    (lo mid hi : ℕ) (xs ys : List OutboxRow)
    → RowsBetween lo mid xs
    → RowsBetween mid hi ys
    → RowsBetween lo hi (xs ++ ys)
RowsBetween-append lo mid hi [] [] b c = omega arith
RowsBetween-append lo mid hi [] (y ∷ ys) b c = (omega arith, c.1)
RowsBetween-append lo mid hi (x ∷ xs) ys b c =
    (b.0, RowsBetween-append (suc x.id) mid hi xs ys b.1 c)

-- `d'` has the outbox of `d`, and new rows with the next ids behind it.
pub record Grows (d d' : Db) : Type 0 where
  pub new : List OutboxRow
  pub grown : d'.outbox ≡ d.outbox ++ new
  pub fresh : RowsBetween d.next_outbox d'.next_outbox new

pub Grows-same : (d d' : Db) → d'.outbox ≡ d.outbox → d'.next_outbox ≡ d.next_outbox → Grows d d'
Grows-same d d' o n = record {
  new = [];
  grown = o ∙ sym (append-nil d.outbox);
  fresh = omega arith;
}

pub Grows-trans : {a b c : Db} → Grows a b → Grows b c → Grows a c
Grows-trans {a} {b} {c} g h = record {
  new = g.new ++ h.new;
  grown = rw (h.grown, g.grown, append_assoc a.outbox g.new h.new);
  fresh = RowsBetween-append a.next_outbox b.next_outbox c.next_outbox g.new h.new g.fresh h.fresh;
}

pub Grows-rows :
    {d d' : Db}
    → Grows d d'
    → RowsBetween 0 d.next_outbox d.outbox
    → RowsBetween 0 d'.next_outbox d'.outbox
Grows-rows {d} {d'} g b =
    rw g.grown (RowsBetween-append 0 d.next_outbox d'.next_outbox d.outbox g.new b g.fresh)

pub Grows-Any : (P : OutboxRow → Type 0) {d d' : Db} → Grows d d' → Any P d.outbox → Any P d'.outbox
Grows-Any P {d} g h = rw g.grown (Any-append_left P d.outbox g.new h)
