-- ===== src/Store/Outbox.antt =====
-- internal/store/outbox.go: the transactional outbox.
use sayari.Prelude.{ℕ, ◌+◌, ◌==◌, Bool, not, List, [], ◌∷◌, ◌++◌, Text, select, take}
use sayari.Json.{Payload}
use sayari.Store.{OutboxRow}
use sayari.Store.Tx.{ok, Tx, statement, exec}

-- `Tx.EnqueueOutbox`.
unfoldable pub enqueue_outbox : Text → Text → Payload → Tx (Unit {0})
enqueue_outbox stream key payload = exec λ now d. record d {
  outbox =
      d.outbox ++ record { id = d.next_outbox; stream = stream; key = key; payload = payload } ∷ [];
  next_outbox = d.next_outbox + 1;
}

-- `Tx.ClaimOutboxBatch`: the first rows that no other relay has locked.
unfoldable pub claim_outbox_batch : (OutboxRow → Bool) → ℕ → Tx (List OutboxRow)
claim_outbox_batch locked limit =
    statement (λ now d. ok (take limit (select (λ r. not (locked r)) d.outbox), d))

abbrev pub without_row : ℕ → List OutboxRow → List OutboxRow
without_row id = select (λ r. not (r.id == id))

-- `Tx.DeleteOutbox`.
unfoldable pub delete_outbox : ℕ → Tx (Unit {0})
delete_outbox id = exec (λ now d. record d { outbox = without_row id d.outbox })
