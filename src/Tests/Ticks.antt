-- ===== src/Tests/Ticks.antt =====
-- internal/outbox/relay.go: `Run` at a tick at which the broker is down, and one at which it is up.
use sayari.Prelude.{◌≡◌, refl, inl, false, none, some, [], ◌∷◌, Any, text_eq}
use sayari.Domain.{RerunMode}
use sayari.Store.Tx.{upstream}
use sayari.Store.Tokens.{upsert_tokens}
use sayari.Service.{submit}
use sayari.Pipeline.Extraction.{claim, persist, enqueue_pending}
use sayari.Pipeline.Classification.{apply}
use sayari.World.{Event, start, step, run}
use sayari.World.Relaying.{Tick, relay_run}
use sayari.World.Relaying.Published.{relay_publishes}
use sayari.Tests.{doc_id, body, conn, early, waiting_db}

abbrev down : Tick
down = record {
  between = [];
  meet = λ k. record { link = none; now = k; broker = λ r. some upstream; locked = λ r. false };
  cancelled = λ k. false;
}

-- A document is submitted again before it.
abbrev up : Tick
up = record {
  between = Event.submits (conn 9) doc_id body RerunMode.full ∷ [];
  meet = λ k. record { link = none; now = k; broker = λ r. none; locked = λ r. false };
  cancelled = λ k. false;
}

first_waits : Any (λ r. r.id ≡ 1) waiting_db.outbox
unfolding run step submit claim persist apply text_eq upsert_tokens enqueue_pending
first_waits = inl refl

relay_publishes_example :
    ((relay_run (down ∷ up ∷ []) (run start early)).db.outbox ≡ [])
    × Any (λ r. r.id ≡ 1) (relay_run (down ∷ up ∷ []) (run start early)).published
relay_publishes_example =
    relay_publishes (λ r. r.id ≡ 1) early (down ∷ []) up
      ((λ k. (refl, (λ r. refl), λ r. refl)), λ k. refl) first_waits
