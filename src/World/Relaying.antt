-- ===== src/World/Relaying.antt =====
-- internal/outbox/relay.go: `Run`. Between two ticks anything may happen to the tables; what a tick
-- meets in its rounds, and whether the context is done after one, is a parameter.
pub mod Published
use sayari.Prelude.{ℕ, suc, Bool, List, [], ◌∷◌, ◌++◌, length}
use sayari.Store.{Db, OutboxRow}
use sayari.Relay.{Meeting, drain_all}
use sayari.World.{World, Event, run}

-- The batch size of `New`.
abbrev pub relay_batch : ℕ
relay_batch = 200

pub record Tick : Type 0 where
  pub between : List Event
  pub meet : ℕ → Meeting
  pub cancelled : ℕ → Bool

abbrev pub after_drain : World → Db × List OutboxRow → World
after_drain w (d, log) = record { db = d; published = w.published ++ log }

-- The rounds that one tick may need: one more than the outbox has rows.
unfoldable pub drain : Tick → World → World
drain t w =
    after_drain w (drain_all (suc (length w.db.outbox)) relay_batch t.meet t.cancelled 0 w.db)

-- The loop of `Run`, which ends when its context is done: after any ticks.
unfoldable pub relay_run : List Tick → World → World
unfolding drain
relay_run [] w = w
relay_run (t ∷ ts) w = relay_run ts (drain t (run w t.between))
