-- ===== src/Queue/Consumer.antt =====
-- internal/queue/redis.go: the consumer loop, over the commands of Redis that it uses as an interface
-- on a state `S`, and a handler on a state `W`. Each call of the handler is logged with its answer.
use sayari.Prelude.{
  ℕ, zero, suc, Option, none, some, List, [], ◌∷◌, ◌++◌, Text, codes, if◌then◌else◌,
}
use sayari.Strings.{contains}
use sayari.Json.{Payload, malformed}
use sayari.Store.{OutboxRow}
use sayari.Queue.{Message}
use sayari.Store.Tx.{Error}

-- An entry of a stream: its payload and key may be missing.
pub record XMessage : Type 0 where
  pub id : ℕ
  pub payload : Option Payload
  pub key : Option Text

-- The answers of one stream and group: `none` is an error or no message.
pub record Redis (S : Type 0) : Type 0 where
  pub x_ack : ℕ → S → S
  pub x_auto_claim : S → Option (List XMessage) × S
  pub x_read_group : S → Option (List XMessage) × S

or_malformed : Option Payload → Payload
or_malformed none = malformed
or_malformed (some p) = p

or_empty : Option Text → Text
or_empty none = []
or_empty (some k) = k

unfoldable pub message_of : XMessage → Message
unfolding or_malformed or_empty
message_of m = record { key = or_empty m.key; payload = or_malformed m.payload }

abbrev pub Log : Type 0
Log = List (ℕ × Option Error)

module _ {S W : Type 0} (redis : Redis S) (handler : Message → W → Option Error × W) where
  abbrev pub After : Type 0
  After = (W × S) × Log

  -- The acknowledgement, where the handler answered nil; its own error changes nothing here.
  unfoldable pub acknowledge : XMessage → Option Error × W → S → After
  acknowledge m (some e, w) s = ((w, s), (m.id, some e) ∷ [])
  acknowledge m (none, w) s = ((w, redis.x_ack m.id s), (m.id, none) ∷ [])

  -- `handleOne`.
  unfoldable pub handle_one : XMessage → W × S → After
  unfolding acknowledge
  handle_one m (w, s) = acknowledge m (handler (message_of m) w) s

  abbrev pub and_then : After → (W × S → After) → After
  and_then (st, log) f = let (st', log') = f st in (st', log ++ log')

  unfoldable pub handle_all : List XMessage → W × S → After
  unfolding handle_one
  handle_all [] st = (st, [])
  handle_all (m ∷ ms) st = and_then (handle_one m st) (handle_all ms)

  -- The messages of a command's answer.
  unfoldable pub handle_answer : W → Option (List XMessage) × S → After
  unfolding handle_all
  handle_answer w (none, s) = ((w, s), [])
  handle_answer w (some ms, s) = handle_all ms (w, s)

  -- Read new messages, if the reclaim handled none.
  unfoldable pub read_new : W × S → After
  unfolding handle_answer
  read_new (w, s) = handle_answer w (redis.x_read_group s)

  unfoldable pub after_reclaim : W → Option (List XMessage) × S → After
  unfolding handle_all read_new
  after_reclaim w (none, s) = read_new (w, s)
  after_reclaim w (some [], s) = read_new (w, s)
  after_reclaim w (some (m ∷ ms), s) = handle_all (m ∷ ms) (w, s)

  -- One round of the loop in `Consume`: `reclaim`, and else a read.
  unfoldable pub consume_round : W × S → After
  unfolding after_reclaim
  consume_round (w, s) = after_reclaim w (redis.x_auto_claim s)

  -- The loop ends when its context is done: after any number of rounds.
  unfoldable pub consume : ℕ → W × S → After
  unfolding consume_round
  consume zero st = (st, [])
  consume (suc rounds) st = and_then (consume_round st) (consume rounds)

-- `ensureGroup`, by the error of XGROUP CREATE: a group that is there already is none.
unfoldable pub ensure_group : Option Text → Option Text
ensure_group none = none
ensure_group (some e) = if contains e (codes "BUSYGROUP") then none else some e

module _ {S W : Type 0} (redis : Redis S) (handler : Message → W → Option Error × W) where
  begin_loop : Option Text → ℕ → W × S → Option Text × ((W × S) × Log)
  unfolding consume
  begin_loop (some e) rounds st = (some e, (st, []))
  begin_loop none rounds st = (none, consume redis handler rounds st)

  -- `Consume`: the group first, and then the loop, which returns nil.
  unfoldable pub consume_group : Option Text → ℕ → W × S → Option Text × ((W × S) × Log)
  unfolding begin_loop ensure_group
  consume_group created rounds st = begin_loop (ensure_group created) rounds st

-- `Publish` of a message on a stream, over XADD: `none` is nil.
unfoldable pub publish : (Text → Message → Option Error) → OutboxRow → Option Error
publish x_add r = x_add r.stream (record { key = r.key; payload = r.payload })
