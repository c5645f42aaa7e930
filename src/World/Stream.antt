-- ===== src/World/Stream.antt =====
-- The parts of the system end to end, with the acknowledgements: internal/pipeline/classifier.go and
-- internal/queue/redis.go. The rows that the relay has published stand in the stream until a worker
-- acknowledges them. A worker's `Process` is two transactions with the classifier's call between
-- them, and each is an event of its own, so that anything may happen in between: the read, which
-- settles a message at once where there is nothing to do, and `apply`.
pub mod Settled
pub mod Safety
use sayari.Prelude.{
  ℕ, Bool, true, false, Option, none, some, List, [], ◌∷◌, Text, text_eq, get_elem?, erase_idx,
  if◌then◌else◌,
}
use sayari.Domain.{Token, Classification}
use sayari.Domain.Labels.{TokenStatus}
use sayari.Queue.{stream_extract, stream_classify}
use sayari.Store.{Db, OutboxRow}
use sayari.Store.Tx.{Error, Result, ok, err}
use sayari.Store.Tokens.{get_token}
use sayari.Pipeline.Jobs.{ClassifyJob, decode_classify}
use sayari.Pipeline.Extraction.{Conn, delivery}
use sayari.Pipeline.Classification.{apply}
use sayari.World.{World, Event, step, start}

-- Places in the stream are counted from its oldest message that is not acknowledged.
pub data StreamEvent : Type 0 where
  happens : Event → StreamEvent
  reads : Conn → ℕ → StreamEvent
  settles : Conn → ℕ → Classification → StreamEvent
  extracted : ℕ → StreamEvent

-- `handle` answers nil.
abbrev pub acks : Option Error → Bool
acks none = true
acks (some e) = false

-- `Process` ends at the read: it failed, or the token is classified.
abbrev pub read_delivery : Result Token → Bool
read_delivery (err e) = acks (delivery (err e))
read_delivery (ok t) = elim t.status [ TokenStatus.classified ↦ true | TokenStatus.pending ↦ false ]

abbrev pub acknowledge_if : Bool → ℕ → World → World
acknowledge_if b n w = if b then record w { published = erase_idx w.published n } else w

unfoldable pub read_job : Conn → ℕ → Option ClassifyJob → World → World
read_job c n none w = acknowledge_if true n w
read_job c n (some job) w =
    acknowledge_if (read_delivery (get_token c.link c.now job.token_id w.db).0) n w

unfoldable pub settle_job : Conn → ℕ → Classification → Option ClassifyJob → World → World
settle_job c n result none w = w
settle_job c n result (some job) w =
    let (r, d) = apply c.link c.now job.token_id job.run_version result w.db in
    acknowledge_if (acks (delivery r)) n (record w { db = d })

-- The message at a place, if it is one of the stream.
abbrev pub with_message : Text → Option OutboxRow → World → (OutboxRow → World) → World
with_message stream none w f = w
with_message stream (some r) w f = if text_eq r.stream stream then f r else w

unfoldable pub stream_step : World → StreamEvent → World
unfolding read_job settle_job
stream_step w (happens e) = step w e
stream_step w (reads c n) =
    with_message stream_classify (get_elem? w.published n) w
      (λ r. read_job c n (decode_classify r.payload) w)
stream_step w (settles c n result) =
    with_message stream_classify (get_elem? w.published n) w
      (λ r. settle_job c n result (decode_classify r.payload) w)
stream_step w (extracted n) =
    with_message stream_extract (get_elem? w.published n) w (λ r. acknowledge_if true n w)

unfoldable pub stream_run : World → List StreamEvent → World
unfolding stream_step
stream_run w [] = w
stream_run w (e ∷ es) = stream_run (stream_step w e) es
