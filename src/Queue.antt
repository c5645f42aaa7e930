-- ===== src/Queue.antt =====
-- internal/queue/queue.go: the names of the streams and the message. A handler answers `none` for
-- nil, which acknowledges the message, or the error, which leaves it pending.
pub mod Consumer
pub mod AtLeastOnce
use sayari.Prelude.{Text, codes}
use sayari.Json.{Payload}

abbrev pub stream_extract : Text
stream_extract = codes "pipeline:extract"

abbrev pub stream_classify : Text
stream_classify = codes "pipeline:classify"

abbrev pub group_extract : Text
group_extract = codes "extractors"

abbrev pub group_classify : Text
group_classify = codes "classifiers"

pub record Message : Type 0 where
  pub key : Text
  pub payload : Payload
