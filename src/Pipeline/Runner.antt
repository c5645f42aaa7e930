-- ===== src/Pipeline/Runner.antt =====
-- internal/pipeline/runner.go: the consumers of a worker. What the broker's `Consume` answers to a
-- consumer is a parameter; so is the error group, of golang.org/x/sync/errgroup.
pub mod Digits
pub mod Consumers
use sayari.Prelude.{
  ℕ, zero, suc, Option, none, some, List, [], ◌∷◌, ◌++◌, map, Text, codes, ℤ, pos, negsuc,
}
use sayari.Store.Tx.{Error}
use sayari.Queue.{stream_extract, stream_classify, group_extract, group_classify}
use sayari.Pipeline.Jobs.{format_int}

-- The handler, the broker and the log are in `consume`.
pub record Worker : Type 0 where
  pub stream : Text
  pub group : Text
  pub concurrency : ℤ

-- `consumer %s: %w`.
pub record RunError : Type 0 where
  pub consumer : Text
  pub cause : Error

unfoldable pub host_name : Text → Text
host_name [] = codes "worker"
host_name (c ∷ s) = c ∷ s

-- `fmt.Sprintf("%s-%s-%d", host, w.group, i)`.
unfoldable pub consumer_name : Text → Text → ℕ → Text
consumer_name host group i = host ++ (codes "-" ++ (group ++ (codes "-" ++ format_int i)))

-- The names from the `i`-th consumer on.
unfoldable pub names_from : Text → Text → ℕ → ℕ → List Text
names_from host group i zero = []
names_from host group i (suc left) = consumer_name host group i ∷ names_from host group (suc i) left

unfoldable pub consumer_count : ℤ → ℕ
consumer_count (pos n) = n
consumer_count (negsuc n) = 0

unfoldable pub consumer_names : Text → Worker → List Text
unfolding names_from host_name consumer_count
consumer_names hostname w = names_from (host_name hostname) w.group 0 (consumer_count w.concurrency)

-- What the goroutine of a consumer returns.
unfoldable pub wrapped : Text → Option Error → Option RunError
wrapped name none = none
wrapped name (some e) = some (record { consumer = name; cause = e })

-- `worker.run`: the group waits for all of its goroutines. `consume` has the stream and the group.
unfoldable pub run :
    (List (Option RunError) → Option RunError)
    → (Text → Text → Text → Option Error)
    → Text
    → Worker
    → Option RunError
unfolding consumer_names wrapped
run wait consume hostname w =
    wait (map (λ name. wrapped name (consume w.stream w.group name)) (consumer_names hostname w))

-- `ExtractionWorker.Run` and `ClassificationWorker.Run`, by the concurrency.
unfoldable pub extraction_worker : ℤ → Worker
extraction_worker n = record { stream = stream_extract; group = group_extract; concurrency = n }

unfoldable pub classification_worker : ℤ → Worker
classification_worker n = record {
  stream = stream_classify;
  group = group_classify;
  concurrency = n;
}
