-- ===== src/Llm/Retry.antt =====
-- internal/llm/ollama.go: `doWithRetry`. What attempt `k` meets is a parameter, as is whether the
-- context is done while the wait before it lasts. The waits are nanoseconds.
use sayari.Prelude.{
  ℕ, zero, suc, ◌-◌, ◌*◌, ◌^◌, ◌%◌, ltb, ◌==◌, Bool, ◌||◌, List, [], ◌∷◌, Text, leb, if◌then◌else◌,
  ℤ, pos, negsuc,
}

-- `do`: an error of the transport, or a status with its body.
pub data Reply : Type 0 where
  no_reply : Reply
  status : ℕ → Text → Reply

pub data Outcome : Type 0 where
  answer : Text → Outcome
  refused : ℕ → Text → Outcome
  cancelled exhausted : Outcome

-- What the switch makes of a reply.
pub data Verdict : Type 0 where
  retry : Verdict
  stop : Outcome → Verdict

unfoldable pub judge : Reply → Verdict
judge no_reply = retry
judge (status code body) =
    if code == 200
    then stop (answer body)
    else if code == 429 || leb 500 code
    then retry
    else stop (refused code body)

-- The int64 with the low bits of a number.
unfoldable pub wrap_int64 : ℕ → ℤ
wrap_int64 x =
    let low = x % 2 ^ 64 in if ltb low (2 ^ 63) then pos low else negsuc (2 ^ 64 - 1 - low)

-- `time.Duration(math.Pow(2, float64(attempt-1))) * 250 * time.Millisecond`, in int64. From attempt
-- 64 on the float64 is too large, and its conversion is up to the machine; there this is the 0 that
-- amd64 gives.
unfoldable pub backoff : ℕ → ℤ
unfolding wrap_int64
backoff attempt = wrap_int64 (2 ^ (attempt - 1) * 250000000)

module _ (call : ℕ → Reply) (done : ℕ → Bool) where
  unfoldable pub conclude : Verdict → Outcome × List ℤ → Outcome × List ℤ
  conclude (stop o) rest = (o, [])
  conclude retry rest = rest

  unfoldable pub waited : ℕ → Outcome × List ℤ → Outcome × List ℤ
  waited attempt (o, waits) = (o, backoff attempt ∷ waits)

  -- The wait before an attempt that is not the first.
  unfoldable pub with_wait : ℕ → Outcome × List ℤ → Outcome × List ℤ
  unfolding waited
  with_wait zero r = r
  with_wait (suc k) r = if done (suc k) then (cancelled, []) else waited (suc k) r

  -- The loop from `attempt` on, with `left` attempts to go: the outcome and the waits.
  unfoldable pub attempts : ℕ → ℕ → Outcome × List ℤ
  unfolding conclude with_wait
  attempts zero attempt = (exhausted, [])
  attempts (suc left) attempt =
      let rest = attempts left (suc attempt) in
      with_wait attempt (conclude (judge (call attempt)) rest)

  unfoldable pub loop_count : ℤ → ℕ
  loop_count (pos n) = suc n
  loop_count (negsuc n) = 0

  -- `doWithRetry` with `max_retries`.
  unfoldable pub do_with_retry : ℤ → Outcome × List ℤ
  unfolding attempts loop_count
  do_with_retry max_retries = attempts (loop_count max_retries) 0
