-- ===== src/Llm/Outcomes.antt =====
-- internal/llm/ollama.go: the outcomes of `doWithRetry`.
use sayari.Prelude.{
  ℕ, zero, suc, ◌+◌, ◌≤◌, ◌<◌, ◌≡◌, refl, Bool, true, false, List, [], ◌∷◌, length, arith, ◌*◌, ◌-◌,
  ◌^◌, ◌==◌, ==_iff, ℤ, Bool-cases, inl, inr, pos, subst,
}
use native.Mathlib.Numerals.{unary_clauses}
use sayari.Llm.Retry.{
  Reply, Outcome, cancelled, exhausted, wrap_int64, backoff, Verdict, retry, stop, judge, conclude,
  waited, with_wait, attempts, do_with_retry, loop_count,
}

-- Up to attempt 36 the backoff fits an int64.
pow-le : (j k : ℕ) → 2 ^ k ≤ 2 ^ (j + k)
pow-le zero k = let sum : 0 + k ≡ k = omega arith in rw sum (omega arith)
pow-le (suc j) k =
    let sum : suc j + k ≡ suc (j + k) = omega arith in
    rw sum (simp unary_clauses (omega (arith, pow-le j k)))

pow-twice : (k : ℕ) → 2 * (2 ^ k * 250000000) ≡ 2 ^ suc k * 250000000
pow-twice k = simp unary_clauses (omega arith)

wrap_int64-small : (x : ℕ) → x < 9223372036854775808 → wrap_int64 x ≡ pos x
unfolding wrap_int64
wrap_int64-small x h = ground (arith, h)

backoff-exact : (k : ℕ) → k ≤ 35 → backoff (suc k) ≡ pos (2 ^ k * 250000000)
unfolding backoff
backoff-exact k h =
    let one : suc k - 1 ≡ k = omega arith in
    let top : 35 - k + k ≡ 35 = omega (arith, h) in
    let le : 2 ^ k ≤ 34359738368 = rw top at (pow-le (35 - k) k) in
    rw one (wrap_int64-small (2 ^ k * 250000000) (omega (arith, le)))

module _ (call : ℕ → Reply) (done : ℕ → Bool) where
  -- Each of the attempts from `a` on and before `b` met a failure that is retried.
  abbrev pub AllRetry : ℕ → ℕ → Type 0
  AllRetry a b = (j : ℕ) → a ≤ j → j < b → judge (call j) ≡ retry

  -- The context was not done in the waits from `a` to `b`.
  abbrev pub NoneDone : ℕ → ℕ → Type 0
  NoneDone a b = (j : ℕ) → a ≤ j → j ≤ b → done j ≡ false

  -- How `left` attempts from `a` on end, when the first wait is the one before `w`.
  pub data Ended (w a left : ℕ) (o : Outcome) : Type 0 where
    stops :
        (k : ℕ)
        → a ≤ k
        → k < a + left
        → AllRetry a k
        → NoneDone w k
        → judge (call k) ≡ stop o
        → Ended w a left o
    cut :
        (k : ℕ)
        → w ≤ k
        → k < a + left
        → AllRetry a k
        → done k ≡ true
        → o ≡ cancelled
        → Ended w a left o
    tired : AllRetry a (a + left) → o ≡ exhausted → Ended w a left o

  from_first : (P : ℕ → Type 0) (a j : ℕ) → a ≤ j → P a → (suc a ≤ j → P j) → P j
  from_first P a j h first later = elim (Bool-cases (a == j)) [
    | inl same ↦ subst P ((==_iff a j).0 same) first
    | inr other ↦ later (ground (arith, other))
  ]

  AllRetry-before : (a b : ℕ) → judge (call a) ≡ retry → AllRetry (suc a) b → AllRetry a b
  AllRetry-before a b first rest j h h' =
      from_first (λ x. judge (call x) ≡ retry) a j h first (λ later. rest j later h')

  NoneDone-before : (a b : ℕ) → done a ≡ false → NoneDone (suc a) b → NoneDone a b
  NoneDone-before a b first rest j h h' =
      from_first (λ x. done x ≡ false) a j h first (λ later. rest j later h')

  Ended-retry :
      (a left : ℕ) (o : Outcome)
      → judge (call a) ≡ retry
      → Ended (suc a) (suc a) left o
      → Ended (suc a) a (suc left) o
  Ended-retry a left o first (Ended.stops k lo hi all none e) =
      Ended.stops k (omega (arith, lo)) (omega (arith, hi)) (AllRetry-before a k first all) none e
  Ended-retry a left o first (Ended.cut k lo hi all cancels e) =
      Ended.cut k lo (omega (arith, hi)) (AllRetry-before a k first all) cancels e
  Ended-retry a left o first (Ended.tired all e) =
      Ended.tired (λ j lo hi. AllRetry-before a (suc a + left) first all j lo (omega (arith, hi))) e

  Ended-conclude :
      (a left : ℕ) (v : Verdict) (rest : Outcome × List ℤ)
      → judge (call a) ≡ v
      → Ended (suc a) (suc a) left rest.0
      → Ended (suc a) a (suc left) (conclude call done v rest).0
  unfolding conclude
  Ended-conclude a left (stop o) rest e h =
      Ended.stops a (omega arith) (omega arith) (λ j lo hi. absurd (omega (arith, lo, hi)))
        (λ j lo hi. absurd (omega (arith, lo, hi))) e
  Ended-conclude a left retry rest e h = Ended-retry a left rest.0 e h

  -- A wait before the first attempt.
  Ended-wait :
      (k left : ℕ) (r : Outcome × List ℤ)
      → Ended (suc (suc k)) (suc k) (suc left) r.0
      → Ended (suc k) (suc k) (suc left) (with_wait call done (suc k) r).0
  unfolding with_wait waited
  Ended-wait k left r h = elim (Bool-cases (done (suc k))) [
    | inl over ↦ rw over (
        Ended.cut (suc k) (omega arith) (omega arith) (λ j lo hi. absurd (omega (arith, lo, hi)))
          over refl)
    | inr goes_on ↦ rw goes_on (waits goes_on h)
  ]
    where
      waits :
          done (suc k) ≡ false
          → Ended (suc (suc k)) (suc k) (suc left) r.0
          → Ended (suc k) (suc k) (suc left) r.0
      waits goes_on (Ended.stops n lo hi all none e) =
          Ended.stops n lo hi all (NoneDone-before (suc k) n goes_on none) e
      waits goes_on (Ended.cut n lo hi all cancels e) =
          Ended.cut n (omega (arith, lo)) hi all cancels e
      waits goes_on (Ended.tired all e) = Ended.tired all e

  attempts-Ended : (left k : ℕ) → Ended (suc k) (suc k) left (attempts call done left (suc k)).0
  unfolding attempts
  attempts-Ended zero k = Ended.tired (λ j lo hi. absurd (omega (arith, lo, hi))) refl
  attempts-Ended (suc left) k =
      Ended-wait k left
        (conclude call done (judge (call (suc k))) (attempts call done left (suc (suc k))))
        (Ended-conclude (suc k) left (judge (call (suc k))) (attempts call done left (suc (suc k)))
          refl (attempts-Ended left (suc k)))

  -- `doWithRetry` with n retries ends in one of three ways: it stops at some attempt k ≤ n, whose
  -- reply decides the outcome (the body of a 200, or a status that is not retried); or the context
  -- is done in a wait between two attempts; or all of its n + 1 attempts met a failure that is
  -- retried. Each attempt before the end met such a failure, and no wait before it was cut.
  pub do_with_retry-Ended : (n : ℕ) → Ended 1 0 (suc n) (do_with_retry call done (pos n)).0
  unfolding do_with_retry loop_count with_wait
  do_with_retry-Ended n =
      Ended-conclude 0 n (judge (call 0)) (attempts call done n 1) refl (attempts-Ended n 0)

  -- Each wait is twice as long as the one before, from `x` on.
  abbrev pub Doubles : ℕ → List ℤ → Type 0
  Doubles x [] = Unit
  Doubles x (w ∷ ws) = (w ≡ pos x) × Doubles (2 * x) ws

  conclude-waits :
      (x n : ℕ) (v : Verdict) (rest : Outcome × List ℤ)
      → Doubles x rest.1 × (length rest.1 ≤ n)
      → Doubles x (conclude call done v rest).1 × (length (conclude call done v rest).1 ≤ n)
  unfolding conclude
  conclude-waits x n (stop o) rest h = (tt, omega arith)
  conclude-waits x n retry rest h = h

  attempts-waits :
      (left k : ℕ)
      → left + k ≤ 36
      → Doubles (2 ^ k * 250000000) (attempts call done left (suc k)).1
        × (length (attempts call done left (suc k)).1 ≤ left)
  unfolding attempts with_wait
  attempts-waits zero k le = (tt, omega arith)
  attempts-waits (suc left) k le =
      let next = attempts call done left (suc (suc k)) in
      let h =
        conclude-waits (2 ^ suc k * 250000000) left (judge (call (suc k))) next
          (attempts-waits left (suc k) (omega (arith, le))) in
      elim (Bool-cases (done (suc k))) [
        | inl over ↦ rw over (tt, omega arith)
        | inr goes_on ↦
            rw (goes_on, waited)
              ((backoff-exact k (omega (arith, le)), rw (pow-twice k) h.0), omega (arith, h.1))
      ]

  -- `doWithRetry` with n ≤ 36 retries waits at most n times to the end, first a quarter of a second
  -- and then each time twice as long as before.
  pub do_with_retry-waits :
      (n : ℕ)
      → n ≤ 36
      → Doubles 250000000 (do_with_retry call done (pos n)).1
        × (length (do_with_retry call done (pos n)).1 ≤ n)
  unfolding do_with_retry loop_count with_wait attempts
  do_with_retry-waits n le =
      conclude-waits 250000000 n (judge (call 0)) (attempts call done n 1)
        (attempts-waits n 0 (omega (arith, le)))
