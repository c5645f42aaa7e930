-- ===== src/World/Relaying/Published.antt =====
-- internal/outbox/relay.go: a tick is a list of drains, and one healthy tick publishes everything.
use sayari.Prelude.{
  ℕ, zero, suc, ◌+◌, ◌≡◌, refl, sym, ◌∙◌, ap, ◌⊎◌, inl, inr, Bool, false, Bool-cases, ltb, List, [],
  ◌∷◌, ◌++◌, append_assoc, append-nil, length, Any, Any-append_left, Any-append_right, arith,
}
use sayari.Store.{Db, OutboxRow}
use sayari.Store.Tx.{Result, ok, err}
use sayari.Relay.{Meeting, drain_batch, drain_all, after_batch}
use sayari.Relay.Drained.{drain_batch-Delivered}
use sayari.Relay.Emptied.{IsHealthy, drain_all_healthy}
use sayari.System.Growth.{Grows, Grows-Any}
use sayari.Service.Growth.{submit-Grows}
use sayari.Pipeline.Extraction.Growth.{claim-Grows, persist-Grows}
use sayari.Coverage.Classification.{apply-Grows}
use sayari.World.{World, Event, submits, claims, persists, applies, fails, drains, start, step, run}
use sayari.World.Safety.{IsSafe, mark_failed-rest, step-IsSafe, run-IsSafe, run-start-IsSafe}
use sayari.World.Relaying.{Tick, relay_batch, after_drain, drain, relay_run}

run-append : (xs ys : List Event) (w : World) → run w (xs ++ ys) ≡ run (run w xs) ys
unfolding run
run-append [] ys w = refl
run-append (x ∷ xs) ys w = run-append xs ys (step w x)

-- The world after one batch.
abbrev after_one : World → (Result ℕ × Db) × List OutboxRow → World
after_one w r = record { db = r.0.1; published = w.published ++ r.1 }

-- A batch, and the rounds after it if there are any.
batch-run :
    (w : World) (again : Db → Db × List OutboxRow) (batch : ℕ) (c : Bool)
    (r : (Result ℕ × Db) × List OutboxRow)
    → ((es : List Event) × (run (after_one w r) es ≡ after_drain (after_one w r) (again r.0.1)))
    → (es : List Event) × (run (after_one w r) es ≡ after_drain w (after_batch again batch c r))
unfolding run
batch-run w again batch c ((err e, d), log) later = ([], refl)
batch-run w again batch c ((ok n, d), log) (es, later) = elim (Bool-cases (ltb n batch)) [
  | inl short ↦ ([], rw short refl)
  | inr full ↦ elim (Bool-cases c) [
    | inl stops ↦ ([], rw (full, stops) refl)
    | inr goes_on ↦ (
      es,
      rw (full, goes_on)
          (later
            ∙ ap (λ rows. record { db = (again d).0; published = rows })
                (append_assoc w.published log (again d).1)),
    )
  ]
]

-- The drains of one tick are events.
drain_all-run :
    (fuel batch : ℕ) (meet : ℕ → Meeting) (cancelled : ℕ → Bool) (i : ℕ) (w : World)
    → (es : List Event) × (run w es ≡ after_drain w (drain_all fuel batch meet cancelled i w.db))
unfolding run drain_all step
drain_all-run zero batch meet cancelled i w =
    ([], ap (λ log. record w { published = log }) (sym (append-nil w.published)))
drain_all-run (suc fuel) batch meet cancelled i w =
    let r = drain_batch batch (meet i) w.db in
    let later =
      batch-run w (drain_all fuel batch meet cancelled (i + 1)) batch (cancelled i) r
        (drain_all-run fuel batch meet cancelled (i + 1) (after_one w r)) in
    (drains batch (meet i) ∷ later.0, later.1)

-- `Run` is a list of events.
relay_run-run : (ts : List Tick) (w : World) → (es : List Event) × (run w es ≡ relay_run ts w)
unfolding relay_run run drain
relay_run-run [] w = ([], refl)
relay_run-run (t ∷ ts) w =
    let w' = run w t.between in
    let tick = drain_all-run (suc (length w'.db.outbox)) relay_batch t.meet t.cancelled 0 w' in
    let rest = relay_run-run ts (drain t w') in
    (
      t.between ++ (tick.0 ++ rest.0),
      run-append t.between (tick.0 ++ rest.0) w
          ∙ (run-append tick.0 rest.0 w' ∙ (ap (λ x. run x rest.0) tick.1 ∙ rest.1)),
    )

module _ (P : OutboxRow → Type 0) where
  -- A message waits in the outbox, or has been published.
  abbrev pub Reached : World → Type 0
  Reached w = Any P w.db.outbox ⊎ Any P w.published

  Reached-grow : (d' : Db) (w : World) → Grows w.db d' → Reached w → Reached (record w { db = d' })
  Reached-grow d' w g (inl waits) = inl (Grows-Any P g waits)
  Reached-grow d' w g (inr sent) = inr sent

  Reached-step : (w : World) (e : Event) → IsSafe w → Reached w → Reached (step w e)
  unfolding step
  Reached-step w (submits c id text mode) s h =
      Reached-grow _ w (submit-Grows c.now id text w.db c.link mode) h
  Reached-step w (claims c id) s h = Reached-grow _ w (claim-Grows c.now id w.db c.link) h
  Reached-step w (persists c doc es) s h =
      Reached-grow _ w (persist-Grows c.now doc es w.db c.link) h
  Reached-step w (applies c k r result) s h =
      Reached-grow _ w (apply-Grows c.now k r result w.db c.link) h
  Reached-step w (fails c id) s h = rw (mark_failed-rest w.db c.now id c.link).0 h
  Reached-step w (drains batch m) s (inr sent) = inr (Any-append_left P w.published _ sent)
  Reached-step w (drains batch m) s (inl waits) =
      elim (drain_batch-Delivered P batch m w.db s.rows waits) [
        | inl still ↦ inl still
        | inr sent ↦ inr (Any-append_right P w.published _ sent)
      ]

  Reached-run : (es : List Event) (w : World) → IsSafe w → Reached w → Reached (run w es)
  unfolding run
  Reached-run [] w s h = h
  Reached-run (e ∷ es) w s h = Reached-run es (step w e) (step-IsSafe w e s) (Reached-step w e s h)

  -- Nothing fails in the rounds of the tick, and its context is not done.
  abbrev pub IsCalm : Tick → Type 0
  IsCalm t = ((k : ℕ) → IsHealthy (t.meet k)) × ((k : ℕ) → t.cancelled k ≡ false)

  drain-publishes :
      (t : Tick) (w : World)
      → IsCalm t
      → IsSafe w
      → Reached w
      → ((drain t w).db.outbox ≡ []) × Any P (drain t w).published
  unfolding drain
  drain-publishes t w calm s h =
      let all =
        drain_all_healthy (suc (length w.db.outbox)) relay_batch 0 w.db.next_outbox t.meet
          t.cancelled w.db calm.0 calm.1 (omega arith) s.rows (omega arith) in
      rw all (
        refl,
        elim h [
          | inl waits ↦ Any-append_right P w.published w.db.outbox waits
          | inr sent ↦ Any-append_left P w.published w.db.outbox sent
        ],
      )

  relay_run-last :
      (ts : List Tick) (last : Tick) (w : World)
      → relay_run (ts ++ last ∷ []) w ≡ drain last (run (relay_run ts w) last.between)
  unfolding relay_run
  relay_run-last [] last w = refl
  relay_run-last (t ∷ ts) last w = relay_run-last ts last (drain t (run w t.between))

  -- Whatever events came before, a message that is then in the outbox (a row with any property) is
  -- published by `Run` by the end of the first tick in whose rounds nothing fails and whose context
  -- is not done; in all the ticks before it anything may fail, and before each tick any events may
  -- happen. After that tick the outbox is empty.
  pub relay_publishes :
      (before : List Event) (ts : List Tick) (last : Tick)
      → IsCalm last
      → Any P (run start before).db.outbox
      → ((relay_run (ts ++ last ∷ []) (run start before)).db.outbox ≡ [])
        × Any P (relay_run (ts ++ last ∷ []) (run start before)).published
  relay_publishes before ts last calm waits =
      let w = run start before in
      let earlier = relay_run-run ts w in
      let w' = run (run w earlier.0) last.between in
      let s' =
        run-IsSafe (run w earlier.0) last.between
          (run-IsSafe w earlier.0 (run-start-IsSafe before)) in
      let h' =
        Reached-run last.between (run w earlier.0)
          (run-IsSafe w earlier.0 (run-start-IsSafe before))
          (Reached-run earlier.0 w (run-start-IsSafe before) (inl waits)) in
      rw (relay_run-last ts last w, sym earlier.1) (drain-publishes last w' calm s' h')
