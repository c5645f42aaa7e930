-- ===== src/World/Lifecycle/Refined.antt =====
-- The system implements the machine of World.Lifecycle, and what that shows of every document.
use sayari.Prelude.{
  ◌≤◌, ◌<◌, ◌≡◌, refl, ◌⊎◌, inl, inr, Option, none, some, List, [], ◌∷◌, Text, arith,
}
use sayari.Relay.Keeps.{drain_batch-keeps}
use sayari.World.{World, Event, submits, claims, persists, applies, fails, drains, start, step, run}
use sayari.World.Safety.{IsSafe, step-IsSafe, run-start-IsSafe}
use sayari.World.Lifecycle.{
  Manifest, Moves, stays, submitted, reruns, resumes, starts, extracts, finds_nothing, counts,
  completes, gives_up, Lives, ends, moves, manifest,
}
use sayari.World.Lifecycle.Moved.{submit-Moves, claim-Moves, mark_failed-Moves}
use sayari.World.Lifecycle.Workers.{persist-Moves, apply-Moves}

step-Moves :
    (id : Text) (w : World) (e : Event)
    → IsSafe w
    → Moves id e (manifest id w.db) (manifest id (step w e).db)
unfolding step
step-Moves id w (submits c j text mode) s = submit-Moves id w.db c j text mode
step-Moves id w (claims c j) s = claim-Moves id w.db c j
step-Moves id w (persists c doc es) s = persist-Moves id c doc es w.db s.consistent
step-Moves id w (applies c k version result) s = apply-Moves id c k version result w.db s.consistent
step-Moves id w (fails c j) s = mark_failed-Moves id w.db c j
step-Moves id w (drains batch m) s =
    drain_batch-keeps (λ d. Moves id (drains batch m) (manifest id w.db) (manifest id d))
      (λ k d h. h) batch m w.db (stays _ _)

run-Lives :
    (id : Text) (es : List Event) (w : World)
    → IsSafe w
    → Lives id es (manifest id w.db) (manifest id (run w es).db)
unfolding run
run-Lives id [] w s = ends _
run-Lives id (e ∷ es) w s =
    moves e es _ _ _ (step-Moves id w e s) (run-Lives id es (step w e) (step-IsSafe w e s))

-- The tables refine the machine of manifests, event by event. After any events `before`, each of any
-- events `after` leaves the manifest of a document as it is, or makes the one move that this kind of
-- event has. A submission for the document creates it; in mode full it starts a new run from zero,
-- in mode partial it takes FAILED to PENDING, and else moves nothing. A claim of it takes PENDING to
-- EXTRACTING. A persist of it in its current run goes to CLASSIFYING with a positive total that is
-- no smaller, or to COMPLETED with no tokens if it had none. An apply in its current run counts one
-- more, below the total; or the last one, with COMPLETED. MarkFailed goes to FAILED. A drain of the
-- relay moves nothing.
pub run_refines :
    (before after : List Event) (id : Text)
    → Lives id after
        (manifest id (run start before).db)
        (manifest id (run (run start before) after).db)
run_refines before after id = run-Lives id after (run start before) (run-start-IsSafe before)

-- The second manifest is of a later run, or of the same run with no smaller counters.
abbrev pub IsLater : Option Manifest → Option Manifest → Type 0
IsLater none o = Unit
IsLater (some m) none = ⊥
IsLater (some m) (some n) =
    (m.run < n.run) ⊎ ((m.run ≡ n.run) × ((m.total ≤ n.total) × (m.classified ≤ n.classified)))

Moves-IsLater : (id : Text) (e : Event) (o p : Option Manifest) → Moves id e o p → IsLater o p
Moves-IsLater id e none p (stays _ _) = tt
Moves-IsLater id e (some m) p (stays _ _) = inr (refl, (omega arith, omega arith))
Moves-IsLater id e none p (submitted c j text mode here) = tt
Moves-IsLater id e (some _) p (reruns c j text m here) = inl (omega arith)
Moves-IsLater id e (some _) p (resumes c j text m here f) = inr (refl, (omega arith, omega arith))
Moves-IsLater id e (some _) p (starts c j m here f) = inr (refl, (omega arith, omega arith))
Moves-IsLater id e (some _) p (extracts c doc es m total here same le more) =
    inr (refl, (le, omega arith))
Moves-IsLater id e (some _) p (finds_nothing c doc es m here same f) =
    inr (refl, (omega (arith, f), omega arith))
Moves-IsLater id e (some _) p (counts c k r x m same lt) = inr (refl, (omega arith, omega arith))
Moves-IsLater id e (some _) p (completes c k r x m same f) = inr (refl, (omega arith, omega arith))
Moves-IsLater id e (some _) p (gives_up c j m here) = inr (refl, (omega arith, omega arith))

IsLater-then : (o p q : Option Manifest) → IsLater o p → IsLater p q → IsLater o q
IsLater-then none p q h h' = tt
IsLater-then (some m) none q h h' = absurd h
IsLater-then (some m) (some n) none h h' = h'
IsLater-then (some m) (some n) (some k) (inl lt) (inl lt') = inl (omega (arith, lt, lt'))
IsLater-then (some m) (some n) (some k) (inl lt) (inr same) = inl (omega (arith, lt, same.0))
IsLater-then (some m) (some n) (some k) (inr same) (inl lt) = inl (omega (arith, same.0, lt))
IsLater-then (some m) (some n) (some k) (inr same) (inr same') = inr (
  omega (arith, same.0, same'.0),
  (omega (arith, same.1.0, same'.1.0), omega (arith, same.1.1, same'.1.1)),
)

IsLater-refl : (o : Option Manifest) → IsLater o o
IsLater-refl none = tt
IsLater-refl (some m) = inr (refl, (omega arith, omega arith))

Lives-IsLater :
    (id : Text) (es : List Event) (o p : Option Manifest) → Lives id es o p → IsLater o p
Lives-IsLater id es o p (ends _) = IsLater-refl o
Lives-IsLater id es o q (moves e rest _ p _ h later) =
    IsLater-then o p q (Moves-IsLater id e o p h) (Lives-IsLater id rest p q later)

-- What a client polls never goes back: a document that was there stays, its run never decreases,
-- and within a run neither the total nor the counter of classified tokens decreases, whatever
-- events happen in between.
pub run-IsLater :
    (before after : List Event) (id : Text)
    → IsLater (manifest id (run start before).db) (manifest id (run (run start before) after).db)
run-IsLater before after id = Lives-IsLater id after _ _ (run_refines before after id)
