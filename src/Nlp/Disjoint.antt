-- ===== src/Nlp/Disjoint.antt =====
-- internal/nlp/mock.go: the spans of a sentence, and whether they overlap.
use sayari.Prelude.{
  ℕ, ◌≤◌, ◌≡◌, ◌⊎◌, inl, inr, false, List, [], ◌∷◌, ◌++◌, Text, All, All-append, arith, Bool-cases,
}
use sayari.Strings.{trim_space, trim_dots}
use sayari.Nlp.{Rule, Span, overlaps, occupied, add_span, try_match, try_matches, find_spans}
use sayari.Nlp.Sentences.{slice}

abbrev pub Apart : Span → Span → Type 0
Apart a b = (a.stop ≤ b.start) ⊎ (b.stop ≤ a.start)

-- No two of the spans share a byte.
abbrev pub AllApart : List Span → Type 0
AllApart [] = Unit
AllApart (sp ∷ spans) = All (Apart sp) spans × AllApart spans

overlaps-Apart : (sp new : Span) → overlaps new.start new.stop sp ≡ false → Apart sp new
overlaps-Apart sp new h = ground arith

occupied-All :
    (spans : List Span) (new : Span)
    → occupied spans new.start new.stop ≡ false
    → All (λ sp. Apart sp new) spans
unfolding occupied
occupied-All [] new h = tt
occupied-All (sp ∷ spans) new h = elim (Bool-cases (overlaps new.start new.stop sp)) [
  | inl hit ↦ absurd (ground (arith, hit, h))
  | inr miss ↦ (overlaps-Apart sp new miss, occupied-All spans new (ground (arith, miss, h)))
]

AllApart-snoc :
    (spans : List Span) (new : Span)
    → AllApart spans
    → All (λ sp. Apart sp new) spans
    → AllApart (spans ++ new ∷ [])
AllApart-snoc [] new h g = (tt, tt)
AllApart-snoc (sp ∷ spans) new h g =
    (All-append (Apart sp) spans (new ∷ []) h.0 (g.0, tt), AllApart-snoc spans new h.1 g.1)

add_span-AllApart :
    (r : Rule) (s : Text) (start stop : ℕ) (spans : List Span)
    → occupied spans start stop ≡ false
    → AllApart spans
    → AllApart (add_span r s start stop spans)
unfolding add_span
add_span-AllApart r [] start stop spans free h = h
add_span-AllApart r (c ∷ s) start stop spans free h =
    let new : Span = record { start = start; stop = stop; text = c ∷ s } in
    ground (arith, h, AllApart-snoc spans new h (occupied-All spans new free))

try_match-AllApart :
    (r : Rule) (s : Text) (m : ℕ × ℕ) (spans : List Span)
    → AllApart spans
    → AllApart (try_match r s m spans)
unfolding try_match
try_match-AllApart r s (start, stop) spans h = elim (Bool-cases (occupied spans start stop)) [
  | inl taken ↦ rw taken h
  | inr free ↦
      rw free
        (add_span-AllApart r (trim_dots (trim_space (slice start stop s))) start stop spans free h)
]

try_matches-AllApart :
    (r : Rule) (s : Text) (ms : List (ℕ × ℕ)) (spans : List Span)
    → AllApart spans
    → AllApart (try_matches r s ms spans)
unfolding try_matches
try_matches-AllApart r s [] spans h = h
try_matches-AllApart r s (m ∷ ms) spans h =
    try_matches-AllApart r s ms (try_match r s m spans) (try_match-AllApart r s m spans h)

-- Whatever the patterns match, the spans that the rules leave of a sentence do not overlap, if
-- those before them do not.
pub find_spans-AllApart :
    (rules : List Rule) (s : Text) (spans : List Span)
    → AllApart spans
    → AllApart (find_spans rules s spans)
unfolding find_spans
find_spans-AllApart [] s spans h = h
find_spans-AllApart (r ∷ rs) s spans h =
    find_spans-AllApart rs s (try_matches r s (r.find_all s) spans)
      (try_matches-AllApart r s (r.find_all s) spans h)
