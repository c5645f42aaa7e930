-- ===== src/Coverage/Classification.antt =====
-- internal/pipeline/classifier.go: `apply` and the jobs of the tokens.
use sayari.Prelude.{
  ℕ, refl, inl, inr, Option, List, [], ◌∷◌, ◌==◌, Bool-cases, arith, if◌then◌else◌,
}
use sayari.Domain.{Token, Classification}
use sayari.Store.{Db, OutboxRow}
use sayari.Store.Tokens.{update_token, classified_row}
use sayari.System.Counts.{classified_tokens}
use sayari.System.Growth.{Grows, Grows-same}
use sayari.Pipeline.Classification.{apply}
use sayari.Pipeline.Classification.Changes.{Changed, apply-Changed}
use sayari.Coverage.{HasJob, Covered}

HasJob-classified :
    (k now : ℕ) (c : Classification) (o log : List OutboxRow) (t : Token)
    → HasJob o log t
    → HasJob o log (if t.id == k then classified_row now c t else t)
HasJob-classified k now c o log t h = elim (Bool-cases (t.id == k)) [
  | inl same ↦ rw same (λ p. absurd (ground (arith, p)))
  | inr other ↦ rw other h
]

Covered-classified :
    (k now : ℕ) (c : Classification) (o log : List OutboxRow) (ts : List Token)
    → Covered o log ts
    → Covered o log (classified_tokens k now c ts)
unfolding update_token
Covered-classified k now c o log [] h = tt
Covered-classified k now c o log (t ∷ ts) h =
    (HasJob-classified k now c o log t h.0, Covered-classified k now c o log ts h.1)

module _ (now token_id run : ℕ) (c : Classification) (d : Db) where
  Changed-Grows : (d' : Db) → Changed now token_id c d d' → Grows d d'
  Changed-Grows d' (Changed.unchanged e) = rw e (Grows-same d d refl refl)
  Changed-Grows d' (Changed.counted t doc f st own more e) = rw e (Grows-same d _ refl refl)
  Changed-Grows d' (Changed.completed t doc f st own last e) = rw e (Grows-same d _ refl refl)

  pub apply-Grows : (link : Option ℕ) → Grows d (apply link now token_id run c d).1
  apply-Grows link = Changed-Grows _ (apply-Changed now token_id run c d link)

  Changed-Covered :
      (log : List OutboxRow) (d' : Db)
      → Covered d.outbox log d.tokens
      → Changed now token_id c d d'
      → Covered d'.outbox log d'.tokens
  Changed-Covered log d' h (Changed.unchanged e) = rw e h
  Changed-Covered log d' h (Changed.counted t doc f st own more e) =
      rw e (Covered-classified token_id now c d.outbox log d.tokens h)
  Changed-Covered log d' h (Changed.completed t doc f st own last e) =
      rw e (Covered-classified token_id now c d.outbox log d.tokens h)

  pub apply-Covered :
      (log : List OutboxRow)
      → Covered d.outbox log d.tokens
      → (link : Option ℕ)
      → Covered
          (apply link now token_id run c d).1.outbox
          log
          (apply link now token_id run c d).1.tokens
  apply-Covered log h link = Changed-Covered log _ h (apply-Changed now token_id run c d link)
