-- ===== src/Llm/Ollama/Classified.antt =====
-- internal/llm/ollama.go: the ends of `Classify`, and what they depend on.
use sayari.Prelude.{
  ◌⊎◌, ℕ, suc, ◌≤◌, ◌≡◌, refl, Bool, true, Option, none, some, Text, leb, ◌==◌, ==_iff, ◌||◌,
  Bool-cases, inl, inr, pos, arith,
}
use sayari.Domain.{Token, Classification, Float}
use sayari.Domain.Labels.{category_valid}
use sayari.Llm.Answers.{answer_category-valid}
use sayari.Llm.Retry.{
  Reply, status, no_reply, Outcome, answer, refused, cancelled, exhausted, judge, stop,
}
use sayari.Llm.Outcomes.{AllRetry, Ended, do_with_retry-Ended}
use sayari.Llm.Reading.{Json, ChatMessage, ModelAnswer, one_bits, clamp, read_response, read_answer}
use sayari.Llm.Ollama.{
  OllamaClassifier, HttpRequest, post, chat_request, Result, classified, call_failed,
  undecodable_response, undecodable_answer, after_answer, after_response, after_call, classify,
}

clamp_bounds : (x : Float) → clamp x ≤ one_bits
unfolding clamp
clamp_bounds x = ground arith

-- What stops the attempts is a 200, or a status that is not retried.
judge-stop :
    (r : Reply) (o : Outcome)
    → judge r ≡ stop o
    → ((raw : Text) × ((r ≡ status 200 raw) × (o ≡ answer raw)))
      ⊎ ((code : ℕ) × ((body : Text) × ((r ≡ status code body) × (o ≡ refused code body))))
unfolding judge
judge-stop no_reply o h = cc
judge-stop (status code body) o h = elim (Bool-cases (code == 200)) [
  | inl ok ↦
      let same : code ≡ 200 = (==_iff code 200).0 ok in
      let here : stop (answer body) ≡ stop o = rw ok at h in inl (body, (rw same, cc))
  | inr other ↦ elim (Bool-cases (code == 429 || leb 500 code)) [
    | inl again ↦ absurd (ground (arith, rw (other, again) at h))
    | inr refusal ↦
        (let here : stop (refused code body) ≡ stop o = rw (other, refusal) at h in
          inr (code, (body, (refl, cc))))
  ]
]

module _ (lex : Text → Option Json) (to_upper quote : Text → Text)
    (server : ℕ → HttpRequest → Reply) (done : ℕ → Bool) (o : OllamaClassifier) (tok : Token) where
  -- What attempt `k` meets: each sends the same request.
  abbrev pub replies : ℕ → Reply
  replies k = server k (post o (chat_request quote o tok))

  -- How `Classify` ends with at most `n` retries.
  pub data ClassifyEnd (n : ℕ) (r : Result) : Type 0 where
    sound :
        (k : ℕ) (raw : Text) (c : Classification)
        → k ≤ n
        → AllRetry replies done 0 k
        → replies k ≡ status 200 raw
        → category_valid c.category ≡ true
        → c.confidence ≤ one_bits
        → r ≡ classified c
        → ClassifyEnd n r
    unreadable :
        (k : ℕ) (raw : Text)
        → k ≤ n
        → AllRetry replies done 0 k
        → replies k ≡ status 200 raw
        → (r ≡ undecodable_response) ⊎ ((content : Text) × (r ≡ undecodable_answer content))
        → ClassifyEnd n r
    refuses :
        (k code : ℕ) (body : Text)
        → k ≤ n
        → AllRetry replies done 0 k
        → replies k ≡ status code body
        → r ≡ call_failed (refused code body)
        → ClassifyEnd n r
    stopped :
        (k : ℕ)
        → 1 ≤ k
        → k ≤ n
        → AllRetry replies done 0 k
        → done k ≡ true
        → r ≡ call_failed cancelled
        → ClassifyEnd n r
    tired : AllRetry replies done 0 (suc n) → r ≡ call_failed exhausted → ClassifyEnd n r

  module _ (n k : ℕ) (raw : Text) (le : k ≤ n) (all : AllRetry replies done 0 k)
      (here : replies k ≡ status 200 raw) where
    answered :
        (content : Text) (a : Option ModelAnswer)
        → ClassifyEnd n (after_answer lex to_upper content a)
    unfolding after_answer
    answered content none = unreadable k raw le all here (inr (content, refl))
    answered content (some parsed) =
        sound k raw _ le all here (answer_category-valid to_upper parsed.category).0
          (clamp_bounds parsed.confidence) refl

    responded : (m : Option ChatMessage) → ClassifyEnd n (after_response lex to_upper m)
    unfolding after_response
    responded none = unreadable k raw le all here (inl refl)
    responded (some m) = answered m.content (read_answer (lex m.content))

  stopped-End :
      (n k : ℕ) (out : Outcome)
      → k ≤ n
      → AllRetry replies done 0 k
      → judge (replies k) ≡ stop out
      → ClassifyEnd n (after_call lex to_upper out)
  unfolding after_call
  stopped-End n k out le all e = elim (judge-stop (replies k) out e) [
    | inl (raw, (here, same)) ↦ rw same (responded n k raw le all here (read_response (lex raw)))
    | inr (code, (body, (here, same))) ↦ rw same (refuses k code body le all here refl)
  ]

  Ended-End :
      (n : ℕ) (out : Outcome)
      → Ended replies done 1 0 (suc n) out
      → ClassifyEnd n (after_call lex to_upper out)
  unfolding after_call
  Ended-End n out (Ended.stops k lo hi all none_done e) =
      stopped-End n k out (omega (arith, hi)) all e
  Ended-End n out (Ended.cut k lo hi all over e) =
      rw e (stopped k lo (omega (arith, hi)) all over refl)
  Ended-End n out (Ended.tired all e) = rw e (tired (λ j lo hi. all j lo (omega (arith, hi))) refl)

  -- `Classify` with n retries ends in one of five ways, whatever the server, the lexer and `%q` do.
  -- Each attempt before the end met a failure that is retried. A classification is answered only
  -- after a 200 at some attempt k ≤ n; its category is one of the five and its confidence is a
  -- number from 0 to 1. Else it is an error: that reply cannot be read; or the server refused; or the
  -- context was done in a wait; or all n + 1 attempts met a failure that is retried.
  pub classify-ClassifyEnd :
      (n : ℕ)
      → o.max_retries ≡ pos n
      → ClassifyEnd n (classify lex to_upper quote server done o tok)
  unfolding classify
  classify-ClassifyEnd n e = simp e (Ended-End n _ (do_with_retry-Ended replies done n))
