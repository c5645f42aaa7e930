-- ===== src/World/Traced/Sound.antt =====
-- internal/llm/ollama.go: the answers of `Classify` in the token table.
use sayari.Prelude.{
  ℕ, ◌≤◌, ◌≡◌, inl, inr, Bool, true, Option, some, List, [], ◌∷◌, Text, All, Any, pos,
}
use sayari.Domain.{Token, Classification}
use sayari.Domain.Labels.{TokenStatus, category_valid}
use sayari.Llm.Retry.{Reply}
use sayari.Llm.Reading.{Json, one_bits}
use sayari.Llm.Ollama.{OllamaClassifier, HttpRequest, Result, classified, classify}
use sayari.Llm.Ollama.Classified.{ClassifyEnd, classify-ClassifyEnd}
use sayari.Store.Real.{to_real, to_real-le_one}
use sayari.Store.Tokens.{find_token}
use sayari.World.{start, Event, applies, run}
use sayari.World.Traced.{AnsweredBy, run_answers}

abbrev IsSound : Classification → Type 0
IsSound c = (category_valid c.category ≡ true) × (c.confidence ≤ one_bits)

-- The token shows a sound answer.
abbrev pub ShowsSound : Token → Type 0
ShowsSound t =
    (c : Classification) × ((t.classification ≡ some c.category)
      × (t.confidence ≡ some c.confidence)
      × IsSound c)

module _ (lex : Text → Option Json) (to_upper quote : Text → Text) (o : OllamaClassifier) where
  -- What the event applies is the answer of a call of `Classify`, with any server and any context.
  unfoldable pub FromModel : Event → Type 0
  FromModel (applies c k run result) =
      (server : ℕ → HttpRequest → Reply) × ((done : ℕ → Bool) × ((tok : Token) × (classify lex
              to_upper quote server done o tok
            ≡ classified result)))
  FromModel e = Unit

  module _ (n : ℕ) (retries : o.max_retries ≡ pos n) where
    ClassifyEnd-IsSound :
        (server : ℕ → HttpRequest → Reply) (done : ℕ → Bool) (tok : Token) (r : Result)
        (c : Classification)
        → ClassifyEnd lex to_upper quote server done o tok n r
        → r ≡ classified c
        → IsSound c
    ClassifyEnd-IsSound server done tok r c (ClassifyEnd.sound k raw a le all here valid low e) h =
        let same : a ≡ c = cc in rw (← same) (valid, low)
    ClassifyEnd-IsSound server done tok r c (ClassifyEnd.unreadable k raw le all here (inl e)) h =
        cc
    ClassifyEnd-IsSound server done tok r c
          (ClassifyEnd.unreadable k raw le all here (inr (content, e))) h =
        cc
    ClassifyEnd-IsSound server done tok r c (ClassifyEnd.refuses k code body le all here e) h = cc
    ClassifyEnd-IsSound server done tok r c (ClassifyEnd.stopped k lo hi all over e) h = cc
    ClassifyEnd-IsSound server done tok r c (ClassifyEnd.tired all e) h = cc

    answer-ShowsSound : (t : Token) (e : Event) → AnsweredBy t e → FromModel e → ShowsSound t
    unfolding AnsweredBy FromModel
    answer-ShowsSound t (applies c k version result) a (server, (done, (tok, e))) =
        let sound =
          ClassifyEnd-IsSound server done tok _ result
            (classify-ClassifyEnd lex to_upper quote server done o tok n retries) e in
        (
          record result { confidence = to_real result.confidence },
          (a.2, a.3, (sound.0, to_real-le_one result.confidence sound.1)),
        )
    answer-ShowsSound t e a m = absurd a

    answers-ShowsSound :
        (t : Token) (es : List Event) → Any (AnsweredBy t) es → All FromModel es → ShowsSound t
    answers-ShowsSound t [] a m = absurd a
    answers-ShowsSound t (e ∷ es) (inl a) m = answer-ShowsSound t e a m.0
    answers-ShowsSound t (e ∷ es) (inr later) m = answers-ShowsSound t es later m.1

    -- After any events whose applied results are answers of `Classify`, whatever the model replied,
    -- each token that is classified shows one of the five categories and a confidence from 0 to 1.
    pub run_sound :
        (es : List Event) (k : ℕ) (t : Token)
        → All FromModel es
        → find_token k (run start es).db.tokens ≡ some t
        → t.status ≡ TokenStatus.classified
        → ShowsSound t
    run_sound es k t models found done =
        answers-ShowsSound t es (run_answers es k t found done) models
