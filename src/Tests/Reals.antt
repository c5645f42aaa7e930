-- ===== src/Tests/Reals.antt =====
-- The REAL columns at concrete numbers.
use sayari.Prelude.{◌≡◌, refl, List, [], ◌∷◌, map}
use sayari.Domain.{Float}
use sayari.Store.Real.{to_real}

-- 0.40, 0.99, 0.25, 2^-149, 2^-150, 3 * 2^-150, 1e-40, -0.8 and 1e300.
abbrev floats : List Float
floats =
    4600877379321698714 ∷ 4607092346807469998 ∷ 4598175219545276416 ∷ 3936146074321813504
    ∷ 3931642474694443008 ∷ 3938397874135498752 ∷ 4008604054463141788 ∷ 13828753015803845018
    ∷ 9094988921128908188 ∷ []

rounded :
    map to_real floats
    ≡ 4600877379429072896 ∷ 4607092346893369344 ∷ 4598175219545276416 ∷ 3936146074321813504 ∷ 0
      ∷ 3940649673949184000 ∷ 4008604028031205376 ∷ 13828753015911219200 ∷ 9218868437227405312 ∷ []
unfolding to_real
rounded = refl
