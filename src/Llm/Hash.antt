-- ===== src/Llm/Hash.antt =====
-- hash/fnv's New32a, which internal/llm/mock.go derives a confidence from.
use sayari.Prelude.{ℕ, ◌*◌, ◌%◌, ◌^◌, [], ◌∷◌, Text}
use Prim.Native.Nat.{bit_xor}

fnv_step : ℕ → Text → ℕ
fnv_step h [] = h
fnv_step h (c ∷ s) = fnv_step (bit_xor h c * 16777619 % 2 ^ 32) s

unfoldable pub fnv32a : Text → ℕ
unfolding fnv_step
fnv32a s = fnv_step 2166136261 s
