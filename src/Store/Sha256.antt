-- ===== src/Store/Sha256.antt =====
-- crypto/sha256 and encoding/hex of the standard library, which `HashText` calls: SHA-256 over a
-- list of bytes. A word is a natural below 2 ^ 32.
use Prim.Native.Nat.{bit_and, bit_xor}
use sayari.Prelude.{
  ℕ, zero, suc, ◌+◌, ◌-◌, ◌*◌, ◌/◌, ◌%◌, ◌^◌, ◌≡◌, refl, List, [], ◌∷◌, ◌++◌, Text, codes, length,
  ltb, if◌then◌else◌,
}

abbrev word_mod : ℕ
word_mod = 0x1_0000_0000

rotate_right : ℕ → ℕ → ℕ
rotate_right x n = (x / 2 ^ n + x * 2 ^ (32 - n)) % word_mod

-- The state of the compression, a to h.
record Digest : Type 0 where
  a : ℕ
  b : ℕ
  c : ℕ
  d : ℕ
  e : ℕ
  f : ℕ
  g : ℕ
  h : ℕ

abbrev initial : Digest
initial = record {
  a = 0x6a09e667;
  b = 0xbb67ae85;
  c = 0x3c6ef372;
  d = 0xa54ff53a;
  e = 0x510e527f;
  f = 0x9b05688c;
  g = 0x1f83d9ab;
  h = 0x5be0cd19;
}

abbrev round_constants : List ℕ
round_constants =
    0x428a2f98 ∷ 0x71374491 ∷ 0xb5c0fbcf ∷ 0xe9b5dba5 ∷ 0x3956c25b ∷ 0x59f111f1 ∷ 0x923f82a4
    ∷ 0xab1c5ed5 ∷ 0xd807aa98 ∷ 0x12835b01 ∷ 0x243185be ∷ 0x550c7dc3 ∷ 0x72be5d74 ∷ 0x80deb1fe
    ∷ 0x9bdc06a7 ∷ 0xc19bf174 ∷ 0xe49b69c1 ∷ 0xefbe4786 ∷ 0x0fc19dc6 ∷ 0x240ca1cc ∷ 0x2de92c6f
    ∷ 0x4a7484aa ∷ 0x5cb0a9dc ∷ 0x76f988da ∷ 0x983e5152 ∷ 0xa831c66d ∷ 0xb00327c8 ∷ 0xbf597fc7
    ∷ 0xc6e00bf3 ∷ 0xd5a79147 ∷ 0x06ca6351 ∷ 0x14292967 ∷ 0x27b70a85 ∷ 0x2e1b2138 ∷ 0x4d2c6dfc
    ∷ 0x53380d13 ∷ 0x650a7354 ∷ 0x766a0abb ∷ 0x81c2c92e ∷ 0x92722c85 ∷ 0xa2bfe8a1 ∷ 0xa81a664b
    ∷ 0xc24b8b70 ∷ 0xc76c51a3 ∷ 0xd192e819 ∷ 0xd6990624 ∷ 0xf40e3585 ∷ 0x106aa070 ∷ 0x19a4c116
    ∷ 0x1e376c08 ∷ 0x2748774c ∷ 0x34b0bcb5 ∷ 0x391c0cb3 ∷ 0x4ed8aa4a ∷ 0x5b9cca4f ∷ 0x682e6ff3
    ∷ 0x748f82ee ∷ 0x78a5636f ∷ 0x84c87814 ∷ 0x8cc70208 ∷ 0x90befffa ∷ 0xa4506ceb ∷ 0xbef9a3f7
    ∷ 0xc67178f2 ∷ []

replicate_zero : ℕ → List ℕ
replicate_zero zero = []
replicate_zero (suc n) = 0 ∷ replicate_zero n

-- `n` as `count` bytes, most significant first.
big_endian : ℕ → ℕ → List ℕ
big_endian zero n = []
big_endian (suc count) n = big_endian count (n / 256) ++ n % 256 ∷ []

padded : Text → List ℕ
unfolding replicate_zero big_endian
padded s = s ++ (0x80 ∷ replicate_zero ((119 - length s % 64) % 64) ++ big_endian 8 (8 * length s))

words : List ℕ → List ℕ
words (w ∷ x ∷ y ∷ z ∷ rest) = (((w * 256 + x) * 256 + y) * 256 + z) ∷ words rest
words _ = []

small_sigma0 : ℕ → ℕ
unfolding rotate_right
small_sigma0 x = bit_xor (bit_xor (rotate_right x 7) (rotate_right x 18)) (x / 2 ^ 3)

small_sigma1 : ℕ → ℕ
unfolding rotate_right
small_sigma1 x = bit_xor (bit_xor (rotate_right x 17) (rotate_right x 19)) (x / 2 ^ 10)

big_sigma0 : ℕ → ℕ
unfolding rotate_right
big_sigma0 x = bit_xor (bit_xor (rotate_right x 2) (rotate_right x 13)) (rotate_right x 22)

big_sigma1 : ℕ → ℕ
unfolding rotate_right
big_sigma1 x = bit_xor (bit_xor (rotate_right x 6) (rotate_right x 11)) (rotate_right x 25)

round : Digest → ℕ → ℕ → Digest
unfolding big_sigma0 big_sigma1
round s k w =
    let choice = bit_xor (bit_and s.e s.f) (bit_and (0xffff_ffff - s.e) s.g) in
    let major = bit_xor (bit_xor (bit_and s.a s.b) (bit_and s.a s.c)) (bit_and s.b s.c) in
    let t1 = s.h + big_sigma1 s.e + choice + k + w in
    let t2 = big_sigma0 s.a + major in
    record {
      a = (t1 + t2) % word_mod;
      b = s.a;
      c = s.b;
      d = s.c;
      e = (s.d + t1) % word_mod;
      f = s.e;
      g = s.f;
      h = s.g;
    }

-- The sixteen words that the next rounds take: the first leaves, a new one comes in.
next_window : List ℕ → List ℕ
unfolding small_sigma0 small_sigma1
next_window (w0 ∷ w1 ∷ w2 ∷ w3 ∷ w4 ∷ w5 ∷ w6 ∷ w7 ∷ w8 ∷ w9 ∷ wa ∷ wb ∷ wc ∷ wd ∷ we ∷ wf ∷ rest) =
    w1
    ∷ w2
    ∷ w3
    ∷ w4
    ∷ w5
    ∷ w6
    ∷ w7
    ∷ w8
    ∷ w9
    ∷ wa
    ∷ wb
    ∷ wc
    ∷ wd
    ∷ we
    ∷ wf
    ∷ ((small_sigma1 we + w9 + small_sigma0 w1 + w0) % word_mod)
    ∷ []
next_window _ = []

head_or_zero : List ℕ → ℕ
head_or_zero [] = 0
head_or_zero (w ∷ ws) = w

rounds : List ℕ → List ℕ → Digest → Digest
unfolding round next_window head_or_zero
rounds [] window s = s
rounds (k ∷ ks) window s = rounds ks (next_window window) (round s k (head_or_zero window))

add_digests : Digest → Digest → Digest
add_digests s t = record {
  a = (s.a + t.a) % word_mod;
  b = (s.b + t.b) % word_mod;
  c = (s.c + t.c) % word_mod;
  d = (s.d + t.d) % word_mod;
  e = (s.e + t.e) % word_mod;
  f = (s.f + t.f) % word_mod;
  g = (s.g + t.g) % word_mod;
  h = (s.h + t.h) % word_mod;
}

-- The words of the message, sixteen at a time.
blocks : List ℕ → Digest → Digest
unfolding rounds add_digests
blocks (w0 ∷ w1 ∷ w2 ∷ w3 ∷ w4 ∷ w5 ∷ w6 ∷ w7 ∷ w8 ∷ w9 ∷ wa ∷ wb ∷ wc ∷ wd ∷ we ∷ wf ∷ rest) s =
    let window : List ℕ =
      w0 ∷ w1 ∷ w2 ∷ w3 ∷ w4 ∷ w5 ∷ w6 ∷ w7 ∷ w8 ∷ w9 ∷ wa ∷ wb ∷ wc ∷ wd ∷ we ∷ wf ∷ [] in
    blocks rest (add_digests s (rounds round_constants window s))
blocks _ s = s

hex_digit : ℕ → ℕ
hex_digit n = if ltb n 10 then b'0' + n else b'a' + (n - 10)

-- `n` as `count` hexadecimal digits.
hex : ℕ → ℕ → Text
unfolding hex_digit
hex zero n = []
hex (suc count) n = hex count (n / 16) ++ hex_digit (n % 16) ∷ []

digest_text : Digest → Text
unfolding hex
digest_text s =
    hex 8 s.a
    ++ (hex 8 s.b
        ++ (hex 8 s.c ++ (hex 8 s.d ++ (hex 8 s.e ++ (hex 8 s.f ++ (hex 8 s.g ++ hex 8 s.h))))))

-- `HashText`: the hexadecimal SHA-256 of a text.
unfoldable pub hash_text : Text → Text
unfolding padded words blocks digest_text
hash_text s = digest_text (blocks (words (padded s)) initial)

hash_text_abc :
    hash_text (codes "abc")
    ≡ codes "ba7816bf8f01cfea414140de5dae2223b00361a396177a9cb410ff61f20015ad"
unfolding hash_text
hash_text_abc = refl
