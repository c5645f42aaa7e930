-- ===== src/Store/Real.antt =====
-- The REAL columns of internal/store: a float64 that is written as float32 and read back, on bit
-- patterns.
use sayari.Prelude.{
  ℕ, ◌+◌, ◌-◌, ◌*◌, ◌/◌, ◌%◌, ◌^◌, ◌≤◌, ◌&&◌, ◌||◌, ◌==◌, ltb, leb, if◌then◌else◌, inl, inr,
  Bool-cases, arith,
}
use native.Mathlib.Nat.{div-mul-le_self, pow-le-pow_right}
use sayari.Domain.{Float}

-- The nearest multiple of `unit`, and of two nearest the even one.
unfoldable round_at : ℕ → ℕ → ℕ
round_at unit x =
    let q = x / unit in
    let r = x % unit in
    if ltb unit (2 * r) || (2 * r == unit && q % 2 == 1) then (q + 1) * unit else q * unit

-- From 2^128 on a float32 is infinite.
unfoldable cap : ℕ → ℕ
cap m = if leb (1151 * 2 ^ 52) m then 2047 * 2 ^ 52 else m

-- The smallest floats32, 2^-149 and 2^-148, and 0.
unfoldable tiny : ℕ → ℕ
tiny m =
    if leb (874 * 2 ^ 52 + 2 ^ 51) m
    then 875 * 2 ^ 52
    else if ltb (873 * 2 ^ 52) m
    then 874 * 2 ^ 52
    else 0

-- A magnitude by its exponent: a float32 keeps 23 bits of the 52, and fewer below 2^-126. NaNs are
-- not told apart.
unfoldable real_magnitude : ℕ → ℕ
unfolding round_at cap tiny
real_magnitude m =
    if ltb (2047 * 2 ^ 52) m
    then 2047 * 2 ^ 52 + 2 ^ 51
    else if leb 897 (m / 2 ^ 52)
    then cap (round_at (2 ^ 29) m)
    else if leb 875 (m / 2 ^ 52)
    then round_at (2 ^ (926 - m / 2 ^ 52)) m
    else tiny m

unfoldable pub to_real : Float → Float
unfolding real_magnitude
to_real x = if ltb x (2 ^ 63) then real_magnitude x else 2 ^ 63 + real_magnitude (x - 2 ^ 63)

round_at-le_add : (unit x : ℕ) → round_at unit x ≤ x + unit
unfolding round_at
round_at-le_add unit x =
    let down : x / unit * unit ≤ x = div-mul-le_self x unit in
    elim (Bool-cases (ltb unit (2 * (x % unit)) || (2 * (x % unit) == unit && x / unit % 2 == 1))) [
      | inl up ↦ rw up (omega (arith, down))
      | inr stays ↦ rw stays (omega (arith, down))
    ]

-- A multiple of the unit is an upper bound of what is below it.
round_at-le_normal : (x : ℕ) → x ≤ 4607182418800017408 → round_at (2 ^ 29) x ≤ 4607182418800017408
unfolding round_at
round_at-le_normal x h = ground (arith, h)

unit-le : (e : ℕ) → 875 ≤ e → 2 ^ (926 - e) ≤ 2251799813685248
unit-le e h = pow-le-pow_right {n = 2} (omega arith) {i = 926 - e} {j = 51} (omega (arith, h))

real_magnitude-le_one : (x : ℕ) → x ≤ 4607182418800017408 → real_magnitude x ≤ 4607182418800017408
unfolding real_magnitude cap tiny
real_magnitude-le_one x h = elim (Bool-cases (leb 897 (x / 2 ^ 52))) [
  | inl normal ↦ ground (arith, h, normal, round_at-le_normal x h)
  | inr small ↦ elim (Bool-cases (leb 875 (x / 2 ^ 52))) [
    | inl some_bits ↦ ground (
      arith,
      h,
      small,
      some_bits,
      unit-le (x / 2 ^ 52) (ground (arith, some_bits)),
      round_at-le_add (2 ^ (926 - x / 2 ^ 52)) x,
    )
    | inr none_left ↦ ground (arith, h, small, none_left)
  ]
]

-- What is at most 1 stays so.
pub to_real-le_one : (x : Float) → x ≤ 4607182418800017408 → to_real x ≤ 4607182418800017408
unfolding to_real
to_real-le_one x h = ground (arith, h, real_magnitude-le_one x h)
