-- ===== src/Prelude/Lists.antt =====
-- Lists measured by native numbers, selection and counting by a Boolean test.
use Prim.Native.Nat.{ℕ, zero, suc, ◌+◌}
use mathlib.Core.Path.{◌≡◌, refl, subst}
use mathlib.Core.Option.{Option, none, some}
use mathlib.Core.Logic.{◌⊎◌, inl, inr}
use mathlib.Core.Bool.{Bool, true, false}
use mathlib.Core.List.{List, [], ◌∷◌, ◌++◌}
use native.Mathlib.Omega.{arith}
use sayari.Prelude.Tests.{if◌then◌else◌}

module _ {ℓ} {A : Type ℓ} where
  abbrev pub length : List A → ℕ
  length [] = 0
  length (x ∷ xs) = suc (length xs)

  abbrev pub take : ℕ → List A → List A
  take zero xs = []
  take (suc n) [] = []
  take (suc n) (x ∷ xs) = x ∷ take n xs

  abbrev pub drop : ℕ → List A → List A
  drop zero xs = xs
  drop (suc n) [] = []
  drop (suc n) (x ∷ xs) = drop n xs

  -- The rows of a table that pass a test, in order.
  abbrev pub select : (A → Bool) → List A → List A
  select p [] = []
  select p (x ∷ xs) = let rest = select p xs in if p x then x ∷ rest else rest

  -- `SELECT count(*)` under a test.
  abbrev pub count_where : (A → Bool) → List A → ℕ
  count_where p [] = 0
  count_where p (x ∷ xs) = let rest = count_where p xs in if p x then suc rest else rest

  abbrev pub All {κ} : (A → Type κ) → List A → Type κ
  All P [] = Unit
  All P (x ∷ xs) = P x × All P xs

  pub length-append : (xs ys : List A) → length (xs ++ ys) ≡ length xs + length ys
  length-append [] ys = omega arith
  length-append (x ∷ xs) ys = omega (arith, length-append xs ys)

  pub count_where-append :
      (p : A → Bool) (xs ys : List A)
      → count_where p (xs ++ ys) ≡ count_where p xs + count_where p ys
  count_where-append p [] ys = omega arith
  count_where-append p (x ∷ xs) ys = ground (arith, count_where-append p xs ys)

  pub All-append {κ} : (P : A → Type κ) (xs ys : List A) → All P xs → All P ys → All P (xs ++ ys)
  All-append P [] ys hx hy = hy
  All-append P (x ∷ xs) ys hx hy = (hx.0, All-append P xs ys hx.1 hy)

  abbrev pub Any : (A → Type 0) → List A → Type 0
  Any P [] = ⊥
  Any P (x ∷ xs) = P x ⊎ Any P xs

  pub Any-append_left : (P : A → Type 0) (xs ys : List A) → Any P xs → Any P (xs ++ ys)
  Any-append_left P [] ys h = absurd h
  Any-append_left P (x ∷ xs) ys (inl h) = inl h
  Any-append_left P (x ∷ xs) ys (inr h) = inr (Any-append_left P xs ys h)

  pub Any-append_right : (P : A → Type 0) (xs ys : List A) → Any P ys → Any P (xs ++ ys)
  Any-append_right P [] ys h = h
  Any-append_right P (x ∷ xs) ys h = inr (Any-append_right P xs ys h)

  pub All-select {κ} :
      (P : A → Type κ) (p : A → Bool) (xs : List A) → All P xs → All P (select p xs)
  All-select P p [] h = tt
  All-select P p (x ∷ xs) h = ground (arith, All-select P p xs h.1)

  pub All-take {κ} : (P : A → Type κ) (n : ℕ) (xs : List A) → All P xs → All P (take n xs)
  All-take P zero xs h = tt
  All-take P (suc n) [] h = tt
  All-take P (suc n) (x ∷ xs) h = (h.0, All-take P n xs h.1)

  pub take-append-drop : (n : ℕ) (xs : List A) → take n xs ++ drop n xs ≡ xs
  take-append-drop zero xs = refl
  take-append-drop (suc n) [] = refl
  take-append-drop (suc n) (x ∷ xs) = rw (take-append-drop n xs)

  pub All-of_select {κ} :
      (P : A → Type κ) (p : A → Bool) (xs : List A)
      → All P (select p xs)
      → All (λ x. p x ≡ true → P x) xs
  All-of_select P p [] h = tt
  All-of_select P p (x ∷ xs) h = of_test (p x) refl (All-of_select P p xs)
    where
      of_test :
          (b : Bool)
          → p x ≡ b
          → (All P (select p xs) → All (λ x. p x ≡ true → P x) xs)
          → All (λ x. p x ≡ true → P x) (x ∷ xs)
      of_test true e rest = let h' : All P (x ∷ select p xs) = rw e at h in (λ _. h'.0, rest h'.1)
      of_test false e rest = (λ t. absurd (ground (arith, e, t)), rest (rw e at h))

  pub count_where_zero :
      (p : A → Bool) (xs : List A) → count_where p xs ≡ 0 → All (λ x. p x ≡ false) xs
  count_where_zero p [] h = tt
  count_where_zero p (x ∷ xs) h = ground (arith, count_where_zero p xs)

  pub All-map2 {κ} :
      (P Q R : A → Type κ) (xs : List A)
      → ((x : A) → P x → Q x → R x)
      → All P xs
      → All Q xs
      → All R xs
  All-map2 P Q R [] f p q = tt
  All-map2 P Q R (x ∷ xs) f p q = (f x p.0 q.0, All-map2 P Q R xs f p.1 q.1)

module _ {ℓ} {A : Type ℓ} where
  abbrev pub get_elem? : List A → ℕ → Option A
  get_elem? [] n = none
  get_elem? (x ∷ xs) zero = some x
  get_elem? (x ∷ xs) (suc n) = get_elem? xs n

  abbrev pub erase_idx : List A → ℕ → List A
  erase_idx [] n = []
  erase_idx (x ∷ xs) zero = xs
  erase_idx (x ∷ xs) (suc n) = x ∷ erase_idx xs n

-- What one place holds, or another place.
pub Any-erase {ℓ} :
    {A : Type ℓ} (P : A → Type 0) (xs : List A) (n : ℕ) (r : A)
    → get_elem? xs n ≡ some r
    → Any P xs
    → P r ⊎ Any P (erase_idx xs n)
Any-erase P [] n r e h = absurd h
Any-erase P (x ∷ xs) zero r e (inl p) = (let same : x ≡ r = cc in inl (subst P same p))
Any-erase P (x ∷ xs) zero r e (inr h) = inr h
Any-erase P (x ∷ xs) (suc n) r e (inl p) = inr (inl p)
Any-erase P (x ∷ xs) (suc n) r e (inr h) = elim (Any-erase P xs n r e h) [
  | inl p ↦ inl p
  | inr later ↦ inr (inr later)
]
