-- ===== src/Float.antt =====
-- Python's `float`, which the trading code computes with. Its arithmetic is not code of the
-- repository, so it is a parameter: a type with its operations, and the laws that the IEEE numbers
-- other than NaN satisfy and that the code relies on.
pub mod Fixed
pub mod Order
use stock_test.Base.{ℕ, ◌≤◌, ◌≡◌, ◌⊎◌, Bool, true, false, not, if◌then◌else◌}

-- `of_dec n k` is the literal n / 10 ^ k; `eqb`, `ltb` and `leb` are `==`, `<` and `<=`.
pub record FloatOps (F : Type 0) : Type 0 where
  pub of_dec : ℕ → ℕ → F
  pub add : F → F → F
  pub sub : F → F → F
  pub mul : F → F → F
  pub div : F → F → F
  pub eqb : F → F → Bool
  pub ltb : F → F → Bool
  pub leb : F → F → Bool

module _ {F : Type 0} ⦃fl : FloatOps F⦄ where
  abbrev pub of_dec : ℕ → ℕ → F
  of_dec = fl.of_dec

  abbrev pub of_ℕ : ℕ → F
  of_ℕ n = fl.of_dec n 0

  abbrev pub fzero : F
  fzero = fl.of_dec 0 0

  abbrev pub add : F → F → F
  add = fl.add

  abbrev pub sub : F → F → F
  sub = fl.sub

  abbrev pub mul : F → F → F
  mul = fl.mul

  abbrev pub div : F → F → F
  div = fl.div

  abbrev pub feq : F → F → Bool
  feq = fl.eqb

  abbrev pub flt : F → F → Bool
  flt = fl.ltb

  abbrev pub fle : F → F → Bool
  fle = fl.leb

  -- `-x`
  abbrev pub neg : F → F
  neg x = fl.sub (fl.of_dec 0 0) x

  -- Python's `max(a, b)` and `min(a, b)` keep the first unless the second is beyond it.
  abbrev pub fmax : F → F → F
  fmax a b = if fl.ltb a b then b else a

  abbrev pub fmin : F → F → F
  fmin a b = if fl.ltb b a then b else a

  abbrev pub fabs : F → F
  fabs x = if fl.ltb x (fl.of_dec 0 0) then fl.sub (fl.of_dec 0 0) x else x

-- The order of the numbers other than NaN, and that a rounded difference keeps its sign.
pub record FloatOrder (F : Type 0) ⦃fl : FloatOps F⦄ : Type 0 where
  pub leb_refl : (a : F) → fl.leb a a ≡ true
  pub leb_trans : (a b c : F) → fl.leb a b ≡ true → fl.leb b c ≡ true → fl.leb a c ≡ true
  pub ltb-not-leb : (a b : F) → fl.ltb a b ≡ not (fl.leb b a)
  pub leb_total : (a b : F) → (fl.leb a b ≡ true) ⊎ (fl.leb b a ≡ true)
  pub sub_nonneg : (a b : F) → fl.leb b a ≡ true → fl.leb (fl.of_dec 0 0) (fl.sub a b) ≡ true

-- What scaling relies on: products by factors from 0 to 1 shrink, a mean lies between its parts, and
-- the tenths up to 1 are such factors.
pub record FloatScale (F : Type 0) ⦃fl : FloatOps F⦄ : Type 0 where
  pub mul_shrinks :
      (a b : F)
      → fl.leb (fl.of_dec 0 0) a ≡ true
      → fl.leb (fl.of_dec 0 0) b ≡ true
      → fl.leb b (fl.of_dec 1 0) ≡ true
      → (fl.leb (fl.of_dec 0 0) (fl.mul a b) ≡ true) × (fl.leb (fl.mul a b) a ≡ true)
  pub mean :
      (a b : F)
      → fl.leb a b ≡ true
      → (fl.leb a (fl.div (fl.add a b) (fl.of_dec 2 0)) ≡ true)
        × (fl.leb (fl.div (fl.add a b) (fl.of_dec 2 0)) b ≡ true)
  pub tenths :
      (n : ℕ)
      → n ≤ 10
      → (fl.leb (fl.of_dec 0 0) (fl.of_dec n 1) ≡ true)
        × (fl.leb (fl.of_dec n 1) (fl.of_dec 1 0) ≡ true)
  pub zero_unit :
      (fl.leb (fl.of_dec 0 0) (fl.of_dec 0 0) ≡ true)
      × (fl.leb (fl.of_dec 0 0) (fl.of_dec 1 0) ≡ true)
  pub one_unit :
      (fl.leb (fl.of_dec 0 0) (fl.of_dec 1 0) ≡ true)
      × (fl.leb (fl.of_dec 1 0) (fl.of_dec 1 0) ≡ true)

-- The quotient of a number by a larger one above 0 is below 1, as it is of finite floats.
pub record FloatQuotient (F : Type 0) ⦃fl : FloatOps F⦄ : Type 0 where
  pub div_below_one :
      (a b : F)
      → fl.leb b (fl.of_dec 0 0) ≡ false
      → fl.ltb a b ≡ true
      → fl.ltb (fl.div a b) (fl.of_dec 1 0) ≡ true
