-- ===== src/Float/Fixed.antt =====
-- Decimal fixed point with six places, a concrete number type at which the parameter of the models
-- can be taken: it runs in the tests and satisfies the laws.
use stock_test.Base.{
  false, ◌<◌, ℕ, suc, ◌+◌, ◌-◌, ◌*◌, ◌/◌, ◌^◌, ◌≤◌, ◌≡◌, refl, ◌⊎◌, Bool, true, not, arith, ltb,
  leb, ◌==◌, if◌then◌else◌,
}
use stock_test.Float.{FloatQuotient, FloatOps, FloatOrder, FloatScale}

pub data ℤ : Type 0 where
  pos : ℕ → ℤ
  negsuc : ℕ → ℤ

abbrev pub pos_part : ℤ → ℕ
pos_part (pos n) = n
pos_part (negsuc n) = 0

abbrev pub neg_part : ℤ → ℕ
neg_part (pos n) = 0
neg_part (negsuc n) = suc n

abbrev sub_ℕ : ℕ → ℕ → ℤ
sub_ℕ a b = if leb b a then pos (a - b) else negsuc (b - a - 1)

-- One unit is 10 ^ -6.
abbrev scale : ℕ
scale = 1000000

abbrev literal : ℕ → ℕ → ℤ
literal n k = pos (n * scale / 10 ^ k)

abbrev add_ℤ : ℤ → ℤ → ℤ
add_ℤ a b = sub_ℕ (pos_part a + pos_part b) (neg_part a + neg_part b)

abbrev sub_ℤ : ℤ → ℤ → ℤ
sub_ℤ a b = sub_ℕ (pos_part a + neg_part b) (neg_part a + pos_part b)

abbrev mul_ℤ : ℤ → ℤ → ℤ
mul_ℤ (pos a) (pos b) = pos (a * b / scale)
mul_ℤ (pos a) (negsuc b) = sub_ℕ 0 (a * suc b / scale)
mul_ℤ (negsuc a) (pos b) = sub_ℕ 0 (suc a * b / scale)
mul_ℤ (negsuc a) (negsuc b) = pos (suc a * suc b / scale)

abbrev div_ℤ : ℤ → ℤ → ℤ
div_ℤ (pos a) (pos b) = pos (a * scale / b)
div_ℤ (pos a) (negsuc b) = sub_ℕ 0 (a * scale / suc b)
div_ℤ (negsuc a) (pos b) = sub_ℕ 0 (suc a * scale / b)
div_ℤ (negsuc a) (negsuc b) = pos (suc a * scale / suc b)

abbrev ltb_ℤ : ℤ → ℤ → Bool
ltb_ℤ a b = ltb (pos_part a + neg_part b) (pos_part b + neg_part a)

abbrev leb_ℤ : ℤ → ℤ → Bool
leb_ℤ a b = leb (pos_part a + neg_part b) (pos_part b + neg_part a)

abbrev eqb_ℤ : ℤ → ℤ → Bool
eqb_ℤ a b = pos_part a + neg_part b == pos_part b + neg_part a

instance abbrev pub fixed_ops : FloatOps ℤ
fixed_ops = record {
  of_dec = literal;
  add = add_ℤ;
  sub = sub_ℤ;
  mul = mul_ℤ;
  div = div_ℤ;
  eqb = eqb_ℤ;
  ltb = ltb_ℤ;
  leb = leb_ℤ;
}

fixed_refl : (a : ℤ) → leb_ℤ a a ≡ true
fixed_refl a = ground arith

fixed_trans : (a b c : ℤ) → leb_ℤ a b ≡ true → leb_ℤ b c ≡ true → leb_ℤ a c ≡ true
fixed_trans a b c = ground arith

fixed_lt : (a b : ℤ) → ltb_ℤ a b ≡ not (leb_ℤ b a)
fixed_lt a b = ground arith

fixed_total : (a b : ℤ) → (leb_ℤ a b ≡ true) ⊎ (leb_ℤ b a ≡ true)
fixed_total a b = ground arith

fixed_sub : (a b : ℤ) → leb_ℤ b a ≡ true → leb_ℤ (literal 0 0) (sub_ℤ a b) ≡ true
fixed_sub a b = ground arith

pub fixed_order : FloatOrder ℤ
fixed_order = record {
  leb_refl = fixed_refl;
  leb_trans = fixed_trans;
  ltb-not-leb = fixed_lt;
  leb_total = fixed_total;
  sub_nonneg = fixed_sub;
}

shrunk : (a b : ℕ) → b ≤ 1000000 → a * b / 1000000 ≤ a
shrunk a b h = let p : a * b ≤ a * 1000000 = grind arith in omega (arith, p)

fixed_mul :
    (a b : ℤ)
    → leb_ℤ (literal 0 0) a ≡ true
    → leb_ℤ (literal 0 0) b ≡ true
    → leb_ℤ b (literal 1 0) ≡ true
    → (leb_ℤ (literal 0 0) (mul_ℤ a b) ≡ true) × (leb_ℤ (mul_ℤ a b) a ≡ true)
fixed_mul (pos a) (pos b) h k u = ground (arith, shrunk a b)
fixed_mul (pos a) (negsuc b) h k u = ground arith
fixed_mul (negsuc a) b h k u = ground arith

fixed_mean :
    (a b : ℤ)
    → leb_ℤ a b ≡ true
    → (leb_ℤ a (div_ℤ (add_ℤ a b) (literal 2 0)) ≡ true)
      × (leb_ℤ (div_ℤ (add_ℤ a b) (literal 2 0)) b ≡ true)
fixed_mean a b h = ground arith

fixed_tenths :
    (n : ℕ)
    → n ≤ 10
    → (leb_ℤ (literal 0 0) (literal n 1) ≡ true) × (leb_ℤ (literal n 1) (literal 1 0) ≡ true)
fixed_tenths n h = ground arith

pub fixed_scale : FloatScale ℤ
fixed_scale = record {
  mul_shrinks = fixed_mul;
  mean = fixed_mean;
  tenths = fixed_tenths;
  zero_unit = (refl, refl);
  one_unit = (refl, refl);
}

below_scale : (a b : ℕ) → a < b → a * 1000000 / b < 1000000
below_scale a b h = let p : a * 1000000 < b * 1000000 = grind arith in grind (arith, p)

fixed_div :
    (a b : ℤ)
    → leb_ℤ b (literal 0 0) ≡ false
    → ltb_ℤ a b ≡ true
    → ltb_ℤ (div_ℤ a b) (literal 1 0) ≡ true
fixed_div (pos a) (pos b) h k = ground (arith, below_scale a b)
fixed_div (pos a) (negsuc b) h k = ground arith
fixed_div (negsuc a) (pos b) h k = ground arith
fixed_div (negsuc a) (negsuc b) h k = ground arith

pub fixed_quotient : FloatQuotient ℤ
fixed_quotient = record { div_below_one = fixed_div }
