-- ===== src/Float/Order.antt =====
-- The smaller of two numbers is at most both.
use stock_test.Base.{◌≡◌, true, arith}
use stock_test.Float.{FloatOps, FloatOrder, fle, fmin}

pub fmin-le :
    {F : Type 0} ⦃fl : FloatOps F⦄ (o : FloatOrder F) (a b : F)
    → (fle (fmin a b) a ≡ true) × (fle (fmin a b) b ≡ true)
fmin-le o a b = ground (arith, o.leb_refl a, o.leb_refl b, o.ltb-not-leb b a, o.leb_total a b)
