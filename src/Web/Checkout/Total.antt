-- ===== src/Web/Checkout/Total.antt =====
-- The total that `summary_table` of crates/web/src/routes/checkout.rs shows.
use tiny_shop.Prelude.{ℕ, ◌+◌, ◌*◌, ◌-◌, ◌^◌, ◌≤◌, min, ◌≡◌, ap, ◌∙◌, List, [], ◌∷◌, arith, All}
use tiny_shop.Prelude.Int.{ℤ, pos, ◌+ℤ◌, ◌*ℤ◌, ◌≤ℤ◌, pos_part, i64_max, saturate}
use tiny_shop.Cart.{CartItem}
use tiny_shop.Web.Checkout.{total_from}

-- The exact total, of prices and quantities that are not negative.
abbrev pub exact : List CartItem → ℕ
exact [] = 0
exact (i ∷ is) = pos_part i.unit_price_minor * pos_part i.qty + exact is

abbrev greatest : ℕ
greatest = pos_part i64_max

saturate-pos : (n : ℕ) → saturate (pos n) ≡ pos (min greatest n)
unfolding saturate
saturate-pos n = ground arith

product : (p q : ℤ) → pos 0 ≤ℤ p → pos 0 ≤ℤ q → p *ℤ q ≡ pos (pos_part p * pos_part q)
unfolding ◌*ℤ◌
product (pos p) (pos q) hp hq = ground arith
product p q hp hq = absurd (omega arith)

sum : (a b : ℕ) → pos a +ℤ pos b ≡ pos (a + b)
unfolding ◌+ℤ◌
sum a b = ground arith

capped_twice : (m a x e : ℕ) → min m (min m (a + min m x) + e) ≡ min m (a + (x + e))
capped_twice m a x e = omega arith

-- One item more.
added :
    (a : ℕ) (p q : ℤ)
    → pos 0 ≤ℤ p
    → pos 0 ≤ℤ q
    → saturate (pos a +ℤ saturate (p *ℤ q))
      ≡ pos (min greatest (a + min greatest (pos_part p * pos_part q)))
added a p q hp hq =
    ap (λ n. saturate (pos a +ℤ saturate n)) (product p q hp hq)
    ∙ ap (λ n. saturate (pos a +ℤ n)) (saturate-pos (pos_part p * pos_part q))
    ∙ ap saturate (sum a (min greatest (pos_part p * pos_part q)))
    ∙ saturate-pos (a + min greatest (pos_part p * pos_part q))

total_from-exact :
    (a : ℕ) (is : List CartItem)
    → a ≤ greatest
    → All (λ i. (pos 0 ≤ℤ i.unit_price_minor) × (pos 0 ≤ℤ i.qty)) is
    → total_from (pos a) is ≡ pos (min greatest (a + exact is))
unfolding total_from
total_from-exact a [] fit h = ap pos (omega arith)
total_from-exact a (i ∷ is) fit h =
    let cost = pos_part i.unit_price_minor * pos_part i.qty in
    ap (λ n. total_from n is) (added a i.unit_price_minor i.qty h.0.0 h.0.1)
    ∙ total_from-exact (min greatest (a + min greatest cost)) is (omega arith) h.1
    ∙ ap pos (capped_twice greatest a cost (exact is))

-- The total of items whose prices and quantities are not negative is their exact total, or the
-- greatest `i64` where the exact total is above it, though each product and each sum saturates on
-- its own.
pub total_from_lem :
    (is : List CartItem)
    → All (λ i. (pos 0 ≤ℤ i.unit_price_minor) × (pos 0 ≤ℤ i.qty)) is
    → total_from (pos 0) is ≡ pos (min (2 ^ 63 - 1) (exact is))
total_from_lem is h =
    total_from-exact 0 is (omega arith) h ∙ ap (λ n. pos (min greatest n)) (omega arith)
