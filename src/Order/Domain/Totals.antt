-- ===== src/Order/Domain/Totals.antt =====
-- What an order totals (sum and NewOrder of order.go).
use system_design_ecommerce.Prelude.{
  lt→ltb, ltb→lt, ℕ, ◌+◌, ◌*◌, ◌/◌, ◌≤◌, ◌<◌, ◌≡◌, ◌↔◌, true, List, [], ◌∷◌, All, ltb, leb,
  if◌then◌else◌, arith,
}
use native.Mathlib.Nat.{div-lt_iff_lt-mul}
use system_design_ecommerce.Errors.{ok, err, sentinel}
use system_design_ecommerce.Text.{Text, text_eq}
use system_design_ecommerce.Money.{Money, max_int64}
use system_design_ecommerce.Order.Domain.{OrderLine, subtotal, sum_from, total_out_of_range}

-- The price of the lines, without a bound.
abbrev pub exact_total : List OrderLine → ℕ
exact_total [] = 0
exact_total (l ∷ ls) = l.unit_price.amount_minor * l.quantity + exact_total ls

abbrev pub Priced : Text → OrderLine → Type 0
Priced currency l = (text_eq l.unit_price.currency currency ≡ true) × (0 < l.quantity)

fits_iff : (p q m : ℕ) → 0 < q → (ltb (m / q) p ≡ true) ↔ (m < p * q)
fits_iff p q m h =
    let (f, g) = div-lt_iff_lt-mul {k = q} {x = m} {y = p} h in
    (λ k. f (ltb→lt (m / q) p k), λ k. lt→ltb (m / q) p (g k))

-- The division in Subtotal tests the bound exactly.
subtotal_exact :
    (l : OrderLine)
    → 0 < l.quantity
    → subtotal l ≡ (
        if ltb max_int64 (l.unit_price.amount_minor * l.quantity)
        then err (sentinel total_out_of_range)
        else ok (record {
          amount_minor = l.unit_price.amount_minor * l.quantity;
          currency = l.unit_price.currency;
        }))
unfolding subtotal
subtotal_exact l h = ground (arith, fits_iff l.unit_price.amount_minor l.quantity max_int64 h)

pub sum_from_exact :
    (currency : Text) (amount : ℕ) (ls : List OrderLine)
    → All (Priced currency) ls
    → amount ≤ max_int64
    → sum_from currency amount ls ≡ (
        if leb (amount + exact_total ls) max_int64
        then ok (record { amount_minor = amount + exact_total ls; currency = currency })
        else err (sentinel total_out_of_range))
unfolding sum_from
sum_from_exact currency amount [] h k = ground arith
sum_from_exact currency amount (l ∷ ls) (h, hs) k = rw (subtotal_exact l h.1) (
    ground (arith, sum_from_exact currency (amount + l.unit_price.amount_minor * l.quantity) ls hs))

-- A total that sum returns is of lines in one currency, none of them for nothing.
pub sum_from-Priced :
    (currency : Text) (amount : ℕ) (ls : List OrderLine) (m : Money)
    → sum_from currency amount ls ≡ ok m
    → All (Priced currency) ls
unfolding sum_from subtotal
sum_from-Priced currency amount [] m k = tt
sum_from-Priced currency amount (l ∷ ls) m k =
    let priced = sum_from-Priced currency (amount + l.unit_price.amount_minor * l.quantity) ls m in
    ground (arith, subtotal_exact l, priced)
