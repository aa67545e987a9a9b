-- ===== src/Order/Domain/Placed.antt =====
-- Which lines NewOrder makes an order of, and what order.
use system_design_ecommerce.Prelude.{
  ap, sym, ◌∙◌, ◌≤◌, ◌≡◌, refl, ◌↔◌, false, List, [], ◌∷◌, All, length, arith,
}
use system_design_ecommerce.Errors.{ok-injective, ok}
use system_design_ecommerce.Text.{Text, text_eq, is_empty, text_eq_sym}
use system_design_ecommerce.Sku.{Sku}
use system_design_ecommerce.Order.Domain.{
  order_placed, pos, pending_payment, Money, OrderLine, Order, names_twice, is_seen, new_order, sum,
  sum_from,
}
use system_design_ecommerce.Order.Domain.Totals.{
  exact_total, Priced, sum_from_exact, sum_from-Priced,
}

abbrev pub Distinct : List OrderLine → Type 0
Distinct [] = Unit
Distinct (l ∷ ls) = All (λ (m : OrderLine). text_eq l.sku m.sku ≡ false) ls × Distinct ls

abbrev Unseen : List Sku → List OrderLine → Type 0
Unseen seen ls = All (λ (m : OrderLine). is_seen m.sku seen ≡ false) ls

Unseen-split :
    (k : Sku) (seen : List Sku) (ls : List OrderLine)
    → Unseen (k ∷ seen) ls ↔ (All (λ (m : OrderLine). text_eq k m.sku ≡ false) ls × Unseen seen ls)
Unseen-split k seen [] = (λ h. (tt, tt), λ h. tt)
Unseen-split k seen (l ∷ ls) = ground (arith, Unseen-split k seen ls, text_eq_sym k l.sku)

names_twice_iff :
    (seen : List Sku) (ls : List OrderLine)
    → (names_twice seen ls ≡ false) ↔ (Distinct ls × Unseen seen ls)
unfolding names_twice
names_twice_iff seen [] = (λ h. (tt, tt), λ h. refl)
names_twice_iff seen (l ∷ ls) =
    ground (arith, Unseen-split l.sku seen ls, names_twice_iff (l.sku ∷ seen) ls)

Unseen-nothing : (ls : List OrderLine) → Unseen [] ls
Unseen-nothing [] = tt
Unseen-nothing (l ∷ ls) = (refl, Unseen-nothing ls)

-- What NewOrder asks of its input, said without its loops.
abbrev pub IsOrderable : Text → Text → Text → List OrderLine → Type 0
IsOrderable id user_id reservation_id [] = ⊥
IsOrderable id user_id reservation_id (l ∷ ls) =
    (is_empty id ≡ false)
    × (is_empty user_id ≡ false)
    × (is_empty reservation_id ≡ false)
    × (length (l ∷ ls) ≤ 100)
    × Distinct (l ∷ ls)
    × All (Priced l.unit_price.currency) (l ∷ ls)
    × (exact_total (l ∷ ls) ≤ 9223372036854775807)

-- The amount and the currency of the order.
abbrev pub exact_money : List OrderLine → Money
exact_money [] = record { amount_minor = 0; currency = [] }
exact_money (l ∷ ls) = record {
  amount_minor = exact_total (l ∷ ls);
  currency = l.unit_price.currency;
}

-- The order that is made, written out: it waits for its payment, with one event.
abbrev pub expected_order : Text → Text → Text → List OrderLine → Money → Order
expected_order id user_id reservation_id lines total = record {
  id = id;
  user_id = user_id;
  status = pending_payment;
  lines = lines;
  total = total;
  reservation_id = reservation_id;
  created_at = pos 0;
  updated_at = pos 0;
  version = 1;
  events = order_placed id user_id reservation_id lines total ∷ [];
}

new_order-places :
    (id user_id reservation_id : Text) (lines : List OrderLine)
    → IsOrderable id user_id reservation_id lines
    → new_order id user_id reservation_id lines
      ≡ ok (expected_order id user_id reservation_id lines (exact_money lines))
unfolding new_order sum
new_order-places id user_id reservation_id [] h = absurd h
new_order-places id user_id reservation_id (l ∷ ls) h = ground (
  arith,
  h,
  names_twice_iff [] (l ∷ ls),
  Unseen-nothing (l ∷ ls),
  sum_from_exact l.unit_price.currency 0 (l ∷ ls),
)

new_order-total :
    (id user_id reservation_id : Text) (l : OrderLine) (ls : List OrderLine) {o : Order}
    → new_order id user_id reservation_id (l ∷ ls) ≡ ok o
    → sum_from l.unit_price.currency 0 (l ∷ ls) ≡ ok o.total
unfolding new_order sum
new_order-total id user_id reservation_id l ls h = ground arith

new_order-IsOrderable :
    (id user_id reservation_id : Text) (l : OrderLine) (ls : List OrderLine) {o : Order}
    → new_order id user_id reservation_id (l ∷ ls) ≡ ok o
    → IsOrderable id user_id reservation_id (l ∷ ls)
unfolding new_order sum
new_order-IsOrderable id user_id reservation_id l ls k =
    let total = new_order-total id user_id reservation_id l ls k in
    let priced = sum_from-Priced l.unit_price.currency 0 (l ∷ ls) _ total in
    ground (
      arith,
      k,
      total,
      priced,
      names_twice_iff [] (l ∷ ls),
      sum_from_exact l.unit_price.currency 0 (l ∷ ls) priced,
    )

-- NewOrder makes an order of exactly what IsOrderable describes: three identifiers, 1 to 100 lines
-- of distinct SKUs in one currency, none for a quantity of zero, and an exact price that fits an
-- int64. The order waits for its payment, its total is that exact price, so no sum wrapped, and one
-- event announces it.
pub new_order_iff :
    (id user_id reservation_id : Text) (lines : List OrderLine) (o : Order)
    → (new_order id user_id reservation_id lines ≡ ok o) ↔ (
        IsOrderable id user_id reservation_id lines
        × (o ≡ expected_order id user_id reservation_id lines (exact_money lines)))
unfolding new_order sum
new_order_iff id user_id reservation_id [] o = ground arith
new_order_iff id user_id reservation_id (l ∷ ls) o = (
  λ k.
      let allowed = new_order-IsOrderable id user_id reservation_id l ls k in
      (allowed, ok-injective (sym k ∙ new_order-places id user_id reservation_id (l ∷ ls) allowed)),
  λ (allowed, e). new_order-places id user_id reservation_id (l ∷ ls) allowed ∙ ap ok (sym e),
)
