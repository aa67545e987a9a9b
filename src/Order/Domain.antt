-- ===== src/Order/Domain.antt =====
-- services/order/internal/domain: order.go, line.go, event.go and errors.go. An instant and a
-- duration are integers (nanoseconds). A panic (lines[0] of no lines, a division by a quantity of
-- zero) is a `fault internal`: no order comes of it.
pub mod Totals
pub mod Placed
pub mod Lifecycle
use system_design_ecommerce.Prelude.{
  ℕ, ◌+◌, ◌-◌, ◌*◌, ◌/◌, Bool, true, false, ◌||◌, not, List, [], ◌∷◌, ◌++◌, length, ltb, ◌==◌,
  if◌then◌else◌,
}
use system_design_ecommerce.Prelude.Int.{ℤ, pos, pos_part, ◌+ℤ◌, ltb_ℤ, leb_ℤ}
use system_design_ecommerce.Errors.{
  validation, sentinel, fault, internal, Result, ok, err, ◌>>=◌, ◌>>◌, refuse_if,
}
use system_design_ecommerce.Text.{Text, text_eq, is_empty}
use system_design_ecommerce.Sku.{Sku}
use system_design_ecommerce.Money.{Money, max_int64, is_zero}

-- errors.go: the package's sentinels
pub data Sentinel : Type 0 where
  order_not_found order_cancelled order_paid order_not_expired total_out_of_range : Sentinel

abbrev pub max_lines : ℕ
max_lines = 100

abbrev pub max_quantity : ℕ
max_quantity = 10000

pub record OrderLine : Type 0 where
  pub sku : Sku
  pub quantity : ℕ
  pub unit_price : Money

-- NewOrderLine, from a quantity that may be negative
unfoldable pub new_order_line : Sku → ℤ → Money → Result Sentinel OrderLine
new_order_line sku quantity unit_price =
    refuse_if (is_empty sku) (validation "sku" "is required")
    >> (refuse_if (leb_ℤ quantity (pos 0)) (validation "quantity" "must be greater than zero")
        >> (refuse_if (ltb_ℤ (pos max_quantity) quantity)
              (validation "quantity" "is above the per-line maximum")
            >> (refuse_if (is_zero unit_price) (validation "unit_price" "is required")
                >> ok
                    (record { sku = sku; quantity = pos_part quantity; unit_price = unit_price }))))

-- Subtotal
unfoldable pub subtotal : OrderLine → Result Sentinel Money
subtotal l =
    refuse_if (l.quantity == 0) (fault internal "")
    >> (refuse_if (ltb (max_int64 / l.quantity) l.unit_price.amount_minor)
          (sentinel total_out_of_range)
        >> ok (record {
          amount_minor = l.unit_price.amount_minor * l.quantity;
          currency = l.unit_price.currency;
        }))

-- the loop of sum
unfoldable pub sum_from : Text → ℕ → List OrderLine → Result Sentinel Money
unfolding subtotal
sum_from currency amount [] = ok (record { amount_minor = amount; currency = currency })
sum_from currency amount (l ∷ ls) =
    refuse_if (not (text_eq l.unit_price.currency currency))
      (validation "lines" "are priced in more than one currency")
    >> (subtotal l >>= λ t.
        refuse_if (ltb (max_int64 - t.amount_minor) amount) (sentinel total_out_of_range)
        >> sum_from currency (amount + t.amount_minor) ls)

-- sum
unfoldable pub sum : List OrderLine → Result Sentinel Money
unfolding sum_from
sum [] = err (fault internal "")
sum (l ∷ ls) = sum_from l.unit_price.currency 0 (l ∷ ls)

-- Status is a string: `unknown` is any other text that a row may hold.
pub data Status : Type 0 where
  pending_payment paid cancelled : Status
  unknown : Text → Status

-- event.go
pub data Event : Type 0 where
  order_placed : Text → Text → Text → List OrderLine → Money → Event
  order_was_paid : Text → Text → Text → Money → Event
  order_was_cancelled : Text → Text → Text → Event

pub record Order : Type 0 where
  pub id : Text
  pub user_id : Text
  pub status : Status
  pub lines : List OrderLine
  pub total : Money
  pub reservation_id : Text
  pub created_at : ℤ
  pub updated_at : ℤ
  pub version : ℕ
  pub events : List Event

-- seen[sku]
abbrev pub is_seen : Sku → List Sku → Bool
is_seen k [] = false
is_seen k (x ∷ xs) = text_eq k x || is_seen k xs

-- the loop over `seen`: whether a line names a SKU of one before it
unfoldable pub names_twice : List Sku → List OrderLine → Bool
names_twice seen [] = false
names_twice seen (l ∷ ls) = is_seen l.sku seen || names_twice (l.sku ∷ seen) ls

-- the aggregate that NewOrder builds, with its event
abbrev pub placed : Text → Text → Text → List OrderLine → Money → Order
placed id user_id reservation_id lines total = record {
  id = id;
  user_id = user_id;
  status = pending_payment;
  lines = lines;
  total = total;
  reservation_id = reservation_id;
  created_at = pos 0;
  updated_at = pos 0;
  version = 1;
  events = order_placed id user_id reservation_id lines total ∷ [];
}

-- NewOrder
unfoldable pub new_order : Text → Text → Text → List OrderLine → Result Sentinel Order
unfolding names_twice sum
new_order id user_id reservation_id lines =
    refuse_if (is_empty id) (validation "id" "is required")
    >> (refuse_if (is_empty user_id) (validation "user_id" "is required")
        >> (refuse_if (is_empty reservation_id) (validation "reservation_id" "is required")
            >> (refuse_if (length lines == 0) (validation "lines" "an order has at least one line")
                >> (refuse_if (ltb max_lines (length lines))
                      (validation "lines" "is above the per-order maximum")
                    >> (refuse_if (names_twice [] lines)
                          (validation "lines" "names the same sku twice")
                        >> (sum lines >>= λ total.
                            ok (placed id user_id reservation_id lines total)))))))

-- A method of *Order returns the order that it leaves, whether it moved it, and its error.
abbrev pub Transition : Type 0
Transition = Result Sentinel (Order × Bool)

abbrev pub raise : Order → Status → Event → Order
raise o s e = record o { status = s; events = o.events ++ (e ∷ []) }

abbrev pub paid_order : Order → Order
paid_order o = raise o paid (order_was_paid o.id o.user_id o.reservation_id o.total)

abbrev pub cancelled_order : Order → Order
cancelled_order o = raise o cancelled (order_was_cancelled o.id o.user_id o.reservation_id)

mark_paid_from : Status → Order → Transition
mark_paid_from paid o = ok (o, false)
mark_paid_from cancelled o = err (sentinel order_cancelled)
mark_paid_from _ o = ok (paid_order o, true)

-- MarkPaid
unfoldable pub mark_paid : Order → Transition
unfolding mark_paid_from
mark_paid o = mark_paid_from o.status o

cancel_from : Status → Order → Transition
cancel_from cancelled o = ok (o, false)
cancel_from paid o = err (sentinel order_paid)
cancel_from _ o = ok (cancelled_order o, true)

-- Cancel
unfoldable pub cancel : Order → Transition
unfolding cancel_from
cancel o = cancel_from o.status o

expire_from : Status → ℤ → ℤ → Order → Transition
expire_from cancelled now window o = ok (o, false)
expire_from paid now window o = err (sentinel order_paid)
expire_from _ now window o =
    if ltb_ℤ now (o.created_at +ℤ window)
    then err (sentinel order_not_expired)
    else ok (cancelled_order o, true)

-- Expire
unfoldable pub expire : ℤ → ℤ → Order → Transition
unfolding expire_from
expire now window o =
    if leb_ℤ window (pos 0)
    then err (validation "window" "is not a positive duration")
    else expire_from o.status now window o

-- PullEvents
unfoldable pub pull_events : Order → List Event × Order
pull_events o = (o.events, record o { events = [] })
