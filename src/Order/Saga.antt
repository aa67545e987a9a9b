-- ===== src/Order/Saga.antt =====
-- services/order/internal/app: MarkPaid of checkout_saga.go, which takes in what the payment service
-- announced, and ExpireStaleOrders of saga_timeout.go. Each runs in one transaction, and how the
-- server answers to it is an argument. s.policy.Now() is `now`, and `uuid_of` is uuid.Parse with
-- String.
pub mod Announced
pub mod Deliveries
pub mod Runs
pub mod Once
pub mod Stale
use system_design_ecommerce.Prelude.{ℕ, ◌+◌, Bool, true, false, List, [], ◌∷◌, if◌then◌else◌, ◌||◌}
use system_design_ecommerce.Prelude.Int.{ℤ, pos, leb_ℤ, ◌-ℤ◌}
use system_design_ecommerce.Errors.{fault, invalid_input, Result, ok, err, is, ◌>>=◌}
use system_design_ecommerce.Text.{Text, is_empty}
use system_design_ecommerce.Uuid.{parse_uuid}
use system_design_ecommerce.Prelude.{Option}
use system_design_ecommerce.Tx.{Server, run_tx, with_parsed}
use system_design_ecommerce.Order.Domain.{
  Sentinel, Order, OrderLine, mark_paid, expire, order_not_found, order_cancelled, order_paid,
  order_not_expired, total_out_of_range,
}
use system_design_ecommerce.Order.Store.{
  Store, Action, claim, find_by_id_for_update, update, claim_stale_orders,
}

-- "order.payment-saga"
abbrev pub payment_saga_consumer_group : Text
payment_saga_consumer_group =
    b'o' ∷ b'r' ∷ b'd' ∷ b'e' ∷ b'r' ∷ b'.' ∷ b'p' ∷ b'a' ∷ b'y' ∷ b'm' ∷ b'e' ∷ b'n' ∷ b't' ∷ b'-'
    ∷ b's' ∷ b'a' ∷ b'g' ∷ b'a' ∷ []

abbrev pub default_sweep_limit : ℤ
default_sweep_limit = pos 100

abbrev pub same_sentinel : Sentinel → Sentinel → Bool
same_sentinel order_not_found order_not_found = true
same_sentinel order_cancelled order_cancelled = true
same_sentinel order_paid order_paid = true
same_sentinel order_not_expired order_not_expired = true
same_sentinel total_out_of_range total_out_of_range = true
same_sentinel _ _ = false

module _ (order_by_sku : List OrderLine → List OrderLine) where
  -- a transition's outcome, stored if it moved the order
  unfoldable pub store_moved : Order × Bool → Action (Unit {0})
  store_moved (o, false) s = ok (tt, s)
  store_moved (o, true) s = do (_, s') ← update order_by_sku o s; ok (tt, s')

  -- the transaction of MarkPaid once the inbox has answered
  unfoldable pub pay_claimed : Text → Bool × Store → Result Sentinel (Unit {0} × Store)
  unfolding store_moved
  pay_claimed order_id (false, s) = ok (tt, s)
  pay_claimed order_id (true, s) = do
    (o, s') ← find_by_id_for_update order_by_sku order_id s
    moved ← mark_paid o
    store_moved moved s'

  -- the transaction of MarkPaid
  unfoldable pub mark_paid_tx : Text → Text → Action (Unit {0})
  unfolding pay_claimed
  mark_paid_tx event_id order_id s =
      claim payment_saga_consumer_group event_id s >>= λ claimed. pay_claimed order_id claimed

  -- one order of the loop of ExpireStaleOrders: whether it counts, and the rows
  unfoldable pub settle_stale : Result Sentinel (Order × Bool) → Store → Result Sentinel (ℕ × Store)
  settle_stale (err e) s =
      if is same_sentinel e order_paid || is same_sentinel e order_not_expired
      then ok (0, s)
      else err e
  settle_stale (ok (o, false)) s = ok (0, s)
  settle_stale (ok (o, true)) s = do (_, s') ← update order_by_sku o s; ok (1, s')

  -- the loop of ExpireStaleOrders
  unfoldable pub sweep_stale : ℤ → ℤ → List Order → ℕ → Action ℕ
  unfolding settle_stale
  sweep_stale now window [] swept s = ok (swept, s)
  sweep_stale now window (o ∷ os) swept s = do
    (n, s') ← settle_stale (expire now window o) s
    sweep_stale now window os (swept + n) s'

  -- the transaction of ExpireStaleOrders
  unfoldable pub expire_stale_tx : (Text → Bool) → ℤ → ℤ → ℤ → Action ℕ
  unfolding sweep_stale
  expire_stale_tx locked now window limit s = do
    (claimed, s') ← claim_stale_orders order_by_sku locked (now -ℤ window) limit s
    sweep_stale now window claimed 0 s'

  -- ExpireStaleOrders
  unfoldable pub expire_stale_orders :
      Server → (Text → Bool) → ℤ → ℤ → ℤ → Store → Result Sentinel ℕ × Store
  unfolding expire_stale_tx
  expire_stale_orders server locked now window limit =
      let bounded = if leb_ℤ limit (pos 0) then default_sweep_limit else limit in
      run_tx server (expire_stale_tx locked now window bounded)

  -- MarkPaid of CheckoutSagaService
  unfoldable pub mark_paid_by_event :
      (Text → Option Text) → Server → Text → Text → Store → Result Sentinel (Unit {0}) × Store
  unfolding mark_paid_tx
  mark_paid_by_event uuid_of server event_id order_id =
      with_parsed
        (if is_empty event_id
          then err (fault invalid_input "")
          else parse_uuid uuid_of "id" order_id)
        λ id. run_tx server (mark_paid_tx event_id id)
