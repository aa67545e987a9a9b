-- ===== src/Order/Placing.antt =====
-- The writes and reads of checkout: Create and List of services/order/internal/adapter/out/postgres/
-- order_repository.go, and the idempotency store beside it.
use system_design_ecommerce.Prelude.{
  ℕ, Bool, true, ◌&&◌, ◌||◌, not, Option, none, some, List, [], ◌∷◌, ◌++◌, all, length, take, map,
  ltb, ◌==◌, if◌then◌else◌,
}
use system_design_ecommerce.Prelude.Int.{ℤ, ltb_ℤ}
use system_design_ecommerce.Errors.{fault, internal, ok, err}
use system_design_ecommerce.Text.{Text, text_eq}
use system_design_ecommerce.Text.Case.{to_upper}
use system_design_ecommerce.Text.Order.{text_ltb}
use system_design_ecommerce.Money.{Money, is_upper}
use system_design_ecommerce.Idempotency.{Claim, take_claim}
use system_design_ecommerce.Table.{select_one, select_all, sort_by}
use system_design_ecommerce.Order.Domain.{Order, OrderLine, names_twice}
use system_design_ecommerce.Order.Store.{Store, Action, narrow, to_domain}

-- the CHECKs on an amount's currency
abbrev currency_fits : Money → Bool
currency_fits m = length m.currency == 3 && all is_upper m.currency

-- the CHECKs of order_lines, on one row
abbrev line_fits : OrderLine → Bool
line_fits l = text_eq l.sku (to_upper l.sku) && (ltb 0 l.quantity && currency_fits l.unit_price)

-- the CHECKs of orders and order_lines, and UNIQUE (order_id, sku)
unfoldable pub rows_fit : Order → Bool
rows_fit o = currency_fits o.total && (all line_fits o.lines && not (names_twice [] o.lines))

-- whether a row of orders stands in the way: its primary key, and orders_reservation_idx
abbrev pub clashes : Order → Order → Bool
clashes o r = text_eq r.id o.id || text_eq r.reservation_id o.reservation_id

-- the row that Create stores
abbrev pub created_row : ℤ → Order → Order
created_row clock o = record o { created_at = clock; updated_at = clock; version = 1; events = [] }

-- Create: CreateOrder, CreateOrderLine of each line, and writeEvents
unfoldable pub create_checked : Order → Option Order → Action Order
create_checked o (some r) s = err (fault internal "")
create_checked o none s =
    if not (rows_fit o)
    then err (fault internal "")
    else ok (
      created_row s.clock o,
      record s { orders = s.orders ++ created_row s.clock o ∷ []; outbox = s.outbox ++ o.events },
    )

unfoldable pub create : Order → Action Order
unfolding create_checked
create o s = create_checked o (select_one (clashes o) s.orders) s

-- Claim of the idempotency store
unfoldable pub claim_key : Claim → Store → (Claim × Bool) × Store
claim_key c s =
    let (standing, taken, claims) = take_claim c s.claims in
    ((standing, taken), record s { claims = claims })

-- out.OrderCursor
pub record OrderCursor : Type 0 where
  pub created_at : ℤ
  pub id : Text

-- (created_at, id) < (before_created_at, before_id); a uuid as text orders as its bytes do
abbrev pub before : Option OrderCursor → Order → Bool
before none r = true
before (some c) r =
    ltb_ℤ r.created_at c.created_at || (not (ltb_ℤ c.created_at r.created_at) && text_ltb r.id c.id)

-- ORDER BY created_at DESC, id DESC
abbrev pub newest_first : Order → Order → Bool
newest_first r x =
    ltb_ℤ x.created_at r.created_at || (not (ltb_ℤ r.created_at x.created_at) && text_ltb x.id r.id)

-- the rows of ListOrdersByUser
unfoldable pub rows_of_user : Text → Option OrderCursor → ℕ → Store → List Order
rows_of_user user_id after limit s =
    take limit (
      sort_by newest_first (select_all (λ r. text_eq r.user_id user_id && before after r) s.orders))

module _ (order_by_sku : List OrderLine → List OrderLine) where
  -- List
  unfoldable pub list_orders : Text → Option OrderCursor → ℤ → Store → List Order
  unfolding rows_of_user
  list_orders user_id after limit s =
      map (to_domain order_by_sku) (rows_of_user user_id after (narrow limit) s)
