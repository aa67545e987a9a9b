-- ===== src/Inventory/Service.antt =====
-- services/inventory/internal/app/inventory_service.go, and parseUUID of domain/id.go.
-- `order_by_sku` is PostgreSQL's ORDER BY sku and `valid_uuid` is uuid.Validate. An identifier that
-- a call mints (uuid.NewString) is an argument of the call, and so is how the server answers to the
-- transaction. s.policy.Now() is `policy.now`: each call reads the clock once.
pub mod Calls
pub mod Runs
pub mod Movements
pub mod Ending
pub mod Settle
pub mod Sweep
pub mod Shelf
pub mod Reserve
use system_design_ecommerce.Prelude.{
  ℕ, ◌+◌, Bool, not, List, [], ◌∷◌, String, length, ◌==◌, if◌then◌else◌,
}
use system_design_ecommerce.Prelude.Int.{ℤ, pos, leb_ℤ}
use system_design_ecommerce.Errors.{validation, fault, conflict, Result, ok, err, is, ◌>>=◌, ◌>>◌}
use system_design_ecommerce.Text.{Text}
use system_design_ecommerce.Text.Case.{to_lower}
use system_design_ecommerce.Sku.{Sku, new_sku}
use system_design_ecommerce.Tx.{with_parsed, Server, run_tx, run_single}
use system_design_ecommerce.Tx
use system_design_ecommerce.Inventory.Domain.{
  Sentinel, same_sentinel, reservation_not_found, Line, Reservation, StockItem, Transition,
  new_quantity, new_adjustment, new_stock_item, commit, release, expire, matches,
}
use system_design_ecommerce.Inventory.Domain.Lines.{new_reservation}
use system_design_ecommerce.Inventory.Store.{Store}
use system_design_ecommerce.Inventory.Repository.{
  Action, reserve, release_held, commit_held, adjust, create_stock_item, find_by_skus, find_by_id,
  find_held_by_order_id, claim_expired, update, create,
}

-- in.NewLine and in.ReserveStockCommand
pub record NewLine : Type 0 where
  pub sku : Text
  pub quantity : ℤ

pub record ReserveStockCommand : Type 0 where
  pub order_id : Text
  pub lines : List NewLine

pub record Policy : Type 0 where
  pub reservation_ttl : ℤ
  pub now : ℤ

abbrev pub default_sweep_limit : ℤ
default_sweep_limit = pos 100

-- the loop over cmd.Lines in ReserveStock
unfoldable pub parse_lines : List NewLine → Result Sentinel (List Line)
parse_lines [] = ok []
parse_lines (l ∷ ls) = do
  sku ← new_sku l.sku
  quantity ← new_quantity "quantity" l.quantity
  rest ← parse_lines ls
  ok (record { sku = sku; quantity = quantity } ∷ rest)

-- the loop over cmd.SKUs in GetStockBySKUs
unfoldable pub parse_skus : List Text → Result Sentinel (List Sku)
parse_skus [] = ok []
parse_skus (s ∷ ss) = do sku ← new_sku s; rest ← parse_skus ss; ok (sku ∷ rest)

-- the loops over reservation.Lines(): one movement for each line
unfoldable pub move_lines : (Sku → ℕ → Action (Unit {0})) → List Line → Action (Unit {0})
move_lines move [] s = ok (tt, s)
move_lines move (l ∷ ls) s = do (_, s') ← move l.sku l.quantity s; move_lines move ls s'

-- parseUUID
unfoldable pub parse_uuid : (Text → Bool) → String → Text → Result Sentinel Text
parse_uuid valid_uuid field s =
    if not (length s == 36)
    then err (validation field "not a UUID")
    else let t : Text = to_lower s in
      if not (valid_uuid t) then err (validation field "not a UUID") else ok t

-- ReserveStock, with the reservation that it builds before it begins the transaction
unfoldable pub candidate_of :
    (Text → Bool) → Policy → Text → ReserveStockCommand → Result Sentinel Reservation
candidate_of valid_uuid policy id cmd = do
  order_id ← parse_uuid valid_uuid "order_id" cmd.order_id
  lines ← parse_lines cmd.lines
  new_reservation id order_id lines policy.now policy.reservation_ttl

module _ (order_by_sku : List Line → List Line) where
  -- ReserveStock once it has read which hold the order has
  unfoldable pub hold_or_take :
      Reservation
      → Store
      → Result Sentinel (Reservation × Store)
      → Result Sentinel (Reservation × Store)
  hold_or_take candidate s (ok (existing, s')) =
      if not (matches existing candidate.lines)
      then err (fault conflict "RESERVATION_LINES_DIFFER")
      else ok (existing, s')
  hold_or_take candidate s (err e) =
      if not (is same_sentinel e reservation_not_found)
      then err e
      else do (_, s') ← move_lines reserve candidate.lines s; create candidate s'

  -- the transaction of ReserveStock
  unfoldable pub reserve_tx : Reservation → Action Reservation
  unfolding hold_or_take
  reserve_tx candidate s =
      hold_or_take candidate s (find_held_by_order_id order_by_sku candidate.order_id s)

  -- the transaction of settle
  unfoldable pub settle_tx :
      (Reservation → Transition) → (Sku → ℕ → Action (Unit {0})) → Text → Action Reservation
  settle_tx change move id s = do
    (reservation, s') ← find_by_id order_by_sku id s
    (moved, did) ← change reservation
    if not did
        then ok (moved, s')
        else do (_, s'') ← move_lines move moved.lines s'; update order_by_sku moved s''

  -- one claimed reservation: the stock that it held goes back, and the row says so
  unfoldable pub sweep_one : ℤ → Reservation → Action ℕ
  sweep_one now r s = do
    (moved, did) ← expire now r
    if not did then ok (0, s) else do
      (_, s') ← move_lines release_held moved.lines s
      (_, s'') ← update order_by_sku moved s'
      ok (1, s'')

  -- the loop over the claimed reservations, with how many were swept before
  unfoldable pub sweep : ℤ → List Reservation → ℕ → Action ℕ
  unfolding sweep_one
  sweep now [] swept s = ok (swept, s)
  sweep now (r ∷ rs) swept s = do (n, s') ← sweep_one now r s; sweep now rs (swept + n) s'

  -- the transaction of ExpireReservations; `locked` are the rows that others have locked
  unfoldable pub expire_tx : (Text → Bool) → ℤ → ℤ → Action ℕ
  unfolding sweep
  expire_tx locked now limit s = do
    (claimed, s') ← claim_expired order_by_sku locked now limit s
    sweep now claimed 0 s'

  unfoldable pub expire_reservations :
      Server → (Text → Bool) → Policy → ℤ → Store → Result Sentinel ℕ × Store
  expire_reservations server locked policy limit =
      run_tx server
        (expire_tx locked policy.now (if leb_ℤ limit (pos 0) then default_sweep_limit else limit))

module _ (order_by_sku : List Line → List Line) (valid_uuid : Text → Bool) where
  unfoldable pub reserve_stock :
      Server → Policy → Text → ReserveStockCommand → Store → Result Sentinel Reservation × Store
  reserve_stock server policy id cmd =
      with_parsed (candidate_of valid_uuid policy id cmd)
        (λ candidate. run_tx server (reserve_tx order_by_sku candidate))

  unfoldable pub settle :
      Server
      → (Reservation → Transition)
      → (Sku → ℕ → Action (Unit {0}))
      → Text
      → Store
      → Result Sentinel Reservation × Store
  settle server change move id =
      with_parsed (parse_uuid valid_uuid "id" id)
        (λ parsed. run_tx server (settle_tx order_by_sku change move parsed))

  unfoldable pub commit_reservation :
      Server → Policy → Text → Store → Result Sentinel Reservation × Store
  unfolding settle
  commit_reservation server policy = settle server (commit policy.now) commit_held

  unfoldable pub release_reservation : Server → Text → Store → Result Sentinel Reservation × Store
  unfolding settle
  release_reservation server = settle server release release_held

  unfoldable pub get_reservation : Text → Store → Result Sentinel Reservation × Store
  get_reservation id =
      with_parsed (parse_uuid valid_uuid "id" id)
        (λ parsed. run_single (find_by_id order_by_sku parsed))

unfoldable pub get_stock_by_skus : List Text → Store → Result Sentinel (List StockItem) × Store
get_stock_by_skus skus = with_parsed (parse_skus skus) (λ parsed. run_single (find_by_skus parsed))

-- what CreateStockItem parses, as the stock item that it makes under the id that it mints
unfoldable pub item_of : Text → Text → ℤ → Result Sentinel StockItem
item_of id sku available = do
  parsed ← new_sku sku
  n ← new_quantity "available" available
  ok (new_stock_item id parsed n)

-- CreateStockItem
unfoldable pub create_item : Text → Text → ℤ → Store → Result Sentinel StockItem × Store
create_item id sku available =
    with_parsed (item_of id sku available) (λ item. run_single (create_stock_item item))

-- what AdjustStock parses
unfoldable pub adjustment_of : Text → ℤ → Result Sentinel (Sku × ℤ)
adjustment_of sku delta = do parsed ← new_sku sku; d ← new_adjustment delta; ok (parsed, d)

unfoldable pub adjust_stock : Text → ℤ → Store → Result Sentinel StockItem × Store
adjust_stock sku delta =
    with_parsed (adjustment_of sku delta) (λ (parsed, d). run_single (adjust parsed d))
