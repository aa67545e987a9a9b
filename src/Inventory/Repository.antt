-- ===== src/Inventory/Repository.antt =====
-- services/inventory/internal/adapter/out/postgres: the statements' answers as values and errors of
-- the service. The repositories' parseUUID is left out: an identifier that comes to them has passed
-- the use case's parse. `order_by_sku` is the ORDER BY sku of PostgreSQL, whose collation the
-- deployment chooses.
use system_design_ecommerce.Prelude.{
  Option, ◌++◌, some, none, ℕ, Bool, false, ◌&&◌, ◌||◌, List, [], ◌∷◌, map, if◌then◌else◌,
}
use system_design_ecommerce.Prelude.Int.{ℤ, pos, pos_part, ltb_ℤ}
use system_design_ecommerce.Errors.{
  Error, fault, wrapped, internal, conflict, not_found, Result, ok, err,
}
use system_design_ecommerce.Text.{Text, text_eq}
use system_design_ecommerce.Sku.{Sku}
use system_design_ecommerce.Tx
use system_design_ecommerce.Table.{select_one, select_all}
use system_design_ecommerce.Inventory.Domain.{
  Sentinel, Line, Reservation, StockItem, is_held, int32_max, insufficient_stock,
  stock_item_not_found, reservation_not_found,
}
use system_design_ecommerce.Inventory.Store.{
  Insert, is_some, Store, Answer, no_rows, db_error, returned, get_stock_item, reserve_stock,
  release_stock, commit_stock, adjust_stock, held_order_taken, insert_error, inserted,
  insert_reservation, update_reservation_status, claim_expired_reservations,
}

-- An action on the tables.
abbrev pub Action : Type 0 → Type 0
Action A = Tx.Action Store Sentinel A

-- errorx.Wrap(err, errorx.KindInternal, …)
abbrev pub driver_error : Error Sentinel
driver_error = fault internal ""

-- narrow: an int as an int32, clamped
unfoldable pub narrow : ℤ → ℕ
narrow n = if ltb_ℤ n (pos 0) then 0 else if ltb_ℤ (pos int32_max) n then int32_max else pos_part n

-- explainMiss
unfoldable pub explain_miss : Sku → Error Sentinel → Store → Error Sentinel
explain_miss sku refused s = elim (get_stock_item sku s) [
  | no_rows ↦ wrapped stock_item_not_found not_found "SKU_NOT_TRACKED"
  | db_error ↦ driver_error
  | returned _ _ ↦ refused
]

-- What a movement answers: `refusal` is the error for a row count of zero, if the SKU is tracked.
unfoldable pub moved : Error Sentinel → Sku → Answer StockItem → Action (Unit {0})
unfolding explain_miss
moved refusal sku no_rows s = err (explain_miss sku refusal s)
moved refusal sku db_error s = err driver_error
moved refusal sku (returned _ s') s = ok (tt, s')

-- Reserve
unfoldable pub reserve : Sku → ℕ → Action (Unit {0})
unfolding moved
reserve sku q s =
    moved (wrapped insufficient_stock conflict "OUT_OF_STOCK") sku (reserve_stock sku q s) s

-- movedHold
unfoldable pub moved_hold : Sku → Answer StockItem → Action (Unit {0})
unfolding moved
moved_hold = moved (fault internal "STOCK_INCONSISTENT")

-- Release
unfoldable pub release_held : Sku → ℕ → Action (Unit {0})
unfolding moved_hold
release_held sku q s = moved_hold sku (release_stock sku q s) s

-- Commit
unfoldable pub commit_held : Sku → ℕ → Action (Unit {0})
unfolding moved_hold
commit_held sku q s = moved_hold sku (commit_stock sku q s) s

-- what Adjust answers
unfoldable pub adjusted : Sku → Answer StockItem → Store → Result Sentinel (StockItem × Store)
unfolding explain_miss
adjusted sku no_rows s = err (explain_miss sku (fault conflict "STOCK_WOULD_GO_NEGATIVE") s)
adjusted sku db_error s = err driver_error
adjusted sku (returned r s') s = ok (r, s')

-- Adjust
unfoldable pub adjust : Sku → ℤ → Action StockItem
unfolding adjusted
adjust sku delta s = adjusted sku (adjust_stock sku delta s) s

-- StockRepository.Create, with CreateStockItem: UNIQUE (sku), and the primary key
unfoldable pub create_stock_item : StockItem → Action StockItem
create_stock_item item s =
    if is_some (select_one (λ r. text_eq r.sku item.sku) s.stock)
    then err (fault conflict "SKU_ALREADY_TRACKED")
    else if is_some (select_one (λ r. text_eq r.id item.id) s.stock)
    then err driver_error
    else let row : StockItem = record item {
      reserved = 0;
      created_at = s.clock;
      updated_at = s.clock;
      version = 1;
    } in
      ok (row, record s { stock = s.stock ++ row ∷ [] })

abbrev any_eq : Sku → List Sku → Bool
any_eq k [] = false
any_eq k (j ∷ js) = text_eq j k || any_eq k js

-- FindBySKUs: WHERE sku = ANY($1)
unfoldable pub find_by_skus : List Sku → Action (List StockItem)
find_by_skus skus s = ok (select_all (λ r. any_eq r.sku skus) s.stock, s)

module _ (order_by_sku : List Line → List Line) where
  -- withLines and toReservationDomain: the lines come ordered by SKU
  abbrev pub with_lines : Reservation → Reservation
  with_lines r = record r { lines = order_by_sku r.lines }

  -- pgx.ErrNoRows as the service's not-found, or the row with its lines
  unfoldable pub found : Option Reservation → Action Reservation
  found none s = err (wrapped reservation_not_found not_found "RESERVATION_NOT_FOUND")
  found (some r) s = ok (with_lines r, s)

  -- FindByID
  unfoldable pub find_by_id : Text → Action Reservation
  unfolding found
  find_by_id id s = found (select_one (λ r. text_eq r.id id) s.reservations) s

  -- FindHeldByOrderID
  unfoldable pub find_held_by_order_id : Text → Action Reservation
  unfolding found
  find_held_by_order_id order_id s =
      found (select_one (λ r. is_held r.status && text_eq r.order_id order_id) s.reservations) s

  -- ClaimExpired
  unfoldable pub claim_expired : (Text → Bool) → ℤ → ℤ → Action (List Reservation)
  claim_expired locked now limit s =
      ok (map with_lines (claim_expired_reservations locked now (narrow limit) s), s)

  -- what Update answers
  unfoldable pub updated : Answer Reservation → Result Sentinel (Reservation × Store)
  updated no_rows = err (fault conflict "RESERVATION_MODIFIED")
  updated db_error = err driver_error
  updated (returned row s') = ok (with_lines row, s')

  -- Update
  unfoldable pub update : Reservation → Action Reservation
  unfolding updated
  update r s = updated (update_reservation_status r.id r.status (narrow (pos r.version)) s)

-- what ReservationRepository.Create answers
unfoldable pub created : Insert → Result Sentinel (Reservation × Store)
created held_order_taken = err (fault conflict "RESERVATION_IN_FLIGHT")
created insert_error = err driver_error
created (inserted row s') = ok (row, s')

-- ReservationRepository.Create
unfoldable pub create : Reservation → Action Reservation
unfolding created
create r s = created (insert_reservation r s)
