-- ===== src/Inventory/Store.antt =====
-- The tables of the inventory service (db/migrations) and the statements on them (db/queries).
-- A row of reservations stands together with its rows of reservation_lines. `clock` is what now()
-- gives, the start of the running transaction.
pub mod Stock
pub mod Holds
pub mod Claims
use system_design_ecommerce.Prelude.{
  ℕ, ◌+◌, ◌-◌, Bool, true, false, not, ◌&&◌, ◌||◌, Option, none, some, List, [], ◌∷◌, ◌++◌, take,
  leb, ◌==◌, if◌then◌else◌,
}
use system_design_ecommerce.Prelude.Int.{ℤ, pos, pos_part, ◌+ℤ◌, leb_ℤ}
use system_design_ecommerce.Text.{Text, text_eq}
use system_design_ecommerce.Sku.{Sku}
use system_design_ecommerce.Table.{select_one, update_one, select_all, sort_by}
use system_design_ecommerce.Inventory.Domain.{
  Line, Reservation, Status, StockItem, int32_max, is_held,
}

pub record Store : Type 0 where
  pub stock : List StockItem
  pub reservations : List Reservation
  pub clock : ℤ

-- What a statement that returns one row (:one) answers: pgx.ErrNoRows, another error of the
-- database (a value that is out of the range of int, a constraint without a name in the code), or
-- the row and the rows stored.
pub data Answer (A : Type 0) : Type 0 where
  no_rows : Answer A
  db_error : Answer A
  returned : A → Store → Answer A

abbrev pub is_some {ℓ} : {A : Type ℓ} → Option A → Bool
is_some none = false
is_some (some a) = true

-- available and reserved are int: a sum beyond its range fails the statement.
abbrev pub fits : StockItem → Bool
fits r = leb r.available int32_max && leb r.reserved int32_max && leb r.version int32_max

-- The rows after an UPDATE that found `r`.
unfoldable pub stock_after : Sku → (StockItem → Bool) → StockItem → Store → Store
stock_after sku guard r s = record s {
  stock = update_one (λ x. text_eq x.sku sku && guard x) (λ _. r) s.stock;
}

-- The answer to an UPDATE, by the row that its WHERE found.
unfoldable pub write_stock :
    Sku → (StockItem → Bool) → (StockItem → StockItem) → Store → Option StockItem → Answer StockItem
unfolding stock_after
write_stock sku guard change s none = no_rows
write_stock sku guard change s (some r) =
    let r' : StockItem = record (change r) { updated_at = s.clock; version = r.version + 1 } in
    if fits r' then returned r' (stock_after sku guard r' s) else db_error

-- UPDATE stock_items SET ... WHERE sku = $1 AND guard RETURNING *
unfoldable pub update_stock :
    Sku → (StockItem → Bool) → (StockItem → StockItem) → Store → Answer StockItem
unfolding write_stock
update_stock sku guard change s =
    write_stock sku guard change s (select_one (λ r. text_eq r.sku sku && guard r) s.stock)

-- GetStockItemBySKU
unfoldable pub get_stock_item : Sku → Store → Answer StockItem
get_stock_item sku s = elim (select_one (λ r. text_eq r.sku sku) s.stock) [
  | none ↦ no_rows
  | some r ↦ returned r s
]

-- available >= quantity
abbrev pub has_available : ℕ → StockItem → Bool
has_available q r = leb q r.available

-- reserved >= quantity
abbrev pub has_reserved : ℕ → StockItem → Bool
has_reserved q r = leb q r.reserved

abbrev pub take_hold : ℕ → StockItem → StockItem
take_hold q r = record r { available = r.available - q; reserved = r.reserved + q }

abbrev pub give_back : ℕ → StockItem → StockItem
give_back q r = record r { available = r.available + q; reserved = r.reserved - q }

abbrev pub sell : ℕ → StockItem → StockItem
sell q r = record r { reserved = r.reserved - q }

-- ReserveStock
unfoldable pub reserve_stock : Sku → ℕ → Store → Answer StockItem
reserve_stock sku q = update_stock sku (has_available q) (take_hold q)

-- ReleaseStock
unfoldable pub release_stock : Sku → ℕ → Store → Answer StockItem
release_stock sku q = update_stock sku (has_reserved q) (give_back q)

-- CommitStock
unfoldable pub commit_stock : Sku → ℕ → Store → Answer StockItem
commit_stock sku q = update_stock sku (has_reserved q) (sell q)

-- available + delta, where it is not below zero
abbrev pub stays_positive : ℤ → StockItem → Bool
stays_positive delta r = leb_ℤ (pos 0) (pos r.available +ℤ delta)

abbrev pub shift : ℤ → StockItem → StockItem
shift delta r = record r { available = pos_part (pos r.available +ℤ delta) }

-- AdjustStock
unfoldable pub adjust_stock : Sku → ℤ → Store → Answer StockItem
adjust_stock sku delta = update_stock sku (stays_positive delta) (shift delta)

-- The answer to CreateReservation and its CreateReservationLine statements.
pub data Insert : Type 0 where
  held_order_taken : Insert
  insert_error : Insert
  inserted : Reservation → Store → Insert

names_sku : Sku → List Line → Bool
names_sku k [] = false
names_sku k (l ∷ ls) = text_eq l.sku k || names_sku k ls

-- CHECK (quantity > 0) and UNIQUE (reservation_id, sku)
unfoldable pub lines_fit : List Line → Bool
unfolding names_sku
lines_fit [] = true
lines_fit (l ∷ ls) = (leb 1 l.quantity && not (names_sku l.sku ls)) && lines_fit ls

-- INSERT INTO reservations, then one row for each line. The primary key is tested
-- first, then the partial unique index on order_id.
unfoldable pub insert_reservation : Reservation → Store → Insert
unfolding lines_fit
insert_reservation r s =
    if is_some (select_one (λ x. text_eq x.id r.id) s.reservations)
    then insert_error
    else if is_some
        (select_one (λ x. is_held x.status && text_eq x.order_id r.order_id) s.reservations)
    then held_order_taken
    else if not (lines_fit r.lines)
    then insert_error
    else let row : Reservation = record r {
      created_at = s.clock;
      updated_at = s.clock;
      version = 1;
    } in
      inserted row (record s { reservations = s.reservations ++ row ∷ [] })

-- The answer to UpdateReservationStatus, by the row that its WHERE found.
unfoldable pub write_status : Text → Status → ℕ → Store → Option Reservation → Answer Reservation
write_status id status version s none = no_rows
write_status id status version s (some r) =
    let r' : Reservation = record r {
      status = status;
      updated_at = s.clock;
      version = r.version + 1;
    } in
    if leb r'.version int32_max
    then returned r' (record s {
      reservations =
          update_one (λ x. text_eq x.id id && x.version == version) (λ _. r') s.reservations;
    })
    else db_error

-- UpdateReservationStatus: WHERE id = $1 AND version = $3
unfoldable pub update_reservation_status : Text → Status → ℕ → Store → Answer Reservation
unfolding write_status
update_reservation_status id status version s =
    write_status id status version s
      (select_one (λ r. text_eq r.id id && r.version == version) s.reservations)

-- ORDER BY expires_at
abbrev pub expires_first : Reservation → Reservation → Bool
expires_first r x = leb_ℤ r.expires_at x.expires_at

-- ClaimExpiredReservations. `locked` are the rows that another transaction has locked, which SKIP
-- LOCKED steps over.
unfoldable pub claim_expired_reservations : (Text → Bool) → ℤ → ℕ → Store → List Reservation
claim_expired_reservations locked now limit s = take limit (
    sort_by expires_first (
      select_all (λ r. (is_held r.status && leb_ℤ r.expires_at now) && not (locked r.id))
        s.reservations))
