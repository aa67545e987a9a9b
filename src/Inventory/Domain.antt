-- ===== src/Inventory/Domain.antt =====
-- services/inventory/internal/domain: counts, lines, the reservation aggregate and its state
-- machine. A value of Quantity is a ℕ: NewQuantity lets no negative count in, and the int32 columns
-- hold none. An instant and a duration are integers (nanoseconds).
pub mod Lifecycle
pub mod Lines
use system_design_ecommerce.Prelude.{
  ℕ, ◌||◌, ◌&&◌, Bool, true, false, not, List, [], ◌∷◌, ◌==◌, if◌then◌else◌, String,
}
use system_design_ecommerce.Prelude.Int.{ℤ, pos, negsuc, pos_part, ltb_ℤ, leb_ℤ}
use system_design_ecommerce.Errors.{validation, sentinel, Result, ok, err}
use system_design_ecommerce.Text.{Text, text_eq}
use system_design_ecommerce.Sku.{Sku}

-- errors.go: the package's sentinels
pub data Sentinel : Type 0 where
  insufficient_stock stock_item_not_found reservation_not_found : Sentinel
  reservation_expired reservation_committed reservation_released : Sentinel
  reservation_not_expired : Sentinel

abbrev pub same_sentinel : Sentinel → Sentinel → Bool
same_sentinel insufficient_stock insufficient_stock = true
same_sentinel stock_item_not_found stock_item_not_found = true
same_sentinel reservation_not_found reservation_not_found = true
same_sentinel reservation_expired reservation_expired = true
same_sentinel reservation_committed reservation_committed = true
same_sentinel reservation_released reservation_released = true
same_sentinel reservation_not_expired reservation_not_expired = true
same_sentinel _ _ = false

abbrev pub quantity_max : ℕ
quantity_max = 1000000

abbrev pub int32_max : ℕ
int32_max = 2147483647

-- NewQuantity
unfoldable pub new_quantity : String → ℤ → Result Sentinel ℕ
new_quantity field n =
    if ltb_ℤ n (pos 0) || ltb_ℤ (pos quantity_max) n
    then err (validation field "must be between 0 and 1000000")
    else ok (pos_part n)

-- NewAdjustment: the delta as it goes to the statement
unfoldable pub new_adjustment : ℤ → Result Sentinel ℤ
new_adjustment delta =
    if leb_ℤ delta (pos 0) && leb_ℤ (pos 0) delta
    then err (validation "delta" "must not be zero")
    else if ltb_ℤ delta (negsuc 999999) || ltb_ℤ (pos quantity_max) delta
    then err (validation "delta" "must be between -1000000 and 1000000")
    else ok delta

-- domain.Line
pub record Line : Type 0 where
  pub sku : Sku
  pub quantity : ℕ

-- ReservationStatus is a string: `unknown` is any other text that a row may hold.
pub data Status : Type 0 where
  held committed released expired : Status
  unknown : Text → Status

pub record Reservation : Type 0 where
  pub id : Text
  pub order_id : Text
  pub lines : List Line
  pub status : Status
  pub expires_at : ℤ
  pub created_at : ℤ
  pub updated_at : ℤ
  pub version : ℕ

pub record StockItem : Type 0 where
  pub id : Text
  pub sku : Sku
  pub available : ℕ
  pub reserved : ℕ
  pub created_at : ℤ
  pub updated_at : ℤ
  pub version : ℕ

-- time.Time{}, from which instants are counted
abbrev pub zero_time : ℤ
zero_time = pos 0

-- NewStockItem, under the id that it mints
unfoldable pub new_stock_item : Text → Sku → ℕ → StockItem
new_stock_item id sku available = record {
  id = id;
  sku = sku;
  available = available;
  reserved = 0;
  created_at = zero_time;
  updated_at = zero_time;
  version = 1;
}

-- hasExpired: !now.Before(expiresAt)
abbrev pub has_expired : Reservation → ℤ → Bool
has_expired r now = not (ltb_ℤ now r.expires_at)

-- A method of *Reservation returns the reservation that it leaves, whether it moved it, and its
-- error.
abbrev pub Transition : Type 0
Transition = Result Sentinel (Reservation × Bool)

commit_from : Status → ℤ → Reservation → Transition
commit_from committed now r = ok (r, false)
commit_from released now r = err (sentinel reservation_released)
commit_from expired now r = err (sentinel reservation_expired)
commit_from held now r =
    if has_expired r now
    then err (sentinel reservation_expired)
    else ok (record r { status = committed }, true)
commit_from (unknown s) now r = err (sentinel reservation_not_found)

unfoldable pub commit : ℤ → Reservation → Transition
unfolding commit_from
commit now r = commit_from r.status now r

release_from : Status → Reservation → Transition
release_from released r = ok (r, false)
release_from expired r = ok (r, false)
release_from committed r = err (sentinel reservation_committed)
release_from held r = ok (record r { status = released }, true)
release_from (unknown s) r = err (sentinel reservation_not_found)

unfoldable pub release : Reservation → Transition
unfolding release_from
release r = release_from r.status r

abbrev pub is_held : Status → Bool
is_held held = true
is_held _ = false

unfoldable pub expire : ℤ → Reservation → Transition
expire now r =
    if not (is_held r.status)
    then ok (r, false)
    else if not (has_expired r now)
    then err (sentinel reservation_not_expired)
    else ok (record r { status = expired }, true)

-- slices.Equal on lines
abbrev pub lines_eq : List Line → List Line → Bool
lines_eq [] [] = true
lines_eq (a ∷ xs) (b ∷ ys) = (text_eq a.sku b.sku && a.quantity == b.quantity) && lines_eq xs ys
lines_eq _ _ = false

-- Matches
unfoldable pub matches : Reservation → List Line → Bool
matches r lines = lines_eq r.lines lines
