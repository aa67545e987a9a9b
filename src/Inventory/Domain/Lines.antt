-- ===== src/Inventory/Domain/Lines.antt =====
-- canonicalLines and NewReservation (reservation.go).
pub mod Canonical
pub mod Multiset
use system_design_ecommerce.Prelude.{ℕ, ◌+◌, List, [], ◌∷◌, ltb, leb, length, if◌then◌else◌}
use system_design_ecommerce.Prelude.Int.{ℤ, pos, ◌+ℤ◌, leb_ℤ}
use system_design_ecommerce.Errors.{validation, Result, ok, err, ◌>>=◌}
use system_design_ecommerce.Text.{Text, text_eq, is_empty}
use system_design_ecommerce.Text.Order.{text_ltb}
use system_design_ecommerce.Sku.{Sku}
use system_design_ecommerce.Inventory.Domain.{Sentinel, Line, Reservation, held, zero_time}

abbrev pub lines_max : ℕ
lines_max = 100

abbrev pub line_quantity_max : ℕ
line_quantity_max = 10000

-- summed[sku] on the map, in the order in which its keys came; 0 for a missing key
unfoldable pub summed : Sku → List Line → ℕ
summed k [] = 0
summed k (l ∷ m) = if text_eq l.sku k then l.quantity else summed k m

-- summed[line.SKU] += line.Quantity
unfoldable pub add_line : Line → List Line → List Line
add_line l [] = l ∷ []
add_line l (e ∷ m) =
    if text_eq e.sku l.sku
    then record e { quantity = e.quantity + l.quantity } ∷ m
    else e ∷ add_line l m

-- the loop over the lines. The sums are int32 in the source: a quantity is at most 1,000,000 and a
-- sum at most 10,000, so none wraps.
unfoldable pub sum_lines : List Line → List Line → Result Sentinel (List Line)
sum_lines [] m = ok m
sum_lines (l ∷ ls) m =
    if is_empty l.sku
    then err (validation "sku" "is required")
    else if leb l.quantity 0
    then err (validation "quantity" "must be at least 1")
    else if ltb line_quantity_max (summed l.sku m + l.quantity)
    then err (validation "quantity" "totals more than 10000 for one sku")
    else sum_lines ls (add_line l m)

-- slices.SortFunc by SKU. The keys of a map are distinct, so every sort gives this list, in
-- whatever order the map was walked.
unfoldable pub insert_line : Line → List Line → List Line
insert_line l [] = l ∷ []
insert_line l (e ∷ m) = if text_ltb l.sku e.sku then l ∷ e ∷ m else e ∷ insert_line l m

unfoldable pub sort_lines : List Line → List Line
unfolding insert_line
sort_lines [] = []
sort_lines (l ∷ m) = insert_line l (sort_lines m)

unfoldable pub canonical_lines : List Line → Result Sentinel (List Line)
canonical_lines [] = err (validation "lines" "is required")
canonical_lines (l ∷ ls) =
    if ltb lines_max (length (l ∷ ls))
    then err (validation "lines" "has more than 100 entries")
    else sum_lines (l ∷ ls) [] >>= λ m. ok (sort_lines m)

-- the reservation that NewReservation builds
abbrev pub held_reservation : Text → Text → List Line → ℤ → Reservation
held_reservation id order_id canonical expires_at = record {
  id = id;
  order_id = order_id;
  lines = canonical;
  status = held;
  expires_at = expires_at;
  created_at = zero_time;
  updated_at = zero_time;
  version = 1;
}

-- NewReservation, under the id that it mints
unfoldable pub new_reservation : Text → Text → List Line → ℤ → ℤ → Result Sentinel Reservation
new_reservation id order_id lines now ttl =
    if leb_ℤ ttl (pos 0)
    then err (validation "ttl" "must be positive")
    else canonical_lines lines >>= λ canonical.
        ok (held_reservation id order_id canonical (now +ℤ ttl))
