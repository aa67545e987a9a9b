-- ===== src/Tests/Checkout.antt =====
-- The theorems of checkout and its pages at concrete inputs: an order of one line, and the first page.
use system_design_ecommerce.Idempotency.{find_claim, take_claim}
use system_design_ecommerce.Order.Domain.{new_order, new_order_line}
use system_design_ecommerce.Order.Placing.{claim_key, create, rows_fit}
use system_design_ecommerce.Text.Case.{to_upper, upper_rune}
use system_design_ecommerce.Order.Repeated.{Keeps, checkout-once}
use system_design_ecommerce.Text.Case.{trim_space, is_space}
use system_design_ecommerce.Order.Placing.{list_orders}
use system_design_ecommerce.Order.Store.{narrow}
use system_design_ecommerce.Table.{sort_by}
use system_design_ecommerce.Order.Listed.{IsAsked, IsFilled, list-bounds, AllOf}
use system_design_ecommerce.Sku.{Sku}
use system_design_ecommerce.Text.{Text}
use system_design_ecommerce.Prelude.Int.{pos}
use system_design_ecommerce.Tests.Order.{uuid}
use system_design_ecommerce.Uuid.{parse_uuid}
use system_design_ecommerce.Order.Reserved.{Settled, checkout-Settled}
use system_design_ecommerce.Prelude.{◌++◌, ℕ, ◌≡◌, refl, [], ◌∷◌, List, Option, some, none}
use system_design_ecommerce.Errors.{Result, ok}
use system_design_ecommerce.Tx.{run_tx, commits, commit_lost, conclude}
use system_design_ecommerce.Order.Domain.{Order, Sentinel}
use system_design_ecommerce.Order.Store.{Store}
use system_design_ecommerce.Order.Checkout.{
  answers, Outcome, Request, ReservationLine, PricedSku, checkout_parsed,
}
use system_design_ecommerce.Order.Pages.{list, Codec, OrdersPage}
use system_design_ecommerce.Tests.Order.{baht, by_sku, tables, stored_order}

abbrev twelve : ReservationLine
twelve = record { sku = b'A' ∷ b'1' ∷ b'2' ∷ []; quantity = pos 2 }

abbrev wanted : Request
wanted = record { user_id = b'u' ∷ []; key = b'k' ∷ []; lines = twelve ∷ []; hash = b'h' ∷ [] }

abbrev pricing : List Sku → Result Sentinel (List PricedSku)
pricing skus = ok ((record { sku = b'A' ∷ b'1' ∷ b'2' ∷ []; price = baht 1050 }) ∷ [])

abbrev reserving : Text → List ReservationLine → Result Sentinel Text
reserving id lines = ok (b's' ∷ [])

abbrev alone : Store → Store
alone s = s

checkout-Settled_example :
    Settled commits
      (b'n' ∷ [])
      (b's' ∷ [])
      tables
      (checkout_parsed by_sku pricing reserving alone commits (b'n' ∷ []) (ok wanted) tables)
checkout-Settled_example =
    checkout-Settled by_sku pricing reserving alone commits (b'n' ∷ []) (b's' ∷ []) wanted tables
      refl

abbrev codec : Codec
codec = record {
  format_time = λ t. [];
  parse_time = λ t. none;
  encode64 = λ t. t;
  decode64 = λ t. some t;
}

abbrev mine : Text → Option Text
mine t = some (b'u' ∷ [])

abbrev page : OrdersPage
page = record { orders = stored_order ∷ []; next_page_token = [] }

first_page : list by_sku mine codec uuid (pos 5) [] tables ≡ ok page
unfolding list parse_uuid trim_space is_space list_orders narrow sort_by
first_page = refl

list-bounds_example :
    (n : ℕ) × IsAsked (pos 5) n
    × IsFilled n page
    × ((user : Text) × (◌≡◌ {A = Result Sentinel Text} (parse_uuid mine "user_id" uuid) (ok user))
        × AllOf user (stored_order ∷ []))
list-bounds_example = list-bounds by_sku mine codec uuid (pos 5) [] tables page first_page

abbrev first_call : Outcome
first_call = checkout_parsed by_sku pricing reserving alone commits (b'n' ∷ []) (ok wanted) tables

abbrev placed_row : Order
placed_row = record stored_order {
  id = b'n' ∷ [];
  reservation_id = b's' ∷ [];
  lines = (record { sku = b'A' ∷ b'1' ∷ b'2' ∷ []; quantity = 2; unit_price = baht 1050 }) ∷ [];
  total = baht 2100;
}

first_places :
    (first_call.reserved ≡ (b'n' ∷ []) ∷ [])
    × (first_call.released ≡ [])
    × (first_call.answer ≡ ok placed_row)
unfolding checkout_parsed find_claim new_order_line run_tx claim_key take_claim new_order create
    rows_fit to_upper upper_rune
first_places = (refl, refl, refl)

-- The commit is applied and its answer is lost: the order is stored, and its reservation released.
abbrev unheard_call : Outcome
unheard_call =
    checkout_parsed by_sku pricing reserving alone commit_lost (b'n' ∷ []) (ok wanted) tables

unheard_call_releases :
    (unheard_call.released ≡ (b's' ∷ []) ∷ [])
    × (unheard_call.stored.orders ≡ tables.orders ++ placed_row ∷ [])
unfolding checkout_parsed find_claim new_order_line run_tx conclude claim_key take_claim new_order
    create rows_fit to_upper upper_rune
unheard_call_releases = (refl, refl)

stored-Keeps : Keeps first_call.stored first_call.stored
stored-Keeps = record { claims_stay = λ user_id key c h. h; orders_stay = λ id r h. (r, h) }

checkout-once_example :
    (again : Order) × (again.id ≡ b'n' ∷ [])
    × (checkout_parsed by_sku pricing reserving alone commits
          (b'm' ∷ [])
          (ok wanted)
          first_call.stored
        ≡ answers (ok again) first_call.stored)
checkout-once_example =
    checkout-once by_sku pricing pricing reserving reserving alone alone commits commits (b'n' ∷ [])
      (b'm' ∷ []) wanted tables first_call.stored placed_row first_places.0 first_places.1
      first_places.2 stored-Keeps
