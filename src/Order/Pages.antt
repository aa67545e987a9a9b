-- ===== src/Order/Pages.antt =====
-- GetOrder and ListOrders of services/order/internal/app/order_service.go, and cursor.go. The text
-- of a time in RFC 3339 and base64 are parameters: `format_time`, `parse_time`, `encode64` and
-- `decode64`. `uuid_of` is uuid.Parse with String.
use system_design_ecommerce.Prelude.{
  zero, ◌-◌, suc, ℕ, ◌+◌, not, Option, none, some, List, [], ◌∷◌, ◌++◌, length, take, ltb, ◌==◌,
  if◌then◌else◌,
}
use system_design_ecommerce.Prelude.Int.{ℤ, pos, pos_part, leb_ℤ, ltb_ℤ}
use system_design_ecommerce.Errors.{
  sentinel, fault, invalid_input, Result, ok, err, refuse_if, ◌>>=◌, ◌>>◌,
}
use system_design_ecommerce.Text.{Text, text_eq, is_empty}
use system_design_ecommerce.Uuid.{parse_uuid}
use system_design_ecommerce.Order.Domain.{Sentinel, Order, OrderLine, order_not_found}
use system_design_ecommerce.Order.Store.{Store}
use system_design_ecommerce.Order.Placing.{OrderCursor, list_orders}
use system_design_ecommerce.Order.Checkout.{find_order}

abbrev pub default_page_size : ℕ
default_page_size = 20

abbrev pub max_page_size : ℕ
max_page_size = 100

-- in.OrdersPage
pub record OrdersPage : Type 0 where
  pub orders : List Order
  pub next_page_token : Text

-- the size that ListOrders makes of the one it is asked for
unfoldable pub page_size : ℤ → ℕ
page_size size =
    if leb_ℤ size (pos 0)
    then default_page_size
    else if ltb_ℤ (pos max_page_size) size
    then max_page_size
    else pos_part size

-- what encodeCursor and decodeCursor take of the standard library
pub record Codec : Type 0 where
  pub format_time : ℤ → Text
  pub parse_time : Text → Option ℤ
  pub encode64 : Text → Text
  pub decode64 : Text → Option Text

-- cursorSeparator
abbrev cursor_separator : ℕ
cursor_separator = b'|'

-- encodeCursor
unfoldable pub encode_cursor : Codec → OrderCursor → Text
encode_cursor codec c = codec.encode64 (codec.format_time c.created_at ++ (cursor_separator ∷ c.id))

-- a page token that is none
abbrev invalid_cursor {ℓ} : {A : Type ℓ} → Result Sentinel A
invalid_cursor = err (fault invalid_input "")

-- strings.Cut at the separator
unfoldable pub cut_cursor : Text → Option (Text × Text)
cut_cursor [] = none
cut_cursor (c ∷ s) = if c == cursor_separator then some ([], s) else behind c (cut_cursor s)
  where
    behind : ℕ → Option (Text × Text) → Option (Text × Text)
    behind c none = none
    behind c (some (front, back)) = some (c ∷ front, back)

-- decodeCursor, of the parts of the token
unfoldable pub cursor_of_id : ℤ → Result Sentinel Text → Result Sentinel (Option OrderCursor)
cursor_of_id at (err e) = invalid_cursor
cursor_of_id at (ok id) = ok (some (record { created_at = at; id = id }))

unfoldable pub cursor_of_time :
    (Text → Option Text) → Text → Option ℤ → Result Sentinel (Option OrderCursor)
unfolding cursor_of_id
cursor_of_time uuid_of id none = invalid_cursor
cursor_of_time uuid_of id (some at) = cursor_of_id at (parse_uuid uuid_of "id" id)

unfoldable pub cursor_of_parts :
    Codec → (Text → Option Text) → Option (Text × Text) → Result Sentinel (Option OrderCursor)
unfolding cursor_of_time
cursor_of_parts codec uuid_of none = invalid_cursor
cursor_of_parts codec uuid_of (some (created_at, id)) =
    cursor_of_time uuid_of id (codec.parse_time created_at)

unfoldable pub cursor_of_raw :
    Codec → (Text → Option Text) → Option Text → Result Sentinel (Option OrderCursor)
unfolding cursor_of_parts cut_cursor
cursor_of_raw codec uuid_of none = invalid_cursor
cursor_of_raw codec uuid_of (some raw) = cursor_of_parts codec uuid_of (cut_cursor raw)

-- decodeCursor
unfoldable pub decode_cursor :
    Codec → (Text → Option Text) → Text → Result Sentinel (Option OrderCursor)
unfolding cursor_of_raw
decode_cursor codec uuid_of token =
    if is_empty token then ok none else cursor_of_raw codec uuid_of (codec.decode64 token)

-- orders[size-1]
abbrev last_at : ℕ → List Order → Option Order
last_at n [] = none
last_at zero (o ∷ os) = some o
last_at (suc n) (o ∷ os) = last_at n os

abbrev token_of : Codec → Option Order → Text
token_of codec none = []
token_of codec (some o) = encode_cursor codec (record { created_at = o.created_at; id = o.id })

-- the page that ListOrders cuts, and its token
unfoldable pub page_of : Codec → ℕ → List Order → OrdersPage
page_of codec size orders =
    if ltb size (length orders)
    then record {
      orders = take size orders;
      next_page_token = token_of codec (last_at (size - 1) orders);
    }
    else record { orders = orders; next_page_token = [] }

module _ (order_by_sku : List OrderLine → List OrderLine) (uuid_of : Text → Option Text) where
  -- GetOrder
  unfoldable pub get_order : Text → Text → Store → Result Sentinel Order
  get_order order_id user_id s = do
    id ← parse_uuid uuid_of "id" order_id
    user ← parse_uuid uuid_of "user_id" user_id
    o ← find_order order_by_sku id s
    refuse_if (not (text_eq o.user_id user)) (sentinel order_not_found)
    ok o

  -- ListOrders
  unfoldable pub list : Codec → Text → ℤ → Text → Store → Result Sentinel OrdersPage
  unfolding page_of page_size decode_cursor
  list codec user_id size token s = do
    user ← parse_uuid uuid_of "user_id" user_id
    after ← decode_cursor codec uuid_of token
    ok (
        page_of codec (page_size size)
          (list_orders order_by_sku user after (pos (page_size size + 1)) s))
