-- ===== src/Order/Checkout.antt =====
-- Checkout of services/order/internal/app/order_service.go. The other services are parameters:
-- `price_skus` is the catalog gateway's PriceSKUs and `reserve` the inventory gateway's Reserve, whose
-- Release is recorded and whatever it answers is dropped, as the code does. `uuid_of` is uuid.Parse
-- with String, `sha256` the digest and `decimal` what %d prints. The identifier that a call mints is
-- an argument, and so is how the server answers to the transaction. `meanwhile` is what others store
-- while the catalog and the inventory are asked.
use system_design_ecommerce.Prelude.{
  Bool, true, false, not, Option, none, some, List, [], ◌∷◌, ◌++◌, length, ◌==◌, map, if◌then◌else◌,
}
use system_design_ecommerce.Prelude.Int.{ℤ}
use system_design_ecommerce.Errors.{
  Error, validation, sentinel, fault, wrapped, internal, invalid_input, conflict, Result, ok, err,
  refuse_if, ◌>>=◌, ◌>>◌,
}
use system_design_ecommerce.Text.{Text, text_eq, is_empty}
use system_design_ecommerce.Text.Order.{text_ltb}
use system_design_ecommerce.Uuid.{parse_uuid}
use system_design_ecommerce.Sku.{Sku, new_sku}
use system_design_ecommerce.Money.{Money}
use system_design_ecommerce.Table.{sort_by}
use system_design_ecommerce.Idempotency.{Claim, find_claim}
use system_design_ecommerce.Tx.{Server, run_tx}
use system_design_ecommerce.Order.Domain.{Sentinel, Order, OrderLine, new_order_line, new_order}
use system_design_ecommerce.Order.Store.{Store, find_by_id_for_update}
use system_design_ecommerce.Order.Placing.{create, claim_key}

-- in.CheckoutLine
pub record CheckoutLine : Type 0 where
  pub sku : Text
  pub quantity : ℤ

-- in.CheckoutCommand
pub record CheckoutCommand : Type 0 where
  pub user_id : Text
  pub idempotency_key : Text
  pub lines : List CheckoutLine

-- out.ReservationLine
pub record ReservationLine : Type 0 where
  pub sku : Sku
  pub quantity : ℤ

-- out.PricedSKU
pub record PricedSku : Type 0 where
  pub sku : Sku
  pub price : Money

-- the command once it has been parsed, with its fingerprint
pub record Request : Type 0 where
  pub user_id : Text
  pub key : Text
  pub lines : List ReservationLine
  pub hash : Text

-- What a call answers and stores, and what it asked of the inventory: for which order it reserved,
-- and which reservations it released.
pub record Outcome : Type 0 where
  pub answer : Result Sentinel Order
  pub stored : Store
  pub reserved : List Text
  pub released : List Text

-- errKeyReused
abbrev pub key_reused {ℓ} : {S : Type ℓ} → Error S
key_reused = fault conflict "IDEMPOTENCY_KEY_REUSED"

-- the loop of requestedLines
unfoldable pub parse_lines : List CheckoutLine → Result Sentinel (List ReservationLine)
parse_lines [] = ok []
parse_lines (l ∷ ls) = do
  sku ← new_sku l.sku
  rest ← parse_lines ls
  ok ((record { sku = sku; quantity = l.quantity }) ∷ rest)

-- requestedLines
unfoldable pub requested_lines : List CheckoutLine → Result Sentinel (List ReservationLine)
unfolding parse_lines
requested_lines lines = refuse_if (length lines == 0) (fault invalid_input "") >> parse_lines lines

-- the bytes that hashRequest digests after the user
abbrev joined : List Text → Text
joined [] = []
joined (line ∷ lines) = 0 ∷ line ++ joined lines

-- hashRequest
unfoldable pub hash_request : (Text → Text) → (ℤ → Text) → Text → List ReservationLine → Text
hash_request sha256 decimal user_id lines =
    sha256
      (user_id ++ joined (sort_by text_ltb (map (λ l. l.sku ++ (b':' ∷ decimal l.quantity)) lines)))

-- the parse at the head of Checkout
unfoldable pub parse_checkout :
    (Text → Option Text) → (Text → Text) → (ℤ → Text) → CheckoutCommand → Result Sentinel Request
unfolding requested_lines hash_request
parse_checkout uuid_of sha256 decimal cmd = do
  user_id ← parse_uuid uuid_of "user_id" cmd.user_id
  refuse_if (is_empty cmd.idempotency_key) (fault invalid_input "IDEMPOTENCY_KEY_REQUIRED")
  lines ← requested_lines cmd.lines
  ok (record {
    user_id = user_id;
    key = cmd.idempotency_key;
    lines = lines;
    hash = hash_request sha256 decimal user_id lines;
  })

-- prices[sku]: the price that was put in last
abbrev last_of : Option Money → PricedSku → Sku → Option Money
last_of (some m) p k = some m
last_of none p k = if text_eq p.sku k then some p.price else none

unfoldable pub price_of : Sku → List PricedSku → Option Money
price_of k [] = none
price_of k (p ∷ ps) = last_of (price_of k ps) p k

-- one line of price
abbrev priced_line : ReservationLine → Option Money → Result Sentinel OrderLine
priced_line l none = err (fault conflict "SKU_NOT_SELLABLE")
priced_line l (some price) = new_order_line l.sku l.quantity price

-- the second loop of price
unfoldable pub price_lines :
    List PricedSku → List ReservationLine → Result Sentinel (List OrderLine)
unfolding price_of
price_lines priced [] = ok []
price_lines priced (l ∷ ls) = do
  line ← priced_line l (price_of l.sku priced)
  rest ← price_lines priced ls
  ok (line ∷ rest)

-- price
unfoldable pub price :
    (List Sku → Result Sentinel (List PricedSku))
    → List ReservationLine
    → Result Sentinel (List OrderLine)
unfolding price_lines
price price_skus requested =
    price_skus (map (λ l. l.sku) requested) >>= λ priced. price_lines priced requested

-- How the transaction of Checkout ends without storing: an error of the service, or errReplay with
-- the order that the key has.
pub data Stop : Type 0 where
  refused : Error Sentinel → Stop
  replayed : Text → Stop

abbrev pub stop_on {ℓ} : {A : Type ℓ} → Result Sentinel A → Result Stop A
stop_on (ok a) = ok a
stop_on (err e) = err (sentinel (refused e))

-- the transaction, once the idempotency store has answered
unfoldable pub place_claimed :
    Result Sentinel Order → Text → (Claim × Bool) × Store → Result Stop (Order × Store)
place_claimed built hash ((standing, false), s) =
    if not (text_eq standing.request_hash hash)
    then err (sentinel (refused key_reused))
    else err (sentinel (replayed standing.answer))
place_claimed built hash ((standing, true), s) = stop_on (built >>= λ o. create o s)

-- the transaction of Checkout: the claim and the order
unfoldable pub place_tx :
    Request → Text → Text → List OrderLine → Store → Result Stop (Order × Store)
unfolding place_claimed
place_tx q order_id reservation_id lines s =
    place_claimed (new_order order_id q.user_id reservation_id lines) q.hash (
      claim_key
        (record { user_id = q.user_id; key = q.key; request_hash = q.hash; answer = order_id }) s)

-- the error of the transaction, where it is not errReplay
abbrev pub stop_error : Error Stop → Error Sentinel
stop_error (validation field message) = validation field message
stop_error (sentinel (refused e)) = e
stop_error (sentinel (replayed id)) = fault internal ""
stop_error (fault kind reason) = fault kind reason
stop_error (wrapped cause kind reason) = fault kind reason

-- an answer without anything asked of the inventory
abbrev pub answers : Result Sentinel Order → Store → Outcome
answers answer s = record { answer = answer; stored = s; reserved = []; released = [] }

module _ (order_by_sku : List OrderLine → List OrderLine) where
  -- FindByID, which stores nothing
  abbrev pub find_order : Text → Store → Result Sentinel Order
  find_order id s = find_by_id_for_update order_by_sku id s >>= λ (o, _). ok o

  -- replay, by the claim that Find gives: nil, or the order that answers the key
  unfoldable pub replay_of : Text → Store → Option Claim → Result Sentinel (Option Order)
  replay_of hash s none = ok none
  replay_of hash s (some claim) =
      if not (text_eq claim.request_hash hash)
      then err key_reused
      else (find_order claim.answer s >>= λ o. ok (some o))

  -- replay
  unfoldable pub replay : Request → Store → Result Sentinel (Option Order)
  unfolding replay_of
  replay q s = replay_of q.hash s (find_claim q.user_id q.key s.claims)

  -- Checkout, once its transaction has ended: what it leaves of the reservation
  unfoldable pub after_place : Text → Text → Result Stop Order × Store → Outcome
  after_place order_id reservation_id (ok o, s) = record {
    answer = ok o;
    stored = s;
    reserved = order_id ∷ [];
    released = [];
  }
  after_place order_id reservation_id (err (sentinel (replayed id)), s) = record {
    answer = find_order id s;
    stored = s;
    reserved = order_id ∷ [];
    released = reservation_id ∷ [];
  }
  after_place order_id reservation_id (err e, s) = record {
    answer = err (stop_error e);
    stored = s;
    reserved = order_id ∷ [];
    released = reservation_id ∷ [];
  }

  -- Checkout, once the inventory has answered
  unfoldable pub after_reserve :
      Server → Request → Text → List OrderLine → Result Sentinel Text → Store → Outcome
  unfolding after_place place_tx
  after_reserve server q order_id lines (err e) s = record {
    answer = err e;
    stored = s;
    reserved = order_id ∷ [];
    released = [];
  }
  after_reserve server q order_id lines (ok reservation_id) s =
      after_place order_id reservation_id
        (run_tx server (place_tx q order_id reservation_id lines) s)

  module _ (price_skus : List Sku → Result Sentinel (List PricedSku))
      (reserve : Text → List ReservationLine → Result Sentinel Text)
      (meanwhile : Store → Store) where
    -- Checkout, once the lines are priced
    unfoldable pub after_price :
        Server → Request → Text → Result Sentinel (List OrderLine) → Store → Outcome
    unfolding after_reserve
    after_price server q order_id (err e) s = answers (err e) s
    after_price server q order_id (ok lines) s =
        after_reserve server q order_id lines (reserve order_id q.lines) (meanwhile s)

    -- Checkout, once the key has been looked up
    unfoldable pub after_replay :
        Server → Request → Text → Result Sentinel (Option Order) → Store → Outcome
    unfolding after_price price
    after_replay server q order_id (err e) s = answers (err e) s
    after_replay server q order_id (ok (some o)) s = answers (ok o) s
    after_replay server q order_id (ok none) s =
        after_price server q order_id (price price_skus q.lines) s

    -- Checkout, once the command has been parsed
    unfoldable pub checkout_parsed : Server → Text → Result Sentinel Request → Store → Outcome
    unfolding after_replay replay
    checkout_parsed server order_id (err e) s = answers (err e) s
    checkout_parsed server order_id (ok q) s = after_replay server q order_id (replay q s) s

    -- Checkout
    unfoldable pub checkout :
        (Text → Option Text)
        → (Text → Text)
        → (ℤ → Text)
        → Server
        → Text
        → CheckoutCommand
        → Store
        → Outcome
    unfolding checkout_parsed parse_checkout
    checkout uuid_of sha256 decimal server order_id cmd s =
        checkout_parsed server order_id (parse_checkout uuid_of sha256 decimal cmd) s
