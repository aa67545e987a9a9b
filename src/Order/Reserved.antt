-- ===== src/Order/Reserved.antt =====
-- What Checkout of services/order/internal/app/order_service.go makes of a reservation.
use system_design_ecommerce.Sku.{Sku}
use system_design_ecommerce.Tx.{
  commit_lost, Failed, undone, unheard, run_tx-Failed, run_tx_ok, run_tx, Server,
}
use system_design_ecommerce.Idempotency.{Claim}
use system_design_ecommerce.Table.{select_one}
use system_design_ecommerce.Text.{is_empty, Text}
use system_design_ecommerce.Prelude.{
  ltb, length, ◌==◌, List, Option, ◌++◌, some, none, ◌∷◌, [], ◌≡◌, refl, sym, ◌∙◌, ap, Bool, true,
  false, arith,
}
use system_design_ecommerce.Errors.{
  refuse_if, >>=-eq-ok, ok-injective, Error, Result, ok, err, sentinel, fault, wrapped, validation,
}
use system_design_ecommerce.Order.Domain.{
  sum, names_twice, max_lines, Sentinel, Order, OrderLine, new_order,
}
use system_design_ecommerce.Order.Store.{Store}
use system_design_ecommerce.Order.Placing.{clashes, create, claim_key, create_checked}
use system_design_ecommerce.Order.Checkout.{
  replay, price, ReservationLine, PricedSku, Outcome, Request, Stop, refused, replayed, stop_on,
  place_claimed, place_tx, after_place, after_reserve, after_price, after_replay, checkout_parsed,
}

-- The order that the transaction places, and the rows that it leaves.
pub record Places (order_id reservation_id : Text) (s t : Store) (o : Order) : Type 0 where
  pub same_id : o.id ≡ order_id
  pub holds : o.reservation_id ≡ reservation_id
  pub rows : t.orders ≡ s.orders ++ o ∷ []

pub create-rows :
    (o r : Order) (s t : Store)
    → create o s ≡ ok (r, t)
    → (r.id ≡ o.id) × (r.reservation_id ≡ o.reservation_id) × (t.orders ≡ s.orders ++ r ∷ [])
unfolding create
create-rows o r s t h = checked (select_one (clashes o) s.orders) h
  where
    checked :
        (x : Option Order)
        → create_checked o x s ≡ ok (r, t)
        → (r.id ≡ o.id) × (r.reservation_id ≡ o.reservation_id) × (t.orders ≡ s.orders ++ r ∷ [])
    checked none h = (ground arith, ground arith, ground arith)
    checked (some x) h = cc

pub new_order-fields :
    (id user_id reservation_id : Text) (lines : List OrderLine) (o : Order)
    → new_order id user_id reservation_id lines ≡ ok o
    → (o.id ≡ id) × (o.reservation_id ≡ reservation_id)
unfolding new_order
new_order-fields id user_id reservation_id lines o h =
    let (_, _, h) = >>=-eq-ok (refuse_if (is_empty id) (validation "id" "is required")) _ h in
    let (_, _, h) =
      >>=-eq-ok (refuse_if (is_empty user_id) (validation "user_id" "is required")) _ h in
    let (_, _, h) =
      >>=-eq-ok (refuse_if (is_empty reservation_id) (validation "reservation_id" "is required")) _
        h in
    let (_, _, h) =
      >>=-eq-ok
        (refuse_if (length lines == 0) (validation "lines" "an order has at least one line")) _ h in
    let (_, _, h) =
      >>=-eq-ok
        (refuse_if (ltb max_lines (length lines))
          (validation "lines" "is above the per-order maximum"))
        _ h in
    let (_, _, h) =
      >>=-eq-ok (refuse_if (names_twice [] lines) (validation "lines" "names the same sku twice")) _
        h in
    let (total, _, h) = >>=-eq-ok (sum lines) _ h in
    let same = ok-injective h in
    (ap (λ (x : Order). x.id) (sym same), ap (λ (x : Order). x.reservation_id) (sym same))

pub stop_on_ok : {A : Type 0} (x : Result Sentinel A) {y : A} → stop_on x ≡ ok y → x ≡ ok y
stop_on_ok (ok y) h = ap ok (ok-injective h)
stop_on_ok (err e) h = cc

pub place_claimed-ok :
    (built : Result Sentinel Order) (hash : Text) (standing : Claim) (taken : Bool) (s t : Store)
    {o : Order}
    → place_claimed built hash ((standing, taken), s) ≡ ok (o, t)
    → (b : Order) × (built ≡ ok b) × (create b s ≡ ok (o, t))
unfolding place_claimed
place_claimed-ok built hash standing false s t h = absurd (ground arith)
place_claimed-ok built hash standing true s t h = >>=-eq-ok built (λ o. create o s) (stop_on_ok _ h)

place_tx-Places :
    (q : Request) (order_id reservation_id : Text) (lines : List OrderLine) (s t : Store)
    (o : Order)
    → place_tx q order_id reservation_id lines s ≡ ok (o, t)
    → Places order_id reservation_id s t o
unfolding place_tx claim_key
place_tx-Places q order_id reservation_id lines s t o h =
    let c : Claim = record {
      user_id = q.user_id;
      key = q.key;
      request_hash = q.hash;
      answer = order_id;
    } in
    let ((standing, taken), u) = claim_key c s in
    let (b, built, made) =
      place_claimed-ok (new_order order_id q.user_id reservation_id lines) q.hash standing taken u t
        h in
    let (id, holds) = new_order-fields order_id q.user_id reservation_id lines b built in
    let (same_id, same_hold, rows) = create-rows b o u t made in
    record { same_id = same_id ∙ id; holds = same_hold ∙ holds; rows = rows }

-- What a call of Checkout came to, once the inventory gave it a reservation: it asked for none after
-- all, it gave it back and stored nothing, or it placed the one order that holds it. Where the
-- database applies the commit and the answer is lost, it gave back what the order that it stored
-- names, and answered with an error.
pub data Settled (server : Server) (order_id reservation_id : Text) (s : Store) (o : Outcome)
    : Type 0 where
  unasked : o.reserved ≡ [] → o.released ≡ [] → Settled server order_id reservation_id s o
  gave_back :
      o.released ≡ reservation_id ∷ [] → o.stored ≡ s → Settled server order_id reservation_id s o
  unheard_of :
      (placed : Order) (e : Error Sentinel)
      → server ≡ commit_lost
      → o.released ≡ reservation_id ∷ []
      → o.answer ≡ err e
      → Places order_id reservation_id s o.stored placed
      → Settled server order_id reservation_id s o
  placed_it :
      (placed : Order)
      → o.released ≡ []
      → o.answer ≡ ok placed
      → Places order_id reservation_id s o.stored placed
      → Settled server order_id reservation_id s o

module _ (order_by_sku : List OrderLine → List OrderLine) where
  -- the outcome, where the transaction ended with an error that is not errReplay
  stopped-Settled :
      (server : Server) (q : Request) (order_id reservation_id : Text) (lines : List OrderLine)
      (s t : Store) (x : Error Stop) (e : Error Sentinel)
      → Failed server (place_tx q order_id reservation_id lines) s t x
      → Settled server order_id reservation_id s (record {
        answer = err e;
        stored = t;
        reserved = order_id ∷ [];
        released = reservation_id ∷ [];
      })
  stopped-Settled server q order_id reservation_id lines s t x e (undone same) = gave_back refl same
  stopped-Settled server q order_id reservation_id lines s t x e (unheard lost gives o stored) =
      unheard_of o e lost refl refl (place_tx-Places q order_id reservation_id lines s t o stored)

  replayed-Settled :
      (server : Server) (q : Request) (order_id reservation_id id : Text) (lines : List OrderLine)
      (s t : Store)
      → Failed server (place_tx q order_id reservation_id lines) s t (sentinel (replayed id))
      → Settled server order_id reservation_id s
          (after_place order_by_sku order_id reservation_id (err (sentinel (replayed id)), t))
  unfolding after_place
  replayed-Settled server q order_id reservation_id id lines s t (undone same) = gave_back refl same
  replayed-Settled server q order_id reservation_id id lines s t (unheard lost gives o stored) = cc

  after_place-Settled :
      (server : Server) (q : Request) (order_id reservation_id : Text) (lines : List OrderLine)
      (s : Store) (x : Result Stop Order × Store)
      → ((o : Order) → x.0 ≡ ok o → Places order_id reservation_id s x.1 o)
      → ((e : Error Stop)
          → x.0 ≡ err e
          → Failed server (place_tx q order_id reservation_id lines) s x.1 e)
      → Settled server order_id reservation_id s
          (after_place order_by_sku order_id reservation_id x)
  unfolding after_place
  after_place-Settled server q order_id reservation_id lines s (ok o, t) places fails =
      placed_it o refl refl (places o refl)
  after_place-Settled server q order_id reservation_id lines s (err (sentinel (replayed id)), t)
        places fails =
      replayed-Settled server q order_id reservation_id id lines s t (fails _ refl)
  after_place-Settled server q order_id reservation_id lines s (err (sentinel (refused e)), t)
        places fails =
      stopped-Settled server q order_id reservation_id lines s t _ _ (fails _ refl)
  after_place-Settled server q order_id reservation_id lines s (err (validation f m), t) places
        fails =
      stopped-Settled server q order_id reservation_id lines s t _ _ (fails _ refl)
  after_place-Settled server q order_id reservation_id lines s (err (fault k r), t) places fails =
      stopped-Settled server q order_id reservation_id lines s t _ _ (fails _ refl)
  after_place-Settled server q order_id reservation_id lines s (err (wrapped c k r), t) places
        fails =
      stopped-Settled server q order_id reservation_id lines s t _ _ (fails _ refl)

  after_reserve-Settled :
      (server : Server) (q : Request) (order_id reservation_id : Text) (lines : List OrderLine)
      (s : Store)
      → Settled server order_id reservation_id s
          (after_reserve order_by_sku server q order_id lines (ok reservation_id) s)
  unfolding after_reserve
  after_reserve-Settled server q order_id reservation_id lines s =
      let f = place_tx q order_id reservation_id lines in
      after_place-Settled server q order_id reservation_id lines s (run_tx server f s)
        (λ o h. place_tx-Places q order_id reservation_id lines s _ o (run_tx_ok server f s h))
        (λ e h. run_tx-Failed server f s h)

  module _ (price_skus : List Sku → Result Sentinel (List PricedSku))
      (reserve : Text → List ReservationLine → Result Sentinel Text)
      (meanwhile : Store → Store) where
    -- Where the inventory would give a reservation, Checkout keeps nothing of it that no order
    -- holds: it asks for none, or it releases the one that it got and stores nothing of its own, or
    -- it answers with a new order, stored under the identifier that it reserved for, which holds the
    -- reservation. Only where the commit is applied and its answer is lost, it may release the
    -- reservation and answer with an error although that order is stored.
    pub checkout-Settled :
        (server : Server) (order_id reservation_id : Text) (q : Request) (s : Store)
        → reserve order_id q.lines ≡ ok reservation_id
        → Settled server order_id reservation_id
            (meanwhile s)
            (checkout_parsed order_by_sku price_skus reserve meanwhile server order_id (ok q) s)
    unfolding checkout_parsed after_replay after_price
    checkout-Settled server order_id reservation_id q s given = by_replay (replay order_by_sku q s)
      where
        by_price :
            (x : Result Sentinel (List OrderLine))
            → Settled server order_id reservation_id
                (meanwhile s)
                (after_price order_by_sku price_skus reserve meanwhile server q order_id x s)
        by_price (err e) = unasked refl refl
        by_price (ok lines) =
            rw given (after_reserve-Settled server q order_id reservation_id lines (meanwhile s))

        by_replay :
            (x : Result Sentinel (Option Order))
            → Settled server order_id reservation_id
                (meanwhile s)
                (after_replay order_by_sku price_skus reserve meanwhile server q order_id x s)
        by_replay (err e) = unasked refl refl
        by_replay (ok (some o)) = unasked refl refl
        by_replay (ok none) = by_price (price price_skus q.lines)
