-- ===== src/Order/Repeated.antt =====
-- Checkout of services/order/internal/app/order_service.go, called again under the key of a call that
-- placed an order.
use system_design_ecommerce.Idempotency.Laws.{claim_taken, take_claim-finds}
use system_design_ecommerce.Tx.{run_tx_ok, run_tx, Server}
use system_design_ecommerce.Table.Laws.{select_one-holds, select_one-snoc}
use system_design_ecommerce.Sku.{Sku}
use system_design_ecommerce.Idempotency.{take_claim, find_claim, Claim}
use system_design_ecommerce.Table.{select_one}
use system_design_ecommerce.Text.{text_eq→eq, eq→text_eq, text_eq, Text}
use system_design_ecommerce.Prelude.{
  subst, Option, Bool-cases, none, inr, inl, ◌∷◌, [], List, some, ◌≡◌, refl, sym, ◌∙◌, ap, Bool,
  true, false, arith,
}
use system_design_ecommerce.Errors.{Error, Result, ok, err, sentinel, fault, wrapped, validation}
use system_design_ecommerce.Order.Domain.{Sentinel, Order, OrderLine, new_order}
use system_design_ecommerce.Order.Store.{to_domain, Store, find_by_id_for_update, found}
use system_design_ecommerce.Order.Placing.{clashes, create, claim_key, create_checked}
use system_design_ecommerce.Order.Reserved.{place_claimed-ok, create-rows, new_order-fields}
use system_design_ecommerce.Order.Checkout.{
  price, ReservationLine, PricedSku, Outcome, Request, Stop, refused, replayed, place_claimed,
  place_tx, after_place, after_reserve, after_price, after_replay, checkout_parsed, answers, replay,
  replay_of,
}

-- The request has been claimed for an order that is stored.
pub record IsPlaced (q : Request) (id : Text) (s : Store) : Type 0 where
  pub claim : Claim
  pub stands : find_claim q.user_id q.key s.claims ≡ some claim
  pub asked : claim.request_hash ≡ q.hash
  pub names : claim.answer ≡ id
  pub row : Order
  pub stored : select_one (λ (r : Order). text_eq r.id id) s.orders ≡ some row

-- What a later store has kept of a store: its claims, and its orders under their identifiers.
pub record Keeps (s t : Store) : Type 0 where
  pub claims_stay :
      (user_id key : Text) (c : Claim)
      → find_claim user_id key s.claims ≡ some c
      → find_claim user_id key t.claims ≡ some c
  pub orders_stay :
      (id : Text) (r : Order)
      → select_one (λ (x : Order). text_eq x.id id) s.orders ≡ some r
      → (r' : Order) × (select_one (λ (x : Order). text_eq x.id id) t.orders ≡ some r')

Keeps-IsPlaced :
    (q : Request) (id : Text) (s t : Store) → Keeps s t → IsPlaced q id s → IsPlaced q id t
Keeps-IsPlaced q id s t k a =
    let (row, at) = k.orders_stay id a.row a.stored in
    record {
      claim = a.claim;
      stands = k.claims_stay q.user_id q.key a.claim a.stands;
      asked = a.asked;
      names = a.names;
      row = row;
      stored = at;
    }

module _ (order_by_sku : List OrderLine → List OrderLine) where
  replay_of-found :
      (hash : Text) (s : Store) (c : Claim) (r : Order)
      → c.request_hash ≡ hash
      → select_one (λ (x : Order). text_eq x.id c.answer) s.orders ≡ some r
      → replay_of order_by_sku hash s (some c) ≡ ok (some (to_domain order_by_sku r))
  unfolding replay_of find_by_id_for_update found
  replay_of-found hash s c r same h = rw (eq→text_eq c.request_hash hash same) (rw h refl)

  replay-IsPlaced :
      (q : Request) (id : Text) (s : Store) (a : IsPlaced q id s)
      → replay order_by_sku q s ≡ ok (some (to_domain order_by_sku a.row))
  unfolding replay
  replay-IsPlaced q id s a =
      rw a.stands (replay_of-found q.hash s a.claim a.row a.asked (rw a.names a.stored))

create_free :
    (b o : Order) (s t : Store)
    → create b s ≡ ok (o, t)
    → (select_one (clashes b) s.orders ≡ none) × (t.claims ≡ s.claims)
unfolding create
create_free b o s t h = checked (select_one (clashes b) s.orders) h
  where
    checked :
        (x : Option Order) → create_checked b x s ≡ ok (o, t) → (x ≡ none) × (t.claims ≡ s.claims)
    checked none h = (refl, ground arith)
    checked (some x) h = cc

no_id :
    (b : Order) (t : List Order)
    → select_one (clashes b) t ≡ none
    → select_one (λ (r : Order). text_eq r.id b.id) t ≡ none
no_id b [] h = refl
no_id b (r ∷ t) h = elim (Bool-cases (text_eq r.id b.id)) [
  | inl y ↦ absurd (ground arith)
  | inr n ↦ elim (Bool-cases (clashes b r)) [
    | inl c ↦ absurd (ground arith)
    | inr d ↦ rw n (no_id b t (rw d at h))
  ]
]

create-stored :
    (b o : Order) (s t : Store)
    → create b s ≡ ok (o, t)
    → (select_one (λ (r : Order). text_eq r.id b.id) t.orders ≡ some o) × (t.claims ≡ s.claims)
create-stored b o s t h =
    let (free, claims) = create_free b o s t h in
    let (same, hold, rows) = create-rows b o s t h in
    (
      rw rows (
          select_one-snoc (λ (r : Order). text_eq r.id b.id) s.orders o (no_id b s.orders free)
            (eq→text_eq o.id b.id same)),
      claims,
    )

taken_claim :
    (built : Result Sentinel Order) (hash : Text) (standing : Claim) (taken : Bool) (s t : Store)
    {o : Order}
    → place_claimed built hash ((standing, taken), s) ≡ ok (o, t)
    → taken ≡ true
unfolding place_claimed
taken_claim built hash standing false s t h = absurd (ground arith)
taken_claim built hash standing true s t h = refl

place_tx-IsPlaced :
    (q : Request) (order_id reservation_id : Text) (lines : List OrderLine) (s t : Store)
    (o : Order)
    → place_tx q order_id reservation_id lines s ≡ ok (o, t)
    → IsPlaced q order_id t
unfolding place_tx claim_key
place_tx-IsPlaced q order_id reservation_id lines s t o h =
    let c : Claim = record {
      user_id = q.user_id;
      key = q.key;
      request_hash = q.hash;
      answer = order_id;
    } in
    let (standing, taken, claims) = take_claim c s.claims in
    let u : Store = record s { claims = claims } in
    let built = new_order order_id q.user_id reservation_id lines in
    let (b, is_built, made) = place_claimed-ok built q.hash standing taken u t h in
    let (id, holds) = new_order-fields order_id q.user_id reservation_id lines b is_built in
    let (row, same) = create-stored b o u t made in
    record {
      claim = c;
      stands =
          subst (λ v. find_claim q.user_id q.key v ≡ some c) (sym same)
            (take_claim-finds c s.claims
              ∙ ap some (claim_taken c s.claims (taken_claim built q.hash standing taken u t h)));
      asked = refl;
      names = refl;
      row = o;
      stored = subst (λ i. select_one (λ (r : Order). text_eq r.id i) t.orders ≡ some o) id row;
    }

-- What a call came to, as to its key: it asked for no reservation, it gave one back, it was refused,
-- or the key answers with a stored order.
data Came (q : Request) (id : Text) (o : Outcome) : Type 0 where
  unasked : o.reserved ≡ [] → Came q id o
  gave_back : (r : Text) → o.released ≡ r ∷ [] → Came q id o
  was_refused : (e : Error Sentinel) → o.answer ≡ err e → Came q id o
  has_placed : IsPlaced q id o.stored → Came q id o

module _ (order_by_sku : List OrderLine → List OrderLine) where
  after_place-Came :
      (q : Request) (order_id reservation_id : Text) (x : Result Stop Order × Store)
      → ((o : Order) → x.0 ≡ ok o → IsPlaced q order_id x.1)
      → Came q order_id (after_place order_by_sku order_id reservation_id x)
  unfolding after_place
  after_place-Came q order_id r (ok o, t) places = has_placed (places o refl)
  after_place-Came q order_id r (err (sentinel (replayed id)), t) places = gave_back r refl
  after_place-Came q order_id r (err (sentinel (refused e)), t) places = gave_back r refl
  after_place-Came q order_id r (err (validation f m), t) places = gave_back r refl
  after_place-Came q order_id r (err (fault k m), t) places = gave_back r refl
  after_place-Came q order_id r (err (wrapped c k m), t) places = gave_back r refl

  after_reserve-Came :
      (server : Server) (q : Request) (order_id : Text) (lines : List OrderLine)
      (x : Result Sentinel Text) (s : Store)
      → Came q order_id (after_reserve order_by_sku server q order_id lines x s)
  unfolding after_reserve
  after_reserve-Came server q order_id lines (err e) s = was_refused e refl
  after_reserve-Came server q order_id lines (ok r) s =
      let f = place_tx q order_id r lines in
      after_place-Came q order_id r (run_tx server f s)
        λ o h. place_tx-IsPlaced q order_id r lines s _ o (run_tx_ok server f s h)

  module _ (price_skus : List Sku → Result Sentinel (List PricedSku))
      (reserve : Text → List ReservationLine → Result Sentinel Text)
      (meanwhile : Store → Store) where
    checkout-Came :
        (server : Server) (order_id : Text) (q : Request) (s : Store)
        → Came q order_id
            (checkout_parsed order_by_sku price_skus reserve meanwhile server order_id (ok q) s)
    unfolding checkout_parsed after_replay after_price
    checkout-Came server order_id q s = by_replay (replay order_by_sku q s)
      where
        by_price :
            (x : Result Sentinel (List OrderLine))
            → Came q order_id
                (after_price order_by_sku price_skus reserve meanwhile server q order_id x s)
        by_price (err e) = unasked refl
        by_price (ok lines) =
            after_reserve-Came server q order_id lines (reserve order_id q.lines) (meanwhile s)

        by_replay :
            (x : Result Sentinel (Option Order))
            → Came q order_id
                (after_replay order_by_sku price_skus reserve meanwhile server q order_id x s)
        by_replay (err e) = unasked refl
        by_replay (ok (some o)) = unasked refl
        by_replay (ok none) = by_price (price price_skus q.lines)

-- Once a call has reserved and answers with an order without giving the reservation back, a later
-- call with the same user, key and request answers with the order of that identifier, reserves
-- nothing and stores nothing, on rows that have kept the claims and the orders.
pub checkout-once :
    (order_by_sku : List OrderLine → List OrderLine)
    (price_skus price_later : List Sku → Result Sentinel (List PricedSku))
    (reserve reserve_later : Text → List ReservationLine → Result Sentinel Text)
    (meanwhile meanwhile_later : Store → Store) (server server_later : Server)
    (order_id order_later : Text) (q : Request) (s t : Store) (o : Order)
    → (checkout_parsed order_by_sku price_skus reserve meanwhile server order_id (ok q) s).reserved
      ≡ order_id ∷ []
    → (checkout_parsed order_by_sku price_skus reserve meanwhile server order_id (ok q) s).released
      ≡ []
    → (checkout_parsed order_by_sku price_skus reserve meanwhile server order_id (ok q) s).answer
      ≡ ok o
    → Keeps
        (checkout_parsed order_by_sku price_skus reserve meanwhile server order_id (ok q) s).stored
        t
    → (again : Order) × (again.id ≡ order_id)
      × (checkout_parsed order_by_sku price_later reserve_later meanwhile_later server_later
            order_later
            (ok q)
            t
          ≡ answers (ok again) t)
unfolding checkout_parsed after_replay
checkout-once order_by_sku price_skus price_later reserve reserve_later meanwhile meanwhile_later
      server server_later order_id order_later q s t o asked kept gives keeps =
    by_outcome (checkout-Came order_by_sku price_skus reserve meanwhile server order_id q s)
  where
    by_outcome :
        Came q order_id
          (checkout_parsed order_by_sku price_skus reserve meanwhile server order_id (ok q) s)
        → (again : Order) × (again.id ≡ order_id)
          × (checkout_parsed order_by_sku price_later reserve_later meanwhile_later server_later
                order_later
                (ok q)
                t
              ≡ answers (ok again) t)
    by_outcome (unasked none_asked) = absurd (clash (sym none_asked ∙ asked))
      where
        clash : {a : Text} {u : List Text} → [] ≡ a ∷ u → ⊥
        clash h = cc
    by_outcome (gave_back r back) = absurd (clash (sym kept ∙ back))
      where
        clash : {a : Text} {u : List Text} → [] ≡ a ∷ u → ⊥
        clash h = cc
    by_outcome (was_refused e refusal) = absurd (clash (sym refusal ∙ gives))
      where
        clash :
            {e : Error Sentinel} {o : Order} → ◌≡◌ {A = Result Sentinel Order} (err e) (ok o) → ⊥
        clash h = cc
    by_outcome (has_placed placed) =
        let a = Keeps-IsPlaced q order_id _ t keeps placed in
        (
          to_domain order_by_sku a.row,
          text_eq→eq a.row.id order_id
              (select_one-holds (λ (r : Order). text_eq r.id order_id) t.orders a.stored),
          rw (replay-IsPlaced order_by_sku q order_id t a) refl,
        )
