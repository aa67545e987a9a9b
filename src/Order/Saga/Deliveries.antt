-- ===== src/Order/Saga/Deliveries.antt =====
-- The transaction of MarkPaid (checkout_saga.go), on the orders and the outbox.
use system_design_ecommerce.Table.Laws.{select_one-holds}
use system_design_ecommerce.Table.{select_one}
use system_design_ecommerce.Table.Keys.{FoundByKey}
use system_design_ecommerce.Prelude.{
  ◌≡◌, refl, sym, ◌∙◌, ap, subst, Bool, true, false, Option, none, some, List, arith,
}
use system_design_ecommerce.Errors.{ok, >>=-eq-ok, ◌>>=◌}
use system_design_ecommerce.Text.{Text, text_eq, text_eq→eq}
use system_design_ecommerce.Order.Saga.Announced.{IsAnnounced, update-Advanced, mark_paid-Raised}
use system_design_ecommerce.Order.Saga.{
  update, mark_paid, Order, Store, OrderLine, store_moved, pay_claimed, mark_paid_tx,
  payment_saga_consumer_group,
}
use system_design_ecommerce.Order.Store.{to_domain, claim, found, find_by_id_for_update}

-- Only what was processed may differ.
abbrev pub SameOrders : Store → Store → Type 0
SameOrders s s' = (s'.orders ≡ s.orders) × (s'.outbox ≡ s.outbox)

IsAnnounced-still : (s s' : Store) → SameOrders s s' → IsAnnounced s → IsAnnounced s'
IsAnnounced-still s s' (e, f) c = record {
  announced = λ k. rw f (rw e (c.announced k));
  unique_ids = rw e c.unique_ids;
}

claim-SameOrders :
    (group event_id : Text) (s : Store) {claimed : Bool} {s' : Store}
    → claim group event_id s ≡ ok (claimed, s')
    → SameOrders s s'
unfolding claim
claim-SameOrders group event_id s h = ground arith

module _ (order_by_sku : List OrderLine → List OrderLine) where
  found-row :
      (id : Text) (s : Store) (x : Option Order) {o : Order} {s' : Store}
      → select_one (λ (r : Order). text_eq r.id id) s.orders ≡ x
      → found order_by_sku x s ≡ ok (o, s')
      → (row : Order) × (select_one (λ (r : Order). text_eq r.id id) s.orders ≡ some row)
        × (o ≡ to_domain order_by_sku row)
        × (s' ≡ s)
  unfolding found
  found-row id s none e h = cc
  found-row id s (some row) e h = (row, e, ground arith, ground arith)

  store_moved-IsAnnounced :
      (row o : Order) (moved : Bool) (s s' : Store)
      → IsAnnounced s
      → FoundByKey (λ r. r.id) s.orders row
      → mark_paid (to_domain order_by_sku row) ≡ ok (o, moved)
      → store_moved order_by_sku (o, moved) s ≡ ok (tt, s')
      → IsAnnounced s'
  unfolding store_moved
  store_moved-IsAnnounced row o false s s' c f m h = subst IsAnnounced (ground arith) c
  store_moved-IsAnnounced row o true s s' c f m h =
      let ((r, t), e, last) = >>=-eq-ok (update order_by_sku o s) (λ (_, t). ok (tt, t)) h in
      let moved =
        update-Advanced order_by_sku row o s t c f (mark_paid-Raised order_by_sku row o m) e in
      subst IsAnnounced (ground arith) moved.announces

  pay_claimed-IsAnnounced :
      (order_id : Text) (claimed : Bool) (s s' : Store)
      → IsAnnounced s
      → pay_claimed order_by_sku order_id (claimed, s) ≡ ok (tt, s')
      → IsAnnounced s'
  unfolding pay_claimed find_by_id_for_update
  pay_claimed-IsAnnounced order_id false s s' c h = subst IsAnnounced (ground arith) c
  pay_claimed-IsAnnounced order_id true s s' c h =
      let ((o, t), finds, rest) =
        >>=-eq-ok (find_by_id_for_update order_by_sku order_id s)
          (λ (o, t). mark_paid o >>= λ moved. store_moved order_by_sku moved t) h in
      let ((o', moved), m, last) =
        >>=-eq-ok (mark_paid o) (λ moved. store_moved order_by_sku moved t) rest in
      let (row, at, is_row, same) = found-row order_id s _ refl finds in
      let named : text_eq row.id order_id ≡ true =
        select_one-holds (λ (r : Order). text_eq r.id order_id) s.orders at in
      let by_key : FoundByKey (λ r. r.id) s.orders row = rw (text_eq→eq row.id order_id named) at in
      store_moved-IsAnnounced row o' moved s s' c by_key (ap mark_paid (sym is_row) ∙ m)
        (ap (store_moved order_by_sku (o', moved)) (sym same) ∙ last)

  pub mark_paid_tx-IsAnnounced :
      (event_id order_id : Text) (s s' : Store)
      → IsAnnounced s
      → mark_paid_tx order_by_sku event_id order_id s ≡ ok (tt, s')
      → IsAnnounced s'
  unfolding mark_paid_tx
  mark_paid_tx-IsAnnounced event_id order_id s s' c h =
      let ((claimed, t), claims, rest) =
        >>=-eq-ok (claim payment_saga_consumer_group event_id s)
          (λ claimed. pay_claimed order_by_sku order_id claimed) h in
      pay_claimed-IsAnnounced order_id claimed t s'
        (IsAnnounced-still s t (claim-SameOrders payment_saga_consumer_group event_id s claims) c)
        rest
