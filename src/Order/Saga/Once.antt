-- ===== src/Order/Saga/Once.antt =====
-- The inbox of the payment saga (pkg/inbox) over deliveries and sweeps.
use system_design_ecommerce.Prelude.{
  Bool-cases, inr, inl, ℕ, ◌+◌, ◌≡◌, refl, subst, Bool, true, false, Option, none, some, List, [],
  ◌∷◌, arith,
}
use system_design_ecommerce.Prelude.Int.{ℤ}
use system_design_ecommerce.Errors.{Result, ok, err, >>=-eq-ok, ◌>>=◌}
use system_design_ecommerce.Text.{Text, text_eq_refl, is_empty}
use system_design_ecommerce.Tx.{
  Server, run_tx, run_tx-keeps, with_parsed-keeps, run_tx_ok, with_parsed, conclude,
}
use system_design_ecommerce.Order.Domain.{Order, OrderLine, Sentinel, mark_paid, expire}
use system_design_ecommerce.Order.Store.{
  Store, is_processed, claim, update, find_by_id_for_update, found, claim_stale_orders,
}
use system_design_ecommerce.Order.Saga.{
  with_parsed, payment_saga_consumer_group, mark_paid_tx, pay_claimed, store_moved, settle_stale,
  sweep_stale, expire_stale_tx, mark_paid_by_event, expire_stale_orders,
}
use system_design_ecommerce.Order.Saga.Announced.{update-processed}
use system_design_ecommerce.Order.Saga.Runs.{sweeps, delivers, Step, after, run}

-- The inbox has the event.
abbrev pub IsTaken : Text → Store → Type 0
IsTaken event_id s = is_processed payment_saga_consumer_group event_id s.processed ≡ true

-- A transaction only adds to the inbox.
abbrev pub Adds : Store → Store → Type 0
Adds s s' = (event_id : Text) → IsTaken event_id s → IsTaken event_id s'

claim-Adds :
    (event_id : Text) (s s' : Store) {claimed : Bool}
    → claim payment_saga_consumer_group event_id s ≡ ok (claimed, s')
    → Adds s s' × IsTaken event_id s'
unfolding claim
claim-Adds event_id s s' h = (
  λ other taken. ground arith,
  ground (arith, text_eq_refl event_id, text_eq_refl payment_saga_consumer_group),
)

same_processed : (s s' : Store) → s'.processed ≡ s.processed → Adds s s'
same_processed s s' e event_id h = rw e h

module _ (order_by_sku : List OrderLine → List OrderLine) where
  store_moved-Adds :
      (o : Order) (moved : Bool) (s s' : Store)
      → store_moved order_by_sku (o, moved) s ≡ ok (tt, s')
      → Adds s s'
  unfolding store_moved
  store_moved-Adds o false s s' h = same_processed s s' (ground arith)
  store_moved-Adds o true s s' h =
      let ((r, t), e, last) = >>=-eq-ok (update order_by_sku o s) (λ (_, t). ok (tt, t)) h in
      let kept = update-processed order_by_sku o s t e in same_processed s s' (ground (arith, kept))

  found-same :
      (x : Option Order) (s s' : Store) {o : Order} → found order_by_sku x s ≡ ok (o, s') → s' ≡ s
  unfolding found
  found-same none s s' h = cc
  found-same (some r) s s' h = ground arith

  pay_claimed-Adds :
      (order_id : Text) (claimed : Bool) (s s' : Store)
      → pay_claimed order_by_sku order_id (claimed, s) ≡ ok (tt, s')
      → Adds s s'
  unfolding pay_claimed find_by_id_for_update
  pay_claimed-Adds order_id false s s' h = same_processed s s' (ground arith)
  pay_claimed-Adds order_id true s s' h =
      let ((o, t), finds, rest) =
        >>=-eq-ok (find_by_id_for_update order_by_sku order_id s)
          (λ (o, t). mark_paid o >>= λ moved. store_moved order_by_sku moved t) h in
      let ((o', moved), m, last) =
        >>=-eq-ok (mark_paid o) (λ moved. store_moved order_by_sku moved t) rest in
      subst (λ x. Adds x s') (found-same _ s t finds) (store_moved-Adds o' moved t s' last)

  mark_paid_tx-Adds :
      (event_id order_id : Text) (s s' : Store)
      → mark_paid_tx order_by_sku event_id order_id s ≡ ok (tt, s')
      → Adds s s' × IsTaken event_id s'
  unfolding mark_paid_tx
  mark_paid_tx-Adds event_id order_id s s' h =
      let ((claimed, t), claims, rest) =
        >>=-eq-ok (claim payment_saga_consumer_group event_id s)
          (λ claimed. pay_claimed order_by_sku order_id claimed) h in
      let (adds, taken) = claim-Adds event_id s t claims in
      let more = pay_claimed-Adds order_id claimed t s' rest in
      (λ e x. more e (adds e x), more event_id taken)

  -- A delivery of an event that the inbox has changes nothing.
  taken_tx :
      (event_id order_id : Text) (s : Store)
      → is_empty event_id ≡ false
      → IsTaken event_id s
      → mark_paid_tx order_by_sku event_id order_id s ≡ ok (tt, s)
  unfolding mark_paid_tx claim pay_claimed
  taken_tx event_id order_id s h k = ground arith

  settle_stale-Adds :
      (x : Result Sentinel (Order × Bool)) (s s' : Store) {n : ℕ}
      → settle_stale order_by_sku x s ≡ ok (n, s')
      → Adds s s'
  unfolding settle_stale
  settle_stale-Adds (err e) s s' h = same_processed s s' (ground arith)
  settle_stale-Adds (ok (o, false)) s s' h = same_processed s s' (ground arith)
  settle_stale-Adds (ok (o, true)) s s' h =
      let ((r, t), e, last) = >>=-eq-ok (update order_by_sku o s) (λ (_, t). ok (1, t)) h in
      let kept = update-processed order_by_sku o s t e in same_processed s s' (ground (arith, kept))

  sweep_stale-Adds :
      (now window : ℤ) (os : List Order) (swept : ℕ) (s s' : Store) {n : ℕ}
      → sweep_stale order_by_sku now window os swept s ≡ ok (n, s')
      → Adds s s'
  unfolding sweep_stale
  sweep_stale-Adds now window [] swept s s' h = same_processed s s' (ground arith)
  sweep_stale-Adds now window (o ∷ os) swept s s' h =
      let ((k, t), one, rest) =
        >>=-eq-ok (settle_stale order_by_sku (expire now window o) s)
          (λ (k, t). sweep_stale order_by_sku now window os (swept + k) t) h in
      λ e x.
        sweep_stale-Adds now window os (swept + k) t s' rest e (settle_stale-Adds _ s t one e x)

  expire_stale_tx-Adds :
      (locked : Text → Bool) (now window limit : ℤ) (s s' : Store) {n : ℕ}
      → expire_stale_tx order_by_sku locked now window limit s ≡ ok (n, s')
      → Adds s s'
  unfolding expire_stale_tx claim_stale_orders
  expire_stale_tx-Adds locked now window limit s s' h = sweep_stale-Adds now window _ 0 s s' h

  module _ (uuid_of : Text → Option Text) where
    after-Adds : (step : Step) (s : Store) → Adds s (after order_by_sku uuid_of step s)
    unfolding after mark_paid_by_event expire_stale_orders
    after-Adds (delivers server event_id order_id) s =
        with_parsed-keeps (Adds s) _ _ s (λ e x. x)
          λ id p.
            run_tx-keeps (Adds s) server (mark_paid_tx order_by_sku event_id id) s (λ e x. x)
              λ r t h. (mark_paid_tx-Adds event_id id s t h).0
    after-Adds (sweeps server locked now window limit) s =
        run_tx-keeps (Adds s) server _ s (λ e x. x)
          λ n t h. expire_stale_tx-Adds locked now window _ s t h

    run-Adds : (cs : List (ℤ × Step)) (s : Store) → Adds s (run order_by_sku uuid_of cs s)
    unfolding run
    run-Adds [] s e x = x
    run-Adds ((now, step) ∷ cs) s e x =
        run-Adds cs (after order_by_sku uuid_of step (record s { clock = now })) e
          (after-Adds step (record s { clock = now }) e x)

    -- what MarkPaid does once it has parsed its input
    abbrev then_pay : Server → Text → Text → Store → Result Sentinel (Unit {0}) × Store
    then_pay server event_id id = run_tx server (mark_paid_tx order_by_sku event_id id)

    repeated :
        (p : Result Sentinel Text) (server : Server) (event_id : Text) (cs : List (ℤ × Step))
        (s : Store)
        → is_empty event_id ≡ false
        → (with_parsed p (then_pay server event_id) s).0 ≡ ok tt
        → with_parsed p
            (then_pay Server.commits event_id)
            (run order_by_sku uuid_of cs (with_parsed p (then_pay server event_id) s).1)
          ≡ (ok tt, run order_by_sku uuid_of cs (with_parsed p (then_pay server event_id) s).1)
    unfolding with_parsed run_tx conclude
    repeated (err e) server event_id cs s n h = cc
    repeated (ok id) server event_id cs s n h =
        let t : Store = (then_pay server event_id id s).1 in
        let did = run_tx_ok server (mark_paid_tx order_by_sku event_id id) s h in
        let taken = (mark_paid_tx-Adds event_id id s t did).1 in
        rw (taken_tx event_id id (run order_by_sku uuid_of cs t) n (run-Adds cs t event_id taken))
          refl

    -- Once a delivery of an event succeeds, and after any further deliveries and sweeps, at any times
    -- and however they end, the same delivery succeeds again and changes nothing.
    pub redelivered-unmoved :
        (server : Server) (event_id order_id : Text) (cs : List (ℤ × Step)) (s : Store)
        → (mark_paid_by_event order_by_sku uuid_of server event_id order_id s).0 ≡ ok tt
        → mark_paid_by_event order_by_sku uuid_of Server.commits event_id order_id (
            run order_by_sku uuid_of cs
              (mark_paid_by_event order_by_sku uuid_of server event_id order_id s).1)
          ≡ (
            ok tt,
            run order_by_sku uuid_of cs
                (mark_paid_by_event order_by_sku uuid_of server event_id order_id s).1,
          )
    unfolding mark_paid_by_event with_parsed
    redelivered-unmoved server event_id order_id cs s h = elim (Bool-cases (is_empty event_id)) [
      | inl y ↦ absurd (let refused = rw y at h in cc)
      | inr n ↦ repeated _ server event_id cs s n h
    ]
