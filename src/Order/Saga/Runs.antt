-- ===== src/Order/Saga/Runs.antt =====
-- Any sequence of deliveries and sweeps, from any rows that agree with what was announced.
use system_design_ecommerce.Prelude.{Bool, Option, List, [], ◌∷◌}
use system_design_ecommerce.Prelude.Int.{ℤ}
use system_design_ecommerce.Text.{Text}
use system_design_ecommerce.Tx.{Server, run_tx-keeps, with_parsed-keeps}
use system_design_ecommerce.Order.Domain.{OrderLine}
use system_design_ecommerce.Order.Store.{Store}
use system_design_ecommerce.Order.Saga.{mark_paid_by_event, expire_stale_orders, mark_paid_tx}
use system_design_ecommerce.Order.Saga.Announced.{IsAnnounced}
use system_design_ecommerce.Order.Saga.Deliveries.{mark_paid_tx-IsAnnounced}
use system_design_ecommerce.Order.Saga.Stale.{expire_stale_tx-IsAnnounced}

-- What may happen to the orders: the delivery of a payment's event, and a sweep.
pub data Step : Type 0 where
  delivers : Server → Text → Text → Step
  sweeps : Server → (Text → Bool) → ℤ → ℤ → ℤ → Step

at_clock : (now : ℤ) (s : Store) → IsAnnounced s → IsAnnounced (record s { clock = now })
at_clock now s c = record { announced = c.announced; unique_ids = c.unique_ids }

module _ (order_by_sku : List OrderLine → List OrderLine) (uuid_of : Text → Option Text) where
  -- the rows that are stored after the step
  unfoldable pub after : Step → Store → Store
  after (delivers server event_id order_id) s =
      (mark_paid_by_event order_by_sku uuid_of server event_id order_id s).1
  after (sweeps server locked now window limit) s =
      (expire_stale_orders order_by_sku server locked now window limit s).1

  -- Steps one after another, each at a time of the database's clock.
  unfoldable pub run : List (ℤ × Step) → Store → Store
  unfolding after
  run [] s = s
  run ((now, c) ∷ cs) s = run cs (after c (record s { clock = now }))

  after-IsAnnounced : (step : Step) (s : Store) → IsAnnounced s → IsAnnounced (after step s)
  unfolding after mark_paid_by_event expire_stale_orders
  after-IsAnnounced (delivers server event_id order_id) s c =
      with_parsed-keeps IsAnnounced _ _ s c λ id e.
        run_tx-keeps IsAnnounced server (mark_paid_tx order_by_sku event_id id) s c
          λ r t h. mark_paid_tx-IsAnnounced order_by_sku event_id id s t c h
  after-IsAnnounced (sweeps server locked now window limit) s c =
      run_tx-keeps IsAnnounced server _ s c
        λ n t h. expire_stale_tx-IsAnnounced order_by_sku locked now window _ s t c h

  -- From orders that agree with what was announced, any deliveries and any sweeps, in any order and
  -- at any times, however often an event comes and however the transactions end, lead to orders
  -- that agree: of every order the outbox holds the outcome that the row has, once, and no other.
  pub run-IsAnnounced : (cs : List (ℤ × Step)) (s : Store) → IsAnnounced s → IsAnnounced (run cs s)
  unfolding run
  run-IsAnnounced [] s c = c
  run-IsAnnounced ((now, step) ∷ cs) s c =
      run-IsAnnounced cs (after step (record s { clock = now }))
        (after-IsAnnounced step (record s { clock = now }) (at_clock now s c))
