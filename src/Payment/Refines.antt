-- ===== src/Payment/Refines.antt =====
-- InitiatePayment of payment_service.go, as the transactions of Payment/Runs that it runs.
use system_design_ecommerce.Prelude.Int.{ℤ}
use system_design_ecommerce.Prelude.{◌≡◌, some, [], ◌∷◌}
use system_design_ecommerce.Errors.{Error, err, ok}
use system_design_ecommerce.Text.{Text}
use system_design_ecommerce.Tx.{run_tx}
use system_design_ecommerce.Payment.Domain.{Sentinel, Payment, ChargeResult}
use system_design_ecommerce.Payment.Store.{Store}
use system_design_ecommerce.Payment.Runs.{Step, opens, settles, run}
use system_design_ecommerce.Payment.Replays.{Around}
use system_design_ecommerce.Payment.Initiate.{
  Outcome, Stop, open_tx, replay, attempt_of, PayableOrder, Request, ChargeCommand,
}

-- its first transaction, and the one that settles, at the time of the rows
abbrev pub opening : Around → Request → PayableOrder → Store → ℤ × Step
opening w q order s = (s.clock, opens w.open_server w.minted q order)

abbrev pub settling : Around → ChargeResult → Store → ℤ × Step
settling w result s = (s.clock, settles w.settle_server w.minted result)

-- what the provider is asked for
abbrev pub asked_for : Around → Request → PayableOrder → ChargeCommand
asked_for w q order = record {
  payment_id = w.minted;
  order_id = q.order_id;
  amount = order.total;
  method = q.method;
}

-- Why a call opens no attempt.
pub data Unopened (w : Around) (q : Request) (s : Store) : Type 0 where
  unread : (e : Error Sentinel) → replay q s ≡ err e → Unopened w q s
  known : (p : Payment) → replay q s ≡ ok (some p) → Unopened w q s
  unordered : (e : Error Sentinel) → w.get_order q.order_id ≡ err e → Unopened w q s
  unpayable :
      (order : PayableOrder) (e : Error Sentinel)
      → w.get_order q.order_id ≡ ok order
      → attempt_of w.minted q order ≡ err e
      → Unopened w q s

-- The transactions of a call, by how far it comes: none; the first alone, which gives an error; the
-- first and those of others, where the provider gives an error; and the one that settles after
-- them, with the result that the provider gives for the attempt of the first.
pub data IsRun (w : Around) (q : Request) (s : Store) (o : Outcome) : Type 0 where
  none_ran : Unopened w q s → o.charges ≡ [] → o.stored ≡ s → IsRun w q s o
  stopped :
      (order : PayableOrder) (built : Payment) (e : Error Stop)
      → w.get_order q.order_id ≡ ok order
      → attempt_of w.minted q order ≡ ok built
      → (run_tx w.open_server (open_tx q built) s).0 ≡ err e
      → o.charges ≡ []
      → o.stored ≡ run (opening w q order s ∷ []) s
      → IsRun w q s o
  unanswered :
      (order : PayableOrder) (e : Error Sentinel)
      → w.get_order q.order_id ≡ ok order
      → w.charge (asked_for w q order) ≡ err e
      → o.charges ≡ asked_for w q order ∷ []
      → o.stored ≡ run (opening w q order s ∷ w.others) s
      → IsRun w q s o
  settled :
      (order : PayableOrder) (result : ChargeResult) (url : Text) (t : Store)
      → w.get_order q.order_id ≡ ok order
      → w.charge (asked_for w q order) ≡ ok (result, url)
      → o.charges ≡ asked_for w q order ∷ []
      → t ≡ run (opening w q order s ∷ w.others) s
      → o.stored ≡ run (settling w result t ∷ []) t
      → IsRun w q s o

-- the command that asks for an attempt
abbrev command_of : Payment → ChargeCommand
command_of built = record {
  payment_id = built.id;
  order_id = built.order_id;
  amount = built.amount;
  method = built.method;
}
