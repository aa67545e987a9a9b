-- ===== src/Payment/Initiate.antt =====
-- InitiatePayment of services/payment/internal/app/payment_service.go. The other services are
-- parameters: `uuid_of` is uuid.Parse with String, `sha256` the digest, `get_order` the order
-- service's GetOrder, and `charge` and `retrieve` are the provider gateway's Charge and Retrieve. The
-- identifier that a call mints is an argument, and so is how the server answers to each
-- transaction. `meanwhile` is what other calls store while the provider is asked for money.

use system_design_ecommerce.Payment.Settle.{settle}
use system_design_ecommerce.Prelude.{
  Bool, true, false, ◌||◌, not, Option, none, some, List, [], ◌∷◌, ◌++◌, if◌then◌else◌,
}
use system_design_ecommerce.Errors.{
  Error, validation, sentinel, fault, wrapped, internal, invalid_input, conflict, Result, ok, err,
  refuse_if, ◌>>=◌, ◌>>◌,
}
use system_design_ecommerce.Text.{Text, text_eq, is_empty}
use system_design_ecommerce.Uuid.{parse_uuid}
use system_design_ecommerce.Money.{Money}
use system_design_ecommerce.Idempotency.{Claim, find_claim}
use system_design_ecommerce.Tx.{Server, run_tx}
use system_design_ecommerce.Payment.Domain.{
  Sentinel, Payment, Status, pending, ChargeResult, new_method, new_payment,
}
use system_design_ecommerce.Payment.Store.{Store, create, find_by_id, claim_key}

-- in.InitiatePaymentCommand
pub record InitiatePaymentCommand : Type 0 where
  pub user_id : Text
  pub order_id : Text
  pub method : Text
  pub idempotency_key : Text

-- the command once it has been parsed, with its fingerprint
pub record Request : Type 0 where
  pub user_id : Text
  pub order_id : Text
  pub method : Text
  pub key : Text
  pub hash : Text

-- out.PayableOrder, as far as the service reads it
pub record PayableOrder : Type 0 where
  pub total : Money
  pub payable : Bool

-- out.ChargeCommand
pub record ChargeCommand : Type 0 where
  pub payment_id : Text
  pub order_id : Text
  pub amount : Money
  pub method : Text

-- in.InitiatedPayment, where it has a payment
pub record InitiatedPayment : Type 0 where
  pub payment : Payment
  pub next_action_url : Text

-- What a call answers and stores, and what it asked the provider to charge.
pub record Outcome : Type 0 where
  pub answer : Result Sentinel InitiatedPayment
  pub stored : Store
  pub charges : List ChargeCommand

-- errKeyReused
abbrev pub key_reused {ℓ} : {S : Type ℓ} → Error S
key_reused = fault conflict "IDEMPOTENCY_KEY_REUSED"

-- hashRequest
unfoldable pub hash_request : (Text → Text) → Text → Text → Text → Text
hash_request sha256 user_id order_id method = sha256 (0 ∷ user_id ++ (0 ∷ order_id ++ (0 ∷ method)))

-- the parse at the head of InitiatePayment
unfoldable pub parse_request :
    (Text → Option Text) → (Text → Text) → InitiatePaymentCommand → Result Sentinel Request
unfolding hash_request
parse_request uuid_of sha256 cmd = do
  user_id ← parse_uuid uuid_of "user_id" cmd.user_id
  order_id ← parse_uuid uuid_of "order_id" cmd.order_id
  method ← new_method cmd.method
  refuse_if (is_empty cmd.idempotency_key) (fault invalid_input "IDEMPOTENCY_KEY_REQUIRED")
  ok (record {
    user_id = user_id;
    order_id = order_id;
    method = method;
    key = cmd.idempotency_key;
    hash = hash_request sha256 user_id order_id method;
  })

-- replay, by the claim that Find gives: nil, or the attempt that answers the key
unfoldable pub replay_of : Text → Store → Option Claim → Result Sentinel (Option Payment)
replay_of hash s none = ok none
replay_of hash s (some claim) =
    if not (text_eq claim.request_hash hash)
    then err key_reused
    else (find_by_id claim.answer s >>= λ (p, _). ok (some p))

-- replay
unfoldable pub replay : Request → Store → Result Sentinel (Option Payment)
unfolding replay_of
replay q s = replay_of q.hash s (find_claim q.user_id q.key s.claims)

abbrev pub is_pending : Status → Bool
is_pending pending = true
is_pending _ = false

-- the URL that Retrieve gives, if the provider answers
abbrev pub url_or_none : Option Text → Text
url_or_none none = []
url_or_none (some url) = url

-- withNextAction, with an attempt
unfoldable pub with_next_action : (Text → Option Text) → Payment → InitiatedPayment
with_next_action retrieve p = record {
  payment = p;
  next_action_url =
      if not (is_pending p.status) || is_empty p.provider_reference
      then []
      else url_or_none (retrieve p.provider_reference);
}

-- How the first transaction of InitiatePayment ends without storing: an error of the service, or
-- errReplay with the attempt that the key has.
pub data Stop : Type 0 where
  refused : Error Sentinel → Stop
  replayed : Text → Stop

abbrev pub stop_on {ℓ} : {A : Type ℓ} → Result Sentinel A → Result Stop A
stop_on (ok a) = ok a
stop_on (err e) = err (sentinel (refused e))

-- what the first transaction does once the idempotency store has answered
unfoldable pub open_claimed :
    Payment → Text → (Claim × Bool) × Store → Result Stop (Payment × Store)
open_claimed built hash ((standing, false), s) =
    if not (text_eq standing.request_hash hash)
    then err (sentinel (refused key_reused))
    else err (sentinel (replayed standing.answer))
open_claimed built hash ((standing, true), s) = stop_on (create built s)

-- the first transaction of InitiatePayment: the claim and the attempt
unfoldable pub open_tx : Request → Payment → Store → Result Stop (Payment × Store)
unfolding open_claimed
open_tx q built s = open_claimed built q.hash (
    claim_key
      (record { user_id = q.user_id; key = q.key; request_hash = q.hash; answer = built.id }) s)

-- the error of the first transaction, where it is not errReplay
abbrev pub stop_error : Error Stop → Error Sentinel
stop_error (validation field message) = validation field message
stop_error (sentinel (refused e)) = e
stop_error (sentinel (replayed id)) = fault internal ""
stop_error (fault kind reason) = fault kind reason
stop_error (wrapped cause kind reason) = fault kind reason

-- an answer without a request for money
abbrev pub answers : Result Sentinel InitiatedPayment → Store → Outcome
answers answer s = record { answer = answer; stored = s; charges = [] }

-- what InitiatePayment answers once settle has
abbrev pub settled_answer : Text → Result Sentinel Payment → Result Sentinel InitiatedPayment
settled_answer url (ok p) = ok (record { payment = p; next_action_url = url })
settled_answer url (err e) = err e

-- NewPayment, from the order that the order service gives
unfoldable pub attempt_of : Text → Request → PayableOrder → Result Sentinel Payment
attempt_of minted q order =
    if not order.payable
    then err (fault conflict "ORDER_NOT_PAYABLE")
    else new_payment minted q.order_id q.user_id order.total q.method

module _ (retrieve : Text → Option Text)
    (charge : ChargeCommand → Result Sentinel (ChargeResult × Text)) (settle_server : Server)
    (meanwhile : Store → Store) where
  -- once the provider has answered: what settle stores, on what others stored meanwhile
  unfoldable pub after_charge :
      ChargeCommand → Result Sentinel (ChargeResult × Text) → Store → Outcome
  unfolding settle
  after_charge cmd (err e) s = record { answer = err e; stored = meanwhile s; charges = cmd ∷ [] }
  after_charge cmd (ok (result, url)) s =
      let (p, s') = settle settle_server cmd.payment_id result (meanwhile s) in
      record { answer = settled_answer url p; stored = s'; charges = cmd ∷ [] }

  -- once the first transaction has ended
  unfoldable pub after_open : Payment → Result Stop Payment × Store → Outcome
  unfolding with_next_action after_charge
  after_open built (ok _, s) =
      let cmd : ChargeCommand = record {
        payment_id = built.id;
        order_id = built.order_id;
        amount = built.amount;
        method = built.method;
      } in
      after_charge cmd (charge cmd) s
  after_open built (err (sentinel (replayed id)), s) =
      answers (find_by_id id s >>= λ (p, _). ok (with_next_action retrieve p)) s
  after_open built (err e, s) = answers (err (stop_error e)) s

  -- once the attempt has been built
  unfoldable pub open_attempt : Server → Request → Result Sentinel Payment → Store → Outcome
  unfolding open_tx after_open
  open_attempt open_server q (err e) s = answers (err e) s
  open_attempt open_server q (ok built) s =
      after_open built (run_tx open_server (open_tx q built) s)

  module _ (get_order : Text → Result Sentinel PayableOrder) where
    -- once the key has been looked up
    unfoldable pub after_replay :
        Server → Text → Request → Result Sentinel (Option Payment) → Store → Outcome
    unfolding open_attempt with_next_action attempt_of
    after_replay open_server minted q (err e) s = answers (err e) s
    after_replay open_server minted q (ok (some p)) s = answers (ok (with_next_action retrieve p)) s
    after_replay open_server minted q (ok none) s =
        open_attempt open_server q (get_order q.order_id >>= λ order. attempt_of minted q order) s

    -- InitiatePayment, once the command has been parsed
    unfoldable pub initiate : Server → Text → Result Sentinel Request → Store → Outcome
    unfolding after_replay replay
    initiate open_server minted (err e) s = answers (err e) s
    initiate open_server minted (ok q) s = after_replay open_server minted q (replay q s) s

    -- InitiatePayment
    unfoldable pub initiate_payment :
        (Text → Option Text)
        → (Text → Text)
        → Server
        → Text
        → InitiatePaymentCommand
        → Store
        → Outcome
    unfolding initiate parse_request
    initiate_payment uuid_of sha256 open_server minted cmd s =
        initiate open_server minted (parse_request uuid_of sha256 cmd) s
