-- ===== src/Payment/Domain.antt =====
-- services/payment/internal/domain: payment.go, method.go, event.go and errors.go, and `apply` of
-- services/payment/internal/app/payment_service.go. An instant is an integer (nanoseconds).
-- A method name with a code point beyond ASCII is refused whether its bytes or its code points are
-- counted.
pub mod Lifecycle
use system_design_ecommerce.Prelude.{
  ℕ, ◌+◌, Bool, true, false, ◌||◌, ◌&&◌, not, List, [], ◌∷◌, ◌++◌, length, ltb, leb, ◌==◌,
  if◌then◌else◌,
}
use system_design_ecommerce.Prelude.Int.{ℤ, pos}
use system_design_ecommerce.Errors.{
  Error, validation, sentinel, Result, ok, err, ◌>>=◌, ◌>>◌, refuse_if,
}
use system_design_ecommerce.Text.{Text, text_eq, is_empty}
use system_design_ecommerce.Text.Case.{trim_space, to_lower}
use system_design_ecommerce.Money.{Money}

-- errors.go: the package's sentinels
pub data Sentinel : Type 0 where
  payment_not_found payment_succeeded payment_failed provider_reference_conflict : Sentinel

abbrev pub method_max : ℕ
method_max = 32

-- the `valid` of NewMethod, at index i
abbrev pub is_method_rune : ℕ → ℕ → Bool
is_method_rune i c =
    (leb b'a' c && leb c b'z') || (ltb 0 i && ((leb b'0' c && leb c b'9') || c == b'_'))

-- the loop of NewMethod, from index i
unfoldable pub are_method_runes : ℕ → Text → Bool
are_method_runes i [] = true
are_method_runes i (c ∷ s) = is_method_rune i c && are_method_runes (i + 1) s

abbrev pub invalid_method : Error Sentinel
invalid_method = validation "method" "is not a lowercase method name"

-- NewMethod
unfoldable pub new_method : Text → Result Sentinel Text
unfolding are_method_runes
new_method s =
    let t : Text = to_lower (trim_space s) in
    if is_empty t
    then ok []
    else if ltb method_max (length t)
    then err invalid_method
    else if are_method_runes 0 t
    then ok t
    else err invalid_method

-- Status is a string: `unknown` is any other text that a row may hold.
pub data Status : Type 0 where
  pending succeeded failed : Status
  unknown : Text → Status

-- event.go
pub data Event : Type 0 where
  payment_did_succeed : Text → Text → Text → Money → Text → Event
  payment_did_fail : Text → Text → Text → Money → Text → Event

pub record Payment : Type 0 where
  pub id : Text
  pub order_id : Text
  pub user_id : Text
  pub status : Status
  pub amount : Money
  pub method : Text
  pub provider_reference : Text
  pub failure_reason : Text
  pub created_at : ℤ
  pub updated_at : ℤ
  pub version : ℕ
  pub events : List Event

-- NewPayment
unfoldable pub new_payment : Text → Text → Text → Money → Text → Result Sentinel Payment
new_payment id order_id user_id amount method =
    refuse_if (is_empty id) (validation "id" "is required")
    >> (refuse_if (is_empty order_id) (validation "order_id" "is required")
        >> (refuse_if (is_empty user_id) (validation "user_id" "is required")
            >> (refuse_if (is_empty amount.currency) (validation "amount" "has no currency")
                >> (refuse_if (amount.amount_minor == 0)
                      (validation "amount" "is not a positive amount")
                    >> ok (record {
                      id = id;
                      order_id = order_id;
                      user_id = user_id;
                      status = pending;
                      amount = amount;
                      method = method;
                      provider_reference = [];
                      failure_reason = [];
                      created_at = pos 0;
                      updated_at = pos 0;
                      version = 1;
                      events = [];
                    })))))

-- A method of *Payment returns the attempt that it leaves, whether it moved it, and its error.
abbrev pub Transition : Type 0
Transition = Result Sentinel (Payment × Bool)

-- AttachProviderReference
unfoldable pub attach_provider_reference : Text → Payment → Transition
attach_provider_reference reference p =
    if is_empty reference
    then err (validation "provider_reference" "is required")
    else if not (is_empty p.provider_reference)
    then if not (text_eq p.provider_reference reference)
      then err (sentinel provider_reference_conflict)
      else ok (p, false)
    else ok (record p { provider_reference = reference }, true)

-- the end of Succeed: the status and the event, on an attempt that has its reference
abbrev pub succeeded_payment : Payment → Payment
succeeded_payment p = record p {
  status = succeeded;
  events =
      p.events
      ++ (payment_did_succeed p.id p.order_id p.user_id p.amount p.provider_reference ∷ []);
}

succeed_from : Status → Text → Payment → Transition
unfolding attach_provider_reference
succeed_from succeeded reference p =
    attach_provider_reference reference p >>= λ attached. ok (attached.0, false)
succeed_from failed reference p = err (sentinel payment_failed)
succeed_from _ reference p =
    attach_provider_reference reference p >>= λ attached. ok (succeeded_payment attached.0, true)

-- Succeed
unfoldable pub succeed : Text → Payment → Transition
unfolding succeed_from
succeed reference p = succeed_from p.status reference p

-- the end of Fail
abbrev pub failed_payment : Text → Payment → Payment
failed_payment reason p = record p {
  status = failed;
  failure_reason = reason;
  events = p.events ++ (payment_did_fail p.id p.order_id p.user_id p.amount reason ∷ []);
}

fail_from : Status → Text → Payment → Transition
fail_from failed reason p = ok (p, false)
fail_from succeeded reason p = err (sentinel payment_succeeded)
fail_from _ reason p = ok (failed_payment reason p, true)

-- Fail
unfoldable pub fail : Text → Payment → Transition
unfolding fail_from
fail reason p = fail_from p.status reason p

-- PullEvents
unfoldable pub pull_events : Payment → List Event × Payment
pull_events p = (p.events, record p { events = [] })

-- out.ChargeResult, as far as `apply` reads it
pub record ChargeResult : Type 0 where
  pub status : Status
  pub reference : Text
  pub failure_reason : Text

-- what `apply` does after Fail: a declined charge keeps its reference
unfoldable pub attach_declined : Text → Payment × Bool → Transition
unfolding attach_provider_reference
attach_declined reference (p, false) = ok (p, false)
attach_declined reference (p, true) =
    if not (is_empty reference)
    then (attach_provider_reference reference p >>= λ attached. ok (attached.0, true))
    else ok (p, true)

apply_by : Status → ChargeResult → Payment → Transition
unfolding succeed fail attach_declined attach_provider_reference
apply_by succeeded result p = succeed result.reference p
apply_by failed result p =
    fail result.failure_reason p >>= λ moved. attach_declined result.reference moved
apply_by _ result p = attach_provider_reference result.reference p

-- apply of payment_service.go
unfoldable pub apply : ChargeResult → Payment → Transition
unfolding apply_by
apply result p = apply_by result.status result p
