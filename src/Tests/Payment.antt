-- ===== src/Tests/Payment.antt =====
-- The theorems of the payment service at concrete inputs: an attempt whose callbacks come twice.
use system_design_ecommerce.Prelude.{◌≡◌, refl, inl, true, false, [], ◌∷◌}
use system_design_ecommerce.Prelude.Int.{pos}
use system_design_ecommerce.Errors.{ok}
use system_design_ecommerce.Text.{Text}
use system_design_ecommerce.Payment.Domain.{
  attach_provider_reference, succeed, Payment, ChargeResult, pending, succeeded, failed, apply,
  payment_did_succeed,
}
use system_design_ecommerce.Payment.Domain.Lifecycle.{
  apply-redelivered, history, history-IsSettled, history-keeps, IsSettled, SameCharge,
  KeepsReference,
}

abbrev pub charge_id : Text
charge_id = b'c' ∷ b'1' ∷ []

abbrev pub attempt_made : Payment
attempt_made = record {
  id = b'p' ∷ [];
  order_id = b'o' ∷ [];
  user_id = b'u' ∷ [];
  status = pending;
  amount = record { amount_minor = 1050; currency = b'T' ∷ b'H' ∷ b'B' ∷ [] };
  method = [];
  provider_reference = [];
  failure_reason = [];
  created_at = pos 0;
  updated_at = pos 0;
  version = 1;
  events = [];
}

abbrev pub accepted : ChargeResult
accepted = record { status = succeeded; reference = charge_id; failure_reason = [] }

abbrev declined : ChargeResult
declined = record { status = failed; reference = charge_id; failure_reason = b'n' ∷ b'o' ∷ [] }

abbrev collected : Payment
collected = record attempt_made {
  status = succeeded;
  provider_reference = charge_id;
  events =
      payment_did_succeed (b'p' ∷ []) (b'o' ∷ []) (b'u' ∷ []) attempt_made.amount charge_id ∷ [];
}

accepted_applies : apply accepted attempt_made ≡ ok (collected, true)
unfolding apply succeed attach_provider_reference
accepted_applies = refl

apply-redelivered_example : apply accepted collected ≡ ok (collected, false)
apply-redelivered_example = apply-redelivered accepted attempt_made accepted_applies

history-IsSettled_example : IsSettled (history (accepted ∷ accepted ∷ declined ∷ []) attempt_made)
history-IsSettled_example =
    history-IsSettled (accepted ∷ accepted ∷ declined ∷ []) attempt_made (inl (refl, refl))

history-keeps_example :
    SameCharge attempt_made (history (declined ∷ accepted ∷ []) attempt_made)
    × KeepsReference attempt_made (history (declined ∷ accepted ∷ []) attempt_made)
history-keeps_example = history-keeps (declined ∷ accepted ∷ []) attempt_made
