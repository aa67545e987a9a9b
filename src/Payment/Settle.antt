-- ===== src/Payment/Settle.antt =====
-- settle and HandleProviderCallback of services/payment/internal/app/payment_service.go.
-- `parse_callback` is the provider gateway's ParseCallback, and how the server answers to the
-- transaction is an argument.

use system_design_ecommerce.Prelude.{Bool, true, false, Option, none, some, if◌then◌else◌}
use system_design_ecommerce.Errors.{Result, ok, err, is, ◌>>=◌}
use system_design_ecommerce.Text.{Text}
use system_design_ecommerce.Tx.{Server, run_tx, with_parsed}
use system_design_ecommerce.Payment.Domain.{
  Sentinel, Payment, ChargeResult, apply, payment_not_found, payment_succeeded, payment_failed,
  provider_reference_conflict,
}
use system_design_ecommerce.Payment.Store.{Store, Action, update, find_by_id}

abbrev pub same_sentinel : Sentinel → Sentinel → Bool
same_sentinel payment_not_found payment_not_found = true
same_sentinel payment_succeeded payment_succeeded = true
same_sentinel payment_failed payment_failed = true
same_sentinel provider_reference_conflict provider_reference_conflict = true
same_sentinel _ _ = false

-- out.Callback
pub record Callback : Type 0 where
  pub payment_id : Text
  pub result : ChargeResult

-- what settle stores, once apply has answered
unfoldable pub store_applied : Payment × Bool → Action Payment
store_applied (p, false) s = ok (p, s)
store_applied (p, true) s = update p s

-- the transaction of settle
unfoldable pub settle_tx : Text → ChargeResult → Action Payment
unfolding store_applied
settle_tx payment_id result s = do
  (p, s') ← find_by_id payment_id s
  applied ← apply result p
  store_applied applied s'

-- settle
unfoldable pub settle : Server → Text → ChargeResult → Store → Result Sentinel Payment × Store
unfolding settle_tx
settle server payment_id result = run_tx server (settle_tx payment_id result)

-- HandleProviderCallback, once the callback has been settled: an attempt that nobody has is no error
unfoldable pub callback_answer :
    Result Sentinel Payment × Store → Result Sentinel (Option Payment) × Store
callback_answer (ok p, s) = (ok (some p), s)
callback_answer (err e, s) =
    if is same_sentinel e payment_not_found then (ok none, s) else (err e, s)

-- HandleProviderCallback
unfoldable pub handle_provider_callback :
    (Text → Text → Result Sentinel Callback)
    → Server
    → Text
    → Text
    → Store
    → Result Sentinel (Option Payment) × Store
unfolding callback_answer
handle_provider_callback parse_callback server payload signature =
    with_parsed (parse_callback payload signature)
      λ callback s. callback_answer (settle server callback.payment_id callback.result s)
