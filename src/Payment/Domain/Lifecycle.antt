-- ===== src/Payment/Domain/Lifecycle.antt =====
-- What the provider's answers make of an attempt, however often and in whatever order they come
-- (apply of payment_service.go, on Succeed, Fail and AttachProviderReference of payment.go).
use system_design_ecommerce.Prelude.{◌≡◌, refl, ◌⊎◌, inr, Bool, true, false, List, [], ◌∷◌, arith}
use system_design_ecommerce.Errors.{ok, err}
use system_design_ecommerce.Text.{is_empty, text_eq_refl}
use system_design_ecommerce.Payment.Domain.{
  payment_did_fail, payment_did_succeed, attach_declined, attach_provider_reference, fail, succeed,
  Payment, pending, succeeded, failed, Transition, apply, ChargeResult,
}

-- Where an answer of the provider was applied without an error, the same answer, applied again to
-- what that left, succeeds, moves nothing and changes nothing.
pub apply-redelivered :
    (result : ChargeResult) (p : Payment) {p' : Payment} {moved : Bool}
    → apply result p ≡ ok (p', moved)
    → apply result p' ≡ ok (p', false)
unfolding apply succeed fail attach_declined attach_provider_reference
apply-redelivered result p h = ground (arith, text_eq_refl result.reference)

-- What the use case keeps: an answer that is refused, or that moved nothing, stores nothing.
abbrev pub kept : Payment → Transition → Payment
kept p (ok (p', true)) = p'
kept p (ok (p', false)) = p
kept p (err e) = p

-- The attempt after some answers.
unfoldable pub history : List ChargeResult → Payment → Payment
unfolding apply
history [] p = p
history (result ∷ results) p = history results (kept p (apply result p))

-- What an attempt was made for.
abbrev pub SameCharge : Payment → Payment → Type 0
SameCharge p p' =
    (p'.id ≡ p.id)
    × (p'.method ≡ p.method)
    × (p'.order_id ≡ p.order_id)
    × (p'.user_id ≡ p.user_id)
    × (p'.amount ≡ p.amount)

abbrev pub KeepsReference : Payment → Payment → Type 0
KeepsReference p p' = (p.provider_reference ≡ []) ⊎ (p'.provider_reference ≡ p.provider_reference)

-- The events that an attempt has raised say what its status says.
abbrev pub IsSettled : Payment → Type 0
IsSettled p =
    ((p.status ≡ pending) × (p.events ≡ []))
    ⊎ (((p.status ≡ succeeded)
          × (is_empty p.provider_reference ≡ false)
          × (p.events
              ≡ payment_did_succeed p.id p.order_id p.user_id p.amount p.provider_reference ∷ []))
        ⊎ ((p.status ≡ failed)
            × (p.events
                ≡ payment_did_fail p.id p.order_id p.user_id p.amount p.failure_reason ∷ [])))

step-IsSettled :
    (result : ChargeResult) (p : Payment) → IsSettled p → IsSettled (kept p (apply result p))
unfolding apply succeed fail attach_declined attach_provider_reference
step-IsSettled result p h = ground arith

step-keeps :
    (result : ChargeResult) (p : Payment)
    → SameCharge p (kept p (apply result p)) × KeepsReference p (kept p (apply result p))
unfolding apply succeed fail attach_declined attach_provider_reference
step-keeps result p = ground arith

keeps_trans :
    (p q r : Payment)
    → SameCharge p q × KeepsReference p q
    → SameCharge q r × KeepsReference q r
    → SameCharge p r × KeepsReference p r
keeps_trans p q r h k = ground arith

-- From an attempt whose events say what its status says, as a new one's do, any answers of the
-- provider, in any order and however often, lead to one whose events do: none while it is pending,
-- and exactly one, of success or of failure, once it is settled. An attempt that succeeded has a
-- reference.
pub history-IsSettled :
    (results : List ChargeResult) (p : Payment) → IsSettled p → IsSettled (history results p)
unfolding history
history-IsSettled [] p h = h
history-IsSettled (result ∷ results) p h =
    history-IsSettled results (kept p (apply result p)) (step-IsSettled result p h)

-- Any answers keep what the attempt was made for: its identifier, order, user, method and amount.
-- They keep the provider's reference, where it has one.
pub history-keeps :
    (results : List ChargeResult) (p : Payment)
    → SameCharge p (history results p) × KeepsReference p (history results p)
unfolding history
history-keeps [] p = ((refl, refl, refl, refl, refl), inr refl)
history-keeps (result ∷ results) p =
    keeps_trans p (kept p (apply result p)) (history results (kept p (apply result p)))
      (step-keeps result p) (history-keeps results (kept p (apply result p)))
