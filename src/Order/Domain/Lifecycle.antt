-- ===== src/Order/Domain/Lifecycle.antt =====
-- The state machine of an order (MarkPaid, Cancel and Expire of order.go).
use system_design_ecommerce.Prelude.{◌++◌, ◌≡◌, refl, ◌⊎◌, inl, inr, List, [], ◌∷◌, arith}
use system_design_ecommerce.Prelude.Int.{ℤ}
use system_design_ecommerce.Errors.{ok, err}
use system_design_ecommerce.Order.Domain.{
  order_was_cancelled, order_was_paid, Order, pending_payment, paid, cancelled, Transition,
  mark_paid, cancel, expire, paid_order, cancelled_order,
}

-- One call of a method of the aggregate; an expiry has its time and its window.
pub data Move : Type 0 where
  pays cancels : Move
  expires : ℤ → ℤ → Move

unfoldable pub attempt : Move → Order → Transition
attempt pays o = mark_paid o
attempt cancels o = cancel o
attempt (expires now window) o = expire now window o

-- What a caller keeps after a call: a call that fails persists nothing.
abbrev pub kept : Order → Transition → Order
kept o (ok (o', moved)) = o'
kept o (err e) = o

unfoldable pub history : List Move → Order → Order
unfolding attempt
history [] o = o
history (m ∷ ms) o = history ms (kept o (attempt m o))

-- Where an order that waited for its payment may be: it still waits, or it was paid, or it was
-- cancelled, with the one event of that outcome raised and all else as it was.
abbrev pub Outcome : Order → Order → Type 0
Outcome o o' =
    (o' ≡ o)
    ⊎ ((o' ≡ record o {
      status = paid;
      events = o.events ++ (order_was_paid o.id o.user_id o.reservation_id o.total ∷ []);
    })
        ⊎ (o' ≡ record o {
          status = cancelled;
          events = o.events ++ (order_was_cancelled o.id o.user_id o.reservation_id ∷ []);
        }))

settled_stays :
    (o : Order) (m : Move) → (o.status ≡ paid) ⊎ (o.status ≡ cancelled) → kept o (attempt m o) ≡ o
unfolding attempt mark_paid cancel expire
settled_stays o pays h = ground arith
settled_stays o cancels h = ground arith
settled_stays o (expires now window) h = ground arith

settled_forever :
    (ms : List Move) (o : Order) → (o.status ≡ paid) ⊎ (o.status ≡ cancelled) → history ms o ≡ o
unfolding history
settled_forever [] o h = refl
settled_forever (m ∷ ms) o h = rw (settled_stays o m h) (settled_forever ms o h)

step-Outcome :
    (o : Order) (m : Move) → o.status ≡ pending_payment → Outcome o (kept o (attempt m o))
unfolding attempt mark_paid cancel expire
step-Outcome o pays h = ground arith
step-Outcome o cancels h = ground arith
step-Outcome o (expires now window) h = ground arith

-- Over any calls, at any times and in any order, an order that waits for its payment has one
-- outcome: it is as it was, or it was paid, or it was cancelled, and one event of that outcome, and
-- only one, was added.
pub history-Outcome :
    (ms : List Move) (o : Order) → o.status ≡ pending_payment → Outcome o (history ms o)
unfolding history
history-Outcome [] o h = inl refl
history-Outcome (m ∷ ms) o h = elim (step-Outcome o m h) [
  | inl e ↦ rw e (history-Outcome ms o h)
  | inr (inl e) ↦ rw e (rw (settled_forever ms (paid_order o) (inl refl)) (inr (inl refl)))
  | inr (inr e) ↦ rw e (rw (settled_forever ms (cancelled_order o) (inr refl)) (inr (inr refl)))
]
