-- ===== src/Inventory/Domain/Lifecycle.antt =====
-- The state machine of a reservation (Commit, Release and Expire of reservation.go).
use system_design_ecommerce.Prelude.{[], inr, ◌+◌, inl, ◌≡◌, refl, ◌⊎◌, true, false, arith, ℕ}
use system_design_ecommerce.Prelude.Int.{ℤ, ◌≤ℤ◌}
use system_design_ecommerce.Errors.{ok, err}
use system_design_ecommerce.Inventory.Domain.{
  ◌∷◌, List, Reservation, Status, held, committed, released, expired, commit, release, expire,
  is_held, Transition,
}

-- One call of a method of the aggregate.
pub data Move : Type 0 where
  commits expires : ℤ → Move
  releases : Move

unfoldable pub attempt : Move → Reservation → Transition
attempt (commits now) r = commit now r
attempt (expires now) r = expire now r
attempt releases r = release r

-- The edges of the diagram: from a hold to a sale before the deadline, to a release, and to an
-- expiry at or after the deadline.
abbrev pub Edge : Reservation → Move → Status → Type 0
Edge r (commits now) s = (r.status ≡ held) × ¬ (r.expires_at ≤ℤ now) × (s ≡ committed)
Edge r (expires now) s = (r.status ≡ held) × (r.expires_at ≤ℤ now) × (s ≡ expired)
Edge r releases s = (r.status ≡ held) × (s ≡ released)

-- A call that reports a move has taken an edge of the diagram, and has changed nothing but the
-- status.
pub attempt-Edge :
    (r : Reservation) (m : Move) {r' : Reservation}
    → attempt m r ≡ ok (r', true)
    → Edge r m r'.status × (r' ≡ record r { status = r'.status })
unfolding attempt commit release expire
attempt-Edge r (commits now) h = ground arith
attempt-Edge r (expires now) h = ground arith
attempt-Edge r releases h = ground arith

-- The same method, called later.
abbrev pub again : Move → ℤ → Move
again (commits now) later = commits later
again (expires now) later = expires later
again releases later = releases

-- After a call that moved the reservation, a call of the same method, at whatever time it comes,
-- succeeds and reports that it moved nothing.
pub repeat-unmoved :
    (r : Reservation) (m : Move) (later : ℤ) {r' : Reservation}
    → attempt m r ≡ ok (r', true)
    → attempt (again m later) r' ≡ ok (r', false)
unfolding attempt commit release expire
repeat-unmoved r (commits now) later h = ground arith
repeat-unmoved r (expires now) later h = ground arith
repeat-unmoved r releases later h = ground arith

-- What a caller keeps after a call: a call that fails persists nothing.
abbrev pub kept : Reservation → Transition → Reservation × ℕ
kept r (ok (r', true)) = (r', 1)
kept r (ok (r', false)) = (r', 0)
kept r (err e) = (r, 0)

-- The reservation after some calls, and how many of them reported that they moved it.
pub history : List Move → Reservation → Reservation × ℕ
history [] r = (r, 0)
history (m ∷ ms) r =
    let (r', n) = kept r (attempt m r) in let (r'', k) = history ms r' in (r'', n + k)

settled_stays :
    (r : Reservation) (m : Move) → is_held r.status ≡ false → kept r (attempt m r) ≡ (r, 0)
unfolding attempt commit release expire
settled_stays r (commits now) h = ground arith
settled_stays r (expires now) h = ground arith
settled_stays r releases h = ground arith

held_moves :
    (r : Reservation) (m : Move)
    → is_held r.status ≡ true
    → (kept r (attempt m r) ≡ (r, 0))
      ⊎ (((kept r (attempt m r)).1 ≡ 1) × (is_held (kept r (attempt m r)).0.status ≡ false))
unfolding attempt commit release expire
held_moves r (commits now) h = ground arith
held_moves r (expires now) h = ground arith
held_moves r releases h = ground arith

-- A reservation that is not held is left as it is by any calls at any times, and none reports a
-- move.
pub settled_forever :
    (ms : List Move) (r : Reservation) → is_held r.status ≡ false → history ms r ≡ (r, 0)
unfolding history
settled_forever [] r h = refl
settled_forever (m ∷ ms) r h = rw (settled_stays r m h) (rw (settled_forever ms r h))

-- Still held and moved by no call, or not held and moved by one.
abbrev pub SettledOnce : Reservation × ℕ → Type 0
SettledOnce (r, n) = ((is_held r.status ≡ true) × (n ≡ 0)) ⊎ ((is_held r.status ≡ false) × (n ≡ 1))

-- From a held reservation, over any calls at any times, either no call reports a move and it is
-- still held, or exactly one does and it is held no more.
pub history-SettledOnce :
    (ms : List Move) (r : Reservation) → is_held r.status ≡ true → SettledOnce (history ms r)
unfolding history
history-SettledOnce [] r h = inl (h, refl)
history-SettledOnce (m ∷ ms) r h = elim (held_moves r m h) [
  | inl e ↦ rw e (ground (arith, history-SettledOnce ms r h))
  | inr (e, f) ↦ rw (settled_forever ms (kept r (attempt m r)).0 f) (inr (f, omega arith))
]
