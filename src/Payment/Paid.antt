-- ===== src/Payment/Paid.antt =====
-- Payments of one order: the rows, the partial unique index and the outbox, over the transactions of
-- payment_service.go.
use system_design_ecommerce.Prelude.{
  ◌==◌, ℕ, ◌+◌, ◌≤◌, ◌≡◌, refl, sym, ◌∙◌, ap, subst, Bool, true, false, ◌&&◌, Option, none, some,
  List, [], ◌∷◌, ◌++◌, All, arith, if◌then◌else◌, inl, inr, Bool-cases, &&-both,
}
use system_design_ecommerce.Prelude.Int.{pos}
use system_design_ecommerce.Errors.{ok, >>=-eq-ok, ◌>>=◌}
use system_design_ecommerce.Text.{Text, text_eq, text_eq→eq}
use system_design_ecommerce.Table.{select_one, update_one}
use system_design_ecommerce.Table.Laws.{
  total, total-append, total-update_one, UniqueKeys, UniqueKeys-update_one, UniqueKeys-snoc,
  select_one-Absent, select_one-holds, same_row, All-select_one, All-update_one, All-snoc,
}
use system_design_ecommerce.Payment.Domain.{
  Payment, Status, succeeded, Event, payment_did_succeed, payment_did_fail, ChargeResult, apply,
  pending, succeed, fail, attach_declined, attach_provider_reference,
}
use system_design_ecommerce.Payment.Store.{
  Store, create, update, write_payment, find_by_id, found, is_unresolved, is_current, settled_row,
  narrow, is_some,
}
use system_design_ecommerce.Payment.Settle.{settle_tx, store_applied}

abbrev pub is_succeeded : Status → Bool
is_succeeded succeeded = true
is_succeeded _ = false

-- Whether a row is an attempt of the order that has not failed, and whether it is one that succeeded.
abbrev pub open_for : Text → Payment → ℕ
open_for k p = if is_unresolved p && text_eq p.order_id k then 1 else 0

abbrev pub won_for : Text → Payment → ℕ
won_for k p = if is_succeeded p.status && text_eq p.order_id k then 1 else 0

-- Whether an event says that the order was paid.
abbrev pub success_of : Text → Event → ℕ
success_of k (payment_did_succeed _ order_id _ _ _) = if text_eq order_id k then 1 else 0
success_of k (payment_did_fail _ _ _ _ _) = 0

-- The rows of payments and the outbox: of every order at most one attempt has not failed, and the
-- outbox has announced a success for every attempt that succeeded.
pub record IsCharged (s : Store) : Type 0 where
  pub once : (k : Text) → total (open_for k) s.payments ≤ 1
  pub told : (k : Text) → total (success_of k) s.outbox ≡ total (won_for k) s.payments
  pub unique_ids : UniqueKeys (λ (p : Payment). p.id) s.payments
  pub quiet : All (λ (p : Payment). p.events ≡ []) s.payments

-- What a transition that moved an attempt means for its order.
record Advances (k : Text) (p p' : Payment) : Type 0 where
  same_id : p'.id ≡ p.id
  same_order : p'.order_id ≡ p.order_id
  announces : total (success_of k) p'.events + won_for k p ≡ won_for k p'
  opens : open_for k p' ≤ open_for k p

apply-Advances :
    (k : Text) (result : ChargeResult) (p p' : Payment)
    → p.events ≡ []
    → apply result p ≡ ok (p', true)
    → Advances k p p'
unfolding apply succeed fail attach_declined attach_provider_reference
apply-Advances k result p p' quiet h = record {
  same_id = ground arith;
  same_order = ground arith;
  announces = ground arith;
  opens = ground arith;
}

no_open :
    (k : Text) (t : List Payment)
    → select_one (λ r. is_unresolved r && text_eq r.order_id k) t ≡ none
    → total (open_for k) t ≡ 0
no_open k [] h = refl
no_open k (x ∷ t) h = elim (Bool-cases (is_unresolved x && text_eq x.order_id k)) [
  | inl y ↦ absurd (ground arith)
  | inr n ↦ rw n (omega (arith, no_open k t (rw n at h)))
]

pub won-le-open : (k : Text) (t : List Payment) → total (won_for k) t ≤ total (open_for k) t
won-le-open k [] = omega arith
won-le-open k (x ∷ t) = ground (arith, won-le-open k t)

-- An attempt that was just built.
abbrev pub IsNew : Payment → Type 0
IsNew p = (p.status ≡ pending) × (p.events ≡ [])

-- the row that CreatePayment inserts
abbrev pub inserted_row : Store → Payment → Payment
inserted_row s p = record p {
  provider_reference = [];
  failure_reason = [];
  created_at = s.clock;
  updated_at = s.clock;
  version = 1;
  events = [];
}

abbrev pub with_row : Store → Payment → Store
with_row s p = record s {
  payments = s.payments ++ inserted_row s p ∷ [];
  outbox = s.outbox ++ p.events;
}

-- What an INSERT that succeeds has found: no row of the identifier, no unresolved one of the order.
pub record Inserts (p : Payment) (s s' : Store) : Type 0 where
  pub fresh : select_one (λ (r : Payment). text_eq r.id p.id) s.payments ≡ none
  pub free :
      select_one (λ (r : Payment). is_unresolved r && text_eq r.order_id p.order_id) s.payments
      ≡ none
  pub left : s' ≡ with_row s p

nothing_found : (o : Option Payment) → is_some o ≡ false → o ≡ none
nothing_found none h = refl
nothing_found (some p) h = cc

pub create-Inserts : (p r : Payment) (s s' : Store) → create p s ≡ ok (r, s') → Inserts p s s'
unfolding create
create-Inserts p r s s' h = record {
  fresh = nothing_found _ (ground arith);
  free = nothing_found _ (ground arith);
  left = ground arith;
}

-- An attempt counts for the order that it names.
open_elsewhere : (k : Text) (p : Payment) → text_eq p.order_id k ≡ false → open_for k p ≡ 0
open_elsewhere k p h = ground arith

create-once :
    (p r : Payment) (s s' : Store) (k : Text)
    → IsCharged s
    → create p s ≡ ok (r, s')
    → total (open_for k) (s.payments ++ inserted_row s p ∷ []) ≤ 1
create-once p r s s' k c h =
    let made = create-Inserts p r s s' h in
    elim (Bool-cases (text_eq p.order_id k)) [
      | inl y ↦
          let none_yet : total (open_for k) s.payments ≡ 0 = no_open k s.payments (
            subst (λ j. select_one (λ r. is_unresolved r && text_eq r.order_id j) s.payments ≡ none)
              (text_eq→eq p.order_id k y) made.free) in
          ground (arith, total-append (open_for k) s.payments (inserted_row s p ∷ []))
      | inr n ↦ omega (
        arith,
        c.once k,
        open_elsewhere k (inserted_row s p) n,
        total-append (open_for k) s.payments (inserted_row s p ∷ []),
      )
    ]

not_won : (k : Text) (p : Payment) → p.status ≡ pending → won_for k p ≡ 0
not_won k p h = ground arith

pub create-IsCharged :
    (p r : Payment) (s s' : Store) → IsNew p → IsCharged s → create p s ≡ ok (r, s') → IsCharged s'
create-IsCharged p r s s' new c h =
    let made = create-Inserts p r s s' h in
    let inserted : IsCharged (with_row s p) = record {
      once = λ k. create-once p r s s' k c h;
      told = λ k. omega (
        arith,
        c.told k,
        total-append (success_of k) s.outbox p.events,
        ap (total (success_of k)) new.1,
        total-append (won_for k) s.payments (inserted_row s p ∷ []),
        not_won k p new.0,
      );
      unique_ids =
          UniqueKeys-snoc (λ (x : Payment). x.id) s.payments (inserted_row s p) c.unique_ids
            (select_one-Absent (λ (x : Payment). x.id) p.id s.payments made.fresh);
      quiet = All-snoc (λ (x : Payment). x.events ≡ []) s.payments c.quiet refl;
    } in
    subst IsCharged (sym made.left) inserted

-- the rows that SettlePayment leaves
abbrev pub settled : Store → Payment → Payment → Store
settled s p r = record s {
  payments = update_one (is_current p) (λ _. settled_row s p r) s.payments;
  outbox = s.outbox ++ p.events;
}

pub write_payment-settled :
    (p : Payment) (s : Store) (o : Option Payment) {r : Payment} {s' : Store}
    → select_one (is_current p) s.payments ≡ o
    → write_payment p s o ≡ ok (r, s')
    → (u : Payment) × (select_one (is_current p) s.payments ≡ some u) × (s' ≡ settled s p u)
unfolding write_payment
write_payment-settled p s none e h = cc
write_payment-settled p s (some u) e h = (u, e, ground arith)

-- A row that is written with what moved it.
settled-IsCharged :
    (p' r : Payment) (s : Store)
    → IsCharged s
    → ((k : Text) → Advances k r p')
    → r.events ≡ []
    → select_one (is_current p') s.payments ≡ some r
    → IsCharged (settled s p' r)
settled-IsCharged p' r s c a quiet h = record {
  once = λ k. omega (
    arith,
    c.once k,
    total-update_one (is_current p') (open_for k) r (settled_row s p' r) s.payments h,
    same_open k,
    (a k).opens,
  );
  told = λ k. omega (
    arith,
    c.told k,
    total-append (success_of k) s.outbox p'.events,
    total-update_one (is_current p') (won_for k) r (settled_row s p' r) s.payments h,
    same_won k,
    (a k).announces,
  );
  unique_ids =
      UniqueKeys-update_one (λ (x : Payment). x.id) (is_current p') r (settled_row s p' r)
        s.payments h refl c.unique_ids;
  quiet =
      All-update_one (is_current p') (λ (x : Payment). x.events ≡ []) (settled_row s p' r)
        s.payments c.quiet quiet;
}
  where
    same_open : (k : Text) → open_for k (settled_row s p' r) ≡ open_for k p'
    same_open k = ground (arith, (a k).same_order)

    same_won : (k : Text) → won_for k (settled_row s p' r) ≡ won_for k p'
    same_won k = ground (arith, (a k).same_order)

pub found-row :
    (id : Text) (s : Store) (o : Option Payment) {r : Payment} {s' : Store}
    → select_one (λ (x : Payment). text_eq x.id id) s.payments ≡ o
    → found o s ≡ ok (r, s')
    → (select_one (λ (x : Payment). text_eq x.id id) s.payments ≡ some r) × (s' ≡ s)
unfolding found
found-row id s none e h = cc
found-row id s (some r) e h = (e ∙ ground arith, ground arith)

store_applied-IsCharged :
    (id : Text) (result : ChargeResult) (r p' q : Payment) (moved : Bool) (s s' : Store)
    → IsCharged s
    → select_one (λ (x : Payment). text_eq x.id id) s.payments ≡ some r
    → apply result r ≡ ok (p', moved)
    → store_applied (p', moved) s ≡ ok (q, s')
    → IsCharged s'
unfolding store_applied update
store_applied-IsCharged id result r p' q false s s' c e a h = subst IsCharged (ground arith) c
store_applied-IsCharged id result r p' q true s s' c e a h =
    let quiet : r.events ≡ [] =
      All-select_one (λ (x : Payment). text_eq x.id id) (λ (x : Payment). x.events ≡ []) s.payments
        c.quiet e in
    let steps : (k : Text) → Advances k r p' = λ k. apply-Advances k result r p' quiet a in
    let (u, at, left) = write_payment-settled p' s _ refl h in
    let same : u ≡ r =
      let met =
        &&-both (text_eq u.id p'.id) (u.version == narrow (pos p'.version))
          (select_one-holds (is_current p') s.payments at) in
      same_row (λ (x : Payment). x.id) (is_current p') (λ x. text_eq x.id id) s.payments
        c.unique_ids at e (rw (← (steps []).same_id) met.0) in
    subst IsCharged (sym (left ∙ ap (settled s p') same))
      (settled-IsCharged p' r s c steps quiet (at ∙ ap some same))

pub settle_tx-IsCharged :
    (id : Text) (result : ChargeResult) (s s' : Store) {q : Payment}
    → IsCharged s
    → settle_tx id result s ≡ ok (q, s')
    → IsCharged s'
unfolding settle_tx find_by_id
settle_tx-IsCharged id result s s' {q} c h =
    let ((r, t), finds, rest) =
      >>=-eq-ok (find_by_id id s) (λ (r, t). apply result r >>= λ applied. store_applied applied t)
        h in
    let ((p', moved), a, last) =
      >>=-eq-ok (apply result r) (λ applied. store_applied applied t) rest in
    let (at, same) = found-row id s _ refl finds in
    store_applied-IsCharged id result r p' q moved s s' c at a
      (ap (store_applied (p', moved)) (sym same) ∙ last)
