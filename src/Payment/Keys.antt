-- ===== src/Payment/Keys.antt =====
-- The idempotency keys of InitiatePayment in payment_service.go.
use system_design_ecommerce.Table.Laws.{select_one-holds}
use system_design_ecommerce.Tx.{run_tx-keeps}
use system_design_ecommerce.Payment.Paid.{found-row, write_payment-settled, settled, create-Inserts}
use system_design_ecommerce.Prelude.Int.{pos, ℤ}
use system_design_ecommerce.Payment.Initiate.{attempt_of, open_claimed, open_tx, Request}
use system_design_ecommerce.Idempotency.Laws.{take_claim-keeps}
use system_design_ecommerce.Table.{update_one, select_one}
use system_design_ecommerce.Idempotency.{find_claim, Claim}
use system_design_ecommerce.Text.{text_eq→eq, text_eq, Text}
use system_design_ecommerce.Errors.{>>=-eq-ok, Result, ◌>>=◌, err, ok}
use system_design_ecommerce.Prelude.{
  &&-both, subst, ◌==◌, false, Bool-cases, Bool, true, inr, inl, ◌≡◌, refl, sym, ◌∙◌, ap, some,
  List, [], ◌∷◌, ◌++◌, arith,
}
use system_design_ecommerce.Payment.Domain.{apply, Sentinel, Payment, ChargeResult}
use system_design_ecommerce.Payment.Store.{
  settled_row, narrow, find_by_id, update, is_current, is_some, create, claim_key, Store,
}
use system_design_ecommerce.Payment.Settle.{settle_tx, store_applied, settle}
use system_design_ecommerce.Payment.Runs.{
  claim_of, stop_on-ok, Step, opens, settles, opened, after, run,
}

-- The claims and the attempts of a store are found in a later one.
pub record Grows (s t : Store) : Type 0 where
  pub claims_stay :
      (user_id key : Text) (c : Claim)
      → find_claim user_id key s.claims ≡ some c
      → find_claim user_id key t.claims ≡ some c
  pub rows_stay :
      (id : Text)
      → is_some (select_one (λ (r : Payment). text_eq r.id id) s.payments) ≡ true
      → is_some (select_one (λ (r : Payment). text_eq r.id id) t.payments) ≡ true

pub Grows-refl : (s : Store) → Grows s s
Grows-refl s = record { claims_stay = λ user_id key c h. h; rows_stay = λ id h. h }

pub Grows-trans : (s t u : Store) → Grows s t → Grows t u → Grows s u
Grows-trans s t u a b = record {
  claims_stay = λ user_id key c h. b.claims_stay user_id key c (a.claims_stay user_id key c h);
  rows_stay = λ id h. b.rows_stay id (a.rows_stay id h);
}

is_some-append :
    (p : Payment → Bool) (t u : List Payment)
    → is_some (select_one p t) ≡ true
    → is_some (select_one p (t ++ u)) ≡ true
is_some-append p [] u h = absurd (ground arith)
is_some-append p (x ∷ t) u h = elim (Bool-cases (p x)) [
  | inl y ↦ rw y refl
  | inr n ↦ rw n (is_some-append p t u (rw n at h))
]

is_some-update_one :
    (p q : Payment → Bool) (r : Payment) (t : List Payment)
    → ((x : Payment) → q x ≡ true → p x ≡ p r)
    → is_some (select_one p t) ≡ true
    → is_some (select_one p (update_one q (λ _. r) t)) ≡ true
is_some-update_one p q r [] same h = h
is_some-update_one p q r (x ∷ t) same h = elim (Bool-cases (q x)) [
  | inl y ↦ rw y (ground (arith, same x y))
  | inr n ↦ rw n (ground (arith, is_some-update_one p q r t same))
]

create-Grows : (p : Payment) (s t : Store) {r : Payment} → create p s ≡ ok (r, t) → Grows s t
create-Grows p s t {r} h =
    let made = create-Inserts p r s t h in
    subst (Grows s) (sym made.left) (record {
      claims_stay = λ user_id key c h. h;
      rows_stay = λ id h. is_some-append _ s.payments _ h;
    })

claim_key-Grows : (c : Claim) (s : Store) → Grows s (claim_key c s).1
unfolding claim_key
claim_key-Grows c s = record {
  claims_stay = λ user_id key d h. take_claim-keeps user_id key c s.claims h;
  rows_stay = λ id h. h;
}

settled-Grows :
    (p r : Payment) (s : Store)
    → select_one (is_current p) s.payments ≡ some r
    → Grows s (settled s p r)
settled-Grows p r s h = record {
  claims_stay = λ user_id key c e. e;
  rows_stay = λ id e.
      is_some-update_one (λ x. text_eq x.id id) (is_current p) (settled_row s p r) s.payments
        (λ x y.
          ap (λ i. text_eq i id) (named x y ∙ sym (named r (select_one-holds _ s.payments h))))
        e;
}
  where
    named : (x : Payment) → is_current p x ≡ true → x.id ≡ p.id
    named x y =
        text_eq→eq x.id p.id (&&-both (text_eq x.id p.id) (x.version == narrow (pos p.version)) y).0

store_applied-Grows :
    (p : Payment) (moved : Bool) (s t : Store) {q : Payment}
    → store_applied (p, moved) s ≡ ok (q, t)
    → Grows s t
unfolding store_applied update
store_applied-Grows p false s t h = subst (Grows s) (ground arith) (Grows-refl s)
store_applied-Grows p true s t h =
    let (u, at, left) = write_payment-settled p s _ refl h in
    subst (Grows s) (sym left) (settled-Grows p u s at)

pub settle_tx-Grows :
    (id : Text) (result : ChargeResult) (s t : Store) {q : Payment}
    → settle_tx id result s ≡ ok (q, t)
    → Grows s t
unfolding settle_tx find_by_id
settle_tx-Grows id result s t {q} h =
    let ((r, s'), finds, rest) =
      >>=-eq-ok (find_by_id id s) (λ (r, t). apply result r >>= λ applied. store_applied applied t)
        h in
    let ((p, moved), a, last) =
      >>=-eq-ok (apply result r) (λ applied. store_applied applied s') rest in
    let (at, same) = found-row id s _ refl finds in
    store_applied-Grows p moved s t (ap (store_applied (p, moved)) (sym same) ∙ last)

-- An attempt that is opened: the row is there, and the key was free.
open_claimed-creates :
    (built : Payment) (hash : Text) (standing : Claim) (taken : Bool) (s t : Store) {r : Payment}
    → open_claimed built hash ((standing, taken), s) ≡ ok (r, t)
    → (taken ≡ true) × (create built s ≡ ok (r, t))
unfolding open_claimed
open_claimed-creates built hash standing false s t h = absurd (ground arith)
open_claimed-creates built hash standing true s t h = (refl, stop_on-ok (create built s) h)

pub open_tx-creates :
    (q : Request) (built : Payment) (s t : Store) {r : Payment}
    → open_tx q built s ≡ ok (r, t)
    → ((claim_key (claim_of q built) s).0.1 ≡ true)
      × (create built (claim_key (claim_of q built) s).1 ≡ ok (r, t))
unfolding open_tx claim_key
open_tx-creates q built s t h =
    let ((standing, taken), u) = claim_key (claim_of q built) s in
    open_claimed-creates built q.hash standing taken u t h

open_tx-Grows :
    (q : Request) (built : Payment) (s t : Store) {r : Payment}
    → open_tx q built s ≡ ok (r, t)
    → Grows s t
open_tx-Grows q built s t h =
    Grows-trans s (claim_key (claim_of q built) s).1 t (claim_key-Grows (claim_of q built) s)
      (create-Grows built _ t (open_tx-creates q built s t h).1)

after-Grows : (step : Step) (s : Store) → Grows s (after step s)
unfolding after settle
after-Grows (opens server minted q order) s = opened-Grows (attempt_of minted q order)
  where
    opened-Grows : (x : Result Sentinel Payment) → Grows s (opened server q x s)
    opened-Grows (err e) = Grows-refl s
    opened-Grows (ok built) =
        run_tx-keeps (Grows s) server (open_tx q built) s (Grows-refl s)
          λ r t h. open_tx-Grows q built s t h
after-Grows (settles server payment_id result) s =
    run_tx-keeps (Grows s) server _ s (Grows-refl s)
      λ r t h. settle_tx-Grows payment_id result s t h

pub run-Grows : (steps : List (ℤ × Step)) (s : Store) → Grows s (run steps s)
unfolding run
run-Grows [] s = Grows-refl s
run-Grows ((now, step) ∷ steps) s =
    let t : Store = record s { clock = now } in
    Grows-trans s (after step t) (run steps (after step t))
      (at_clock-Grows now (after-Grows step t)) (run-Grows steps (after step t))
  where
    at_clock-Grows : (now : ℤ) {u : Store} → Grows (record s { clock = now }) u → Grows s u
    at_clock-Grows now g = record { claims_stay = g.claims_stay; rows_stay = g.rows_stay }
