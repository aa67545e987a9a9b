-- ===== src/Payment/Runs.antt =====
-- Any interleaving of the transactions of payment_service.go, and InitiatePayment as a whole.
use system_design_ecommerce.Prelude.{◌≤◌, ◌≡◌, refl, ap, Bool, true, false, List, [], ◌∷◌, arith}
use system_design_ecommerce.Prelude.Int.{ℤ}
use system_design_ecommerce.Errors.{Result, ok, err}
use system_design_ecommerce.Text.{Text}
use system_design_ecommerce.Tx.{Server, run_tx, run_tx-keeps}
use system_design_ecommerce.Idempotency.{Claim}
use system_design_ecommerce.Table.Laws.{total}
use system_design_ecommerce.Payment.Domain.{Sentinel, Payment, ChargeResult, new_payment}
use system_design_ecommerce.Payment.Store.{Store, create, claim_key}
use system_design_ecommerce.Payment.Settle.{settle}
use system_design_ecommerce.Payment.Initiate.{
  Request, PayableOrder, stop_on, open_claimed, open_tx, attempt_of,
}
use system_design_ecommerce.Payment.Paid.{
  IsCharged, IsNew, create-IsCharged, settle_tx-IsCharged, success_of, won-le-open,
}

-- One transaction: an attempt is opened under a key, or settled with an answer of the provider.
pub data Step : Type 0 where
  opens : Server → Text → Request → PayableOrder → Step
  settles : Server → Text → ChargeResult → Step

-- the rows that are stored after the first transaction of InitiatePayment
unfoldable pub opened : Server → Request → Result Sentinel Payment → Store → Store
opened server q (err e) s = s
opened server q (ok built) s = (run_tx server (open_tx q built) s).1

-- the rows that are stored after the transaction
unfoldable pub after : Step → Store → Store
unfolding opened
after (opens server minted q order) s = opened server q (attempt_of minted q order) s
after (settles server payment_id result) s = (settle server payment_id result s).1

-- Transactions one after another, each at a time of the database's clock.
unfoldable pub run : List (ℤ × Step) → Store → Store
unfolding after
run [] s = s
run ((now, step) ∷ steps) s = run steps (after step (record s { clock = now }))

attempt_of-IsNew :
    (minted : Text) (q : Request) (order : PayableOrder) {built : Payment}
    → attempt_of minted q order ≡ ok built
    → IsNew built
unfolding attempt_of new_payment
attempt_of-IsNew minted q order h = ground arith

same_rows :
    (claims : List Claim) (s : Store) → IsCharged s → IsCharged (record s { claims = claims })
same_rows claims s c = record {
  once = c.once;
  told = c.told;
  unique_ids = c.unique_ids;
  quiet = c.quiet;
}

pub stop_on-ok :
    (x : Result Sentinel (Payment × Store)) {y : Payment × Store} → stop_on x ≡ ok y → x ≡ ok y
stop_on-ok (ok y) h = ap ok (ground arith)
stop_on-ok (err e) h = cc

open_claimed-IsCharged :
    (built : Payment) (hash : Text) (standing : Claim) (taken : Bool) (s s' : Store) {r : Payment}
    → IsNew built
    → IsCharged s
    → open_claimed built hash ((standing, taken), s) ≡ ok (r, s')
    → IsCharged s'
unfolding open_claimed
open_claimed-IsCharged built hash standing false s s' n c h = absurd (ground arith)
open_claimed-IsCharged built hash standing true s s' {r} n c h =
    create-IsCharged built r s s' n c (stop_on-ok (create built s) h)

-- the claim that an attempt would take
abbrev pub claim_of : Request → Payment → Claim
claim_of q built = record {
  user_id = q.user_id;
  key = q.key;
  request_hash = q.hash;
  answer = built.id;
}

open_tx-IsCharged :
    (q : Request) (built : Payment) (s s' : Store) {r : Payment}
    → IsNew built
    → IsCharged s
    → open_tx q built s ≡ ok (r, s')
    → IsCharged s'
unfolding open_tx claim_key
open_tx-IsCharged q built s s' n c h =
    let ((standing, taken), t) = claim_key (claim_of q built) s in
    open_claimed-IsCharged built q.hash standing taken t s' n (same_rows t.claims s c) h

opened-IsCharged :
    (server : Server) (q : Request) (x : Result Sentinel Payment) (s : Store)
    → ((built : Payment) → x ≡ ok built → IsNew built)
    → IsCharged s
    → IsCharged (opened server q x s)
unfolding opened
opened-IsCharged server q (err e) s new c = c
opened-IsCharged server q (ok built) s new c =
    run_tx-keeps IsCharged server (open_tx q built) s c
      λ r t h. open_tx-IsCharged q built s t (new built refl) c h

settle-IsCharged :
    (server : Server) (payment_id : Text) (result : ChargeResult) (s : Store)
    → IsCharged s
    → IsCharged (settle server payment_id result s).1
unfolding settle
settle-IsCharged server payment_id result s c =
    run_tx-keeps IsCharged server _ s c λ r t h. settle_tx-IsCharged payment_id result s t c h

at_clock : (now : ℤ) (s : Store) → IsCharged s → IsCharged (record s { clock = now })
at_clock now s c = record {
  once = c.once;
  told = c.told;
  unique_ids = c.unique_ids;
  quiet = c.quiet;
}

after-IsCharged : (step : Step) (s : Store) → IsCharged s → IsCharged (after step s)
unfolding after
after-IsCharged (opens server minted q order) s c =
    opened-IsCharged server q (attempt_of minted q order) s
      (λ built h. attempt_of-IsNew minted q order h) c
after-IsCharged (settles server payment_id result) s c =
    settle-IsCharged server payment_id result s c

run-keeps : (steps : List (ℤ × Step)) (s : Store) → IsCharged s → IsCharged (run steps s)
unfolding run
run-keeps [] s c = c
run-keeps ((now, step) ∷ steps) s c =
    run-keeps steps (after step (record s { clock = now }))
      (after-IsCharged step (record s { clock = now }) (at_clock now s c))

-- From rows and an outbox that agree, any transactions that open attempts and settle them, in any
-- interleaving and however they end, lead to rows and an outbox that agree, and of every order at
-- most one success is announced.
pub run-IsCharged :
    (steps : List (ℤ × Step)) (s : Store)
    → IsCharged s
    → IsCharged (run steps s) × ((k : Text) → total (success_of k) (run steps s).outbox ≤ 1)
run-IsCharged steps s c =
    let kept = run-keeps steps s c in
    (kept, λ k. omega (arith, kept.told k, kept.once k, won-le-open k (run steps s).payments))
