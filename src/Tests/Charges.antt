-- ===== src/Tests/Charges.antt =====
-- The theorems of the payment service's calls at concrete inputs: an attempt that is collected, asked
-- for again under its key, and called back.
use system_design_ecommerce.Payment.Domain.{new_payment}
use system_design_ecommerce.Tx.{run_tx}
use system_design_ecommerce.Payment.Store.{claim_key, row_fits, create}
use system_design_ecommerce.Idempotency.{take_claim}
use system_design_ecommerce.Table.{sort_by}
use system_design_ecommerce.Text.Case.{is_space, trim_space}
use system_design_ecommerce.Tx.{commits}
use system_design_ecommerce.Table.Laws.{total}
use system_design_ecommerce.Uuid.{parse_uuid}
use system_design_ecommerce.Idempotency.{find_claim}
use system_design_ecommerce.Table.{select_one}
use system_design_ecommerce.Payment.Owned.{
  get_payment-owned, get_payments_by_order_ids-owned, ReadsAs,
}
use system_design_ecommerce.Payment.Reads.{get_payment, get_payments_by_order_ids}
use system_design_ecommerce.Payment.Paid.{success_of, IsCharged}
use system_design_ecommerce.Prelude.Int.{pos, ℤ}
use system_design_ecommerce.Text.{text_eq, Text}
use system_design_ecommerce.Prelude.{
  All, length, ℕ, ◌<◌, ◌≤◌, arith, suc, zero, ◌≡◌, refl, true, [], ◌∷◌, List, Option, some, none,
}
use system_design_ecommerce.Errors.{Result, ok, err}
use system_design_ecommerce.Payment.Domain.{Sentinel, Payment, ChargeResult}
use system_design_ecommerce.Payment.Store.{find_by_order_ids, Store, find_by_id, create}
use system_design_ecommerce.Payment.Initiate.{
  key_reused, with_next_action, answers, initiate, Request, PayableOrder, ChargeCommand,
}
use system_design_ecommerce.Payment.Runs.{Step, run, run-IsCharged, opens, settles}
use system_design_ecommerce.Payment.Replays.{call, Around, initiate-once, initiate-refuses}
use system_design_ecommerce.Tests.Payment.{accepted, attempt_made}

abbrev no_rows : Store
no_rows = record { payments = []; claims = []; outbox = []; clock = pos 0 }

no_rows-IsCharged : IsCharged no_rows
no_rows-IsCharged = record {
  once = λ k. omega arith;
  told = λ k. refl;
  unique_ids = tt;
  quiet = tt;
}

abbrev asked : Request
asked = record {
  user_id = b'u' ∷ [];
  order_id = b'o' ∷ [];
  method = [];
  key = b'k' ∷ [];
  hash = b'h' ∷ [];
}

abbrev payable : PayableOrder
payable = record { total = attempt_made.amount; payable = true }

abbrev steps : List (ℤ × Step)
steps =
    (pos 1, opens commits (b'p' ∷ []) asked payable)
    ∷ (pos 2, opens commits (b'q' ∷ []) (record asked { key = b'l' ∷ [] }) payable)
    ∷ (pos 3, settles commits (b'p' ∷ []) accepted)
    ∷ (pos 4, settles commits (b'p' ∷ []) accepted)
    ∷ []

run-IsCharged_example :
    IsCharged (run steps no_rows)
    × ((k : Text) → total (success_of k) (run steps no_rows).outbox ≤ 1)
run-IsCharged_example = run-IsCharged steps no_rows no_rows-IsCharged

abbrev accepting : ChargeCommand → Result Sentinel (ChargeResult × Text)
accepting cmd = ok (accepted, [])

abbrev ordering : Text → Result Sentinel PayableOrder
ordering id = ok payable

abbrev first : Around
first = record {
  retrieve = λ reference. none;
  charge = accepting;
  get_order = ordering;
  open_server = commits;
  settle_server = commits;
  others = [];
  minted = b'p' ∷ [];
}

abbrev second : Around
second = record first { minted = b'q' ∷ [] }

abbrev charged : ChargeCommand
charged = record {
  payment_id = b'p' ∷ [];
  order_id = b'o' ∷ [];
  amount = attempt_made.amount;
  method = [];
}

first_charges : (call first (ok asked) no_rows).charges ≡ charged ∷ []
unfolding run initiate find_claim new_payment run_tx claim_key take_claim create row_fits
first_charges = refl

initiate-once_example :
    (p : Payment) × (p.id ≡ b'p' ∷ [])
    × (call second (ok asked) (run steps (call first (ok asked) no_rows).stored)
        ≡ answers
            (ok (with_next_action second.retrieve p))
            (run steps (call first (ok asked) no_rows).stored))
initiate-once_example = initiate-once first second asked no_rows steps charged [] first_charges

initiate-refuses_example :
    call second
      (ok (record asked { hash = b'x' ∷ [] }))
      (run steps (call first (ok asked) no_rows).stored)
    ≡ answers (err key_reused) (run steps (call first (ok asked) no_rows).stored)
initiate-refuses_example =
    initiate-refuses first second asked (record asked { hash = b'x' ∷ [] }) no_rows steps charged []
      first_charges refl refl refl

abbrev to_self : Text → Option Text
to_self t = some t

-- an identifier of 36 characters
abbrev uuid : Text
uuid = spaces 36
  where
    spaces : ℕ → Text
    spaces zero = []
    spaces (suc n) = b'u' ∷ spaces n

abbrev mine_row : Payment
mine_row = record attempt_made { id = uuid; user_id = uuid; order_id = uuid }

abbrev long_rows : Store
long_rows = record no_rows { payments = mine_row ∷ [] }

own : get_payment to_self uuid uuid long_rows ≡ ok (mine_row)
unfolding get_payment parse_uuid trim_space is_space find_by_id
own = refl

get_payment-owned_example :
    (user : Text) × (id : Text) × ReadsAs to_self "user_id" uuid user
    × ReadsAs to_self "id" uuid id
    × (select_one (λ (r : Payment). text_eq r.id id) long_rows.payments ≡ some (mine_row))
    × (uuid ≡ user)
get_payment-owned_example = get_payment-owned to_self uuid uuid long_rows (mine_row) own

own_of_orders :
    get_payments_by_order_ids to_self (λ x y. true) uuid (uuid ∷ []) long_rows ≡ ok (mine_row ∷ [])
unfolding get_payments_by_order_ids parse_uuid trim_space is_space find_by_order_ids sort_by
own_of_orders = refl

get_payments_by_order_ids-owned_example :
    (user : Text) × ReadsAs to_self "user_id" uuid user
    × (0 < length (uuid ∷ []))
    × (length (uuid ∷ []) ≤ 100)
    × All (λ (p : Payment). p.user_id ≡ user) (mine_row ∷ [])
get_payments_by_order_ids-owned_example =
    get_payments_by_order_ids-owned to_self (λ x y. true) uuid (uuid ∷ []) long_rows (mine_row ∷ [])
      own_of_orders
