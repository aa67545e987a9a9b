-- ===== src/Payment/Store.antt =====
-- The tables of the payment service and the repository on them: services/payment/internal/adapter/
-- out/postgres. A row of payments has raised no event. `outbox` holds the payloads of the records
-- that writeEvents appends, in order. `clock` is now(), the start of the running transaction.
use system_design_ecommerce.Prelude.{
  ℕ, ◌+◌, Bool, true, false, ◌&&◌, ◌||◌, not, Option, none, some, List, [], ◌∷◌, ◌++◌, all, length,
  leb, ltb, ◌==◌, if◌then◌else◌,
}
use system_design_ecommerce.Prelude.Int.{ℤ, pos, pos_part, ltb_ℤ}
use system_design_ecommerce.Errors.{sentinel, fault, internal, conflict, Result, ok, err}
use system_design_ecommerce.Text.{Text, text_eq, is_empty}
use system_design_ecommerce.Money.{is_upper}
use system_design_ecommerce.Idempotency.{Claim, take_claim}
use system_design_ecommerce.Tx
use system_design_ecommerce.Table.{select_one, update_one, select_all, sort_by}
use system_design_ecommerce.Payment.Domain.{
  Sentinel, Payment, Status, failed, Event, payment_not_found, are_method_runes,
}

abbrev pub int32_max : ℕ
int32_max = 2147483647

pub record Store : Type 0 where
  pub payments : List Payment
  pub claims : List Claim
  pub outbox : List Event
  pub clock : ℤ

abbrev pub Action : Type 0 → Type 0
Action A = Tx.Action Store Sentinel A

-- narrow: an int as an int32, clamped
unfoldable pub narrow : ℤ → ℕ
narrow n = if ltb_ℤ n (pos 0) then 0 else if ltb_ℤ (pos int32_max) n then int32_max else pos_part n

abbrev pub is_failed : Status → Bool
is_failed failed = true
is_failed _ = false

-- the rows of payments_one_unresolved_per_order_idx: WHERE status <> 'failed'
abbrev pub is_unresolved : Payment → Bool
is_unresolved p = not (is_failed p.status)

abbrev pub is_some {ℓ} : {A : Type ℓ} → Option A → Bool
is_some none = false
is_some (some a) = true

-- CHECK (amount_minor > 0), CHECK (amount_currency ~ ...) and CHECK (method = '' OR method ~ ...)
unfoldable pub row_fits : Payment → Bool
row_fits p =
    ltb 0 p.amount.amount_minor
    && (length p.amount.currency == 3
        && (all is_upper p.amount.currency && (is_empty p.method || are_method_runes 0 p.method)))

-- CreatePayment and writeEvents
unfoldable pub create : Payment → Action Payment
create p s =
    if is_some (select_one (λ r. text_eq r.id p.id) s.payments)
    then err (fault internal "")
    else if is_some (select_one (λ r. is_unresolved r && text_eq r.order_id p.order_id) s.payments)
    then err (fault conflict "PAYMENT_ALREADY_IN_FLIGHT")
    else if not (row_fits p)
    then err (fault internal "")
    else let row : Payment = record p {
      provider_reference = [];
      failure_reason = [];
      created_at = s.clock;
      updated_at = s.clock;
      version = 1;
      events = [];
    } in
      ok (row, record s { payments = s.payments ++ row ∷ []; outbox = s.outbox ++ p.events })

-- the row that SettlePayment looks for
abbrev pub is_current : Payment → Payment → Bool
is_current p r = text_eq r.id p.id && r.version == narrow (pos p.version)

-- the row that SettlePayment leaves, of the row that its WHERE found
abbrev pub settled_row : Store → Payment → Payment → Payment
settled_row s p r = record r {
  status = p.status;
  provider_reference = p.provider_reference;
  failure_reason = p.failure_reason;
  updated_at = s.clock;
  version = r.version + 1;
}

-- SettlePayment, by the row that its WHERE found, and writeEvents. A row becomes unresolved again
-- only where no other of its order is: the partial unique index.
unfoldable pub write_payment : Payment → Store → Option Payment → Result Sentinel (Payment × Store)
write_payment p s none = err (fault conflict "PAYMENT_MODIFIED")
write_payment p s (some r) =
    let row : Payment = settled_row s p r in
    if not (leb row.version int32_max)
    then err (fault internal "")
    else if (is_failed r.status && is_unresolved row)
        && is_some (select_one (λ x. is_unresolved x && text_eq x.order_id r.order_id) s.payments)
    then err (fault internal "")
    else ok (
      row,
      record s {
        payments = update_one (is_current p) (λ _. row) s.payments;
        outbox = s.outbox ++ p.events;
      },
    )

-- Update
unfoldable pub update : Payment → Action Payment
unfolding write_payment
update p s = write_payment p s (select_one (is_current p) s.payments)

-- pgx.ErrNoRows as the service's not-found
unfoldable pub found : Option Payment → Action Payment
found none s = err (sentinel payment_not_found)
found (some r) s = ok (r, s)

-- FindByIDForUpdate, and FindByID, which locks nothing
unfoldable pub find_by_id : Text → Action Payment
unfolding found
find_by_id id s = found (select_one (λ r. text_eq r.id id) s.payments) s

abbrev any_eq : Text → List Text → Bool
any_eq k [] = false
any_eq k (j ∷ js) = text_eq j k || any_eq k js

-- FindByOrderIDs: WHERE order_id = ANY($1) ORDER BY order_id, created_at DESC; `first` is that order
unfoldable pub find_by_order_ids : (Payment → Payment → Bool) → List Text → Action (List Payment)
find_by_order_ids first order_ids s =
    ok (sort_by first (select_all (λ r. any_eq r.order_id order_ids) s.payments), s)

-- Claim of the idempotency store
unfoldable pub claim_key : Claim → Store → (Claim × Bool) × Store
claim_key c s =
    let (standing, taken, claims) = take_claim c s.claims in
    ((standing, taken), record s { claims = claims })
