-- ===== src/Order/Store.antt =====
-- The tables of the order service, and the repositories on them:
-- services/order/internal/adapter/out/postgres and pkg/inbox. A row of orders stands together with
-- its rows of order_lines, and has raised no event. `outbox` holds the payloads of the records that
-- writeEvents appends, in order. `clock` is now(), the start of the running transaction, and
-- `order_by_sku` is PostgreSQL's ORDER BY sku.
use system_design_ecommerce.Prelude.{
  ℕ, ◌+◌, Bool, true, false, ◌&&◌, ◌||◌, not, Option, none, some, List, [], ◌∷◌, ◌++◌, map, take,
  leb, ◌==◌, if◌then◌else◌,
}
use system_design_ecommerce.Prelude.Int.{ℤ, pos, pos_part, ltb_ℤ, leb_ℤ}
use system_design_ecommerce.Errors.{sentinel, fault, internal, conflict, Result, ok, err}
use system_design_ecommerce.Text.{Text, text_eq, is_empty}
use system_design_ecommerce.Tx
use system_design_ecommerce.Idempotency.{Claim}
use system_design_ecommerce.Table.{select_one, update_one, select_all, sort_by}
use system_design_ecommerce.Order.Domain.{
  Sentinel, Order, OrderLine, Event, Status, pending_payment, order_not_found,
}

abbrev pub int32_max : ℕ
int32_max = 2147483647

pub record Store : Type 0 where
  pub orders : List Order
  pub outbox : List Event
  pub processed : List (Text × Text)
  pub claims : List Claim
  pub clock : ℤ

abbrev pub Action : Type 0 → Type 0
Action A = Tx.Action Store Sentinel A

-- narrow: an int as an int32, clamped
unfoldable pub narrow : ℤ → ℕ
narrow n = if ltb_ℤ n (pos 0) then 0 else if ltb_ℤ (pos int32_max) n then int32_max else pos_part n

-- a row of processed_events
abbrev pub is_processed : Text → Text → List (Text × Text) → Bool
is_processed group event_id [] = false
is_processed group event_id ((g, e) ∷ t) =
    (text_eq g group && text_eq e event_id) || is_processed group event_id t

-- Claim: INSERT INTO processed_events ... ON CONFLICT DO NOTHING, and whether it inserted
unfoldable pub claim : Text → Text → Action Bool
claim group event_id s =
    if is_empty group || is_empty event_id
    then err (fault internal "")
    else if is_processed group event_id s.processed
    then ok (false, s)
    else ok (true, record s { processed = (group, event_id) ∷ s.processed })

-- UpdateOrderStatus, by the row that its WHERE found, and writeEvents
unfoldable pub write_order : Order → Store → Option Order → Result Sentinel (Order × Store)
write_order o s none = err (fault conflict "ORDER_MODIFIED")
write_order o s (some r) =
    let row : Order = record r {
      status = o.status;
      updated_at = s.clock;
      version = r.version + 1;
    } in
    if leb row.version int32_max
    then ok (
      row,
      record s {
        orders =
            update_one (λ x. text_eq x.id o.id && x.version == narrow (pos o.version)) (λ _. row)
              s.orders;
        outbox = s.outbox ++ o.events;
      },
    )
    else err (fault internal "")

-- is pending_payment: the status that ClaimStaleOrders asks for
abbrev pub is_pending : Status → Bool
is_pending pending_payment = true
is_pending _ = false

-- ORDER BY created_at
abbrev pub placed_first : Order → Order → Bool
placed_first o x = leb_ℤ o.created_at x.created_at

-- the rows of ClaimStaleOrders
unfoldable pub stale_rows : (Text → Bool) → ℤ → ℕ → Store → List Order
stale_rows locked created_before limit s = take limit (
    sort_by placed_first (
      select_all
        (λ r. (is_pending r.status && leb_ℤ r.created_at created_before) && not (locked r.id))
        s.orders))

module _ (order_by_sku : List OrderLine → List OrderLine) where
  -- toDomain, with the lines that GetOrderLines lists
  abbrev pub to_domain : Order → Order
  to_domain r = record r { lines = order_by_sku r.lines; events = [] }

  -- pgx.ErrNoRows as the service's not-found, or the row with its lines
  unfoldable pub found : Option Order → Action Order
  found none s = err (sentinel order_not_found)
  found (some r) s = ok (to_domain r, s)

  -- FindByIDForUpdate (and FindByID, which locks nothing)
  unfoldable pub find_by_id_for_update : Text → Action Order
  unfolding found
  find_by_id_for_update id s = found (select_one (λ r. text_eq r.id id) s.orders) s

  -- what Update answers
  unfoldable pub updated : Result Sentinel (Order × Store) → Result Sentinel (Order × Store)
  updated (ok (row, s)) = ok (to_domain row, s)
  updated (err e) = err e

  -- Update
  unfoldable pub update : Order → Action Order
  unfolding updated write_order
  update o s = updated (
      write_order o s
        (select_one (λ r. text_eq r.id o.id && r.version == narrow (pos o.version)) s.orders))

  -- ClaimStaleOrders. `locked` are the rows that another transaction has locked, which SKIP LOCKED
  -- steps over.
  unfoldable pub claim_stale_orders : (Text → Bool) → ℤ → ℤ → Action (List Order)
  claim_stale_orders locked created_before limit s =
      ok (map to_domain (stale_rows locked created_before (narrow limit) s), s)
