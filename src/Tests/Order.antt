-- ===== src/Tests/Order.antt =====
-- The theorems of the order service at concrete inputs: an order of two lines, paid and swept.
use system_design_ecommerce.Text.Case.{is_space, trim_space}
use system_design_ecommerce.Order.Saga.Once.{redelivered-unmoved}
use system_design_ecommerce.Uuid.{parse_uuid}
use system_design_ecommerce.Order.Saga.{mark_paid_by_event}
use system_design_ecommerce.Money.{Money}
use system_design_ecommerce.Prelude.{
  if◌then◌else◌, ℕ, ◌≡◌, refl, ◌↔◌, Bool, true, false, Option, none, some, List, [], ◌∷◌,
}
use system_design_ecommerce.Prelude.Int.{ℤ, pos}
use system_design_ecommerce.Errors.{ok}
use system_design_ecommerce.Text.{text_eq, Text}
use system_design_ecommerce.Tx.{run_tx, with_parsed, Server}
use system_design_ecommerce.Order.Domain.{mark_paid, Order, OrderLine, new_order, placed}
use system_design_ecommerce.Order.Domain.Placed.{
  expected_order, new_order_iff, IsOrderable, exact_money,
}
use system_design_ecommerce.Order.Domain.Lifecycle.{
  cancels, pays, history-Outcome, history, Outcome,
}
use system_design_ecommerce.Order.Store.{find_by_id_for_update, claim, update, narrow, Store}
use system_design_ecommerce.Order.Saga.Announced.{expected_of, expected, IsAnnounced}
use system_design_ecommerce.Order.Saga.Runs.{sweeps, delivers, run-IsAnnounced, run, Step}

abbrev pub baht : ℕ → Money
baht n = record { amount_minor = n; currency = b'T' ∷ b'H' ∷ b'B' ∷ [] }

abbrev bought : List OrderLine
bought =
    record { sku = b'A' ∷ b'1' ∷ b'2' ∷ []; quantity = 2; unit_price = baht 1050 }
    ∷ record { sku = b'B' ∷ b'-' ∷ b'7' ∷ []; quantity = 3; unit_price = baht 99 }
    ∷ []

abbrev order_id : Text
order_id = b'o' ∷ []

abbrev waiting : Order
waiting = placed order_id (b'u' ∷ []) (b'r' ∷ []) bought (exact_money bought)

new_order_iff_example : (new_order order_id (b'u' ∷ []) (b'r' ∷ []) bought ≡ ok waiting) ↔ (
    IsOrderable order_id (b'u' ∷ []) (b'r' ∷ []) bought
    × (waiting ≡ expected_order order_id (b'u' ∷ []) (b'r' ∷ []) bought (exact_money bought)))
new_order_iff_example = new_order_iff order_id (b'u' ∷ []) (b'r' ∷ []) bought waiting

history-Outcome_example : Outcome waiting (history (pays ∷ cancels ∷ pays ∷ []) waiting)
history-Outcome_example = history-Outcome (pays ∷ cancels ∷ pays ∷ []) waiting refl

abbrev pub stored_order : Order
stored_order = record waiting { events = [] }

abbrev pub tables : Store
tables = record {
  orders = stored_order ∷ [];
  outbox = [];
  processed = [];
  claims = [];
  clock = pos 0;
}

announced_nothing : (k : Text) (b : Bool) → [] ≡ expected_of (if b then some stored_order else none)
unfolding expected
announced_nothing k true = refl
announced_nothing k false = refl

tables-IsAnnounced : IsAnnounced tables
tables-IsAnnounced = record {
  announced = λ k. announced_nothing k (text_eq order_id k);
  unique_ids = (tt, tt);
}

abbrev pub by_sku : List OrderLine → List OrderLine
by_sku ls = ls

abbrev any_uuid : Text → Option Text
any_uuid t = some order_id

-- an identifier of 36 characters
abbrev pub uuid : Text
uuid =
    b'7' ∷ b'7' ∷ b'7' ∷ b'7' ∷ b'7' ∷ b'7' ∷ b'7' ∷ b'7' ∷ b'7' ∷ b'7' ∷ b'7' ∷ b'7' ∷ b'7' ∷ b'7'
    ∷ b'7' ∷ b'7' ∷ b'7' ∷ b'7' ∷ b'7' ∷ b'7' ∷ b'7' ∷ b'7' ∷ b'7' ∷ b'7' ∷ b'7' ∷ b'7' ∷ b'7'
    ∷ b'7' ∷ b'7' ∷ b'7' ∷ b'7' ∷ b'7' ∷ b'7' ∷ b'7' ∷ b'7' ∷ b'7' ∷ []

abbrev steps : List (ℤ × Step)
steps =
    (pos 5, delivers Server.commits (b'e' ∷ []) uuid)
    ∷ (pos 6, delivers Server.commits (b'e' ∷ []) uuid)
    ∷ (pos 7, sweeps Server.commits (λ t. false) (pos 9000) (pos 900) (pos 10))
    ∷ []

run-IsAnnounced_example : IsAnnounced (run by_sku any_uuid steps tables)
run-IsAnnounced_example = run-IsAnnounced by_sku any_uuid steps tables tables-IsAnnounced

first_delivery :
    (mark_paid_by_event by_sku any_uuid Server.commits (b'e' ∷ []) uuid tables).0 ≡ ok tt
unfolding mark_paid_by_event with_parsed parse_uuid trim_space is_space run_tx claim
    find_by_id_for_update mark_paid update narrow
first_delivery = refl

redelivered-unmoved_example :
    mark_paid_by_event by_sku any_uuid Server.commits (b'e' ∷ []) uuid (
      run by_sku any_uuid steps
        (mark_paid_by_event by_sku any_uuid Server.commits (b'e' ∷ []) uuid tables).1)
    ≡ (
      ok tt,
      run by_sku any_uuid steps
          (mark_paid_by_event by_sku any_uuid Server.commits (b'e' ∷ []) uuid tables).1,
    )
redelivered-unmoved_example =
    redelivered-unmoved by_sku any_uuid Server.commits (b'e' ∷ []) uuid steps tables first_delivery
