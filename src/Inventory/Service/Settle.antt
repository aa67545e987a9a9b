-- ===== src/Inventory/Service/Settle.antt =====
-- The transaction of settle (inventory_service.go), for commits and releases, on the counts and the
-- holds.
use system_design_ecommerce.Inventory.Service.Ending.{EndsHold, change-Ending, ended-Keeps}
use mathlib.Core.List.{Perm}
use system_design_ecommerce.Prelude.{
  if◌then◌else◌, ◌≡◌, refl, subst, Bool, true, false, List, arith, Option, none, some,
}
use system_design_ecommerce.Errors.{Result, ok, >>=-eq-ok, ◌>>=◌}
use system_design_ecommerce.Text.{Text, text_eq}
use system_design_ecommerce.Table.{select_one}
use system_design_ecommerce.Inventory.Domain.{Sentinel, Line, Reservation, Transition}
use system_design_ecommerce.Inventory.Store.{Store}
use system_design_ecommerce.Inventory.Store.Stock.{Movement}
use system_design_ecommerce.Inventory.Store.Holds.{nothing-Keeps, Keeps, IsConsistent}
use system_design_ecommerce.Inventory.Repository.{with_lines, found, find_by_id, update}
use system_design_ecommerce.Inventory.Service.{not, settle_tx, move_lines}
use system_design_ecommerce.Inventory.Service.Movements.{move}

module _ (order_by_sku : List Line → List Line)
    (permutes : (ls : List Line) → Perm (order_by_sku ls) ls) where
  found-ok :
      (o : Option Reservation) (s s' : Store) {r : Reservation}
      → found order_by_sku o s ≡ ok (r, s')
      → (row : Reservation) × (o ≡ some row) × (r ≡ with_lines order_by_sku row) × (s' ≡ s)
  unfolding found
  found-ok none s s' h = cc
  found-ok (some row) s s' h = (row, refl, ground arith, ground arith)

  module _ (m : Movement) (change : Reservation → Transition) (ends : EndsHold m change) where
    -- the rest of settle, once the aggregate has answered
    answered : Reservation → Bool → Store → Result Sentinel (Reservation × Store)
    answered moved did s =
        if not did
        then ok (moved, s)
        else (move_lines (move m) moved.lines s >>= λ (_, t). update order_by_sku moved t)

    answered-Keeps :
        (condition : Reservation → Bool) (row moved r : Reservation) (did : Bool) (s s' : Store)
        → IsConsistent s
        → select_one condition s.reservations ≡ some row
        → change (with_lines order_by_sku row) ≡ ok (moved, did)
        → answered moved did s ≡ ok (r, s')
        → Keeps s s'
    unfolding answered
    answered-Keeps condition row moved r false s s' c read e h =
        subst (Keeps s) (ground arith) (nothing-Keeps c)
    answered-Keeps condition row moved r true s s' c read e h =
        let ((_, t), moves, writes) =
          >>=-eq-ok (move_lines (move m) moved.lines s) (λ (_, t). update order_by_sku moved t) h in
        ended-Keeps order_by_sku permutes m row moved r s t s' c
          (change-Ending order_by_sku permutes m change condition row moved s ends read e) moves
          writes

    -- settle with a method that ends holds, and with a movement that takes from what is reserved,
    -- leaves consistent rows.
    pub settle_tx-Keeps :
        (id : Text) (s s' : Store) {r : Reservation}
        → IsConsistent s
        → settle_tx order_by_sku change (move m) id s ≡ ok (r, s')
        → Keeps s s'
    unfolding settle_tx find_by_id answered
    settle_tx-Keeps id s s' {r} c h =
        let ((reservation, t), e, rest) =
          >>=-eq-ok (find_by_id order_by_sku id s)
            (λ (reservation, t). change reservation >>= λ (moved, did). answered moved did t) h in
        let (row, read, lined, same) =
          found-ok (select_one (λ x. text_eq x.id id) s.reservations) s t e in
        let ((moved, did), e', rest') =
          >>=-eq-ok (change reservation) (λ (moved, did). answered moved did t) rest in
        answered-Keeps (λ x. text_eq x.id id) row moved r did s s' c read
          (subst (λ x. change x ≡ ok (moved, did)) lined e')
          (subst (λ x. answered moved did x ≡ ok (r, s')) same rest')
