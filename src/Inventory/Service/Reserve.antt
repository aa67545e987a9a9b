-- ===== src/Inventory/Service/Reserve.antt =====
-- The transaction of ReserveStock (inventory_service.go), on the counts and the holds.
use system_design_ecommerce.Table.Laws.{UniqueKeys}
use system_design_ecommerce.Inventory.Domain.Lines.Canonical.{quantity_of}
use system_design_ecommerce.Prelude.{
  Option, some, none, ◌≡◌, refl, sym, ◌∙◌, ap, subst, List, All, arith,
}
use system_design_ecommerce.Errors.{Result, ok, err, >>=-eq-ok, ◌>>=◌}
use system_design_ecommerce.Inventory.Domain.{StockItem, Sentinel, Line, Reservation, held}
use system_design_ecommerce.Inventory.Store.{
  Insert, insert_error, held_order_taken, Store, insert_reservation, inserted,
}
use system_design_ecommerce.Inventory.Store.Stock.{available_of, reserved_of, reserves}
use system_design_ecommerce.Inventory.Store.Holds.{
  sold_of, sales, nothing-Keeps, Keeps, IsRow, held_of, holds, IsConsistent,
  insert_reservation-Inserted,
}
use system_design_ecommerce.Inventory.Repository.{
  created, found, create, find_held_by_order_id, reserve,
}
use system_design_ecommerce.Inventory.Service.{Sku, hold_or_take, reserve_tx, move_lines}
use system_design_ecommerce.Inventory.Service.Movements.{move_lines-Moved}

created-Inserted :
    (a : Insert) (s' : Store) {r : Reservation} → created a ≡ ok (r, s') → a ≡ inserted r s'
unfolding created
created-Inserted held_order_taken s' h = cc
created-Inserted insert_error s' h = cc
created-Inserted (inserted row t) s' h = ground arith

-- Reserving every line of a new hold and writing it: consistent rows.
pub taken-Keeps :
    (candidate r : Reservation) (s t s' : Store) {u : Unit {0}}
    → IsConsistent s
    → candidate.status ≡ held
    → move_lines reserve candidate.lines s ≡ ok (u, t)
    → create candidate t ≡ ok (r, s')
    → Keeps s s'
unfolding create
taken-Keeps candidate r s t s' c fresh moves writes =
    let mv = move_lines-Moved reserves candidate.lines s t moves in
    let w =
      insert_reservation-Inserted candidate t s'
        (created-Inserted (insert_reservation candidate t) s' writes) in
    let stock : (k : Sku) → reserved_of k s'.stock ≡ reserved_of k t.stock =
      λ k. ap (reserved_of k) w.same_stock in
    record {
      consistent = record {
        accounted = λ k.
            let taken : holds k r ≡ quantity_of k candidate.lines = rw w.written (rw fresh) in
            let kept : held_of k t.reservations ≡ held_of k s.reservations =
              ap (held_of k) mv.same_holds in
            omega (arith, mv.reserved k, c.accounted k, w.held_after k, taken, kept, stock k);
        unique_skus =
            subst (UniqueKeys (λ (x : StockItem). x.sku)) (sym w.same_stock)
              (mv.unique c.unique_skus);
        unique_ids =
            w.unique_after
              (subst (UniqueKeys (λ (x : Reservation). x.id)) (sym mv.same_holds) c.unique_ids);
        rows = w.rows_after (subst (All IsRow) (sym mv.same_holds) c.rows);
      };
      conserved = λ k.
          let unsold : sales k r ≡ 0 = rw w.written (rw fresh) in
          let kept : sold_of k t.reservations ≡ sold_of k s.reservations =
            ap (sold_of k) mv.same_holds in
          let shelf : available_of k s'.stock ≡ available_of k t.stock =
            ap (available_of k) w.same_stock in
          omega
            (arith, mv.reserved k, mv.available k, w.sold_after k, unsold, kept, stock k, shelf);
    }

module _ (order_by_sku : List Line → List Line) where
  hold_or_take-Keeps :
      (candidate r : Reservation) (s s' : Store) (answer : Result Sentinel (Reservation × Store))
      → ((e : Reservation) (t : Store) → answer ≡ ok (e, t) → t ≡ s)
      → IsConsistent s
      → candidate.status ≡ held
      → hold_or_take order_by_sku candidate s answer ≡ ok (r, s')
      → Keeps s s'
  unfolding hold_or_take
  hold_or_take-Keeps candidate r s s' (ok (e, t)) reads c fresh h =
      subst (Keeps s) (sym (reads e t refl) ∙ ground arith) (nothing-Keeps c)
  hold_or_take-Keeps candidate r s s' (err e) reads c fresh h =
      let missing : move_lines reserve candidate.lines s >>= (λ (_, t). create candidate t)
          ≡ ok (r, s') =
        ground arith in
      let ((_, t), moves, writes) =
        >>=-eq-ok (move_lines reserve candidate.lines s) (λ (_, t). create candidate t) missing in
      taken-Keeps candidate r s t s' c fresh moves writes

  found-same :
      (o : Option Reservation) (s : Store) (e : Reservation) (t : Store)
      → found order_by_sku o s ≡ ok (e, t)
      → t ≡ s
  unfolding found
  found-same none s e t h = cc
  found-same (some row) s e t h = ground arith

  -- A transaction of ReserveStock that goes through leaves consistent rows.
  pub reserve_tx-Keeps :
      (candidate r : Reservation) (s s' : Store)
      → IsConsistent s
      → candidate.status ≡ held
      → reserve_tx order_by_sku candidate s ≡ ok (r, s')
      → Keeps s s'
  unfolding reserve_tx find_held_by_order_id
  reserve_tx-Keeps candidate r s s' c fresh h =
      hold_or_take-Keeps candidate r s s' _ (found-same _ s) c fresh h
