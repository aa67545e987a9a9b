-- ===== src/Inventory/Service/Ending.antt =====
-- What ends a hold: the movement of its lines and the write of its row (the end of settle and of the
-- loop of ExpireReservations).
use system_design_ecommerce.Table.Laws.{same_row, UniqueKeys}
use mathlib.Core.List.{Perm}
use system_design_ecommerce.Prelude.{
  if◌then◌else◌, All, ◌==◌, ◌&&◌, ℕ, ◌+◌, ◌≡◌, sym, ◌∙◌, ap, subst, Bool, true, false, List, arith,
  some,
}
use system_design_ecommerce.Prelude.Int.{ℤ}
use system_design_ecommerce.Errors.{ok}
use system_design_ecommerce.Text.{Text, text_eq}
use system_design_ecommerce.Sku.{Sku}
use system_design_ecommerce.Table.{select_one}
use system_design_ecommerce.Inventory.Domain.{
  Status, StockItem, Line, Reservation, Transition, is_held, commit, release,
}
use system_design_ecommerce.Inventory.Domain.Lines.Canonical.{quantity_of}
use system_design_ecommerce.Inventory.Store.{
  update_reservation_status, db_error, no_rows, returned, Answer, Store,
}
use system_design_ecommerce.Inventory.Store.Stock.{
  Moved, available_of, to_available, from_available, to_reserved, from_reserved, Movement, reserves,
  releases, commits, reserved_of,
}
use system_design_ecommerce.Inventory.Store.Holds.{
  ledger, sold_of, is_committed, Keeps, sales, holds, held_of, IsRow, IsConsistent,
  quantity_of-order, StatusWritten, update_reservation_status-StatusWritten,
}
use system_design_ecommerce.Inventory.Repository.{with_lines, update, updated, narrow}
use system_design_ecommerce.Inventory.Service.{pos, move_lines}
use system_design_ecommerce.Inventory.Service.Movements.{move, move_lines-Moved}

-- Which status the end of a hold has, by where its stock goes.
abbrev pub Goes : Movement → Status → Type 0
Goes reserves st = ⊥
Goes releases st = (is_held st ≡ false) × (is_committed st ≡ false)
Goes commits st = (is_held st ≡ false) × (is_committed st ≡ true)

-- What such a movement does to the counts.
ends_counts :
    (m : Movement) (st : Status) (n : ℕ)
    → Goes m st
    → (from_reserved m n ≡ n)
      × (to_reserved m n ≡ 0)
      × (from_available m n ≡ 0)
      × (to_available m n + (if is_committed st then n else 0) ≡ n)
ends_counts reserves st n g = absurd g
ends_counts releases st n g = ground arith
ends_counts commits st n g = ground arith

Goes-ends : (m : Movement) (st : Status) → Goes m st → is_held st ≡ false
Goes-ends reserves st g = absurd g
Goes-ends releases st g = g.0
Goes-ends commits st g = g.0

-- What settle asks of a method of the aggregate: where it reports a move, it ended a hold and
-- changed nothing but the status.
pub record EndsHold (m : Movement) (change : Reservation → Transition) : Type 0 where
  pub held_before : (r r' : Reservation) → change r ≡ ok (r', true) → is_held r.status ≡ true
  pub goes : (r r' : Reservation) → change r ≡ ok (r', true) → Goes m r'.status
  pub status_only :
      (r r' : Reservation) → change r ≡ ok (r', true) → r' ≡ record r { status = r'.status }

pub commit-EndsHold : (now : ℤ) → EndsHold commits (commit now)
unfolding commit
commit-EndsHold now = record {
  held_before = λ r r' h. ground arith;
  goes = λ r r' h. ground arith;
  status_only = λ r r' h. ground arith;
}

pub release-EndsHold : EndsHold releases release
unfolding release
release-EndsHold = record {
  held_before = λ r r' h. ground arith;
  goes = λ r r' h. ground arith;
  status_only = λ r r' h. ground arith;
}

module _ (order_by_sku : List Line → List Line)
    (permutes : (ls : List Line) → Perm (order_by_sku ls) ls) where
  updated-ok :
      (a : Answer Reservation) (s' : Store) {r : Reservation}
      → updated order_by_sku a ≡ ok (r, s')
      → (row : Reservation) × (a ≡ returned row s') × (r ≡ with_lines order_by_sku row)
  unfolding updated
  updated-ok no_rows s' h = cc
  updated-ok db_error s' h = cc
  updated-ok (returned row t) s' h = (row, ap (returned row) (ground arith), ground arith)

  -- A hold that is being ended: the row that was read, and what the aggregate made of it.
  pub record Ending (m : Movement) (s : Store) (row moved : Reservation) : Type 0 where
    pub condition : Reservation → Bool
    pub read : select_one condition s.reservations ≡ some row
    pub was_held : is_held row.status ≡ true
    pub same : moved ≡ record row { lines = order_by_sku row.lines; status = moved.status }
    pub goes : Goes m moved.status

  Ending-row :
      (m : Movement) (s t s' : Store) (row moved row' : Reservation) (version : ℕ)
      → UniqueKeys (λ x. x.id) s.reservations
      → t.reservations ≡ s.reservations
      → Ending m s row moved
      → (w : StatusWritten moved.id moved.status version t s' row') → w.before ≡ row
  Ending-row m s t s' row moved row' version unique same_holds e w =
      let found =
        subst
          (λ rs. select_one (λ r. text_eq r.id moved.id && r.version == version) rs ≡ some w.before)
          same_holds w.found in
      let named : text_eq w.before.id row.id ≡ true =
        subst (λ (i : Text). text_eq w.before.id i ≡ true) (ap (λ (r : Reservation). r.id) e.same)
          w.named in
      same_row (λ (x : Reservation). x.id) _ e.condition s.reservations unique found e.read named

  no_longer_held :
      (moved row' before : Reservation) (k : Sku) (now : ℤ)
      → is_held moved.status ≡ false
      → row'
        ≡ record before { status = moved.status; updated_at = now; version = before.version + 1 }
      → holds k row' ≡ 0
  no_longer_held moved row' before k now ended w = rw w (rw ended)

  held_unsold : (r : Reservation) (k : Sku) → is_held r.status ≡ true → sales k r ≡ 0
  held_unsold r k h = ground arith

  written_sales :
      (moved row' before row : Reservation) (k : Sku) (now : ℤ)
      → row'
        ≡ record before { status = moved.status; updated_at = now; version = before.version + 1 }
      → before ≡ row
      → quantity_of k moved.lines ≡ quantity_of k row.lines
      → sales k row' ≡ (if is_committed moved.status then quantity_of k moved.lines else 0)
  written_sales moved row' before row k now w b q = rw (w, b, q)

  module _ (m : Movement) (row moved row' : Reservation) (version : ℕ) (s t s' : Store)
      (c : IsConsistent s) (e : Ending m s row moved)
      (mv : Moved m (λ k. quantity_of k moved.lines) s t)
      (w : StatusWritten moved.id moved.status version t s' row') where
    before_row : w.before ≡ row
    before_row = Ending-row m s t s' row moved row' version c.unique_ids mv.same_holds e w

    asked : (k : Sku) → quantity_of k moved.lines ≡ quantity_of k row.lines
    asked k =
        ap (λ (x : Reservation). quantity_of k x.lines) e.same
        ∙ quantity_of-order order_by_sku permutes k row.lines

    ended_accounted : (k : Sku) → reserved_of k s'.stock ≡ held_of k s'.reservations
    ended_accounted k =
        let held_before : holds k w.before ≡ quantity_of k row.lines =
          ap (holds k) before_row ∙ rw e.was_held in
        let gone : holds k row' ≡ 0 =
          no_longer_held moved row' w.before k t.clock (Goes-ends m moved.status e.goes)
            w.written in
        let kept : held_of k t.reservations ≡ held_of k s.reservations =
          ap (held_of k) mv.same_holds in
        omega (
          arith,
          mv.reserved k,
          ends_counts m moved.status (quantity_of k moved.lines) e.goes,
          c.accounted k,
          w.held_after k,
          asked k,
          held_before,
          gone,
          kept,
          ap (reserved_of k) w.same_stock,
        )

    ended_conserved : (k : Sku) → ledger k s' ≡ ledger k s
    ended_conserved k =
        let unsold : sales k w.before ≡ 0 =
          ap (sales k) before_row ∙ held_unsold row k e.was_held in
        let sold : sales k row'
            ≡ (if is_committed moved.status then quantity_of k moved.lines else 0) =
          written_sales moved row' w.before row k t.clock w.written before_row (asked k) in
        let kept : sold_of k t.reservations ≡ sold_of k s.reservations =
          ap (sold_of k) mv.same_holds in
        omega (
          arith,
          mv.reserved k,
          mv.available k,
          ends_counts m moved.status (quantity_of k moved.lines) e.goes,
          w.sold_after k,
          unsold,
          sold,
          kept,
          ap (reserved_of k) w.same_stock,
          ap (available_of k) w.same_stock,
        )

    moved_written-Keeps : Keeps s s'
    moved_written-Keeps = record {
      consistent = record {
        accounted = ended_accounted;
        unique_skus =
            subst (UniqueKeys (λ (x : StockItem). x.sku)) (sym w.same_stock)
              (mv.unique c.unique_skus);
        unique_ids =
            w.unique_after
              (subst (UniqueKeys (λ (x : Reservation). x.id)) (sym mv.same_holds) c.unique_ids);
        rows =
            w.rows_after (Goes-ends m moved.status e.goes)
              (subst (All IsRow) (sym mv.same_holds) c.rows);
      };
      conserved = ended_conserved;
    }

  -- Ending one hold of a consistent store: its lines are moved out of the counts, and its row is
  -- written with the status that ends it.
  pub ended-Keeps :
      (m : Movement) (row moved r : Reservation) (s t s' : Store) {u : Unit {0}}
      → IsConsistent s
      → Ending m s row moved
      → move_lines (move m) moved.lines s ≡ ok (u, t)
      → update order_by_sku moved t ≡ ok (r, s')
      → Keeps s s'
  unfolding update
  ended-Keeps m row moved r s t s' c e moves writes =
      let version = narrow (pos moved.version) in
      let (row', a, _) =
        updated-ok (update_reservation_status moved.id moved.status version t) s' writes in
      moved_written-Keeps m row moved row' version s t s' c e
        (move_lines-Moved m moved.lines s t moves)
        (update_reservation_status-StatusWritten moved.id moved.status version t s' a)

  -- The other reservations are found as they were.
  pub ended-others :
      (m : Movement) (row moved r : Reservation) (s t s' : Store) {u : Unit {0}}
      → Ending m s row moved
      → move_lines (move m) moved.lines s ≡ ok (u, t)
      → update order_by_sku moved t ≡ ok (r, s')
      → (k : Text) → text_eq k row.id ≡ false
      → select_one (λ x. text_eq x.id k) s'.reservations
        ≡ select_one (λ x. text_eq x.id k) s.reservations
  unfolding update
  ended-others m row moved r s t s' e moves writes k ne =
      let mv = move_lines-Moved m moved.lines s t moves in
      let (row', a, _) =
        updated-ok (update_reservation_status moved.id moved.status (narrow (pos moved.version)) t)
          s' writes in
      let w =
        update_reservation_status-StatusWritten moved.id moved.status (narrow (pos moved.version)) t
          s' a in
      w.others_after k (ap (λ (x : Reservation). text_eq k x.id) e.same ∙ ne)
      ∙ ap (select_one (λ (x : Reservation). text_eq x.id k)) mv.same_holds

  -- What a method that reports a move makes of a row as it was read.
  pub change-Ending :
      (m : Movement) (change : Reservation → Transition) (condition : Reservation → Bool)
      (row moved : Reservation) (s : Store)
      → EndsHold m change
      → select_one condition s.reservations ≡ some row
      → change (with_lines order_by_sku row) ≡ ok (moved, true)
      → Ending m s row moved
  change-Ending m change condition row moved s ends read h = record {
    condition = condition;
    read = read;
    was_held = ends.held_before (with_lines order_by_sku row) moved h;
    same = ends.status_only (with_lines order_by_sku row) moved h;
    goes = ends.goes (with_lines order_by_sku row) moved h;
  }
