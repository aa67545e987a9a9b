-- ===== src/Inventory/Service/Sweep.antt =====
-- The transaction of ExpireReservations (inventory_service.go), on the counts and the holds.
use system_design_ecommerce.Inventory.Store.Claims.{claim_expired_unique, claim_expired-found}
use system_design_ecommerce.Table.{select_one}
use mathlib.Core.List.{Perm}
use system_design_ecommerce.Prelude.{
  ℕ, ◌+◌, ◌≡◌, refl, ◌∙◌, subst, Bool, true, false, not, List, [], ◌∷◌, map, All, arith,
  if◌then◌else◌,
}
use system_design_ecommerce.Prelude.Int.{ℤ}
use system_design_ecommerce.Errors.{Result, ok, >>=-eq-ok, ◌>>=◌}
use system_design_ecommerce.Text.{Text, text_eq}
use system_design_ecommerce.Table.Laws.{UniqueKeys}
use system_design_ecommerce.Table.Keys.{FoundByKey}
use system_design_ecommerce.Inventory.Domain.{Sentinel, Line, Reservation, expire}
use system_design_ecommerce.Inventory.Store.{claim_expired_reservations, Store}
use system_design_ecommerce.Inventory.Store.Stock.{releases}
use system_design_ecommerce.Inventory.Store.Holds.{Keeps-trans, Keeps, nothing-Keeps, IsConsistent}
use system_design_ecommerce.Inventory.Repository.{
  narrow, claim_expired, release_held, with_lines, update,
}
use system_design_ecommerce.Inventory.Service.{sweep_one, sweep, expire_tx, move_lines}
use system_design_ecommerce.Inventory.Service.Ending.{
  ended-Keeps, ended-others, EndsHold, change-Ending,
}

pub expire-EndsHold : (now : ℤ) → EndsHold releases (expire now)
unfolding expire
expire-EndsHold now = record {
  held_before = λ r r' h. ground arith;
  goes = λ r r' h. ground arith;
  status_only = λ r r' h. ground arith;
}

module _ (order_by_sku : List Line → List Line)
    (permutes : (ls : List Line) → Perm (order_by_sku ls) ls) where
  -- What one step of the loop leaves: consistent rows, the other reservations found as they were.
  record Swept (row : Reservation) (s s' : Store) : Type 0 where
    keeps : Keeps s s'
    others :
        (k : Text)
        → text_eq k row.id ≡ false
        → select_one (λ x. text_eq x.id k) s'.reservations
          ≡ select_one (λ x. text_eq x.id k) s.reservations

  answered : Reservation → Bool → Store → Result Sentinel (ℕ × Store)
  answered moved did s =
      if not did
      then ok (0, s)
      else (move_lines release_held moved.lines s >>= λ (_, t).
          update order_by_sku moved t >>= λ (_, u). ok (1, u))

  answered-Swept :
      (now : ℤ) (row moved : Reservation) (did : Bool) (n : ℕ) (s s' : Store)
      → IsConsistent s
      → FoundByKey (λ r. r.id) s.reservations row
      → expire now (with_lines order_by_sku row) ≡ ok (moved, did)
      → answered moved did s ≡ ok (n, s')
      → Swept row s s'
  unfolding answered
  answered-Swept now row moved false n s s' c f e h =
      subst (Swept row s) (ground arith) (record { keeps = nothing-Keeps c; others = λ k ne. refl })
  answered-Swept now row moved true n s s' c f e h =
      let ((_, t), moves, rest) =
        >>=-eq-ok (move_lines release_held moved.lines s)
          (λ (_, t). update order_by_sku moved t >>= λ (_, u). ok (1, u)) h in
      let ((r, u), writes, last) =
        >>=-eq-ok (update order_by_sku moved t) (λ (_, u). ok (1, u)) rest in
      let ending =
        change-Ending order_by_sku permutes releases (expire now) _ row moved s
          (expire-EndsHold now) f e in
      let done : Swept row s u = record {
        keeps = ended-Keeps order_by_sku permutes releases row moved r s t u c ending moves writes;
        others = ended-others order_by_sku permutes releases row moved r s t u ending moves writes;
      } in
      subst (Swept row s) (ground arith) done

  still_found :
      (row : Reservation) (rows : List Reservation) (s s' : Store)
      → Swept row s s'
      → All (λ x. text_eq x.id row.id ≡ false) rows
      → All (FoundByKey (λ r. r.id) s.reservations) rows
      → All (FoundByKey (λ r. r.id) s'.reservations) rows
  still_found row [] s s' w a f = tt
  still_found row (x ∷ rows) s s' w a f =
      (w.others x.id a.0 ∙ f.0, still_found row rows s s' w a.1 f.1)

  sweep-Keeps :
      (now : ℤ) (rows : List Reservation) (swept n : ℕ) (s s' : Store)
      → IsConsistent s
      → All (FoundByKey (λ r. r.id) s.reservations) rows
      → UniqueKeys (λ r. r.id) rows
      → sweep order_by_sku now (map (with_lines order_by_sku) rows) swept s ≡ ok (n, s')
      → Keeps s s'
  unfolding sweep sweep_one answered
  sweep-Keeps now [] swept n s s' c f u h = subst (Keeps s) (ground arith) (nothing-Keeps c)
  sweep-Keeps now (row ∷ rows) swept n s s' c f u h =
      let ((k, t), one, rest) =
        >>=-eq-ok (sweep_one order_by_sku now (with_lines order_by_sku row) s)
          (λ (k, t). sweep order_by_sku now (map (with_lines order_by_sku) rows) (swept + k) t) h in
      let ((moved, did), e, a) =
        >>=-eq-ok (expire now (with_lines order_by_sku row)) (λ (moved, did). answered moved did s)
          one in
      let w = answered-Swept now row moved did k s t c f.0 e a in
      Keeps-trans w.keeps (
        sweep-Keeps now rows (swept + k) n t s' w.keeps.consistent
          (still_found row rows s t w u.0 f.1) u.1 rest)

  -- A sweep that ends leaves counts and holds that agree and conserves the units of every SKU.
  pub expire_tx-Keeps :
      (locked : Text → Bool) (now limit : ℤ) (s s' : Store) {n : ℕ}
      → IsConsistent s
      → expire_tx order_by_sku locked now limit s ≡ ok (n, s')
      → Keeps s s'
  unfolding expire_tx claim_expired
  expire_tx-Keeps locked now limit s s' {n} c h =
      sweep-Keeps now (claim_expired_reservations locked now (narrow limit) s) 0 n s s' c
        (claim_expired-found locked now (narrow limit) s c.unique_ids)
        (claim_expired_unique locked now (narrow limit) s c.unique_ids) h
