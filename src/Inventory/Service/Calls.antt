-- ===== src/Inventory/Service/Calls.antt =====
-- The calls that write, as one step function over the stored rows, and any sequence of them.
use system_design_ecommerce.Inventory.Service.Shelf.{
  adjust-IsConsistent, create_stock_item-IsConsistent,
}
use system_design_ecommerce.Inventory.Service.Movements.{move}
use system_design_ecommerce.Inventory.Domain.Lines.Canonical.{new_reservation-ok}
use system_design_ecommerce.Inventory.Service.Reserve.{reserve_tx-Keeps}
use system_design_ecommerce.Inventory.Service.Settle.{settle_tx-Keeps}
use system_design_ecommerce.Inventory.Service.Ending.{release-EndsHold, commit-EndsHold, EndsHold}
use system_design_ecommerce.Inventory.Store.Stock.{Movement}
use mathlib.Core.List.{Perm}
use system_design_ecommerce.Prelude.{◌≡◌, refl, Bool, true, false, List, [], ◌∷◌}
use system_design_ecommerce.Prelude.Int.{ℤ}
use system_design_ecommerce.Errors.{ok, >>=-eq-ok, ◌>>=◌}
use system_design_ecommerce.Text.{Text}
use system_design_ecommerce.Tx.{run_tx-keeps, with_parsed-keeps, Server}
use system_design_ecommerce.Inventory.Service.Sweep.{expire_tx-Keeps}
use system_design_ecommerce.Inventory.Domain.{release, commit, Transition, Line, Reservation, held}
use system_design_ecommerce.Inventory.Store.{Store}
use system_design_ecommerce.Inventory.Store.Holds.{IsConsistent, Keeps, nothing-Keeps}
use system_design_ecommerce.Inventory.Service.{
  adjust, adjustment_of, create_stock_item, item_of, new_reservation, parse_lines, parse_uuid,
  Policy, ReserveStockCommand, candidate_of, reserve_stock, reserve_tx, settle, settle_tx,
  commit_reservation, release_reservation, expire_reservations, create_item, adjust_stock,
}

-- A call of the service, with what the server answers and the identifiers that it mints.
pub data Call : Type 0 where
  reserves : Server → Policy → Text → ReserveStockCommand → Call
  commits_hold : Server → Policy → Text → Call
  releases_hold : Server → Text → Call
  expires : Server → (Text → Bool) → Policy → ℤ → Call
  creates : Text → Text → ℤ → Call
  adjusts : Text → ℤ → Call

-- The calls that neither receive nor write off stock.
abbrev pub is_movement : Call → Bool
is_movement (creates _ _ _) = false
is_movement (adjusts _ _) = false
is_movement _ = true

module _ (order_by_sku : List Line → List Line) (valid_uuid : Text → Bool) where
  -- the rows that are stored after the call
  unfoldable pub after : Call → Store → Store
  after (reserves server policy id cmd) s =
      (reserve_stock order_by_sku valid_uuid server policy id cmd s).1
  after (commits_hold server policy id) s =
      (commit_reservation order_by_sku valid_uuid server policy id s).1
  after (releases_hold server id) s = (release_reservation order_by_sku valid_uuid server id s).1
  after (expires server locked policy limit) s =
      (expire_reservations order_by_sku server locked policy limit s).1
  after (creates id sku available) s = (create_item id sku available s).1
  after (adjusts sku delta) s = (adjust_stock sku delta s).1

  -- Calls one after another, each at a time of the database's clock.
  unfoldable pub run : List (ℤ × Call) → Store → Store
  unfolding after
  run [] s = s
  run ((now, c) ∷ cs) s = run cs (after c (record s { clock = now }))

candidate_of-held :
    (valid_uuid : Text → Bool) (policy : Policy) (id : Text) (cmd : ReserveStockCommand)
    {r : Reservation}
    → candidate_of valid_uuid policy id cmd ≡ ok r
    → r.status ≡ held
unfolding candidate_of
candidate_of-held valid_uuid policy id cmd h =
    let (o, _, rest) =
      >>=-eq-ok (parse_uuid valid_uuid "order_id" cmd.order_id)
        (λ o.
          parse_lines cmd.lines >>= λ ls. new_reservation id o ls policy.now policy.reservation_ttl)
        h in
    let (ls, _, last) =
      >>=-eq-ok (parse_lines cmd.lines)
        (λ ls. new_reservation id o ls policy.now policy.reservation_ttl) rest in
    let (c, _, made, _) = new_reservation-ok id o ls policy.now policy.reservation_ttl last in
    rw made

module _ (order_by_sku : List Line → List Line)
    (permutes : (ls : List Line) → Perm (order_by_sku ls) ls) (valid_uuid : Text → Bool) where
  settle-Keeps :
      (m : Movement) (change : Reservation → Transition) (server : Server) (id : Text) (s : Store)
      → EndsHold m change
      → IsConsistent s
      → Keeps s (settle order_by_sku valid_uuid server change (move m) id s).1
  unfolding settle
  settle-Keeps m change server id s ends c =
      with_parsed-keeps (Keeps s) (parse_uuid valid_uuid "id" id) _ s (nothing-Keeps c) λ parsed _.
        run_tx-keeps (Keeps s) server (settle_tx order_by_sku change (move m) parsed) s
          (nothing-Keeps c)
          λ r t h. settle_tx-Keeps order_by_sku permutes m change ends parsed s t c h

  -- A call that moves stock leaves counts and holds that agree, and of every SKU as many units, on
  -- the shelf, held or sold, as there were.
  pub after-Keeps :
      (call : Call) (s : Store)
      → is_movement call ≡ true
      → IsConsistent s
      → Keeps s (after order_by_sku valid_uuid call s)
  unfolding after reserve_stock commit_reservation release_reservation expire_reservations
  after-Keeps (reserves server policy id cmd) s m c =
      with_parsed-keeps (Keeps s) (candidate_of valid_uuid policy id cmd) _ s (nothing-Keeps c)
        λ candidate e.
          run_tx-keeps (Keeps s) server (reserve_tx order_by_sku candidate) s (nothing-Keeps c)
            λ r t h.
              reserve_tx-Keeps order_by_sku candidate r s t c
                (candidate_of-held valid_uuid policy id cmd e) h
  after-Keeps (commits_hold server policy id) s m c =
      settle-Keeps Movement.commits (commit policy.now) server id s (commit-EndsHold policy.now) c
  after-Keeps (releases_hold server id) s m c =
      settle-Keeps Movement.releases release server id s release-EndsHold c
  after-Keeps (expires server locked policy limit) s m c =
      run_tx-keeps (Keeps s) server _ s (nothing-Keeps c)
        λ n t h. expire_tx-Keeps order_by_sku permutes locked policy.now _ s t c h
  after-Keeps (creates id sku available) s m c = cc
  after-Keeps (adjusts sku delta) s m c = cc

  -- Every call leaves counts and holds that agree.
  pub after-IsConsistent :
      (call : Call) (s : Store)
      → IsConsistent s
      → IsConsistent (after order_by_sku valid_uuid call s)
  unfolding after create_item adjust_stock
  after-IsConsistent (creates id sku available) s c =
      with_parsed-keeps IsConsistent (item_of id sku available) _ s c λ item e.
        run_tx-keeps IsConsistent Server.commits (create_stock_item item) s c
          λ row t h. create_stock_item-IsConsistent item row s t c h
  after-IsConsistent (adjusts sku delta) s c =
      with_parsed-keeps IsConsistent (adjustment_of sku delta) _ s c λ parsed e.
        run_tx-keeps IsConsistent Server.commits (adjust parsed.0 parsed.1) s c
          λ row t h. adjust-IsConsistent parsed.0 parsed.1 row s t c h
  after-IsConsistent (reserves server policy id cmd) s c =
      (after-Keeps (reserves server policy id cmd) s refl c).consistent
  after-IsConsistent (commits_hold server policy id) s c =
      (after-Keeps (commits_hold server policy id) s refl c).consistent
  after-IsConsistent (releases_hold server id) s c =
      (after-Keeps (releases_hold server id) s refl c).consistent
  after-IsConsistent (expires server locked policy limit) s c =
      (after-Keeps (expires server locked policy limit) s refl c).consistent
