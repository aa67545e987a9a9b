-- ===== src/Inventory/Service/Shelf.antt =====
-- CreateStockItem and AdjustStock (inventory_service.go), on the counts and the holds.
use system_design_ecommerce.Table.Laws.{
  UniqueKeys, select_one-Absent, UniqueKeys-snoc, total-append,
}
use system_design_ecommerce.Text.{text_eq}
use system_design_ecommerce.Table.{select_one}
use system_design_ecommerce.Inventory.Store.Stock.{update_stock-Updated}
use system_design_ecommerce.Prelude.{
  Option, ◌++◌, some, none, ◌≡◌, refl, sym, ap, subst, false, [], ◌∷◌, All, arith, if◌then◌else◌,
}
use system_design_ecommerce.Prelude.Int.{ℤ}
use system_design_ecommerce.Errors.{ok}
use system_design_ecommerce.Sku.{Sku}
use system_design_ecommerce.Inventory.Domain.{StockItem, Reservation}
use system_design_ecommerce.Inventory.Store.{
  shift, stays_positive, adjust_stock, is_some, returned, db_error, no_rows, Store, Answer,
}
use system_design_ecommerce.Inventory.Store.Holds.{IsRow, held_of, IsConsistent}
use system_design_ecommerce.Inventory.Repository.{create_stock_item, adjust, adjusted}

adjusted-ok :
    (sku : Sku) (a : Answer StockItem) (s t : Store) {row : StockItem}
    → adjusted sku a s ≡ ok (row, t)
    → a ≡ returned row t
unfolding adjusted
adjusted-ok sku no_rows s t h = cc
adjusted-ok sku db_error s t h = cc
adjusted-ok sku (returned r u) s t h = ground arith

pub adjust-IsConsistent :
    (sku : Sku) (delta : ℤ) (row : StockItem) (s t : Store)
    → IsConsistent s
    → adjust sku delta s ≡ ok (row, t)
    → IsConsistent t
unfolding adjust adjust_stock
adjust-IsConsistent sku delta row s t c h =
    let u =
      update_stock-Updated sku (stays_positive delta) (shift delta) s t (λ r. refl)
        (adjusted-ok sku (adjust_stock sku delta s) s t h) in
    record {
      accounted =
          λ k. omega (arith, u.reserved_after k, c.accounted k, ap (held_of k) u.same_holds);
      unique_skus = u.unique_after c.unique_skus;
      unique_ids = subst (UniqueKeys (λ (x : Reservation). x.id)) (sym u.same_holds) c.unique_ids;
      rows = subst (All IsRow) (sym u.same_holds) c.rows;
    }

none_of-is_some {ℓ} : {A : Type ℓ} (o : Option A) → is_some o ≡ false → o ≡ none
none_of-is_some none h = refl
none_of-is_some (some a) h = cc

pub create_stock_item-IsConsistent :
    (item row : StockItem) (s t : Store)
    → IsConsistent s
    → create_stock_item item s ≡ ok (row, t)
    → IsConsistent t
unfolding create_stock_item
create_stock_item-IsConsistent item row s t c h =
    let row' : StockItem = record item {
      reserved = 0;
      created_at = s.clock;
      updated_at = s.clock;
      version = 1;
    } in
    let u : Store = record s { stock = s.stock ++ row' ∷ [] } in
    let facts : (is_some (select_one (λ r. text_eq r.sku item.sku) s.stock) ≡ false) × (u ≡ t) =
      ground arith in
    subst IsConsistent facts.1 (record {
      accounted = λ k. ground (
        arith,
        total-append (λ (r : StockItem). if text_eq r.sku k then r.reserved else 0) s.stock
            (row' ∷ []),
        c.accounted k,
      );
      unique_skus =
          UniqueKeys-snoc (λ (x : StockItem). x.sku) s.stock row' c.unique_skus
            (select_one-Absent (λ (x : StockItem). x.sku) item.sku s.stock
              (none_of-is_some _ facts.0));
      unique_ids = c.unique_ids;
      rows = c.rows;
    })
