-- ===== src/Inventory/Store/Stock.antt =====
-- What the statements on stock_items do to the counts.
use system_design_ecommerce.Prelude.{
  subst, ap, &&-both, ◌∙◌, ℕ, ◌+◌, ◌≡◌, refl, Bool, true, ◌&&◌, Option, none, some, List, arith,
  if◌then◌else◌,
}
use system_design_ecommerce.Text.{text_eq, text_eq_left}
use system_design_ecommerce.Sku.{Sku}
use system_design_ecommerce.Table.{select_one}
use system_design_ecommerce.Table.Laws.{
  total, UniqueKeys, total-update_one, UniqueKeys-update_one, select_one-holds,
}
use system_design_ecommerce.Inventory.Domain.{StockItem}
use system_design_ecommerce.Inventory.Store.{
  sell, give_back, has_reserved, take_hold, has_available, stock_after, write_stock, Store, Answer,
  returned, update_stock, reserve_stock, release_stock, commit_stock,
}

-- How many units of a SKU the counts say are held, and how many are still for sale.
abbrev pub reserved_of : Sku → List StockItem → ℕ
reserved_of k = total (λ r. if text_eq r.sku k then r.reserved else 0)

abbrev pub available_of : Sku → List StockItem → ℕ
available_of k = total (λ r. if text_eq r.sku k then r.available else 0)

-- A quantity of one SKU, as it counts for another.
abbrev pub counted : Sku → ℕ → Sku → ℕ
counted sku q k = if text_eq sku k then q else 0

-- An UPDATE of stock_items that returned a row: which row it found, and what it stored.
pub record Updated (sku : Sku) (guard : StockItem → Bool) (change : StockItem → StockItem)
    (s s' : Store) : Type 0 where
  pub before : StockItem
  pub named : text_eq before.sku sku ≡ true
  pub guarded : guard before ≡ true
  pub same_holds : s'.reservations ≡ s.reservations
  pub same_clock : s'.clock ≡ s.clock
  pub reserved_after :
      (k : Sku)
      → reserved_of k s'.stock + counted sku before.reserved k
        ≡ reserved_of k s.stock + counted sku (change before).reserved k
  pub available_after :
      (k : Sku)
      → available_of k s'.stock + counted sku before.available k
        ≡ available_of k s.stock + counted sku (change before).available k
  pub unique_after : UniqueKeys (λ r. r.sku) s.stock → UniqueKeys (λ r. r.sku) s'.stock

module _ (sku : Sku) (guard : StockItem → Bool) (change : StockItem → StockItem)
    (s s' : Store) where
  write_stock-Updated :
      (keeps : (r : StockItem) → (change r).sku ≡ r.sku) {row : StockItem} (o : Option StockItem)
      → select_one (λ r. text_eq r.sku sku && guard r) s.stock ≡ o
      → write_stock sku guard change s o ≡ returned row s'
      → Updated sku guard change s s'
  unfolding write_stock stock_after
  write_stock-Updated keeps none e h = cc
  write_stock-Updated keeps (some r) e h =
      let r' : StockItem = record (change r) { updated_at = s.clock; version = r.version + 1 } in
      let stored : stock_after sku guard r' s ≡ s' = ground arith in
      let found = &&-both (text_eq r.sku sku) (guard r) (select_one-holds _ s.stock e) in
      let name : (k : Sku) → text_eq r.sku k ≡ text_eq sku k =
        λ k. text_eq_left r.sku sku k found.0 in
      let name' : (k : Sku) → text_eq r'.sku k ≡ text_eq sku k =
        λ k. ap (λ (t : Sku). text_eq t k) (keeps r) ∙ name k in
      subst (Updated sku guard change s) stored (record {
        before = r;
        named = found.0;
        guarded = found.1;
        same_holds = refl;
        same_clock = refl;
        reserved_after = λ k. ground (
          arith,
          name k,
          name' k,
          total-update_one _ (λ (x : StockItem). if text_eq x.sku k then x.reserved else 0) r r'
              s.stock e,
        );
        available_after = λ k. ground (
          arith,
          name k,
          name' k,
          total-update_one _ (λ (x : StockItem). if text_eq x.sku k then x.available else 0) r r'
              s.stock e,
        );
        unique_after = UniqueKeys-update_one (λ (x : StockItem). x.sku) _ r r' s.stock e (keeps r);
      })

-- The same of the statement as a whole.
pub update_stock-Updated :
    (sku : Sku) (guard : StockItem → Bool) (change : StockItem → StockItem) (s s' : Store)
    → ((r : StockItem) → (change r).sku ≡ r.sku)
    → {row : StockItem} → update_stock sku guard change s ≡ returned row s'
    → Updated sku guard change s s'
unfolding update_stock
update_stock-Updated sku guard change s s' keeps h =
    write_stock-Updated sku guard change s s' keeps
      (select_one (λ r. text_eq r.sku sku && guard r) s.stock) refl h

-- A movement of stock: what it adds to a count and what it takes from it.
pub data Movement : Type 0 where
  reserves releases commits : Movement

abbrev pub to_reserved : Movement → ℕ → ℕ
to_reserved reserves n = n
to_reserved _ n = 0

abbrev pub from_reserved : Movement → ℕ → ℕ
from_reserved reserves n = 0
from_reserved _ n = n

abbrev pub to_available : Movement → ℕ → ℕ
to_available releases n = n
to_available _ n = 0

abbrev pub from_available : Movement → ℕ → ℕ
from_available reserves n = n
from_available _ n = 0

-- What a movement of `amount k` units of each SKU k has done to the counts. Nothing else changed.
pub record Moved (m : Movement) (amount : Sku → ℕ) (s s' : Store) : Type 0 where
  pub same_holds : s'.reservations ≡ s.reservations
  pub same_clock : s'.clock ≡ s.clock
  pub reserved :
      (k : Sku)
      → reserved_of k s'.stock + from_reserved m (amount k)
        ≡ reserved_of k s.stock + to_reserved m (amount k)
  pub available :
      (k : Sku)
      → available_of k s'.stock + from_available m (amount k)
        ≡ available_of k s.stock + to_available m (amount k)
  pub unique : UniqueKeys (λ r. r.sku) s.stock → UniqueKeys (λ r. r.sku) s'.stock

-- The statement of a movement.
abbrev pub statement : Movement → Sku → ℕ → Store → Answer StockItem
statement reserves = reserve_stock
statement releases = release_stock
statement commits = commit_stock

pub statement-Moved :
    (m : Movement) (sku : Sku) (q : ℕ) (s s' : Store) {row : StockItem}
    → statement m sku q s ≡ returned row s'
    → Moved m (counted sku q) s s'
unfolding reserve_stock release_stock commit_stock
statement-Moved reserves sku q s s' h =
    let u = update_stock-Updated sku (has_available q) (take_hold q) s s' (λ r. refl) h in
    record {
      same_holds = u.same_holds;
      same_clock = u.same_clock;
      reserved = λ k. ground (arith, u.reserved_after k);
      available = λ k. ground (arith, u.available_after k, u.guarded);
      unique = u.unique_after;
    }
statement-Moved releases sku q s s' h =
    let u = update_stock-Updated sku (has_reserved q) (give_back q) s s' (λ r. refl) h in
    record {
      same_holds = u.same_holds;
      same_clock = u.same_clock;
      reserved = λ k. ground (arith, u.reserved_after k, u.guarded);
      available = λ k. ground (arith, u.available_after k);
      unique = u.unique_after;
    }
statement-Moved commits sku q s s' h =
    let u = update_stock-Updated sku (has_reserved q) (sell q) s s' (λ r. refl) h in
    record {
      same_holds = u.same_holds;
      same_clock = u.same_clock;
      reserved = λ k. ground (arith, u.reserved_after k, u.guarded);
      available = λ k. ground (arith, u.available_after k);
      unique = u.unique_after;
    }
