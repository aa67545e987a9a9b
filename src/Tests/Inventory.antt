-- ===== src/Tests/Inventory.antt =====
-- The theorems of the inventory service at concrete inputs: a basket that is reserved, committed and
-- released.
use system_design_ecommerce.Inventory.Repository.{moved, reserve}
use system_design_ecommerce.Inventory.Service.Movements.{move, move_lines-Moved}
use system_design_ecommerce.Inventory.Domain.Lines.Multiset.{matches_iff}
use system_design_ecommerce.Inventory.Domain.Lines.Canonical.{
  canonical_lines-IsCanonicalOf, quantity_of, IsCanonicalOf,
}
use system_design_ecommerce.Inventory.Domain.Lines.{
  summed, add_line, insert_line, sort_lines, sum_lines, canonical_lines,
}
use system_design_ecommerce.Sku.Laws.{new_sku-IsSku, new_sku_of_IsSku, IsSku}
use system_design_ecommerce.Inventory.Domain.Lifecycle.{
  history-SettledOnce, settled_forever, expires, repeat-unmoved, releases, again, attempt-Edge,
  history, attempt, commits, Edge, SettledOnce,
}
use system_design_ecommerce.Inventory.Store.Holds.{ledger, IsConsistent}
use mathlib.Core.List.{Perm}
use mathlib.Core.List.Perm
use system_design_ecommerce.Prelude.{ℕ, ◌≡◌, refl, ◌↔◌, Bool, true, false, List, [], ◌∷◌, arith}
use system_design_ecommerce.Prelude.Int.{ℤ, pos}
use system_design_ecommerce.Errors.{ok}
use system_design_ecommerce.Text.{Text}
use system_design_ecommerce.Sku.{new_sku, Sku}
use system_design_ecommerce.Text.Case.{to_upper, trim_space, is_space, upper_rune}
use system_design_ecommerce.Tx.{Server}
use system_design_ecommerce.Inventory.Domain.{
  commit, matches, held, committed, Line, Reservation, Sentinel,
}
use system_design_ecommerce.Inventory.Store.{
  reserve_stock, stock_after, write_stock, update_stock, Store,
}
use system_design_ecommerce.Inventory.Store.Stock.{Moved, Movement}
use system_design_ecommerce.Inventory.Domain.{StockItem}
use system_design_ecommerce.Inventory.Service.{move_lines, ReserveStockCommand, Policy}
use system_design_ecommerce.Inventory.Service.Runs.{
  run-IsConsistent, run-conserves, empty, empty-IsConsistent,
}
use system_design_ecommerce.Inventory.Service.Calls.{
  releases_hold, commits_hold, creates, reserves, Call, run,
}

abbrev shirt : Sku
shirt = b'A' ∷ b'1' ∷ b'2' ∷ []

abbrev cap : Sku
cap = b'B' ∷ b'-' ∷ b'7' ∷ []

-- an identifier of 36 characters
abbrev uuid : ℕ → Text
uuid c =
    c ∷ c ∷ c ∷ c ∷ c ∷ c ∷ c ∷ c ∷ c ∷ c ∷ c ∷ c ∷ c ∷ c ∷ c ∷ c ∷ c ∷ c ∷ c ∷ c ∷ c ∷ c ∷ c ∷ c
    ∷ c ∷ c ∷ c ∷ c ∷ c ∷ c ∷ c ∷ c ∷ c ∷ c ∷ c ∷ c ∷ []

abbrev by_sku : List Line → List Line
by_sku ls = ls

same_lines : (ls : List Line) → Perm (by_sku ls) ls
same_lines ls = Perm.refl ls

abbrev any_uuid : Text → Bool
any_uuid t = true

abbrev policy : Policy
policy = record { reservation_ttl = pos 900; now = pos 1000 }

abbrev basket : ReserveStockCommand
basket = record {
  order_id = uuid b'0';
  lines =
      record { sku = cap; quantity = pos 1 }
      ∷ record { sku = shirt; quantity = pos 2 }
      ∷ record { sku = cap; quantity = pos 3 }
      ∷ [];
}

abbrev receipts : List (ℤ × Call)
receipts =
    (pos 1, creates (uuid b'1') shirt (pos 5)) ∷ (pos 2, creates (uuid b'2') cap (pos 9)) ∷ []

abbrev movements : List (ℤ × Call)
movements =
    (pos 1000, reserves Server.commits policy (uuid b'3') basket)
    ∷ (pos 1001, commits_hold Server.commits policy (uuid b'3'))
    ∷ (pos 1002, releases_hold Server.commits (uuid b'3'))
    ∷ []

run-IsConsistent_example : IsConsistent (run by_sku any_uuid receipts empty)
run-IsConsistent_example =
    run-IsConsistent by_sku same_lines any_uuid receipts empty empty-IsConsistent

abbrev stocked : Store
stocked = run by_sku any_uuid receipts empty

stocked-IsConsistent : IsConsistent stocked
stocked-IsConsistent = run-IsConsistent by_sku same_lines any_uuid receipts empty empty-IsConsistent

run-conserves_example : ledger cap (run by_sku any_uuid movements stocked) ≡ ledger cap stocked
run-conserves_example =
    run-conserves by_sku same_lines any_uuid movements stocked stocked-IsConsistent
      (refl, (refl, (refl, tt))) cap

abbrev one_cap : Line
one_cap = record { sku = cap; quantity = 1 }

abbrev three_caps : Line
three_caps = record { sku = cap; quantity = 3 }

abbrev two_shirts : Line
two_shirts = record { sku = shirt; quantity = 2 }

abbrev hold : Reservation
hold = record {
  id = uuid b'3';
  order_id = uuid b'0';
  lines = two_shirts ∷ record { sku = cap; quantity = 4 } ∷ [];
  status = held;
  expires_at = pos 1900;
  created_at = pos 1000;
  updated_at = pos 1000;
  version = 1;
}

abbrev split_basket : List Line
split_basket = one_cap ∷ two_shirts ∷ three_caps ∷ []

abbrev reordered_basket : List Line
reordered_basket = three_caps ∷ one_cap ∷ two_shirts ∷ []

split_basket_lines : canonical_lines split_basket ≡ ok hold.lines
unfolding canonical_lines sum_lines sort_lines insert_line add_line summed
split_basket_lines = refl

reordered_basket_lines : canonical_lines reordered_basket ≡ ok hold.lines
unfolding canonical_lines sum_lines sort_lines insert_line add_line summed
reordered_basket_lines = refl

matches_iff_example :
    (matches hold hold.lines ≡ true)
    ↔ ((k : Sku) → quantity_of k split_basket ≡ quantity_of k reordered_basket)
matches_iff_example =
    matches_iff hold split_basket reordered_basket split_basket_lines reordered_basket_lines

canonical_lines-IsCanonicalOf_example : IsCanonicalOf split_basket hold.lines
canonical_lines-IsCanonicalOf_example =
    canonical_lines-IsCanonicalOf split_basket split_basket_lines

history-SettledOnce_example :
    SettledOnce (history (commits (pos 1500) ∷ releases ∷ expires (pos 2000) ∷ []) hold)
history-SettledOnce_example =
    history-SettledOnce (commits (pos 1500) ∷ releases ∷ expires (pos 2000) ∷ []) hold refl

abbrev sold : Reservation
sold = record hold { status = committed }

sold_by_commit : attempt (commits (pos 1500)) hold ≡ ok (sold, true)
unfolding attempt commit
sold_by_commit = refl

attempt-Edge_example :
    Edge hold (commits (pos 1500)) committed × (sold ≡ record hold { status = committed })
attempt-Edge_example = attempt-Edge hold (commits (pos 1500)) sold_by_commit

repeat-unmoved_example : attempt (again (commits (pos 1500)) (pos 9000)) sold ≡ ok (sold, false)
repeat-unmoved_example = repeat-unmoved hold (commits (pos 1500)) (pos 9000) sold_by_commit

settled_forever_example : history (releases ∷ expires (pos 9000) ∷ []) sold ≡ (sold, 0)
settled_forever_example = settled_forever (releases ∷ expires (pos 9000) ∷ []) sold refl

-- " a12"
abbrev typed_sku : Text
typed_sku = 32 ∷ b'a' ∷ b'1' ∷ b'2' ∷ []

typed_sku_reads : new_sku {S = Sentinel} typed_sku ≡ ok shirt
unfolding new_sku to_upper trim_space is_space upper_rune
typed_sku_reads = refl

new_sku-IsSku_example : IsSku shirt
new_sku-IsSku_example = new_sku-IsSku {S = Sentinel} typed_sku typed_sku_reads

shirt-IsSku : IsSku shirt
shirt-IsSku = ground arith

new_sku_of_IsSku_example : new_sku {S = Sentinel} shirt ≡ ok shirt
new_sku_of_IsSku_example = new_sku_of_IsSku {S = Sentinel} shirt shirt-IsSku

abbrev shelf_row : StockItem
shelf_row = record {
  id = uuid b'1';
  sku = shirt;
  available = 5;
  reserved = 0;
  created_at = pos 1;
  updated_at = pos 1;
  version = 1;
}

abbrev shelf : Store
shelf = record { stock = shelf_row ∷ []; reservations = []; clock = pos 7 }

abbrev shelf_after : Store
shelf_after = record shelf {
  stock = record shelf_row { available = 3; reserved = 2; updated_at = pos 7; version = 2 } ∷ [];
}

two_shirts-move : move_lines (move Movement.reserves) (two_shirts ∷ []) shelf ≡ ok (tt, shelf_after)
unfolding move_lines reserve moved reserve_stock update_stock write_stock stock_after
two_shirts-move = refl

move_lines-Moved_example :
    Moved Movement.reserves (λ k. quantity_of k (two_shirts ∷ [])) shelf shelf_after
move_lines-Moved_example =
    move_lines-Moved Movement.reserves (two_shirts ∷ []) shelf shelf_after two_shirts-move
