-- ===== src/Inventory/Service/Movements.antt =====
-- What moving every line of a reservation does to the counts.
use system_design_ecommerce.Prelude.{subst, sym, ◌∙◌, ap, ℕ, ◌+◌, ◌≡◌, refl, List, [], ◌∷◌, arith}
use system_design_ecommerce.Errors.{>>=-eq-ok, internal, conflict, Error, wrapped, fault, ok}
use system_design_ecommerce.Sku.{Sku}
use system_design_ecommerce.Inventory.Domain.{insufficient_stock, Sentinel, StockItem, Line}
use system_design_ecommerce.Inventory.Domain.Lines.Canonical.{quantity_of}
use system_design_ecommerce.Inventory.Store.{Store, Answer, no_rows, db_error, returned}
use system_design_ecommerce.Inventory.Store.Stock.{
  to_available, from_available, to_reserved, from_reserved, Movement, reserves, releases, commits,
  Moved, statement, statement-Moved, counted,
}
use system_design_ecommerce.Inventory.Repository.{
  moved, Action, reserve, release_held, commit_held, moved_hold,
}
use system_design_ecommerce.Inventory.Service.{move_lines}

-- The repository's method for a movement.
abbrev pub move : Movement → Sku → ℕ → Action (Unit {0})
move reserves = reserve
move releases = release_held
move commits = commit_held

moved-ok :
    (e : Error Sentinel) (sku : Sku) (a : Answer StockItem) (s s' : Store) {u : Unit {0}}
    → moved e sku a s ≡ ok (u, s')
    → (row : StockItem) × (a ≡ returned row s')
unfolding moved
moved-ok e sku no_rows s s' h = cc
moved-ok e sku db_error s s' h = cc
moved-ok e sku (returned row t) s s' h = (row, ap (returned row) (ground arith))

-- The error of a movement that the counts refuse.
abbrev pub refusal : Movement → Error Sentinel
refusal reserves = wrapped insufficient_stock conflict "OUT_OF_STOCK"
refusal _ = fault internal "STOCK_INCONSISTENT"

move-moved :
    (m : Movement) (sku : Sku) (q : ℕ) (s : Store)
    → move m sku q s ≡ moved (refusal m) sku (statement m sku q s) s
unfolding reserve release_held commit_held moved_hold
move-moved reserves sku q s = refl
move-moved releases sku q s = refl
move-moved commits sku q s = refl

pub move-Moved :
    (m : Movement) (sku : Sku) (q : ℕ) (s s' : Store) {u : Unit {0}}
    → move m sku q s ≡ ok (u, s')
    → Moved m (counted sku q) s s'
move-Moved m sku q s s' h =
    let (row, e) =
      moved-ok (refusal m) sku (statement m sku q s) s s' (sym (move-moved m sku q s) ∙ h) in
    statement-Moved m sku q s s' e

-- One movement after another.
Moved-trans :
    (m : Movement) (f g : Sku → ℕ) {s t u : Store}
    → Moved m f s t
    → Moved m g t u
    → Moved m (λ k. f k + g k) s u
Moved-trans m f g a b = record {
  same_holds = b.same_holds ∙ a.same_holds;
  same_clock = b.same_clock ∙ a.same_clock;
  reserved = λ k. add_reserved m (f k) (g k) _ _ _ (a.reserved k) (b.reserved k);
  available = λ k. add_available m (f k) (g k) _ _ _ (a.available k) (b.available k);
  unique = λ h. b.unique (a.unique h);
}
  where
    add_reserved :
        (n : Movement) (x y p q r : ℕ)
        → q + from_reserved n x ≡ p + to_reserved n x
        → r + from_reserved n y ≡ q + to_reserved n y
        → r + from_reserved n (x + y) ≡ p + to_reserved n (x + y)
    add_reserved reserves x y p q r h k = omega arith
    add_reserved releases x y p q r h k = omega arith
    add_reserved commits x y p q r h k = omega arith

    add_available :
        (n : Movement) (x y p q r : ℕ)
        → q + from_available n x ≡ p + to_available n x
        → r + from_available n y ≡ q + to_available n y
        → r + from_available n (x + y) ≡ p + to_available n (x + y)
    add_available reserves x y p q r h k = omega arith
    add_available releases x y p q r h k = omega arith
    add_available commits x y p q r h k = omega arith

nothing-Moved : (m : Movement) (s : Store) → Moved m (λ k. 0) s s
nothing-Moved reserves s = record {
  same_holds = refl;
  same_clock = refl;
  reserved = λ k. refl;
  available = λ k. refl;
  unique = λ h. h;
}
nothing-Moved releases s = record {
  same_holds = refl;
  same_clock = refl;
  reserved = λ k. refl;
  available = λ k. refl;
  unique = λ h. h;
}
nothing-Moved commits s = record {
  same_holds = refl;
  same_clock = refl;
  reserved = λ k. refl;
  available = λ k. refl;
  unique = λ h. h;
}

-- Where every movement of some lines succeeds, each SKU's counts have moved by what the lines ask for
-- of it in all, whether they reserve, release or commit, and no reservation has changed.
pub move_lines-Moved :
    (m : Movement) (ls : List Line) (s s' : Store) {u : Unit {0}}
    → move_lines (move m) ls s ≡ ok (u, s')
    → Moved m (λ k. quantity_of k ls) s s'
unfolding move_lines
move_lines-Moved m [] s s' h = subst (Moved m (λ k. 0) s) (ground arith) (nothing-Moved m s)
move_lines-Moved m (l ∷ ls) s s' {u} h =
    let ((v, t), first, rest) =
      >>=-eq-ok (move m l.sku l.quantity s) (λ (_, x). move_lines (move m) ls x) h in
    Moved-trans m (counted l.sku l.quantity) (λ k. quantity_of k ls)
      (move-Moved m l.sku l.quantity s t first) (move_lines-Moved m ls t s' rest)
