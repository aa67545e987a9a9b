-- ===== src/Inventory/Service/Runs.antt =====
-- Any sequence of calls, from any consistent rows.
use mathlib.Core.List.{Perm}
use system_design_ecommerce.Prelude.{◌≡◌, refl, ◌∙◌, Bool, true, List, [], ◌∷◌, All}
use system_design_ecommerce.Prelude.Int.{ℤ}
use system_design_ecommerce.Text.{Text}
use system_design_ecommerce.Sku.{Sku}
use system_design_ecommerce.Inventory.Domain.{zero_time, Line}
use system_design_ecommerce.Inventory.Store.{Store}
use system_design_ecommerce.Inventory.Store.Holds.{IsConsistent, Keeps, ledger}
use system_design_ecommerce.Inventory.Service.Calls.{
  Call, is_movement, after, run, after-Keeps, after-IsConsistent,
}

-- The tables before anything was written.
abbrev pub empty : Store
empty = record { stock = []; reservations = []; clock = zero_time }

pub empty-IsConsistent : IsConsistent empty
empty-IsConsistent = record { accounted = λ k. refl; unique_skus = tt; unique_ids = tt; rows = tt }

at_clock : (now : ℤ) (s : Store) → IsConsistent s → IsConsistent (record s { clock = now })
at_clock now s c = record {
  accounted = c.accounted;
  unique_skus = c.unique_skus;
  unique_ids = c.unique_ids;
  rows = c.rows;
}

at_clock-Keeps : (now : ℤ) (s : Store) → IsConsistent s → Keeps s (record s { clock = now })
at_clock-Keeps now s c = record { consistent = at_clock now s c; conserved = λ k. refl }

module _ (order_by_sku : List Line → List Line)
    (permutes : (ls : List Line) → Perm (order_by_sku ls) ls) (valid_uuid : Text → Bool) where
  -- From rows where the counts and the holds agree, any calls at any times, whatever they answer
  -- and however their transactions end, lead to rows where the counts and the holds agree: of every
  -- SKU, as many units are reserved as the held reservations hold. The collation of ORDER BY sku
  -- may be any that lists the same lines.
  pub run-IsConsistent :
      (cs : List (ℤ × Call)) (s : Store)
      → IsConsistent s
      → IsConsistent (run order_by_sku valid_uuid cs s)
  unfolding run
  run-IsConsistent [] s c = c
  run-IsConsistent ((now, call) ∷ cs) s c =
      run-IsConsistent cs (after order_by_sku valid_uuid call (record s { clock = now })) (
        after-IsConsistent order_by_sku permutes valid_uuid call (record s { clock = now })
          (at_clock now s c))

  -- From rows where the counts and the holds agree, any calls that reserve, commit, release and
  -- expire leave, of every SKU, as many units as there were: those for sale, those reserved and
  -- those that committed reservations sold add up to the same.
  pub run-conserves :
      (cs : List (ℤ × Call)) (s : Store)
      → IsConsistent s
      → All (λ (c : ℤ × Call). is_movement c.1 ≡ true) cs
      → (k : Sku) → ledger k (run order_by_sku valid_uuid cs s) ≡ ledger k s
  unfolding run
  run-conserves [] s c m k = refl
  run-conserves ((now, call) ∷ cs) s c m k =
      let ticked = at_clock now s c in
      let one =
        after-Keeps order_by_sku permutes valid_uuid call (record s { clock = now }) m.0 ticked in
      run-conserves cs (after order_by_sku valid_uuid call (record s { clock = now }))
        one.consistent m.1 k
      ∙ one.conserved k
