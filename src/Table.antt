-- ===== src/Table.antt =====
-- What the services' SQL does to a table: a SELECT of one row, and an UPDATE ... WHERE ...
-- RETURNING of one row. Each WHERE names a key that is unique, so at most one row fits, and the
-- first that fits is the one.
pub mod Laws
pub mod Keys
pub mod Sorted
use system_design_ecommerce.Prelude.{Bool, Option, none, some, List, [], ◌∷◌, if◌then◌else◌}

module _ {ℓ} {A : Type ℓ} where
  -- SELECT * ... WHERE p
  abbrev pub select_one : (A → Bool) → List A → Option A
  select_one p [] = none
  select_one p (r ∷ t) = if p r then some r else select_one p t

  -- The table after UPDATE ... SET f WHERE p. The row that RETURNING gives is f of the row that fits.
  abbrev pub update_one : (A → Bool) → (A → A) → List A → List A
  update_one p f [] = []
  update_one p f (r ∷ t) = if p r then f r ∷ t else r ∷ update_one p f t

  -- SELECT * ... WHERE p, all rows
  abbrev pub select_all : (A → Bool) → List A → List A
  select_all p [] = []
  select_all p (r ∷ t) = let rest = select_all p t in if p r then r ∷ rest else rest

-- ORDER BY, by a test of which of two rows comes first
unfoldable pub insert_by {ℓ} : {A : Type ℓ} → (A → A → Bool) → A → List A → List A
insert_by first r [] = r ∷ []
insert_by first r (x ∷ t) = if first r x then r ∷ x ∷ t else x ∷ insert_by first r t

unfoldable pub sort_by {ℓ} : {A : Type ℓ} → (A → A → Bool) → List A → List A
unfolding insert_by
sort_by first [] = []
sort_by first (r ∷ t) = insert_by first r (sort_by first t)
