-- ===== src/Inventory/Store/Holds.antt =====
-- What the statements on reservations do to the holds.
use system_design_ecommerce.Table.Keys.{select_one-update_one_ne}
use system_design_ecommerce.Prelude.{
  ◌++◌, &&-both, ap, ◌∙◌, ◌==◌, ◌&&◌, some, none, if◌then◌else◌, ℕ, ◌+◌, ◌≤◌, ◌≡◌, refl, Bool, true,
  false, List, [], ◌∷◌, arith, All,
}
use mathlib.Core.Logic.{∥∥₁_elim}
use mathlib.Core.Path.{subst₂}
use mathlib.Core.List.{Perm, Permᴰ}
use native.Mathlib.Nat.{ℕ_set}
use system_design_ecommerce.Text.{Text, text_eq}
use system_design_ecommerce.Sku.{Sku}
use system_design_ecommerce.Table.Laws.{
  All-snoc, select_one-Absent, UniqueKeys-snoc, total-append, All-select_one, All-update_one,
  UniqueKeys-update_one, total-update_one, select_one-holds, total, UniqueKeys,
}
use system_design_ecommerce.Inventory.Domain.{committed, Status, Line, Reservation, is_held}
use system_design_ecommerce.Inventory.Domain.Lines.Canonical.{quantity_of}
use system_design_ecommerce.Inventory.Store.{
  insert_reservation, is_some, lines_fit, inserted, update_one, Option, returned, write_status,
  select_one, update_reservation_status, Store,
}
use system_design_ecommerce.Inventory.Store.Stock.{available_of, reserved_of}

-- How many units of a SKU a reservation holds, and how many all of them hold.
abbrev pub holds : Sku → Reservation → ℕ
holds k r = if is_held r.status then quantity_of k r.lines else 0

abbrev pub held_of : Sku → List Reservation → ℕ
held_of k = total (holds k)

abbrev pub is_committed : Status → Bool
is_committed committed = true
is_committed _ = false

-- How many units of a SKU a reservation has sold, and how many all of them have.
abbrev pub sales : Sku → Reservation → ℕ
sales k r = if is_committed r.status then quantity_of k r.lines else 0

abbrev pub sold_of : Sku → List Reservation → ℕ
sold_of k = total (sales k)

-- Every unit of a SKU that was ever received: for sale, held, or sold.
abbrev pub ledger : Sku → Store → ℕ
ledger k s = available_of k s.stock + reserved_of k s.stock + sold_of k s.reservations

-- A row of reservations as the service writes it: its lines ask for something, and it is at its
-- first version for as long as it is held.
pub record IsRow (r : Reservation) : Type 0 where
  pub positive : All (λ (l : Line). 1 ≤ l.quantity) r.lines
  pub first_version : is_held r.status ≡ true → r.version ≡ 1

-- The counts and the holds agree: of every SKU, what the counts say is reserved is what the held
-- reservations hold.
pub record IsConsistent (s : Store) : Type 0 where
  pub accounted : (k : Sku) → reserved_of k s.stock ≡ held_of k s.reservations
  pub unique_skus : UniqueKeys (λ r. r.sku) s.stock
  pub unique_ids : UniqueKeys (λ r. r.id) s.reservations
  pub rows : All IsRow s.reservations

-- What a call that receives and writes off nothing leaves: counts and holds that agree, and of
-- every SKU as many units as before.
pub record Keeps (s s' : Store) : Type 0 where
  pub consistent : IsConsistent s'
  pub conserved : (k : Sku) → ledger k s' ≡ ledger k s

pub nothing-Keeps : {s : Store} → IsConsistent s → Keeps s s
nothing-Keeps c = record { consistent = c; conserved = λ k. refl }

pub Keeps-trans : {s t u : Store} → Keeps s t → Keeps t u → Keeps s u
Keeps-trans a b = record {
  consistent = b.consistent;
  conserved = λ k. b.conserved k ∙ a.conserved k;
}

-- What a line counts for a SKU.
abbrev share : Sku → Line → ℕ
share k l = if text_eq l.sku k then l.quantity else 0

quantity_of-Permᴰ :
    (k : Sku) {xs ys : List Line} → Permᴰ xs ys → quantity_of k xs ≡ quantity_of k ys
quantity_of-Permᴰ k Permᴰ.nil = refl
quantity_of-Permᴰ k (Permᴰ.cons e p) = omega (arith, ap (share k) e, quantity_of-Permᴰ k p)
quantity_of-Permᴰ k (Permᴰ.swap e f) = omega (arith, ap (share k) e, ap (share k) f)
quantity_of-Permᴰ k (Permᴰ.trans p q) = quantity_of-Permᴰ k p ∙ quantity_of-Permᴰ k q

quantity_of-Perm : (k : Sku) {xs ys : List Line} → Perm xs ys → quantity_of k xs ≡ quantity_of k ys
quantity_of-Perm k p = ∥∥₁_elim p (ℕ_set _ _) (quantity_of-Permᴰ k)

-- What a read of a hold gives, before its lines are ordered: a row that meets the condition.
module _ (order_by_sku : List Line → List Line)
    (permutes : (ls : List Line) → Perm (order_by_sku ls) ls) where
  pub quantity_of-order :
      (k : Sku) (ls : List Line) → quantity_of k (order_by_sku ls) ≡ quantity_of k ls
  quantity_of-order k ls = quantity_of-Perm k (permutes ls)

-- UpdateReservationStatus, when it returned a row: which row it found, and what it stored.
pub record StatusWritten (id : Text) (status : Status) (version : ℕ) (s s' : Store)
    (row : Reservation) : Type 0 where
  pub before : Reservation
  pub found : select_one (λ r. text_eq r.id id && r.version == version) s.reservations ≡ some before
  pub named : text_eq before.id id ≡ true
  pub written :
      row ≡ record before { status = status; updated_at = s.clock; version = before.version + 1 }
  pub same_stock : s'.stock ≡ s.stock
  pub same_clock : s'.clock ≡ s.clock
  pub held_after :
      (k : Sku)
      → held_of k s'.reservations + holds k before ≡ held_of k s.reservations + holds k row
  pub sold_after :
      (k : Sku)
      → sold_of k s'.reservations + sales k before ≡ sold_of k s.reservations + sales k row
  pub others_after :
      (k : Text)
      → text_eq k id ≡ false
      → select_one (λ r. text_eq r.id k) s'.reservations
        ≡ select_one (λ r. text_eq r.id k) s.reservations
  pub unique_after : UniqueKeys (λ r. r.id) s.reservations → UniqueKeys (λ r. r.id) s'.reservations
  pub rows_after : is_held status ≡ false → All IsRow s.reservations → All IsRow s'.reservations

module _ (id : Text) (status : Status) (version : ℕ) (s s' : Store) {row : Reservation} where
  write_status-StatusWritten :
      (o : Option Reservation)
      → select_one (λ r. text_eq r.id id && r.version == version) s.reservations ≡ o
      → write_status id status version s o ≡ returned row s'
      → StatusWritten id status version s s' row
  unfolding write_status
  write_status-StatusWritten none e h = cc
  write_status-StatusWritten (some r) e h =
      let r' : Reservation = record r {
        status = status;
        updated_at = s.clock;
        version = r.version + 1;
      } in
      let t : Store = record s {
        reservations =
            update_one (λ x. text_eq x.id id && x.version == version) (λ _. r') s.reservations;
      } in
      let facts : (r' ≡ row) × (t ≡ s') = ground arith in
      let named =
        &&-both (text_eq r.id id) (r.version == version) (select_one-holds _ s.reservations e) in
      subst₂ (StatusWritten id status version s) facts.1 facts.0 (record {
        before = r;
        found = e;
        named = named.0;
        written = refl;
        same_stock = refl;
        same_clock = refl;
        held_after = λ k. total-update_one _ (holds k) r r' s.reservations e;
        sold_after = λ k. total-update_one _ (sales k) r r' s.reservations e;
        others_after = λ k ne.
            select_one-update_one_ne (λ (x : Reservation). x.id) _ id k r' s.reservations
              (λ x h. (&&-both (text_eq x.id id) (x.version == version) h).0) named.0 ne;
        unique_after =
            UniqueKeys-update_one (λ (x : Reservation). x.id) _ r r' s.reservations e refl;
        rows_after = λ over rows. All-update_one _ IsRow r' s.reservations rows (record {
          positive = (All-select_one _ IsRow s.reservations rows e).positive;
          first_version = λ h. cc;
        });
      })

  pub update_reservation_status-StatusWritten :
      update_reservation_status id status version s ≡ returned row s'
      → StatusWritten id status version s s' row
  unfolding update_reservation_status
  update_reservation_status-StatusWritten h =
      write_status-StatusWritten
        (select_one (λ r. text_eq r.id id && r.version == version) s.reservations) refl h

lines_fit-positive : (ls : List Line) → lines_fit ls ≡ true → All (λ (l : Line). 1 ≤ l.quantity) ls
unfolding lines_fit
lines_fit-positive [] h = tt
lines_fit-positive (l ∷ ls) h = ground (arith, lines_fit-positive ls)

-- The INSERTs of a reservation, when they went through: what stands in the tables afterwards.
pub record Inserted (r : Reservation) (s s' : Store) (row : Reservation) : Type 0 where
  pub free :
      select_one (λ x. is_held x.status && text_eq x.order_id r.order_id) s.reservations ≡ none
  pub written : row ≡ record r { created_at = s.clock; updated_at = s.clock; version = 1 }
  pub same_stock : s'.stock ≡ s.stock
  pub held_after : (k : Sku) → held_of k s'.reservations ≡ held_of k s.reservations + holds k row
  pub sold_after : (k : Sku) → sold_of k s'.reservations ≡ sold_of k s.reservations + sales k row
  pub unique_after : UniqueKeys (λ x. x.id) s.reservations → UniqueKeys (λ x. x.id) s'.reservations
  pub rows_after : All IsRow s.reservations → All IsRow s'.reservations

none_of-is_some {ℓ} : {A : Type ℓ} (o : Option A) → is_some o ≡ false → o ≡ none
none_of-is_some none h = refl
none_of-is_some (some a) h = cc

pub insert_reservation-Inserted :
    (r : Reservation) (s s' : Store) {row : Reservation}
    → insert_reservation r s ≡ inserted row s'
    → Inserted r s s' row
unfolding insert_reservation
insert_reservation-Inserted r s s' {row} h =
    let row' : Reservation = record r { created_at = s.clock; updated_at = s.clock; version = 1 } in
    let t : Store = record s { reservations = s.reservations ++ row' ∷ [] } in
    let facts : (is_some
            (select_one (λ x. is_held x.status && text_eq x.order_id r.order_id) s.reservations)
          ≡ false)
        × (is_some (select_one (λ x. text_eq x.id r.id) s.reservations) ≡ false)
        × (lines_fit r.lines ≡ true)
        × (row' ≡ row)
        × (t ≡ s') =
      ground arith in
    subst₂ (Inserted r s) facts.4 facts.3 (record {
      free = none_of-is_some _ facts.0;
      written = refl;
      same_stock = refl;
      held_after = λ k. omega (arith, total-append (holds k) s.reservations (row' ∷ []));
      sold_after = λ k. omega (arith, total-append (sales k) s.reservations (row' ∷ []));
      unique_after = λ u.
          UniqueKeys-snoc (λ (x : Reservation). x.id) s.reservations row' u
            (select_one-Absent (λ (x : Reservation). x.id) r.id s.reservations
              (none_of-is_some _ facts.1));
      rows_after = λ rows.
          All-snoc IsRow s.reservations rows
            (record { positive = lines_fit-positive r.lines facts.2; first_version = λ e. refl });
    })
