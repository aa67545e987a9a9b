-- ===== src/Inventory/Domain/Lines/Canonical.antt =====
-- canonicalLines (reservation.go): the order, the bounds and the sums of the lines that it returns.
use system_design_ecommerce.Prelude.Int.{◌≤ℤ◌}
use system_design_ecommerce.Prelude.{
  sym, ℕ, ◌+◌, ◌≤◌, ◌≡◌, refl, true, false, List, [], ◌∷◌, All, arith, if◌then◌else◌, Bool-cases,
  subst, inl, inr,
}
use system_design_ecommerce.Errors.{ok, >>=-eq-ok, ok-injective, ◌>>=◌}
use system_design_ecommerce.Text.{text_eq→eq, text_eq, text_eq_sym, text_eq_left, text_eq_join}
use system_design_ecommerce.Text.Order.{text_trichotomy, text_ltb, text_ltb_trans}
use system_design_ecommerce.Sku.{Sku}
use system_design_ecommerce.Inventory.Domain.{pos, Reservation, ℤ, Text, Line}
use system_design_ecommerce.Inventory.Domain.Lines.{
  ◌+ℤ◌, held_reservation, new_reservation, canonical_lines, summed, add_line, sum_lines,
  insert_line, sort_lines, line_quantity_max,
}

-- How many of one SKU some lines ask for, over all of them.
abbrev pub quantity_of : Sku → List Line → ℕ
quantity_of k [] = 0
quantity_of k (l ∷ ls) = (if text_eq l.sku k then l.quantity else 0) + quantity_of k ls

-- No line names the SKU.
abbrev pub Fresh : Sku → List Line → Type 0
Fresh k = All (λ l. text_eq l.sku k ≡ false)

-- No SKU is named twice.
abbrev pub IsDistinct : List Line → Type 0
IsDistinct [] = Unit
IsDistinct (l ∷ ls) = Fresh l.sku ls × IsDistinct ls

-- Every SKU comes before those behind it.
abbrev pub IsSorted : List Line → Type 0
IsSorted [] = Unit
IsSorted (l ∷ ls) = All (λ e. text_ltb l.sku e.sku ≡ true) ls × IsSorted ls

-- A quantity that a line of a reservation may have.
abbrev pub InRange : Line → Type 0
InRange l = (1 ≤ l.quantity) × (l.quantity ≤ 10000)

summed-add_line :
    (k : Sku) (l : Line) (m : List Line)
    → summed k (add_line l m) ≡ summed k m + (if text_eq l.sku k then l.quantity else 0)
unfolding summed add_line
summed-add_line k l [] = ground arith
summed-add_line k l (e ∷ m) =
    ground (arith, summed-add_line k l m, text_eq_left e.sku l.sku k, text_eq_join e.sku l.sku k)

Fresh-add_line :
    (k : Sku) (l : Line) (m : List Line)
    → text_eq l.sku k ≡ false
    → Fresh k m
    → Fresh k (add_line l m)
unfolding add_line
Fresh-add_line k l [] h f = (h, tt)
Fresh-add_line k l (e ∷ m) h f = ground (arith, Fresh-add_line k l m h f.1)

add_line-IsDistinct : (l : Line) (m : List Line) → IsDistinct m → IsDistinct (add_line l m)
unfolding add_line
add_line-IsDistinct l [] d = (tt, tt)
add_line-IsDistinct l (e ∷ m) d =
    ground (arith, add_line-IsDistinct l m d.1, Fresh-add_line e.sku l m, text_eq_sym e.sku l.sku)

add_line-InRange :
    (l : Line) (m : List Line)
    → 1 ≤ l.quantity
    → summed l.sku m + l.quantity ≤ line_quantity_max
    → All InRange m
    → All InRange (add_line l m)
unfolding add_line summed
add_line-InRange l [] p b r = ground arith
add_line-InRange l (e ∷ m) p b r = ground (arith, add_line-InRange l m p)

-- What the loop keeps, from any map on.
record Sums (ls m m' : List Line) : Type 0 where
  distinct : IsDistinct m'
  ranges : All InRange m'
  total : (k : Sku) → summed k m' ≡ summed k m + quantity_of k ls

sum_lines-Sums :
    (ls m : List Line) {m' : List Line}
    → IsDistinct m
    → All InRange m
    → sum_lines ls m ≡ ok m'
    → Sums ls m m'
unfolding sum_lines
sum_lines-Sums [] m {m'} d r h =
    subst (Sums [] m) (ok-injective h)
      (record { distinct = d; ranges = r; total = λ k. omega arith })
sum_lines-Sums (l ∷ ls) m {m'} d r h =
    let facts : (1 ≤ l.quantity)
        × (summed l.sku m + l.quantity ≤ line_quantity_max)
        × (sum_lines ls (add_line l m) ≡ ok m') =
      ground arith in
    let rest : Sums ls (add_line l m) m' =
      sum_lines-Sums ls (add_line l m) (add_line-IsDistinct l m d)
        (add_line-InRange l m facts.0 facts.1 r) facts.2 in
    record {
      distinct = rest.distinct;
      ranges = rest.ranges;
      total = λ k. omega (arith, rest.total k, summed-add_line k l m);
    }

summed_of_Fresh : (k : Sku) (m : List Line) → Fresh k m → quantity_of k m ≡ 0
summed_of_Fresh k [] f = refl
summed_of_Fresh k (e ∷ m) f = ground (arith, summed_of_Fresh k m f.1)

quantity_of-eq-summed : (k : Sku) (m : List Line) → IsDistinct m → quantity_of k m ≡ summed k m
unfolding summed
quantity_of-eq-summed k [] d = refl
quantity_of-eq-summed k (e ∷ m) d =
    ground (arith, quantity_of-eq-summed k m d.1, summed_of_Fresh e.sku m d.0, text_eq→eq e.sku k)

quantity_of-insert_line :
    (k : Sku) (l : Line) (m : List Line) → quantity_of k (insert_line l m) ≡ quantity_of k (l ∷ m)
unfolding insert_line
quantity_of-insert_line k l [] = refl
quantity_of-insert_line k l (e ∷ m) = ground (arith, quantity_of-insert_line k l m)

quantity_of-sort_lines : (k : Sku) (m : List Line) → quantity_of k (sort_lines m) ≡ quantity_of k m
unfolding sort_lines
quantity_of-sort_lines k [] = refl
quantity_of-sort_lines k (l ∷ m) =
    ground (arith, quantity_of-insert_line k l (sort_lines m), quantity_of-sort_lines k m)

All-insert_line {ℓ} :
    (P : Line → Type ℓ) (l : Line) (m : List Line) → P l → All P m → All P (insert_line l m)
unfolding insert_line
All-insert_line P l [] p h = (p, tt)
All-insert_line P l (e ∷ m) p h = elim (Bool-cases (text_ltb l.sku e.sku)) [
  | inl b ↦ rw b (p, h)
  | inr b ↦ rw b (h.0, All-insert_line P l m p h.1)
]

All-sort_lines {ℓ} : (P : Line → Type ℓ) (m : List Line) → All P m → All P (sort_lines m)
unfolding sort_lines
All-sort_lines P [] h = tt
All-sort_lines P (l ∷ m) h = All-insert_line P l (sort_lines m) h.0 (All-sort_lines P m h.1)

pub above_trans :
    (k j : Sku) (m : List Line)
    → text_ltb k j ≡ true
    → All (λ e. text_ltb j e.sku ≡ true) m
    → All (λ e. text_ltb k e.sku ≡ true) m
above_trans k j [] h a = tt
above_trans k j (e ∷ m) h a = (text_ltb_trans k j e.sku h a.0, above_trans k j m h a.1)

insert_line-IsSorted :
    (l : Line) (m : List Line) → Fresh l.sku m → IsSorted m → IsSorted (insert_line l m)
unfolding insert_line
insert_line-IsSorted l [] f s = (tt, tt)
insert_line-IsSorted l (e ∷ m) f s = elim (Bool-cases (text_ltb l.sku e.sku)) [
  | inl b ↦ rw b ((b, above_trans l.sku e.sku m b s.0), s)
  | inr b ↦ rw b (
    All-insert_line (λ x. text_ltb e.sku x.sku ≡ true) l m
        (text_trichotomy l.sku e.sku b (rw (text_eq_sym l.sku e.sku) f.0)) s.0,
    insert_line-IsSorted l m f.1 s.1,
  )
]

sort_lines-IsSorted : (m : List Line) → IsDistinct m → IsSorted (sort_lines m)
unfolding sort_lines
sort_lines-IsSorted [] d = tt
sort_lines-IsSorted (l ∷ m) d =
    insert_line-IsSorted l (sort_lines m) (All-sort_lines _ m d.0) (sort_lines-IsSorted m d.1)

-- What canonicalLines returns is sorted strictly by SKU (so no SKU comes twice), every quantity is
-- between 1 and 10,000, and each SKU has the quantity that the lines given ask for in all.
pub record IsCanonicalOf (ls canonical : List Line) : Type 0 where
  pub sorted : IsSorted canonical
  pub ranges : All InRange canonical
  pub total : (k : Sku) → quantity_of k canonical ≡ quantity_of k ls

IsCanonicalOf-Sums : (ls m : List Line) → Sums ls [] m → IsCanonicalOf ls (sort_lines m)
unfolding summed
IsCanonicalOf-Sums ls m s = record {
  sorted = sort_lines-IsSorted m s.distinct;
  ranges = All-sort_lines InRange m s.ranges;
  total = λ k.
      omega (arith, quantity_of-sort_lines k m, quantity_of-eq-summed k m s.distinct, s.total k);
}

-- The lines that canonicalLines returns are strictly sorted by SKU, each asks for 1 to 10,000, and
-- of every SKU they ask for as many in all as the lines given.
pub canonical_lines-IsCanonicalOf :
    (ls : List Line) {canonical : List Line}
    → canonical_lines ls ≡ ok canonical
    → IsCanonicalOf ls canonical
unfolding canonical_lines
canonical_lines-IsCanonicalOf [] h = cc
canonical_lines-IsCanonicalOf (l ∷ ls) {canonical} h =
    let facts : sum_lines (l ∷ ls) [] >>= (λ m. ok (sort_lines m)) ≡ ok canonical = ground arith in
    let (m, e, f) = >>=-eq-ok (sum_lines (l ∷ ls) []) (λ m. ok (sort_lines m)) facts in
    subst (IsCanonicalOf (l ∷ ls)) (ok-injective f)
      (IsCanonicalOf-Sums (l ∷ ls) m (sum_lines-Sums (l ∷ ls) [] tt tt e))

-- What NewReservation builds, where it builds one: a hold of the canonical lines, which has time.
pub new_reservation-ok :
    (id order_id : Text) (ls : List Line) (now ttl : ℤ) {r : Reservation}
    → new_reservation id order_id ls now ttl ≡ ok r
    → (canonical : List Line) × (canonical_lines ls ≡ ok canonical)
      × (r ≡ held_reservation id order_id canonical (now +ℤ ttl))
      × ¬ (ttl ≤ℤ pos 0)
unfolding new_reservation
new_reservation-ok id order_id ls now ttl {r} h =
    let facts : (canonical_lines ls >>= (λ c. ok (held_reservation id order_id c (now +ℤ ttl)))
          ≡ ok r)
        × ¬ (ttl ≤ℤ pos 0) =
      ground arith in
    let (c, e, f) =
      >>=-eq-ok (canonical_lines ls) (λ c. ok (held_reservation id order_id c (now +ℤ ttl)))
        facts.0 in
    (c, e, sym (ok-injective f), facts.1)
