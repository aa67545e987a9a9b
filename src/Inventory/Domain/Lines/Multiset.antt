-- ===== src/Inventory/Domain/Lines/Multiset.antt =====
-- Matches (reservation.go), on baskets that may be ordered and split in different ways.
use system_design_ecommerce.Inventory.Domain.Lines.{canonical_lines}
use system_design_ecommerce.Prelude.{
  ◌∙◌, ◌↔◌, sym, inr, subst, inl, ◌≤◌, Bool-cases, ◌≡◌, refl, true, false, List, [], ◌∷◌, All,
  arith,
}
use system_design_ecommerce.Text.{text_eq→eq, text_eq_sym, text_eq_left, text_eq_refl, text_eq}
use system_design_ecommerce.Text.Order.{text_trichotomy, text_ltb_irrefl, text_ltb}
use system_design_ecommerce.Sku.{Sku}
use system_design_ecommerce.Inventory.Domain.{ok, Reservation, lines_eq, matches, Line}
use system_design_ecommerce.Inventory.Domain.Lines.Canonical.{
  canonical_lines-IsCanonicalOf, above_trans, IsSorted, InRange, quantity_of,
}

ltb-ne : (k j : Sku) → text_ltb k j ≡ true → text_eq j k ≡ false
ltb-ne k j h = elim (Bool-cases (text_eq j k)) [
  | inl e ↦
      let lt : text_ltb k k ≡ true = subst (λ t. text_ltb k t ≡ true) (text_eq→eq j k e) h in
      cc (text_ltb_irrefl k)
  | inr e ↦ e
]

Fresh_of_above :
    (k : Sku) (m : List Line) → All (λ e. text_ltb k e.sku ≡ true) m → quantity_of k m ≡ 0
Fresh_of_above k [] a = refl
Fresh_of_above k (e ∷ m) a = ground (arith, ltb-ne k e.sku a.0, Fresh_of_above k m a.1)

quantity_of_below :
    (k : Sku) (y : Line) (ys : List Line)
    → text_ltb k y.sku ≡ true
    → IsSorted (y ∷ ys)
    → quantity_of k (y ∷ ys) ≡ 0
quantity_of_below k y ys h s = Fresh_of_above k (y ∷ ys) (h, above_trans k y.sku ys h s.0)

quantity_of_head : (y : Line) (ys : List Line) → y.quantity ≤ quantity_of y.sku (y ∷ ys)
quantity_of_head y ys = ground (arith, text_eq_refl y.sku)

abbrev SameTotals : List Line → List Line → Type 0
SameTotals xs ys = (k : Sku) → quantity_of k xs ≡ quantity_of k ys

-- Of two baskets with the same totals neither can begin with a SKU before the other's first.
not_before :
    (x y : Line) (xs ys : List Line)
    → InRange x
    → IsSorted (y ∷ ys)
    → quantity_of x.sku (x ∷ xs) ≡ quantity_of x.sku (y ∷ ys)
    → text_ltb x.sku y.sku ≡ true
    → ⊥
not_before x y xs ys r s t h =
    omega (arith, quantity_of_head x xs, quantity_of_below x.sku y ys h s)

same_head :
    (x y : Line) (xs ys : List Line)
    → InRange x
    → InRange y
    → IsSorted (x ∷ xs)
    → IsSorted (y ∷ ys)
    → SameTotals (x ∷ xs) (y ∷ ys)
    → text_eq x.sku y.sku ≡ true
same_head x y xs ys rx ry sx sy t = elim (Bool-cases (text_eq x.sku y.sku)) [
  | inl e ↦ e
  | inr e ↦ elim (Bool-cases (text_ltb x.sku y.sku)) [
    | inl b ↦ absurd (not_before x y xs ys rx sy (t x.sku) b)
    | inr b ↦ absurd (not_before y x ys xs ry sx (sym (t y.sku)) (text_trichotomy x.sku y.sku b e))
  ]
]

same_tail :
    (x y : Line) (xs ys : List Line)
    → IsSorted (x ∷ xs)
    → IsSorted (y ∷ ys)
    → SameTotals (x ∷ xs) (y ∷ ys)
    → text_eq x.sku y.sku ≡ true
    → (x.quantity ≡ y.quantity) × SameTotals xs ys
same_tail x y xs ys sx sy t e =
    let none_behind : quantity_of x.sku ys ≡ 0 =
      rw (text_eq→eq x.sku y.sku e) (Fresh_of_above y.sku ys sy.0) in
    let q : x.quantity ≡ y.quantity =
      ground (
        arith,
        t x.sku,
        text_eq_refl x.sku,
        text_eq_sym x.sku y.sku,
        Fresh_of_above x.sku xs sx.0,
      ) in
    (q, λ k. ground (arith, t k, text_eq_left x.sku y.sku k e))

canonical_unique :
    (xs ys : List Line)
    → IsSorted xs
    → IsSorted ys
    → All InRange xs
    → All InRange ys
    → SameTotals xs ys
    → lines_eq xs ys ≡ true
canonical_unique [] [] sx sy rx ry t = refl
canonical_unique [] (y ∷ ys) sx sy rx ry t =
    absurd (omega (arith, t y.sku, quantity_of_head y ys, ry.0))
canonical_unique (x ∷ xs) [] sx sy rx ry t =
    absurd (omega (arith, t x.sku, quantity_of_head x xs, rx.0))
canonical_unique (x ∷ xs) (y ∷ ys) sx sy rx ry t =
    let e = same_head x y xs ys rx.0 ry.0 sx sy t in
    let (q, rest) = same_tail x y xs ys sx sy t e in
    ground (arith, canonical_unique xs ys sx.1 sy.1 rx.1 ry.1 rest)

lines_eq-SameTotals : (xs ys : List Line) → lines_eq xs ys ≡ true → SameTotals xs ys
lines_eq-SameTotals [] [] h k = refl
lines_eq-SameTotals [] (y ∷ ys) h k = cc
lines_eq-SameTotals (x ∷ xs) [] h k = cc
lines_eq-SameTotals (x ∷ xs) (y ∷ ys) h k =
    let tail : lines_eq xs ys ≡ true = ground arith in
    ground (arith, text_eq_left x.sku y.sku k, lines_eq-SameTotals xs ys tail k)

-- A reservation that was taken for the basket `xs` matches the canonical lines of the basket `ys`
-- exactly when the two baskets ask for the same quantity of every SKU, however their lines are
-- ordered and split.
pub matches_iff :
    (r : Reservation) (xs ys : List Line) {canonical : List Line}
    → canonical_lines xs ≡ ok r.lines
    → canonical_lines ys ≡ ok canonical
    → (matches r canonical ≡ true) ↔ ((k : Sku) → quantity_of k xs ≡ quantity_of k ys)
unfolding matches
matches_iff r xs ys {canonical} hx hy =
    let cx = canonical_lines-IsCanonicalOf xs hx in
    let cy = canonical_lines-IsCanonicalOf ys hy in
    (
      λ m k. sym (cx.total k) ∙ lines_eq-SameTotals r.lines canonical m k ∙ cy.total k,
      λ t.
          canonical_unique r.lines canonical cx.sorted cy.sorted cx.ranges cy.ranges
            (λ k. cx.total k ∙ t k ∙ sym (cy.total k)),
    )
