-- ===== src/Outbox/Batches.antt =====
-- Rows of pkg/outbox counted by a test, and a batch of them.
use system_design_ecommerce.Table.{sort_by, insert_by}
use system_design_ecommerce.Table.{insert_by}
use system_design_ecommerce.Prelude.{
  ◌||◌, ==_iff, Bool-cases, ◌==◌, ◌&&◌, if◌then◌else◌, ◌+◌, suc, zero, refl, inr, inl, ◌∷◌, [], ℕ,
  ◌≡◌, ◌≤◌, Bool, true, false, All, arith,
}
use system_design_ecommerce.Table.Laws.{total}
use system_design_ecommerce.Outbox.{
  length, select_all, take, List, sort_by, Row, is_in, is_waiting, ids_of,
}

-- How many rows wait to be published.
abbrev pub backlog : List Row → ℕ
backlog rows = total (λ r. if is_waiting r then 1 else 0) rows

-- Whether a row has the identifier and passes a test.
abbrev pub named : (Row → Bool) → ℕ → Row → ℕ
named q j r = if r.id == j && q r then 1 else 0

-- No two rows have one identifier.
abbrev pub IsUnique : List Row → Type 0
IsUnique rows = (j : ℕ) → total (named (λ r. true) j) rows ≤ 1

total-insert_by :
    (first : Row → Row → Bool) (w : Row → ℕ) (r : Row) (t : List Row)
    → total w (insert_by first r t) ≡ w r + total w t
unfolding insert_by
total-insert_by first w r [] = refl
total-insert_by first w r (x ∷ t) = elim (Bool-cases (first r x)) [
  | inl y ↦ rw y refl
  | inr n ↦ rw n (omega (arith, total-insert_by first w r t))
]

pub total-sort_by :
    (first : Row → Row → Bool) (w : Row → ℕ) (t : List Row) → total w (sort_by first t) ≡ total w t
unfolding sort_by
total-sort_by first w [] = refl
total-sort_by first w (r ∷ t) =
    omega (arith, total-insert_by first w r (sort_by first t), total-sort_by first w t)

pub total-take : (w : Row → ℕ) (n : ℕ) (t : List Row) → total w (take n t) ≤ total w t
total-take w zero t = omega arith
total-take w (suc n) [] = omega arith
total-take w (suc n) (r ∷ t) = omega (arith, total-take w n t)

pub total-select_all :
    (p : Row → Bool) (w : Row → ℕ) (t : List Row) → total w (select_all p t) ≤ total w t
total-select_all p w [] = omega arith
total-select_all p w (r ∷ t) = elim (Bool-cases (p r)) [
  | inl y ↦ rw y (omega (arith, total-select_all p w t))
  | inr n ↦ rw n (omega (arith, total-select_all p w t))
]

pub length-select_all :
    (p : Row → Bool) (t : List Row) → length (select_all p t) ≡ total (λ r. if p r then 1 else 0) t
length-select_all p [] = refl
length-select_all p (r ∷ t) = elim (Bool-cases (p r)) [
  | inl y ↦ rw y (omega (arith, length-select_all p t))
  | inr n ↦ rw n (omega (arith, length-select_all p t))
]

pub length-total : (t : List Row) → length t ≡ total (λ r. 1) t
length-total [] = refl
length-total (r ∷ t) = omega (arith, length-total t)

-- An identifier of a batch is that of one of its rows.
is_in_counts :
    (q : Row → Bool) (j : ℕ) (t : List Row)
    → All (λ r. q r ≡ true) t
    → is_in j (ids_of t) ≡ true
    → 1 ≤ total (named q j) t
is_in_counts q j [] a h = absurd (ground arith)
is_in_counts q j (r ∷ t) a h = elim (Bool-cases (r.id == j)) [
  | inl y ↦ rw y (rw a.0 (omega arith))
  | inr n ↦ omega (arith, is_in_counts q j t a.1 (rw n at h))
]

only_right :
    (b q : Bool)
    → (if (false || b) && q then 1 else 0)
      ≡ (if false && q then 1 else 0) + (if b && q then 1 else 0)
only_right true true = refl
only_right true false = refl
only_right false true = refl
only_right false false = refl

weight_split :
    (q : Bool) (k j : ℕ) (js : List ℕ)
    → is_in j js ≡ false
    → (if is_in k (j ∷ js) && q then 1 else 0)
      ≡ (if k == j && q then 1 else 0) + (if is_in k js && q then 1 else 0)
weight_split q k j js h = elim (Bool-cases (k == j)) [
  | inl y ↦
      let e : k ≡ j = (==_iff k j).0 y in rw e (rw h (rw ((==_iff j j).1 refl) (ground arith)))
  | inr n ↦ elim (Bool-cases (j == k)) [
    | inl y ↦ absurd (ground (arith, n, (==_iff j k).0 y))
    | inr m ↦ rw n (rw m (only_right (is_in k js) q))
  ]
]

-- A count by a list of identifiers, one after another.
counts_by :
    (q : Row → Bool) (j : ℕ) (js : List ℕ) (rows : List Row)
    → is_in j js ≡ false
    → total (λ r. if is_in r.id (j ∷ js) && q r then 1 else 0) rows
      ≡ total (named q j) rows + total (λ r. if is_in r.id js && q r then 1 else 0) rows
counts_by q j js [] h = refl
counts_by q j js (r ∷ rows) h =
    omega (arith, weight_split (q r) r.id j js h, counts_by q j js rows h)

nothing_named :
    (q : Row → Bool) (rows : List Row) → total (λ r. if false && q r then 1 else 0) rows ≡ 0
nothing_named q [] = refl
nothing_named q (r ∷ rows) = omega (arith, nothing_named q rows)

self_named : (q : Row → Bool) (r : Row) → q r ≡ true → named q r.id r ≡ 1
self_named q r h = rw h (rw ((==_iff r.id r.id).1 refl) refl)

-- Each row of a batch is one row of the table.
pub total-batch :
    (q : Row → Bool) (rows t : List Row)
    → ((j : ℕ) → total (named q j) rows ≤ 1)
    → ((j : ℕ) → total (named q j) t ≤ total (named q j) rows)
    → All (λ r. q r ≡ true) t
    → total (λ r. if is_in r.id (ids_of t) && q r then 1 else 0) rows ≡ length t
total-batch q rows [] unique within a = nothing_named q rows
total-batch q rows (x ∷ t) unique within a =
    let first : named q x.id x ≡ 1 = self_named q x a.0 in
    let apart : is_in x.id (ids_of t) ≡ false = elim (Bool-cases (is_in x.id (ids_of t))) [
      | inl y ↦ absurd (omega (arith, is_in_counts q x.id t a.1 y, within x.id, unique x.id, first))
      | inr n ↦ n
    ] in
    omega (
      arith,
      counts_by q x.id (ids_of t) rows apart,
      within x.id,
      unique x.id,
      first,
      total-batch q rows t unique (λ j. less j) a.1,
    )
  where
    less : (j : ℕ) → total (named q j) t ≤ total (named q j) rows
    less j = omega (arith, within j)
