-- ===== src/Outbox/Drained.antt =====
-- The backlog of pkg/outbox/relay.go, over cycles that succeed.
use system_design_ecommerce.Outbox.Batches.{
  total-select_all, total-batch, total-sort_by, total-take, named, length-select_all, length-total,
  backlog, IsUnique,
}
use system_design_ecommerce.Table.Sorted.{All-sort_by}
use Prim.Native.Nat.{min}
use system_design_ecommerce.Table.{sort_by}
use system_design_ecommerce.Prelude.{
  ◌*◌, length-map, sym, ap, length-take, &&-both, ◌∙◌, ==_iff, Bool-cases, ◌==◌, ◌&&◌,
  if◌then◌else◌, ◌+◌, suc, zero, refl, inr, inl, ◌∷◌, [], ℕ, ◌≡◌, ◌≤◌, Bool, true, false, some, All,
  arith,
}
use system_design_ecommerce.Table.Laws.{total}
use system_design_ecommerce.Tx.{commits}
use system_design_ecommerce.Outbox.{
  map, leb, ℤ, length, select_all, take, List, sort_by, Relayed, Row, is_in, is_waiting, mark,
  claim, ids_of, publish_batch, delivers, mark_published, after_publish, marked, after_claim,
}

-- Among rows of distinct identifiers, a batch that was claimed: its rows wait, they are rows of the
-- table, and there are as many as wait, up to the limit.
claimed-within :
    (q : Row → Bool) (limit : ℕ) (rows : List Row) (j : ℕ)
    → total (named q j) (claim (λ id. false) limit rows) ≤ total (named q j) rows
unfolding claim
claimed-within q limit rows j = omega (
  arith,
  total-take (named q j) limit
      (sort_by (λ r x. leb r.id x.id) (select_all (λ r. is_waiting r && true) rows)),
  total-sort_by (λ r x. leb r.id x.id) (named q j) (select_all (λ r. is_waiting r && true) rows),
  total-select_all (λ r. is_waiting r && true) (named q j) rows,
)

All-waiting :
    (rows : List Row) → All (λ r. is_waiting r ≡ true) (select_all (λ r. is_waiting r && true) rows)
All-waiting [] = tt
All-waiting (r ∷ rows) = elim (Bool-cases (is_waiting r && true)) [
  | inl y ↦ rw y ((&&-both (is_waiting r) true y).0, All-waiting rows)
  | inr n ↦ rw n (All-waiting rows)
]

All-taken :
    (n : ℕ) (rows : List Row)
    → All (λ r. is_waiting r ≡ true) rows
    → All (λ r. is_waiting r ≡ true) (take n rows)
All-taken zero rows a = tt
All-taken (suc n) [] a = tt
All-taken (suc n) (r ∷ rows) a = (a.0, All-taken n rows a.1)

claimed-waiting :
    (limit : ℕ) (rows : List Row) → All (λ r. is_waiting r ≡ true) (claim (λ id. false) limit rows)
unfolding claim
claimed-waiting limit rows =
    All-taken limit _
      (All-sort_by (λ r x. leb r.id x.id) (λ r. is_waiting r ≡ true) _ (All-waiting rows))

length-claim :
    (limit : ℕ) (rows : List Row)
    → length (claim (λ id. false) limit rows) ≡ min limit (backlog rows)
unfolding claim
length-claim limit rows =
    let selected = select_all (λ r. is_waiting r && true) rows in
    length-take limit (sort_by (λ r x. leb r.id x.id) selected)
    ∙ ap (min limit) (
        length-total (sort_by (λ r x. leb r.id x.id) selected)
        ∙ total-sort_by (λ r x. leb r.id x.id) (λ r. 1) selected
        ∙ sym (length-total selected)
        ∙ length-select_all (λ r. is_waiting r && true) rows
        ∙ same rows)
  where
    same : (t : List Row) → total (λ r. if is_waiting r && true then 1 else 0) t ≡ backlog t
    same [] = refl
    same (r ∷ t) = ground (arith, same t)

-- What marking leaves of the backlog.
backlog-mark :
    (clock : ℤ) (ids : List ℕ) (rows : List Row)
    → backlog (map (mark clock ids) rows)
        + total (λ r. if is_in r.id ids && is_waiting r then 1 else 0) rows
      ≡ backlog rows
unfolding mark
backlog-mark clock ids [] = refl
backlog-mark clock ids (r ∷ rows) = elim (Bool-cases (is_in r.id ids)) [
  | inl y ↦ rw y (omega (arith, backlog-mark clock ids rows))
  | inr n ↦ rw n (omega (arith, backlog-mark clock ids rows))
]

named-mark :
    (clock : ℤ) (ids : List ℕ) (j : ℕ) (rows : List Row)
    → total (named (λ r. true) j) (map (mark clock ids) rows) ≡ total (named (λ r. true) j) rows
unfolding mark
named-mark clock ids j [] = refl
named-mark clock ids j (r ∷ rows) = elim (Bool-cases (is_in r.id ids)) [
  | inl y ↦ rw y (omega (arith, named-mark clock ids j rows))
  | inr n ↦ rw n (omega (arith, named-mark clock ids j rows))
]

one_test : (b c : Bool) → (if b && c then 1 else 0) ≤ 1
one_test b c = ground arith

named_le :
    (q : Row → Bool) (j : ℕ) (rows : List Row)
    → total (named q j) rows ≤ total (named (λ r. true) j) rows
named_le q j [] = omega arith
named_le q j (r ∷ rows) = elim (Bool-cases (r.id == j)) [
  | inl y ↦ rw y (omega (arith, one_test true (q r), named_le q j rows))
  | inr n ↦ rw n (omega (arith, named_le q j rows))
]

All-true : (rows : List Row) → All (λ r. true ≡ true) rows
All-true [] = tt
All-true (r ∷ rows) = (refl, All-true rows)

in_and_true :
    (ids : List ℕ) (rows : List Row)
    → total (λ r. if is_in r.id ids then 1 else 0) rows
      ≡ total (λ r. if is_in r.id ids && true then 1 else 0) rows
in_and_true ids [] = refl
in_and_true ids (r ∷ rows) = elim (Bool-cases (is_in r.id ids)) [
  | inl y ↦ rw y (omega (arith, in_and_true ids rows))
  | inr n ↦ rw n (omega (arith, in_and_true ids rows))
]

-- markPublished counts as many rows as the batch has.
mark_published-claimed :
    (limit : ℕ) (s : Relayed)
    → IsUnique s.rows
    → mark_published (ids_of (claim (λ id. false) limit s.rows)) s
      ≡ some (map (mark s.clock (ids_of (claim (λ id. false) limit s.rows))) s.rows)
unfolding mark_published
mark_published-claimed limit s unique =
    let batch = claim (λ id. false) limit s.rows in
    let counted : length (select_all (λ r. is_in r.id (ids_of batch)) s.rows)
        ≡ length (ids_of batch) =
      length-select_all (λ r. is_in r.id (ids_of batch)) s.rows
      ∙ in_and_true (ids_of batch) s.rows
      ∙ total-batch (λ r. true) s.rows batch unique (claimed-within (λ r. true) limit s.rows)
          (All-true batch)
      ∙ sym (length-map (λ (r : Row). r.id) batch) in
    rw ((==_iff _ _).1 counted) refl

-- A cycle that nothing stops: no row is locked, the publisher delivers and the database commits.
abbrev pub cycle : ℕ → Relayed → Relayed
cycle limit s = (publish_batch commits (λ id. false) limit (λ rows. delivers) s).1

abbrev pub cycles : ℕ → ℕ → Relayed → Relayed
cycles zero limit s = s
cycles (suc n) limit s = cycles n limit (cycle limit s)

mark_none : (clock : ℤ) (rows : List Row) → map (mark clock []) rows ≡ rows
unfolding mark
mark_none clock [] = refl
mark_none clock (r ∷ rows) = ap (λ t. r ∷ t) (mark_none clock rows)

marked_batch :
    (limit : ℕ) (s : Relayed) (batch : List Row)
    → claim (λ id. false) limit s.rows ≡ batch
    → mark_published (ids_of batch) s ≡ some (map (mark s.clock (ids_of batch)) s.rows)
    → (after_claim commits (λ rows. delivers) batch s).1.rows
      ≡ map (mark s.clock (ids_of batch)) s.rows
unfolding after_claim after_publish marked
marked_batch limit s [] e m = sym (mark_none s.clock s.rows)
marked_batch limit s (r ∷ rs) e m = rw m refl

cycle-rows :
    (limit : ℕ) (s : Relayed)
    → IsUnique s.rows
    → (cycle limit s).rows ≡ map (mark s.clock (ids_of (claim (λ id. false) limit s.rows))) s.rows
unfolding publish_batch
cycle-rows limit s unique =
    marked_batch limit s (claim (λ id. false) limit s.rows) refl
      (mark_published-claimed limit s unique)

cycle-IsUnique : (limit : ℕ) (s : Relayed) → IsUnique s.rows → IsUnique (cycle limit s).rows
cycle-IsUnique limit s unique j = rw (cycle-rows limit s unique) (
    omega
      (arith, named-mark s.clock (ids_of (claim (λ id. false) limit s.rows)) j s.rows, unique j))

-- What a cycle takes off the backlog.
cycle-backlog :
    (limit : ℕ) (s : Relayed)
    → IsUnique s.rows
    → backlog (cycle limit s).rows + min limit (backlog s.rows) ≡ backlog s.rows
cycle-backlog limit s unique =
    let batch = claim (λ id. false) limit s.rows in
    rw (cycle-rows limit s unique) (
      omega (
        arith,
        backlog-mark s.clock (ids_of batch) s.rows,
        length-claim limit s.rows,
        total-batch is_waiting s.rows batch (λ j. waiting_once j)
            (claimed-within is_waiting limit s.rows) (claimed-waiting limit s.rows),
      ))
  where
    waiting_once : (j : ℕ) → total (named is_waiting j) s.rows ≤ 1
    waiting_once j = omega (arith, named_le is_waiting j s.rows, unique j)

-- Of rows with distinct identifiers, `n` cycles of up to `limit` that nothing stops leave none that
-- waits, where no more than `n * limit` do.
pub cycles-drain :
    (n limit : ℕ) (s : Relayed)
    → IsUnique s.rows
    → backlog s.rows ≤ n * limit
    → backlog (cycles n limit s).rows ≡ 0
cycles-drain zero limit s unique h = omega arith
cycles-drain (suc n) limit s unique h =
    cycles-drain n limit (cycle limit s) (cycle-IsUnique limit s unique)
      (omega (arith, cycle-backlog limit s unique))
