-- ===== src/Order/Saga/Announced.antt =====
-- The outcomes of orders in the outbox, and what Update (order_repository.go) makes of them.
use mathlib.Core.List.{append-nil}
use system_design_ecommerce.Prelude.{
  &&-both, ◌==◌, ◌+◌, ◌≡◌, refl, sym, ◌∙◌, ap, subst, Bool, true, false, ◌&&◌, Option, none, some,
  List, [], ◌∷◌, ◌++◌, arith, Bool-cases, inl, inr, eq_of_some,
}
use system_design_ecommerce.Prelude.Int.{ℤ, pos}
use system_design_ecommerce.Errors.{Result, ok, err}
use system_design_ecommerce.Text.{text_eq_sym, Text, text_eq, text_eq_refl, text_eq→eq}
use system_design_ecommerce.Table.{select_one, update_one, select_all}
use system_design_ecommerce.Table.Laws.{
  UniqueKeys, UniqueKeys-update_one, select_one-holds, same_row,
}
use system_design_ecommerce.Table.Keys.{FoundByKey, select_one-update_one_ne}
use system_design_ecommerce.Order.Domain.{
  Sentinel, Order, OrderLine, Event, order_placed, order_was_paid, order_was_cancelled, Status,
  paid, cancelled, mark_paid, expire,
}
use system_design_ecommerce.Order.Store.{Store, to_domain, update, updated, write_order, narrow}

abbrev pub is_outcome_of : Text → Event → Bool
is_outcome_of k (order_placed id _ _ _ _) = false
is_outcome_of k (order_was_paid id _ _ _) = text_eq id k
is_outcome_of k (order_was_cancelled id _ _) = text_eq id k

-- The outcomes of an order that were announced, in order.
abbrev pub outcomes : Text → List Event → List Event
outcomes k events = select_all (is_outcome_of k) events

expected_at : Status → Order → List Event
expected_at paid o = order_was_paid o.id o.user_id o.reservation_id o.total ∷ []
expected_at cancelled o = order_was_cancelled o.id o.user_id o.reservation_id ∷ []
expected_at _ o = []

-- What an order of this status has announced of its outcome.
unfoldable pub expected : Order → List Event
unfolding expected_at
expected o = expected_at o.status o

abbrev pub expected_of : Option Order → List Event
expected_of none = []
expected_of (some o) = expected o

-- Of every order, the outbox holds the outcome that the row has, once, and no other.
pub record IsAnnounced (s : Store) : Type 0 where
  pub announced :
      (k : Text)
      → outcomes k s.outbox ≡ expected_of (select_one (λ (r : Order). text_eq r.id k) s.orders)
  pub unique_ids : UniqueKeys (λ (r : Order). r.id) s.orders

-- A transition that moved the order that a row gives, with the event that it raised.
pub record Raised (row o : Order) : Type 0 where
  pub same_id : o.id ≡ row.id
  pub silent : expected row ≡ []
  pub raised : o.events ≡ expected (record row { status = o.status })

module _ (order_by_sku : List OrderLine → List OrderLine) where
  pub mark_paid-Raised :
      (row o : Order) → mark_paid (to_domain order_by_sku row) ≡ ok (o, true) → Raised row o
  unfolding mark_paid expected
  mark_paid-Raised row o h = record {
    same_id = ground arith;
    silent = ground arith;
    raised = ground arith;
  }

  pub expire-Raised :
      (now window : ℤ) (row o : Order)
      → expire now window (to_domain order_by_sku row) ≡ ok (o, true)
      → Raised row o
  unfolding expire expected
  expire-Raised now window row o h = record {
    same_id = ground arith;
    silent = ground arith;
    raised = ground arith;
  }

outcomes-append :
    (k : Text) (xs ys : List Event) → outcomes k (xs ++ ys) ≡ outcomes k xs ++ outcomes k ys
outcomes-append k [] ys = refl
outcomes-append k (x ∷ xs) ys = ground (arith, outcomes-append k xs ys)

outcomes_own : (k : Text) (o : Order) → text_eq o.id k ≡ true → outcomes k (expected o) ≡ expected o
unfolding expected
outcomes_own k o h = ground arith

outcomes_other : (k : Text) (o : Order) → text_eq o.id k ≡ false → outcomes k (expected o) ≡ []
unfolding expected
outcomes_other k o h = ground arith

-- An UPDATE of the row that a key finds is found by the key.
select_one-update_one_eq :
    (p q : Order → Bool) (r r' : Order) (t : List Order)
    → select_one p t ≡ some r
    → select_one q t ≡ some r
    → q r' ≡ true
    → select_one q (update_one p (λ _. r') t) ≡ some r'
select_one-update_one_eq p q r r' [] h k e = cc
select_one-update_one_eq p q r r' (x ∷ t) h k e = elim (Bool-cases (p x)) [
  | inl y ↦ rw y (rw e refl)
  | inr n ↦ elim (Bool-cases (q x)) [
    | inl y ↦
        let same : x ≡ r = eq_of_some (rw y at k) in
        let met : p r ≡ true = select_one-holds p t (rw n at h) in
        absurd (let clash : p x ≡ true = rw same met in cc)
    | inr m ↦ rw n (rw m (select_one-update_one_eq p q r r' t (rw n at h) (rw m at k) e))
  ]
]

-- An order after its row was written.
written : Store → Order → Order → Order
written s o r = record r { status = o.status; updated_at = s.clock; version = r.version + 1 }

unfoldable here_or_not : Order → Order → Bool
here_or_not o r = text_eq r.id o.id && r.version == narrow (pos o.version)

unfoldable stored : Store → Order → Order → Store
unfolding here_or_not written
stored s o r = record s {
  orders = update_one (here_or_not o) (λ _. written s o r) s.orders;
  outbox = s.outbox ++ o.events;
}

write_order-stored :
    (o : Order) (s : Store) (found : Option Order) {w : Order} {s' : Store}
    → select_one (here_or_not o) s.orders ≡ found
    → write_order o s found ≡ ok (w, s')
    → (u : Order) × (select_one (here_or_not o) s.orders ≡ some u) × (s' ≡ stored s o u)
unfolding write_order here_or_not stored written
write_order-stored o s none e h = cc
write_order-stored o s (some u) e h = (u, e, ground arith)

updated-ok :
    (order_by_sku : List OrderLine → List OrderLine) (x : Result Sentinel (Order × Store))
    {r : Order} {s' : Store}
    → updated order_by_sku x ≡ ok (r, s')
    → (w : Order) × (x ≡ ok (w, s'))
unfolding updated
updated-ok order_by_sku (ok (w, t)) h = (w, ground arith)
updated-ok order_by_sku (err e) h = cc

update-stored :
    (order_by_sku : List OrderLine → List OrderLine) (o : Order) (s : Store) {r : Order}
    {s' : Store}
    → update order_by_sku o s ≡ ok (r, s')
    → (u : Order) × (select_one (here_or_not o) s.orders ≡ some u) × (s' ≡ stored s o u)
unfolding update here_or_not
update-stored order_by_sku o s h =
    let (w, e) = updated-ok order_by_sku _ h in write_order-stored o s _ refl e

-- A row that was written, and the orders that were not.
pub record Advanced (row : Order) (s s' : Store) : Type 0 where
  pub announces : IsAnnounced s'
  pub others :
      (k : Text)
      → text_eq k row.id ≡ false
      → select_one (λ (r : Order). text_eq r.id k) s'.orders
        ≡ select_one (λ (r : Order). text_eq r.id k) s.orders

outcomes-Raised :
    (row o : Order) (k : Text)
    → Raised row o
    → text_eq row.id k ≡ true
    → outcomes k o.events ≡ expected (record row { status = o.status })
outcomes-Raised row o k m y =
    let after : Order = record row { status = o.status } in rw m.raised (outcomes_own k after y)

expected_written :
    (s : Store) (row o : Order)
    → expected (written s o row) ≡ expected (record row { status = o.status })
unfolding written expected
expected_written s row o = ground arith

stored_announced :
    (row o : Order) (s : Store) (k : Text)
    → IsAnnounced s
    → FoundByKey (λ r. r.id) s.orders row
    → Raised row o
    → select_one (here_or_not o) s.orders ≡ some row
    → outcomes k (stored s o row).outbox
      ≡ expected_of (select_one (λ (r : Order). text_eq r.id k) (stored s o row).orders)
unfolding stored here_or_not written
stored_announced row o s k c f m h = elim (Bool-cases (text_eq row.id k)) [
  | inl y ↦
      let finds : select_one (λ (r : Order). text_eq r.id k) s.orders ≡ some row =
        subst (λ j. select_one (λ (r : Order). text_eq r.id j) s.orders ≡ some row)
          (text_eq→eq row.id k y) f in
      let finds' =
        select_one-update_one_eq (here_or_not o) (λ r. text_eq r.id k) row (written s o row)
          s.orders h finds y in
      let nothing : outcomes k s.outbox ≡ [] = c.announced k ∙ ap expected_of finds ∙ m.silent in
      outcomes-append k s.outbox o.events
      ∙ ap (λ xs. xs ++ outcomes k o.events) nothing
      ∙ outcomes-Raised row o k m y
      ∙ sym (expected_written s row o)
      ∙ sym (ap expected_of finds')
  | inr n ↦
      let elsewhere : text_eq k row.id ≡ false = rw (text_eq_sym k row.id) n in
      let kept =
        select_one-update_one_ne (λ r. r.id) (here_or_not o) row.id k (written s o row) s.orders
          (λ x y.
            rw (sym m.same_id)
              (&&-both (text_eq x.id o.id) (x.version == narrow (pos o.version)) y).0)
          (text_eq_refl row.id) elsewhere in
      let after : Order = record row { status = o.status } in
      let nothing : outcomes k o.events ≡ [] = rw m.raised (outcomes_other k after n) in
      outcomes-append k s.outbox o.events
      ∙ ap (λ xs. outcomes k s.outbox ++ xs) nothing
      ∙ append-nil (outcomes k s.outbox)
      ∙ c.announced k
      ∙ sym (ap expected_of kept)
]

stored-Advanced :
    (row o : Order) (s : Store)
    → IsAnnounced s
    → FoundByKey (λ r. r.id) s.orders row
    → Raised row o
    → select_one (here_or_not o) s.orders ≡ some row
    → Advanced row s (stored s o row)
unfolding stored here_or_not written
stored-Advanced row o s c f m h = record {
  announces = record {
    announced = λ k. stored_announced row o s k c f m h;
    unique_ids =
        UniqueKeys-update_one (λ r. r.id) (here_or_not o) row (written s o row) s.orders h refl
          c.unique_ids;
  };
  others = λ k ne.
      select_one-update_one_ne (λ r. r.id) (here_or_not o) row.id k (written s o row) s.orders
        (λ x y.
          rw (sym m.same_id)
            (&&-both (text_eq x.id o.id) (x.version == narrow (pos o.version)) y).0)
        (text_eq_refl row.id) ne;
}

same_found :
    (row o u : Order) (s : Store)
    → IsAnnounced s
    → FoundByKey (λ r. r.id) s.orders row
    → Raised row o
    → select_one (here_or_not o) s.orders ≡ some u
    → u ≡ row
unfolding here_or_not
same_found row o u s c f m h =
    let met = select_one-holds (here_or_not o) s.orders h in
    let named = &&-both (text_eq u.id o.id) (u.version == narrow (pos o.version)) met in
    same_row (λ r. r.id) (here_or_not o) (λ r. text_eq r.id row.id) s.orders c.unique_ids h f
      (rw (sym m.same_id) named.0)

-- Writing what a transition of a row raised keeps the announcements true, and leaves the other
-- orders.
pub update-Advanced :
    (order_by_sku : List OrderLine → List OrderLine) (row o : Order) (s s' : Store) {r : Order}
    → IsAnnounced s
    → FoundByKey (λ r. r.id) s.orders row
    → Raised row o
    → update order_by_sku o s ≡ ok (r, s')
    → Advanced row s s'
update-Advanced order_by_sku row o s s' c f m h =
    let (u, e, same) = update-stored order_by_sku o s h in
    let is_row = same_found row o u s c f m e in
    let here : select_one (here_or_not o) s.orders ≡ some row = e ∙ ap some is_row in
    subst (Advanced row s) (sym (same ∙ ap (stored s o) is_row))
      (stored-Advanced row o s c f m here)

-- Update leaves the inbox alone.
pub update-processed :
    (order_by_sku : List OrderLine → List OrderLine) (o : Order) (s s' : Store) {r : Order}
    → update order_by_sku o s ≡ ok (r, s')
    → s'.processed ≡ s.processed
unfolding stored
update-processed order_by_sku o s s' h =
    let (u, e, same) = update-stored order_by_sku o s h in ap (λ (t : Store). t.processed) same
