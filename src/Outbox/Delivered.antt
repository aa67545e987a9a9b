-- ===== src/Outbox/Delivered.antt =====
-- What the relay of pkg/outbox/relay.go marks, and what reached the broker.
use system_design_ecommerce.Tx.{Server, commits, begin_fails, commit_fails, commit_lost}
use system_design_ecommerce.Outbox.{
  rows_from, claim, all_complete, ids_of, Record, write, publish_batch, after_claim, Publication,
  delivers, fails_after, marked,
}
use system_design_ecommerce.Prelude.{
  subst, All-append, suc, refl, Bool-cases, ◌++◌, inr, inl, ◌∷◌, [], ℕ, ◌≡◌, Bool, true, false,
  Option, none, some, All, arith,
}
use system_design_ecommerce.Outbox.{
  length, take, fails_after, Publication, map, Server, mark_published, ℤ, after_publish, List, mark,
  Relayed, Row, is_in, is_waiting,
}

-- A row is waiting, or its message has reached the broker.
abbrev pub IsDelivered : List ℕ → Row → Type 0
IsDelivered log r = is_waiting r ≡ false → is_in r.id log ≡ true

-- Every row that is marked as published has reached the broker.
abbrev pub IsHonest : Relayed → Type 0
IsHonest s = All (IsDelivered s.log) s.rows

is_in-append : (k : ℕ) (a b : List ℕ) → is_in k a ≡ true → is_in k (a ++ b) ≡ true
is_in-append k [] b h = absurd (ground arith)
is_in-append k (j ∷ js) b h = ground (arith, is_in-append k js b)

is_in-append_right : (k : ℕ) (a b : List ℕ) → is_in k b ≡ true → is_in k (a ++ b) ≡ true
is_in-append_right k [] b h = h
is_in-append_right k (j ∷ js) b h = ground (arith, is_in-append_right k js b)

-- More that reaches the broker takes nothing back.
sent-IsHonest :
    (log more : List ℕ) (rows : List Row)
    → All (IsDelivered log) rows
    → All (IsDelivered (log ++ more)) rows
sent-IsHonest log more [] h = tt
sent-IsHonest log more (r ∷ rs) h =
    ((λ w. is_in-append r.id log more (h.0 w)), sent-IsHonest log more rs h.1)

marked-IsHonest :
    (clock : ℤ) (log ids : List ℕ) (rows : List Row)
    → All (IsDelivered (log ++ ids)) rows
    → All (IsDelivered (log ++ ids)) (map (mark clock ids) rows)
unfolding mark
marked-IsHonest clock log ids [] h = tt
marked-IsHonest clock log ids (r ∷ rs) h = elim (Bool-cases (is_in r.id ids)) [
  | inl y ↦ rw y ((λ w. is_in-append_right r.id log ids y), marked-IsHonest clock log ids rs h.1)
  | inr n ↦ rw n (h.0, marked-IsHonest clock log ids rs h.1)
]

marked_rows :
    (ids : List ℕ) (s : Relayed) {rows : List Row}
    → mark_published ids s ≡ some rows
    → map (mark s.clock ids) s.rows ≡ rows
unfolding mark_published
marked_rows ids s h = ground arith

marked-kept :
    (server : Server) (n : ℕ) (o : Option (List Row)) (s : Relayed)
    → IsHonest s
    → ((rows : List Row) → o ≡ some rows → All (IsDelivered s.log) rows)
    → IsHonest (marked server n o s).1
unfolding marked
marked-kept commits n (some rows) s h k = k rows refl
marked-kept commits n none s h k = h
marked-kept begin_fails n o s h k = h
marked-kept commit_fails n o s h k = h
marked-kept commit_lost n (some rows) s h k = k rows refl
marked-kept commit_lost n none s h k = h

after_publish-IsHonest :
    (server : Server) (ids : List ℕ) (p : Publication) (s : Relayed)
    → IsHonest s
    → IsHonest (after_publish server ids p s).1
unfolding after_publish
after_publish-IsHonest server ids (fails_after n) s h = sent-IsHonest s.log (take n ids) s.rows h
after_publish-IsHonest server ids delivers s h =
    marked-kept server (length ids) (mark_published ids s) (record s { log = s.log ++ ids }) sent
      λ rows e. by_mark rows e
  where
    sent : All (IsDelivered (s.log ++ ids)) s.rows
    sent = sent-IsHonest s.log ids s.rows h

    by_mark :
        (rows : List Row) → mark_published ids s ≡ some rows → All (IsDelivered (s.log ++ ids)) rows
    by_mark rows e =
        subst (All (IsDelivered (s.log ++ ids))) (marked_rows ids s e)
          (marked-IsHonest s.clock s.log ids s.rows sent)

after_claim-IsHonest :
    (server : Server) (publish : List Row → Publication) (batch : List Row) (s : Relayed)
    → IsHonest s
    → IsHonest (after_claim server publish batch s).1
unfolding after_claim
after_claim-IsHonest commits publish [] s h = h
after_claim-IsHonest begin_fails publish [] s h = h
after_claim-IsHonest commit_fails publish [] s h = h
after_claim-IsHonest commit_lost publish [] s h = h
after_claim-IsHonest server publish (r ∷ rs) s h =
    after_publish-IsHonest server (ids_of (r ∷ rs)) (publish (r ∷ rs)) s h

publish_batch-IsHonest :
    (server : Server) (locked : ℕ → Bool) (limit : ℕ) (publish : List Row → Publication)
    (s : Relayed)
    → IsHonest s
    → IsHonest (publish_batch server locked limit publish s).1
unfolding publish_batch
publish_batch-IsHonest begin_fails locked limit publish s h = h
publish_batch-IsHonest commits locked limit publish s h =
    after_claim-IsHonest commits publish (claim locked limit s.rows) s h
publish_batch-IsHonest commit_fails locked limit publish s h =
    after_claim-IsHonest commit_fails publish (claim locked limit s.rows) s h
publish_batch-IsHonest commit_lost locked limit publish s h =
    after_claim-IsHonest commit_lost publish (claim locked limit s.rows) s h

rows_from-IsDelivered :
    (log : List ℕ) (n : ℕ) (records : List Record) → All (IsDelivered log) (rows_from n records)
rows_from-IsDelivered log n [] = tt
rows_from-IsDelivered log n (r ∷ rs) =
    ((λ w. absurd (ground arith)), rows_from-IsDelivered log (suc n) rs)

-- What happens to an outbox: records are written, a cycle of a relay runs, or time passes.
pub data Step : Type 0 where
  writes : List Record → Step
  relays : Server → (ℕ → Bool) → ℕ → (List Row → Publication) → Step
  passes : ℤ → Step

abbrev written : Relayed → Option Relayed → Relayed
written s none = s
written s (some t) = t

unfoldable pub after : Step → Relayed → Relayed
after (writes records) s = written s (write records s)
after (relays server locked limit publish) s = (publish_batch server locked limit publish s).1
after (passes now) s = record s { clock = now }

unfoldable pub run_steps : List Step → Relayed → Relayed
unfolding after
run_steps [] s = s
run_steps (step ∷ steps) s = run_steps steps (after step s)

after-IsHonest : (step : Step) (s : Relayed) → IsHonest s → IsHonest (after step s)
unfolding after write
after-IsHonest (writes records) s h = elim (Bool-cases (all_complete records)) [
  | inl y ↦ rw y (
      All-append (IsDelivered s.log) s.rows (rows_from s.next_id records) h
        (rows_from-IsDelivered s.log s.next_id records))
  | inr n ↦ rw n h
]
after-IsHonest (relays server locked limit publish) s h =
    publish_batch-IsHonest server locked limit publish s h
after-IsHonest (passes now) s h = h

-- From an outbox whose published rows have reached the broker, any writes and any cycles of relays,
-- however the publisher and the database answer and whichever rows others have locked, lead to one
-- whose published rows have reached the broker: a record is delivered before it is marked.
pub run_steps-IsHonest :
    (steps : List Step) (s : Relayed) → IsHonest s → IsHonest (run_steps steps s)
unfolding run_steps
run_steps-IsHonest [] s h = h
run_steps-IsHonest (step ∷ steps) s h =
    run_steps-IsHonest steps (after step s) (after-IsHonest step s h)
