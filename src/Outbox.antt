-- ===== src/Outbox.antt =====
-- pkg/outbox/outbox.go and relay.go: the records that services write with their rows, and the relay
-- that publishes them. The broker is a log of the identifiers that reached it. `locked` are the rows
-- that another relay has locked, and `publish` says how the publisher answers to a batch. A payload
-- and headers are texts of bytes.
pub mod Delivered
pub mod Backoff
pub mod Batches
pub mod Drained
use system_design_ecommerce.Prelude.{
  ◌^◌, suc, ℕ, ◌+◌, ◌*◌, ◌-◌, Bool, true, false, ◌&&◌, ◌||◌, not, Option, none, some, List, [], ◌∷◌,
  ◌++◌, map, take, length, ltb, leb, ◌==◌, if◌then◌else◌,
}
use system_design_ecommerce.Prelude.Int.{ℤ, pos, negsuc, ltb_ℤ, leb_ℤ}
use system_design_ecommerce.Text.{Text, is_empty}
use system_design_ecommerce.Table.{select_all, sort_by}
use system_design_ecommerce.Tx.{Server, commits, begin_fails, commit_fails, commit_lost}

-- Record
pub record Record : Type 0 where
  pub aggregate_type : Text
  pub aggregate_id : Text
  pub event_type : Text
  pub topic : Text
  pub payload : Text
  pub headers : Text

-- a row of outbox
pub record Row : Type 0 where
  pub id : ℕ
  pub message : Record
  pub published_at : Option ℤ

-- The rows of outbox, the identifier that the next row gets, now(), and what reached the broker.
pub record Relayed : Type 0 where
  pub rows : List Row
  pub next_id : ℕ
  pub clock : ℤ
  pub log : List ℕ

-- validate
unfoldable pub is_complete : Record → Bool
is_complete r =
    not (is_empty r.aggregate_type)
    && (not (is_empty r.aggregate_id)
        && (not (is_empty r.event_type) && (not (is_empty r.topic) && not (is_empty r.payload))))

-- the loop of Write: every record is complete
abbrev pub all_complete : List Record → Bool
all_complete [] = true
all_complete (r ∷ rs) = is_complete r && all_complete rs

-- the rows of one INSERT, each under the identity that comes next
abbrev pub rows_from : ℕ → List Record → List Row
rows_from n [] = []
rows_from n (r ∷ rs) = (record { id = n; message = r; published_at = none }) ∷ rows_from (suc n) rs

-- Write: none where a record is incomplete
unfoldable pub write : List Record → Relayed → Option Relayed
unfolding is_complete
write records s =
    if not (all_complete records)
    then none
    else some (record s {
      rows = s.rows ++ rows_from s.next_id records;
      next_id = s.next_id + length records;
    })

-- published_at IS NULL
abbrev pub is_waiting : Row → Bool
is_waiting r = waits r.published_at
  where
    waits : Option ℤ → Bool
    waits none = true
    waits (some at) = false

abbrev pub is_in : ℕ → List ℕ → Bool
is_in k [] = false
is_in k (j ∷ js) = j == k || is_in k js

-- claim
unfoldable pub claim : (ℕ → Bool) → ℕ → List Row → List Row
claim locked limit rows =
    take limit
      (sort_by (λ r x. leb r.id x.id) (select_all (λ r. is_waiting r && not (locked r.id)) rows))

abbrev pub ids_of : List Row → List ℕ
ids_of rows = map (λ r. r.id) rows

-- one row, under UPDATE ... WHERE id = ANY($1)
unfoldable pub mark : ℤ → List ℕ → Row → Row
mark clock ids r = if is_in r.id ids then record r { published_at = some clock } else r

-- markPublished: none where the number of rows is not that of the messages
unfoldable pub mark_published : List ℕ → Relayed → Option (List Row)
unfolding mark
mark_published ids s =
    if not (length (select_all (λ r. is_in r.id ids) s.rows) == length ids)
    then none
    else some (map (mark s.clock ids) s.rows)

-- How the publisher answers to a batch: with no error once all of it has reached the broker, or with
-- one after some of it has.
pub data Publication : Type 0 where
  delivers : Publication
  fails_after : ℕ → Publication

-- what a cycle gives: how many it published, or an error
pub data Cycle : Type 0 where
  published : ℕ → Cycle
  failed : Cycle

-- the end of the transaction, once the batch has been published
unfoldable pub marked : Server → ℕ → Option (List Row) → Relayed → Cycle × Relayed
marked commits n (some rows) s = (published n, record s { rows = rows })
marked commit_lost n (some rows) s = (failed, record s { rows = rows })
marked server n o s = (failed, s)

-- the transaction, once the publisher has answered
unfoldable pub after_publish : Server → List ℕ → Publication → Relayed → Cycle × Relayed
unfolding marked mark_published
after_publish server ids (fails_after n) s = (failed, record s { log = s.log ++ take n ids })
after_publish server ids delivers s =
    marked server (length ids) (mark_published ids s) (record s { log = s.log ++ ids })

-- the transaction, once a batch has been claimed
unfoldable pub after_claim :
    Server → (List Row → Publication) → List Row → Relayed → Cycle × Relayed
unfolding after_publish
after_claim commits publish [] s = (published 0, s)
after_claim server publish [] s = (failed, s)
after_claim server publish (r ∷ rs) s = after_publish server (ids_of (r ∷ rs)) (publish (r ∷ rs)) s

-- publishBatch
unfoldable pub publish_batch :
    Server → (ℕ → Bool) → ℕ → (List Row → Publication) → Relayed → Cycle × Relayed
unfolding after_claim claim
publish_batch begin_fails locked limit publish s = (failed, s)
publish_batch server locked limit publish s =
    after_claim server publish (claim locked limit s.rows) s

-- RelayConfig, as far as the loop reads it; durations are int64
pub record RelayConfig : Type 0 where
  pub batch_size : ℕ
  pub poll_interval : ℤ
  pub max_backoff : ℤ

-- NewRelay's checks of the configuration
abbrev pub is_valid : RelayConfig → Bool
is_valid cfg =
    ltb 0 cfg.batch_size
    && (ltb_ℤ (pos 0) cfg.poll_interval && not (ltb_ℤ cfg.max_backoff cfg.poll_interval))

-- 2^63 and 2^64
abbrev pub int64_range : ℕ
int64_range = 9223372036854775808

abbrev pub int64_modulus : ℕ
int64_modulus = 18446744073709551616

-- backoff*2, an int64
unfoldable pub twice : ℤ → ℤ
twice (pos n) = if ltb (n * 2) int64_range then pos (n * 2) else negsuc (int64_modulus - n * 2 - 1)
twice (negsuc n) =
    if leb (n * 2 + 2) int64_range then negsuc (n * 2 + 1) else pos (int64_modulus - (n * 2 + 2))

abbrev pub min_ℤ : ℤ → ℤ → ℤ
min_ℤ a b = if ltb_ℤ b a then b else a

-- What Run does after a cycle: how long it waits, if it does, and its next backoff.
unfoldable pub after_cycle : RelayConfig → ℤ → Cycle → Option ℤ × ℤ
unfolding twice
after_cycle cfg backoff failed = (some backoff, min_ℤ (twice backoff) cfg.max_backoff)
after_cycle cfg backoff (published n) =
    (if n == cfg.batch_size then none else some cfg.poll_interval, cfg.poll_interval)

-- Run, over what its cycles gave: the waits between them
unfoldable pub waits : RelayConfig → ℤ → List Cycle → List (Option ℤ)
unfolding after_cycle
waits cfg backoff [] = []
waits cfg backoff (c ∷ cs) =
    (after_cycle cfg backoff c).0 ∷ waits cfg (after_cycle cfg backoff c).1 cs

-- Run, from its start
abbrev pub run : RelayConfig → List Cycle → List (Option ℤ)
run cfg cycles = waits cfg cfg.poll_interval cycles
