-- ===== src/Tests/Relay.antt =====
-- The theorems of the outbox at concrete inputs: a record that is published after a failed cycle.
use system_design_ecommerce.Outbox.Drained.{cycles-drain, cycles}
use system_design_ecommerce.Outbox.Batches.{backlog, IsUnique}
use system_design_ecommerce.Outbox.Backoff.{run-IsBounded, IsBounded}
use system_design_ecommerce.Prelude.Int.{pos}
use system_design_ecommerce.Prelude.{◌≡◌, some, none, arith, refl, false, [], ◌∷◌, List, All}
use system_design_ecommerce.Tx.{commits, commit_fails}
use system_design_ecommerce.Outbox.{
  run, published, failed, delivers, fails_after, Relayed, Record, RelayConfig,
}
use system_design_ecommerce.Outbox.Delivered.{
  run_steps, IsHonest, Step, writes, relays, passes, run_steps-IsHonest,
}

abbrev told : Record
told = record {
  aggregate_type = b'o' ∷ [];
  aggregate_id = b'1' ∷ [];
  event_type = b'p' ∷ [];
  topic = b't' ∷ [];
  payload = b'x' ∷ [];
  headers = [];
}

abbrev empty : Relayed
empty = record { rows = []; next_id = 1; clock = pos 0; log = [] }

abbrev steps : List Step
steps =
    writes (told ∷ told ∷ [])
    ∷ relays commits (λ id. false) 100 (λ rows. fails_after 1)
    ∷ relays commit_fails (λ id. false) 100 (λ rows. delivers)
    ∷ relays commits (λ id. false) 100 (λ rows. delivers)
    ∷ passes (pos 9)
    ∷ []

run_steps-IsHonest_example : IsHonest (run_steps steps empty)
run_steps-IsHonest_example = run_steps-IsHonest steps empty tt

abbrev polling : RelayConfig
polling = record { batch_size = 100; poll_interval = pos 1000; max_backoff = pos 30000 }

run-IsBounded_example :
    All (IsBounded polling) (run polling (failed ∷ failed ∷ published 100 ∷ published 3 ∷ []))
run-IsBounded_example =
    run-IsBounded polling (failed ∷ failed ∷ published 100 ∷ published 3 ∷ []) refl (omega arith)

abbrev three : Relayed
three = record empty {
  rows =
      record { id = 1; message = told; published_at = some (pos 1) }
      ∷ record { id = 2; message = told; published_at = none }
      ∷ record { id = 3; message = told; published_at = none }
      ∷ [];
  log = 1 ∷ [];
}

three-IsUnique : IsUnique three.rows
three-IsUnique j = ground arith

cycles-drain_example : backlog (cycles 2 1 three).rows ≡ 0
cycles-drain_example = cycles-drain 2 1 three three-IsUnique (omega arith)
