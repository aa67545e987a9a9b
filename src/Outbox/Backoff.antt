-- ===== src/Outbox/Backoff.antt =====
-- The waits of Run of pkg/outbox/relay.go.
use system_design_ecommerce.Outbox.{Cycle, published, failed}
use system_design_ecommerce.Outbox.{
  ltb_ℤ, int64_range, run, published, negsuc, min_ℤ, Cycle, pos, List, is_valid, ℤ, twice,
  RelayConfig, waits,
}
use system_design_ecommerce.Prelude.Int.{◌≤ℤ◌}
use system_design_ecommerce.Prelude.{
  Bool-cases, lt→ltb, tests, ◌*◌, ◌==◌, if◌then◌else◌, ◌<◌, refl, inr, inl, ◌∷◌, [], ℕ, ◌≡◌, Bool,
  true, false, Option, none, some, All, arith,
}

-- A wait that Run may make: none, or one between the configured bounds.
abbrev pub IsBounded : RelayConfig → Option ℤ → Type 0
IsBounded cfg none = Unit
IsBounded cfg (some d) = (cfg.poll_interval ≤ℤ d) × (d ≤ℤ cfg.max_backoff)

-- A backoff that fits the configuration.
abbrev Between : RelayConfig → ℤ → Type 0
Between cfg b = (cfg.poll_interval ≤ℤ b) × (b ≤ℤ cfg.max_backoff)

positive : (cfg : RelayConfig) → is_valid cfg ≡ true → pos 1 ≤ℤ cfg.poll_interval
positive cfg v = grind tests

ordered : (cfg : RelayConfig) → is_valid cfg ≡ true → cfg.poll_interval ≤ℤ cfg.max_backoff
ordered cfg v = grind tests

-- the doubled backoff, while it is far from the end of int64
twice_pos : (n : ℕ) → n < 4611686018427387904 → twice (pos n) ≡ pos (n * 2)
unfolding twice
twice_pos n h = rw (lt→ltb (n * 2) int64_range (omega arith)) refl

min-Between :
    (cfg : RelayConfig) (b : ℤ)
    → is_valid cfg ≡ true
    → cfg.poll_interval ≤ℤ b
    → Between cfg (min_ℤ b cfg.max_backoff)
min-Between cfg b v low = elim (Bool-cases (ltb_ℤ cfg.max_backoff b)) [
  | inl y ↦ rw y (ordered cfg v, omega arith)
  | inr n ↦ rw n (low, grind tests)
]

twice-Between :
    (cfg : RelayConfig) (b : ℤ)
    → is_valid cfg ≡ true
    → cfg.max_backoff ≤ℤ pos 4611686018427387903
    → Between cfg b
    → Between cfg (min_ℤ (twice b) cfg.max_backoff)
twice-Between cfg (pos n) v small between =
    rw (twice_pos n (omega (arith, between.1, small)))
      (min-Between cfg (pos (n * 2)) v (omega (arith, between.0)))
twice-Between cfg (negsuc n) v small between = absurd (omega (arith, positive cfg v, between.0))

waits-IsBounded :
    (cfg : RelayConfig) (cycles : List Cycle) (b : ℤ)
    → is_valid cfg ≡ true
    → cfg.max_backoff ≤ℤ pos 4611686018427387903
    → Between cfg b
    → All (IsBounded cfg) (waits cfg b cycles)
unfolding waits
waits-IsBounded cfg [] b v small between = tt
waits-IsBounded cfg (failed ∷ cs) b v small between =
    (between, waits-IsBounded cfg cs _ v small (twice-Between cfg b v small between))
waits-IsBounded cfg (published n ∷ cs) b v small between =
    (at_once (n == cfg.batch_size), waits-IsBounded cfg cs _ v small (start cfg v))
  where
    start : (cfg : RelayConfig) → is_valid cfg ≡ true → Between cfg cfg.poll_interval
    start cfg v = (omega arith, ordered cfg v)

    at_once : (c : Bool) → IsBounded cfg (if c then none else some cfg.poll_interval)
    at_once true = tt
    at_once false = start cfg v

-- With a configuration that NewRelay takes and a MaxBackoff below 2^62 ns (146 years), every wait
-- that Run makes is at least PollInterval and at most MaxBackoff, whatever its cycles give.
pub run-IsBounded :
    (cfg : RelayConfig) (cycles : List Cycle)
    → is_valid cfg ≡ true
    → cfg.max_backoff ≤ℤ pos 4611686018427387903
    → All (IsBounded cfg) (run cfg cycles)
run-IsBounded cfg cycles v small =
    waits-IsBounded cfg cycles cfg.poll_interval v small (omega arith, ordered cfg v)
