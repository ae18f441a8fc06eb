-- ===== src/Cost/Sums.antt =====
-- Sums of costs (base-crypto/src/cost_model.rs) do not depend on their order or grouping.
use native.Mathlib.Nat.{mul-suc}
use midnight_ledger.Prelude.{ℕ, suc, ◌+◌, ◌^◌, ◌≤◌, ◌<◌, ◌≡◌, refl, arith}
use midnight_ledger.Cost.{
  RunningCost, add_cost, add_running, mul_running, zero_running, to_synthetic, add_u64,
}

-- Every dimension fits in 64 bits.
abbrev pub Fits : RunningCost → Type 0
Fits c =
    (c.read_time < 2 ^ 64)
    × (c.compute_time < 2 ^ 64)
    × (c.bytes_written < 2 ^ 64)
    × (c.bytes_deleted < 2 ^ 64)

-- Two running costs have one sum in either order, three in either grouping, and the zero cost adds
-- nothing to a cost whose dimensions fit in 64 bits.
add_running-monoid :
    (a b c : RunningCost)
    → Fits a
    → (add_running a b ≡ add_running b a)
      × (add_running (add_running a b) c ≡ add_running a (add_running b c))
      × (add_running a zero_running ≡ a)
unfolding add_running
add_running-monoid a b c f = (ground arith, ground arith, ground arith)

-- The synthetic cost of a sum of two running costs counts every written byte once, as net or as
-- churned, with the times of the sum of their synthetic costs and at most its bytes, if the two fit
-- in 64 bits.
to_synthetic-bytes :
    (a b : RunningCost)
    → Fits a
    → Fits b
    → let s = to_synthetic (add_running a b) in
      let t = add_cost (to_synthetic a) (to_synthetic b) in
      (s.bytes_written + s.bytes_churned ≡ add_u64 a.bytes_written b.bytes_written)
      × (s.bytes_written + s.bytes_churned ≤ t.bytes_written + t.bytes_churned)
      × (s.read_time ≡ t.read_time)
      × (s.compute_time ≡ t.compute_time)
unfolding to_synthetic add_running add_cost
to_synthetic-bytes a b f g = (omega arith, omega arith, refl, refl)

-- A running cost times n + 1 is its product with n plus the cost, and times zero is the zero cost.
mul_running-suc :
    (a : RunningCost) (n : ℕ)
    → (mul_running a (suc n) ≡ add_running (mul_running a n) a) × (mul_running a 0 ≡ zero_running)
unfolding mul_running add_running
mul_running-suc a n = (
  ground (
    arith,
    mul-suc a.read_time n,
    mul-suc a.compute_time n,
    mul-suc a.bytes_written n,
    mul-suc a.bytes_deleted n,
  ),
  ground arith,
)
