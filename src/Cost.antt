-- ===== src/Cost.antt =====
-- Execution costs (base-crypto/src/cost_model.rs): durations in picoseconds, the cost of a
-- transaction in its five dimensions and the running cost of a program, and the fractions of a block
-- that they are. A `FixedPoint` is the integer that it stores, in units of 2^-64.
pub mod Sums
pub mod Fullness
pub mod Tests
use midnight_ledger.Prelude.{
  ℕ, ◌+◌, ◌-◌, ◌*◌, ◌/◌, ◌%◌, ◌^◌, min, max, Bool, true, false, ◌||◌, Option, none, some, ltb, ◌==◌,
  if◌then◌else◌,
}
use midnight_ledger.Prelude.Int.{ℤ, pos, negsuc, ltb_ℤ}

-- `saturating_add`, `saturating_mul` and `saturating_sub` on `u64`.
abbrev pub add_u64 : ℕ → ℕ → ℕ
add_u64 a b = min (a + b) (2 ^ 64 - 1)

abbrev pub mul_u64 : ℕ → ℕ → ℕ
mul_u64 a b = min (a * b) (2 ^ 64 - 1)

abbrev pub div_ceil : ℕ → ℕ → ℕ
div_ceil a b = (a + (b - 1)) / b

-- `c as i128` on a `u128`.
unfoldable pub as_i128 : ℕ → ℤ
as_i128 c = if ltb c (2 ^ 127) then pos c else negsuc (2 ^ 128 - 1 - c)

abbrev pub max_i128 : ℤ
max_i128 = pos (2 ^ 127 - 1)

-- `FixedPoint::ONE`
abbrev pub one : ℤ
one = pos (2 ^ 64)

unfoldable pub from_u64_div : ℕ → ℕ → ℤ
unfolding as_i128
from_u64_div a b = if b == 0 then max_i128 else as_i128 (div_ceil (a * 2 ^ 64) b)

pub record SyntheticCost : Type 0 where
  pub read_time : ℕ
  pub compute_time : ℕ
  pub block_usage : ℕ
  pub bytes_written : ℕ
  pub bytes_churned : ℕ

pub record NormalizedCost : Type 0 where
  pub read_time : ℤ
  pub compute_time : ℤ
  pub block_usage : ℤ
  pub bytes_written : ℤ
  pub bytes_churned : ℤ

pub record RunningCost : Type 0 where
  pub read_time : ℕ
  pub compute_time : ℕ
  pub bytes_written : ℕ
  pub bytes_deleted : ℕ

abbrev pub zero_cost : SyntheticCost
zero_cost = record {
  read_time = 0;
  compute_time = 0;
  block_usage = 0;
  bytes_written = 0;
  bytes_churned = 0;
}

unfoldable pub add_cost : SyntheticCost → SyntheticCost → SyntheticCost
add_cost a b = record {
  read_time = add_u64 a.read_time b.read_time;
  compute_time = add_u64 a.compute_time b.compute_time;
  block_usage = add_u64 a.block_usage b.block_usage;
  bytes_written = add_u64 a.bytes_written b.bytes_written;
  bytes_churned = add_u64 a.bytes_churned b.bytes_churned;
}

unfoldable pub max_time : SyntheticCost → ℕ
max_time c = max c.read_time c.compute_time

unfoldable pub normalize : SyntheticCost → SyntheticCost → Option NormalizedCost
unfolding from_u64_div
normalize self limits =
    let read_time = from_u64_div self.read_time limits.read_time in
    let compute_time = from_u64_div self.compute_time limits.compute_time in
    let block_usage = from_u64_div self.block_usage limits.block_usage in
    let bytes_written = from_u64_div self.bytes_written limits.bytes_written in
    let bytes_churned = from_u64_div self.bytes_churned limits.bytes_churned in
    if ltb_ℤ one read_time
      || (ltb_ℤ one compute_time
          || (ltb_ℤ one block_usage || (ltb_ℤ one bytes_written || ltb_ℤ one bytes_churned)))
    then none
    else some (record {
      read_time = read_time;
      compute_time = compute_time;
      block_usage = block_usage;
      bytes_written = bytes_written;
      bytes_churned = bytes_churned;
    })

abbrev pub zero_running : RunningCost
zero_running = record { read_time = 0; compute_time = 0; bytes_written = 0; bytes_deleted = 0 }

unfoldable pub add_running : RunningCost → RunningCost → RunningCost
add_running a b = record {
  read_time = add_u64 a.read_time b.read_time;
  compute_time = add_u64 a.compute_time b.compute_time;
  bytes_written = add_u64 a.bytes_written b.bytes_written;
  bytes_deleted = add_u64 a.bytes_deleted b.bytes_deleted;
}

unfoldable pub mul_running : RunningCost → ℕ → RunningCost
mul_running a n = record {
  read_time = mul_u64 a.read_time n;
  compute_time = mul_u64 a.compute_time n;
  bytes_written = mul_u64 a.bytes_written n;
  bytes_deleted = mul_u64 a.bytes_deleted n;
}

unfoldable pub to_synthetic : RunningCost → SyntheticCost
to_synthetic value =
    let bytes_written = value.bytes_written - value.bytes_deleted in
    record {
      read_time = value.read_time;
      compute_time = value.compute_time;
      block_usage = 0;
      bytes_written = bytes_written;
      bytes_churned = value.bytes_written - bytes_written;
    }

unfoldable pub to_running : SyntheticCost → RunningCost
to_running value = record {
  read_time = value.read_time;
  compute_time = value.compute_time;
  bytes_written = value.bytes_written;
  bytes_deleted = 0;
}
