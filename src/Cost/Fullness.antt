-- ===== src/Cost/Fullness.antt =====
-- When a cost fits the limits of a block (`SyntheticCost::normalize` of
-- base-crypto/src/cost_model.rs).
use native.Mathlib.Nat.{div-lt_iff_lt-mul, le-div_iff_mul-le}
use midnight_ledger.Prelude.{
  ℕ, ◌+◌, ◌-◌, ◌*◌, ◌/◌, ◌^◌, ◌≤◌, ◌<◌, ◌≡◌, Bool, not, ◌&&◌, ◌||◌, none, some, arith, ltb, leb,
  if◌then◌else◌, is_some, Bool-cases, inl, inr,
}
use midnight_ledger.Prelude.Int.{ltb_ℤ}
use midnight_ledger.Cost.{SyntheticCost, NormalizedCost, normalize, from_u64_div, as_i128, one}

-- A fraction is above one exactly if the numerator is above the denominator.
above_one : (a b : ℕ) → a < 2 ^ 64 → 2 ≤ b → ltb_ℤ one (from_u64_div a b) ≡ ltb b a
unfolding from_u64_div as_i128
above_one a b small large =
    let numerator = a * 2 ^ 64 + (b - 1) in
    let positive : 0 < b = omega arith in
    let fits : numerator / b < 2 ^ 127 =
      (div-lt_iff_lt-mul {k = b} {x = numerator} {y = 2 ^ 127} positive).1 (omega arith) in
    let edge = div-lt_iff_lt-mul {k = b} {x = numerator} {y = 2 ^ 64 + 1} positive in
    elim (Bool-cases (ltb b a)) [
      | inl over ↦
          let high : 2 ^ 64 < numerator / b =
            (le-div_iff_mul-le {k = b} {x = 2 ^ 64 + 1} {y = numerator} positive).1
              (ground arith) in
          rw over (ground arith)
      | inr within ↦
          let low : numerator / b < 2 ^ 64 + 1 = edge.1 (ground arith) in rw within (ground arith)
    ]

leb-not : (a b : ℕ) → leb a b ≡ not (ltb b a)
leb-not a b = ground arith

unless_any :
    (p q r s t : Bool) (x : NormalizedCost)
    → is_some (if p || (q || (r || (s || t))) then none else some x)
      ≡ (not p && (not q && (not r && (not s && not t))))
unless_any p q r s t x = ground arith

-- The costs in every dimension are numbers of 64 bits.
abbrev pub Fits : SyntheticCost → Type 0
Fits c =
    (c.read_time < 2 ^ 64)
    × (c.compute_time < 2 ^ 64)
    × (c.block_usage < 2 ^ 64)
    × (c.bytes_written < 2 ^ 64)
    × (c.bytes_churned < 2 ^ 64)

-- Every limit is at least two.
abbrev pub Usable : SyntheticCost → Type 0
Usable l =
    (2 ≤ l.read_time)
    × (2 ≤ l.compute_time)
    × (2 ≤ l.block_usage)
    × (2 ≤ l.bytes_written)
    × (2 ≤ l.bytes_churned)

abbrev pub within : SyntheticCost → SyntheticCost → Bool
within c l =
    leb c.read_time l.read_time
    && (leb c.compute_time l.compute_time
        && (leb c.block_usage l.block_usage
            && (leb c.bytes_written l.bytes_written && leb c.bytes_churned l.bytes_churned)))

-- Against limits of at least two, a cost is normalized exactly if it is within the limits in every
-- dimension.
is_some-normalize : (c l : SyntheticCost) → Fits c → Usable l → is_some (normalize c l) ≡ within c l
unfolding normalize
is_some-normalize c l (f1, f2, f3, f4, f5) (u1, u2, u3, u4, u5) =
    rw
      (
        above_one c.read_time l.read_time f1 u1,
        above_one c.compute_time l.compute_time f2 u2,
        above_one c.block_usage l.block_usage f3 u3,
        above_one c.bytes_written l.bytes_written f4 u4,
        above_one c.bytes_churned l.bytes_churned f5 u5,
        leb-not c.read_time l.read_time,
        leb-not c.compute_time l.compute_time,
        leb-not c.block_usage l.block_usage,
        leb-not c.bytes_written l.bytes_written,
        leb-not c.bytes_churned l.bytes_churned,
      )
      (unless_any (ltb l.read_time c.read_time) (ltb l.compute_time c.compute_time)
        (ltb l.block_usage c.block_usage) (ltb l.bytes_written c.bytes_written)
        (ltb l.bytes_churned c.bytes_churned)
        (record {
          read_time = from_u64_div c.read_time l.read_time;
          compute_time = from_u64_div c.compute_time l.compute_time;
          block_usage = from_u64_div c.block_usage l.block_usage;
          bytes_written = from_u64_div c.bytes_written l.bytes_written;
          bytes_churned = from_u64_div c.bytes_churned l.bytes_churned;
        }))
