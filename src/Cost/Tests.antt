-- ===== src/Cost/Tests.antt =====
-- Runs of the cost model on small inputs, and its theorems at them.
use midnight_ledger.Prelude.{◌-◌, ◌^◌, ◌≡◌, refl}
use midnight_ledger.Prelude.Int.{negsuc}
use midnight_ledger.Cost.{from_u64_div}

-- A fraction of 2^63 wraps around to a negative number.
from_u64_div-wraps : from_u64_div (2 ^ 63) 1 ≡ negsuc (2 ^ 127 - 1)
unfolding from_u64_div
from_u64_div-wraps = refl
