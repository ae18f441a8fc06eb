-- ===== src/Vm/Arithmetic.antt =====
-- The arithmetic instructions (`add`, `sub` and `lt` of onchain-vm/src/vm.rs) against the natural
-- numbers that their cells encode.
use midnight_ledger.Prelude.{ℕ, ◌+◌, ◌-◌, ◌^◌, ◌<◌, ◌≡◌, refl, ltb, leb, if◌then◌else◌, ok}
use midnight_ledger.Fab.{of_u64, of_bool}
use midnight_ledger.Fab.Numbers.{of_u64-u64_of_value}
use midnight_ledger.Vm.{fail, arithmetic_overflow}
use midnight_ledger.Vm.Simple.{add_cells, sub_cells, lt_cells}

-- On cells of two 64-bit integers, `add` gives the cell of their sum, or an overflow if it does not
-- fit in 64 bits; `sub` that of their difference, or an overflow if it is negative; `lt` that of
-- their comparison.
cells-of_u64 :
    (m n : ℕ)
    → m < 2 ^ 64
    → n < 2 ^ 64
    → (add_cells (of_u64 m) (of_u64 n)
        ≡ (if ltb (m + n) (2 ^ 64) then ok (of_u64 (m + n)) else fail arithmetic_overflow))
      × (sub_cells (of_u64 m) (of_u64 n)
          ≡ (if leb n m then ok (of_u64 (m - n)) else fail arithmetic_overflow))
      × (lt_cells (of_u64 m) (of_u64 n) ≡ ok (of_bool (ltb m n)))
unfolding add_cells sub_cells lt_cells
cells-of_u64 m n hm hn =
    let em = (of_u64-u64_of_value m hm).0 in
    let en = (of_u64-u64_of_value n hn).0 in (rw (em, en) refl, rw (en, em) refl, rw (em, en) refl)
