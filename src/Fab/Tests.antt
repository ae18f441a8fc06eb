-- ===== src/Fab/Tests.antt =====
-- Witnesses of the properties of field-aligned values.
use midnight_ledger.Prelude.{
  ℕ, ◌≡◌, refl, true, false, List, [], ◌∷◌, ◌++◌, some, ok, length, arith,
}
use midnight_ledger.Fab.{
  Value, u64_of_value, of_u64, fits, Alignment, segment, atom, choice, alternative, no_options,
  aligned, bytes, singleton, consume_internal, consume_segment, consume_branch, atom_fits, drop,
  is_in_normal_form, int_of_atom, u128_of_atom, from_le_bytes,
}
use midnight_ledger.Fab.Size.{flagged_int_size}
use midnight_ledger.Fab.Flagged.{
  write_flagged_int, read_flagged_int, write_flagged_int-read_flagged_int,
}
use midnight_ledger.Fab.Numbers.{of_u64-u64_of_value}

of_u64-u64_of_value_example :
    (u64_of_value (of_u64 70000).value ≡ ok 70000)
    × (fits (of_u64 70000).alignment (of_u64 70000).value ≡ true)
of_u64-u64_of_value_example = of_u64-u64_of_value 70000 (omega arith)

-- A union of a pair of bytes and a single one, of which the second is taken.
abbrev either : Alignment
either =
    segment
      (choice (
        alternative (segment (atom (bytes 1)) (singleton (bytes 1)))
          (alternative (singleton (bytes 1)) no_options)))
      aligned

abbrev second : Value
second = (1 ∷ []) ∷ (7 ∷ []) ∷ []

either-fits : fits either second ≡ true
unfolding fits consume_internal consume_segment consume_branch atom_fits drop is_in_normal_form
    int_of_atom u128_of_atom from_le_bytes
either-fits = refl

write_flagged_int-read_flagged_int_example :
    (written : List ℕ) × (write_flagged_int true false 5000 ≡ some written)
    × (length written ≡ flagged_int_size 5000)
    × (read_flagged_int (written ++ (9 ∷ [])) ≡ ok ((true, false, 5000), 9 ∷ []))
write_flagged_int-read_flagged_int_example =
    write_flagged_int-read_flagged_int true false 5000 (9 ∷ []) (omega arith)
