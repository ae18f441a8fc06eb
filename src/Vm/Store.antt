-- ===== src/Vm/Store.antt =====
-- The operations of state values that instructions use: maps and arrays
-- (storage/src/storage.rs), sizes (onchain-state/src/state.rs) and cells
-- (onchain-vm/src/state_value_ext.rs).
use midnight_ledger.Prelude.{
  ℕ, zero, suc, ◌+◌, ◌/◌, Option, none, some, leb, if◌then◌else◌, Result, ok, map_err,
}
use midnight_ledger.MerkleTree.{height}
use midnight_ledger.Fab.{AlignedValue, InvalidBuiltinDecode}
use midnight_ledger.Fab.Size.{same_value, serialized_size}
use midnight_ledger.Vm.{
  StateValue, null, cell, map, array, bounded_merkle_tree, Entries, no_entries, entry, Elements,
  no_elements, element, ValueStrength, weak, strong, Stop, failed, fail, expected_cell, decode,
}

unfoldable pub get : AlignedValue → Entries → Option StateValue
get k no_entries = none
get k (entry j v m) = if same_value j k then some v else get k m

unfoldable pub insert : AlignedValue → StateValue → Entries → Entries
insert k v no_entries = entry k v no_entries
insert k v (entry j w m) = if same_value j k then entry j v m else entry j w (insert k v m)

unfoldable pub remove : AlignedValue → Entries → Entries
remove k no_entries = no_entries
remove k (entry j w m) = if same_value j k then m else entry j w (remove k m)

abbrev pub size : Entries → ℕ
size no_entries = 0
size (entry _ _ m) = suc (size m)

abbrev pub len : Elements → ℕ
len no_elements = 0
len (element _ a) = suc (len a)

-- `Array::get`
unfoldable pub element_at : Elements → ℕ → Option StateValue
element_at no_elements i = none
element_at (element v a) zero = some v
element_at (element v a) (suc i) = element_at a i

unfoldable pub write_at : Elements → ℕ → StateValue → Elements
write_at no_elements i v = no_elements
write_at (element w a) zero v = element v a
write_at (element w a) (suc i) v = element w (write_at a i v)

-- `Array::insert`, at an index that exists.
unfoldable pub insert_at : Elements → ℕ → StateValue → Option Elements
unfolding write_at
insert_at a i v = if leb (len a) i then none else some (write_at a i v)

-- `vec![StateValue::Null; size]`
unfoldable pub nulls : ℕ → Elements
nulls zero = no_elements
nulls (suc n) = element null (nulls n)

-- `next_power_of_two().ilog2()`: the number of halvings, rounded up, that lead to 1. A u128 has at
-- most 128 of them.
unfoldable pub halvings : ℕ → ℕ → ℕ
halvings zero n = 0
halvings (suc fuel) n = let rest = halvings fuel ((n + 1) / 2) in if leb n 1 then 0 else suc rest

unfoldable pub log_size : StateValue → ℕ
unfolding halvings serialized_size
log_size null = 0
log_size (cell a) = halvings 128 (serialized_size a)
log_size (map m) = halvings 128 (size m)
log_size (array a) = halvings 128 (len a)
log_size (bounded_merkle_tree t) = height t

unfoldable pub as_cell : StateValue → Result Stop AlignedValue
as_cell (cell a) = ok a
as_cell v = fail (expected_cell v)

-- The `?` on a conversion.
abbrev pub decoded {ℓ} : {A : Type ℓ} → Result InvalidBuiltinDecode A → Result Stop A
decoded m = map_err (λ e. failed (decode e)) m

-- `&` on strengths.
unfoldable pub both_strengths : ValueStrength → ValueStrength → ValueStrength
both_strengths strong strong = strong
both_strengths _ _ = weak
