-- ===== src/Fab/Numbers.antt =====
-- Integers as atoms (base-crypto/src/fab/conversions.rs): what is encoded is decoded, and fits its
-- alignment.
use midnight_ledger.Prelude.{
  ℕ, zero, suc, ◌*◌, ◌/◌, ◌^◌, ◌≤◌, ◌<◌, ◌≡◌, refl, true, [], ◌∷◌, leb, ok, length, arith, le→leb,
  lt→ltb,
}
use midnight_ledger.Fab.{
  Atom, normalize, is_in_normal_form, to_le_bytes, from_le_bytes, atom_of_u128, u128_of_atom,
  int_of_atom, for_u64, single, u64_of_value, of_u64, atom_fits, bytes, fits, consume_internal,
  drop,
}

-- The integers of so many bytes.
abbrev capacity : ℕ → ℕ
capacity zero = 1
capacity (suc w) = capacity w * 256

from_le_bytes-to_le_bytes : (w n : ℕ) → n < capacity w → from_le_bytes (to_le_bytes w n) ≡ n
unfolding from_le_bytes to_le_bytes
from_le_bytes-to_le_bytes zero n h = omega (arith, h)
from_le_bytes-to_le_bytes (suc w) n h =
    omega (arith, from_le_bytes-to_le_bytes w (n / 256) (omega (arith, h)))

from_le_bytes-normalize : (a : Atom) → from_le_bytes (normalize a) ≡ from_le_bytes a
unfolding from_le_bytes normalize
from_le_bytes-normalize [] = refl
from_le_bytes-normalize (b ∷ bs) = ground (arith, from_le_bytes-normalize bs)

normalize-is_in_normal_form : (a : Atom) → is_in_normal_form (normalize a) ≡ true
unfolding is_in_normal_form normalize
normalize-is_in_normal_form [] = refl
normalize-is_in_normal_form (b ∷ bs) = ground (arith, normalize-is_in_normal_form bs)

length-normalize : (a : Atom) → length (normalize a) ≤ length a
unfolding normalize
length-normalize [] = omega arith
length-normalize (b ∷ bs) = ground (arith, length-normalize bs)

-- An integer of so many bytes has at most as many in normal form.
length-normalize-to_le_bytes :
    (w m n : ℕ) → n < capacity w → length (normalize (to_le_bytes m n)) ≤ w
unfolding normalize to_le_bytes
length-normalize-to_le_bytes w zero n h = omega arith
length-normalize-to_le_bytes zero (suc m) n h =
    ground (arith, length-normalize-to_le_bytes zero m (n / 256) (omega (arith, h)))
length-normalize-to_le_bytes (suc w) (suc m) n h =
    ground (arith, length-normalize-to_le_bytes w m (n / 256) (omega (arith, h)))

u128_of_atom-atom_of_u128 : (n : ℕ) → n < 2 ^ 128 → u128_of_atom (atom_of_u128 n) ≡ ok n
unfolding u128_of_atom atom_of_u128
u128_of_atom-atom_of_u128 n h =
    let short : leb (length (normalize (to_le_bytes 16 n))) 16 ≡ true =
      le→leb _ _ (length-normalize-to_le_bytes 16 16 n (omega (arith, h))) in
    rw
      (
        short,
        from_le_bytes-normalize (to_le_bytes 16 n),
        from_le_bytes-to_le_bytes 16 n (omega (arith, h)),
      )
      refl

int_of_atom-atom_of_u128 : (n : ℕ) → n < 2 ^ 64 → int_of_atom 64 for_u64 (atom_of_u128 n) ≡ ok n
unfolding int_of_atom
int_of_atom-atom_of_u128 n h =
    rw (u128_of_atom-atom_of_u128 n (omega (arith, h)), lt→ltb n (2 ^ 64) h) refl

atom_fits-atom_of_u128 : (n : ℕ) → n < 2 ^ 64 → atom_fits (bytes 8) (atom_of_u128 n) ≡ true
unfolding atom_fits atom_of_u128
atom_fits-atom_of_u128 n h =
    let short : leb (length (normalize (to_le_bytes 16 n))) 8 ≡ true =
      le→leb _ _ (length-normalize-to_le_bytes 8 16 n (omega (arith, h))) in
    rw (short, normalize-is_in_normal_form (to_le_bytes 16 n)) refl

-- A 64-bit integer is read back from the cell that it is written to, and the atom of the cell fits
-- its alignment.
pub of_u64-u64_of_value :
    (n : ℕ)
    → n < 2 ^ 64
    → (u64_of_value (of_u64 n).value ≡ ok n) × (fits (of_u64 n).alignment (of_u64 n).value ≡ true)
unfolding single fits consume_internal drop
of_u64-u64_of_value n h = (int_of_atom-atom_of_u128 n h, rw (fits, atom_fits-atom_of_u128 n h) refl)
