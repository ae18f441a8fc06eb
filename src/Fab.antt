-- ===== src/Fab.antt =====
-- Field-aligned binary values (base-crypto/src/fab): atoms, alignments, which values fit an
-- alignment, and the conversions from and to integers, Booleans, hashes and field elements
-- (conversions.rs, encoding.rs, alignments.rs, and transient-crypto/src/fab.rs for digests).
--
-- A byte string is the list of its bytes, which are numbers below 256. A `HashOutput` and an `Fr`
-- are the numbers whose little-endian bytes they are.
pub mod Size
pub mod Numbers
pub mod Align
pub mod Flagged
pub mod Tests
use midnight_ledger.Prelude.{
  ℕ, zero, suc, ◌+◌, ◌-◌, ◌*◌, ◌/◌, ◌%◌, ◌^◌, Bool, true, false, ◌&&◌, ◌||◌, Option, none, some,
  List, [], ◌∷◌, ◌++◌, ltb, leb, ◌==◌, if◌then◌else◌, Result, ok, err, ◌>>=◌, length, not,
}

abbrev pub Atom : Type 0
Atom = List ℕ

abbrev pub Value : Type 0
Value = List Atom

-- The error names the built-in type.
pub data InvalidBuiltinDecode : Type 0 where
  for_u128 for_u64 for_u16 for_u8 for_bool for_hash : InvalidBuiltinDecode

abbrev pub is_empty {ℓ} : {A : Type ℓ} → List A → Bool
is_empty [] = true
is_empty (_ ∷ _) = false

-- Trailing zero bytes are popped.
unfoldable pub normalize : Atom → Atom
normalize [] = []
normalize (b ∷ bs) = let rest = normalize bs in if b == 0 && is_empty rest then [] else b ∷ rest

unfoldable pub is_in_normal_form : Atom → Bool
is_in_normal_form [] = true
is_in_normal_form (b ∷ []) = not (b == 0)
is_in_normal_form (b ∷ (c ∷ bs)) = is_in_normal_form (c ∷ bs)

-- `to_le_bytes` of an integer with so many bytes, and `from_le_bytes`, to which the zeros that the
-- source fills the buffer with add nothing.
unfoldable pub to_le_bytes : ℕ → ℕ → Atom
to_le_bytes zero n = []
to_le_bytes (suc w) n = n % 256 ∷ to_le_bytes w (n / 256)

unfoldable pub from_le_bytes : Atom → ℕ
from_le_bytes [] = 0
from_le_bytes (b ∷ bs) = b + 256 * from_le_bytes bs

-- `ValueAtom::from` of a u128, through which the smaller integers go.
unfoldable pub atom_of_u128 : ℕ → Atom
unfolding normalize to_le_bytes
atom_of_u128 n = normalize (to_le_bytes 16 n)

unfoldable pub atom_of_bool : Bool → Atom
unfolding normalize
atom_of_bool true = normalize (1 ∷ [])
atom_of_bool false = normalize (0 ∷ [])

-- `ValueAtom::from` of a `HashOutput`, and of an `Fr`, whose bytes are 32 as well.
unfoldable pub atom_of_hash : ℕ → Atom
unfolding normalize to_le_bytes
atom_of_hash h = normalize (to_le_bytes 32 h)

unfoldable pub u128_of_atom : Atom → Result InvalidBuiltinDecode ℕ
unfolding from_le_bytes
u128_of_atom a = if leb (length a) 16 then ok (from_le_bytes a) else err for_u128

-- An integer of so many bits, by way of u128.
unfoldable pub int_of_atom : ℕ → InvalidBuiltinDecode → Atom → Result InvalidBuiltinDecode ℕ
unfolding u128_of_atom
int_of_atom bits failure a = do n ← u128_of_atom a; if ltb n (2 ^ bits) then ok n else err failure

unfoldable pub bool_of_atom : Atom → Result InvalidBuiltinDecode Bool
unfolding int_of_atom
bool_of_atom a = do
  byte ← int_of_atom 8 for_u8 a
  if byte == 0 then ok false else if byte == 1 then ok true else err for_bool

unfoldable pub hash_of_atom : Atom → Result InvalidBuiltinDecode ℕ
unfolding from_le_bytes
hash_of_atom a = if leb (length a) 32 then ok (from_le_bytes a) else err for_hash

-- `forward_primitive_value`: a value of one atom.
unfoldable pub single {ℓ} :
    {A : Type ℓ}
    → InvalidBuiltinDecode
    → (Atom → Result InvalidBuiltinDecode A)
    → Value
    → Result InvalidBuiltinDecode A
single failure decode (a ∷ []) = decode a
single failure decode _ = err failure

abbrev pub u64_of_value : Value → Result InvalidBuiltinDecode ℕ
u64_of_value = single for_u64 (int_of_atom 64 for_u64)

abbrev pub u8_of_value : Value → Result InvalidBuiltinDecode ℕ
u8_of_value = single for_u8 (int_of_atom 8 for_u8)

abbrev pub hash_of_value : Value → Result InvalidBuiltinDecode ℕ
hash_of_value = single for_hash hash_of_atom

abbrev pub bool_of_value : Value → Result InvalidBuiltinDecode Bool
bool_of_value = single for_bool bool_of_atom

pub data AlignmentAtom : Type 0 where
  compress field : AlignmentAtom
  bytes : ℕ → AlignmentAtom

mutual
  -- The list of segments of an alignment.
  pub data Alignment : Type 0 where
    aligned : Alignment
    segment : AlignmentSegment → Alignment → Alignment

  pub data AlignmentSegment : Type 0 where
    atom : AlignmentAtom → AlignmentSegment
    choice : Options → AlignmentSegment

  -- The alternatives of a disjoint union.
  pub data Options : Type 0 where
    no_options : Options
    alternative : Alignment → Options → Options

abbrev pub singleton : AlignmentAtom → Alignment
singleton a = segment (atom a) aligned

abbrev pub field_byte_limit : ℕ
field_byte_limit = 64

-- `AlignmentAtom::fits`
unfoldable pub atom_fits : AlignmentAtom → Atom → Bool
unfolding is_in_normal_form
atom_fits compress a = true
atom_fits (bytes n) a = leb (length a) n && is_in_normal_form a
atom_fits field a = leb (length a) field_byte_limit && is_in_normal_form a

-- `&value[n..]`
unfoldable pub drop {ℓ} : {A : Type ℓ} → ℕ → List A → List A
drop zero xs = xs
drop (suc n) [] = []
drop (suc n) (x ∷ xs) = drop n xs

unfoldable mutual
  -- The number of atoms consumed, with those counted before; `none` if the value does not fit.
  pub consume_internal : Alignment → Value → ℕ → Option ℕ
  consume_internal aligned value acc = some acc
  consume_internal (segment s rest) value acc = elim (consume_segment s value acc) [
    | none ↦ none
    | some mid ↦ consume_internal rest (drop (mid - acc) value) mid
  ]

  pub consume_segment : AlignmentSegment → Value → ℕ → Option ℕ
  consume_segment s [] acc = none
  consume_segment (atom p) (a ∷ value) acc = if atom_fits p a then some (suc acc) else none
  consume_segment (choice o) (a ∷ value) acc =
      if atom_fits (bytes 2) a
      then elim (int_of_atom 16 for_u16 a) [
        | ok branch ↦ consume_branch o branch value (suc acc)
        | err _ ↦ none
      ]
      else none

  -- `tys.get(branch)?.consume_internal(..)`
  pub consume_branch : Options → ℕ → Value → ℕ → Option ℕ
  consume_branch no_options branch value acc = none
  consume_branch (alternative a o) zero value acc = consume_internal a value acc
  consume_branch (alternative a o) (suc branch) value acc = consume_branch o branch value acc

-- `Alignment::fits`
unfoldable pub fits : Alignment → Value → Bool
unfolding consume_internal
fits a value = elim (consume_internal a value 0) [
  | none ↦ false
  | some split_point ↦ is_empty (drop split_point value)
]

-- `Alignment::concat` of two.
unfoldable pub concat : Alignment → Alignment → Alignment
concat aligned b = b
concat (segment s a) b = segment s (concat a b)

pub record AlignedValue : Type 0 where
  pub value : Value
  pub alignment : Alignment

-- `AlignedValue::new`
unfoldable pub new : Value → Alignment → Option AlignedValue
unfolding fits
new v a = if fits a v then some (record { value = v; alignment = a }) else none

-- `AlignedValue::from` of the types that programs push.
abbrev pub of_u64 : ℕ → AlignedValue
of_u64 n = record { value = atom_of_u128 n ∷ []; alignment = singleton (bytes 8) }

abbrev pub of_u8 : ℕ → AlignedValue
of_u8 n = record { value = atom_of_u128 n ∷ []; alignment = singleton (bytes 1) }

abbrev pub of_hash : ℕ → AlignedValue
of_hash h = record { value = atom_of_hash h ∷ []; alignment = singleton (bytes 32) }

abbrev pub of_digest : ℕ → AlignedValue
of_digest r = record { value = atom_of_hash r ∷ []; alignment = singleton field }

abbrev pub of_bool : Bool → AlignedValue
of_bool b = record { value = atom_of_bool b ∷ []; alignment = singleton (bytes 1) }

abbrev pub of_unit : AlignedValue
of_unit = record { value = []; alignment = aligned }
