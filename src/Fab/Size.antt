-- ===== src/Fab/Size.antt =====
-- The serialized sizes of field-aligned values (base-crypto/src/fab/serialize.rs), and the equality
-- that the source derives for them.
use midnight_ledger.Prelude.{
  ℕ, suc, ◌+◌, ◌^◌, Bool, true, false, ◌&&◌, List, [], ◌∷◌, ltb, ◌==◌, if◌then◌else◌, length, sum,
  map,
}
use midnight_ledger.Fab.{
  Atom, Value, normalize, AlignmentAtom, compress, field, bytes, Alignment, aligned, segment,
  AlignmentSegment, atom, choice, Options, no_options, alternative, AlignedValue,
}

unfoldable pub flagged_int_size : ℕ → ℕ
flagged_int_size n =
    if ltb n (2 ^ 5) then 1 else if ltb n (2 ^ 12) then 2 else if ltb n (2 ^ 19) then 3 else 1000

-- The size of an atom in normal form.
unfoldable pub normal_size : Atom → ℕ
unfolding flagged_int_size
normal_size (b ∷ []) = if ltb b 32 then flagged_int_size b else flagged_int_size 1 + 1
normal_size a = flagged_int_size (length a) + length a

-- An atom is measured by its normal form.
unfoldable pub atom_size : Atom → ℕ
unfolding normal_size normalize
atom_size a = normal_size (normalize a)

unfoldable pub value_size : Value → ℕ
unfolding atom_size flagged_int_size
value_size (a ∷ []) = atom_size a
value_size v = flagged_int_size (length v) + sum (map atom_size v)

unfoldable pub alignment_atom_size : AlignmentAtom → ℕ
unfolding flagged_int_size
alignment_atom_size (bytes n) = flagged_int_size n
alignment_atom_size _ = 1

abbrev segments : Alignment → ℕ
segments aligned = 0
segments (segment s a) = suc (segments a)

abbrev branches : Options → ℕ
branches no_options = 0
branches (alternative a o) = suc (branches o)

unfoldable mutual
  -- The sum of the sizes of the segments.
  pub segments_size : Alignment → ℕ
  segments_size aligned = 0
  segments_size (segment s a) = segment_size s + segments_size a

  pub segment_size : AlignmentSegment → ℕ
  segment_size (atom p) = alignment_atom_size p
  segment_size (choice o) = flagged_int_size (branches o) + options_size o

  -- A branch of one segment is the segment.
  pub options_size : Options → ℕ
  options_size no_options = 0
  options_size (alternative a o) =
      (if segments a == 1 then 0 else flagged_int_size (segments a))
      + segments_size a
      + options_size o

unfoldable pub alignment_size : Alignment → ℕ
unfolding flagged_int_size segments_size
alignment_size a = (if segments a == 1 then 0 else flagged_int_size (segments a)) + segments_size a

-- `AlignedValue::serialized_size`
unfoldable pub serialized_size : AlignedValue → ℕ
unfolding value_size alignment_size
serialized_size a = value_size a.value + alignment_size a.alignment

-- Whether two lists have the same length and the same elements, under a test.
abbrev pub same_list {ℓ} : {A : Type ℓ} → (A → A → Bool) → List A → List A → Bool
same_list q [] [] = true
same_list q (x ∷ xs) (y ∷ ys) = q x y && same_list q xs ys
same_list q _ _ = false

unfoldable pub same_alignment_atom : AlignmentAtom → AlignmentAtom → Bool
same_alignment_atom compress compress = true
same_alignment_atom field field = true
same_alignment_atom (bytes m) (bytes n) = m == n
same_alignment_atom _ _ = false

unfoldable mutual
  pub same_alignment : Alignment → Alignment → Bool
  same_alignment aligned aligned = true
  same_alignment (segment s a) (segment t b) = same_segment s t && same_alignment a b
  same_alignment _ _ = false

  pub same_segment : AlignmentSegment → AlignmentSegment → Bool
  same_segment (atom p) (atom q) = same_alignment_atom p q
  same_segment (choice o) (choice r) = same_options o r
  same_segment _ _ = false

  pub same_options : Options → Options → Bool
  same_options no_options no_options = true
  same_options (alternative a o) (alternative b r) = same_alignment a b && same_options o r
  same_options _ _ = false

-- The derived `==` of aligned values.
unfoldable pub same_value : AlignedValue → AlignedValue → Bool
unfolding same_alignment
same_value a b =
    same_list (same_list (λ m n. m == n)) a.value b.value && same_alignment a.alignment b.alignment
