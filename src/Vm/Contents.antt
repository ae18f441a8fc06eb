-- ===== src/Vm/Contents.antt =====
-- What `ins` writes is what `idx` reads (`Vm.Access`), by the equality of aligned values
-- (`Fab.Size`) and the entries and elements of state values (`Vm.Store`).
use midnight_ledger.Prelude.{
  ℕ, zero, suc, ◌≡◌, refl, sym, Bool, true, false, some, List, [], ◌∷◌, leb, ◌==◌, ok, ok_or,
  >>=-eq-ok, ok-injective, Bool-cases, inl, inr, arith, ap,
}
use midnight_ledger.Fab.{
  AlignedValue, AlignmentAtom, Alignment, aligned, segment, AlignmentSegment, atom, choice, Options,
  no_options, alternative, u8_of_value,
}
use midnight_ledger.Fab.Size.{
  same_list, same_alignment_atom, same_alignment, same_segment, same_options, same_value,
}
use midnight_ledger.Vm.{
  StateValue, null, cell, map, array, bounded_merkle_tree, Entries, no_entries, entry, Elements,
  no_elements, element, failed, type_error, Config,
}
use midnight_ledger.Vm.Store.{get, insert, len, element_at, write_at, insert_at, decoded}
use midnight_ledger.Vm.Access.{value_or_null, idx_value, ins_value}

same_list_refl :
    {A : Type 0} (q : A → A → Bool) (xs : List A)
    → ((x : A) → q x x ≡ true)
    → same_list q xs xs ≡ true
same_list_refl q [] h = refl
same_list_refl q (x ∷ xs) h = rw (h x, same_list_refl q xs h) refl

==_refl : (n : ℕ) → (n == n) ≡ true
==_refl n = ground arith

same_alignment_atom_refl : (a : AlignmentAtom) → same_alignment_atom a a ≡ true
unfolding same_alignment_atom
same_alignment_atom_refl a = ground arith

mutual
  unfolding same_alignment same_segment same_options

  same_alignment_refl : (a : Alignment) → same_alignment a a ≡ true
  same_alignment_refl aligned = refl
  same_alignment_refl (segment s a) = rw (same_segment_refl s, same_alignment_refl a) refl

  same_segment_refl : (s : AlignmentSegment) → same_segment s s ≡ true
  same_segment_refl (atom p) = same_alignment_atom_refl p
  same_segment_refl (choice o) = same_options_refl o

  same_options_refl : (o : Options) → same_options o o ≡ true
  same_options_refl no_options = refl
  same_options_refl (alternative a o) = rw (same_alignment_refl a, same_options_refl o) refl

same_value_refl : (a : AlignedValue) → same_value a a ≡ true
unfolding same_value
same_value_refl a =
    rw
      (
        same_list_refl (same_list (λ m n. m == n)) a.value
            (λ bs. same_list_refl (λ m n. m == n) bs ==_refl),
        same_alignment_refl a.alignment,
      )
      refl

get-insert : (k : AlignedValue) (v : StateValue) (m : Entries) → get k (insert k v m) ≡ some v
unfolding get insert
get-insert k v no_entries = rw (same_value_refl k) refl
get-insert k v (entry j w m) = elim (Bool-cases (same_value j k)) [
  | inl e ↦ rw e (rw e refl)
  | inr e ↦ rw e (rw e (get-insert k v m))
]

element_at-write_at :
    (a : Elements) (i : ℕ) (v : StateValue)
    → leb (len a) i ≡ false
    → element_at (write_at a i v) i ≡ some v
unfolding element_at write_at
element_at-write_at no_elements i v h = ground arith
element_at-write_at (element w a) zero v h = refl
element_at-write_at (element w a) (suc i) v h = element_at-write_at a i v (ground arith)

insert_at-element_at :
    (a : Elements) (i : ℕ) (v : StateValue) (a' : Elements)
    → ok_or (insert_at a i v) (failed type_error) ≡ ok a'
    → element_at a' i ≡ some v
unfolding insert_at
insert_at-element_at a i v a' h = elim (Bool-cases (leb (len a) i)) [
  | inl e ↦ let bad = rw (insert_at, e) at h in cc
  | inr e ↦
      let w = ok-injective (rw (insert_at, e) at h) in rw (sym w) (element_at-write_at a i v e)
]

abbrev pub is_tree : StateValue → Bool
is_tree (bounded_merkle_tree _) = true
is_tree _ = false

-- What is put into an array or a map under a key is what is read under it, if the cache check of
-- the read passes.
pub ins_value-idx_value :
    (C : Config) (container : StateValue) (key : AlignedValue) (v next : StateValue)
    → is_tree container ≡ false
    → ins_value C container key v ≡ ok next
    → idx_value next key false ≡ ok v
unfolding ins_value idx_value
ins_value-idx_value C null key v next t h = cc
ins_value-idx_value C (cell a) key v next t h = cc
ins_value-idx_value C (bounded_merkle_tree _) key v next t h = cc
ins_value-idx_value C (map m) key v next t h =
    rw (sym (ok-injective h)) (ap ok (ap value_or_null (get-insert key v m)))
ins_value-idx_value C (array a) key v next t h =
    let (i, d, h₁) = >>=-eq-ok (decoded (u8_of_value key.value)) _ h in
    let (a', w, h₂) = >>=-eq-ok (ok_or (insert_at a i v) (failed type_error)) _ h₁ in
    rw (sym (ok-injective h₂), d, insert_at-element_at a i v a' w) refl
