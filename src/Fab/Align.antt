-- ===== src/Fab/Align.antt =====
-- Alignments of concatenated values (base-crypto/src/fab/encoding.rs): what `AlignedValue::concat`
-- assumes without a check.
use midnight_ledger.Prelude.{
  some-injective, ℕ, zero, suc, ◌+◌, ◌-◌, ◌≤◌, ◌≡◌, refl, sym, ◌∙◌, ap, true, Option, some, List,
  [], ◌∷◌, ◌++◌, Result, ok, err, length, arith, Bool-cases, inl, inr, Option-cases, length-append,
  ◌⊎◌,
}
use midnight_ledger.Fab.{
  Value, AlignmentAtom, Alignment, aligned, segment, AlignmentSegment, atom, choice, Options,
  no_options, alternative, bytes, is_empty, atom_fits, int_of_atom, for_u16, drop, consume_internal,
  consume_segment, consume_branch, fits, concat,
}

module _ {A : Type 0} where
  append-nil : (xs : List A) → xs ++ [] ≡ xs
  append-nil [] = refl
  append-nil (x ∷ xs) = ap (λ l. x ∷ l) (append-nil xs)

  drop-length : (k : ℕ) (xs ys : List A) → k ≡ length xs → drop k (xs ++ ys) ≡ ys
  unfolding drop
  drop-length zero [] ys e = refl
  drop-length (suc k) [] ys e = absurd (omega (arith, e))
  drop-length zero (x ∷ xs) ys e = absurd (omega (arith, e))
  drop-length (suc k) (x ∷ xs) ys e = drop-length k xs ys (omega (arith, e))

  drop-append : (n : ℕ) (xs ys : List A) → n ≤ length xs → drop n (xs ++ ys) ≡ drop n xs ++ ys
  unfolding drop
  drop-append zero xs ys h = refl
  drop-append (suc n) [] ys h = absurd (omega (arith, h))
  drop-append (suc n) (x ∷ xs) ys h = drop-append n xs ys (omega (arith, h))

  drop-drop : (m n k : ℕ) (xs : List A) → k ≡ n + m → drop m (drop n xs) ≡ drop k xs
  unfolding drop
  drop-drop m zero k xs e = ap (λ j. drop j xs) (omega (arith, e))
  drop-drop m (suc n) zero xs e = absurd (omega (arith, e))
  drop-drop zero (suc n) (suc k) [] e = refl
  drop-drop (suc m) (suc n) (suc k) [] e = refl
  drop-drop m (suc n) (suc k) (x ∷ xs) e = drop-drop m n k xs (omega (arith, e))

  length-drop : (n : ℕ) (xs : List A) → length (drop n xs) ≡ length xs - n
  unfolding drop
  length-drop zero xs = omega arith
  length-drop (suc n) [] = omega arith
  length-drop (suc n) (x ∷ xs) = omega (arith, length-drop n xs)

-- What is consumed is a part of the value, and does not depend on what follows it or on the count
-- before it.
abbrev Consumes : (Value → ℕ → Option ℕ) → Value → ℕ → ℕ → Type 0
Consumes f v acc n =
    (acc ≤ n) × (n - acc ≤ length v) × ((w : Value) (d : ℕ) → f (v ++ w) (acc + d) ≡ some (n + d))

atom-Consumes :
    (p : AlignmentAtom) (v : Value) (acc n : ℕ)
    → consume_segment (atom p) v acc ≡ some n
    → Consumes (consume_segment (atom p)) v acc n
unfolding consume_segment
atom-Consumes p [] acc n h = cc
atom-Consumes p (x ∷ v) acc n h = elim (Bool-cases (atom_fits p x)) [
  | inl e ↦
      let q : suc acc ≡ n = some-injective (rw (consume_segment, e) at h) in
      (
        omega (arith, q),
        omega (arith, q),
        λ w d. rw (consume_segment, e) (ap some (omega (arith, q))),
      )
  | inr e ↦ let bad = rw (consume_segment, e) at h in cc
]

Result-cases : {E A : Type 0} (m : Result E A) → ((a : A) × (m ≡ ok a)) ⊎ ((e : E) × (m ≡ err e))
Result-cases (ok a) = inl (a, refl)
Result-cases (err e) = inr (e, refl)

choice-Consumes :
    (o : Options)
    → ((branch : ℕ) (v : Value) (acc n : ℕ)
        → consume_branch o branch v acc ≡ some n
        → Consumes (consume_branch o branch) v acc n)
    → (v : Value) (acc n : ℕ) → consume_segment (choice o) v acc ≡ some n
    → Consumes (consume_segment (choice o)) v acc n
unfolding consume_segment
choice-Consumes o all [] acc n h = cc
choice-Consumes o all (x ∷ v) acc n h = elim (Bool-cases (atom_fits (bytes 2) x)) [
  | inr e ↦ let bad = rw (consume_segment, e) at h in cc
  | inl e ↦ elim (Result-cases (int_of_atom 16 for_u16 x)) [
    | inr (f, q) ↦ let bad = rw (consume_segment, e, q) at h in cc
    | inl (branch, q) ↦
        let (low, short, more) = all branch v (suc acc) n (rw (consume_segment, e, q) at h) in
        (
          omega (arith, low),
          omega (arith, short, low),
          λ w d.
              let start : suc (acc + d) ≡ suc acc + d = omega arith in
              rw (consume_segment, e, q, start) (more w d),
        )
  ]
]

mutual
  unfolding consume_internal

  consume_internal-Consumes :
      (a : Alignment) (v : Value) (acc n : ℕ)
      → consume_internal a v acc ≡ some n
      → Consumes (consume_internal a) v acc n
  consume_internal-Consumes aligned v acc n h =
      let q : acc ≡ n = some-injective h in
      (omega (arith, q), omega (arith, q), λ w d. ap some (omega (arith, q)))
  consume_internal-Consumes (segment s a) v acc n h =
      elim (Option-cases (consume_segment s v acc)) [
        | inl e ↦ let bad = rw e at h in cc
        | inr (mid, e) ↦
            let (low, short, more) = consume_segment-Consumes s v acc mid e in
            let (low', short', more') =
              consume_internal-Consumes a (drop (mid - acc) v) mid n (rw e at h) in
            (
              omega (arith, low, low'),
              omega (arith, low, low', short, short', length-drop (mid - acc) v),
              λ w d.
                  let same : mid + d - (acc + d) ≡ mid - acc = omega (arith, low) in
                  rw (consume_internal, more w d, same, drop-append (mid - acc) v w short)
                    (more' w d),
            )
      ]

  consume_segment-Consumes :
      (s : AlignmentSegment) (v : Value) (acc n : ℕ)
      → consume_segment s v acc ≡ some n
      → Consumes (consume_segment s) v acc n
  consume_segment-Consumes (atom p) v acc n h = atom-Consumes p v acc n h
  consume_segment-Consumes (choice o) v acc n h =
      choice-Consumes o (λ branch v acc n h. consume_branch-Consumes o branch v acc n h) v acc n h

  consume_branch-Consumes :
      (o : Options) (branch : ℕ) (v : Value) (acc n : ℕ)
      → consume_branch o branch v acc ≡ some n
      → Consumes (consume_branch o branch) v acc n
  consume_branch-Consumes no_options branch v acc n h = cc
  consume_branch-Consumes (alternative a o) zero v acc n h = consume_internal-Consumes a v acc n h
  consume_branch-Consumes (alternative a o) (suc branch) v acc n h =
      consume_branch-Consumes o branch v acc n h

-- A concatenation consumes what its first part does, then goes on with its second.
consume_internal-concat :
    (a b : Alignment) (v : Value) (acc n : ℕ)
    → consume_internal a v acc ≡ some n
    → consume_internal (concat a b) v acc ≡ consume_internal b (drop (n - acc) v) n
unfolding consume_internal concat drop
consume_internal-concat aligned b v acc n h =
    let q : acc ≡ n = some-injective h in
    let none_left : n - acc ≡ 0 = omega (arith, q) in rw (none_left, q) refl
consume_internal-concat (segment s a) b v acc n h = elim (Option-cases (consume_segment s v acc)) [
  | inl e ↦ let bad = rw e at h in cc
  | inr (mid, e) ↦
      let h' = rw e at h in
      let low = (consume_segment-Consumes s v acc mid e).0 in
      let low' = (consume_internal-Consumes a (drop (mid - acc) v) mid n h').0 in
      rw e (
        consume_internal-concat a b (drop (mid - acc) v) mid n h'
        ∙ ap (λ w. consume_internal b w n)
            (drop-drop (n - mid) (mid - acc) (n - acc) v (omega (arith, low, low'))))
]

is_empty-length : {A : Type 0} (xs : List A) → is_empty xs ≡ true → length xs ≡ 0
is_empty-length [] h = refl
is_empty-length (x ∷ xs) h = cc

length-is_empty : {A : Type 0} (xs : List A) → length xs ≡ 0 → is_empty xs ≡ true
length-is_empty [] h = refl
length-is_empty (x ∷ xs) h = absurd (omega (arith, h))

-- A value that fits is consumed to its end.
fits-consume_internal :
    (a : Alignment) (v : Value) → fits a v ≡ true → consume_internal a v 0 ≡ some (length v)
unfolding fits
fits-consume_internal a v h = elim (Option-cases (consume_internal a v 0)) [
  | inl e ↦ let bad = rw (fits, e) at h in cc
  | inr (n, e) ↦
      let (_, short, _) = consume_internal-Consumes a v 0 n e in
      let left = is_empty-length (drop n v) (rw (fits, e) at h) in
      e ∙ ap some (omega (arith, short, left, length-drop n v))
]

-- If two values fit their alignments, their concatenation fits the concatenated alignment.
fits-concat :
    (a b : Alignment) (v w : Value)
    → fits a v ≡ true
    → fits b w ≡ true
    → fits (concat a b) (v ++ w) ≡ true
unfolding fits
fits-concat a b v w ha hb =
    let ea = fits-consume_internal a v ha in
    let (_, _, first) = consume_internal-Consumes a v 0 (length v) ea in
    let p : consume_internal a (v ++ w) 0 ≡ some (length v) = first w 0 ∙ ap some (omega arith) in
    let (_, _, second) =
      consume_internal-Consumes b w 0 (length w) (fits-consume_internal b w hb) in
    let start : length v ≡ 0 + length v = omega arith in
    let q : consume_internal b w (length v) ≡ some (length w + length v) =
      ap (λ u. consume_internal b u (length v)) (sym (append-nil w))
      ∙ ap (consume_internal b (w ++ [])) start
      ∙ second [] (length v) in
    let all : length (drop (length w + length v) (v ++ w)) ≡ 0 =
      omega (arith, length-drop (length w + length v) (v ++ w), length-append v w) in
    rw
      (
        fits,
        consume_internal-concat a b (v ++ w) 0 (length v) p,
        drop-length (length v - 0) v w (omega arith),
        q,
      )
      (length-is_empty _ all)
