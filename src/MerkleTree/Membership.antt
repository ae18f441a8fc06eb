-- ===== src/MerkleTree/Membership.antt =====
-- Membership paths: the path that a rehashed tree gives for a leaf leads back to the tree's root.
use mathlib.Core.List.{reverse, map-append, reverse-cons, foldl-append}
use midnight_ledger.Prelude.{
  ℕ, zero, suc, ◌-◌, ◌^◌, ◌<◌, ◌≤◌, ◌≡◌, refl, sym, ◌∙◌, ap, Bool, true, false, Option, none, some,
  List, [], ◌∷◌, map, foldl, arith, ltb, ◌==◌, inl, inr, ok, is_some, unwrap_or, All, Bool-cases,
  All-append, lt→ltb, ge→ltb, ltb→lt, ltb→ge, ◌⊎◌, ==_iff,
}
use midnight_ledger.MerkleTree.{
  Hashing, MerkleTreeNode, leaf, collapsed, stub, node, height, index, try_update_hash, update_stub,
  root, expect_root, rehash, MerklePath, MerklePathEntry, path_for_index_internal, collect_entries,
  path_for_leaf, combine, path_root,
}
use midnight_ledger.MerkleTree.Shape.{WellFormed, root-rehash, rehash-Shape}
use midnight_ledger.MerkleTree.Index.{two_pow_half, index-node}

module _ {ℓ} (H : Hashing) {A : Type ℓ} where
  -- Every stored hash is the hash of the children's roots, which are there.
  abbrev pub HashConsistent : MerkleTreeNode A → Type 0
  HashConsistent (node (some x) l r h) =
      (x ≡ H.transient_hash (expect_root H l) (expect_root H r))
      × (is_some (root H l) ≡ true)
      × (is_some (root H r) ≡ true)
      × HashConsistent l
      × HashConsistent r
  HashConsistent (node none l r h) = HashConsistent l × HashConsistent r
  HashConsistent (leaf _ _) = Unit
  HashConsistent (collapsed _ _) = Unit
  HashConsistent (stub _) = Unit

  pub rehash-HashConsistent :
      (t : MerkleTreeNode A) → HashConsistent t → HashConsistent (rehash H t)
  unfolding rehash
  rehash-HashConsistent (leaf _ _) c = tt
  rehash-HashConsistent (collapsed _ _) c = tt
  rehash-HashConsistent (stub _) c = tt
  rehash-HashConsistent (node (some _) l r h) c = c
  rehash-HashConsistent (node none l r h) (cl, cr) = (
    refl,
    root-rehash H l,
    root-rehash H r,
    rehash-HashConsistent l cl,
    rehash-HashConsistent r cr,
  )

  update_stub-HashConsistent :
      (h i v : ℕ) (a : A) (u : MerkleTreeNode A) → update_stub h i v a ≡ ok u → HashConsistent u
  unfolding update_stub
  update_stub-HashConsistent zero i v a u e = ground arith
  update_stub-HashConsistent (suc h) i v a u e = grind (arith, update_stub-HashConsistent h)

  -- An update that succeeds keeps every stored hash of a tree the hash of its children's roots.
  pub try_update_hash-HashConsistent :
      (t u : MerkleTreeNode A) (i v : ℕ) (a : A)
      → HashConsistent t
      → try_update_hash t i v a ≡ ok u
      → HashConsistent u
  unfolding try_update_hash
  try_update_hash-HashConsistent (leaf _ _) u i v a c e = ground arith
  try_update_hash-HashConsistent (collapsed _ h) u i v a c e = ground arith
  try_update_hash-HashConsistent (stub h) u i v a c e = update_stub-HashConsistent h i v a u e
  try_update_hash-HashConsistent (node none l r h) u i v a c e =
      grind (arith, try_update_hash-HashConsistent l, try_update_hash-HashConsistent r)
  try_update_hash-HashConsistent (node (some _) l r h) u i v a c e =
      grind (arith, try_update_hash-HashConsistent l, try_update_hash-HashConsistent r)

-- The entry that a step of the walk becomes when its hash is there.
entry_of : Option ℕ × Bool → MerklePathEntry
entry_of p = record { sibling = unwrap_or p.0 0; goes_left = p.1 }

abbrev HasHash : Option ℕ × Bool → Type 0
HasHash p = is_some p.0 ≡ true

collect_entries-map :
    (ix : ℕ) (ps : List (Option ℕ × Bool))
    → All HasHash ps
    → collect_entries ix ps ≡ ok (map entry_of ps)
unfolding collect_entries entry_of
collect_entries-map ix [] all = refl
collect_entries-map ix ((some s, left) ∷ ps) all = rw (collect_entries-map ix ps all.1)
collect_entries-map ix ((none, left) ∷ ps) all = cc

All-reverse : (ps : List (Option ℕ × Bool)) → All HasHash ps → All HasHash (reverse ps)
All-reverse [] all = tt
All-reverse (p ∷ ps) all =
    rw (reverse-cons p ps)
      (All-append HasHash (reverse ps) (p ∷ []) (All-reverse ps all.1) (all.0, tt))

module _ (H : Hashing) where
  -- The root that a walk from the top down leads to.
  climb : ℕ → List (Option ℕ × Bool) → ℕ
  climb v [] = H.degrade_to_transient v
  climb v (p ∷ ps) = combine H (climb v ps) (entry_of p)

  foldl-climb :
      (v : ℕ) (ps : List (Option ℕ × Bool))
      → foldl (combine H) (H.degrade_to_transient v) (map entry_of (reverse ps)) ≡ climb v ps
  unfolding climb
  foldl-climb v [] = refl
  foldl-climb v (p ∷ ps) = rw (
    reverse-cons p ps,
    map-append,
    foldl-append (combine H) (H.degrade_to_transient v) (map entry_of (reverse ps)),
    foldl-climb v ps,
  )

module _ (H : Hashing) {A : Type 0} where
  -- A walk to a leaf in a rehashed tree finds every sibling's root, and climbs back to the root.
  abbrev Leads : MerkleTreeNode A → ℕ → ℕ → ℕ → Type 0
  Leads t ix i v =
      (ps : List (Option ℕ × Bool)) × (path_for_index_internal (root H) true ix t i ≡ ok ps)
      × All HasHash ps
      × (climb H v ps ≡ expect_root H t)

  -- Below a node of height 1 there is a leaf or nothing.
  read_low :
      (t : MerkleTreeNode A) (j v : ℕ) (a : A)
      → WellFormed t
      → height t ≡ 0
      → index t j ≡ some (v, a)
      → expect_root H t ≡ H.degrade_to_transient v
  unfolding index root
  read_low (leaf h x) j v a w z e = cc
  read_low (collapsed _ _) j v a w z e = cc
  read_low (stub _) j v a w z e = cc
  read_low (node _ l r h) j v a w z e = absurd (omega arith)

  module _ (x : ℕ) (l r : MerkleTreeNode A) (h ix i v : ℕ)
      (hash : x ≡ H.transient_hash (expect_root H l) (expect_root H r)) where
    Leads-left :
        1 < h
        → i < 2 ^ (h - 1)
        → is_some (root H r) ≡ true
        → Leads l ix i v
        → Leads (node (some x) l r h) ix i v
    unfolding path_for_index_internal climb entry_of root
    Leads-left tall low rr (ps, e, all, up) = (
      (root H r, true) ∷ ps,
      rw (lt→ltb _ _ tall, lt→ltb _ _ low, e),
      (rr, all),
      rw up (sym hash),
    )

    Leads-right :
        1 < h
        → 2 ^ (h - 1) ≤ i
        → is_some (root H l) ≡ true
        → Leads r ix (i - 2 ^ (h - 1)) v
        → Leads (node (some x) l r h) ix i v
    unfolding path_for_index_internal climb entry_of root
    Leads-right tall high rl (ps, e, all, up) = (
      (root H l, false) ∷ ps,
      rw (lt→ltb _ _ tall, ge→ltb _ _ high, e),
      (rl, all),
      rw up (sym hash),
    )

    -- At height 1 the index is 0 or 1.
    Leads-short :
        h ≡ 1
        → (i ≡ 0) × (expect_root H l ≡ H.degrade_to_transient v) × (is_some (root H r) ≡ true)
          ⊎ (i ≡ 1) × (expect_root H r ≡ H.degrade_to_transient v) × (is_some (root H l) ≡ true)
        → Leads (node (some x) l r h) ix i v
    unfolding path_for_index_internal climb entry_of root
    Leads-short short (inl (at, leaf_hash, rr)) =
        ((root H r, true) ∷ [], rw (short, at), (rr, tt), rw (← leaf_hash) (sym hash))
    Leads-short short (inr (at, leaf_hash, rl)) =
        ((root H l, false) ∷ [], rw (short, at), (rl, tt), rw (← leaf_hash) (sym hash))

  walk-Leads :
      (t : MerkleTreeNode A) (ix i v : ℕ) (a : A)
      → WellFormed t
      → HashConsistent H t
      → 0 < height t
      → i < 2 ^ height t
      → is_some (root H t) ≡ true
      → index t i ≡ some (v, a)
      → Leads t ix i v
  walk-Leads (leaf _ _) ix i v a w c p b rooted found = absurd (omega arith)
  walk-Leads (collapsed _ _) ix i v a w c p b rooted found = unfold index in cc
  walk-Leads (stub _) ix i v a w c p b rooted found = unfold index in cc
  walk-Leads (node none l r h) ix i v a w c p b rooted found = unfold root in cc
  walk-Leads (node (some x) l r h) ix i v a w c p b rooted found =
      let cmp = 2 ^ (h - 1) in
      let (hl, hr, wl, wr) = w in
      let (hash, rl, rr, cl, cr) = c in
      let (half_l, pred_l) = two_pow_half h (height l) hl in
      let (half_r, pred_r) = two_pow_half h (height r) hr in
      let at = rw index-node at found in
      elim (Bool-cases (ltb 1 h)) [
        | inl tall ↦ elim (Bool-cases (ltb i cmp)) [
          | inl low ↦
              Leads-left x l r h ix i v hash (ltb→lt _ _ tall) (ltb→lt _ _ low) rr
                (walk-Leads l ix i v a wl cl (ground arith) (ground arith) rl (rw low at at))
          | inr high ↦
              Leads-right x l r h ix i v hash (ltb→lt _ _ tall) (ltb→ge _ _ high) rl (
                walk-Leads r ix (i - cmp) v a wr cr (ground arith) (ground arith) rr
                  (rw high at at))
        ]
        | inr short ↦ elim (Bool-cases (ltb i cmp)) [
          | inl low ↦
              Leads-short x l r h ix i v hash (ground arith)
                (inl (ground arith, read_low l i v a wl (ground arith) (rw low at at), rr))
          | inr high ↦
              Leads-short x l r h ix i v hash (ground arith)
                (inr (ground arith, read_low r (i - cmp) v a wr (ground arith) (rw high at at), rl))
        ]
      ]

  pub index-rehash : (t : MerkleTreeNode A) (i : ℕ) → index (rehash H t) i ≡ index t i
  unfolding index rehash
  index-rehash (leaf _ _) i = refl
  index-rehash (collapsed _ _) i = refl
  index-rehash (stub _) i = refl
  index-rehash (node (some _) l r h) i = refl
  index-rehash (node none l r h) i = rw (index-rehash l i, index-rehash r (i - 2 ^ (h - 1)))

  path_of_walk :
      (t : MerkleTreeNode A) (i v : ℕ)
      → (height t == 0) ≡ false
      → Leads t i i v
      → (p : MerklePath) × (path_for_leaf H t i v ≡ ok p) × (path_root H p ≡ expect_root H t)
  unfolding path_for_leaf path_root
  path_of_walk t i v tall (ps, e, all, up) = (
    record { leaf_hash = v; path = map entry_of (reverse ps) },
    rw (tall, e, collect_entries-map i (reverse ps) (All-reverse ps all)),
    foldl-climb H v ps ∙ up,
  )

  path_for_rehashed :
      (t : MerkleTreeNode A) (i v : ℕ) (a : A)
      → WellFormed t
      → HashConsistent H t
      → i < 2 ^ height t
      → is_some (root H t) ≡ true
      → index t i ≡ some (v, a)
      → (p : MerklePath) × (path_for_leaf H t i v ≡ ok p) × (path_root H p ≡ expect_root H t)
  path_for_rehashed t i v a w c b rooted found = elim (Bool-cases (height t == 0)) [
    | inl low ↦
        let z : height t ≡ 0 = (==_iff _ _).0 low in
        let at : i ≡ 0 = omega (arith, b, ap (λ k. 2 ^ k) z) in
        (
          record { leaf_hash = v; path = [] },
          unfold path_for_leaf in rw (low, at),
          unfold path_root in sym (read_low t i v a w z found),
        )
    | inr tall ↦ path_of_walk t i v tall (walk-Leads t i i v a w c (ground arith) b rooted found)
  ]

  -- In a well-formed tree with consistent hashes, once rehashed, a leaf that is there has a
  -- membership path, and the root computed from the path is the root of the tree.
  pub path_root-path_for_leaf :
      (t : MerkleTreeNode A) (i v : ℕ) (a : A)
      → WellFormed t
      → HashConsistent H t
      → i < 2 ^ height t
      → index t i ≡ some (v, a)
      → let u = rehash H t in
        (p : MerklePath) × (path_for_leaf H u i v ≡ ok p) × (path_root H p ≡ expect_root H u)
  path_root-path_for_leaf t i v a w c b found =
      let (same_height, shape) = rehash-Shape H t w in
      path_for_rehashed (rehash H t) i v a shape (rehash-HashConsistent H t c) (rw same_height b)
        (root-rehash H t) (rw index-rehash found)
