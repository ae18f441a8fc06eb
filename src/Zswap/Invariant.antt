-- ===== src/Zswap/Invariant.antt =====
-- The well-formedness of the Zswap state (zswap/src/ledger.rs): the tree holds one leaf for every
-- commitment seen, in the order of arrival, and an offer keeps it so.
use midnight_ledger.Prelude.{
  ℕ, ◌+◌, ◌%◌, ◌^◌, ◌<◌, ◌≤◌, ◌≡◌, refl, sym, ap, ◌∙◌, Bool, true, false, not, ◌&&◌, Option, List,
  [], arith, ltb, if◌then◌else◌, length, ok, map_err, try_fold, is_ok, >>=-eq-ok, ok-injective,
  map_err-eq-ok, fail_if-eq-ok, try_fold-inv, try_fold-counts, nat_eq, if_both, subst,
}
use midnight_ledger.Prelude.Dict.{Dict, contains_key, insert, IsDict, insert-IsDict, length-insert}
use midnight_ledger.MerkleTree.{Hashing, try_update_hash, collapse}
use midnight_ledger.MerkleTree.Frontier.{
  IsFrontier, IsFrontier-update, IsFrontier-collapse, IsFrontier-blank, IsFrontier-rehash,
}
use midnight_ledger.MerkleTree.Index.{
  try_update_hash-bound, try_update_hash_out_of_tree, is_ok-try_update_hash,
}
use midnight_ledger.Storage.TimeFilterMap.{contains}
use midnight_ledger.Zswap.{
  State, Input, Output, Transient, Offer, apply_input, apply_output, apply_transient,
  append_commitment, try_apply, with_index, post_block_update, on_whitelist, new,
  unknown_merkle_root, nullifier_already_present,
}

pub record IsValid (s : State) : Type 0 where
  pub frontier : IsFrontier 32 s.first_free s.coin_coms
  pub coms : IsDict s.coin_coms_set
  pub nullifiers : IsDict s.nullifiers
  pub counted : length s.coin_coms_set ≡ s.first_free
  pub bound : s.first_free ≤ 2 ^ 32

pub new-IsValid : IsValid new
new-IsValid = record {
  frontier = IsFrontier-blank 32;
  coms = tt;
  nullifiers = tt;
  counted = refl;
  bound = omega arith;
}

module _ (H : Hashing) where
  -- A commitment that is new to a valid state is appended: what the step returns, and the state.
  pub append_commitment-IsValid :
      (s t : State) (c c' ix : ℕ) (a : Option ℕ) (w : Option (List ℕ))
      → IsValid s
      → contains_key c s.coin_coms_set ≡ false
      → append_commitment H s c a w ≡ ok (t, c', ix)
      → IsValid t
        × (t.first_free ≡ s.first_free + 1)
        × (ix ≡ s.first_free)
        × (t.nullifiers ≡ s.nullifiers)
  unfolding append_commitment
  append_commitment-IsValid s t c c' ix a w v fresh e =
      let n = s.first_free in
      let (tree, e1, e2) = >>=-eq-ok (map_err _ (try_update_hash s.coin_coms n c a)) _ e in
      let written = map_err-eq-ok _ (try_update_hash s.coin_coms n c a) e1 in
      let in_tree : n < 2 ^ 32 =
        subst (λ h. n < 2 ^ h) v.frontier.shape.0
          (try_update_hash-bound s.coin_coms tree n c a written) in
      let moved = IsFrontier-update 32 n c a s.coin_coms tree v.frontier written in
      let no_wrap : (n + 1) % 2 ^ 64 ≡ n + 1 = omega arith in
      let leaves = if on_whitelist w a then tree else collapse H tree n n in
      let kept =
        if_both (IsFrontier 32 (n + 1)) (on_whitelist w a) moved
          (IsFrontier-collapse H 32 n tree in_tree moved) in
      subst
        (λ p.
          IsValid p.0
          × (p.0.first_free ≡ s.first_free + 1)
          × (p.2 ≡ s.first_free)
          × (p.0.nullifiers ≡ s.nullifiers))
        (ok-injective e2)
        (
          record {
            frontier = subst (λ m. IsFrontier 32 m leaves) (sym no_wrap) kept;
            coms = insert-IsDict c tt s.coin_coms_set v.coms;
            nullifiers = v.nullifiers;
            counted = length-insert c tt s.coin_coms_set ∙ rw (fresh, v.counted, no_wrap) refl;
            bound = rw no_wrap (omega arith);
          },
          no_wrap,
          refl,
          refl,
        )

  pub apply_output-IsValid :
      (s t : State) (out : Output) (c ix : ℕ) (w : Option (List ℕ))
      → IsValid s
      → apply_output H s out w ≡ ok (t, c, ix)
      → IsValid t
        × (t.first_free ≡ s.first_free + 1)
        × (ix ≡ s.first_free)
        × (t.nullifiers ≡ s.nullifiers)
  unfolding apply_output
  apply_output-IsValid s t out c ix w v e =
      let (fresh, e1) = fail_if-eq-ok _ _ _ e in
      append_commitment-IsValid s t out.coin_com c ix out.contract_address w v fresh e1

  abbrev pub spend : State → ℕ → Bool → State
  spend s n b = if b then record s { nullifiers = insert n tt s.nullifiers } else s

  -- A nullifier changes neither the tree nor the commitments.
  spend-IsValid :
      (s : State) (n : ℕ) (b : Bool)
      → IsValid s
      → IsValid (spend s n b)
        × ((spend s n b).first_free ≡ s.first_free)
        × ((spend s n b).coin_coms_set ≡ s.coin_coms_set)
  spend-IsValid s n true v = (
    record {
      frontier = v.frontier;
      coms = v.coms;
      nullifiers = insert-IsDict n tt s.nullifiers v.nullifiers;
      counted = v.counted;
      bound = v.bound;
    },
    refl,
    refl,
  )
  spend-IsValid s n false v = (v, refl, refl)

  pub apply_transient-IsValid :
      (s t : State) (trans : Transient) (c ix : ℕ) (w : Option (List ℕ))
      → IsValid s
      → apply_transient H s trans w ≡ ok (t, c, ix)
      → IsValid t × (t.first_free ≡ s.first_free + 1) × (ix ≡ s.first_free)
  unfolding apply_transient
  apply_transient-IsValid s t trans c ix w v e =
      let (fresh, e1) = fail_if-eq-ok _ _ _ e in
      let (unspent, e2) = fail_if-eq-ok _ _ _ e1 in
      let listed = on_whitelist w trans.contract_address in
      let (v1, free, coms) = spend-IsValid s trans.nullifier listed v in
      let (vt, grown, at, _) =
        append_commitment-IsValid (spend s trans.nullifier listed) t trans.coin_com c ix
          trans.contract_address w v1 (ap (contains_key trans.coin_com) coms ∙ fresh) e2 in
      (vt, grown ∙ ap (λ n. n + 1) free, at ∙ free)

  -- What an input that applies has passed, and what it changed.
  pub apply_input-eq-ok :
      (s t : State) (inp : Input) (w : Option (List ℕ))
      → apply_input s inp w ≡ ok t
      → (not (contains inp.merkle_tree_root s.past_roots) ≡ false)
        × (contains_key inp.nullifier s.nullifiers ≡ false)
        × (spend s inp.nullifier (on_whitelist w inp.contract_address) ≡ t)
  unfolding apply_input
  apply_input-eq-ok s t inp w e =
      let unknown = not (contains inp.merkle_tree_root s.past_roots) in
      let spent = contains_key inp.nullifier s.nullifiers in
      let (known, e1) = fail_if-eq-ok unknown (unknown_merkle_root inp.merkle_tree_root) _ e in
      let (unspent, e2) =
        fail_if-eq-ok spent (nullifier_already_present inp.nullifier)
          (ok (spend s inp.nullifier (on_whitelist w inp.contract_address))) e1 in
      (known, unspent, ok-injective e2)

  pub apply_input-IsValid :
      (s t : State) (inp : Input) (w : Option (List ℕ))
      → IsValid s
      → apply_input s inp w ≡ ok t
      → IsValid t × (t.first_free ≡ s.first_free)
  apply_input-IsValid s t inp w v e =
      let (_, _, eq) = apply_input-eq-ok s t inp w e in
      let (v1, free, _) = spend-IsValid s inp.nullifier (on_whitelist w inp.contract_address) v in
      subst (λ r. IsValid r × (r.first_free ≡ s.first_free)) eq (v1, free)

  -- An offer that applies keeps a valid state valid, and takes one index of the tree for each of its
  -- outputs and transients, for every whitelist.
  pub try_apply-IsValid :
      (s t : State) (offer : Offer) (w : Option (List ℕ)) (indices : Dict ℕ ℕ)
      → IsValid s
      → try_apply H s offer w ≡ ok (t, indices)
      → IsValid t × (t.first_free ≡ s.first_free + length offer.outputs + length offer.transient)
  unfolding try_apply
  try_apply-IsValid s t offer w indices v e =
      let (s1, e1, e') = >>=-eq-ok (try_fold (λ r inp. apply_input r inp w) s offer.inputs) _ e in
      let (p2, e2, e3) =
        >>=-eq-ok (try_fold (with_index H (apply_output H) w) (s1, []) offer.outputs) _ e' in
      let (v1, same) =
        try_fold-inv (λ r. IsValid r × (r.first_free ≡ s.first_free)) (λ r inp. apply_input r inp w)
          (λ r inp r' h e. let (v', eq) = apply_input-IsValid r r' inp w h.0 e in (v', eq ∙ h.1)) s
          s1 offer.inputs (v, refl) e1 in
      let (v2, grown2) =
        try_fold-counts (λ p. IsValid p.0) (λ p. p.0.first_free) (with_index H (apply_output H) w)
          (λ p out q h e.
            let ((r, c, ix), a, b) = >>=-eq-ok (apply_output H p.0 out w) _ e in
            let (v', g, _, _) = apply_output-IsValid p.0 r out c ix w h a in
            subst (λ q. IsValid q.0 × (q.0.first_free ≡ p.0.first_free + 1)) (ok-injective b)
              (v', g))
          (s1, []) p2 offer.outputs v1 e2 in
      let (v3, grown3) =
        try_fold-counts (λ p. IsValid p.0) (λ p. p.0.first_free)
          (with_index H (apply_transient H) w)
          (λ p trans q h e.
            let ((r, c, ix), a, b) = >>=-eq-ok (apply_transient H p.0 trans w) _ e in
            let (v', g, _) = apply_transient-IsValid p.0 r trans c ix w h a in
            subst (λ q. IsValid q.0 × (q.0.first_free ≡ p.0.first_free + 1)) (ok-injective b)
              (v', g))
          p2 (t, indices) offer.transient v2 e3 in
      (v3, omega arith)

  pub post_block_update-IsValid :
      (s : State) (tblock : ℕ) → IsValid s → IsValid (post_block_update H s tblock)
  unfolding post_block_update
  post_block_update-IsValid s tblock v = record {
    frontier = IsFrontier-rehash H 32 s.first_free s.coin_coms v.frontier;
    coms = v.coms;
    nullifiers = v.nullifiers;
    counted = v.counted;
    bound = v.bound;
  }

  -- On a valid state an output is refused exactly when its commitment is not new or the tree is full.
  pub is_ok-apply_output :
      (s : State) (out : Output) (w : Option (List ℕ))
      → IsValid s
      → is_ok (apply_output H s out w)
        ≡ (not (contains_key out.coin_com s.coin_coms_set) && ltb s.first_free (2 ^ 32))
  unfolding apply_output append_commitment
  is_ok-apply_output s out w v =
      let (high, well) = v.frontier.shape in
      let n = s.first_free in
      grind (
        arith,
        try_update_hash_out_of_tree s.coin_coms n out.coin_com out.contract_address,
        is_ok-try_update_hash s.coin_coms n out.coin_com out.contract_address well,
        v.frontier.writable n,
      )
