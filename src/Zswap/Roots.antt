-- ===== src/Zswap/Roots.antt =====
-- The recent roots of the commitment tree (`past_roots` of zswap/src/ledger.rs): which roots a block
-- leaves, and that a coin in the tree can be spent against the root of the block that ends.
use midnight_ledger.Prelude.{
  ℕ, ◌+◌, ◌-◌, ◌^◌, ◌<◌, ◌≡◌, sym, true, Option, none, some, [], ◌∷◌, arith, ltb, ◌==◌,
  if◌then◌else◌, ok, nat_eq, subst, ==_iff, >>=-eq-ok, ok-injective, map_err, fail_if, ◌>>◌,
  map_err-eq-ok, fail_if-eq-ok, try_fold, try_fold-inv,
}
use midnight_ledger.Prelude.Dict.{Dict, contains_key, lookup, lookup-insert}
use midnight_ledger.Storage.TimeFilterMap
use midnight_ledger.Storage.TimeFilterMap.{
  TimeFilterMap, IsConsistent, occurs, tally, contains, filter, prune, lookup-prune,
  insert-IsConsistent, filter-IsConsistent, contains-entry,
}
use midnight_ledger.MerkleTree.{
  Hashing, MerklePath, try_update_hash, index, rehash, expect_root, path_for_leaf, path_root,
}
use midnight_ledger.MerkleTree.Membership.{
  HashConsistent, path_root-path_for_leaf, try_update_hash-HashConsistent,
}
use midnight_ledger.Zswap.{
  State, Output, Transient, Offer, post_block_update, append_commitment, apply_input, apply_output,
  apply_transient, try_apply, with_index, commitment_already_present, nullifier_already_present,
}
use midnight_ledger.Zswap.Invariant.{IsValid, spend, apply_input-eq-ok}

module _ (H : Hashing) where
  -- After a block the entry of a time is gone if the time is more than an hour before the block, is
  -- the root of the rehashed tree if it is the time of the block, and else is what it was.
  lookup-post_block_update :
      (s : State) (tblock ts : ℕ)
      → lookup ts (post_block_update H s tblock).past_roots.time_map ≡ (
          if ltb ts (tblock - 3600)
          then none
          else if tblock == ts
          then some (expect_root H (rehash H s.coin_coms) ∷ [])
          else lookup ts s.past_roots.time_map)
  unfolding post_block_update filter TimeFilterMap.insert
  lookup-post_block_update s tblock ts =
      let r = expect_root H (rehash H s.coin_coms) ∷ [] in
      ground (
        arith,
        lookup-prune ts (tblock - 3600)
            (TimeFilterMap.insert tblock (expect_root H (rehash H s.coin_coms))
              s.past_roots).time_map,
        lookup-insert tblock ts r s.past_roots.time_map,
      )

  pub past_roots-IsConsistent :
      (s : State) (tblock : ℕ)
      → occurs (expect_root H (rehash H s.coin_coms)) s.past_roots.time_map + 1 < 2 ^ 32
      → IsConsistent s.past_roots
      → IsConsistent (post_block_update H s tblock).past_roots
  unfolding post_block_update
  past_roots-IsConsistent s tblock room c =
      let r = expect_root H (rehash H s.coin_coms) in
      filter-IsConsistent (tblock - 3600) (TimeFilterMap.insert tblock r s.past_roots)
        (insert-IsConsistent tblock r s.past_roots room c)

  tally_own : (r : ℕ) → tally r (r ∷ []) ≡ 1
  unfolding tally
  tally_own r = ground (arith, ==_iff r r)

  root-contained :
      (s : State) (tblock : ℕ)
      → occurs (expect_root H (rehash H s.coin_coms)) s.past_roots.time_map + 1 < 2 ^ 32
      → IsConsistent s.past_roots
      → contains (expect_root H (rehash H s.coin_coms)) (post_block_update H s tblock).past_roots
        ≡ true
  root-contained s tblock room c =
      let r = expect_root H (rehash H s.coin_coms) in
      contains-entry r tblock (r ∷ []) (post_block_update H s tblock).past_roots
        (past_roots-IsConsistent s tblock room c)
        (ground (arith, lookup-post_block_update s tblock tblock, ==_iff tblock tblock))
        (omega (arith, tally_own r))

  append_commitment-HashConsistent :
      (s t : State) (c c' ix : ℕ) (a : Option ℕ)
      → HashConsistent H s.coin_coms
      → append_commitment H s c a none ≡ ok (t, c', ix)
      → HashConsistent H t.coin_coms
  unfolding append_commitment
  append_commitment-HashConsistent s t c c' ix a h e =
      let update = try_update_hash s.coin_coms s.first_free c a in
      let (tree, e1, e2) = >>=-eq-ok (map_err _ update) _ e in
      subst (λ p. HashConsistent H p.0.coin_coms) (ok-injective e2)
        (try_update_hash-HashConsistent H s.coin_coms tree s.first_free c a h
          (map_err-eq-ok _ update e1))

  apply_output-HashConsistent :
      (s t : State) (out : Output) (c ix : ℕ)
      → HashConsistent H s.coin_coms
      → apply_output H s out none ≡ ok (t, c, ix)
      → HashConsistent H t.coin_coms
  unfolding apply_output
  apply_output-HashConsistent s t out c ix h e =
      let (_, e1) = fail_if-eq-ok _ _ _ e in
      append_commitment-HashConsistent s t out.coin_com c ix out.contract_address h e1

  apply_transient-HashConsistent :
      (s t : State) (trans : Transient) (c ix : ℕ)
      → HashConsistent H s.coin_coms
      → apply_transient H s trans none ≡ ok (t, c, ix)
      → HashConsistent H t.coin_coms
  unfolding apply_transient
  apply_transient-HashConsistent s t trans c ix h e =
      let last =
        append_commitment H (spend H s trans.nullifier true) trans.coin_com trans.contract_address
          none in
      let spent = contains_key trans.nullifier s.nullifiers in
      let (_, e1) =
        fail_if-eq-ok (contains_key trans.coin_com s.coin_coms_set)
          (commitment_already_present trans.coin_com)
          (fail_if spent (nullifier_already_present trans.nullifier) >> last) e in
      let (_, e2) = fail_if-eq-ok spent (nullifier_already_present trans.nullifier) last e1 in
      append_commitment-HashConsistent (spend H s trans.nullifier true) t trans.coin_com c ix
        trans.contract_address h e2

  -- An offer that a full node applies keeps every stored hash of the tree the hash of its
  -- children's roots.
  pub try_apply-HashConsistent :
      (s t : State) (offer : Offer) (indices : Dict ℕ ℕ)
      → HashConsistent H s.coin_coms
      → try_apply H s offer none ≡ ok (t, indices)
      → HashConsistent H t.coin_coms
  unfolding try_apply
  try_apply-HashConsistent s t offer indices h e =
      let (s1, e1, e') =
        >>=-eq-ok (try_fold (λ r inp. apply_input r inp none) s offer.inputs) _ e in
      let (p2, e2, e3) =
        >>=-eq-ok (try_fold (with_index H (apply_output H) none) (s1, []) offer.outputs) _ e' in
      let h1 =
        try_fold-inv (λ r. HashConsistent H r.coin_coms) (λ r inp. apply_input r inp none)
          (λ r inp r' h e.
            subst (λ r. HashConsistent H r.coin_coms) (apply_input-eq-ok H r r' inp none e).2 h)
          s s1 offer.inputs h e1 in
      let h2 =
        try_fold-inv (λ p. HashConsistent H p.0.coin_coms) (with_index H (apply_output H) none)
          (λ p out q h e.
            let ((r, c, ix), a, b) = >>=-eq-ok (apply_output H p.0 out none) _ e in
            subst (λ q. HashConsistent H q.0.coin_coms) (ok-injective b)
              (apply_output-HashConsistent p.0 r out c ix h a))
          (s1, []) p2 offer.outputs h1 e2 in
      try_fold-inv (λ p. HashConsistent H p.0.coin_coms) (with_index H (apply_transient H) none)
        (λ p trans q h e.
          let ((r, c, ix), a, b) = >>=-eq-ok (apply_transient H p.0 trans none) _ e in
          subst (λ q. HashConsistent H q.0.coin_coms) (ok-injective b)
            (apply_transient-HashConsistent p.0 r trans c ix h a))
        p2 (t, indices) offer.transient h2 e3

  -- After a block, a commitment in the tree of a valid state, whose tree has consistent hashes and
  -- whose recent roots are consistent and have room for one more, has a membership path whose root
  -- the state accepts in a spend.
  pub spendable_after_block :
      (s : State) (tblock i v : ℕ) (a : Option ℕ)
      → IsValid s
      → HashConsistent H s.coin_coms
      → IsConsistent s.past_roots
      → occurs (expect_root H (rehash H s.coin_coms)) s.past_roots.time_map + 1 < 2 ^ 32
      → i < 2 ^ 32
      → index s.coin_coms i ≡ some (v, a)
      → let t = post_block_update H s tblock in
        (p : MerklePath) × (path_for_leaf H t.coin_coms i v ≡ ok p)
        × (contains (path_root H p) t.past_roots ≡ true)
  unfolding post_block_update
  spendable_after_block s tblock i v a valid hashes roots room in_tree found =
      let (high, well) = valid.frontier.shape in
      let (p, gives, leads) =
        path_root-path_for_leaf H s.coin_coms i v a well hashes
          (subst (λ h. i < 2 ^ h) (sym high) in_tree) found in
      (p, gives, rw leads (root-contained s tblock room roots))
