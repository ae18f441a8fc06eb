-- ===== src/Dust/Spend.antt =====
-- The nullifiers of spent dust (`apply_spend` of ledger/src/dust.rs), along sequences of operations.
use midnight_ledger.Prelude.{
  ℕ, ◌-◌, ◌^◌, ◌≡◌, refl, true, not, List, ◌==◌, ok, err, try_fold, >>=-eq-ok, ok-injective,
  map_err, fail_if-eq-ok, subst, Bool-cases, inl, inr, Option-cases, arith, nat_eq,
}
use midnight_ledger.Prelude.Dict.{lookup, contains_key, contains_key-insert}
use midnight_ledger.MerkleTree.{index, try_update_hash}
use midnight_ledger.Ledger.{night}
use midnight_ledger.Dust.{
  DustState, DustGenerationInfo, DustSpend, UtxoSpend, Hashes, dust_double_spend, merkle_tree_error,
  apply_spend, fresh_dust_output, post_block_update, uniqueness, uniqueness_eq, spend_nonce,
}
use midnight_ledger.Dust.CNight.{CNightEvent, destroy_night}
use midnight_ledger.Dust.Offer.{end_generation}
use midnight_ledger.Dust.Steps.{DustStep, take_step, run-P}

module _ (H : Hashes) (n : ℕ) where
  abbrev IsSpent : DustState → Type 0
  IsSpent s = contains_key n s.utxo.nullifiers ≡ true

  fresh-IsSpent :
      (s : DustState) (nonce initial value addr tnow : ℕ) (t : DustState)
      → IsSpent s
      → fresh_dust_output H s nonce initial value addr tnow ≡ ok t
      → IsSpent t
  unfolding fresh_dust_output
  fresh-IsSpent s nonce initial value addr tnow t p h =
      let g = s.generation in
      let info : DustGenerationInfo = record {
        value = value;
        owner = addr;
        nonce = nonce;
        dtime = 2 ^ 64 - 1;
      } in
      let (tree, _, h₁) =
        >>=-eq-ok
          (map_err merkle_tree_error (
            try_update_hash s.utxo.commitments s.utxo.commitments_first_free
              (H.commitment initial addr (H.dust_first_nonce nonce addr) tnow) tt))
          _ h in
      let (_, h₂) = fail_if-eq-ok (contains_key (uniqueness info) g.generating_set) _ _ h₁ in
      let (u, _, h₃) =
        >>=-eq-ok
          (map_err merkle_tree_error (
            try_update_hash g.generating_tree g.generating_tree_first_free (H.merkle_hash info)
              info))
          _ h₂ in
      subst IsSpent (ok-injective h₃) p

  end-IsSpent :
      (tblock : ℕ) (s : DustState) (input : UtxoSpend) (t : DustState)
      → IsSpent s
      → end_generation H tblock s input ≡ ok t
      → IsSpent t
  unfolding end_generation
  end-IsSpent tblock s input t p h = elim (Bool-cases (not (input.type_ == night))) [
    | inl other ↦ subst IsSpent (ok-injective (rw (end_generation, other) at h)) p
    | inr nights ↦ elim (Option-cases (lookup (spend_nonce H input) s.generation.night_indices)) [
      | inl e ↦ subst IsSpent (ok-injective (rw (end_generation, nights, e) at h)) p
      | inr (i, e) ↦ elim (Option-cases (index s.generation.generating_tree i)) [
        | inl f ↦ subst IsSpent (ok-injective (rw (end_generation, nights, e, f) at h)) p
        | inr (found, f) ↦
            let info : DustGenerationInfo = record found.1 { dtime = tblock } in
            let (u, _, h₁) =
              >>=-eq-ok
                (map_err merkle_tree_error
                  (try_update_hash s.generation.generating_tree i (H.merkle_hash info) info))
                _ (rw (end_generation, nights, e, f) at h) in
            subst IsSpent (ok-injective h₁) p
      ]
    ]
  ]

  destroy-IsSpent :
      (s : DustState) (event : CNightEvent) (t : DustState)
      → IsSpent s
      → destroy_night H s event ≡ ok t
      → IsSpent t
  unfolding destroy_night
  destroy-IsSpent s event t p h = ground arith

  spend-IsSpent :
      (s : DustState) (x : DustSpend) (t : DustState)
      → IsSpent s
      → apply_spend s x ≡ ok t
      → IsSpent t
  unfolding apply_spend
  spend-IsSpent s x t p h =
      let (_, h₁) = fail_if-eq-ok (contains_key x.old_nullifier s.utxo.nullifiers) _ _ h in
      let (tree, _, h₂) =
        >>=-eq-ok
          (map_err merkle_tree_error
            (try_update_hash s.utxo.commitments s.utxo.commitments_first_free x.new_commitment tt))
          _ h₁ in
      subst IsSpent (ok-injective h₂)
        (ground (arith, p, contains_key-insert x.old_nullifier n tt s.utxo.nullifiers))

  run-IsSpent :
      (s t : DustState) (steps : List DustStep)
      → IsSpent s
      → try_fold (take_step H) s steps ≡ ok t
      → IsSpent t
  unfolding post_block_update
  run-IsSpent s t steps p h =
      run-P H IsSpent fresh-IsSpent end-IsSpent destroy-IsSpent (λ s d p. p) spend-IsSpent
        (λ s tblock ttl p. p) s t steps p h

apply_spend-IsSpent :
    (H : Hashes) (s : DustState) (x : DustSpend) (t : DustState)
    → apply_spend s x ≡ ok t
    → IsSpent H x.old_nullifier t
unfolding apply_spend
apply_spend-IsSpent H s x t h =
    let (_, h₁) = fail_if-eq-ok (contains_key x.old_nullifier s.utxo.nullifiers) _ _ h in
    let (tree, _, h₂) =
      >>=-eq-ok
        (map_err merkle_tree_error
          (try_update_hash s.utxo.commitments s.utxo.commitments_first_free x.new_commitment tt))
        _ h₁ in
    subst (IsSpent H x.old_nullifier) (ok-injective h₂)
      (ground (arith, contains_key-insert x.old_nullifier x.old_nullifier tt s.utxo.nullifiers))

-- After dust with a nullifier is spent, whatever spends, registrations, offers, events of NIGHT on
-- Cardano, claims and blocks the state takes next, a spend of the same nullifier is refused as a
-- double spend.
pub no_dust_double_spend :
    (H : Hashes) (s t u : DustState) (x y : DustSpend) (steps : List DustStep)
    → apply_spend s x ≡ ok t
    → try_fold (take_step H) t steps ≡ ok u
    → y.old_nullifier ≡ x.old_nullifier
    → apply_spend u y ≡ err (dust_double_spend x.old_nullifier)
unfolding apply_spend
no_dust_double_spend H s t u x y steps first between same =
    let p = run-IsSpent H x.old_nullifier t u steps (apply_spend-IsSpent H s x t first) between in
    rw (apply_spend, same, p) refl
