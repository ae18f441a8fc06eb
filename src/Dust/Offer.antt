-- ===== src/Dust/Offer.antt =====
-- What an unshielded offer does to the dust state (`apply_offer` of ledger/src/dust.rs): its inputs
-- of NIGHT stop generating dust, and its outputs start.
use midnight_ledger.Prelude.{
  ℕ, ◌+◌, ◌%◌, ◌^◌, Bool, false, ◌&&◌, not, Option, none, some, List, ◌==◌, if◌then◌else◌, Result,
  ok, ◌>>=◌, map_err, try_fold, nat_eq, any,
}
use midnight_ledger.Prelude.Dict.{lookup}
use midnight_ledger.MerkleTree.{index, try_update_hash}
use midnight_ledger.Ledger.{UtxoOutput, utxo_eq, night}
use midnight_ledger.Dust.{
  DustState, DustError, DustRegistration, DustGenerationInfo, UtxoSpend, UnshieldedOffer, Intent,
  Hashes, merkle_tree_error, fresh_dust_output, spend_nonce,
}

module _ (H : Hashes) where
  -- The generation of a spent input of NIGHT ends at the block's time. An index without an entry in
  -- the tree is skipped; the source marks it as a violated invariant.
  unfoldable pub end_generation : ℕ → DustState → UtxoSpend → Result DustError DustState
  end_generation tblock state input =
      if not (input.type_ == night)
      then ok state
      else elim (lookup (spend_nonce H input) state.generation.night_indices) [
        | none ↦ ok state
        | some idx ↦ elim (index state.generation.generating_tree idx) [
          | none ↦ ok state
          | some found ↦ do
            let gen_info : DustGenerationInfo = record found.1 { dtime = tblock }
            tree ← map_err merkle_tree_error (
                try_update_hash state.generation.generating_tree idx (H.merkle_hash gen_info)
                  gen_info)
            ok (record state { generation = record state.generation { generating_tree = tree } })
        ]
      ]

  -- Whether a registration of the intent is for the address.
  abbrev pub registers : ℕ → Option (List DustRegistration × ℕ) → Bool
  registers address none = false
  registers address (some actions) =
      any (λ reg. address == H.user_address (DustRegistration.night_key reg)) actions.0

  unfoldable pub start_generation :
      ℕ → Intent → ℕ → DustState × ℕ → UtxoOutput → Result DustError (DustState × ℕ)
  unfolding fresh_dust_output
  start_generation tblock parent segment acc output =
      let state = acc.0 in
      let skipped : DustState × ℕ = (state, acc.1 + 1) in
      if not (output.type_ == night)
      then ok skipped
      else elim (lookup output.owner state.generation.address_delegation) [
        | none ↦ ok skipped
        | some dust_addr ↦
            if segment == 0 && registers output.owner parent.dust_actions then ok skipped else do
              next ←
                  fresh_dust_output H state
                    (H.initial_nonce (acc.1 % 2 ^ 32) (parent.intent_hash segment)) 0 output.value
                    dust_addr tblock
              ok (next, acc.1 + 1)
      ]

  -- The outputs are counted from 0.
  unfoldable pub apply_offer :
      DustState → UnshieldedOffer → Intent → ℕ → ℕ → Result DustError DustState
  unfolding end_generation start_generation
  apply_offer self offer parent segment tblock = do
    ended ← try_fold (end_generation tblock) self offer.inputs
    started ← try_fold (start_generation tblock parent segment) (ended, 0) offer.outputs
    ok started.0
