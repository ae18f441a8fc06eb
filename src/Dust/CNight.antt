-- ===== src/Dust/CNight.antt =====
-- Events of NIGHT on Cardano, which generates dust here (`CNightGeneratesDustUpdate` of
-- `apply_system_tx` in ledger/src/semantics.rs).
use midnight_ledger.Prelude.{ℕ, none, some, Result, ok, ◌>>=◌, map_err, nat_eq}
use midnight_ledger.Prelude.Dict.{lookup}
use midnight_ledger.MerkleTree.{index, try_update_hash, rehash}
use midnight_ledger.Dust.{
  DustState, DustError, DustGenerationInfo, Hashes, merkle_tree_error, fresh_dust_output,
}

pub data ActionType : Type 0 where
  create destroy : ActionType

pub record CNightEvent : Type 0 where
  pub value : ℕ
  pub owner : ℕ
  pub time : ℕ
  pub action : ActionType
  pub nonce : ℕ

module _ (H : Hashes) where
  -- An event that destroys NIGHT that is not tracked is skipped.
  unfoldable pub destroy_night : DustState → CNightEvent → Result DustError DustState
  destroy_night state event = elim (lookup event.nonce state.generation.night_indices) [
    | none ↦ ok state
    | some idx ↦ elim (index state.generation.generating_tree idx) [
      | none ↦ ok state
      | some found ↦ do
        let gen_info : DustGenerationInfo = record found.1 { dtime = event.time }
        tree ←
            map_err merkle_tree_error (
              try_update_hash state.generation.generating_tree idx (H.merkle_hash gen_info)
                gen_info)
        ok (record state {
          generation = record state.generation { generating_tree = rehash H.hashing tree };
        })
    ]
  ]

  unfoldable pub cnight_event : ℕ → DustState → CNightEvent → Result DustError DustState
  unfolding destroy_night fresh_dust_output
  cnight_event tblock state event = elim event.action [
    | create ↦ fresh_dust_output H state event.nonce 0 event.value event.owner event.time
    | destroy ↦ destroy_night state event
  ]
