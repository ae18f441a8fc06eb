-- ===== src/Transaction/Outside.antt =====
-- What the ledger's transitions reach outside of the ledger state (`Ledger.Outside`), by the dust
-- state of ledger/src/dust.rs: `CNightGeneratesDustUpdate` of ledger/src/semantics.rs, and the dust
-- that a claim generates.
use midnight_ledger.Prelude.{try_fold, nat_eq}
use midnight_ledger.Prelude.Dict.{lookup}
use midnight_ledger.Ledger.{Outside}
use midnight_ledger.Dust.{DustState, DustError, fresh_dust_output}
use midnight_ledger.Dust.CNight.{CNightEvent, cnight_event}
use midnight_ledger.Transaction.{Environment}

unfoldable pub outside : Environment → Outside DustState DustError CNightEvent
unfolding cnight_event fresh_dust_output
outside E = record {
  mk_intent_hash = E.mk_intent_hash;
  min_claimable_rewards = E.min_claimable_rewards;
  address_delegation = λ state address. lookup address state.generation.address_delegation;
  fresh_dust_output = λ state hash value addr tblock.
      fresh_dust_output E.hashes state (E.hashes.initial_nonce 0 hash) 0 value addr tblock;
  cnight_generates_dust_update =
      λ state events tblock. try_fold (cnight_event E.hashes tblock) state events;
}
