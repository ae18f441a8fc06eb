-- ===== src/Ledger/Utxos.antt =====
-- The unshielded outputs (`UtxoState` of ledger/src/structure.rs, and its `apply_offer` of
-- ledger/src/semantics.rs).
use midnight_ledger.Prelude.{
  ℕ, ◌+◌, ◌%◌, ◌^◌, not, List, [], ◌∷◌, Result, ok, ◌>>=◌, ◌>>◌, fail_if, try_fold, nat_eq,
}
use midnight_ledger.Prelude.Dict.{Dict, contains_key, insert, erase}
use midnight_ledger.Ledger.{Utxo, UtxoMeta, UtxoOutput, utxo_eq}

-- `UnshieldedOffer`: the spent outputs, in the form that `Utxo::from` gives them, and the new ones.
pub record UnshieldedOffer : Type 0 where
  pub inputs : List Utxo
  pub outputs : List UtxoOutput

pub data OfferError : Type 0 where
  input_not_in_utxos : Utxo → OfferError

unfoldable pub spend_utxo : Dict Utxo UtxoMeta → Utxo → Result OfferError (Dict Utxo UtxoMeta)
spend_utxo res input = do
  fail_if (not (contains_key input res)) (input_not_in_utxos input)
  ok (erase input res)

-- The outputs by their number, which is cast to 32 bits.
unfoldable pub new_utxos : ℕ → ℕ → List UtxoOutput → List Utxo
new_utxos intent_hash n [] = []
new_utxos intent_hash n (o ∷ os) =
    record {
      value = o.value;
      owner = o.owner;
      type_ = o.type_;
      intent_hash = intent_hash;
      output_no = n % 2 ^ 32;
    }
    ∷ new_utxos intent_hash (n + 1) os

-- The new outputs are collected in a set, whose order does not matter to the insertions.
unfoldable pub insert_utxos : ℕ → Dict Utxo UtxoMeta → List Utxo → Dict Utxo UtxoMeta
insert_utxos tblock res [] = res
insert_utxos tblock res (u ∷ us) = insert_utxos tblock (insert u (record { ctime = tblock }) res) us

-- The hash is `parent.intent_hash(segment_id)`.
unfoldable pub apply_offer :
    Dict Utxo UtxoMeta → UnshieldedOffer → ℕ → ℕ → Result OfferError (Dict Utxo UtxoMeta)
unfolding spend_utxo new_utxos insert_utxos
apply_offer self offer intent_hash tblock = do
  res ← try_fold spend_utxo self offer.inputs
  ok (insert_utxos tblock res (new_utxos intent_hash 0 offer.outputs))
