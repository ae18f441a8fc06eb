-- ===== src/Dust/Registration.antt =====
-- Registrations for dust (`apply_registration`, `generationless_fee_availability` of
-- ledger/src/dust.rs): they pay fees with the dust that spent NIGHT would have generated, and hand
-- out the rest.
use midnight_ledger.Prelude.{
  ℕ, ◌+◌, ◌-◌, ◌/◌, ◌%◌, ◌^◌, min, Bool, ◌&&◌, not, Option, none, some, List, [], ◌∷◌, ◌==◌,
  if◌then◌else◌, Result, ok, err, ◌>>=◌, ◌>>◌, fail_if, try_fold, nat_eq, foldl,
}
use midnight_ledger.Prelude.Dict.{Dict, lookup, contains_key, insert, erase}
use midnight_ledger.Ledger.{Utxo, UtxoMeta, UtxoOutput, utxo_eq, saturating_add, night}
use midnight_ledger.Dust.{
  DustParameters, DustState, DustError, DustRegistration, UtxoSpend, UnshieldedOffer, Intent,
  Hashes, dust_deregistration_not_registered, divide_by_zero, saturating_mul, fresh_dust_output,
  spend_nonce,
}

module _ (H : Hashes) where
  -- `Utxo::from` of a spend.
  abbrev pub spent_utxo : UtxoSpend → Utxo
  spent_utxo input = record {
    value = input.value;
    owner = H.user_address input.owner;
    type_ = input.type_;
    intent_hash = input.intent_hash;
    output_no = input.output_no;
  }

  -- What an input without a generation entry would have generated by the time; nothing if its
  -- metadata is missing.
  unfoldable pub input_availability : Dict Utxo UtxoMeta → DustParameters → ℕ → UtxoSpend → ℕ
  input_availability utxos params tend i =
      let vfull = saturating_mul i.value params.night_dust_ratio in
      let rate = saturating_mul i.value params.generation_decay_rate in
      elim (lookup (spent_utxo i) utxos) [
        | none ↦ 0
        | some meta ↦ min (saturating_mul (tend - meta.ctime) rate) vfull
      ]

  abbrev pub offered : Option UnshieldedOffer → List UtxoSpend
  offered none = []
  offered (some o) = o.inputs

  -- The inputs of NIGHT of a key that have no generation entry.
  abbrev is_generationless : DustState → ℕ → UtxoSpend → Bool
  is_generationless self night_key i =
      i.owner == night_key
      && (i.type_ == night && not (contains_key (spend_nonce H i) self.generation.night_indices))

  unfoldable pub generationless_fee_availability :
      DustState → Dict Utxo UtxoMeta → Intent → ℕ → DustParameters → ℕ
  unfolding input_availability
  generationless_fee_availability self utxos parent night_key params = elim parent.dust_actions [
    | none ↦ 0
    | some actions ↦
        foldl
          (λ sum i.
            if is_generationless self night_key i
            then saturating_add sum (input_availability utxos params actions.1 i)
            else sum)
          0 (offered parent.guaranteed_unshielded_offer)
  ]

  -- The outputs of NIGHT of an address, with their numbers.
  unfoldable pub owned_outputs : ℕ → ℕ → List UtxoOutput → List (ℕ × UtxoOutput)
  owned_outputs address n [] = []
  owned_outputs address n (o ∷ os) =
      let rest = owned_outputs address (n + 1) os in
      if o.owner == address && o.type_ == night then (n, o) ∷ rest else rest

  abbrev pub outputs_of : Option UnshieldedOffer → List UtxoOutput
  outputs_of none = []
  outputs_of (some o) = o.outputs

  -- Registering an address, or taking back its registration.
  unfoldable pub delegate : Dict ℕ ℕ → ℕ → Option ℕ → Result DustError (Dict ℕ ℕ)
  delegate m address none = do
    fail_if (not (contains_key address m)) (dust_deregistration_not_registered address)
    ok (erase address m)
  delegate m address (some dust_address) = ok (insert address dust_address m)

  -- The share of one output in the dust that is left, in steps of a ten-thousandth.
  unfoldable pub share : ℕ → ℕ → ℕ → Result DustError ℕ
  share value output_sum dust_out =
      if output_sum == 0
      then err divide_by_zero
      else ok (saturating_mul (saturating_mul value 10000 / output_sum) dust_out / 10000)

  unfoldable pub distribute_dust :
      ℕ → ℕ → ℕ → ℕ → ℕ → DustState → ℕ × UtxoOutput → Result DustError DustState
  unfolding share fresh_dust_output
  distribute_dust intent_hash dust_addr output_sum dust_out tnow state numbered = do
    let output = numbered.1
    initial_value ← share output.value output_sum dust_out
    fresh_dust_output H state (H.initial_nonce (numbered.0 % 2 ^ 32) intent_hash) initial_value
        output.value dust_addr tnow

  -- The dust that is left goes to the outputs, if the registration names an address for it.
  unfoldable pub hand_out :
      ℕ → Option ℕ → ℕ → ℕ → DustState → List (ℕ × UtxoOutput) → Result DustError DustState
  unfolding distribute_dust
  hand_out intent_hash none dust_out tnow state owned = ok state
  hand_out intent_hash (some dust_addr) dust_out tnow state owned =
      let output_sum = foldl (λ sum o. saturating_add sum (UtxoOutput.value o.1)) 0 owned in
      try_fold (distribute_dust intent_hash dust_addr output_sum dust_out tnow) state owned

  unfoldable pub apply_registration :
      DustState
      → Dict Utxo UtxoMeta
      → ℕ
      → Intent
      → DustRegistration
      → DustParameters
      → ℕ
      → Result DustError (DustState × ℕ)
  unfolding delegate owned_outputs generationless_fee_availability hand_out
  apply_registration self utxos fees_remaining parent registration params tnow = do
    let address = H.user_address registration.night_key
    delegation ← delegate self.generation.address_delegation address registration.dust_address
    let state : DustState = record self {
      generation = record self.generation { address_delegation = delegation };
    }
    let owned = owned_outputs address 0 (outputs_of parent.guaranteed_unshielded_offer)
    let dust_in = generationless_fee_availability self utxos parent registration.night_key params
    let fee_paid = min fees_remaining (min registration.allow_fee_payment dust_in)
    let dust_out = dust_in - fee_paid
    out ← hand_out (parent.intent_hash 0) registration.dust_address dust_out tnow state owned
    ok (out, fees_remaining - fee_paid)
