-- ===== src/Dust/Tests.antt =====
-- Witnesses of the properties of the dust state.
use midnight_ledger.Prelude.{
  ℕ, ◌+◌, ◌-◌, map, ◌≤◌, ◌≡◌, refl, true, Option, none, some, List, [], ◌∷◌, Result, ok, err,
  try_fold, is_some, arith,
}
use midnight_ledger.Prelude.Dict.{Dict, lookup}
use midnight_ledger.MerkleTree.{Hashing, index, update_stub, try_update_hash}
use midnight_ledger.Ledger.{night}
use midnight_ledger.Dust.{
  UtxoSpend, DustRegistration, uniqueness_eq, DustParameters, DustOutput, DustGenerationInfo,
  DustState, DustSpend, Intent, Hashes, DustError, updated_value, apply_spend, dust_double_spend,
  new,
}
use midnight_ledger.Dust.Steps.{
  delegated, DustStep, spend, register, offer, cnight, claim, block, take_step,
}
use midnight_ledger.Dust.CNight.{create, destroy}
use midnight_ledger.Dust.Value.{renewed, updated_value-no_gain}
use midnight_ledger.Dust.Backing.{night_indices-backed}
use midnight_ledger.Dust.Spend.{no_dust_double_spend}
use midnight_ledger.Dust.Shares
use midnight_ledger.Dust.Shares.{amounts, apply_registration-amounts}
use midnight_ledger.Dust.Registration.{
  delegate, apply_registration, spent_utxo, generationless_fee_availability, owned_outputs,
  hand_out, distribute_dust, share,
}
use midnight_ledger.Ledger.{UtxoOutput, Utxo, UtxoMeta, utxo_eq}

abbrev params : DustParameters
params = record { night_dust_ratio = 100; generation_decay_rate = 2 }

abbrev output : DustOutput
output = record { initial_value = 5; owner = 1; nonce = 2; seq = 0; ctime = 10 }

abbrev info : DustGenerationInfo
info = record { value = 3; owner = 1; nonce = 4; dtime = 50 }

updated_value-no_gain_example :
    updated_value (renewed output info 52 params) info 55 params
    ≤ updated_value output info 55 params
updated_value-no_gain_example =
    updated_value-no_gain output info params 52 55 (omega arith) (omega arith)

abbrev hashing : Hashing
hashing = record { degrade_to_transient = λ h. h; transient_hash = λ a b. a + b }

abbrev hashes : Hashes
hashes = record {
  initial_nonce = λ n h. n + h;
  dust_first_nonce = λ n a. n + a;
  commitment = λ v o n t. v + n;
  merkle_hash = λ info. DustGenerationInfo.nonce info;
  user_address = λ k. k;
  hashing = hashing;
}

abbrev intent : Intent
intent = record {
  guaranteed_unshielded_offer = none;
  dust_actions = some ([], 0);
  intent_hash = λ segment. 20;
}

-- The owner 7 is registered for the dust address 1, gets NIGHT, and a block ends.
abbrev steps : List DustStep
steps =
    register [] 0 intent (record { night_key = 7; dust_address = some 1; allow_fee_payment = 0 })
      params 5
    ∷ offer (record { inputs = []; outputs = record { value = 9; owner = 7; type_ = night } ∷ [] })
        intent 1 6
    ∷ cnight (record { value = 4; owner = 1; time = 6; action = create; nonce = 30 }) 6
    ∷ claim 40 5 1 6
    ∷ cnight (record { value = 4; owner = 1; time = 7; action = destroy; nonce = 30 }) 7
    ∷ block 7 3
    ∷ []

abbrev first_spend : DustSpend
first_spend = record { v_fee = 1; old_nullifier = 11; new_commitment = 12 }

abbrev state_of : Result DustError DustState → DustState
state_of (ok s) = s
state_of (err e) = new

abbrev map_ok : Result DustError (DustState × ℕ) → Result DustError DustState
map_ok (ok (s, _)) = ok s
map_ok (err e) = err e

abbrev registered : DustState
registered = state_of (try_fold (take_step hashes) new steps)

night_indices-backed_example : is_some (index registered.generation.generating_tree 0) ≡ true
unfolding take_step try_update_hash lookup try_fold midnight_ledger.Prelude.Dict.insert update_stub
    midnight_ledger.MerkleTree.rehash uniqueness_eq index
night_indices-backed_example = night_indices-backed hashes steps registered 20 0 refl refl

abbrev spent_once : DustState
spent_once = state_of (apply_spend registered first_spend)

abbrev later : List DustStep
later =
    register [] 0 intent (record { night_key = 7; dust_address = none; allow_fee_payment = 0 })
      params 7
    ∷ spend (record { v_fee = 1; old_nullifier = 13; new_commitment = 14 })
    ∷ block 9 3
    ∷ []

abbrev spent_later : DustState
spent_later = state_of (try_fold (take_step hashes) spent_once later)

no_dust_double_spend_example : apply_spend spent_later first_spend ≡ err (dust_double_spend 11)
unfolding take_step try_update_hash lookup try_fold midnight_ledger.Prelude.Dict.insert update_stub
    midnight_ledger.MerkleTree.rehash uniqueness_eq index
no_dust_double_spend_example =
    no_dust_double_spend hashes registered spent_once spent_later first_spend first_spend later refl
      refl refl

-- The owner 7 spends NIGHT that generated no dust, for a smaller output, and registers.
abbrev spent_night : UtxoSpend
spent_night = record { value = 9; owner = 7; type_ = night; intent_hash = 2; output_no = 0 }

abbrev moving : Intent
moving = record {
  guaranteed_unshielded_offer = some (record {
    inputs = spent_night ∷ [];
    outputs = record { value = 9; owner = 7; type_ = night } ∷ [];
  });
  dust_actions = some ([], 10);
  intent_hash = λ segment. 20;
}

abbrev paying : DustRegistration
paying = record { night_key = 7; dust_address = some 1; allow_fee_payment = 100 }

abbrev known : Dict Utxo UtxoMeta
known = (spent_utxo hashes spent_night, record { ctime = 4 }) ∷ []

-- 60 fees of the 108 that were generated are paid, and 48 handed out.
abbrev paid_out : DustState
paid_out = state_of (map_ok (apply_registration hashes new known 60 moving paying params 10))

apply_registration-amounts_example :
    (d : Dict ℕ ℕ) × (created : List (ℕ × (ℕ × UtxoOutput))) × (delegate hashes [] 7 (some 1)
      ≡ ok d)
    × (map (λ c. c.1) created ≡ (0, record { value = 9; owner = 7; type_ = night }) ∷ [])
    × (try_fold (Shares.create hashes 20 1 10) (delegated new d) created ≡ ok paid_out)
    × (0 ≤ 60)
    × (amounts created + (60 - 0) ≤ 108)
unfolding owned_outputs generationless_fee_availability delegate apply_registration hand_out
    distribute_dust share try_fold try_update_hash update_stub lookup utxo_eq
apply_registration-amounts_example =
    apply_registration-amounts hashes new paid_out known 60 0 moving paying params 10 (omega arith)
      refl
