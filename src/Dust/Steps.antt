-- ===== src/Dust/Steps.antt =====
-- Sequences of operations on the dust state (ledger/src/dust.rs), and the induction over them.
use midnight_ledger.Prelude.{
  ℕ, ◌%◌, ◌^◌, ◌≡◌, not, Option, none, some, List, ◌==◌, ◌&&◌, Result, ok, ◌>>=◌, try_fold,
  >>=-eq-ok, ok-injective, subst, try_fold-inv, Bool-cases, inl, inr, Option-cases, nat_eq,
}
use midnight_ledger.Prelude.Dict.{Dict, lookup}
use midnight_ledger.Ledger.{Utxo, UtxoMeta, UtxoOutput, night}
use midnight_ledger.Dust.{
  DustState, DustSpend, DustRegistration, DustParameters, DustError, UnshieldedOffer, UtxoSpend,
  Intent, Hashes, apply_spend, fresh_dust_output, post_block_update,
}
use midnight_ledger.Dust.Registration.{
  delegate, share, distribute_dust, hand_out, apply_registration,
}
use midnight_ledger.Dust.CNight.{
  ActionType, create, destroy, CNightEvent, destroy_night, cnight_event,
}
use midnight_ledger.Dust.Offer.{end_generation, start_generation, registers, apply_offer}

-- An operation on the state, with its arguments: what a transaction does, an event of NIGHT on
-- Cardano, the dust that a claim of NIGHT generates, and the end of a block.
pub data DustStep : Type 0 where
  spend : DustSpend → DustStep
  register : Dict Utxo UtxoMeta → ℕ → Intent → DustRegistration → DustParameters → ℕ → DustStep
  offer : UnshieldedOffer → Intent → ℕ → ℕ → DustStep
  cnight : CNightEvent → ℕ → DustStep
  claim : ℕ → ℕ → ℕ → ℕ → DustStep
  block : ℕ → ℕ → DustStep

unfoldable pub take_step : Hashes → DustState → DustStep → Result DustError DustState
unfolding apply_spend apply_registration apply_offer cnight_event fresh_dust_output
    post_block_update
take_step H s (spend x) = apply_spend s x
take_step H s (register utxos fees parent registration params tnow) = do
  (t, _) ← apply_registration H s utxos fees parent registration params tnow
  ok t
take_step H s (offer o parent segment tblock) = apply_offer H s o parent segment tblock
take_step H s (cnight event tblock) = cnight_event H tblock s event
take_step H s (claim intent_hash value addr tblock) =
    fresh_dust_output H s (H.initial_nonce 0 intent_hash) 0 value addr tblock
take_step H s (block tblock global_ttl) = ok (post_block_update H s tblock global_ttl)

abbrev pub delegated : DustState → Dict ℕ ℕ → DustState
delegated s d = record s { generation = record s.generation { address_delegation = d } }

module _ (H : Hashes) (P : DustState → Type 0)
    (fresh-P : (s : DustState) (nonce initial value addr tnow : ℕ) (t : DustState)
      → P s
      → fresh_dust_output H s nonce initial value addr tnow ≡ ok t
      → P t)
    (end-P : (tblock : ℕ) (s : DustState) (input : UtxoSpend) (t : DustState)
      → P s
      → end_generation H tblock s input ≡ ok t
      → P t)
    (destroy-P : (s : DustState) (event : CNightEvent) (t : DustState)
      → P s
      → destroy_night H s event ≡ ok t
      → P t)
    (delegated-P : (s : DustState) (d : Dict ℕ ℕ) → P s → P (delegated s d)) where
  distribute-P :
      (hash addr sum out tnow : ℕ) (s : DustState) (o : ℕ × UtxoOutput) (t : DustState)
      → P s
      → distribute_dust H hash addr sum out tnow s o ≡ ok t
      → P t
  unfolding distribute_dust
  distribute-P hash addr sum out tnow s o t p h =
      let (initial, _, h₁) = >>=-eq-ok (share H o.1.value sum out) _ h in
      fresh-P s _ initial _ addr tnow t p h₁

  hand_out-P :
      (hash : ℕ) (addr : Option ℕ) (out tnow : ℕ) (s : DustState) (owned : List (ℕ × UtxoOutput))
      (t : DustState)
      → P s
      → hand_out H hash addr out tnow s owned ≡ ok t
      → P t
  unfolding hand_out
  hand_out-P hash none out tnow s owned t p h = subst P (ok-injective h) p
  hand_out-P hash (some addr) out tnow s owned t p h =
      try_fold-inv P (distribute_dust H hash addr _ out tnow) (distribute-P hash addr _ out tnow) s
        t owned p h

  pub apply_registration-P :
      (s : DustState) (utxos : Dict Utxo UtxoMeta) (fees : ℕ) (parent : Intent)
      (registration : DustRegistration) (params : DustParameters) (tnow : ℕ) (out : DustState × ℕ)
      → P s
      → apply_registration H s utxos fees parent registration params tnow ≡ ok out
      → P out.0
  unfolding apply_registration
  apply_registration-P s utxos fees parent registration params tnow out p h =
      let address = H.user_address registration.night_key in
      let (d, _, h₁) =
        >>=-eq-ok (delegate H s.generation.address_delegation address registration.dust_address) _
          h in
      let (t, e, h₂) =
        >>=-eq-ok
          (hand_out H (parent.intent_hash 0) registration.dust_address _ tnow (delegated s d) _) _
          h₁ in
      subst (λ o. P o.0) (ok-injective h₂)
        (hand_out-P _ registration.dust_address _ tnow (delegated s d) _ t (delegated-P s d p) e)

  start-P :
      (tblock : ℕ) (parent : Intent) (segment : ℕ) (acc : DustState × ℕ) (o : UtxoOutput)
      (out : DustState × ℕ)
      → P acc.0
      → start_generation H tblock parent segment acc o ≡ ok out
      → P out.0
  unfolding start_generation
  start-P tblock parent segment acc o out p h = elim (Bool-cases (not (o.type_ == night))) [
    | inl other ↦ subst (λ a. P a.0) (ok-injective (rw (start_generation, other) at h)) p
    | inr nights ↦ elim (Option-cases (lookup o.owner acc.0.generation.address_delegation)) [
      | inl e ↦ subst (λ a. P a.0) (ok-injective (rw (start_generation, nights, e) at h)) p
      | inr (addr, e) ↦
          elim (Bool-cases (segment == 0 && registers H o.owner parent.dust_actions)) [
            | inl r ↦ subst (λ a. P a.0) (ok-injective (rw (start_generation, nights, e, r) at h)) p
            | inr r ↦
                let h' = rw (start_generation, nights, e, r) at h in
                let (next, f, h₂) =
                  >>=-eq-ok
                    (fresh_dust_output H acc.0
                      (H.initial_nonce (acc.1 % 2 ^ 32) (parent.intent_hash segment)) 0 o.value addr
                      tblock)
                    _ h' in
                subst (λ a. P a.0) (ok-injective h₂)
                  (fresh-P acc.0 _ 0 o.value addr tblock next p f)
          ]
    ]
  ]

  pub apply_offer-P :
      (s : DustState) (o : UnshieldedOffer) (parent : Intent) (segment tblock : ℕ) (t : DustState)
      → P s
      → apply_offer H s o parent segment tblock ≡ ok t
      → P t
  unfolding apply_offer
  apply_offer-P s o parent segment tblock t p h =
      let (ended, e, h₁) = >>=-eq-ok (try_fold (end_generation H tblock) s o.inputs) _ h in
      let (started, f, h₂) =
        >>=-eq-ok (try_fold (start_generation H tblock parent segment) (ended, 0) o.outputs) _ h₁ in
      let q = try_fold-inv P (end_generation H tblock) (end-P tblock) s ended o.inputs p e in
      subst P (ok-injective h₂) (
        try_fold-inv (λ acc. P acc.0) (start_generation H tblock parent segment)
          (start-P tblock parent segment) (ended, 0) started o.outputs q f)

  cnight-P :
      (tblock : ℕ) (s : DustState) (value owner time nonce : ℕ) (action : ActionType)
      (t : DustState)
      → P s
      → cnight_event H tblock s
          (record { value = value; owner = owner; time = time; action = action; nonce = nonce })
        ≡ ok t
      → P t
  unfolding cnight_event
  cnight-P tblock s value owner time nonce create t p h = fresh-P s nonce 0 value owner time t p h
  cnight-P tblock s value owner time nonce destroy t p h =
      destroy-P s
        (record { value = value; owner = owner; time = time; action = destroy; nonce = nonce }) t p
        h

  step-P :
      ((s : DustState) (x : DustSpend) (t : DustState) → P s → apply_spend s x ≡ ok t → P t)
      → ((s : DustState) (tblock ttl : ℕ) → P s → P (post_block_update H s tblock ttl))
      → (s : DustState) (x : DustStep) (t : DustState) → P s
      → take_step H s x ≡ ok t
      → P t
  unfolding take_step
  step-P spend-P block-P s (spend x) t p h = spend-P s x t p h
  step-P spend-P block-P s (register utxos fees parent registration params tnow) t p h =
      let (out, e, h₁) =
        >>=-eq-ok (apply_registration H s utxos fees parent registration params tnow) _ h in
      subst P (ok-injective h₁)
        (apply_registration-P s utxos fees parent registration params tnow out p e)
  step-P spend-P block-P s (offer o parent segment tblock) t p h =
      apply_offer-P s o parent segment tblock t p h
  step-P spend-P block-P s (cnight event tblock) t p h =
      cnight-P tblock s event.value event.owner event.time event.nonce event.action t p h
  step-P spend-P block-P s (claim intent_hash value addr tblock) t p h =
      fresh-P s (H.initial_nonce 0 intent_hash) 0 value addr tblock t p h
  step-P spend-P block-P s (block tblock ttl) t p h =
      subst P (ok-injective h) (block-P s tblock ttl p)

  -- What a run of operations keeps, if spends and blocks keep it as well.
  pub run-P :
      ((s : DustState) (x : DustSpend) (t : DustState) → P s → apply_spend s x ≡ ok t → P t)
      → ((s : DustState) (tblock ttl : ℕ) → P s → P (post_block_update H s tblock ttl))
      → (s t : DustState) (steps : List DustStep) → P s
      → try_fold (take_step H) s steps ≡ ok t
      → P t
  run-P spend-P block-P s t steps p h =
      try_fold-inv P (take_step H) (step-P spend-P block-P) s t steps p h
