-- ===== src/Transaction/Frame.antt =====
-- What the segments of a transaction leave alone (`apply_section` of ledger/src/semantics.rs).
use midnight_ledger.Prelude.{
  ℕ, ◌≡◌, refl, ◌∙◌, ap, Bool, true, false, Option, none, some, [], Result, ok, err, try_fold,
  Yields, Yields-bind, Yields-try_fold, Yields-eq-ok, >>=-eq-ok, ok-injective, map_err,
  map_err-eq-ok, subst, Option-cases, inl, inr, arith, ◌==◌, nat_eq,
}
use midnight_ledger.Prelude.Dict.{Dict, lookup}
use midnight_ledger.Ledger.{LedgerState, ContractState}
use midnight_ledger.Prelude.{is_ok}
use midnight_ledger.Transaction.{zswap}
use midnight_ledger.Zswap.{try_apply}
use midnight_ledger.Zswap
use midnight_ledger.Storage.TimeFilterMap.{TimeFilterMap}
use midnight_ledger.Ledger.Night.{check_night_balance_invariant}
use midnight_ledger.Dust
use midnight_ledger.Dust.{DustSpend, DustRegistration}
use midnight_ledger.Runtime.{Transcript}
use midnight_ledger.Transaction.{
  ContractCall, ContractDeploy, MaintenanceUpdate, ContractAction, call, deploy, maintain, Intent,
  StandardTransaction, TransactionInvalid, State, TransactionContext, Environment, sorted_iter,
  replay_protection_violation, invariant_violation,
}
use midnight_ledger.Transaction.Actions.{
  run_call, apply_call, apply_deploy, apply_maintain, apply_action, apply_actions,
}
use midnight_ledger.Transaction.Section.{
  pay_dust, apply_zswap, apply_unshielded, guaranteed_intent, register, register_all, pay_fees,
  all_spends, guaranteed_section, fallible_section, checked_balance, apply_section, apply_tx,
  try_fallible,
}

-- A state without its contracts, outputs and dust: the pools, the rewards, the treasury, the
-- parameters, the replay protection and the shielded state.
abbrev pub core : State → State
core s = record s { contract = []; utxo = []; dust = Dust.new }

abbrev pub Same : State → State → Type 0
Same s t = core s ≡ core t

module _ (E : Environment) (context : TransactionContext) where
  run_call-Same :
      (intent : Intent) (ix : Dict ℕ ℕ) (s : State) (c : ContractCall) (cstate : ContractState)
      (t : Transcript)
      → Yields (Same s) (run_call E context intent ix s c cstate t)
  unfolding run_call
  run_call-Same intent ix s c cstate t = ground arith

  apply_call-Same :
      (guaranteed : Bool) (intent : Intent) (ix : Dict ℕ ℕ) (s : State) (c : ContractCall)
      → Yields (Same s) (apply_call E guaranteed context intent ix s c)
  unfolding apply_call
  apply_call-Same guaranteed intent ix s c = ground (arith, run_call-Same intent ix s c)

  apply_deploy-Same :
      (guaranteed : Bool) (s : State) (d : ContractDeploy)
      → Yields (Same s) (apply_deploy E guaranteed context s d)
  unfolding apply_deploy
  apply_deploy-Same guaranteed s d = ground arith

  apply_maintain-Same :
      (guaranteed : Bool) (s : State) (upd : MaintenanceUpdate)
      → Yields (Same s) (apply_maintain guaranteed context s upd)
  unfolding apply_maintain
  apply_maintain-Same guaranteed s upd = ground arith

  apply_action-Same :
      (guaranteed : Bool) (intent : Intent) (ix : Dict ℕ ℕ) (s : State) (a : ContractAction)
      → Yields (Same s) (apply_action E guaranteed context intent ix s a)
  unfolding apply_action
  apply_action-Same guaranteed intent ix s (call c) = apply_call-Same guaranteed intent ix s c
  apply_action-Same guaranteed intent ix s (deploy d) = apply_deploy-Same guaranteed s d
  apply_action-Same guaranteed intent ix s (maintain upd) = apply_maintain-Same guaranteed s upd

  -- A step that keeps the core, after others that did.
  after :
      (s t : State) (m : Result TransactionInvalid State)
      → Same s t
      → Yields (Same t) m
      → Yields (Same s) m
  after s t (ok u) p q = p ∙ q
  after s t (err e) p q = tt

  apply_actions-Same :
      (guaranteed : Bool) (intent : Intent) (ix : Dict ℕ ℕ) (s : State)
      → Yields (Same s) (apply_actions E guaranteed context intent ix s)
  unfolding apply_actions
  apply_actions-Same guaranteed intent ix s =
      Yields-try_fold (Same s) (apply_action E guaranteed context intent ix)
        (λ t a p. after s t _ p (apply_action-Same guaranteed intent ix t a)) s intent.actions refl

  -- The shielded state after an offer, if there is one.
  abbrev pub Coins : Zswap.State → Option Zswap.Offer → Zswap.State → Type 0
  Coins z none z' = z ≡ z'
  Coins z (some offer) z' =
      (indices : Dict ℕ ℕ) × (try_apply E.hashes.hashing z offer context.whitelist
        ≡ ok (z', indices))

  abbrev Coined : State → Option Zswap.Offer → State × Dict ℕ ℕ → Type 0
  Coined s offer r = Same (record s { zswap = r.0.zswap }) r.0 × Coins s.zswap offer r.0.zswap

  apply_zswap-Coined :
      (s : State) (offer : Option Zswap.Offer)
      → Yields (Coined s offer) (apply_zswap E s offer context.whitelist)
  unfolding apply_zswap
  apply_zswap-Coined s none = (refl, refl)
  apply_zswap-Coined s (some offer) =
      Yields-bind (Coined s (some offer))
        (map_err zswap (try_apply E.hashes.hashing s.zswap offer context.whitelist)) _
        λ a e. (refl, (a.1, map_err-eq-ok zswap _ e))

  apply_unshielded-Same :
      (segment : ℕ) (intent : Intent) (s : State) (offer : Option Dust.UnshieldedOffer)
      → Yields (Same s) (apply_unshielded E segment context intent s offer)
  unfolding apply_unshielded
  apply_unshielded-Same segment intent s offer = ground arith

  guaranteed_intent-Same :
      (ix : Dict ℕ ℕ) (s : State) (entry : ℕ × Intent)
      → Yields (Same s) (guaranteed_intent E context ix s entry)
  unfolding guaranteed_intent
  guaranteed_intent-Same ix s (segment, intent) =
      Yields-bind (Same s)
        (apply_unshielded E 0 context intent s intent.guaranteed_unshielded_offer) _
        λ t e.
          after s t (apply_actions E true context intent ix t)
            (Yields-eq-ok (Same s) _
              (apply_unshielded-Same 0 intent s intent.guaranteed_unshielded_offer) e)
            (apply_actions-Same true intent ix t)

  pay_dust-Same :
      (s : State) (acc : State × ℕ) (spend : DustSpend)
      → Same s acc.0
      → Yields (λ r. Same s r.0) (pay_dust acc spend)
  unfolding pay_dust
  pay_dust-Same s acc spend p = ground (arith, p)

  register-Same :
      (s : State) (intent : Intent) (ctime : ℕ) (acc : State × ℕ) (reg : DustRegistration)
      → Same s acc.0
      → Yields (λ r. Same s r.0) (register E context intent ctime acc reg)
  unfolding register
  register-Same s intent ctime acc reg p = ground (arith, p)

  register_all-Same :
      (s : State) (acc : State × ℕ) (entry : ℕ × Intent)
      → Same s acc.0
      → Yields (λ r. Same s r.0) (register_all E context acc entry)
  unfolding register_all
  register_all-Same s acc (segment, intent) p = elim (Option-cases intent.dust_actions) [
    | inl no_actions ↦ rw (register_all, no_actions) p
    | inr (da, actions) ↦
        rw (register_all, actions)
          (Yields-try_fold (λ r. Same s r.0) (register E context intent da.ctime)
            (register-Same s intent da.ctime) acc da.registrations p)
  ]

  pay_fees-Same :
      (tx : StandardTransaction) (s : State) → Yields (λ r. Same s r.0) (pay_fees E context tx s)
  unfolding pay_fees
  pay_fees-Same tx s =
      let P : State × ℕ → Type 0 = λ r. Same s r.0 in
      let spent =
        try_fold pay_dust (s, E.fees s.parameters tx) (all_spends (sorted_iter tx.intents)) in
      Yields-bind P spent _ λ paid e.
        Yields-try_fold P (register_all E context) (register_all-Same s) paid
          (sorted_iter tx.intents)
          (Yields-eq-ok P spent
            (Yields-try_fold P pay_dust (pay_dust-Same s) (s, E.fees s.parameters tx)
              (all_spends (sorted_iter tx.intents)) refl)
            e)

  -- After the guaranteed segment: the intents are taken, the guaranteed offer is applied, the
  -- fallible ones can be, and the rest of the core is as it was.
  abbrev pub Taken : StandardTransaction → State → State → Type 0
  Taken tx s u =
      (r : TimeFilterMap ℕ) × (apply_tx s.replay_protection tx context.block_context.tblock
          s.parameters.global_ttl
        ≡ ok r)
      × Same (record s { replay_protection = r; zswap = u.zswap }) u
      × Coins s.zswap tx.guaranteed_coins u.zswap
      × (is_ok (try_fallible E u.zswap tx context.whitelist) ≡ true)

  pub guaranteed_section-Taken :
      (tx : StandardTransaction) (s : State)
      → Yields (Taken tx s) (guaranteed_section E context tx s)
  unfolding guaranteed_section
  guaranteed_section-Taken tx s =
      let T = Taken tx s in
      let ttl = s.parameters.global_ttl in
      let taken = apply_tx s.replay_protection tx context.block_context.tblock ttl in
      Yields-bind T (map_err replay_protection_violation taken) _ λ r e.
        let protected : State = record s { replay_protection = r } in
        let coins = apply_zswap E protected tx.guaranteed_coins context.whitelist in
        Yields-bind T coins _ λ a e₁.
          Yields-bind T (try_fallible E a.0.zswap tx context.whitelist) _ λ v f.
            let step = guaranteed_intent E context a.1 in
            Yields-bind T (try_fold step a.0 (sorted_iter tx.intents)) _ λ acted e₂.
              Yields-bind T (pay_fees E context tx acted) _ λ paid e₃.
                let (first, coined) =
                  Yields-eq-ok (Coined protected tx.guaranteed_coins) coins
                    (apply_zswap-Coined protected tx.guaranteed_coins) e₁ in
                let second =
                  Yields-eq-ok (Same a.0) (try_fold step a.0 (sorted_iter tx.intents))
                    (Yields-try_fold (Same a.0) step
                      (λ t entry p. after a.0 t _ p (guaranteed_intent-Same a.1 t entry)) a.0
                      (sorted_iter tx.intents) refl)
                    e₂ in
                let third =
                  Yields-eq-ok (λ r. Same acted r.0) (pay_fees E context tx acted)
                    (pay_fees-Same tx acted) e₃ in
                let shielded : a.0.zswap ≡ paid.0.zswap = ap LedgerState.zswap (second ∙ third) in
                (
                  r,
                  map_err-eq-ok replay_protection_violation taken e,
                  subst (λ z. Same (record protected { zswap = z }) paid.0) shielded
                      (first ∙ second ∙ third),
                  subst (Coins s.zswap tx.guaranteed_coins) shielded coined,
                  subst (λ z. is_ok (try_fallible E z tx context.whitelist) ≡ true) shielded
                      (ap is_ok f),
                )

  -- After a fallible segment: its offer is applied, and the rest of the core is as it was.
  abbrev pub Kept : StandardTransaction → ℕ → State → State → Type 0
  Kept tx segment s u =
      Same (record s { zswap = u.zswap }) u
      × Coins s.zswap (lookup segment tx.fallible_coins) u.zswap

  kept :
      (tx : StandardTransaction) (segment : ℕ) (s t : State) (m : Result TransactionInvalid State)
      → Kept tx segment s t
      → Yields (Same t) m
      → Yields (Kept tx segment s) m
  kept tx segment s t (err error) k y = tt
  kept tx segment s t (ok u) (same, coined) y =
      let shielded : t.zswap ≡ u.zswap = ap LedgerState.zswap y in
      (
        subst (λ z. Same (record s { zswap = z }) u) shielded (same ∙ y),
        subst (Coins s.zswap (lookup segment tx.fallible_coins)) shielded coined,
      )

  fallible_section-Kept :
      (tx : StandardTransaction) (segment : ℕ) (s : State)
      → Yields (Kept tx segment s) (fallible_section E context tx segment s)
  unfolding fallible_section
  fallible_section-Kept tx segment s =
      let coins = apply_zswap E s (lookup segment tx.fallible_coins) context.whitelist in
      let K = Kept tx segment s in
      Yields-bind K coins _ λ a e.
        let coined =
          Yields-eq-ok (Coined s (lookup segment tx.fallible_coins)) coins
            (apply_zswap-Coined s (lookup segment tx.fallible_coins)) e in
        elim (Option-cases (lookup segment tx.intents)) [
          | inl no_intent ↦ rw no_intent coined
          | inr (intent, there) ↦
              let offer = intent.fallible_unshielded_offer in
              rw there (
                Yields-bind K (apply_unshielded E segment context intent a.0 offer) _ λ b e₁.
                  let second =
                    Yields-eq-ok (Same a.0) _ (apply_unshielded-Same segment intent a.0 offer) e₁ in
                  kept tx segment s a.0 (apply_actions E false context intent a.1 b) coined (
                    after a.0 b (apply_actions E false context intent a.1 b) second
                      (apply_actions-Same false intent a.1 b)))
        ]

  -- A fallible segment that is applied leaves the pools, the rewards, the treasury, the parameters
  -- and the replay protection as they were, and changes the shielded state by its offer alone.
  pub apply_section-Kept :
      (tx : StandardTransaction) (segment : ℕ) (s t : State)
      → (segment == 0) ≡ false
      → apply_section E context tx segment s ≡ ok t
      → Kept tx segment s t
  unfolding apply_section checked_balance
  apply_section-Kept tx segment s t other e =
      let (u, e₁, e₂) =
        >>=-eq-ok (fallible_section E context tx segment s) _ (rw (apply_section, other) at e) in
      let (_, _, e₃) =
        >>=-eq-ok (map_err invariant_violation (check_night_balance_invariant u)) _ e₂ in
      subst (Kept tx segment s) (ok-injective e₃)
        (Yields-eq-ok (Kept tx segment s) _ (fallible_section-Kept tx segment s) e₁)
