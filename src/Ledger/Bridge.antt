-- ===== src/Ledger/Bridge.antt =====
-- Distributions of bridged NIGHT (`DistributeNight` with `ClaimKind::CardanoBridge` in
-- ledger/src/semantics.rs) meet the guard of `basis_points_of`.
use midnight_ledger.Prelude.{
  ℕ, ◌-◌, ◌<◌, ◌≡◌, refl, sym, ap, ◌∙◌, true, false, ◌&&◌, List, [], ◌∷◌, arith, leb, ok, map_err,
  try_fold, nat_eq, Option-cases, Bool-cases, inl, inr, is_ok, ok-injective, >>=-eq-ok, subst,
  >>=-elim, any,
}
use midnight_ledger.Ledger.{
  LedgerState, token_eq, night, add_seconds, cardano_bridge, OutputInstructionUnshielded, Outside,
}
use midnight_ledger.Ledger.Replay.{apply_member}
use midnight_ledger.Ledger.System.{
  checked_sum, bridge_split, credit_bridge, credit, distribute_one, distribute, apply_system_tx,
  distribute_night, replay_protection_failure,
}
use midnight_ledger.Ledger.Payouts.{ValidParameters, bridge_split-eq-ok}

module _ {D DustError CNightEvent : Type 0} (E : Outside D DustError CNightEvent) where
  distribute_one-parameters :
      (tblock : ℕ) (s t : LedgerState D) (o : OutputInstructionUnshielded)
      → ValidParameters s.parameters
      → distribute_one E cardano_bridge tblock s o ≡ ok t
      → (o.amount < s.parameters.c_to_m_bridge_min_amount) × (t.parameters ≡ s.parameters)
  unfolding distribute_one credit credit_bridge
  distribute_one-parameters tblock s t o v e =
      let ttl = s.parameters.global_ttl in
      let (replay, _, e1) =
        >>=-eq-ok
          (map_err replay_protection_failure (
            apply_member s.replay_protection (E.mk_intent_hash o night) (add_seconds tblock ttl)
              tblock ttl))
          _ e in
      let (credited, e2, e3) = >>=-eq-ok (credit E cardano_bridge s o) _ e1 in
      let (split, e4, e5) = >>=-eq-ok (bridge_split E s.parameters o.amount) _ e2 in
      let (small, _) = bridge_split-eq-ok E s.parameters o.amount split v e4 in
      (
        small,
        ap LedgerState.parameters (sym (ok-injective e3))
            ∙ ap LedgerState.parameters (sym (ok-injective e5)),
      )

  bridged_small :
      (tblock : ℕ) (s t : LedgerState D) (os : List OutputInstructionUnshielded)
      → ValidParameters s.parameters
      → try_fold (distribute_one E cardano_bridge tblock) s os ≡ ok t
      → any
          (λ o. leb s.parameters.c_to_m_bridge_min_amount (OutputInstructionUnshielded.amount o))
          os
        ≡ false
  unfolding try_fold
  bridged_small tblock s t [] v e = refl
  bridged_small tblock s t (o ∷ os) v e =
      let (m, e1, e2) =
        >>=-eq-ok (distribute_one E cardano_bridge tblock s o)
          (λ m. try_fold (distribute_one E cardano_bridge tblock) m os) e in
      let (small, same) = distribute_one-parameters tblock s m o v e1 in
      let rest = bridged_small tblock m t os (subst ValidParameters (sym same) v) e2 in
      let rest' =
        subst
          (λ p.
            any (λ o. leb p.c_to_m_bridge_min_amount (OutputInstructionUnshielded.amount o)) os
            ≡ false)
          same rest in
      ground arith

  -- With basis points in their documented range, no distribution of bridged NIGHT succeeds that has
  -- an output of at least the bridge's minimum.
  pub bridge_refused :
      (s : LedgerState D) (os : List OutputInstructionUnshielded) (tblock : ℕ)
      → ValidParameters s.parameters
      → any
          (λ o. leb s.parameters.c_to_m_bridge_min_amount (OutputInstructionUnshielded.amount o))
          os
        ≡ true
      → is_ok (apply_system_tx E s (distribute_night cardano_bridge os) tblock) ≡ false
  unfolding apply_system_tx distribute
  bridge_refused s os tblock v large = elim (Option-cases (checked_sum os 0)) [
    | inl over ↦ rw (is_ok, over) refl
    | inr (n, sum-eq) ↦
        let fits = leb 0 s.block_reward_pool && leb n s.locked_pool in
        let paid = record s {
          block_reward_pool = s.block_reward_pool - 0;
          locked_pool = s.locked_pool - n;
        } in
        elim (Bool-cases fits) [
          | inr short ↦ rw (is_ok, sum-eq, short) refl
          | inl enough ↦
              rw (is_ok, sum-eq, enough)
                (>>=-elim (λ r. is_ok r ≡ false)
                  (try_fold (distribute_one E cardano_bridge tblock) paid os) _ (λ e _. refl)
                  (λ t h. let a = bridged_small tblock paid t os v h in cc))
        ]
  ]
