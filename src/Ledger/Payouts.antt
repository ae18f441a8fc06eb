-- ===== src/Ledger/Payouts.antt =====
-- What the payouts of a system transaction (ledger/src/semantics.rs) add to the supply of NIGHT.
use midnight_ledger.Prelude.{
  ℕ, ◌+◌, ◌-◌, ◌^◌, ◌<◌, ◌≤◌, ◌≡◌, refl, sym, ap, ◌∙◌, true, ◌&&◌, some, List, [], ◌∷◌, arith, leb,
  ok, map_err, try_fold, nat_eq, unwrap_or, Option-cases, inl, inr, ok-injective, >>=-eq-ok, subst,
}
use midnight_ledger.Prelude.Dict.{
  Dict, lookup, insert, total, total-insert-some, total-insert-none, lookup-insert_self,
}
use midnight_ledger.Ledger.{
  LedgerState, LedgerParameters, TokenType, unshielded, token_eq, night, saturating_add, max_supply,
  add_seconds, ClaimKind, reward, cardano_bridge, OutputInstructionUnshielded, Outside,
}
use midnight_ledger.Ledger.Replay.{apply_member}
use midnight_ledger.Ledger.Night.{night_of, counted_night, reward_night, is_ok-check}
use midnight_ledger.Ledger.System.{
  basis_points_of, checked_sum, totals, credit_reward, bridge_split, credit_bridge, credit,
  distribute_one, checked, replay_protection_failure,
}

-- The sum of the rewards when an entry is replaced.
pub rewards-insert :
    (k v : ℕ) (m : Dict ℕ ℕ)
    → total reward_night (insert k v m) + unwrap_or (lookup k m) 0 ≡ total reward_night m + v
rewards-insert k v m = elim (Option-cases (lookup k m)) [
  | inl fresh ↦ rw fresh (omega (arith, total-insert-none reward_night k v m fresh))
  | inr (old, found) ↦ rw found (total-insert-some reward_night k v old m found)
]

pub night_of-insert : (v : ℕ) (m : Dict TokenType ℕ) → night_of (insert (unshielded night) v m) ≡ v
night_of-insert v m = rw (lookup-insert_self (unshielded night) v m) refl

abbrev pub amounts : List OutputInstructionUnshielded → ℕ
amounts [] = 0
amounts (o ∷ os) = o.amount + amounts os

pub checked_sum-amounts :
    (os : List OutputInstructionUnshielded) (acc n : ℕ)
    → checked_sum os acc ≡ some n
    → n ≡ acc + amounts os
unfolding checked_sum
checked_sum-amounts [] acc n e = grind arith
checked_sum-amounts (o ∷ os) acc n e = ground (arith, checked_sum-amounts os (acc + o.amount) n)

-- The basis points are in the range that the parameters document.
abbrev pub ValidParameters : LedgerParameters → Type 0
ValidParameters p = p.cardano_to_midnight_bridge_fee_basis_points ≤ 10000

module _ {D DustError CNightEvent : Type 0} (E : Outside D DustError CNightEvent) where
  -- With valid parameters only an amount below the minimum is split, and all of it is the fee.
  pub bridge_split-eq-ok :
      (p : LedgerParameters) (amount : ℕ) (split : ℕ × ℕ)
      → ValidParameters p
      → bridge_split E p amount ≡ ok split
      → (amount < p.c_to_m_bridge_min_amount) × (split ≡ (amount, 0))
  unfolding bridge_split basis_points_of
  bridge_split-eq-ok p amount split v e = grind arith

  counted_night-credit_reward :
      (s : LedgerState D) (o : OutputInstructionUnshielded)
      → counted_night s + o.amount < 2 ^ 128
      → counted_night (credit_reward E s o) ≡ counted_night s + o.amount
  unfolding counted_night credit_reward
  counted_night-credit_reward s o b =
      let old = unwrap_or (lookup o.target_address s.unclaimed_block_rewards) 0 in
      omega (
        arith,
        rewards-insert o.target_address (saturating_add old o.amount) s.unclaimed_block_rewards,
        rewards-insert o.target_address 0 s.unclaimed_block_rewards,
      )

  pub counted_night-treasury :
      (s : LedgerState D) (x : ℕ) (bridge : Dict ℕ ℕ)
      → counted_night s + x < 2 ^ 128
      → counted_night (record s {
        treasury = insert (unshielded night) (saturating_add (night_of s.treasury) x) s.treasury;
        bridge_receiving = bridge;
      })
        ≡ counted_night s + x
  unfolding counted_night
  counted_night-treasury s x bridge b =
      omega (arith, night_of-insert (saturating_add (night_of s.treasury) x) s.treasury)

  pub counted_night-credit :
      (kind : ClaimKind) (s t : LedgerState D) (o : OutputInstructionUnshielded)
      → ValidParameters s.parameters
      → counted_night s + o.amount < 2 ^ 128
      → credit E kind s o ≡ ok t
      → (counted_night t ≡ counted_night s + o.amount) × (t.parameters ≡ s.parameters)
  unfolding credit credit_bridge
  counted_night-credit reward s t o v b e =
      subst (λ t. (counted_night t ≡ counted_night s + o.amount) × (t.parameters ≡ s.parameters))
        (ok-injective e) (counted_night-credit_reward s o b, unfold credit_reward in refl)
  counted_night-credit cardano_bridge s t o v b e =
      let (split, e1, e2) = >>=-eq-ok (bridge_split E s.parameters o.amount) _ e in
      let (_, all_fee) = bridge_split-eq-ok s.parameters o.amount split v e1 in
      let fee-eq : split.0 ≡ o.amount = ap (λ p. p.0) all_fee in
      let room = subst (λ x. counted_night s + x < 2 ^ 128) (sym fee-eq) b in
      subst (λ t. (counted_night t ≡ counted_night s + o.amount) × (t.parameters ≡ s.parameters))
        (ok-injective e2)
        (counted_night-treasury s split.0 _ room ∙ ap (λ x. counted_night s + x) fee-eq, refl)

  pub counted_night-distribute_one :
      (kind : ClaimKind) (tblock : ℕ) (s t : LedgerState D) (o : OutputInstructionUnshielded)
      → ValidParameters s.parameters
      → counted_night s + o.amount < 2 ^ 128
      → distribute_one E kind tblock s o ≡ ok t
      → (counted_night t ≡ counted_night s + o.amount) × (t.parameters ≡ s.parameters)
  unfolding distribute_one
  counted_night-distribute_one kind tblock s t o v b e =
      let ttl = s.parameters.global_ttl in
      let (replay, _, e1) =
        >>=-eq-ok
          (map_err replay_protection_failure (
            apply_member s.replay_protection (E.mk_intent_hash o night) (add_seconds tblock ttl)
              tblock ttl))
          _ e in
      let (credited, e2, e3) = >>=-eq-ok (credit E kind s o) _ e1 in
      subst (λ t. (counted_night t ≡ counted_night s + o.amount) × (t.parameters ≡ s.parameters))
        (ok-injective e3) (unfold counted_night in counted_night-credit kind s credited o v b e2)

  pub counted_night-try_fold :
      (kind : ClaimKind) (tblock : ℕ) (s t : LedgerState D) (os : List OutputInstructionUnshielded)
      → ValidParameters s.parameters
      → counted_night s + amounts os < 2 ^ 128
      → try_fold (distribute_one E kind tblock) s os ≡ ok t
      → (counted_night t ≡ counted_night s + amounts os) × (t.parameters ≡ s.parameters)
  unfolding try_fold
  counted_night-try_fold kind tblock s t [] v b e =
      subst (λ t. (counted_night t ≡ counted_night s + 0) × (t.parameters ≡ s.parameters))
        (ok-injective e) (omega arith, refl)
  counted_night-try_fold kind tblock s t (o ∷ os) v b e =
      let (m, e1, e2) =
        >>=-eq-ok (distribute_one E kind tblock s o)
          (λ m. try_fold (distribute_one E kind tblock) m os) e in
      let (paid, same) = counted_night-distribute_one kind tblock s m o v (omega arith) e1 in
      let (rest, same') =
        counted_night-try_fold kind tblock m t os (subst ValidParameters (sym same) v) (omega arith)
          e2 in
      (omega arith, same' ∙ same)

  -- A state whose NIGHT is exactly the maximum, with valid parameters.
  pub record IsBalanced (s : LedgerState D) : Type 0 where
    pub exact : counted_night s ≡ max_supply
    pub parameters : ValidParameters s.parameters

  -- A state with the maximum passes the check.
  pub checked-balanced : (s : LedgerState D) → counted_night s ≡ max_supply → checked E s ≡ ok s
  unfolding checked
  checked-balanced s e = ground (arith, is_ok-check s)

  pub paid-counted_night :
      (s : LedgerState D) (kind : ClaimKind) (n : ℕ)
      → (leb (totals kind n).0 s.block_reward_pool && leb (totals kind n).1 s.locked_pool) ≡ true
      → counted_night (record s {
        block_reward_pool = s.block_reward_pool - (totals kind n).0;
        locked_pool = s.locked_pool - (totals kind n).1;
      })
          + n
        ≡ counted_night s
  unfolding counted_night
  paid-counted_night s reward n h = ground arith
  paid-counted_night s cardano_bridge n h = ground arith
