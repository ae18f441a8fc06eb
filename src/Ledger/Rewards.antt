-- ===== src/Ledger/Rewards.antt =====
-- The supply of NIGHT is kept by a claim of block rewards (`claim_unshielded` of
-- ledger/src/semantics.rs).
use midnight_ledger.Prelude.{
  ℕ, ◌+◌, ◌-◌, ◌^◌, ◌<◌, ◌≤◌, ◌≡◌, refl, sym, ap, ◌∙◌, Bool, true, false, ◌&&◌, not, arith, ltb,
  ◌==◌, if◌then◌else◌, Result, ok, err, ◌>>=◌, fail_if, map_err, nat_eq, unwrap_or, Option-cases,
  Bool-cases, inl, inr, is_ok, map_err-eq-ok, subst, ltb→ge, ==_iff, >>=-elim, map_err-eq-err,
  fail_if-eq-err, fail_if-false, map_err-err-is_ok,
}
use midnight_ledger.Prelude.Dict.{
  Dict, lookup, insert, contains_key, total, total-insert-some, total-insert-none, total-erase-some,
  total-erase-none,
}
use midnight_ledger.Storage.TimeFilterMap.{TimeFilterMap}
use midnight_ledger.Ledger.{
  LedgerState, Utxo, UtxoMeta, utxo_eq, night, max_supply, add_seconds, reward, Outside,
}
use midnight_ledger.Ledger.Replay.{apply_member}
use midnight_ledger.Ledger.Night.{
  check_night_balance_invariant, counted_night, reward_night, utxo_night, is_ok-check,
}
use midnight_ledger.Ledger.Payouts.{IsBalanced, ValidParameters, rewards-insert}
use midnight_ledger.Ledger.Claim.{
  ClaimRewards, ClaimError, claim_unshielded, generate_dust, keep_rest, insufficient_claimable,
  reward_too_small, replay_protection_violation, invariant_violation,
}

rewards-keep_rest :
    (k v : ℕ) (m : Dict ℕ ℕ)
    → total reward_night (keep_rest k v m) + unwrap_or (lookup k m) 0 ≡ total reward_night m + v
rewards-keep_rest k v m = elim (Bool-cases (v == 0)) [
  | inr some_left ↦ rw some_left (rewards-insert k v m)
  | inl empty ↦ elim (Option-cases (lookup k m)) [
    | inl fresh ↦
        rw (empty, fresh) (ground (arith, total-erase-none reward_night k m fresh, ==_iff v 0))
    | inr (old, found) ↦
        rw (empty, found) (ground (arith, total-erase-some reward_night k old m found, ==_iff v 0))
  ]
]

-- An output adds its NIGHT unless it is there already.
pub utxos-insert :
    (u : Utxo) (d : UtxoMeta) (m : Dict Utxo UtxoMeta)
    → total utxo_night (insert u d m)
      ≡ total utxo_night m + (if contains_key u m then 0 else utxo_night u d)
utxos-insert u d m = elim (Option-cases (lookup u m)) [
  | inl fresh ↦ rw fresh (total-insert-none utxo_night u d m fresh)
  | inr (old, found) ↦ rw found (omega (arith, total-insert-some utxo_night u d old m found))
]

module _ {D DustError CNightEvent : Type 0} (E : Outside D DustError CNightEvent) where
  -- The output that a claim makes.
  abbrev pub claim_output : ClaimRewards → Utxo
  claim_output tx = record {
    value = tx.value;
    owner = tx.owner;
    type_ = night;
    intent_hash =
        E.mk_intent_hash (record { amount = tx.value; target_address = tx.owner; nonce = tx.nonce })
          night;
    output_no = 0;
  }

  abbrev pub is_violation : ClaimError DustError → Bool
  is_violation (invariant_violation _) = true
  is_violation _ = false

  -- The result is a balanced state, or an error that is a violation of the balance only if the
  -- output was there already.
  abbrev pub SettlesUnless : Bool → Result (ClaimError DustError) (LedgerState D) → Type 0
  SettlesUnless known (ok t) = IsBalanced E t
  SettlesUnless known (err e) = (is_violation e && not known) ≡ false

  -- The end of a claim, on the state that was paid.
  check-Settles :
      (known : Bool) (t : LedgerState D) (n : ℕ)
      → counted_night t + (if known then n else 0) ≡ max_supply
      → t.parameters.cardano_to_midnight_bridge_fee_basis_points ≤ 10000
      → SettlesUnless known
          (map_err invariant_violation (check_night_balance_invariant t) >>= λ _. ok t)
  check-Settles known t n e v =
      let bound : counted_night t < 2 ^ 128 = ground arith in
      >>=-elim (SettlesUnless known) (map_err invariant_violation (check_night_balance_invariant t))
        _
        (λ d h. ground (
          arith,
          is_ok-check t bound,
          map_err-err-is_ok _ (check_night_balance_invariant t) h,
          ==_iff (counted_night t) max_supply,
        ))
        (λ _ h.
          let passed = ap is_ok (map_err-eq-ok _ (check_night_balance_invariant t) h) in
          record {
            exact =
                ground (arith, is_ok-check t bound, passed, ==_iff (counted_night t) max_supply);
            parameters = v;
          })

  pub generate_dust-counted_night :
      (s t : LedgerState D) (address hash value tblock : ℕ)
      → generate_dust E s address hash value tblock ≡ ok t
      → (counted_night t ≡ counted_night s) × (t.parameters ≡ s.parameters)
  unfolding generate_dust counted_night
  generate_dust-counted_night s t address hash value tblock e = grind arith

  generate_dust-err :
      (s : LedgerState D) (address hash value tblock : ℕ) (e : ClaimError DustError)
      → generate_dust E s address hash value tblock ≡ err e
      → is_violation e ≡ false
  unfolding generate_dust
  generate_dust-err s address hash value tblock e h = grind arith

  abbrev pub paid : LedgerState D → ClaimRewards → ℕ → TimeFilterMap ℕ → LedgerState D
  paid s tx tblock replay =
      let there = unwrap_or (lookup tx.owner s.unclaimed_block_rewards) 0 in
      record s {
        unclaimed_block_rewards = keep_rest tx.owner (there - tx.value) s.unclaimed_block_rewards;
        utxo = insert (claim_output tx) (record { ctime = tblock }) s.utxo;
        replay_protection = replay;
      }

  counted_night-paid :
      (s : LedgerState D) (tx : ClaimRewards) (tblock : ℕ) (replay : TimeFilterMap ℕ)
      → tx.value ≤ unwrap_or (lookup tx.owner s.unclaimed_block_rewards) 0
      → counted_night (paid s tx tblock replay)
          + (if contains_key (claim_output tx) s.utxo then tx.value else 0)
        ≡ counted_night s
  unfolding counted_night
  counted_night-paid s tx tblock replay b =
      let there = unwrap_or (lookup tx.owner s.unclaimed_block_rewards) 0 in
      ground (
        arith,
        rewards-keep_rest tx.owner (there - tx.value) s.unclaimed_block_rewards,
        utxos-insert (claim_output tx) (record { ctime = tblock }) s.utxo,
      )

  -- A claim of block rewards on a balanced state gives a balanced state, or an error. The error is a
  -- violation of the balance only if the output that the claim makes is there already.
  pub claim_unshielded-Settles :
      (s : LedgerState D) (value owner nonce tblock : ℕ)
      → IsBalanced E s
      → let tx : ClaimRewards = record {
        value = value;
        owner = owner;
        nonce = nonce;
        kind = reward;
      } in
        SettlesUnless (contains_key (claim_output tx) s.utxo) (claim_unshielded E s tx tblock)
  unfolding claim_unshielded
  claim_unshielded-Settles s value owner nonce tblock b =
      let tx : ClaimRewards = record {
        value = value;
        owner = owner;
        nonce = nonce;
        kind = reward;
      } in
      let known = contains_key (claim_output tx) s.utxo in
      let there = unwrap_or (lookup owner s.unclaimed_block_rewards) 0 in
      let minimum = E.min_claimable_rewards s.parameters in
      let ttl = s.parameters.global_ttl in
      >>=-elim (SettlesUnless known)
        (fail_if (ltb there value) (insufficient_claimable value there owner reward)) _
        (λ e h. fail_if-eq-err (λ e. (is_violation e && not known) ≡ false) _ _ refl h)
        (λ _ h1.
          >>=-elim (SettlesUnless known)
            (fail_if (true && ltb value minimum) (reward_too_small value minimum)) _
            (λ e h. fail_if-eq-err (λ e. (is_violation e && not known) ≡ false) _ _ refl h)
            (λ _ _.
              >>=-elim (SettlesUnless known)
                (map_err replay_protection_violation (
                  apply_member s.replay_protection (claim_output tx).intent_hash
                    (add_seconds tblock ttl) tblock ttl))
                _
                (λ e h.
                  map_err-eq-err (λ e. (is_violation e && not known) ≡ false)
                    replay_protection_violation _ (λ _. refl) h)
                (λ replay _.
                  let payout = paid s tx tblock replay in
                  let hash = (claim_output tx).intent_hash in
                  let moved =
                    counted_night-paid s tx tblock replay
                      (ltb→ge there value (fail_if-false _ _ h1)) in
                  let exact = b.exact in
                  >>=-elim (SettlesUnless known) (generate_dust E payout owner hash value tblock) _
                    (λ e h.
                      ap (λ b. b && not known)
                        (generate_dust-err payout owner hash value tblock e h))
                    (λ t h.
                      let (same, params) =
                        generate_dust-counted_night payout t owner hash value tblock h in
                      check-Settles known t value
                        (ap (λ n. n + (if known then value else 0)) same ∙ moved ∙ exact)
                        (subst ValidParameters (sym params) b.parameters)))))
