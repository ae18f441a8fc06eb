-- ===== src/Zswap/Spend.antt =====
-- No coin is spent twice and no commitment is made twice, over any sequence of offers and blocks
-- that a full node (no whitelist) applies to the state of zswap/src/ledger.rs.
use midnight_ledger.Prelude.{ℕ, ◌≡◌, refl, true, false, none, Result, ok, err, is_ok, nat_eq}
use midnight_ledger.Prelude.Dict.{Dict}
use midnight_ledger.MerkleTree.{Hashing}
use midnight_ledger.Zswap.{State, Offer, try_apply, post_block_update}
use midnight_ledger.Zswap.Once.{
  is_spent, is_committed, spends, creates, nullifier-Once, commitment-Once,
}

-- A result that cannot be a success.
refused :
    {E : Type 0} (m : Result E (State × Dict ℕ ℕ))
    → ((t : State) (ix : Dict ℕ ℕ) → m ≡ ok (t, ix) → true ≡ false)
    → is_ok m ≡ false
refused (ok (t, ix)) h = h t ix refl
refused (err e) h = refl

module _ (H : Hashing) where
  -- What a full node does to its state.
  pub data Steps : State → State → Type 0 where
    here : {s : State} → Steps s s
    offer_then :
        {s t u : State} (o : Offer) (indices : Dict ℕ ℕ)
        → try_apply H s o none ≡ ok (t, indices)
        → Steps t u
        → Steps s u
    block_then : {s u : State} (tblock : ℕ) → Steps (post_block_update H s tblock) u → Steps s u

  pub Steps-append : {s t u : State} → Steps s t → Steps t u → Steps s u
  Steps-append here rest = rest
  Steps-append (offer_then o indices e steps) rest =
      offer_then o indices e (Steps-append steps rest)
  Steps-append (block_then tblock steps) rest = block_then tblock (Steps-append steps rest)

  pub is_spent-Steps : (n : ℕ) {s t : State} → Steps s t → is_spent n s ≡ true → is_spent n t ≡ true
  unfolding post_block_update
  is_spent-Steps n here p = p
  is_spent-Steps n (offer_then {s} {t} o indices e rest) p =
      is_spent-Steps n rest ((nullifier-Once H n s t o indices e).0 p)
  is_spent-Steps n (block_then tblock rest) p = is_spent-Steps n rest p

  is_committed-Steps :
      (n : ℕ) {s t : State} → Steps s t → is_committed n s ≡ true → is_committed n t ≡ true
  unfolding post_block_update
  is_committed-Steps n here p = p
  is_committed-Steps n (offer_then {s} {t} o indices e rest) p =
      is_committed-Steps n rest ((commitment-Once H n s t o indices e).0 p)
  is_committed-Steps n (block_then tblock rest) p = is_committed-Steps n rest p

  -- After an offer that spends a nullifier, whatever offers and blocks follow, an offer that spends
  -- it again is refused.
  pub no_double_spend :
      (n : ℕ) (s t u : State) (first second : Offer) (indices : Dict ℕ ℕ)
      → try_apply H s first none ≡ ok (t, indices)
      → spends n first ≡ true
      → Steps t u
      → spends n second ≡ true
      → is_ok (try_apply H u second none) ≡ false
  no_double_spend n s t u first second indices e p steps q =
      let spent = is_spent-Steps n steps ((nullifier-Once H n s t first indices e).1 p).1 in
      refused _ (λ (v : State) ix r. let a = ((nullifier-Once H n u v second ix r).1 q).0 in cc)

  -- After an offer that creates a commitment, whatever offers and blocks follow, an offer that
  -- creates it again is refused.
  pub no_faerie_gold :
      (c : ℕ) (s t u : State) (first second : Offer) (indices : Dict ℕ ℕ)
      → try_apply H s first none ≡ ok (t, indices)
      → creates c first ≡ true
      → Steps t u
      → creates c second ≡ true
      → is_ok (try_apply H u second none) ≡ false
  no_faerie_gold c s t u first second indices e p steps q =
      let made = is_committed-Steps c steps ((commitment-Once H c s t first indices e).1 p).1 in
      refused _ (λ (v : State) ix r. let a = ((commitment-Once H c u v second ix r).1 q).0 in cc)
