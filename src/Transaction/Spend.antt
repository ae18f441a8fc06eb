-- ===== src/Transaction/Spend.antt =====
-- Coins of transactions and the shielded state (ledger/src/semantics.rs over zswap/src/ledger.rs).
use midnight_ledger.Prelude.{
  Member, ℕ, ◌≡◌, refl, sym, subst, ◌∙◌, true, false, Option, none, some, List, [], ◌∷◌, Result, ok,
  ◌>>=◌, >>=-eq-ok, map_err, try_fold, Yields-intro, Yields-eq-ok, arith, nat_eq,
}
use midnight_ledger.Prelude.Dict.{lookup}
use midnight_ledger.MerkleTree.{Hashing}
use midnight_ledger.Ledger.{Outside}
use midnight_ledger.Zswap
use midnight_ledger.Zswap.{Offer, try_apply}
use midnight_ledger.Zswap.Once.{spends, is_spent}
use midnight_ledger.Zswap.Spend.{Steps, here, offer_then, block_then, Steps-append}
use midnight_ledger.Prelude.{Bool-cases, inl, inr, ◌==◌, Result-cases, map_err-eq-ok}
use midnight_ledger.Dust.{DustState, DustError}
use midnight_ledger.Zswap.Once.{nullifier-Once}
use midnight_ledger.Prelude.{◌⊎◌, ok-injective, is_ok-eq-ok}
use midnight_ledger.Transaction.{zswap}
use midnight_ledger.Transaction.Chain.{distribute-inv}
use midnight_ledger.Transaction.Replay.{is_failure, failed, guaranteed-applied}
use midnight_ledger.Prelude.{is_ok-never}
use midnight_ledger.Zswap.Spend.{is_spent-Steps}
use midnight_ledger.Ledger.{OutputInstructionUnshielded, ClaimKind, reward, cardano_bridge}
use midnight_ledger.Ledger.System.{
  SystemTransaction, overwrite_parameters, distribute_night, pay_block_rewards_to_treasury,
  pay_from_treasury_shielded, pay_from_treasury_unshielded, distribute_reserve,
  cnight_generates_dust_update, apply_system_tx, distribute, distribute_one, credit, credit_reward,
  credit_bridge, checked,
}
use midnight_ledger.Ledger.Claim.{ClaimRewards, claim_unshielded, generate_dust}
use midnight_ledger.Transaction.{fallible_segments, claim}
use midnight_ledger.Transaction.Outside.{outside}
use midnight_ledger.Dust.CNight.{CNightEvent}
use midnight_ledger.Transaction.Apply.{
  apply_segments, apply_fallible, apply_guaranteed_only, apply, apply_post_block_update,
}
use midnight_ledger.Transaction.Frame.{Coins, apply_section-Kept}
use midnight_ledger.Transaction.Chain.{
  Chain, still, transaction, system_transaction, block, continue-elim, guaranteed-Taken,
  zero_segment,
}
use midnight_ledger.Transaction.{
  StandardTransaction, Transaction, standard, claim_rewards, State, TransactionContext,
  TransactionInvalid, Environment, sorted_iter,
}
use midnight_ledger.Transaction.Section.{try_fallible, apply_section}

-- Claims and system transactions leave the shielded state.
module _ (O : Outside DustState DustError CNightEvent) where
  claim-zswap :
      (s t : State) (rewards : ClaimRewards) (tblock : ℕ)
      → claim_unshielded O s rewards tblock ≡ ok t
      → s.zswap ≡ t.zswap
  unfolding claim_unshielded generate_dust
  claim-zswap s t rewards tblock e = ground arith

  distribute_one-zswap :
      (kind : ClaimKind) (tblock : ℕ) (s : State) (o : OutputInstructionUnshielded) (t : State)
      → distribute_one O kind tblock s o ≡ ok t
      → s.zswap ≡ t.zswap
  unfolding distribute_one credit credit_reward credit_bridge
  distribute_one-zswap reward tblock s o t e = ground arith
  distribute_one-zswap cardano_bridge tblock s o t e = ground arith

  distribute-zswap :
      (kind : ClaimKind) (tblock : ℕ) (s t : State) (os : List OutputInstructionUnshielded)
      → distribute O s kind os tblock ≡ ok t
      → s.zswap ≡ t.zswap
  distribute-zswap kind tblock s t os e =
      let P : State → Type 0 = λ v. s.zswap ≡ v.zswap in
      Yields-eq-ok P (distribute O s kind os tblock)
        (distribute-inv O P kind tblock
          (λ v o p.
            Yields-intro P (distribute_one O kind tblock v o)
              (λ w f. p ∙ distribute_one-zswap kind tblock v o w f))
          s os (λ a b. refl))
        e

  system-zswap :
      (s t : State) (tx : SystemTransaction CNightEvent) (tblock : ℕ)
      → apply_system_tx O s tx tblock ≡ ok t
      → s.zswap ≡ t.zswap
  unfolding apply_system_tx checked
  system-zswap s t (distribute_night kind os) tblock e = distribute-zswap kind tblock s t os e
  system-zswap s t (overwrite_parameters new_params) tblock e = ground arith
  system-zswap s t (pay_block_rewards_to_treasury amount) tblock e = ground arith
  system-zswap s t pay_from_treasury_shielded tblock e = cc
  system-zswap s t pay_from_treasury_unshielded tblock e = cc
  system-zswap s t (distribute_reserve amount) tblock e = ground arith
  system-zswap s t (cnight_generates_dust_update events) tblock e = ground arith

-- What a full node does moves the shielded state by offers and blocks.
module _ (E : Environment) where
  abbrev H : Hashing
  H = E.hashes.hashing

  Coins-Steps :
      (context : TransactionContext) (z z' : Zswap.State) (offer : Option Offer)
      → context.whitelist ≡ none
      → Coins E context z offer z'
      → Steps H z z'
  Coins-Steps context z z' none full same = subst (Steps H z) same here
  Coins-Steps context z z' (some offer) full (indices, e) =
      offer_then offer indices (subst (λ wl. try_apply H z offer wl ≡ ok (z', indices)) full e) here

  apply_section-Steps :
      (context : TransactionContext) (tx : StandardTransaction) (segment : ℕ) (s t : State)
      → context.whitelist ≡ none
      → apply_section E context tx segment s ≡ ok t
      → Steps H s.zswap t.zswap
  apply_section-Steps context tx segment s t full e = elim (Bool-cases (segment == 0)) [
    | inl first ↦
        let (r, _, _, coined, _) =
          guaranteed-Taken E context tx s t (zero_segment E context tx segment s t first e) in
        Coins-Steps context s.zswap t.zswap tx.guaranteed_coins full coined
    | inr other ↦
        let (_, coined) = apply_section-Kept E context tx segment s t other e in
        Coins-Steps context s.zswap t.zswap (lookup segment tx.fallible_coins) full coined
  ]

  apply_segments-Steps :
      (context : TransactionContext) (tx : StandardTransaction) (s : State) (segments : List ℕ)
      → context.whitelist ≡ none
      → Steps H s.zswap (apply_segments E context tx s segments).0.zswap
  unfolding apply_segments
  apply_segments-Steps context tx s [] full = here
  apply_segments-Steps context tx s (segment ∷ segments) full =
      elim (Result-cases (apply_section E context tx segment s)) [
        | inl (t, e) ↦
            rw (apply_segments, e)
              (Steps-append H (apply_section-Steps context tx segment s t full e)
                (apply_segments-Steps context tx t segments full))
        | inr (error, e) ↦ rw (apply_segments, e) (apply_segments-Steps context tx s segments full)
      ]

  apply_fallible-Steps :
      (context : TransactionContext) (tx : Transaction) (s : State)
      → context.whitelist ≡ none
      → Steps H s.zswap (apply_fallible E context tx s).0.zswap
  unfolding apply_fallible
  apply_fallible-Steps context (standard stx) s full =
      apply_segments-Steps context stx s (fallible_segments stx) full
  apply_fallible-Steps context (claim_rewards rewards) s full = here

  apply_guaranteed_only-Steps :
      (context : TransactionContext) (tx : Transaction) (s t : State)
      → context.whitelist ≡ none
      → apply_guaranteed_only E context tx s ≡ ok t
      → Steps H s.zswap t.zswap
  unfolding apply_guaranteed_only
  apply_guaranteed_only-Steps context (standard stx) s t full e =
      apply_section-Steps context stx 0 s t full e
  apply_guaranteed_only-Steps context (claim_rewards rewards) s t full e =
      subst (Steps H s.zswap)
        (claim-zswap (outside E) s t rewards context.block_context.tblock (map_err-eq-ok claim _ e))
        here

  apply-Steps :
      (context : TransactionContext) (s : State) (tx : Transaction)
      → context.whitelist ≡ none
      → Steps H s.zswap (apply E context s tx).0.zswap
  unfolding apply
  apply-Steps context s tx full =
      continue-elim (λ out. Steps H s.zswap out.0.zswap) (apply_fallible E context tx) s
        (apply_guaranteed_only E context tx s)
        (λ t e.
          Steps-append H (apply_guaranteed_only-Steps context tx s t full e)
            (apply_fallible-Steps context tx t full))
        (λ error e. here)

  Chain-Steps : {now later : ℕ} {s u : State} → Chain E now s later u → Steps H s.zswap u.zswap
  unfolding apply_post_block_update
  Chain-Steps still = here
  Chain-Steps (transaction {now} {later} {s} context tx same full rest) =
      Steps-append H (apply-Steps context s tx full) (Chain-Steps rest)
  Chain-Steps (system_transaction {now} {later} {s} {t} {u} tx e rest) =
      subst (λ z. Steps H z u.zswap) (sym (system-zswap (outside E) s t tx now e))
        (Chain-Steps rest)
  Chain-Steps (block {now} next detailed overall b rest) = block_then now (Chain-Steps rest)

  -- An offer that spends a nullifier again cannot be applied.
  refused :
      (context : TransactionContext) (n : ℕ) (z z' : Zswap.State) (offer : Offer)
      → context.whitelist ≡ none
      → is_spent n z ≡ true
      → spends n offer ≡ true
      → Coins E context z (some offer) z'
      → ⊥
  refused context n z z' offer full spent again (indices, e) =
      let e' = subst (λ wl. try_apply H z offer wl ≡ ok (z', indices)) full e in
      let unspent = ((nullifier-Once H n z z' offer indices e').1 again).0 in cc

  -- The step of `try_fallible`.
  abbrev fallible_step :
      TransactionContext → Zswap.State → ℕ × Offer → Result TransactionInvalid Zswap.State
  fallible_step context st entry = do
    (next, _) ← map_err zswap (try_apply H st (entry.1) context.whitelist)
    ok next

  fallible_step-Coins :
      (context : TransactionContext) (z z' : Zswap.State) (entry : ℕ × Offer)
      → fallible_step context z entry ≡ ok z'
      → Coins E context z (some entry.1) z'
  fallible_step-Coins context z z' entry e =
      let (out, e₁, e₂) = >>=-eq-ok (map_err zswap (try_apply H z entry.1 context.whitelist)) _ e in
      subst (Coins E context z (some entry.1)) (ok-injective e₂) (out.1, map_err-eq-ok zswap _ e₁)

  fold-refused :
      (context : TransactionContext) (n : ℕ) (z z' : Zswap.State) (entries : List (ℕ × Offer))
      (entry : ℕ × Offer)
      → context.whitelist ≡ none
      → is_spent n z ≡ true
      → spends n entry.1 ≡ true
      → Member entry entries
      → try_fold (fallible_step context) z entries ≡ ok z'
      → ⊥
  unfolding try_fold
  fold-refused context n z z' [] entry full spent again nowhere e = nowhere
  fold-refused context n z z' (first ∷ rest) entry full spent again (inl same) e =
      let (next, e₁, _) = >>=-eq-ok (fallible_step context z first) _ e in
      refused context n z next entry.1 full spent again (
        fallible_step-Coins context z next entry
          (subst (λ x. fallible_step context z x ≡ ok next) same e₁))
  fold-refused context n z z' (first ∷ rest) entry full spent again (inr later) e =
      let (next, e₁, e₂) = >>=-eq-ok (fallible_step context z first) _ e in
      let steps =
        Coins-Steps context z next (some first.1) full
          (fallible_step-Coins context z next first e₁) in
      fold-refused context n next z' rest entry full (is_spent-Steps H n steps spent) again later e₂

  -- A transaction one of whose offers, guaranteed or fallible, spends the nullifier.
  abbrev pub Spends : ℕ → StandardTransaction → Type 0
  Spends n tx =
      ((offer : Offer) × (tx.guaranteed_coins ≡ some offer) × (spends n offer ≡ true))
      ⊎ ((entry : ℕ × Offer) × Member entry (sorted_iter tx.fallible_coins)
          × (spends n entry.1 ≡ true))

  guaranteed-spends :
      (context : TransactionContext) (n : ℕ) (s g : State) (tx : StandardTransaction)
      (offer : Offer)
      → context.whitelist ≡ none
      → tx.guaranteed_coins ≡ some offer
      → spends n offer ≡ true
      → apply_section E context tx 0 s ≡ ok g
      → (is_spent n s.zswap ≡ false) × (is_spent n g.zswap ≡ true)
  guaranteed-spends context n s g tx offer full coins spent e =
      let (r, _, _, coined, _) = guaranteed-Taken E context tx s g e in
      let (indices, applied) =
        subst (λ (o : Option Offer). Coins E context s.zswap o g.zswap) coins coined in
      (nullifier-Once H n s.zswap g.zswap offer indices
          (subst (λ wl. try_apply H s.zswap offer wl ≡ ok (g.zswap, indices)) full applied)).1
        spent

  -- A coin is not spent twice: once a transaction spends a nullifier in its guaranteed offer, then
  -- whatever transactions, system transactions and blocks follow at a full node, every transaction
  -- that spends it again, in its guaranteed offer or in a fallible one, fails and changes nothing.
  pub no_transaction_double_spend :
      (context context' : TransactionContext) (first second : StandardTransaction) (s u : State)
      (n : ℕ) (offer : Offer)
      → context.whitelist ≡ none
      → first.guaranteed_coins ≡ some offer
      → spends n offer ≡ true
      → is_failure (apply E context s (standard first)).1 ≡ false
      → Chain E context.block_context.tblock
          (apply E context s (standard first)).0
          context'.block_context.tblock
          u
      → context'.whitelist ≡ none
      → Spends n second
      → (is_failure (apply E context' u (standard second)).1 ≡ true)
        × ((apply E context' u (standard second)).0 ≡ u)
  unfolding apply_guaranteed_only try_fallible
  no_transaction_double_spend context context' first second s u n offer full coins spent applied
        chain full' again =
      let (g, e, rest) = guaranteed-applied E context s (standard first) applied in
      let once = (guaranteed-spends context n s g first offer full coins spent e).1 in
      let moved =
        subst (λ (v : State). Steps H g.zswap v.zswap) (sym rest)
          (apply_fallible-Steps context (standard first) g full) in
      let still_spent = is_spent-Steps H n (Steps-append H moved (Chain-Steps chain)) once in
      failed E context' u (standard second) (
        is_ok-never (apply_section E context' second 0 u) λ v e'. elim again [
          | inl (o, coins', spent') ↦
              let fresh = (guaranteed-spends context' n u v second o full' coins' spent' e').0 in cc
          | inr (entry, there, spent') ↦
              let (r, _, _, coined, covered) = guaranteed-Taken E context' second u v e' in
              let kept =
                is_spent-Steps H n
                  (Coins-Steps context' u.zswap v.zswap second.guaranteed_coins full' coined)
                  still_spent in
              let (w, run) = is_ok-eq-ok _ covered in
              fold-refused context' n v.zswap w (sorted_iter second.fallible_coins) entry full' kept
                spent' there run
        ])
