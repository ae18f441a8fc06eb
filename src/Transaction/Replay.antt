-- ===== src/Transaction/Replay.antt =====
-- Intents of transactions and the replay protection (ledger/src/semantics.rs).
use midnight_ledger.Prelude.{
  Member, ℕ, ◌≡◌, refl, sym, subst, Bool, true, false, List, [], ◌∷◌, inl, inr, Result, ok, err,
  is_ok, try_fold, >>=-eq-ok, Yields, Yields-eq-ok, Yields-try_fold, Yields-intro, is_ok-never,
  nat_eq,
}
use midnight_ledger.Storage.TimeFilterMap.{TimeFilterMap, IsConsistent}
use midnight_ledger.Ledger.{LedgerState}
use midnight_ledger.Ledger.Replay.{
  History, here, History-append, History-IsConsistent, apply_member, no_replay,
}
use midnight_ledger.Transaction.{
  Intent, StandardTransaction, Transaction, standard, State, TransactionContext, TransactionInvalid,
  Environment, sorted_iter,
}
use midnight_ledger.Transaction.Section.{apply_intent, apply_tx, apply_section}
use midnight_ledger.Transaction.Apply.{
  TransactionResult, success, partial_success, failure, apply_guaranteed_only, apply_fallible,
  continue, apply,
}
use midnight_ledger.Transaction.Chain.{
  Chain, Chain-History, apply_intent-History, apply_fallible-Moves, guaranteed-taken,
}

abbrev pub is_failure : TransactionResult → Bool
is_failure success = false
is_failure (partial_success _) = false
is_failure (failure _) = true

-- Where a fold over intents took one of them.
record TakenAt (now g : ℕ) (m : TimeFilterMap ℕ) (intent : Intent) (u : TimeFilterMap ℕ)
    : Type 0 where
  before : TimeFilterMap ℕ
  after : TimeFilterMap ℕ
  to_before : History now m now before
  taken : apply_member before (intent.intent_hash 0) intent.ttl now g ≡ ok after
  from_after : History now after now u

fold-History :
    (now g : ℕ) (m : TimeFilterMap ℕ) (entries : List (ℕ × Intent))
    → Yields (History now m now) (try_fold (apply_intent now g) m entries)
fold-History now g m entries =
    Yields-try_fold (History now m now) (apply_intent now g)
      (λ n entry p. Yields-intro (History now m now) (apply_intent now g n entry) λ u e.
        History-append p
          (Yields-eq-ok (History now n now) _ (apply_intent-History now g n entry) e))
      m entries here

fold-TakenAt :
    (now g : ℕ) (m u : TimeFilterMap ℕ) (entries : List (ℕ × Intent)) (segment : ℕ)
    (intent : Intent)
    → Member (segment, intent) entries
    → try_fold (apply_intent now g) m entries ≡ ok u
    → TakenAt now g m intent u
unfolding try_fold apply_intent
fold-TakenAt now g m u [] segment intent nowhere e = elim nowhere [ ]
fold-TakenAt now g m u (entry ∷ entries) segment intent (inl same) e =
    let (n, e₁, e₂) = >>=-eq-ok (apply_intent now g m entry) _ e in
    record {
      before = m;
      after = n;
      to_before = here;
      taken =
          subst (λ (i : ℕ × Intent). apply_member m (i.1.intent_hash 0) i.1.ttl now g ≡ ok n) same
            e₁;
      from_after = Yields-eq-ok (History now n now) _ (fold-History now g n entries) e₂;
    }
fold-TakenAt now g m u (entry ∷ entries) segment intent (inr later) e =
    let (n, e₁, e₂) = >>=-eq-ok (apply_intent now g m entry) _ e in
    let at = fold-TakenAt now g n u entries segment intent later e₂ in
    let first = Yields-eq-ok (History now m now) _ (apply_intent-History now g m entry) e₁ in
    record {
      before = at.before;
      after = at.after;
      to_before = History-append first at.to_before;
      taken = at.taken;
      from_after = at.from_after;
    }

module _ {S : Type 0} (fallible : S → S × TransactionResult) (s : S) where
  continue-cases :
      (r : Result TransactionInvalid S)
      → is_failure (continue fallible s r).1 ≡ false
      → (g : S) × (r ≡ ok g) × ((continue fallible s r).0 ≡ (fallible g).0)
  unfolding continue
  continue-cases (ok g) h = (g, refl, refl)
  continue-cases (err e) h = let no : ⊥ = cc in elim no [ ]

  continue-failed :
      (r : Result TransactionInvalid S)
      → is_ok r ≡ false
      → (is_failure (continue fallible s r).1 ≡ true) × ((continue fallible s r).0 ≡ s)
  unfolding continue
  continue-failed (ok g) h = cc
  continue-failed (err e) h = (refl, refl)

module _ (E : Environment) (context : TransactionContext) (s : State) (tx : Transaction) where
  -- A transaction that fails leaves the state.
  pub failed :
      is_ok (apply_guaranteed_only E context tx s) ≡ false
      → (is_failure (apply E context s tx).1 ≡ true) × ((apply E context s tx).0 ≡ s)
  unfolding apply
  failed h =
      continue-failed (apply_fallible E context tx) s (apply_guaranteed_only E context tx s) h

  -- A transaction that does not fail has its guaranteed segment applied.
  pub guaranteed-applied :
      is_failure (apply E context s tx).1 ≡ false
      → (g : State) × (apply_guaranteed_only E context tx s ≡ ok g)
        × ((apply E context s tx).0 ≡ (apply_fallible E context tx g).0)
  unfolding apply
  guaranteed-applied h =
      continue-cases (apply_fallible E context tx) s (apply_guaranteed_only E context tx s) h

module _ (E : Environment) where
  -- The same intent is not taken twice: once a transaction with it is applied to a state whose
  -- replay protection is consistent, then whatever transactions, system transactions and blocks
  -- follow at a full node, every transaction with the intent fails and changes nothing.
  pub no_transaction_replay :
      (context context' : TransactionContext) (first second : StandardTransaction) (s u : State)
      (intent : Intent) (segment segment' : ℕ)
      → IsConsistent s.replay_protection
      → Member (segment, intent) (sorted_iter first.intents)
      → is_failure (apply E context s (standard first)).1 ≡ false
      → Chain E context.block_context.tblock
          (apply E context s (standard first)).0
          context'.block_context.tblock
          u
      → Member (segment', intent) (sorted_iter second.intents)
      → (is_failure (apply E context' u (standard second)).1 ≡ true)
        × ((apply E context' u (standard second)).0 ≡ u)
  unfolding apply_guaranteed_only apply_tx
  no_transaction_replay context context' first second s u intent segment segment' c here_first
        applied chain here_second =
      let now = context.block_context.tblock in
      let later = context'.block_context.tblock in
      let hash = intent.intent_hash 0 in
      let (g, e, rest) = guaranteed-applied E context s (standard first) applied in
      let at =
        fold-TakenAt now s.parameters.global_ttl s.replay_protection g.replay_protection
          (sorted_iter first.intents) segment intent here_first
          (guaranteed-taken E context first s g e) in
      let moved = apply_fallible-Moves E context g (standard first) in
      let after = History-append at.from_after (
        subst (λ v. History now g.replay_protection now (LedgerState.replay_protection v))
          (sym rest) moved) in
      let until = History-append after (Chain-History E chain) in
      failed E context' u (standard second) (
        is_ok-never (apply_section E context' second 0 u) λ v e'.
          let again =
            fold-TakenAt later u.parameters.global_ttl u.replay_protection v.replay_protection
              (sorted_iter second.intents) segment' intent here_second
              (guaranteed-taken E context' second u v e') in
          let refused =
            no_replay hash intent.ttl now later s.parameters.global_ttl u.parameters.global_ttl
              at.before at.after again.before (History-IsConsistent at.to_before c) at.taken
              (History-append until again.to_before) in
          cc)
