-- ===== src/Zswap/Once.antt =====
-- What one offer of zswap/src/ledger.rs does to the sets of nullifiers and of commitments, applied
-- by a full node (no whitelist).
use midnight_ledger.Prelude.{
  ℕ, ◌≡◌, refl, sym, ap, ◌∙◌, Bool, true, false, Option, none, List, [], ◌∷◌, arith, ◌==◌,
  if◌then◌else◌, ok, ◌>>◌, map_err, try_fold, >>=-eq-ok, ok-injective, fail_if-eq-ok, nat_eq, any,
  subst, fail_if,
}
use midnight_ledger.Prelude.Dict.{Dict, contains_key, insert, contains_key-insert}
use midnight_ledger.Prelude.Once.{StaysDone, BecomesDone, BecomesDone-then, try_fold-once}
use midnight_ledger.MerkleTree.{Hashing, try_update_hash}
use midnight_ledger.Zswap.{
  State, Input, Output, Transient, Offer, apply_input, apply_output, apply_transient,
  append_commitment, try_apply, with_index, commitment_already_present, nullifier_already_present,
}
use midnight_ledger.Zswap.Invariant.{spend, apply_input-eq-ok}

abbrev pub is_spent : ℕ → State → Bool
is_spent n s = contains_key n s.nullifiers

abbrev pub is_committed : ℕ → State → Bool
is_committed c s = contains_key c s.coin_coms_set

-- The offer has an input or a transient with the nullifier.
abbrev pub spends : ℕ → Offer → Bool
spends n offer =
    if any (λ i. Input.nullifier i == n) offer.inputs
    then true
    else any (λ i. Transient.nullifier i == n) offer.transient

-- The offer has an output or a transient with the commitment.
abbrev pub creates : ℕ → Offer → Bool
creates c offer =
    if any (λ o. Output.coin_com o == c) offer.outputs
    then true
    else any (λ o. Transient.coin_com o == c) offer.transient

abbrev pub Once : (State → Bool) → Bool → State → State → Type 0
Once done hit s t = StaysDone done s t × BecomesDone done hit s t

insert-Once :
    (n k : ℕ) (m : Dict ℕ (Unit {0}))
    → (contains_key k m ≡ true → contains_key k (insert n tt m) ≡ true)
      × ((n == k) ≡ true → contains_key k (insert n tt m) ≡ true)
insert-Once n k m = (
  λ p. ground (arith, contains_key-insert n k tt m),
  λ p. ground (arith, contains_key-insert n k tt m),
)

-- The key that a guard found new.
new-at :
    (n k : ℕ) (m : Dict ℕ (Unit {0}))
    → contains_key n m ≡ false
    → (n == k) ≡ true
    → contains_key k m ≡ false
new-at n k m p e = ground (arith, e)

any-never : {A : Type 0} (xs : List A) → any (λ _. false) xs ≡ false
any-never [] = refl
any-never (x ∷ xs) = any-never xs

module _ (H : Hashing) where
  apply_input-Once :
      (n : ℕ) (s t : State) (inp : Input)
      → apply_input s inp none ≡ ok t
      → Once (is_spent n) (inp.nullifier == n) s t
  apply_input-Once n s t inp e =
      let (_, fresh, eq) = apply_input-eq-ok H s t inp none e in
      let (stays, becomes) = insert-Once inp.nullifier n s.nullifiers in
      subst (λ t. Once (is_spent n) (inp.nullifier == n) s t) eq
        (stays, λ h. (new-at inp.nullifier n s.nullifiers fresh h, becomes h))

  apply_input-coms :
      (s t : State) (inp : Input)
      → apply_input s inp none ≡ ok t
      → t.coin_coms_set ≡ s.coin_coms_set
  apply_input-coms s t inp e = ap State.coin_coms_set (sym (apply_input-eq-ok H s t inp none e).2)

  append_commitment-sets :
      (s t : State) (c c' ix : ℕ) (a : Option ℕ)
      → append_commitment H s c a none ≡ ok (t, c', ix)
      → (t.nullifiers ≡ s.nullifiers) × (t.coin_coms_set ≡ insert c tt s.coin_coms_set)
  unfolding append_commitment
  append_commitment-sets s t c c' ix a e =
      let (_, _, e2) = >>=-eq-ok (map_err _ (try_update_hash s.coin_coms s.first_free c a)) _ e in
      subst
        (λ p. (p.0.nullifiers ≡ s.nullifiers) × (p.0.coin_coms_set ≡ insert c tt s.coin_coms_set))
        (ok-injective e2) (refl, refl)

  -- What an output that applies has passed, and its effect on the two sets.
  apply_output-sets :
      (s t : State) (out : Output) (c ix : ℕ)
      → apply_output H s out none ≡ ok (t, c, ix)
      → (is_committed out.coin_com s ≡ false)
        × (t.nullifiers ≡ s.nullifiers)
        × (t.coin_coms_set ≡ insert out.coin_com tt s.coin_coms_set)
  unfolding apply_output
  apply_output-sets s t out c ix e =
      let (fresh, e1) =
        fail_if-eq-ok (is_committed out.coin_com s) (commitment_already_present out.coin_com)
          (append_commitment H s out.coin_com out.contract_address none) e in
      let (nulls, coms) = append_commitment-sets s t out.coin_com c ix out.contract_address e1 in
      (fresh, nulls, coms)

  apply_transient-sets :
      (s t : State) (trans : Transient) (c ix : ℕ)
      → apply_transient H s trans none ≡ ok (t, c, ix)
      → (is_committed trans.coin_com s ≡ false)
        × (is_spent trans.nullifier s ≡ false)
        × (t.nullifiers ≡ insert trans.nullifier tt s.nullifiers)
        × (t.coin_coms_set ≡ insert trans.coin_com tt s.coin_coms_set)
  unfolding apply_transient
  apply_transient-sets s t trans c ix e =
      let s1 = spend H s trans.nullifier true in
      let last = append_commitment H s1 trans.coin_com trans.contract_address none in
      let unspent =
        fail_if (is_spent trans.nullifier s) (nullifier_already_present trans.nullifier) in
      let (fresh, e1) =
        fail_if-eq-ok (is_committed trans.coin_com s) (commitment_already_present trans.coin_com)
          (unspent >> last) e in
      let (new, e2) =
        fail_if-eq-ok (is_spent trans.nullifier s) (nullifier_already_present trans.nullifier) last
          e1 in
      let (nulls, coms) =
        append_commitment-sets s1 t trans.coin_com c ix trans.contract_address e2 in
      (fresh, new, nulls, coms)

  -- A set that has one more key.
  inserted-Once :
      (field : State → Dict ℕ (Unit {0})) (n k : ℕ) (s t : State)
      → contains_key n (field s) ≡ false
      → field t ≡ insert n tt (field s)
      → Once (λ r. contains_key k (field r)) (n == k) s t
  inserted-Once field n k s t fresh eq =
      let (stays, becomes) = insert-Once n k (field s) in
      (
        λ p. ap (contains_key k) eq ∙ stays p,
        λ h. (new-at n k (field s) fresh h, ap (contains_key k) eq ∙ becomes h),
      )

  same-Once :
      (field : State → Dict ℕ (Unit {0})) (k : ℕ) (s t : State)
      → field t ≡ field s
      → Once (λ r. contains_key k (field r)) false s t
  same-Once field k s t eq = (λ p. ap (contains_key k) eq ∙ p, λ h. cc)

  -- A test of the state that every step of an offer handles at most once.
  try_apply-Once :
      (done : State → Bool) (hi : Input → Bool) (ho : Output → Bool) (ht : Transient → Bool)
      → ((s : State) (x : Input) (t : State) → apply_input s x none ≡ ok t → Once done (hi x) s t)
      → ((s : State) (x : Output) (t : State) (c ix : ℕ)
          → apply_output H s x none ≡ ok (t, c, ix)
          → Once done (ho x) s t)
      → ((s : State) (x : Transient) (t : State) (c ix : ℕ)
          → apply_transient H s x none ≡ ok (t, c, ix)
          → Once done (ht x) s t)
      → (s t : State) (offer : Offer) (indices : Dict ℕ ℕ)
      → try_apply H s offer none ≡ ok (t, indices)
      → Once done
          (if any hi offer.inputs
            then true
            else if any ho offer.outputs
            then true
            else any ht offer.transient)
          s
          t
  unfolding try_apply
  try_apply-Once done hi ho ht fi fo ft s t offer indices e =
      let (s1, e1, e') =
        >>=-eq-ok (try_fold (λ r inp. apply_input r inp none) s offer.inputs) _ e in
      let (p2, e2, e3) =
        >>=-eq-ok (try_fold (with_index H (apply_output H) none) (s1, []) offer.outputs) _ e' in
      let at = λ (p : State × Dict ℕ ℕ). (done p.0) in
      BecomesDone-then done (any hi offer.inputs) _ s s1 t
        (try_fold-once done hi (λ r inp. apply_input r inp none) fi s s1 offer.inputs e1)
        (BecomesDone-then done (any ho offer.outputs) (any ht offer.transient) s1 p2.0 t
          (try_fold-once at ho (with_index H (apply_output H) none)
            (λ p x q e.
              let ((r, c, ix), a, b) = >>=-eq-ok (apply_output H p.0 x none) _ e in
              subst (λ q. Once done (ho x) p.0 q.0) (ok-injective b) (fo p.0 x r c ix a))
            (s1, []) p2 offer.outputs e2)
          (try_fold-once at ht (with_index H (apply_transient H) none)
            (λ p x q e.
              let ((r, c, ix), a, b) = >>=-eq-ok (apply_transient H p.0 x none) _ e in
              subst (λ q. Once done (ht x) p.0 q.0) (ok-injective b) (ft p.0 x r c ix a))
            p2 (t, indices) offer.transient e3))

  -- A nullifier is spent at most once.
  pub nullifier-Once :
      (n : ℕ) (s t : State) (offer : Offer) (indices : Dict ℕ ℕ)
      → try_apply H s offer none ≡ ok (t, indices)
      → Once (is_spent n) (spends n offer) s t
  nullifier-Once n s t offer indices e =
      subst
        (λ b.
          Once (is_spent n)
            (if any (λ i. Input.nullifier i == n) offer.inputs
              then true
              else if b
              then true
              else any (λ i. Transient.nullifier i == n) offer.transient)
            s t)
        (any-never offer.outputs)
        (try_apply-Once (is_spent n) (λ i. Input.nullifier i == n) (λ _. false)
          (λ i. Transient.nullifier i == n) (λ s x t. apply_input-Once n s t x)
          (λ s x t c ix e. same-Once State.nullifiers n s t (apply_output-sets s t x c ix e).1)
          (λ s x t c ix e.
            let (_, fresh, eq, _) = apply_transient-sets s t x c ix e in
            inserted-Once State.nullifiers x.nullifier n s t fresh eq)
          s t offer indices e)

  -- A commitment is made at most once.
  pub commitment-Once :
      (n : ℕ) (s t : State) (offer : Offer) (indices : Dict ℕ ℕ)
      → try_apply H s offer none ≡ ok (t, indices)
      → Once (is_committed n) (creates n offer) s t
  commitment-Once n s t offer indices e =
      subst (λ b. Once (is_committed n) (if b then true else creates n offer) s t)
        (any-never offer.inputs)
        (try_apply-Once (is_committed n) (λ _. false) (λ o. Output.coin_com o == n)
          (λ i. Transient.coin_com i == n)
          (λ s x t e. same-Once State.coin_coms_set n s t (apply_input-coms s t x e))
          (λ s x t c ix e.
            let (fresh, _, eq) = apply_output-sets s t x c ix e in
            inserted-Once State.coin_coms_set x.coin_com n s t fresh eq)
          (λ s x t c ix e.
            let (fresh, _, _, eq) = apply_transient-sets s t x c ix e in
            inserted-Once State.coin_coms_set x.coin_com n s t fresh eq)
          s t offer indices e)
