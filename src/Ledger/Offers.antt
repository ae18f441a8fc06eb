-- ===== src/Ledger/Offers.antt =====
-- What an unshielded offer does to the outputs (`UtxoState::apply_offer` of
-- ledger/src/semantics.rs): it conserves every weight, and spends no output twice.
use midnight_ledger.Prelude.{
  ℕ, ◌+◌, ◌%◌, ◌^◌, ◌<◌, ◌≤◌, ◌≡◌, ◌⊎◌, refl, sym, ap, ◌∙◌, true, false, none, List, [], ◌∷◌, ◌++◌,
  arith, ok, try_fold, is_ok, ok-injective, >>=-eq-ok, nat_eq, subst, length, Option-cases, inl,
  inr, is_some, Bool-cases, Eq, >>=-elim,
}
use midnight_ledger.Prelude.Dict.{
  Dict, contains_key, lookup, insert, erase, IsDict, total, total-erase-some, total-insert-none,
  lookup-erase_self, lookup-erase_ne, erase-IsDict, contains_key-insert,
}
use midnight_ledger.Ledger.{Utxo, UtxoMeta, UtxoOutput, utxo_eq}
use midnight_ledger.Ledger.Utxos.{UnshieldedOffer, spend_utxo, new_utxos, insert_utxos, apply_offer}

abbrev pub weigh : (Utxo → ℕ) → List Utxo → ℕ
weigh w [] = 0
weigh w (u ∷ us) = w u + weigh w us

-- The weight of all outputs of a state.
abbrev pub holdings : (Utxo → ℕ) → Dict Utxo UtxoMeta → ℕ
holdings w m = total (λ u _. w u) m

spend_utxo-eq-ok :
    (m n : Dict Utxo UtxoMeta) (u : Utxo)
    → spend_utxo m u ≡ ok n
    → (contains_key u m ≡ true) × (n ≡ erase u m)
unfolding spend_utxo
spend_utxo-eq-ok m n u e = grind arith

holdings-erase :
    (w : Utxo → ℕ) (u : Utxo) (m : Dict Utxo UtxoMeta)
    → contains_key u m ≡ true
    → holdings w (erase u m) + w u ≡ holdings w m
holdings-erase w u m c = elim (Option-cases (lookup u m)) [
  | inl absent ↦ let a = ap is_some absent in cc
  | inr (d, found) ↦ total-erase-some (λ u _. w u) u d m found
]

holdings-spend :
    (w : Utxo → ℕ) (m r : Dict Utxo UtxoMeta) (us : List Utxo)
    → try_fold spend_utxo m us ≡ ok r
    → holdings w r + weigh w us ≡ holdings w m
unfolding try_fold
holdings-spend w m r [] e = ap (λ x. holdings w x + 0) (sym (ok-injective e)) ∙ omega arith
holdings-spend w m r (u ∷ us) e =
    let (n, e1, e2) = >>=-eq-ok (spend_utxo m u) (λ n. try_fold spend_utxo n us) e in
    let (there, eq) = spend_utxo-eq-ok m n u e1 in
    let left = holdings-spend w n r us e2 in
    let one = ap (λ x. holdings w x + w u) eq ∙ holdings-erase w u m there in omega arith

-- No output of the state has the hash, or one has but with a number below the bound.
abbrev pub Below : ℕ → ℕ → Dict Utxo UtxoMeta → Type 0
Below hash n m = (u : Utxo) → contains_key u m ≡ true → u.intent_hash ≡ hash → Utxo.output_no u < n

insert-Below :
    (hash n : ℕ) (d : UtxoMeta) (u : Utxo) (m : Dict Utxo UtxoMeta)
    → Below hash n m
    → u.output_no ≡ n
    → Below hash (n + 1) (insert u d m)
insert-Below hash n d u m b e x c h = elim (Bool-cases (Eq.beq utxo_eq u x)) [
  | inl same ↦
      let eq = (Eq.beq_iff utxo_eq u x).0 same in let at = ap Utxo.output_no eq in omega arith
  | inr other ↦
      let old : contains_key x m ≡ true = rw (contains_key-insert u x d m, other) at c in
      let below = b x old h in omega arith
]

erase-Below :
    (hash n : ℕ) (u : Utxo) (m : Dict Utxo UtxoMeta)
    → IsDict m
    → Below hash n m
    → Below hash n (erase u m)
erase-Below hash n u m i b x c h = elim (Bool-cases (Eq.beq utxo_eq u x)) [
  | inl same ↦
      let eq = (Eq.beq_iff utxo_eq u x).0 same in
      let gone =
        ap (λ y. contains_key y (erase u m)) (sym eq) ∙ ap is_some (lookup-erase_self u m i) in
      cc
  | inr other ↦ b x (ap is_some (sym (lookup-erase_ne u x m other)) ∙ c) h
]

fresh-lookup :
    (hash n : ℕ) (u : Utxo) (m : Dict Utxo UtxoMeta)
    → Below hash n m
    → u.intent_hash ≡ hash
    → n ≤ u.output_no
    → lookup u m ≡ none
fresh-lookup hash n u m b h le = elim (Option-cases (lookup u m)) [
  | inl absent ↦ absent
  | inr (d, found) ↦ let below = b u (ap is_some found) h in let no : ⊥ = omega arith in elim no [ ]
]

holdings-insert_utxos :
    (w : Utxo → ℕ) (tblock hash n : ℕ) (m : Dict Utxo UtxoMeta) (os : List UtxoOutput)
    → n + length os ≤ 2 ^ 32
    → Below hash n m
    → holdings w (insert_utxos tblock m (new_utxos hash n os))
      ≡ holdings w m + weigh w (new_utxos hash n os)
unfolding insert_utxos new_utxos
holdings-insert_utxos w tblock hash n m [] room b = omega arith
holdings-insert_utxos w tblock hash n m (o ∷ os) room b =
    let u : Utxo = record {
      value = o.value;
      owner = o.owner;
      type_ = o.type_;
      intent_hash = hash;
      output_no = n % 2 ^ 32;
    } in
    let d : UtxoMeta = record { ctime = tblock } in
    let number : n % 2 ^ 32 ≡ n = omega arith in
    let rest =
      holdings-insert_utxos w tblock hash (n + 1) (insert u d m) os (omega arith)
        (insert-Below hash n d u m b number) in
    let one = total-insert-none (λ u _. w u) u d m (fresh-lookup hash n u m b refl (omega arith)) in
    omega arith

spend-Below :
    (hash n : ℕ) (m r : Dict Utxo UtxoMeta) (us : List Utxo)
    → IsDict m
    → Below hash n m
    → try_fold spend_utxo m us ≡ ok r
    → Below hash n r
unfolding try_fold
spend-Below hash n m r [] i b e = subst (Below hash n) (ok-injective e) b
spend-Below hash n m r (u ∷ us) i b e =
    let (m1, e1, e2) = >>=-eq-ok (spend_utxo m u) (λ n. try_fold spend_utxo n us) e in
    let (_, eq) = spend_utxo-eq-ok m m1 u e1 in
    spend-Below hash n m1 r us (subst IsDict (sym eq) (erase-IsDict u m i))
      (subst (Below hash n) (sym eq) (erase-Below hash n u m i b)) e2

-- An offer with at most 2^32 outputs that applies, and whose intent hash no output of the state
-- has, takes the weight of its inputs from the state and adds that of its new outputs, for every
-- weight of outputs. No output is listed twice in the state.
pub apply_offer-conserves :
    (w : Utxo → ℕ) (m r : Dict Utxo UtxoMeta) (offer : UnshieldedOffer) (hash tblock : ℕ)
    → IsDict m
    → Below hash 0 m
    → length offer.outputs ≤ 2 ^ 32
    → apply_offer m offer hash tblock ≡ ok r
    → holdings w r + weigh w offer.inputs ≡ holdings w m + weigh w (new_utxos hash 0 offer.outputs)
unfolding apply_offer
apply_offer-conserves w m r offer hash tblock i b room e =
    let (left, e1, e2) = >>=-eq-ok (try_fold spend_utxo m offer.inputs) _ e in
    let spent = holdings-spend w m left offer.inputs e1 in
    let made =
      holdings-insert_utxos w tblock hash 0 left offer.outputs (omega arith)
        (spend-Below hash 0 m left offer.inputs i b e1) in
    let end = ap (holdings w) (sym (ok-injective e2)) in omega arith

-- What was not there is not there after an output is spent.
absent-erase :
    (u x : Utxo) (m : Dict Utxo UtxoMeta)
    → IsDict m
    → (contains_key u m ≡ false) ⊎ (x ≡ u)
    → contains_key u (erase x m) ≡ false
absent-erase u x m i (inr same) = rw same (ap is_some (lookup-erase_self u m i))
absent-erase u x m i (inl absent) = elim (Bool-cases (Eq.beq utxo_eq x u)) [
  | inl same ↦ rw ((Eq.beq_iff utxo_eq x u).0 same) (ap is_some (lookup-erase_self u m i))
  | inr other ↦ ap is_some (lookup-erase_ne x u m other) ∙ absent
]

spend-absent :
    (m : Dict Utxo UtxoMeta) (u : Utxo) (before after : List Utxo)
    → IsDict m
    → contains_key u m ≡ false
    → is_ok (try_fold spend_utxo m (before ++ (u ∷ after))) ≡ false
unfolding try_fold
spend-absent m u [] after i absent =
    >>=-elim (λ r. is_ok r ≡ false) (spend_utxo m u) (λ n. try_fold spend_utxo n after)
      (λ _ _. refl) (λ n e. let (there, _) = spend_utxo-eq-ok m n u e in cc)
spend-absent m u (x ∷ before) after i absent =
    >>=-elim (λ r. is_ok r ≡ false) (spend_utxo m x)
      (λ n. try_fold spend_utxo n (before ++ (u ∷ after))) (λ _ _. refl)
      (λ n e.
        let (_, eq) = spend_utxo-eq-ok m n x e in
        spend-absent n u before after (subst IsDict (sym eq) (erase-IsDict x m i))
          (ap (contains_key u) eq ∙ absent-erase u x m i (inl absent)))

spend-repeated :
    (m : Dict Utxo UtxoMeta) (u : Utxo) (before between after : List Utxo)
    → IsDict m
    → is_ok (try_fold spend_utxo m (before ++ (u ∷ (between ++ (u ∷ after))))) ≡ false
unfolding try_fold
spend-repeated m u [] between after i =
    >>=-elim (λ r. is_ok r ≡ false) (spend_utxo m u)
      (λ n. try_fold spend_utxo n (between ++ (u ∷ after))) (λ _ _. refl)
      (λ n e.
        let (_, eq) = spend_utxo-eq-ok m n u e in
        spend-absent n u between after (subst IsDict (sym eq) (erase-IsDict u m i))
          (ap (contains_key u) eq ∙ absent-erase u u m i (inr refl)))
spend-repeated m u (x ∷ before) between after i =
    >>=-elim (λ r. is_ok r ≡ false) (spend_utxo m x)
      (λ n. try_fold spend_utxo n (before ++ (u ∷ (between ++ (u ∷ after))))) (λ _ _. refl)
      (λ n e.
        let (_, eq) = spend_utxo-eq-ok m n x e in
        spend-repeated n u before between after (subst IsDict (sym eq) (erase-IsDict x m i)))

-- A fold of the inputs that is refused is an offer that is refused.
inputs-refused :
    (m : Dict Utxo UtxoMeta) (us : List Utxo) (os : List UtxoOutput) (hash tblock : ℕ)
    → is_ok (try_fold spend_utxo m us) ≡ false
    → is_ok (apply_offer m (record { inputs = us; outputs = os }) hash tblock) ≡ false
unfolding apply_offer
inputs-refused m us os hash tblock f =
    >>=-elim (λ r. is_ok r ≡ false) (try_fold spend_utxo m us) _ (λ _ _. refl)
      (λ t e. let a = ap is_ok e in cc)

-- An offer that lists an output twice among its inputs is refused by a state that lists no output
-- twice.
pub repeated_input_refused :
    (m : Dict Utxo UtxoMeta) (u : Utxo) (before between after : List Utxo) (os : List UtxoOutput)
    (hash tblock : ℕ)
    → IsDict m
    → is_ok (
        apply_offer m
          (record { inputs = before ++ (u ∷ (between ++ (u ∷ after))); outputs = os })
          hash
          tblock)
      ≡ false
repeated_input_refused m u before between after os hash tblock i =
    inputs-refused m (before ++ (u ∷ (between ++ (u ∷ after)))) os hash tblock
      (spend-repeated m u before between after i)

-- An offer with an input that is not in the state is refused by a state that lists no output twice.
absent_input_refused :
    (m : Dict Utxo UtxoMeta) (u : Utxo) (before after : List Utxo) (os : List UtxoOutput)
    (hash tblock : ℕ)
    → IsDict m
    → contains_key u m ≡ false
    → is_ok (apply_offer m (record { inputs = before ++ (u ∷ after); outputs = os }) hash tblock)
      ≡ false
absent_input_refused m u before after os hash tblock i absent =
    inputs-refused m (before ++ (u ∷ after)) os hash tblock (spend-absent m u before after i absent)
