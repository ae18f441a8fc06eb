-- ===== src/Dust/Shares.antt =====
-- What a registration creates, and the fees that it pays (`apply_registration` of ledger/src/dust.rs).
use native.Mathlib.Nat.{add-mul, div-mul-le_self, mul-le-mul_right, le_of_mul-le-mul_right}
use midnight_ledger.Prelude.{
  ℕ, ◌+◌, ◌*◌, ◌/◌, ◌^◌, ◌≤◌, ◌<◌, ◌≡◌, refl, List, [], ◌∷◌, Result, ok, err, foldl, arith, ◌==◌,
  nat_eq, Option, none, some, unwrap_or, map, try_fold, >>=-eq-ok, ok-injective, ap, ◌∙◌, ◌-◌, ◌%◌,
  min, Bool-cases, inl, inr, ltb, ltb→lt, ltb→ge,
}
use midnight_ledger.Ledger.{Utxo, UtxoMeta, UtxoOutput, saturating_add}
use midnight_ledger.Dust.{
  DustState, DustRegistration, DustParameters, Intent, Hashes, DustError, fresh_dust_output,
  saturating_mul,
}
use midnight_ledger.Dust.Registration.{
  share, distribute_dust, hand_out, delegate, owned_outputs, outputs_of, apply_registration,
  generationless_fee_availability,
}
use midnight_ledger.Dust.Steps.{delegated}
use midnight_ledger.Prelude.Dict.{Dict}

abbrev received : Result DustError ℕ → ℕ
received (ok n) = n
received (err e) = 0

-- The values of outputs, and what they get of the dust that is left.
abbrev pub total_value : List (ℕ × UtxoOutput) → ℕ
total_value [] = 0
total_value (o ∷ os) = o.1.value + total_value os

abbrev output_sum : List (ℕ × UtxoOutput) → ℕ
output_sum owned = foldl (λ sum o. saturating_add sum (UtxoOutput.value o.1)) 0 owned

abbrev handed : Hashes → ℕ → ℕ → List (ℕ × UtxoOutput) → ℕ
handed H sum dust [] = 0
handed H sum dust (o ∷ os) = received (share H o.1.value sum dust) + handed H sum dust os

-- The ratios of the outputs.
abbrev ratios : ℕ → List (ℕ × UtxoOutput) → ℕ
ratios sum [] = 0
ratios sum (o ∷ os) = saturating_mul o.1.value 10000 / sum + ratios sum os

fold-exact :
    (owned : List (ℕ × UtxoOutput)) (a : ℕ)
    → a + total_value owned < 2 ^ 128
    → foldl (λ sum o. saturating_add sum (UtxoOutput.value o.1)) a owned ≡ a + total_value owned
fold-exact [] a h = omega arith
fold-exact (o ∷ os) a h =
    let e : saturating_add a o.1.value ≡ a + o.1.value = omega (arith, h) in
    let r = fold-exact os (a + o.1.value) (omega (arith, h)) in rw (e, r) (omega arith)

ratios-bound :
    (sum : ℕ) (owned : List (ℕ × UtxoOutput)) → ratios sum owned * sum ≤ total_value owned * 10000
ratios-bound sum [] = omega arith
ratios-bound sum (o ∷ os) =
    let first = div-mul-le_self (saturating_mul o.1.value 10000) sum in
    let rest = ratios-bound sum os in
    rw (add-mul (saturating_mul o.1.value 10000 / sum) (ratios sum os) sum)
      (omega (arith, first, rest))

handed-bound :
    (H : Hashes) (sum dust : ℕ) (owned : List (ℕ × UtxoOutput))
    → handed H sum dust owned * 10000 ≤ ratios sum owned * dust
unfolding share
handed-bound H sum dust [] = omega arith
handed-bound H sum dust (o ∷ os) =
    let rest = handed-bound H sum dust os in
    let q = saturating_mul o.1.value 10000 / sum in
    rw (add-mul q (ratios sum os) dust) elim (Bool-cases (sum == 0)) [
      | inl e ↦ rw (share, e) (omega (arith, rest))
      | inr e ↦ rw (share, e) (omega (arith, rest))
    ]

handed-zero : (H : Hashes) (dust : ℕ) (owned : List (ℕ × UtxoOutput)) → handed H 0 dust owned ≡ 0
unfolding share
handed-zero H dust [] = refl
handed-zero H dust (o ∷ os) = omega (arith, handed-zero H dust os)

-- The shares of an amount of dust are at most the amount.
handed-le :
    (H : Hashes) (dust : ℕ) (owned : List (ℕ × UtxoOutput))
    → total_value owned < 2 ^ 128
    → handed H (output_sum owned) dust owned ≤ dust
handed-le H dust owned h =
    let exact : output_sum owned ≡ total_value owned =
      omega (arith, fold-exact owned 0 (omega (arith, h))) in
    let shares = handed-bound H (total_value owned) dust owned in
    let ratio = ratios-bound (total_value owned) owned in
    rw exact elim (Bool-cases (ltb 0 (total_value owned))) [
      | inl some_value ↦
          let whole : ratios (total_value owned) owned ≤ 10000 =
            le_of_mul-le-mul_right (omega (arith, ratio)) (ltb→lt _ _ some_value) in
          let bound = mul-le-mul_right dust whole in omega (arith, shares, bound)
      | inr no_value ↦
          let none_at_all : total_value owned ≡ 0 = omega (arith, ltb→ge _ _ no_value) in
          rw (none_at_all, handed-zero H dust owned) (omega arith)
    ]

-- New dust outputs: each with its initial value, and the output of NIGHT behind it with its number.
abbrev pub amounts : List (ℕ × (ℕ × UtxoOutput)) → ℕ
amounts [] = 0
amounts ((initial, o) ∷ created) = initial + amounts created

abbrev pub recipients : Option ℕ → List (ℕ × UtxoOutput) → List (ℕ × UtxoOutput)
recipients none owned = []
recipients (some dust_addr) owned = owned

module _ (H : Hashes) where
  abbrev pub create : ℕ → ℕ → ℕ → DustState → ℕ × (ℕ × UtxoOutput) → Result DustError DustState
  create intent_hash dust_addr tnow state (initial, (output_no, output)) =
      fresh_dust_output H state (H.initial_nonce (output_no % 2 ^ 32) intent_hash) initial
        output.value dust_addr tnow

  abbrev shares_of : ℕ → ℕ → List (ℕ × UtxoOutput) → List (ℕ × (ℕ × UtxoOutput))
  shares_of sum dust [] = []
  shares_of sum dust (o ∷ os) = (received (share H o.1.value sum dust), o) ∷ shares_of sum dust os

  amounts-shares_of :
      (sum dust : ℕ) (owned : List (ℕ × UtxoOutput))
      → amounts (shares_of sum dust owned) ≡ handed H sum dust owned
  amounts-shares_of sum dust [] = refl
  amounts-shares_of sum dust (o ∷ os) = omega (arith, amounts-shares_of sum dust os)

  map-shares_of :
      (sum dust : ℕ) (owned : List (ℕ × UtxoOutput))
      → map (λ c. c.1) (shares_of sum dust owned) ≡ owned
  map-shares_of sum dust [] = refl
  map-shares_of sum dust (o ∷ os) = ap (λ rest. o ∷ rest) (map-shares_of sum dust os)

  create-shares_of :
      (hash addr sum dust tnow : ℕ) (s t : DustState) (owned : List (ℕ × UtxoOutput))
      → try_fold (distribute_dust H hash addr sum dust tnow) s owned ≡ ok t
      → try_fold (create hash addr tnow) s (shares_of sum dust owned) ≡ ok t
  unfolding try_fold distribute_dust
  create-shares_of hash addr sum dust tnow s t [] e = e
  create-shares_of hash addr sum dust tnow s t (o ∷ os) e =
      let (next, e₁, e₂) = >>=-eq-ok (distribute_dust H hash addr sum dust tnow s o) _ e in
      let (initial, e₃, e₄) = >>=-eq-ok (share H o.1.value sum dust) _ e₁ in
      let rest = create-shares_of hash addr sum dust tnow next t os e₂ in
      let same : create hash addr tnow s (received (share H o.1.value sum dust), o) ≡ ok next =
        rw e₃ e₄ in
      rw same rest

  -- What `hand_out` does, as the creation of outputs.
  record Paid (hash tnow dust : ℕ) (address : Option ℕ) (s t : DustState)
      (owned : List (ℕ × UtxoOutput)) : Type 0 where
    pub created : List (ℕ × (ℕ × UtxoOutput))
    pub each : map (λ c. c.1) created ≡ recipients address owned
    pub run : try_fold (create hash (unwrap_or address 0) tnow) s created ≡ ok t
    pub bounded : amounts created ≤ dust

  hand_out-Paid :
      (hash tnow dust : ℕ) (address : Option ℕ) (s t : DustState) (owned : List (ℕ × UtxoOutput))
      → total_value owned < 2 ^ 128
      → hand_out H hash address dust tnow s owned ≡ ok t
      → Paid hash tnow dust address s t owned
  unfolding hand_out try_fold
  hand_out-Paid hash tnow dust none s t owned b e = record {
    created = [];
    each = refl;
    run = e;
    bounded = omega arith;
  }
  hand_out-Paid hash tnow dust (some addr) s t owned b e =
      let sum = output_sum owned in
      record {
        created = shares_of sum dust owned;
        each = map-shares_of sum dust owned;
        run = create-shares_of hash addr sum dust tnow s t owned e;
        bounded = omega (arith, amounts-shares_of sum dust owned, handed-le H dust owned b);
      }

  -- A registration that applies, for a key whose new NIGHT is worth less than 2^128, changes the
  -- delegation and creates dust outputs: one for each of the key's outputs of NIGHT, or none if no
  -- dust address is named. Their initial values and the fees that are paid are together at most the
  -- dust that the key's spent NIGHT would have generated.
  pub apply_registration-amounts :
      (s t : DustState) (utxos : Dict Utxo UtxoMeta) (fees rest : ℕ) (parent : Intent)
      (r : DustRegistration) (params : DustParameters) (tnow : ℕ)
      → let owned =
          owned_outputs H
            (H.user_address r.night_key)
            0
            (outputs_of H parent.guaranteed_unshielded_offer) in
        total_value owned < 2 ^ 128
        → apply_registration H s utxos fees parent r params tnow ≡ ok (t, rest)
        → (d : Dict ℕ ℕ) × (created : List (ℕ × (ℕ × UtxoOutput))) × (delegate H
              s.generation.address_delegation
              (H.user_address r.night_key)
              r.dust_address
            ≡ ok d)
          × (map (λ c. c.1) created ≡ recipients r.dust_address owned)
          × (try_fold
                (create (parent.intent_hash 0) (unwrap_or r.dust_address 0) tnow)
                (delegated s d)
                created
              ≡ ok t)
          × (rest ≤ fees)
          × (amounts created + (fees - rest)
              ≤ generationless_fee_availability H s utxos parent r.night_key params)
  unfolding apply_registration
  apply_registration-amounts s t utxos fees rest parent r params tnow b e =
      let address = H.user_address r.night_key in
      let owned = owned_outputs H address 0 (outputs_of H parent.guaranteed_unshielded_offer) in
      let dust_in = generationless_fee_availability H s utxos parent r.night_key params in
      let fee_paid = min fees (min r.allow_fee_payment dust_in) in
      let (d, e₁, e₂) =
        >>=-eq-ok (delegate H s.generation.address_delegation address r.dust_address) _ e in
      let (u, e₃, e₄) =
        >>=-eq-ok
          (hand_out H (parent.intent_hash 0) r.dust_address (dust_in - fee_paid) tnow
            (delegated s d) owned)
          _ e₂ in
      let paid =
        hand_out-Paid (parent.intent_hash 0) tnow (dust_in - fee_paid) r.dust_address
          (delegated s d) u owned b e₃ in
      let same : u ≡ t = ap (λ p. p.0) (ok-injective e₄) in
      let left : fees - fee_paid ≡ rest = ap (λ p. p.1) (ok-injective e₄) in
      (
        d,
        paid.created,
        e₁,
        paid.each,
        paid.run ∙ ap ok same,
        omega (arith, left),
        omega (arith, left, paid.bounded),
      )
