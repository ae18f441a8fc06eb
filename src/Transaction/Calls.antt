-- ===== src/Transaction/Calls.antt =====
-- What a contract call does to the balances of contracts (`apply_actions` of
-- ledger/src/semantics.rs).
use midnight_ledger.Prelude.{
  ℕ, ◌+◌, ◌-◌, ◌≡◌, ap, sym, ◌∙◌, subst, Bool, not, Option, none, some, [], ◌∷◌, ◌==◌,
  if◌then◌else◌, Result, ok, map_err, try_fold, unwrap_or, >>=-eq-ok, fail_if-eq-ok, ok-injective,
  inl, inr, Bool-cases, Option-cases, nat_eq, ==_iff, arith,
}
use midnight_ledger.Prelude.Dict.{Dict, lookup, insert, lookup-insert, lookup-insert_self}
use midnight_ledger.Ledger.{ContractState, TokenType, token_eq}
use midnight_ledger.Runtime.{Transcript, same_effects, run_transcript, no_effects, QueryContext}
use midnight_ledger.Transaction.{
  ContractCall, Intent, TransactionInvalid, transcript, effects_mismatch, State, TransactionContext,
  Environment,
}
use midnight_ledger.Transaction.Actions.{
  whitelist_matches, receive, pay, call_context, run_call, apply_call,
}

-- The amount of a token in a balance.
abbrev held : TokenType → Dict TokenType ℕ → ℕ
held k balance = unwrap_or (lookup k balance) 0

-- The amount of a token that the entries of a map add up to.
abbrev amount_of : TokenType → Dict TokenType ℕ → ℕ
amount_of k [] = 0
amount_of k ((token_type, val) ∷ m) = (if token_eq.beq token_type k then val else 0) + amount_of k m

receive-held :
    (k t : TokenType) (v : ℕ) (b c : Dict TokenType ℕ)
    → receive b (t, v) ≡ ok c
    → held k c ≡ held k b + (if token_eq.beq t k then v else 0)
unfolding receive
receive-held k t v b c e = ground (arith, lookup-insert t k (held t b + v) b, token_eq.beq_iff t k)

pay-held :
    (k t : TokenType) (v : ℕ) (b c : Dict TokenType ℕ)
    → pay b (t, v) ≡ ok c
    → held k c + (if token_eq.beq t k then v else 0) ≡ held k b
unfolding pay
pay-held k t v b c e = ground (arith, lookup-insert t k (held t b - v) b, token_eq.beq_iff t k)

receive_all-held :
    (k : TokenType) (xs b c : Dict TokenType ℕ)
    → try_fold receive b xs ≡ ok c
    → held k c ≡ held k b + amount_of k xs
unfolding try_fold
receive_all-held k [] b c e = ap (held k) (sym (ok-injective e)) ∙ omega arith
receive_all-held k ((t, v) ∷ xs) b c e =
    let (m, e₁, e₂) = >>=-eq-ok (receive b (t, v)) _ e in
    let first = receive-held k t v b m e₁ in
    let rest = receive_all-held k xs m c e₂ in omega (arith, first, rest)

pay_all-held :
    (k : TokenType) (xs b c : Dict TokenType ℕ)
    → try_fold pay b xs ≡ ok c
    → held k c + amount_of k xs ≡ held k b
unfolding try_fold
pay_all-held k [] b c e = omega (arith, ap (held k) (ok-injective e))
pay_all-held k ((t, v) ∷ xs) b c e =
    let (m, e₁, e₂) = >>=-eq-ok (pay b (t, v)) _ e in
    let first = pay-held k t v b m e₁ in
    let rest = pay_all-held k xs m c e₂ in omega (arith, first, rest)

-- What the contract of an address holds of a token; nothing if it is not there.
abbrev pub contract_holds : ℕ → TokenType → Dict ℕ ContractState → ℕ
contract_holds address k contracts = elim (lookup address contracts) [
  | none ↦ 0
  | some cstate ↦ held k cstate.balance
]

insert-contract_holds :
    (a address : ℕ) (k : TokenType) (before after : ContractState)
    (contracts : Dict ℕ ContractState) (into out : ℕ)
    → lookup a contracts ≡ some before
    → held k after.balance + out ≡ held k before.balance + into
    → contract_holds address k (insert a after contracts) + (if address == a then out else 0)
      ≡ contract_holds address k contracts + (if address == a then into else 0)
insert-contract_holds a address k before after contracts into out there e =
    elim (Bool-cases (address == a)) [
      | inl same ↦
          let p : address ≡ a = (==_iff address a).0 same in
          subst
            (λ n.
              contract_holds n k (insert a after contracts) + (if n == a then out else 0)
              ≡ contract_holds n k contracts + (if n == a then into else 0))
            (sym p) (ground (arith, lookup-insert_self a after contracts, there, e, ==_iff a a))
      | inr other ↦ ground (
        arith,
        lookup-insert a address after contracts,
        other,
        ==_iff a address,
        ==_iff address a,
      )
    ]

-- The transcript of a call that a phase runs: none for a contract that is not on the whitelist.
abbrev pub phase_transcript : Bool → TransactionContext → ContractCall → Option Transcript
phase_transcript guaranteed context c =
    if whitelist_matches context.whitelist c.address
    then (if guaranteed then c.guaranteed_transcript else c.fallible_transcript)
    else none

abbrev pub received : Option Transcript → TokenType → ℕ
received none k = 0
received (some t) k = amount_of k t.effects.unshielded_inputs

abbrev pub paid : Option Transcript → TokenType → ℕ
paid none k = 0
paid (some t) k = amount_of k t.effects.unshielded_outputs

module _ (E : Environment) (context : TransactionContext) (intent : Intent) (ix : Dict ℕ ℕ) where
  -- The balances of contracts after a call.
  abbrev Moved : State → State → ContractCall → Option Transcript → Type 0
  Moved s u c t =
      (address : ℕ) (k : TokenType)
      → contract_holds address k u.contract + (if address == c.address then paid t k else 0)
        ≡ contract_holds address k s.contract + (if address == c.address then received t k else 0)

  run_call-Moved :
      (s u : State) (c : ContractCall) (cstate : ContractState) (t : Transcript)
      → lookup c.address s.contract ≡ some cstate
      → run_call E context intent ix s c cstate t ≡ ok u
      → Moved s u c (some t)
  unfolding run_call
  run_call-Moved s u c cstate t there e address k =
      let query_context : QueryContext = record {
        state = cstate.data_;
        effects = no_effects;
        address = c.address;
        call_context = call_context E c context.block_context intent cstate ix;
      } in
      let (results, _, e₁) =
        >>=-eq-ok
          (map_err transcript
            (run_transcript E.encodings query_context t s.parameters.runtime_cost_model))
          _ e in
      let (_, e₂) =
        fail_if-eq-ok (not (same_effects results.context.effects t.effects))
          (effects_mismatch t.effects results.context.effects) _ e₁ in
      let (b, e₃, e₄) =
        >>=-eq-ok (try_fold receive cstate.balance t.effects.unshielded_inputs) _ e₂ in
      let (d, e₅, e₆) = >>=-eq-ok (try_fold pay b t.effects.unshielded_outputs) _ e₄ in
      let into = receive_all-held k t.effects.unshielded_inputs cstate.balance b e₃ in
      let out = pay_all-held k t.effects.unshielded_outputs b d e₅ in
      let after : ContractState = record cstate { data_ = results.context.state; balance = d } in
      subst
        (λ v.
          contract_holds address k v + (if address == c.address then paid (some t) k else 0)
          ≡ contract_holds address k s.contract
            + (if address == c.address then received (some t) k else 0))
        (ap (λ (v : State). v.contract) (ok-injective e₆))
        (insert-contract_holds c.address address k cstate after s.contract (received (some t) k)
          (paid (some t) k) there (out ∙ into))

  unmoved :
      (s u : State) (c : ContractCall)
      → ◌≡◌ {A = Result TransactionInvalid State} (ok s) (ok u)
      → Moved s u c none
  unmoved s u c e address k =
      ap
        (λ (v : State).
          contract_holds address k v.contract + (if address == c.address then 0 else 0))
        (sym (ok-injective e))

  -- A contract call that is applied moves the balances of contracts by what the transcript of its
  -- phase declares: the contract that is called receives the unshielded inputs of each token and
  -- pays the unshielded outputs, and no other balance changes. Without a transcript for the phase,
  -- or off the whitelist, none does.
  pub apply_call-contract_holds :
      (guaranteed : Bool) (s u : State) (c : ContractCall) (address : ℕ) (k : TokenType)
      → apply_call E guaranteed context intent ix s c ≡ ok u
      → contract_holds address k u.contract
          + (if address == c.address then paid (phase_transcript guaranteed context c) k else 0)
        ≡ contract_holds address k s.contract
          + (if address == c.address then received (phase_transcript guaranteed context c) k else 0)
  unfolding apply_call
  apply_call-contract_holds guaranteed s u c address k e =
      elim (Bool-cases (whitelist_matches context.whitelist c.address)) [
        | inr off ↦ rw off (unmoved s u c (rw (apply_call, off) at e) address k)
        | inl on ↦ elim (Option-cases (lookup c.address s.contract)) [
          | inl absent ↦
              let no : ⊥ = (let e' = rw (apply_call, on, absent) at e in cc) in elim no [ ]
          | inr (cstate, there) ↦
              elim (Option-cases
                (if guaranteed then c.guaranteed_transcript else c.fallible_transcript)) [
                  | inl silent ↦
                      rw (on, silent)
                        (unmoved s u c (rw (apply_call, on, there, silent) at e) address k)
                  | inr (t, runs) ↦
                      rw (on, runs)
                        (run_call-Moved s u c cstate t there (rw (apply_call, on, there, runs) at e)
                          address k)
                ]
        ]
      ]
