-- ===== src/Verify/Tests.antt =====
-- The checks of verify.rs on a call that claims another one.
use midnight_ledger.Prelude.{
  ℕ, ◌≡◌, ◌<◌, refl, false, none, some, List, [], ◌∷◌, ok, err, inl, inr, Member, try_fold, arith,
}
use midnight_ledger.Prelude.Dict.{Dict, insert, lookup, contains_key}
use midnight_ledger.Cost.{zero_running}
use midnight_ledger.Runtime.{ClaimedCall, no_effects}
use midnight_ledger.Transaction.{
  ContractCall, ContractAction, call, StandardTransaction, sorted_iter,
}
use midnight_ledger.Transaction.Tests.{environment, intent}
use midnight_ledger.Verify.Graph.{CallGraph, build_graph, sequencing_check}
use midnight_ledger.Verify.Causality.{Reaches}
use midnight_ledger.Verify.Closed.{sequencing_check-causal}
use midnight_ledger.Verify.{
  call_key_eq, call_node_eq, CallNode, CallKey, SubCall, call_sequencing_check,
  sequencing_correlation_check, causality_check, call_sequencing_violation,
  causality_constraint_violation,
}
use midnight_ledger.Verify.Sequencing.{
  call_sequencing_check-later, sequencing_correlation_check-ordered,
}

abbrev claimed : ClaimedCall
claimed = record { sequence = 0; address = 5; entry_point = 6; commitment = 7 }

abbrev outer : ContractCall
outer = record {
  address = 4;
  entry_point = 2;
  guaranteed_transcript = some (record {
    gas = zero_running;
    effects = record no_effects { claimed_contract_calls = (claimed, tt) ∷ [] };
    program = [];
  });
  fallible_transcript = none;
  communication_commitment = 1;
}

abbrev calls_of_intent : Dict CallKey (List ℕ)
calls_of_intent = (record { addr = 5; ep_hash = 6; commitment = 7 }, 1 ∷ 3 ∷ []) ∷ []

abbrev first_call : SubCall
first_call = record { call_index = 1; sequence = 0; addr = 5 }

abbrev second_call : SubCall
second_call = record { call_index = 3; sequence = 2; addr = 5 }

call_sequencing_check_after :
    call_sequencing_check 3 outer calls_of_intent ≡ err (call_sequencing_violation 3 1 4 5)
unfolding call_sequencing_check try_fold lookup call_key_eq
call_sequencing_check_after = refl

call_sequencing_check-later_example : 0 < 3
unfolding call_sequencing_check try_fold lookup call_key_eq
call_sequencing_check-later_example =
    call_sequencing_check-later 0 outer calls_of_intent
      (first_call ∷ record { call_index = 3; sequence = 0; addr = 5 } ∷ []) claimed (1 ∷ 3 ∷ []) 3
      refl (inl refl) refl (inr (inl refl))

sequencing_correlation_check-ordered_example : 1 < 3
unfolding sequencing_correlation_check
sequencing_correlation_check-ordered_example =
    sequencing_correlation_check-ordered 4 (second_call ∷ first_call ∷ []) first_call second_call
      refl (inr (inl refl)) (inl refl) (omega arith)

abbrev node : ℕ → CallNode
node n = record { segment_id = 1; addr = 4; call_index = n }

abbrev chain : Dict CallNode (List CallNode)
chain = (node 1, node 2 ∷ []) ∷ (node 2, node 3 ∷ []) ∷ []

abbrev guaranteed : Dict CallNode (Unit {0})
guaranteed = (node 0, tt) ∷ []

causality_check-refuses :
    causality_check ((node 2, tt) ∷ []) (node 1 ∷ []) chain
    ≡ err (causality_constraint_violation (node 1) (node 2))
unfolding causality_check lookup call_node_eq
causality_check-refuses = refl

-- A call that its caller claims, after it in the intent.
abbrev inner : ContractCall
inner = record {
  address = 5;
  entry_point = 6;
  guaranteed_transcript = some (record { gas = zero_running; effects = no_effects; program = [] });
  fallible_transcript = none;
  communication_commitment = 7;
}

abbrev calling : List ContractAction → StandardTransaction
calling actions = record {
  intents = (1, record intent { actions = actions }) ∷ [];
  guaranteed_coins = none;
  fallible_coins = [];
}

sequencing_check-refuses :
    sequencing_check environment (calling (call inner ∷ call outer ∷ []))
    ≡ err (call_sequencing_violation 1 0 4 5)
unfolding sequencing_check try_fold sorted_iter lookup insert call_key_eq call_node_eq
sequencing_check-refuses = refl

sequencing_check-causal_example :
    (g : CallGraph) × (build_graph environment (calling (call outer ∷ call inner ∷ [])) ≡ ok g)
    × ((a b : CallNode)
        → Member a g.fallible_calls
        → Reaches g.adjacencies a b
        → contains_key b g.guaranteed_calls ≡ false)
unfolding sequencing_check try_fold sorted_iter lookup insert call_key_eq call_node_eq
sequencing_check-causal_example =
    sequencing_check-causal environment (calling (call outer ∷ call inner ∷ [])) refl
