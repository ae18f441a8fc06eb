-- ===== src/Verify/Graph.antt =====
-- The graph of the contract calls of a transaction (`relate_nodes`, `sequencing_context_check` and
-- `sequencing_check` of ledger/src/verify.rs).
use midnight_ledger.Prelude.{
  ℕ, ◌+◌, Bool, true, false, ◌&&◌, ◌||◌, not, Option, none, some, List, [], ◌∷◌, ◌++◌, foldl, ◌==◌,
  ltb, if◌then◌else◌, Result, ok, ◌>>=◌, ◌>>◌, fail_if, try_fold, is_some, unwrap_or, Eq, nat_eq,
}
use midnight_ledger.Prelude.Dict.{Dict, lookup, insert}
use midnight_ledger.Runtime.{ClaimedCall, Transcript}
use midnight_ledger.Transaction.{
  ContractCall, ContractAction, call, deploy, maintain, Intent, StandardTransaction, Environment,
  sorted_iter,
}
use midnight_ledger.Verify.{
  CallNode, call_node_eq, CallKey, call_key_eq, key_of, SequencingCheckError,
  guaranteed_in_fallible_context_violation, fallible_in_guaranteed_context_violation,
  call_has_empty_transcripts, claims_of, call_sequencing_check, sequencing_correlation_check,
  causality_check,
}

-- The sets and maps that the checks of the intents fill. Of the calls of an address only the last is
-- asked for, and kept.
pub record CallGraph : Type 0 where
  pub guaranteed_calls : Dict CallNode (Unit {0})
  pub fallible_calls : List CallNode
  pub calls_by_address : Dict ℕ CallNode
  pub adjacencies : Dict CallNode (List CallNode)

-- The order of nodes, as derived.
abbrev node_before : CallNode → CallNode → Bool
node_before a b =
    ltb a.segment_id b.segment_id
    || (a.segment_id == b.segment_id
        && (ltb a.addr b.addr || (a.addr == b.addr && ltb a.call_index b.call_index)))

-- `BTreeSet::insert`
unfoldable pub insert_node : CallNode → List CallNode → List CallNode
insert_node x [] = x ∷ []
insert_node x (y ∷ ys) =
    if node_before x y then x ∷ y ∷ ys else if node_before y x then y ∷ insert_node x ys else y ∷ ys

-- `entry(key).or_default().push(value)`
unfoldable pub push : {K A : Type 0} → ⦃e : Eq K⦄ → K → A → Dict K (List A) → Dict K (List A)
push key value m = insert key (unwrap_or (lookup key m) [] ++ (value ∷ [])) m

abbrev pub as_indexed_from : ℕ → List ContractAction → List (ℕ × ContractCall)
as_indexed_from n [] = []
as_indexed_from n (call c ∷ actions) = (n, c) ∷ as_indexed_from (n + 1) actions
as_indexed_from n (deploy _ ∷ actions) = as_indexed_from n actions
as_indexed_from n (maintain _ ∷ actions) = as_indexed_from n actions

abbrev pub node_of : ℕ → ℕ × ContractCall → CallNode
node_of segment_id entry = record {
  segment_id = segment_id;
  addr = ContractCall.address (entry.1);
  call_index = entry.0;
}

abbrev pub Callers : Type 0
Callers = Dict CallKey (List (CallNode × Bool))

abbrev transcript_claims : Option Transcript → List ClaimedCall
transcript_claims none = []
transcript_claims (some t) = claims_of (t ∷ [])

-- The calls that a transcript claims, each with its caller and whether it is guaranteed.
abbrev relate_claims : CallNode → Bool → Callers → List ClaimedCall → Callers
relate_claims node guaranteed callers claims =
    foldl (λ m claimed. push (key_of claimed) (node, guaranteed) m) callers claims

-- A contract that was called before precedes this call.
abbrev pub after_previous :
    CallNode → Option CallNode → Dict CallNode (List CallNode) → Dict CallNode (List CallNode)
after_previous node none adjacencies = adjacencies
after_previous node (some previous) adjacencies = push previous node adjacencies

unfoldable pub relate_call :
    ℕ → CallGraph × Callers → ℕ × ContractCall → Result SequencingCheckError (CallGraph × Callers)
unfolding insert_node push
relate_call segment_id (graph, callers) (cid, c) = do
  let node = node_of segment_id (cid, c)
  let is_guaranteed = is_some c.guaranteed_transcript
  let is_fallible = is_some c.fallible_transcript
  fail_if (not (is_guaranteed || is_fallible)) (call_has_empty_transcripts node)
  ok (
    record {
      guaranteed_calls =
          if is_guaranteed then insert node tt graph.guaranteed_calls else graph.guaranteed_calls;
      fallible_calls =
          if is_fallible then insert_node node graph.fallible_calls else graph.fallible_calls;
      calls_by_address = insert c.address node graph.calls_by_address;
      adjacencies = after_previous node (lookup c.address graph.calls_by_address) graph.adjacencies;
    },
    relate_claims node false
        (relate_claims node true callers (transcript_claims c.guaranteed_transcript))
        (transcript_claims c.fallible_transcript),
  )

unfoldable pub relate_nodes :
    ℕ → CallGraph → List (ℕ × ContractCall) → Result SequencingCheckError (CallGraph × Callers)
unfolding relate_call
relate_nodes segment_id graph calls_in_intent =
    try_fold (relate_call segment_id) (graph, []) calls_in_intent

unfoldable pub context_caller :
    CallNode
    → ContractCall
    → Dict CallNode (List CallNode)
    → CallNode × Bool
    → Result SequencingCheckError (Dict CallNode (List CallNode))
unfolding push
context_caller node c adjacencies (caller, caller_guaranteed) = do
  fail_if (caller_guaranteed && is_some c.fallible_transcript)
      (fallible_in_guaranteed_context_violation caller node)
  fail_if (not caller_guaranteed && is_some c.guaranteed_transcript)
      (guaranteed_in_fallible_context_violation caller node)
  ok (push caller node adjacencies)

module _ (E : Environment) where
  abbrev pub lookup_key : ContractCall → CallKey
  lookup_key c = record {
    addr = c.address;
    ep_hash = E.ep_hash c.entry_point;
    commitment = c.communication_commitment;
  }

  unfoldable pub context_call :
      ℕ
      → Callers
      → Dict CallNode (List CallNode)
      → ℕ × ContractCall
      → Result SequencingCheckError (Dict CallNode (List CallNode))
  unfolding context_caller
  context_call segment_id callers adjacencies (cid, c) =
      try_fold (context_caller (node_of segment_id (cid, c)) c) adjacencies
        (unwrap_or (lookup (lookup_key c) callers) [])

  unfoldable pub sequencing_context_check :
      ℕ
      → Dict CallNode (List CallNode)
      → List (ℕ × ContractCall)
      → Callers
      → Result SequencingCheckError (Dict CallNode (List CallNode))
  unfolding context_call
  sequencing_context_check segment_id adjacencies calls_in_intent callers =
      try_fold (context_call segment_id callers) adjacencies calls_in_intent

  abbrev call_lookup : List (ℕ × ContractCall) → Dict CallKey (List ℕ)
  call_lookup calls_in_intent =
      foldl (λ m entry. push (lookup_key (entry.1)) (entry.0) m) [] calls_in_intent

  unfoldable pub check_places : List (ℕ × ContractCall) → Result SequencingCheckError (Unit {0})
  unfolding call_sequencing_check sequencing_correlation_check push
  check_places calls_in_intent =
      try_fold
        (λ _ entry. do
          found ← call_sequencing_check (entry.0) (entry.1) (call_lookup calls_in_intent)
          sequencing_correlation_check (ContractCall.address (entry.1)) found)
        tt calls_in_intent

  unfoldable pub check_intent : CallGraph → ℕ × Intent → Result SequencingCheckError CallGraph
  unfolding check_places relate_nodes sequencing_context_check
  check_intent graph (segment_id, intent) = do
    let calls_in_intent = as_indexed_from 0 intent.actions
    check_places calls_in_intent
    (related, callers) ← relate_nodes segment_id graph calls_in_intent
    adjacencies ← sequencing_context_check segment_id related.adjacencies calls_in_intent callers
    ok (record related { adjacencies = adjacencies })

  unfoldable pub build_graph : StandardTransaction → Result SequencingCheckError CallGraph
  unfolding check_intent
  build_graph tx =
      try_fold check_intent
        (record {
          guaranteed_calls = [];
          fallible_calls = [];
          calls_by_address = [];
          adjacencies = [];
        })
        (sorted_iter tx.intents)

  unfoldable pub sequencing_check : StandardTransaction → Result SequencingCheckError (Unit {0})
  unfolding build_graph causality_check
  sequencing_check tx = do
    graph ← build_graph tx
    causality_check graph.guaranteed_calls graph.fallible_calls graph.adjacencies
