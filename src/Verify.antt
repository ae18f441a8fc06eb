-- ===== src/Verify.antt =====
-- Checks of a transaction before it is applied (ledger/src/verify.rs): the order of the contract
-- calls of an intent (`call_sequencing_check`, `sequencing_correlation_check`) and what a fallible
-- call may lead to (`causality_check`). `Verify.Graph` has the graph of calls they work on.
--
-- A sorted set is the list of its elements in order, or a map to the unit type where only its
-- elements are asked for.
pub mod Sequencing
pub mod Causality
pub mod Graph
pub mod Closed
pub mod Tests
use midnight_ledger.Prelude.{
  ℕ, ◌≡◌, Bool, true, ◌&&◌, ◌||◌, not, none, some, List, [], ◌∷◌, ◌++◌, ◌==◌, ltb, leb,
  if◌then◌else◌, Result, ok, err, ◌>>=◌, ◌>>◌, fail_if, try_fold, Eq, nat_eq, ==_iff, arith,
}
use midnight_ledger.Prelude.Dict.{Dict, lookup, contains_key}
use midnight_ledger.Runtime.{ClaimedCall, Effects, Transcript}
use midnight_ledger.Transaction.{ContractCall}
use midnight_ledger.Transaction.Actions.{transcripts}

pub record CallNode : Type 0 where
  pub segment_id : ℕ
  pub addr : ℕ
  pub call_index : ℕ

abbrev same_node : CallNode → CallNode → Bool
same_node a b = a.segment_id == b.segment_id && (a.addr == b.addr && a.call_index == b.call_index)

instance pub call_node_eq : Eq CallNode
call_node_eq = record {
  beq = same_node;
  beq_iff = λ a b. ground (
    arith,
    ==_iff a.segment_id b.segment_id,
    ==_iff a.addr b.addr,
    ==_iff a.call_index b.call_index,
  );
}

-- What a call is looked up by: its address, entry point and communication commitment.
pub record CallKey : Type 0 where
  pub addr : ℕ
  pub ep_hash : ℕ
  pub commitment : ℕ

abbrev same_key : CallKey → CallKey → Bool
same_key a b = a.addr == b.addr && (a.ep_hash == b.ep_hash && a.commitment == b.commitment)

instance pub call_key_eq : Eq CallKey
call_key_eq = record {
  beq = same_key;
  beq_iff = λ a b.
      ground
        (arith, ==_iff a.addr b.addr, ==_iff a.ep_hash b.ep_hash, ==_iff a.commitment b.commitment);
}

-- A call that another one claims: its place in the intent, its sequence number, its address.
pub record SubCall : Type 0 where
  pub call_index : ℕ
  pub sequence : ℕ
  pub addr : ℕ

pub data SequencingCheckError : Type 0 where
  call_sequencing_violation sequencing_correlation_violation : ℕ → ℕ → ℕ → ℕ → SequencingCheckError
  guaranteed_in_fallible_context_violation fallible_in_guaranteed_context_violation :
      CallNode → CallNode → SequencingCheckError
  causality_constraint_violation : CallNode → CallNode → SequencingCheckError
  call_has_empty_transcripts : CallNode → SequencingCheckError

abbrev elements : Dict ClaimedCall (Unit {0}) → List ClaimedCall
elements [] = []
elements ((k, _) ∷ m) = k ∷ elements m

abbrev pub claims_of : List Transcript → List ClaimedCall
claims_of [] = []
claims_of (t ∷ ts) = elements t.effects.claimed_contract_calls ++ claims_of ts

-- The calls that a call claims in its transcripts.
abbrev pub claimed_calls : ContractCall → List ClaimedCall
claimed_calls c = claims_of (transcripts c)

unfoldable pub sub_call :
    ℕ → ContractCall → ClaimedCall → List SubCall → ℕ → Result SequencingCheckError (List SubCall)
sub_call position c claimed found cid = do
  fail_if (leb cid position) (call_sequencing_violation position cid c.address claimed.address)
  ok (
      found
      ++ (record { call_index = cid; sequence = claimed.sequence; addr = claimed.address } ∷ []))

abbrev pub key_of : ClaimedCall → CallKey
key_of claimed = record {
  addr = claimed.address;
  ep_hash = claimed.entry_point;
  commitment = claimed.commitment;
}

unfoldable pub sub_calls :
    ℕ
    → ContractCall
    → Dict CallKey (List ℕ)
    → List SubCall
    → ClaimedCall
    → Result SequencingCheckError (List SubCall)
unfolding sub_call
sub_calls position c call_lookup found claimed = elim (lookup (key_of claimed) call_lookup) [
  | none ↦ ok found
  | some cids ↦ try_fold (sub_call position c claimed) found cids
]

unfoldable pub call_sequencing_check :
    ℕ → ContractCall → Dict CallKey (List ℕ) → Result SequencingCheckError (List SubCall)
unfolding sub_calls
call_sequencing_check position c call_lookup =
    try_fold (sub_calls position c call_lookup) [] (claimed_calls c)

-- The sorting of `sort_by_key`, by sequence number and place.
abbrev precedes : SubCall → SubCall → Bool
precedes a b =
    ltb a.sequence b.sequence || (a.sequence == b.sequence && leb a.call_index b.call_index)

unfoldable pub insert_call : SubCall → List SubCall → List SubCall
insert_call x [] = x ∷ []
insert_call x (y ∷ ys) = if precedes x y then x ∷ y ∷ ys else y ∷ insert_call x ys

unfoldable pub sort_calls : List SubCall → List SubCall
unfolding insert_call
sort_calls [] = []
sort_calls (x ∷ xs) = insert_call x (sort_calls xs)

unfoldable pub check_windows : ℕ → List SubCall → Result SequencingCheckError (Unit {0})
check_windows address [] = ok tt
check_windows address (a ∷ []) = ok tt
check_windows address (a ∷ b ∷ rest) = do
  fail_if (not (ltb a.sequence b.sequence && ltb a.call_index b.call_index))
      (sequencing_correlation_violation address a.addr a.call_index b.call_index)
  check_windows address (b ∷ rest)

unfoldable pub sequencing_correlation_check :
    ℕ → List SubCall → Result SequencingCheckError (Unit {0})
unfolding check_windows sort_calls
sequencing_correlation_check address sub_calls = check_windows address (sort_calls sub_calls)

unfoldable pub check_neighbors :
    Dict CallNode (Unit {0}) → CallNode → List CallNode → Result SequencingCheckError (Unit {0})
check_neighbors guaranteed_calls curr [] = ok tt
check_neighbors guaranteed_calls curr (succ ∷ neighbors) = do
  fail_if (contains_key succ guaranteed_calls) (causality_constraint_violation curr succ)
  check_neighbors guaranteed_calls curr neighbors

abbrev pub neighbors_of : Dict CallNode (List CallNode) → CallNode → List CallNode
neighbors_of adjacencies curr = elim (lookup curr adjacencies) [
  | none ↦ []
  | some neighbors ↦ neighbors
]

-- The queue starts as the fallible calls, and nothing is added to it.
unfoldable pub causality_check :
    Dict CallNode (Unit {0})
    → List CallNode
    → Dict CallNode (List CallNode)
    → Result SequencingCheckError (Unit {0})
unfolding check_neighbors
causality_check guaranteed_calls [] adjacencies = ok tt
causality_check guaranteed_calls (curr ∷ queue) adjacencies = do
  check_neighbors guaranteed_calls curr (neighbors_of adjacencies curr)
  causality_check guaranteed_calls queue adjacencies
