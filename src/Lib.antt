-- ===== src/Lib.antt =====
-- A verification library for the Midnight ledger: the Merkle tree of commitments, the collections of
-- the storage crate, the Zswap state of shielded coins, the ledger's unshielded state with its
-- supply of NIGHT, dust, execution costs, the virtual machine of contracts with the binary values
-- that its cells hold, and the application of transactions to all of these.
--
-- The parts, and how they interact:
-- * MerkleTree (transient-crypto/src/merkle_tree.rs): a node type with the source's four
--   constructors, and `index`, `try_update_hash`, `rehash`, `collapse`, `path_for_leaf`,
--   `insertion_evidence`, `update_from_evidence` and `MerklePath::root` under the same names. The two
--   hash functions are the fields of `Hashing`. MerkleTree/Shape has heights, Index reading and
--   writing, Collapse and Membership what their names say, and Frontier what an append-only use needs.
-- * Storage (storage/src/storage.rs): `MultiSet` and `TimeFilterMap` over the association lists of
--   Prelude/Dict, which stand for `Map` and `HashMap`.
-- * Zswap (zswap/src/ledger.rs): the state, `apply_input`, `apply_output`, `apply_transient`,
--   `try_apply` and `post_block_update`; it uses a tree of height 32 and a map of recent roots.
--   Zswap/Invariant has its well-formedness, Once the sets of one offer, Spend those of a
--   sequence of steps, Roots the recent roots.
-- * Ledger (ledger/src/semantics.rs, structure.rs, annotation.rs): the state's record; Ledger/Replay
--   has replay protection, Utxos and Offers the unshielded outputs, Night the balance check, System,
--   Payouts and Supply system transactions, Bridge the bridge's fee, Claim, Rewards and BridgeClaims
--   claims. What they call of the dust state and of the fee computation are the operations of the
--   record `Outside`, which Transaction/Outside fills.
-- * Dust (ledger/src/dust.rs): the state and `updated_value`, `apply_spend`, `apply_registration`,
--   `fresh_dust_output`, `generationless_fee_availability`, `apply_offer` and `post_block_update`,
--   over the tree of MerkleTree and the recent roots of Storage/TimeFilterMap. The hashes and
--   commitments are the fields of `Hashes`. Dust/Registration and Dust/Offer have the operations of
--   these names; Dust/Value is about the value of an output over time, Steps about sequences of
--   operations, Backing and Spend about what holds along them, Shares about what a registration
--   creates. Dust/CNight has the events of NIGHT on Cardano.
-- * Cost (base-crypto/src/cost_model.rs): durations, synthetic, running and normalized costs;
--   Cost/Sums has their sums and Cost/Fullness when a cost fits a block.
-- * Fab (base-crypto/src/fab): atoms, alignments and aligned values; `fits`, `consume_internal` and
--   `concat` of encoding.rs, the conversions of conversions.rs, and the sizes and flagged integers of
--   serialize.rs (Fab/Size, Fab/Flagged). Fab/Numbers and Fab/Align have what is proved of them.
-- * Vm (onchain-vm/src): state values, instructions, errors and the cost model; Vm/Store has maps and
--   arrays, Vm/Machine the stack, the cache and the gas, Vm/Simple, Vm/Containers and Vm/Access one
--   function for each arm of `run_program_internal`, and Vm/Run its loop and the two result modes.
--   Its cells are aligned values of Fab, its gas the running costs of Cost, and its trees those of
--   MerkleTree. Vm/Sound has the invariant of a run, Vm/Programs what follows from it, Vm/Modes the
--   two modes side by side, Vm/Contents and Vm/Arithmetic single instructions.
-- * Runtime (onchain-runtime/src/context.rs, transcript.rs, error.rs): effects, contexts, `query` and
--   `run_transcript`, which run a program of Vm and read its final stack. The forms of contexts and
--   effects as values, and the storage that is charged for, are the fields of `Encodings`.
-- * Transaction (ledger/src/semantics.rs, structure.rs): transactions and their application on the
--   states of Ledger, Zswap and Dust. Transaction/Actions has contract calls, which run transcripts
--   of Runtime, deployments and updates; Section `apply_section`; Apply whole transactions, batches
--   and the end of a block. What is computed elsewhere (fees, prices, hashes) is a field of
--   `Environment`. Frame is about what a segment leaves alone, Calls about what a contract call does
--   to balances, Chain about sequences of transactions, system transactions and blocks, Replay,
--   Spend, Balance and Batch about what their names say.
-- * Verify (ledger/src/verify.rs): checks of the order of the contract calls of a transaction, before
--   it is applied; Verify/Graph has the graph of calls and `sequencing_check`. Verify/Sequencing is
--   about the order in an intent, Verify/Causality about what fallible calls lead to in any graph,
--   Verify/Closed about the graph that the check builds.
--
-- Errors are values of `Result`, in the source's order of checks; `try_fold` is the fold that stops
-- at the first. Numbers of w bits are native numbers with the wrap-around, saturation or check that
-- the source has. Recursion is structural, on a tree, a height or a list, but for the loop of the
-- virtual machine, which has the length of the program as fuel; this is enough because each turn
-- passes at least one instruction. A panic of that loop is a value as well. The stack of the machine
-- is listed from its top, and its initial positions are counted from there.
--
-- Left out: events and logging, proofs and signatures (checked before these transitions), the trie
-- and the object store under the maps, the other checks of a transaction before it is applied,
-- the computation of fees and prices, serialization but for flagged integers, and the wallet side.
pub mod Cost
pub mod Dust
pub mod Fab
pub mod Ledger
pub mod MerkleTree
pub mod Prelude
pub mod Runtime
pub mod Storage
pub mod Transaction
pub mod Verify
pub mod Vm
pub mod Zswap
