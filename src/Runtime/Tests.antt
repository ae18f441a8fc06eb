-- ===== src/Runtime/Tests.antt =====
-- A run of a program on a small context.
use midnight_ledger.Prelude.{◌≡◌, refl, none, some, [], ◌∷◌, ok, err}
use midnight_ledger.Cost.{zero_running}
use midnight_ledger.Vm.{weak, null, Op}
use midnight_ledger.Vm
use midnight_ledger.Vm.Tests.{prices, outside}
use midnight_ledger.Runtime.{Encodings, QueryContext, no_effects, query, execution}

abbrev encodings : Encodings
encodings = record {
  context_value = λ c. record { strength = weak; value = null };
  effects_value = λ e. record { strength = weak; value = null };
  effects_of = λ v. ok no_effects;
  update = λ m s v. some (record s { state = v }, zero_running);
  outside = outside;
}

abbrev context : QueryContext
context = record {
  state = record { state = null; charged_keys = [] };
  effects = no_effects;
  address = 3;
  call_context = record {
    own_address = 3;
    tblock = 10;
    tblock_err = 0;
    parent_block_hash = 0;
    caller = none;
    balance = [];
    com_indices = [];
    last_block_time = 9;
  };
}

-- Four values are popped from the three of the initial stack.
query_pops :
    query encodings context (Vm.pop ∷ Vm.pop ∷ Vm.pop ∷ Vm.pop ∷ []) none prices
    ≡ err (execution Vm.ran_off_stack)
unfolding query midnight_ledger.Vm.Run.run_program
query_pops = refl
