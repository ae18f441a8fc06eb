-- ===== src/Vm/Run.antt =====
-- The loop of a run (`run_program`, `run_program_step_limited` and `run_program_internal` of
-- onchain-vm/src/vm.rs) and the two ways of treating its reads (onchain-vm/src/result_mode.rs).
use midnight_ledger.Prelude.{
  ℕ, zero, suc, ◌+◌, ◌*◌, ◌^◌, Bool, false, Option, none, some, List, [], ◌∷◌, ◌++◌, ltb, leb,
  if◌then◌else◌, Result, ok, err, ◌>>=◌, length, map,
}
use midnight_ledger.Cost.{RunningCost, zero_running}
use midnight_ledger.Fab.{AlignedValue, is_empty, drop, Value}
use midnight_ledger.Fab.Size.{same_value}
use midnight_ledger.Vm
use midnight_ledger.Vm.{
  StateValue, VmValue, ValueStrength, weak, strong, Key, Op, Stop, failed, out_of_fuel, fail,
  ran_off_stack, ran_past_program_end, stack_overflow, read_mismatch, OnchainProgramError, Config,
}
use midnight_ledger.Vm.Machine.{Slot, InnerCache, whole, parts, no_parts, Machine, pop_cell}
use midnight_ledger.Vm.Simple.{
  run_noop, run_branch, run_jmp, run_ckpt, run_lt, run_eq, run_add, run_sub, run_and, run_or,
  run_neg, run_addi, run_subi, run_concat, run_pop, run_push, run_dup, run_swap,
}
use midnight_ledger.Vm.Containers.{
  run_type, run_size, run_new, run_log, run_root, run_popeq, run_member, run_rem,
}
use midnight_ledger.Vm.Access.{run_idx, run_ins}

-- `ResultMode`: the results that `popeq` names, the events, and how reads and logs become events.
pub record ResultMode (R : Type 0) (V : Type 0) : Type 0 where
  pub process_read : R → AlignedValue → Result OnchainProgramError (Option V)
  pub process_log : StateValue → Option V

-- Reads are compared with the results named; only logs are events.
abbrev pub verify : ResultMode AlignedValue StateValue
verify = record {
  process_read = λ expected actual.
      if same_value expected actual then ok none else err (read_mismatch expected actual);
  process_log = λ event. some event;
}

pub data GatherEvent : Type 0 where
  read : AlignedValue → GatherEvent
  log : StateValue → GatherEvent

-- Reads and logs are events.
abbrev pub gather : ResultMode (Unit {0}) GatherEvent
gather = record {
  process_read = λ _ real. ok (some (read real));
  process_log = λ event. some (log event);
}

-- What an instruction shows to the mode.
pub data Shown (R : Type 0) : Type 0 where
  nothing : Shown R
  shown_read : R → AlignedValue → Shown R
  shown_log : StateValue → Shown R

abbrev pub stack_keys : List Key → ℕ
stack_keys [] = 0
stack_keys (Vm.stack ∷ path) = suc (stack_keys path)
stack_keys (Vm.value _ ∷ path) = stack_keys path

-- The stack height that an instruction requires.
unfoldable pub stack_req : {R : Type 0} → Op R → ℕ
stack_req (Vm.noop _) = 0
stack_req (Vm.push _ _) = 0
stack_req (Vm.jmp _) = 0
stack_req Vm.ckpt = 0
stack_req Vm.lt = 2
stack_req Vm.eq = 2
stack_req Vm.and = 2
stack_req Vm.or = 2
stack_req Vm.add = 2
stack_req Vm.sub = 2
stack_req (Vm.concat _ _) = 2
stack_req Vm.member = 2
stack_req (Vm.rem _) = 2
stack_req (Vm.dup n) = n + 1
stack_req (Vm.swap n) = n + 2
stack_req (Vm.idx _ _ path) = stack_keys path + 1
stack_req (Vm.ins _ n) = n * 2 + 1
stack_req _ = 1

module _ (C : Config) where
  abbrev pub quietly : {R : Type 0} → Result Stop Machine → Result Stop (Shown R × Machine)
  quietly m = do vm ← m; ok (nothing, vm)

  -- The arm of an instruction.
  unfoldable pub step : {R : Type 0} → Op R → Machine → Result Stop (Shown R × Machine)
  unfolding run_noop run_branch run_jmp run_ckpt run_lt run_eq run_add run_sub run_and run_or
      run_neg run_addi run_subi run_concat run_pop run_push run_dup run_swap run_type run_size
      run_new run_log run_root run_popeq run_member run_rem run_idx run_ins
  step (Vm.noop n) vm = quietly (run_noop C n vm)
  step Vm.lt vm = quietly (run_lt C vm)
  step Vm.eq vm = quietly (run_eq C vm)
  step Vm.type vm = quietly (run_type C vm)
  step Vm.size vm = quietly (run_size C vm)
  step Vm.new vm = quietly (run_new C vm)
  step Vm.and vm = quietly (run_and C vm)
  step Vm.or vm = quietly (run_or C vm)
  step Vm.neg vm = quietly (run_neg C vm)
  step Vm.log vm = do (event, out) ← run_log C vm; ok (shown_log event, out)
  step Vm.root vm = quietly (run_root C vm)
  step Vm.pop vm = quietly (run_pop C vm)
  step (Vm.popeq _ result) vm = do (a, out) ← run_popeq C vm; ok (shown_read result a, out)
  step (Vm.addi n) vm = quietly (run_addi C n vm)
  step (Vm.subi n) vm = quietly (run_subi C n vm)
  step (Vm.push storage v) vm = quietly (run_push C storage v vm)
  step (Vm.branch skip) vm = quietly (run_branch C skip vm)
  step (Vm.jmp skip) vm = quietly (run_jmp C skip vm)
  step Vm.add vm = quietly (run_add C vm)
  step Vm.sub vm = quietly (run_sub C vm)
  step (Vm.concat _ n) vm = quietly (run_concat C n vm)
  step Vm.member vm = quietly (run_member C vm)
  step (Vm.rem cached) vm = quietly (run_rem C cached vm)
  step (Vm.dup n) vm = quietly (run_dup C n vm)
  step (Vm.swap n) vm = quietly (run_swap C n vm)
  step (Vm.idx cached push_path path) vm = quietly (run_idx C cached push_path path vm)
  step (Vm.ins cached n) vm = quietly (run_ins C cached n vm)
  step Vm.ckpt vm = quietly (run_ckpt C vm)

-- The Boolean false, or another empty atom.
unfoldable pub is_false : Value → Bool
is_false (a ∷ []) = is_empty a
is_false _ = false

-- How many instructions are passed over after this one, and the machine after a branch's pop.
unfoldable pub skip_of : {R : Type 0} → Op R → Machine → Result Stop (ℕ × Machine)
unfolding pop_cell is_false
skip_of (Vm.branch skip) vm = do
  (a, rest) ← pop_cell vm
  ok (if is_false a.value then 0 else skip, rest)
skip_of (Vm.jmp skip) vm = ok (skip, vm)
skip_of _ vm = ok (0, vm)

abbrev pub max_stack_height : ℕ
max_stack_height = 2 ^ 16

pub record VmResults (V : Type 0) : Type 0 where
  pub stack : List VmValue
  pub events : List V
  pub gas_cost : RunningCost

module _ {R V : Type 0} (M : ResultMode R V) (C : Config) where
  abbrev add_event : List V → Option V → List V
  add_event events none = events
  add_event events (some event) = events ++ (event ∷ [])

  -- The events after an instruction.
  unfoldable pub process : Shown R → List V → Result Stop (List V)
  process nothing events = ok events
  process (shown_read result a) events = elim (M.process_read result a) [
    | ok event ↦ ok (add_event events event)
    | err e ↦ fail e
  ]
  process (shown_log v) events = ok (add_event events (M.process_log v))

  -- The end of a turn: the checks of the program's end and of the stack's height.
  unfoldable pub leave :
      List (Op R) → ℕ → Machine → List V → Result Stop (Machine × List V × List (Op R))
  unfolding drop
  leave program skip vm events =
      if ltb (length program) (1 + skip)
      then fail ran_past_program_end
      else if ltb max_stack_height (length vm.slots)
      then fail stack_overflow
      else ok (vm, events, drop (1 + skip) program)

  -- One turn of the loop on `op ∷ rest`: the machine, the events and the program left.
  unfoldable pub turn :
      Op R → List (Op R) → Machine → List V → Result Stop (Machine × List V × List (Op R))
  unfolding stack_req step process skip_of leave
  turn op rest vm events = if ltb (length vm.slots) (stack_req op) then fail ran_off_stack else do
    (shown, vm₁) ← step C op vm
    events' ← process shown events
    (skip, vm₂) ← skip_of op vm₁
    leave (op ∷ rest) skip vm₂ events'

  abbrev pub results : Machine → List V → VmResults V
  results vm events = record {
    stack = map (λ s. s.item) vm.slots;
    events = events;
    gas_cost = vm.gas;
  }

  abbrev pub reached : Option ℕ → ℕ → Bool
  reached none steps = false
  reached (some limit) steps = leb limit steps

  -- `run_program_internal`, on fuel, from so many steps executed.
  unfoldable pub run_loop :
      ℕ → Option ℕ → ℕ → List (Op R) → Machine → List V → Result Stop (VmResults V)
  unfolding turn
  run_loop fuel limit steps [] vm events = ok (results vm events)
  run_loop zero limit steps (op ∷ rest) vm events =
      if reached limit steps then ok (results vm events) else err out_of_fuel
  run_loop (suc fuel) limit steps (op ∷ rest) vm events =
      if reached limit steps
      then ok (results vm events)
      else turn op rest vm events >>= λ out. run_loop fuel limit (suc steps) out.2 out.0 out.1

  abbrev initial_cache : ValueStrength → InnerCache
  initial_cache weak = whole
  initial_cache strong = parts no_parts

  -- Each initial value is the origin of its position, counted from the top.
  abbrev pub initial_slots : ℕ → List VmValue → List Slot
  initial_slots n [] = []
  initial_slots n (v ∷ initial) =
      record { item = v; origin = some (n, []) } ∷ initial_slots (suc n) initial

  unfoldable pub start : List VmValue → Machine
  start initial = record {
    slots = initial_slots 0 initial;
    cache = map (λ v. initial_cache v.strength) initial;
    gas = zero_running;
  }

  -- The length of the program is enough fuel.
  unfoldable pub run_program_step_limited :
      List VmValue → List (Op R) → Option ℕ → Result Stop (VmResults V)
  unfolding run_loop start
  run_program_step_limited initial program limit =
      run_loop (length program) limit 0 program (start initial) []

  unfoldable pub run_program : List VmValue → List (Op R) → Result Stop (VmResults V)
  unfolding run_program_step_limited
  run_program initial program = run_program_step_limited initial program none
