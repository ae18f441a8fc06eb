-- ===== src/Vm/Sound/Loop.antt =====
-- Runs of programs (`run_program` of onchain-vm/src/vm.rs): they stop, they do not panic, and their
-- results are within the gas limit.
use midnight_ledger.Prelude.{
  ℕ, zero, suc, ◌+◌, ◌≤◌, ◌≡◌, refl, false, Option, List, [], ◌∷◌, map, ltb, Result, length, All,
  arith, max, ltb→ge, ◌-◌, Bool-cases, inl, inr,
}
use midnight_ledger.Cost.{RunningCost, zero_running}
use midnight_ledger.Fab.{drop}
use midnight_ledger.Vm
use midnight_ledger.Vm.{VmValue, Op, Stop, Config, OnchainProgramError, fail}
use midnight_ledger.Vm.Machine.{Machine, over_limit}
use midnight_ledger.Vm.Simple.{run_noop, run_jmp, run_branch, run_ckpt}
use midnight_ledger.Vm.Run.{
  ResultMode, Shown, stack_req, quietly, step, skip_of, max_stack_height, VmResults, process, leave,
  turn, results, reached, run_loop, initial_slots, start, run_program_step_limited,
}
use midnight_ledger.Vm.Sound.{
  Runs, Runs-bind, Fails, Inv, InRange, take_cell, compute, incr_gas-Inv,
}
use midnight_ledger.Vm.Sound.Simple.{
  run_lt-Inv, run_eq-Inv, run_add-Inv, run_sub-Inv, run_and-Inv, run_or-Inv, run_neg-Inv,
  run_addi-Inv, run_subi-Inv, run_concat-Inv, run_pop-Inv, run_push-Inv, run_dup-Inv, run_swap-Inv,
}
use midnight_ledger.Vm.Sound.Containers.{
  run_type-Inv, run_size-Inv, run_new-Inv, run_log-Inv, run_root-Inv, run_popeq-Inv, run_member-Inv,
  run_rem-Inv,
}
use midnight_ledger.Vm.Sound.Access.{run_idx-Inv, run_ins-Inv}

-- The height that `skip_of` still requires.
abbrev left_req : {R : Type 0} → Op R → ℕ
left_req (Vm.branch _) = 1
left_req _ = 0

module _ (C : Config) (n : ℕ) (R : Type 0) where
  quietly-Inv :
      (m : Result Stop Machine)
      → Runs (Inv C n 0) m
      → Runs (λ p. Inv C n 0 p.1) (quietly C {R = R} m)
  quietly-Inv m h = Runs-bind (Inv C n 0) _ m _ h λ vm i. i

  step-Inv :
      (op : Op R) (vm : Machine)
      → Inv C n (stack_req op) vm
      → Runs (λ p. Inv C n (left_req op) p.1) (step C op vm)
  unfolding step stack_req run_noop run_jmp run_branch run_ckpt
  step-Inv (Vm.noop m) vm i = quietly-Inv _ (incr_gas-Inv C n 0 _ vm i)
  step-Inv Vm.lt vm i = quietly-Inv _ (run_lt-Inv C n vm i)
  step-Inv Vm.eq vm i = quietly-Inv _ (run_eq-Inv C n vm i)
  step-Inv Vm.type vm i = quietly-Inv _ (run_type-Inv C n vm i)
  step-Inv Vm.size vm i = quietly-Inv _ (run_size-Inv C n vm i)
  step-Inv Vm.new vm i = quietly-Inv _ (run_new-Inv C n vm i)
  step-Inv Vm.and vm i = quietly-Inv _ (run_and-Inv C n vm i)
  step-Inv Vm.or vm i = quietly-Inv _ (run_or-Inv C n vm i)
  step-Inv Vm.neg vm i = quietly-Inv _ (run_neg-Inv C n vm i)
  step-Inv Vm.root vm i = quietly-Inv _ (run_root-Inv C n vm i)
  step-Inv Vm.pop vm i = quietly-Inv _ (run_pop-Inv C n vm i)
  step-Inv (Vm.addi m) vm i = quietly-Inv _ (run_addi-Inv C n m vm i)
  step-Inv (Vm.subi m) vm i = quietly-Inv _ (run_subi-Inv C n m vm i)
  step-Inv (Vm.push storage v) vm i = quietly-Inv _ (run_push-Inv C n storage v vm i)
  step-Inv (Vm.jmp skip) vm i = quietly-Inv _ (incr_gas-Inv C n 0 _ vm i)
  step-Inv Vm.add vm i = quietly-Inv _ (run_add-Inv C n vm i)
  step-Inv Vm.sub vm i = quietly-Inv _ (run_sub-Inv C n vm i)
  step-Inv (Vm.concat _ m) vm i = quietly-Inv _ (run_concat-Inv C n m vm i)
  step-Inv Vm.member vm i = quietly-Inv _ (run_member-Inv C n vm i)
  step-Inv (Vm.rem cached) vm i = quietly-Inv _ (run_rem-Inv C n cached vm i)
  step-Inv (Vm.dup m) vm i = quietly-Inv _ (run_dup-Inv C n m vm i)
  step-Inv (Vm.swap m) vm i = quietly-Inv _ (run_swap-Inv C n m vm i)
  step-Inv (Vm.idx cached push_path path) vm i =
      quietly-Inv _ (run_idx-Inv C n cached push_path path vm i)
  step-Inv (Vm.ins cached m) vm i = quietly-Inv _ (run_ins-Inv C n cached m vm i)
  step-Inv Vm.ckpt vm i = quietly-Inv _ (incr_gas-Inv C n 0 _ vm i)
  step-Inv (Vm.branch skip) vm i =
      Runs-bind (Inv C n 1) _ _ _ (incr_gas-Inv C n 1 _ vm i) λ out i. i
  step-Inv Vm.log vm i = Runs-bind (λ p. Inv C n 0 p.1) _ _ _ (run_log-Inv C n vm i) λ out i. i
  step-Inv (Vm.popeq _ result) vm i =
      Runs-bind (λ p. Inv C n 0 p.1) _ _ _ (run_popeq-Inv C n vm i) λ out i. i

  skip_of-Inv :
      (op : Op R) (vm : Machine)
      → Inv C n (left_req op) vm
      → Runs (λ p. Inv C n 0 p.1) (skip_of op vm)
  unfolding skip_of
  skip_of-Inv (Vm.branch skip) vm i = take_cell C n _ 0 vm _ i λ a rest i. i
  skip_of-Inv _ vm i = i

length-map : {A B : Type 0} (f : A → B) (xs : List A) → length (map f xs) ≡ length xs
length-map f [] = refl
length-map f (x ∷ xs) = omega (arith, length-map f xs)

pub length-drop : {A : Type 0} (m : ℕ) (xs : List A) → length (drop m xs) ≡ length xs - m
unfolding drop
length-drop zero xs = omega arith
length-drop (suc m) [] = omega arith
length-drop (suc m) (x ∷ xs) = omega (arith, length-drop m xs)

module _ {R V : Type 0} (M : ResultMode R V) (C : Config) (n : ℕ) where
  process-Fails : (shown : Shown R) (events : List V) → Fails (process M C shown events)
  unfolding process
  process-Fails shown events = ground arith

  -- What holds after a turn: the stack is at most the maximum height, and the program is shorter.
  abbrev Turned : List (Op R) → Machine × List V × List (Op R) → Type 0
  Turned rest out =
      Inv C n 0 out.0 × (length out.0.slots ≤ max_stack_height) × (length out.2 ≤ length rest)

  leave-Turned :
      (op : Op R) (rest : List (Op R)) (skip : ℕ) (vm : Machine) (events : List V)
      → Inv C n 0 vm
      → Runs (Turned rest) (leave M C (op ∷ rest) skip vm events)
  unfolding leave
  leave-Turned op rest skip vm events i = elim (Bool-cases (ltb (length (op ∷ rest)) (1 + skip))) [
    | inl e ↦ rw e tt
    | inr e ↦ elim (Bool-cases (ltb max_stack_height (length vm.slots))) [
      | inl high ↦ rw (e, high) tt
      | inr high ↦
          rw (e, high) (i, ltb→ge _ _ high, omega (arith, length-drop (1 + skip) (op ∷ rest)))
    ]
  ]

  turn-Turned :
      (op : Op R) (rest : List (Op R)) (vm : Machine) (events : List V)
      → Inv C n 0 vm
      → Runs (Turned rest) (turn M C op rest vm events)
  unfolding turn
  turn-Turned op rest vm events i = elim (Bool-cases (ltb (length vm.slots) (stack_req op))) [
    | inl e ↦ rw e tt
    | inr e ↦ rw e (
        Runs-bind (λ p. Inv C n (left_req op) p.1) _ _ _
          (step-Inv C n R op vm (i.0, i.1, i.2, ltb→ge _ _ e))
          λ shown i. compute C n _ _ _ (process-Fails shown.0 events) λ events'.
            Runs-bind (λ p. Inv C n 0 p.1) _ _ _ (skip_of-Inv C n R op shown.1 i)
              λ skipped i. leave-Turned op rest skipped.0 skipped.1 events' i)
  ]

  -- The gas of a result is within the limit, and its stack is at most a height or the maximum.
  abbrev pub Within : ℕ → VmResults V → Type 0
  Within height r =
      (over_limit C.gas_limit r.gas_cost ≡ false) × (length r.stack ≤ max height max_stack_height)

  results-Within :
      (h : ℕ) (vm : Machine) (events : List V)
      → Inv C n 0 vm
      → length vm.slots ≤ max h max_stack_height
      → Within h (results M C vm events)
  results-Within h vm events i high = (i.0, omega (arith, length-map (λ s. s.item) vm.slots))

  run_loop-Within :
      (h fuel : ℕ) (limit : Option ℕ) (steps : ℕ) (program : List (Op R)) (vm : Machine)
      (events : List V)
      → length program ≤ fuel
      → Inv C n 0 vm
      → length vm.slots ≤ max h max_stack_height
      → Runs (Within h) (run_loop M C fuel limit steps program vm events)
  unfolding run_loop
  run_loop-Within h fuel limit steps [] vm events enough i high = results-Within h vm events i high
  run_loop-Within h zero limit steps (op ∷ rest) vm events enough i high =
      absurd (omega (arith, enough))
  run_loop-Within h (suc fuel) limit steps (op ∷ rest) vm events enough i high =
      elim (Bool-cases (reached M C limit steps)) [
        | inl e ↦ rw e (results-Within h vm events i high)
        | inr e ↦ rw e (
            Runs-bind (Turned rest) _ _ _ (turn-Turned op rest vm events i) λ out t.
              run_loop-Within h fuel limit (suc steps) out.2 out.0 out.1
                (omega (arith, t.2, enough)) t.0 (omega (arith, t.1)))
      ]

initial_slots-InRange :
    {R V : Type 0} (M : ResultMode R V) (C : Config) (first n : ℕ) (initial : List VmValue)
    → first + length initial ≤ n
    → All (λ s. InRange n s.origin) (initial_slots M C first initial)
initial_slots-InRange M C first n [] h = tt
initial_slots-InRange M C first n (v ∷ initial) h =
    (omega (arith, h), initial_slots-InRange M C (suc first) n initial (omega (arith, h)))

length-initial_slots :
    {R V : Type 0} (M : ResultMode R V) (C : Config) (first : ℕ) (initial : List VmValue)
    → length (initial_slots M C first initial) ≡ length initial
length-initial_slots M C first [] = refl
length-initial_slots M C first (v ∷ initial) =
    omega (arith, length-initial_slots M C (suc first) initial)

over_limit-zero : (limit : Option RunningCost) → over_limit limit zero_running ≡ false
unfolding over_limit
over_limit-zero limit = ground arith

module _ {R V : Type 0} (M : ResultMode R V) (C : Config) where
  start-Inv : (initial : List VmValue) → Inv C (length initial) 0 (start M C initial)
  unfolding start
  start-Inv initial = (
    over_limit-zero C.gas_limit,
    length-map _ initial,
    initial_slots-InRange M C 0 (length initial) initial (omega arith),
    omega arith,
  )

  pub run_program_step_limited-Within :
      (initial : List VmValue) (program : List (Op R)) (limit : Option ℕ)
      → Runs
          (Within M C (length initial) (length initial))
          (run_program_step_limited M C initial program limit)
  unfolding run_program_step_limited start
  run_program_step_limited-Within initial program limit =
      run_loop-Within M C (length initial) (length initial) (length program) limit 0 program _ []
        (omega arith) (start-Inv initial) (omega (arith, length-initial_slots M C 0 initial))
