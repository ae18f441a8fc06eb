-- ===== src/Vm/Programs.antt =====
-- What every run of a program guarantees (`run_program` and `run_program_step_limited` of
-- onchain-vm/src/vm.rs).
use midnight_ledger.Prelude.{
  ℕ, zero, suc, ◌+◌, ◌≤◌, ◌≡◌, ◌≢◌, refl, Bool, true, false, Option, none, some, List, [], ◌∷◌, ltb,
  leb, if◌then◌else◌, Result, ok, err, ◌>>=◌, length, arith, max, >>=-eq-ok, ok-injective, subst,
}
use midnight_ledger.Fab.{drop}
use midnight_ledger.Vm.{VmValue, Op, Stop, panicked, out_of_fuel, Config}
use midnight_ledger.Vm.Machine.{Machine, over_limit}
use midnight_ledger.Vm.Run.{
  ResultMode, VmResults, stack_req, step, process, skip_of, max_stack_height, leave, turn, run_loop,
  start, run_program, run_program_step_limited,
}
use midnight_ledger.Vm.Sound.{Runs}
use midnight_ledger.Vm.Sound.Loop.{Within, run_program_step_limited-Within, length-drop}

-- Two binds agree if they go on alike.
same_bind :
    {A B : Type 0} (m : Result Stop A) (f g : A → Result Stop B)
    → ((a : A) → m ≡ ok a → f a ≡ g a)
    → (m >>= f) ≡ (m >>= g)
same_bind (ok a) f g h = h a refl
same_bind (err e) f g h = refl

module _ {R V : Type 0} (M : ResultMode R V) (C : Config) where
  -- Every run stops: with as many turns of the loop as the program has instructions, each run ends
  -- in a result, an error or a panic, whatever its jumps.
  pub run_program_step_limited-stops :
      (initial : List VmValue) (program : List (Op R)) (limit : Option ℕ)
      → run_program_step_limited M C initial program limit ≢ err out_of_fuel
  run_program_step_limited-stops initial program limit e =
      subst (Runs (Within M C (length initial) (length initial))) e
        (run_program_step_limited-Within M C initial program limit)

  -- No run panics: on every program and initial stack, no instruction pops an empty stack, indexes
  -- the stack or the cache out of range, and every cache key stays a position of the cache.
  pub run_program_step_limited-no_panic :
      (initial : List VmValue) (program : List (Op R)) (limit : Option ℕ)
      → run_program_step_limited M C initial program limit ≢ err panicked
  run_program_step_limited-no_panic initial program limit e =
      subst (Runs (Within M C (length initial) (length initial))) e
        (run_program_step_limited-Within M C initial program limit)

  -- If a run returns a result, the gas that it reports is within the gas limit, if there is one, in
  -- compute and in read time, and its stack is at most as high as the initial one or the maximum.
  pub run_program_step_limited-bounds :
      (initial : List VmValue) (program : List (Op R)) (limit : Option ℕ) (r : VmResults V)
      → run_program_step_limited M C initial program limit ≡ ok r
      → (over_limit C.gas_limit r.gas_cost ≡ false)
        × (length r.stack ≤ max (length initial) max_stack_height)
  run_program_step_limited-bounds initial program limit r e =
      subst (Runs (Within M C (length initial) (length initial))) e
        (run_program_step_limited-Within M C initial program limit)

  -- A guard that goes on.
  passed :
      {A : Type 0} (b : Bool) (e : Stop) (m : Result Stop A) (a : A)
      → (if b then err e else m) ≡ ok a
      → (b ≡ false) × (m ≡ ok a)
  passed true e m a h = cc
  passed false e m a h = (refl, h)

  leave-shorter :
      (op : Op R) (rest : List (Op R)) (skip : ℕ) (vm : Machine) (events : List V)
      (out : Machine × List V × List (Op R))
      → leave M C (op ∷ rest) skip vm events ≡ ok out
      → length out.2 ≤ length rest
  unfolding leave
  leave-shorter op rest skip vm events out h =
      let program = op ∷ rest in
      let (_, h₁) = passed (ltb (length program) (1 + skip)) _ _ _ h in
      let (_, h₂) = passed (ltb max_stack_height (length vm.slots)) _ _ _ h₁ in
      let shorter : length (drop (1 + skip) program) ≤ length rest =
        omega (arith, length-drop (1 + skip) program) in
      subst (λ o. length o.2 ≤ length rest) (ok-injective h₂) shorter

  turn-shorter :
      (op : Op R) (rest : List (Op R)) (vm : Machine) (events : List V)
      (out : Machine × List V × List (Op R))
      → turn M C op rest vm events ≡ ok out
      → length out.2 ≤ length rest
  unfolding turn
  turn-shorter op rest vm events out h =
      let (_, h₁) = passed (ltb (length vm.slots) (stack_req op)) _ _ _ h in
      let (shown, _, h₂) = >>=-eq-ok (step C op vm) _ h₁ in
      let (events', _, h₃) = >>=-eq-ok (process M C shown.0 events) _ h₂ in
      let (skipped, _, h₄) = >>=-eq-ok (skip_of op shown.1) _ h₃ in
      leave-shorter op rest skipped.0 skipped.1 events' out h₄

  run_loop-enough :
      (fuel limit steps : ℕ) (program : List (Op R)) (vm : Machine) (events : List V)
      → steps + length program ≤ limit
      → run_loop M C fuel (some limit) steps program vm events
        ≡ run_loop M C fuel none steps program vm events
  unfolding run_loop
  run_loop-enough fuel limit steps [] vm events h = refl
  run_loop-enough zero limit steps (op ∷ rest) vm events h =
      let late : leb limit steps ≡ false = ground arith in rw late refl
  run_loop-enough (suc fuel) limit steps (op ∷ rest) vm events h =
      let late : leb limit steps ≡ false = ground arith in
      rw late (
        same_bind (turn M C op rest vm events) _ _ λ out e.
          run_loop-enough fuel limit (suc steps) out.2 out.0 out.1
            (omega (arith, h, turn-shorter op rest vm events out e)))

  -- A step limit of at least the number of the program's instructions changes nothing.
  run_program_step_limited-enough :
      (initial : List VmValue) (program : List (Op R)) (limit : ℕ)
      → length program ≤ limit
      → run_program_step_limited M C initial program (some limit) ≡ run_program M C initial program
  unfolding run_program_step_limited run_program
  run_program_step_limited-enough initial program limit h =
      run_loop-enough (length program) limit 0 program (start M C initial) [] (omega (arith, h))
