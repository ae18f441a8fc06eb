-- ===== src/Runtime/Runs.antt =====
-- How the run of a transcript ends (`query` of onchain-runtime/src/context.rs).
use midnight_ledger.Prelude.{
  ◌≡◌, refl, Bool, true, false, Option, none, List, [], ◌∷◌, Result, ok, err, map_err, is_some,
  >>=-eq-err, err-injective, subst, arith, ◌≢◌,
}
use midnight_ledger.Fab.{AlignedValue}
use midnight_ledger.Cost.{RunningCost}
use midnight_ledger.Vm.{StateValue, VmValue, Op, Stop, failed, panicked, out_of_fuel, Config}
use midnight_ledger.Vm.Costs.{CostModel}
use midnight_ledger.Vm.Run.{VmResults, run_program, run_program_step_limited, verify}
use midnight_ledger.Vm.Programs.{run_program_step_limited-stops, run_program_step_limited-no_panic}
use midnight_ledger.Ledger.{ChargedState}
use midnight_ledger.Runtime.{
  Encodings, QueryContext, TranscriptRejected, machine_panicked, machine_out_of_fuel, rejected,
  to_vm_stack, settle, read_stack, query,
}

-- The ends that the source does not know: a panic, and fuel that is spent.
abbrev pub is_crash : TranscriptRejected → Bool
is_crash machine_panicked = true
is_crash machine_out_of_fuel = true
is_crash _ = false

rejected_sound :
    {A : Type 0} (m : Result Stop A) (e : TranscriptRejected)
    → m ≢ err panicked
    → m ≢ err out_of_fuel
    → map_err rejected m ≡ err e
    → is_crash e ≡ false
rejected_sound (ok a) e calm fuelled h = cc
rejected_sound (err (failed d)) e calm fuelled h =
    subst (λ e. is_crash e ≡ false) (err-injective h) refl
rejected_sound (err panicked) e calm fuelled h = elim (calm refl) [ ]
rejected_sound (err out_of_fuel) e calm fuelled h = elim (fuelled refl) [ ]

module _ (N : Encodings)
    (decodes : (v : VmValue) (e : TranscriptRejected) → N.effects_of v ≡ err e → is_crash e ≡ false)
    (updates : (prices : CostModel) (s : ChargedState) (v : StateValue)
      → is_some (N.update prices s v) ≡ true) where
  read_stack_sound :
      (self : QueryContext) (limit : Option RunningCost) (prices : CostModel)
      (res : VmResults StateValue) (stack : List VmValue) (e : TranscriptRejected)
      → read_stack N self limit prices res stack ≡ err e
      → is_crash e ≡ false
  unfolding read_stack settle
  read_stack_sound self limit prices res [] e h = ground arith
  read_stack_sound self limit prices res (a ∷ []) e h = ground arith
  read_stack_sound self limit prices res (a ∷ b ∷ []) e h = ground arith
  read_stack_sound self limit prices res (a ∷ b ∷ c ∷ []) e h =
      ground (arith, decodes b e, updates prices self.state a.value)
  read_stack_sound self limit prices res (a ∷ b ∷ c ∷ d ∷ rest) e h = ground arith

  -- The run of every program on every context ends in results or in a rejection of the transcript:
  -- it neither panics nor runs forever, if the decoding of effects and the update of the charged
  -- state do not.
  query_sound :
      (self : QueryContext) (program : List (Op AlignedValue)) (limit : Option RunningCost)
      (prices : CostModel) (e : TranscriptRejected)
      → query N self program limit prices ≡ err e
      → is_crash e ≡ false
  unfolding query run_program
  query_sound self program limit prices e h =
      let config : Config = record {
        gas_limit = limit;
        cost_model = prices;
        outside = N.outside;
      } in
      let run = run_program_step_limited verify config (to_vm_stack N self) program none in
      >>=-eq-err (λ e. is_crash e ≡ false) (map_err rejected run)
        (λ res. read_stack N self limit prices res res.stack) e
        (λ d q.
          rejected_sound run d
            (run_program_step_limited-no_panic verify config (to_vm_stack N self) program none)
            (run_program_step_limited-stops verify config (to_vm_stack N self) program none) q)
        (λ res d _ q. read_stack_sound self limit prices res res.stack d q) h
