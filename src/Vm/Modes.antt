-- ===== src/Vm/Modes.antt =====
-- The two result modes (onchain-vm/src/result_mode.rs): a program that is verified with the results
-- that it names runs in the same way when its reads are only gathered.
use midnight_ledger.Prelude.{
  ℕ, zero, suc, ◌+◌, ◌≡◌, refl, sym, ap, ◌∙◌, Option, List, [], ◌∷◌, ◌++◌, map, ltb, Result, ok,
  err, ◌>>=◌, length, >>=-eq-ok, Bool-cases, inl, inr, ok-injective, arith,
}
use midnight_ledger.Fab.{AlignedValue, drop}
use midnight_ledger.Fab.Size.{same_value}
use midnight_ledger.Vm
use midnight_ledger.Vm.{StateValue, VmValue, Op, Stop, fail, Config}
use midnight_ledger.Vm.Machine.{Machine}
use midnight_ledger.Vm.Containers.{run_log, run_popeq}
use midnight_ledger.Vm.Run.{
  verify, gather, GatherEvent, read, log, Shown, nothing, shown_read, shown_log, stack_req, quietly,
  step, skip_of, max_stack_height, VmResults, process, leave, turn, results, reached, run_loop,
  start, run_program_step_limited,
}

-- The program without the results that it names.
abbrev pub erase : {R : Type 0} → Op R → Op (Unit {0})
erase (Vm.noop n) = Vm.noop n
erase Vm.lt = Vm.lt
erase Vm.eq = Vm.eq
erase Vm.type = Vm.type
erase Vm.size = Vm.size
erase Vm.new = Vm.new
erase Vm.and = Vm.and
erase Vm.or = Vm.or
erase Vm.neg = Vm.neg
erase Vm.log = Vm.log
erase Vm.root = Vm.root
erase Vm.pop = Vm.pop
erase (Vm.popeq cached _) = Vm.popeq cached tt
erase (Vm.addi n) = Vm.addi n
erase (Vm.subi n) = Vm.subi n
erase (Vm.push storage v) = Vm.push storage v
erase (Vm.branch skip) = Vm.branch skip
erase (Vm.jmp skip) = Vm.jmp skip
erase Vm.add = Vm.add
erase Vm.sub = Vm.sub
erase (Vm.concat cached n) = Vm.concat cached n
erase Vm.member = Vm.member
erase (Vm.rem cached) = Vm.rem cached
erase (Vm.dup n) = Vm.dup n
erase (Vm.swap n) = Vm.swap n
erase (Vm.idx cached push_path path) = Vm.idx cached push_path path
erase (Vm.ins cached n) = Vm.ins cached n
erase Vm.ckpt = Vm.ckpt

abbrev erase_shown : {R : Type 0} → Shown R → Shown (Unit {0})
erase_shown nothing = nothing
erase_shown (shown_read _ a) = shown_read tt a
erase_shown (shown_log v) = shown_log v

abbrev as_log : {R : Type 0} → StateValue × Machine → Result Stop (Shown R × Machine)
as_log p = ok (shown_log p.0, p.1)

abbrev as_read : {R : Type 0} → R → AlignedValue × Machine → Result Stop (Shown R × Machine)
as_read result p = ok (shown_read result p.0, p.1)

-- The logs among the events gathered.
abbrev pub logs : List GatherEvent → List StateValue
logs [] = []
logs (read _ ∷ events) = logs events
logs (log v ∷ events) = v ∷ logs events

logs-append : (events rest : List GatherEvent) → logs (events ++ rest) ≡ logs events ++ logs rest
logs-append [] rest = refl
logs-append (read _ ∷ events) rest = logs-append events rest
logs-append (log v ∷ events) rest = ap (λ l. v ∷ l) (logs-append events rest)

append-nil : {A : Type 0} (xs : List A) → xs ++ [] ≡ xs
append-nil [] = refl
append-nil (x ∷ xs) = ap (λ l. x ∷ l) (append-nil xs)

map-drop : {A B : Type 0} (f : A → B) (n : ℕ) (xs : List A) → map f (drop n xs) ≡ drop n (map f xs)
unfolding drop
map-drop f zero xs = refl
map-drop f (suc n) [] = refl
map-drop f (suc n) (x ∷ xs) = map-drop f n xs

length-map : {A B : Type 0} (f : A → B) (xs : List A) → length (map f xs) ≡ length xs
length-map f [] = refl
length-map f (x ∷ xs) = ap suc (length-map f xs)

module _ {R : Type 0} where
  stack_req-erase : (op : Op R) → stack_req (erase op) ≡ stack_req op
  unfolding stack_req
  stack_req-erase op = ground arith

  skip_of-erase : (op : Op R) (vm : Machine) → skip_of (erase op) vm ≡ skip_of op vm
  unfolding skip_of
  skip_of-erase op vm = ground arith

  module _ (C : Config) where
    quietly-erase :
        (m : Result Stop Machine) (out : Shown R × Machine)
        → quietly C m ≡ ok out
        → quietly C m ≡ ok (erase_shown out.0, out.1)
    quietly-erase (ok vm) out h = cc
    quietly-erase (err e) out h = cc

    logged :
        (m : Result Stop (StateValue × Machine)) (out : Shown R × Machine)
        → (m >>= as_log) ≡ ok out
        → (m >>= as_log) ≡ ok (erase_shown out.0, out.1)
    logged (ok p) out h = cc
    logged (err e) out h = cc

    read_back :
        (m : Result Stop (AlignedValue × Machine)) (result : R) (out : Shown R × Machine)
        → (m >>= as_read result) ≡ ok out
        → (m >>= as_read tt) ≡ ok (erase_shown out.0, out.1)
    read_back (ok p) result out h = cc
    read_back (err e) result out h = cc

    step-erase :
        (op : Op R) (vm : Machine) (out : Shown R × Machine)
        → step C op vm ≡ ok out
        → step C (erase op) vm ≡ ok (erase_shown out.0, out.1)
    unfolding step
    step-erase (Vm.noop n) vm out h = quietly-erase _ out h
    step-erase Vm.lt vm out h = quietly-erase _ out h
    step-erase Vm.eq vm out h = quietly-erase _ out h
    step-erase Vm.type vm out h = quietly-erase _ out h
    step-erase Vm.size vm out h = quietly-erase _ out h
    step-erase Vm.new vm out h = quietly-erase _ out h
    step-erase Vm.and vm out h = quietly-erase _ out h
    step-erase Vm.or vm out h = quietly-erase _ out h
    step-erase Vm.neg vm out h = quietly-erase _ out h
    step-erase Vm.root vm out h = quietly-erase _ out h
    step-erase Vm.pop vm out h = quietly-erase _ out h
    step-erase (Vm.addi n) vm out h = quietly-erase _ out h
    step-erase (Vm.subi n) vm out h = quietly-erase _ out h
    step-erase (Vm.push storage v) vm out h = quietly-erase _ out h
    step-erase (Vm.branch skip) vm out h = quietly-erase _ out h
    step-erase (Vm.jmp skip) vm out h = quietly-erase _ out h
    step-erase Vm.add vm out h = quietly-erase _ out h
    step-erase Vm.sub vm out h = quietly-erase _ out h
    step-erase (Vm.concat cached n) vm out h = quietly-erase _ out h
    step-erase Vm.member vm out h = quietly-erase _ out h
    step-erase (Vm.rem cached) vm out h = quietly-erase _ out h
    step-erase (Vm.dup n) vm out h = quietly-erase _ out h
    step-erase (Vm.swap n) vm out h = quietly-erase _ out h
    step-erase (Vm.idx cached push_path path) vm out h = quietly-erase _ out h
    step-erase (Vm.ins cached n) vm out h = quietly-erase _ out h
    step-erase Vm.ckpt vm out h = quietly-erase _ out h
    step-erase Vm.log vm out h = logged (run_log C vm) out h
    step-erase (Vm.popeq cached result) vm out h = read_back (run_popeq C vm) result out h

module _ (C : Config) where
  -- A verified read is equal to its result.
  matched :
      (result a : AlignedValue) (events events' : List StateValue)
      → process verify C (shown_read result a) events ≡ ok events'
      → events ≡ events'
  unfolding process
  matched result a events events' h = elim (Bool-cases (same_value result a)) [
    | inl q ↦ ok-injective (rw (process, q) at h)
    | inr q ↦ let bad = rw (process, q) at h in cc
  ]

  -- The events gathered have the events of the verification as their logs.
  process-erase :
      (shown : Shown AlignedValue) (events events' : List StateValue) (gathered : List GatherEvent)
      → logs gathered ≡ events
      → process verify C shown events ≡ ok events'
      → (next : List GatherEvent) × (process gather C (erase_shown shown) gathered ≡ ok next)
        × (logs next ≡ events')
  unfolding process
  process-erase nothing events events' gathered e h = (gathered, refl, e ∙ ok-injective h)
  process-erase (shown_log v) events events' gathered e h = (
    gathered ++ (log v ∷ []),
    refl,
    logs-append gathered (log v ∷ []) ∙ ap (λ l. l ++ (v ∷ [])) e ∙ ok-injective h,
  )
  process-erase (shown_read result a) events events' gathered e h = (
    gathered ++ (read a ∷ []),
    refl,
    logs-append gathered (read a ∷ [])
        ∙ append-nil (logs gathered)
        ∙ e
        ∙ matched result a events events' h,
  )

  -- A turn's outcome without results, with the events gathered.
  abbrev erase_out :
      List GatherEvent
      → Machine × List StateValue × List (Op AlignedValue)
      → Result Stop (Machine × List GatherEvent × List (Op (Unit {0})))
  erase_out gathered o = ok (o.0, gathered, map erase o.2)

  leave-erase :
      (program : List (Op AlignedValue)) (skip : ℕ) (vm : Machine) (events : List StateValue)
      (gathered : List GatherEvent) (out : Machine × List StateValue × List (Op AlignedValue))
      → leave verify C program skip vm events ≡ ok out
      → (leave gather C (map erase program) skip vm gathered
          ≡ ok (out.0, gathered, map erase out.2))
        × (events ≡ out.1)
  unfolding leave
  leave-erase program skip vm events gathered out h =
      elim (Bool-cases (ltb (length program) (1 + skip))) [
        | inl e ↦ let bad = rw e at h in cc
        | inr e ↦ elim (Bool-cases (ltb max_stack_height (length vm.slots))) [
          | inl high ↦ let bad = rw (e, high) at h in cc
          | inr high ↦
              let q = ok-injective (rw (e, high) at h) in
              rw (length-map erase program, e, high, sym (map-drop erase (1 + skip) program))
                (ap (erase_out gathered) q, ap (λ o. o.1) q)
        ]
      ]

  turn-erase :
      (op : Op AlignedValue) (rest : List (Op AlignedValue)) (vm : Machine)
      (events : List StateValue) (gathered : List GatherEvent)
      (out : Machine × List StateValue × List (Op AlignedValue))
      → logs gathered ≡ events
      → turn verify C op rest vm events ≡ ok out
      → (next : List GatherEvent) × (turn gather C (erase op) (map erase rest) vm gathered
          ≡ erase_out next out)
        × (logs next ≡ out.1)
  unfolding turn
  turn-erase op rest vm events gathered out e h =
      elim (Bool-cases (ltb (length vm.slots) (stack_req op))) [
        | inl late ↦ let bad = rw late at h in cc
        | inr late ↦
            let h₁ = rw late at h in
            let (shown, q, h₂) = >>=-eq-ok (step C op vm) _ h₁ in
            let (events', p, h₃) = >>=-eq-ok (process verify C shown.0 events) _ h₂ in
            let (skipped, k, h₄) = >>=-eq-ok (skip_of op shown.1) _ h₃ in
            let (next, p', l) = process-erase shown.0 events events' gathered e p in
            let (done, same) = leave-erase (op ∷ rest) skipped.0 skipped.1 events' next out h₄ in
            (
              next,
              rw
                  (
                    stack_req-erase op,
                    late,
                    step-erase C op vm shown q,
                    p',
                    skip_of-erase op shown.1,
                    k,
                  )
                  done,
              l ∙ same,
            )
      ]

  run_loop-erase :
      (fuel : ℕ) (limit : Option ℕ) (steps : ℕ) (program : List (Op AlignedValue)) (vm : Machine)
      (events : List StateValue) (gathered : List GatherEvent) (r : VmResults StateValue)
      → logs gathered ≡ events
      → run_loop verify C fuel limit steps program vm events ≡ ok r
      → (s : VmResults GatherEvent) × (run_loop gather C fuel limit steps
            (map erase program)
            vm
            gathered
          ≡ ok s)
        × (s.stack ≡ r.stack)
        × (s.gas_cost ≡ r.gas_cost)
        × (logs s.events ≡ r.events)
  unfolding run_loop
  run_loop-erase fuel limit steps [] vm events gathered r e h =
      let q = ok-injective h in
      (
        results gather C vm gathered,
        refl,
        ap (λ s. s.stack) q,
        ap (λ s. s.gas_cost) q,
        e ∙ ap (λ s. s.events) q,
      )
  run_loop-erase zero limit steps (op ∷ rest) vm events gathered r e h =
      elim (Bool-cases (reached verify C limit steps)) [
        | inl at ↦
            let q = ok-injective (rw at at h) in
            (
              results gather C vm gathered,
              rw at refl,
              ap (λ s. s.stack) q,
              ap (λ s. s.gas_cost) q,
              e ∙ ap (λ s. s.events) q,
            )
        | inr at ↦ let bad = rw at at h in cc
      ]
  run_loop-erase (suc fuel) limit steps (op ∷ rest) vm events gathered r e h =
      elim (Bool-cases (reached verify C limit steps)) [
        | inl at ↦
            let q = ok-injective (rw at at h) in
            (
              results gather C vm gathered,
              rw at refl,
              ap (λ s. s.stack) q,
              ap (λ s. s.gas_cost) q,
              e ∙ ap (λ s. s.events) q,
            )
        | inr at ↦
            let (out, t, h₁) = >>=-eq-ok (turn verify C op rest vm events) _ (rw at at h) in
            let (next, t', l) = turn-erase op rest vm events gathered out e t in
            rw (at, t') (run_loop-erase fuel limit (suc steps) out.2 out.0 out.1 next r l h₁)
      ]

  -- If a run in the verifying mode returns a result, then the run of the same program without the
  -- results that it names, in the gathering mode, returns the same stack and the same gas, and the
  -- logs among its events are the events of the verification.
  pub verify-gather :
      (initial : List VmValue) (program : List (Op AlignedValue)) (limit : Option ℕ)
      (r : VmResults StateValue)
      → run_program_step_limited verify C initial program limit ≡ ok r
      → (s : VmResults GatherEvent) × (run_program_step_limited gather C initial
            (map erase program)
            limit
          ≡ ok s)
        × (s.stack ≡ r.stack)
        × (s.gas_cost ≡ r.gas_cost)
        × (logs s.events ≡ r.events)
  unfolding run_program_step_limited
  verify-gather initial program limit r h =
      rw (length-map erase program)
        (run_loop-erase (length program) limit 0 program (start verify C initial) [] [] r refl h)
