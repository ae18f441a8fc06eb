-- ===== src/Vm/Sound.antt =====
-- Runs that do not panic: a predicate on results, and the invariant of a machine that every
-- primitive of `Vm.Machine` keeps (onchain-vm/src/vm.rs).
pub mod Simple
pub mod Containers
pub mod Access
pub mod Loop
use midnight_ledger.Prelude.{
  ℕ, zero, suc, ◌+◌, ◌≤◌, ◌≡◌, refl, Bool, true, false, ◌||◌, Option, none, some, List, [], ◌∷◌,
  ◌++◌, ltb, if◌then◌else◌, Result, ok, err, ◌>>=◌, map_err, ok_or, length, All, arith, Bool-cases,
  inl, inr, ◌⊎◌, ◌∙◌,
}
use midnight_ledger.Cost.{RunningCost, add_running}
use midnight_ledger.Fab.{AlignedValue, InvalidBuiltinDecode}
use midnight_ledger.Vm.{
  Stop, failed, panicked, out_of_fuel, OnchainProgramError, Config, ValueStrength, StateValue,
}
use midnight_ledger.Vm.Store.{as_cell, decoded}
use midnight_ledger.Vm.Machine.{
  Cache, CacheKey, Slot, InnerCache, Machine, visit, visit_path, cache_at, set_cache_at, over_limit,
  incr_gas, incr_gas_full, pop_slot, pop_cell, push_slot, push_value, push_key,
}

-- A result is an error of the program, or satisfies a predicate: no panic, and no lack of fuel.
abbrev pub Runs : {A : Type 0} → (A → Type 0) → Result Stop A → Type 0
Runs P (ok a) = P a
Runs P (err (failed _)) = Unit
Runs P (err panicked) = ⊥
Runs P (err out_of_fuel) = ⊥

pub Runs-bind :
    {A B : Type 0} (P : A → Type 0) (Q : B → Type 0) (m : Result Stop A) (f : A → Result Stop B)
    → Runs P m
    → ((a : A) → P a → Runs Q (f a))
    → Runs Q (m >>= f)
Runs-bind P Q (ok a) f h k = k a h
Runs-bind P Q (err (failed e)) f h k = tt
Runs-bind P Q (err panicked) f h k = h
Runs-bind P Q (err out_of_fuel) f h k = h

-- A result that is never a panic.
abbrev pub Fails : {A : Type 0} → Result Stop A → Type 0
Fails m = Runs (λ _. Unit) m

pub decoded-Fails : {A : Type 0} (m : Result InvalidBuiltinDecode A) → Fails (decoded m)
decoded-Fails (ok a) = tt
decoded-Fails (err e) = tt

pub as_cell-Fails : (v : _) → Fails (as_cell v)
unfolding as_cell
as_cell-Fails v = ground arith

-- A position of a cache of so many.
abbrev pub InRange : ℕ → CacheKey → Type 0
InRange n none = Unit
InRange n (some (i, _)) = suc i ≤ n

List-cases : {A : Type 0} (xs : List A) → (xs ≡ []) ⊎ ((x : A) × (rest : List A) × (xs ≡ x ∷ rest))
List-cases [] = inl refl
List-cases (x ∷ rest) = inr (x, rest, refl)

module _ (C : Config) (n : ℕ) where
  -- The gas is within the limit, the cache has its first size, every origin is a position of it, and
  -- the stack has at least some height.
  abbrev pub Inv : ℕ → Machine → Type 0
  Inv d vm =
      (over_limit C.gas_limit vm.gas ≡ false)
      × (length vm.cache ≡ n)
      × All (λ s. InRange n s.origin) vm.slots
      × (d ≤ length vm.slots)

  pub incr_gas_full-Inv :
      (d : ℕ) (by : _) (vm : _) → Inv d vm → Runs (Inv d) (incr_gas_full C by vm)
  unfolding incr_gas_full
  incr_gas_full-Inv d by vm i = elim (Bool-cases (over_limit C.gas_limit (add_running vm.gas by))) [
    | inl e ↦ rw e tt
    | inr e ↦ rw e (e, i.1, i.2, i.3)
  ]

  pub incr_gas-Inv : (d : ℕ) (by : ℕ) (vm : _) → Inv d vm → Runs (Inv d) (incr_gas C by vm)
  unfolding incr_gas
  incr_gas-Inv d by vm i = incr_gas_full-Inv d _ vm i

  -- A slot whose origin is a position, and a machine of so much height.
  abbrev pub Popped : ℕ → Slot × Machine → Type 0
  Popped d p = InRange n p.0.origin × Inv d p.1

  pub pop_slot-Inv : (d : ℕ) (vm : _) → Inv (suc d) vm → Runs (Popped d) (pop_slot vm)
  unfolding pop_slot
  pop_slot-Inv d vm i = elim (List-cases vm.slots) [
    | inl e ↦ absurd (omega (arith, rw e at i.3))
    | inr (s, rest, e) ↦
        rw e (let all = rw e at i.2 in (all.0, (i.0, i.1, all.1, omega (arith, rw e at i.3))))
  ]

  pub pop_cell-Inv : (d : ℕ) (vm : _) → Inv (suc d) vm → Runs (λ p. Inv d p.1) (pop_cell vm)
  unfolding pop_cell
  pop_cell-Inv d vm i = Runs-bind (Popped d) _ (pop_slot vm) _ (pop_slot-Inv d vm i) λ p h.
      Runs-bind (λ _. Unit) _ (as_cell p.0.item.value) _ (as_cell-Fails p.0.item.value) λ a _. h.1

  pub push_slot-Inv :
      (d : ℕ) (s : Slot) (vm : Machine) → InRange n s.origin → Inv d vm → Inv 0 (push_slot s vm)
  push_slot-Inv d s vm r i = (i.0, i.1, (r, i.2), omega arith)

  -- No height is asked for.
  pub low-Inv : (d : ℕ) (vm : Machine) → Inv d vm → Inv 0 vm
  low-Inv d vm i = (i.0, i.1, i.2, omega arith)

  pub push_value-Inv :
      (d : ℕ) (strength : ValueStrength) (v : StateValue) (vm : Machine)
      → Inv d vm
      → Inv 0 (push_value strength v vm)
  push_value-Inv d strength v vm i = (i.0, i.1, (tt, i.2), omega arith)

  pub push_key-InRange : (k : CacheKey) (a : AlignedValue) → InRange n k → InRange n (push_key k a)
  unfolding push_key
  push_key-InRange none a r = tt
  push_key-InRange (some k) a r = r

length-set_cache_at : (n : ℕ) (c : _) (cache : _) → length (set_cache_at n c cache) ≡ length cache
length-set_cache_at n c [] = refl
length-set_cache_at zero c (d ∷ cache) = refl
length-set_cache_at (suc n) c (d ∷ cache) = omega (arith, length-set_cache_at n c cache)

cache_at-lt :
    (cache : Cache) (i : ℕ) → suc i ≤ length cache → (c : InnerCache) × (cache_at cache i ≡ some c)
cache_at-lt [] i h = absurd (omega (arith, h))
cache_at-lt (c ∷ cache) zero h = (c, refl)
cache_at-lt (c ∷ cache) (suc i) h = cache_at-lt cache i (omega (arith, h))

-- A visit of a position of the cache does not panic, and keeps the size of the cache.
pub visit-InRange :
    (n : ℕ) (cache : Cache) (key : CacheKey)
    → length cache ≡ n
    → InRange n key
    → Runs (λ p. length p.0 ≡ n) (visit cache key)
unfolding visit
visit-InRange n cache none e r = e
visit-InRange n cache (some (i, path)) e r =
    let (c, found) = cache_at-lt cache i (omega (arith, e, r)) in
    elim (Bool-cases (ltb (length cache) i)) [
      | inl late ↦ rw late e
      | inr late ↦ rw (late, found) (length-set_cache_at i (visit_path path c).0 cache ∙ e)
    ]

-- The first step of a run that goes on: a price, a cell or a slot popped, or a pure computation.
module _ (C : Config) (n : ℕ) {B : Type 0} (Q : B → Type 0) where
  pub pay :
      (d : ℕ) (by : ℕ) (vm : Machine) (f : Machine → Result Stop B)
      → Inv C n d vm
      → ((paid : Machine) → Inv C n d paid → Runs Q (f paid))
      → Runs Q (incr_gas C by vm >>= f)
  pay d by vm f i k = Runs-bind (Inv C n d) Q _ f (incr_gas-Inv C n d by vm i) k

  pub pay_full :
      (d : ℕ) (by : RunningCost) (vm : Machine) (f : Machine → Result Stop B)
      → Inv C n d vm
      → ((paid : Machine) → Inv C n d paid → Runs Q (f paid))
      → Runs Q (incr_gas_full C by vm >>= f)
  pay_full d by vm f i k = Runs-bind (Inv C n d) Q _ f (incr_gas_full-Inv C n d by vm i) k

  pub take_cell :
      (d : ℕ) (vm : Machine) (f : AlignedValue × Machine → Result Stop B)
      → Inv C n (suc d) vm
      → ((a : AlignedValue) (rest : Machine) → Inv C n d rest → Runs Q (f (a, rest)))
      → Runs Q (pop_cell vm >>= f)
  take_cell d vm f i k =
      Runs-bind (λ p. Inv C n d p.1) Q _ f (pop_cell-Inv C n d vm i) (λ p h. k p.0 p.1 h)

  pub take_slot :
      (d : ℕ) (vm : Machine) (f : Slot × Machine → Result Stop B)
      → Inv C n (suc d) vm
      → ((s : Slot) (rest : Machine) → InRange n s.origin → Inv C n d rest → Runs Q (f (s, rest)))
      → Runs Q (pop_slot vm >>= f)
  take_slot d vm f i k =
      Runs-bind (Popped C n d) Q _ f (pop_slot-Inv C n d vm i) (λ p h. k p.0 p.1 h.0 h.1)

  pub compute :
      {A : Type 0} (m : Result Stop A) (f : A → Result Stop B)
      → Fails m
      → ((a : A) → Runs Q (f a))
      → Runs Q (m >>= f)
  compute m f h k = Runs-bind (λ _. Unit) Q m f h (λ a _. k a)
