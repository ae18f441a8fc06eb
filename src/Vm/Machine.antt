-- ===== src/Vm/Machine.antt =====
-- The state of a run (`run_program_internal` of onchain-vm/src/vm.rs): the stack, whose top is the
-- head of the list, the cache, and the gas used, with the primitives that instructions consist of.
use midnight_ledger.Prelude.{
  ℕ, zero, suc, Bool, true, false, ◌||◌, Option, none, some, List, [], ◌∷◌, ◌++◌, ltb,
  if◌then◌else◌, Result, ok, err, ◌>>=◌, length,
}
use midnight_ledger.Cost.{RunningCost, add_running}
use midnight_ledger.Fab.{AlignedValue}
use midnight_ledger.Fab.Size.{same_value}
use midnight_ledger.Vm.{
  VmValue, ValueStrength, strong, StateValue, cell, Stop, panicked, fail, out_of_gas, Config,
}
use midnight_ledger.Vm.Store.{as_cell}

-- The index of an initial stack position and a path into its value.
abbrev pub CacheKey : Type 0
CacheKey = Option (ℕ × List AlignedValue)

pub record Slot : Type 0 where
  pub item : VmValue
  pub origin : CacheKey

mutual
  -- What is cached of a value: all of it, or the parts under some keys.
  pub data InnerCache : Type 0 where
    whole : InnerCache
    parts : Parts → InnerCache

  pub data Parts : Type 0 where
    no_parts : Parts
    part : AlignedValue → InnerCache → Parts → Parts

abbrev pub Cache : Type 0
Cache = List InnerCache

pub record Machine : Type 0 where
  pub slots : List Slot
  pub cache : Cache
  pub gas : RunningCost

unfoldable pub push_key : CacheKey → AlignedValue → CacheKey
push_key none k = none
push_key (some (i, path)) k = some (i, path ++ (k ∷ []))

abbrev pub get_part : AlignedValue → Parts → Option InnerCache
get_part k no_parts = none
get_part k (part j c m) = if same_value j k then some c else get_part k m

abbrev pub set_part : AlignedValue → InnerCache → Parts → Parts
set_part k c no_parts = part k c no_parts
set_part k c (part j d m) = if same_value j k then part j c m else part j d (set_part k c m)

-- The walk of `Cache::visit` along a path, which adds the keys that it does not find.
unfoldable pub visit_path : List AlignedValue → InnerCache → InnerCache × Bool
visit_path [] c = (c, true)
visit_path (k ∷ path) whole = (whole, true)
visit_path (k ∷ path) (parts m) = elim (get_part k m) [
  | some c ↦ let below = visit_path path c in (parts (set_part k below.0 m), below.1)
  | none ↦ let below = visit_path path (parts no_parts) in (parts (set_part k below.0 m), false)
]

abbrev pub cache_at : Cache → ℕ → Option InnerCache
cache_at [] n = none
cache_at (c ∷ cache) zero = some c
cache_at (c ∷ cache) (suc n) = cache_at cache n

abbrev pub set_cache_at : ℕ → InnerCache → Cache → Cache
set_cache_at n c [] = []
set_cache_at zero c (d ∷ cache) = c ∷ cache
set_cache_at (suc n) c (d ∷ cache) = d ∷ set_cache_at n c cache

-- `Cache::visit`: the new cache, and whether the value was found in it. The position is indexed if
-- it is at most the length, so that the length itself is out of range.
unfoldable pub visit : Cache → CacheKey → Result Stop (Cache × Bool)
unfolding visit_path
visit cache none = ok (cache, true)
visit cache (some (n, path)) =
    if ltb (length cache) n then ok (cache, false) else elim (cache_at cache n) [
      | none ↦ err panicked
      | some c ↦ let below = visit_path path c in ok (set_cache_at n below.0 cache, below.1)
    ]

-- Whether a limit is passed in compute or read time.
unfoldable pub over_limit : Option RunningCost → RunningCost → Bool
over_limit none gas = false
over_limit (some limit) gas =
    ltb limit.compute_time gas.compute_time || ltb limit.read_time gas.read_time

-- `incr_gas_full`
unfoldable pub incr_gas_full : Config → RunningCost → Machine → Result Stop Machine
unfolding add_running over_limit
incr_gas_full C by vm =
    let gas = add_running vm.gas by in
    if over_limit C.gas_limit gas then fail out_of_gas else ok (record vm { gas = gas })

-- `incr_gas`
unfoldable pub incr_gas : Config → ℕ → Machine → Result Stop Machine
unfolding incr_gas_full
incr_gas C by vm =
    incr_gas_full C
      (record { read_time = 0; compute_time = by; bytes_written = 0; bytes_deleted = 0 }) vm

-- `stack.pop().unwrap()`
unfoldable pub pop_slot : Machine → Result Stop (Slot × Machine)
pop_slot vm = elim vm.slots [ [] ↦ err panicked | s ∷ rest ↦ ok (s, record vm { slots = rest }) ]

-- `stack.pop().unwrap().0.as_cell()?`
unfoldable pub pop_cell : Machine → Result Stop (AlignedValue × Machine)
unfolding pop_slot as_cell
pop_cell vm = do (s, rest) ← pop_slot vm; a ← as_cell s.item.value; ok (a, rest)

abbrev pub push_slot : Slot → Machine → Machine
push_slot s vm = record vm { slots = s ∷ vm.slots }

-- `stack.push((vnew(strength, value), CacheKey(None)))`
abbrev pub push_value : ValueStrength → StateValue → Machine → Machine
push_value s v vm =
    push_slot (record { item = record { strength = s; value = v }; origin = none }) vm

abbrev pub push_cell : AlignedValue → Machine → Machine
push_cell a vm = push_value strong (cell a) vm
