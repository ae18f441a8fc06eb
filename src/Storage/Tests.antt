-- ===== src/Storage/Tests.antt =====
-- Runs of the timed collections on small inputs, and their theorems at them.
use midnight_ledger.Prelude.{ℕ, ◌≡◌, refl, true, false, nat_eq}
use midnight_ledger.Prelude.Dict.{lookup, insert, erase, total}
use midnight_ledger.Storage.MultiSet
use midnight_ledger.Storage.MultiSet.{count, member}
use midnight_ledger.Storage.TimeFilterMap
use midnight_ledger.Storage.TimeFilterMap.{
  TimeFilterMap, empty_map, contains, prune, filter, upsert_one, occurs, tally, IsConsistent,
  filter-IsConsistent, insert-IsConsistent, upsert_one-IsConsistent, lookup-prune,
}

pub empty-IsConsistent : IsConsistent (empty_map {V = ℕ})
unfolding member count occurs total lookup
empty-IsConsistent = record {
  is_multiset = record { dict = tt; positive = λ _. refl };
  counts = λ _. refl;
}

abbrev two_times : TimeFilterMap ℕ
two_times = upsert_one 4 8 (TimeFilterMap.insert 3 8 (empty_map {V = ℕ}))

-- The item stays while one of its two entries does.
two_times-filter :
    (contains 8 (filter 4 two_times) ≡ true) × (contains 8 (filter 5 two_times) ≡ false)
unfolding filter prune contains upsert_one TimeFilterMap.insert insert lookup MultiSet.insert
    MultiSet.remove erase
two_times-filter = (refl, refl)
