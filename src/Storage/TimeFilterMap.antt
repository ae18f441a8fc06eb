-- ===== src/Storage/TimeFilterMap.antt =====
-- `TimeFilterMap` of storage/src/storage.rs: collections kept by their timestamp, beside a multiset
-- of all their items. A container is the list of its items; `HashSet` has no item twice, and its
-- `append` is the union. The trie under the map is an association list here, and `prune` is told
-- by its documentation: it takes out the keys below the cutoff.
use midnight_ledger.Prelude.{
  ℕ, ◌+◌, ◌-◌, ◌^◌, ◌<◌, ◌≤◌, ◌≡◌, Bool, true, none, some, List, [], ◌∷◌, ◌++◌, arith, ltb,
  if◌then◌else◌, Eq, unwrap_or, Option-cases, inl, inr, ◌∙◌, ap, nat_eq,
}
use midnight_ledger.Prelude.Dict.{
  Dict, lookup, insert as insert_key, total, total-insert-some, total-insert-none, weight-le-total,
}
use midnight_ledger.Storage.MultiSet
use midnight_ledger.Storage.MultiSet.{
  IsMultiSet, count, member, remove, count-insert, count-remove, insert-IsMultiSet,
  remove-IsMultiSet,
}

pub record TimeFilterMap {ℓ} (V : Type ℓ) : Type ℓ where
  pub time_map : Dict ℕ (List V)
  pub set : Dict V ℕ

abbrev pub empty_map {ℓ} : {V : Type ℓ} → TimeFilterMap V
empty_map = record { time_map = []; set = [] }

module _ {ℓ} {V : Type ℓ} where
  -- The entries from the cutoff on, and the items of the others.
  unfoldable pub prune : ℕ → Dict ℕ (List V) → Dict ℕ (List V) × List V
  prune cutoff [] = ([], [])
  prune cutoff ((ts, items) ∷ m) =
      let (kept, removed) = prune cutoff m in
      if ltb ts cutoff then (kept, items ++ removed) else ((ts, items) ∷ kept, removed)

module _ {ℓ} {V : Type ℓ} ⦃e : Eq V⦄ where
  unfoldable pub contains : V → TimeFilterMap V → Bool
  unfolding member
  contains v m = member v m.set

  unfoldable pub remove_all : List V → Dict V ℕ → Dict V ℕ
  remove_all [] s = s
  remove_all (v ∷ vs) s = remove_all vs (remove v s)

  -- An entry that is there already is replaced.
  unfoldable pub insert : ℕ → V → TimeFilterMap V → TimeFilterMap V
  unfolding remove_all
  insert ts v m = record {
    time_map = insert_key ts (v ∷ []) m.time_map;
    set = MultiSet.insert v (remove_all (unwrap_or (lookup ts m.time_map) []) m.set);
  }

  -- An item of a `HashSet`, put in once.
  unfoldable pub add_item : List V → V → List V
  add_item [] v = v ∷ []
  add_item (x ∷ xs) v = if e.beq x v then x ∷ xs else x ∷ add_item xs v

  unfoldable pub upsert_one : ℕ → V → TimeFilterMap V → TimeFilterMap V
  unfolding add_item
  upsert_one ts v m = record {
    time_map = insert_key ts (add_item (unwrap_or (lookup ts m.time_map) []) v) m.time_map;
    set = MultiSet.insert v m.set;
  }

  unfoldable pub filter : ℕ → TimeFilterMap V → TimeFilterMap V
  unfolding prune remove_all
  filter cutoff m =
      let (kept, removed) = prune cutoff m.time_map in
      record { time_map = kept; set = remove_all removed m.set }

  -- How often an item stands in a list, and in all the entries.
  unfoldable pub tally : V → List V → ℕ
  tally v [] = 0
  tally v (x ∷ xs) = (if e.beq x v then 1 else 0) + tally v xs

  unfoldable pub occurs : V → Dict ℕ (List V) → ℕ
  occurs v = total (λ _ items. tally v items)

  -- `TimeFilterMap::invariant`: the multiset counts the items of the entries.
  pub record IsConsistent (m : TimeFilterMap V) : Type ℓ where
    pub is_multiset : IsMultiSet m.set
    pub counts : (v : V) → count v m.set ≡ occurs v m.time_map

  tally-append : (v : V) (xs ys : List V) → tally v (xs ++ ys) ≡ tally v xs + tally v ys
  unfolding tally
  tally-append v [] ys = omega arith
  tally-append v (x ∷ xs) ys = omega (arith, tally-append v xs ys)

  pub tally-add_item :
      (v w : V) (xs : List V)
      → tally v xs ≡ 0
      → tally w (add_item xs v) ≡ tally w xs + (if e.beq v w then 1 else 0)
  unfolding tally add_item
  tally-add_item v w [] h = omega arith
  tally-add_item v w (x ∷ xs) h = ground (arith, tally-add_item v w xs)

  pub tally-add_item_le : (v w : V) (xs : List V) → tally w xs ≤ tally w (add_item xs v)
  unfolding tally add_item
  tally-add_item_le v w [] = omega arith
  tally-add_item_le v w (x ∷ xs) = ground (arith, tally-add_item_le v w xs)

  pub tally-add_item_self : (v : V) (xs : List V) → 0 < tally v (add_item xs v)
  unfolding tally add_item
  tally-add_item_self v [] = ground (arith, e.beq_iff v v)
  tally-add_item_self v (x ∷ xs) = ground (arith, tally-add_item_self v xs)

  tally_one : (w v : V) → tally w (v ∷ []) ≡ (if e.beq v w then 1 else 0)
  unfolding tally
  tally_one w v = omega arith

  remove_all-IsMultiSet : (vs : List V) (s : Dict V ℕ) → IsMultiSet s → IsMultiSet (remove_all vs s)
  unfolding remove_all
  remove_all-IsMultiSet [] s m = m
  remove_all-IsMultiSet (v ∷ vs) s m =
      remove_all-IsMultiSet vs (remove v s) (remove-IsMultiSet v s m)

  count-remove_all :
      (w : V) (vs : List V) (s : Dict V ℕ)
      → IsMultiSet s
      → count w (remove_all vs s) ≡ count w s - tally w vs
  unfolding remove_all tally
  count-remove_all w [] s m = omega arith
  count-remove_all w (v ∷ vs) s m = ground (
    arith,
    count-remove_all w vs (remove v s) (remove-IsMultiSet v s m),
    count-remove v w s m.dict,
  )

  occurs-prune :
      (v : V) (cutoff : ℕ) (m : Dict ℕ (List V))
      → occurs v (prune cutoff m).0 + tally v (prune cutoff m).1 ≡ occurs v m
  unfolding occurs prune total tally
  occurs-prune v cutoff [] = omega arith
  occurs-prune v cutoff ((ts, items) ∷ m) =
      ground (arith, occurs-prune v cutoff m, tally-append v items (prune cutoff m).1)

  -- The sum over the entries when one is replaced.
  pub occurs-insert :
      (v : V) (ts : ℕ) (items : List V) (m : Dict ℕ (List V))
      → occurs v (insert_key ts items m) + tally v (unwrap_or (lookup ts m) [])
        ≡ occurs v m + tally v items
  unfolding occurs tally
  occurs-insert v ts items m = elim (Option-cases (lookup ts m)) [
    | inl fresh ↦ rw fresh (omega (arith, total-insert-none (λ _ xs. tally v xs) ts items m fresh))
    | inr (old, found) ↦ rw found (total-insert-some (λ _ xs. tally v xs) ts items old m found)
  ]

  pub tally-le-occurs :
      (v : V) (ts : ℕ) (m : Dict ℕ (List V)) → tally v (unwrap_or (lookup ts m) []) ≤ occurs v m
  unfolding tally
  tally-le-occurs v ts m = omega (arith, occurs-insert v ts [] m)

  -- Taking out the entries before a cutoff keeps the multiset of items in agreement with the
  -- entries.
  pub filter-IsConsistent :
      (cutoff : ℕ) (m : TimeFilterMap V) → IsConsistent m → IsConsistent (filter cutoff m)
  unfolding filter
  filter-IsConsistent cutoff m c = record {
    is_multiset = remove_all-IsMultiSet (prune cutoff m.time_map).1 m.set c.is_multiset;
    counts = λ v. omega (
      arith,
      count-remove_all v (prune cutoff m.time_map).1 m.set c.is_multiset,
      c.counts v,
      occurs-prune v cutoff m.time_map,
    );
  }

  -- Putting an item in place of an entry keeps the two views in agreement, as long as the item is
  -- there fewer than 2^32 - 1 times.
  pub insert-IsConsistent :
      (ts : ℕ) (v : V) (m : TimeFilterMap V)
      → occurs v m.time_map + 1 < 2 ^ 32
      → IsConsistent m
      → IsConsistent (insert ts v m)
  unfolding insert
  insert-IsConsistent ts v m b c =
      let old = unwrap_or (lookup ts m.time_map) [] in
      let rest = remove_all old m.set in
      let rest_ok = remove_all-IsMultiSet old m.set c.is_multiset in
      let room : count v rest + 1 < 2 ^ 32 =
        omega (arith, count-remove_all v old m.set c.is_multiset, c.counts v, b) in
      record {
        is_multiset = insert-IsMultiSet v rest room rest_ok;
        counts = λ w. ground (
          arith,
          count-insert v w rest room,
          count-remove_all w old m.set c.is_multiset,
          c.counts w,
          occurs-insert w ts (v ∷ []) m.time_map,
          tally_one w v,
          tally-le-occurs w ts m.time_map,
        );
      }

  -- Adding an item that the entry does not have keeps the two views in agreement, as long as the item
  -- is there fewer than 2^32 - 1 times.
  pub upsert_one-IsConsistent :
      (ts : ℕ) (v : V) (m : TimeFilterMap V)
      → occurs v m.time_map + 1 < 2 ^ 32
      → tally v (unwrap_or (lookup ts m.time_map) []) ≡ 0
      → IsConsistent m
      → IsConsistent (upsert_one ts v m)
  unfolding upsert_one
  upsert_one-IsConsistent ts v m b new c =
      let old = unwrap_or (lookup ts m.time_map) [] in
      let room : count v m.set + 1 < 2 ^ 32 = (omega (arith, c.counts v, b)) in
      record {
        is_multiset = insert-IsMultiSet v m.set room c.is_multiset;
        counts = λ w. ground (
          arith,
          count-insert v w m.set room,
          tally-add_item v w old new,
          c.counts w,
          occurs-insert w ts (add_item old v) m.time_map,
        );
      }

  pub contains-occurs :
      (v : V) (m : TimeFilterMap V) → IsConsistent m → contains v m ≡ ltb 0 (occurs v m.time_map)
  unfolding contains
  contains-occurs v m c = c.is_multiset.positive v ∙ ap (ltb 0) (c.counts v)

  -- An item of an entry is contained.
  pub contains-entry :
      (v : V) (ts : ℕ) (items : List V) (m : TimeFilterMap V)
      → IsConsistent m
      → lookup ts m.time_map ≡ some items
      → 0 < tally v items
      → contains v m ≡ true
  unfolding occurs
  contains-entry v ts items m c found some_of = ground (
    arith,
    contains-occurs v m c,
    weight-le-total (λ _ xs. tally v xs) ts items m.time_map found,
    some_of,
  )

module _ {ℓ} {V : Type ℓ} where
  -- Pruning keeps exactly the entries from the cutoff on.
  pub lookup-prune :
      (ts cutoff : ℕ) (m : Dict ℕ (List V))
      → lookup ts (prune cutoff m).0 ≡ (if ltb ts cutoff then none else lookup ts m)
  unfolding prune lookup
  lookup-prune ts cutoff [] = ground arith
  lookup-prune ts cutoff ((t, items) ∷ m) = grind (arith, lookup-prune ts cutoff m)
