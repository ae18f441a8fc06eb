-- ===== src/Ledger/Replay.antt =====
-- Replay protection (`ReplayProtectionState` of ledger/src/semantics.rs): the hashes of the intents
-- that were applied, kept until their time to live is over.
use midnight_ledger.Prelude.{
  ℕ, ◌<◌, ◌≤◌, ◌≡◌, refl, true, false, List, [], arith, ltb, if◌then◌else◌, Result, ok, ◌>>◌,
  fail_if, is_ok, nat_eq, unwrap_or, ==_iff, subst,
}
use midnight_ledger.Prelude.Dict.{lookup, lookup-insert}
use midnight_ledger.Storage.TimeFilterMap.{
  TimeFilterMap, IsConsistent, contains, upsert_one, filter, tally, occurs, lookup-prune,
  tally-le-occurs, tally-add_item_le, tally-add_item_self, add_item, upsert_one-IsConsistent,
  contains-occurs, filter-IsConsistent,
}
use midnight_ledger.Ledger.{
  TransactionApplicationError, intent_ttl_expired, intent_ttl_too_far_in_future,
  intent_already_exists, add_seconds,
}

unfoldable pub apply_member :
    TimeFilterMap ℕ → ℕ → ℕ → ℕ → ℕ → Result TransactionApplicationError (TimeFilterMap ℕ)
apply_member self hash ttl tblock global_ttl = do
  fail_if (contains hash self) intent_already_exists
  fail_if (ltb ttl tblock) (intent_ttl_expired ttl tblock)
  fail_if (ltb (add_seconds tblock global_ttl) ttl)
      (intent_ttl_too_far_in_future ttl (add_seconds tblock global_ttl))
  ok (upsert_one ttl hash self)

unfoldable pub post_block_update : TimeFilterMap ℕ → ℕ → TimeFilterMap ℕ
post_block_update self tblock = filter tblock self

-- An intent is taken exactly when it is not kept, and its time to live is neither over nor too far.
pub is_ok-apply_member :
    (m : TimeFilterMap ℕ) (hash ttl tblock global_ttl : ℕ)
    → is_ok (apply_member m hash ttl tblock global_ttl) ≡ (
        if contains hash m
        then false
        else if ltb ttl tblock
        then false
        else if ltb (add_seconds tblock global_ttl) ttl
        then false
        else true)
unfolding apply_member
is_ok-apply_member m hash ttl tblock global_ttl = grind arith

-- What a taken intent has passed.
pub apply_member-eq-ok :
    (m n : TimeFilterMap ℕ) (hash ttl tblock global_ttl : ℕ)
    → apply_member m hash ttl tblock global_ttl ≡ ok n
    → (contains hash m ≡ false)
      × (tblock ≤ ttl)
      × (ttl ≤ add_seconds tblock global_ttl)
      × (upsert_one ttl hash m ≡ n)
unfolding apply_member
apply_member-eq-ok m n hash ttl tblock global_ttl e = grind arith

fresh-tally :
    (m : TimeFilterMap ℕ) (hash ts : ℕ)
    → IsConsistent m
    → contains hash m ≡ false
    → (occurs hash m.time_map ≡ 0) × (tally hash (unwrap_or (lookup ts m.time_map) []) ≡ 0)
fresh-tally m hash ts c absent =
    ground (arith, contains-occurs hash m c, tally-le-occurs hash ts m.time_map)

pub apply_member-IsConsistent :
    (m n : TimeFilterMap ℕ) (hash ttl tblock global_ttl : ℕ)
    → IsConsistent m
    → apply_member m hash ttl tblock global_ttl ≡ ok n
    → IsConsistent n
apply_member-IsConsistent m n hash ttl tblock global_ttl c e =
    let (absent, _, _, eq) = apply_member-eq-ok m n hash ttl tblock global_ttl e in
    let (none_of, none_at) = fresh-tally m hash ttl c absent in
    subst IsConsistent eq (upsert_one-IsConsistent ttl hash m (omega arith) none_at c)

-- The hashes kept under a time.
abbrev pub kept_at : ℕ → TimeFilterMap ℕ → List ℕ
kept_at ts m = unwrap_or (lookup ts m.time_map) []

tally-nil : (hash : ℕ) → tally hash [] ≡ 0
unfolding tally
tally-nil hash = refl

kept-upsert_one :
    (hash ts v ttl : ℕ) (m : TimeFilterMap ℕ)
    → tally hash (kept_at ts m) ≤ tally hash (kept_at ts (upsert_one ttl v m))
unfolding upsert_one
kept-upsert_one hash ts v ttl m = ground (
  arith,
  lookup-insert ttl ts (add_item (kept_at ttl m) v) m.time_map,
  tally-add_item_le v hash (kept_at ttl m),
  ==_iff ttl ts,
)

kept-upsert_one_self :
    (hash ttl : ℕ) (m : TimeFilterMap ℕ) → 0 < tally hash (kept_at ttl (upsert_one ttl hash m))
unfolding upsert_one
kept-upsert_one_self hash ttl m = ground (
  arith,
  lookup-insert ttl ttl (add_item (kept_at ttl m) hash) m.time_map,
  tally-add_item_self hash (kept_at ttl m),
  ==_iff ttl ttl,
)

kept-filter :
    (hash ts cutoff : ℕ) (m : TimeFilterMap ℕ)
    → cutoff ≤ ts
    → tally hash (kept_at ts (filter cutoff m)) ≡ tally hash (kept_at ts m)
unfolding filter
kept-filter hash ts cutoff m b = ground (arith, lookup-prune ts cutoff m.time_map)

kept-contains :
    (hash ts : ℕ) (m : TimeFilterMap ℕ)
    → IsConsistent m
    → 0 < tally hash (kept_at ts m)
    → contains hash m ≡ true
kept-contains hash ts m c p =
    ground (arith, contains-occurs hash m c, tally-le-occurs hash ts m.time_map)

-- What happens from a block's time and state on: intents are taken in the block, and blocks end,
-- each later than the one before.
pub data History : ℕ → TimeFilterMap ℕ → ℕ → TimeFilterMap ℕ → Type 0 where
  here : {now : ℕ} {m : TimeFilterMap ℕ} → History now m now m
  take :
      {now later : ℕ} {m n u : TimeFilterMap ℕ} (hash ttl global_ttl : ℕ)
      → apply_member m hash ttl now global_ttl ≡ ok n
      → History now n later u
      → History now m later u
  end_block :
      {now later : ℕ} {m u : TimeFilterMap ℕ} (next : ℕ)
      → now ≤ next
      → History next (post_block_update m now) later u
      → History now m later u

pub History-append :
    {now mid later : ℕ} {m n u : TimeFilterMap ℕ}
    → History now m mid n
    → History mid n later u
    → History now m later u
History-append here rest = rest
History-append (take hash ttl g e steps) rest = take hash ttl g e (History-append steps rest)
History-append (end_block next b steps) rest = end_block next b (History-append steps rest)

pub History-IsConsistent :
    {now later : ℕ} {m u : TimeFilterMap ℕ}
    → History now m later u
    → IsConsistent m
    → IsConsistent u
unfolding post_block_update
History-IsConsistent here c = c
History-IsConsistent (take {now} {later} {m} {n} hash ttl g e rest) c =
    History-IsConsistent rest (apply_member-IsConsistent m n hash ttl now g c e)
History-IsConsistent (end_block {now} {later} {m} next b rest) c =
    History-IsConsistent rest (filter-IsConsistent now m c)

-- The hash is kept under its time to live unless that is over.
abbrev pub Remembers : ℕ → ℕ → ℕ → TimeFilterMap ℕ → Type 0
Remembers hash ttl now m = IsConsistent m × (now ≤ ttl → 0 < tally hash (kept_at ttl m))

History-Remembers :
    (hash ttl now later : ℕ) {m u : TimeFilterMap ℕ}
    → History now m later u
    → Remembers hash ttl now m
    → Remembers hash ttl later u
unfolding post_block_update
History-Remembers hash ttl now later here r = r
History-Remembers hash ttl _ _ (take {now} {later} {m} {n} v t g e rest) (c, k) =
    let (_, _, _, eq) = apply_member-eq-ok m n v t now g e in
    let grown =
      subst (λ n. tally hash (kept_at ttl m) ≤ tally hash (kept_at ttl n)) eq
        (kept-upsert_one hash ttl v t m) in
    History-Remembers hash ttl now later rest
      (apply_member-IsConsistent m n v t now g c e, λ b. (let a = k b in omega arith))
History-Remembers hash ttl _ _ (end_block {now} {later} {m} next b rest) (c, k) =
    History-Remembers hash ttl next later rest (
      filter-IsConsistent now m c,
      λ q. (let a = k (omega arith) in omega (arith, kept-filter hash ttl now m (omega arith))),
    )

-- An intent that was taken while the map was consistent is not taken again, in the same block or
-- any later one, whatever else is taken in between and whatever the bound on the time to live is
-- then. Block times do not decrease.
pub no_replay :
    (hash ttl now later g g' : ℕ) (m n u : TimeFilterMap ℕ)
    → IsConsistent m
    → apply_member m hash ttl now g ≡ ok n
    → History now n later u
    → is_ok (apply_member u hash ttl later g') ≡ false
no_replay hash ttl now later g g' m n u c e steps =
    let (_, _, _, eq) = apply_member-eq-ok m n hash ttl now g e in
    let kept = subst (λ n. 0 < tally hash (kept_at ttl n)) eq (kept-upsert_one_self hash ttl m) in
    let (cu, ku) =
      History-Remembers hash ttl now later steps
        (apply_member-IsConsistent m n hash ttl now g c e, λ _. kept) in
    ground (arith, is_ok-apply_member u hash ttl later g', kept-contains hash ttl u cu)
