-- ===== src/Verify/Sequencing.antt =====
-- What the checks of the order of calls in ledger/src/verify.rs rule out.
use midnight_ledger.Prelude.{
  ℕ, ◌<◌, ◌≡◌, refl, sym, ap, ◌∙◌, subst, inl, inr, some, List, [], ◌∷◌, ok, >>=-eq-ok,
  fail_if-eq-ok, try_fold, leb, Member, arith,
}
use midnight_ledger.Prelude.Dict.{Dict, lookup}
use midnight_ledger.Runtime.{ClaimedCall}
use midnight_ledger.Transaction.{ContractCall}
use midnight_ledger.Verify.{
  CallKey, call_key_eq, SubCall, key_of, claimed_calls, sub_call, sub_calls, call_sequencing_check,
  insert_call, sort_calls, check_windows, sequencing_correlation_check,
}

Member-insert_call :
    (a x : SubCall) (xs : List SubCall) → Member a (x ∷ xs) → Member a (insert_call x xs)
unfolding insert_call
Member-insert_call a x [] h = h
Member-insert_call a x (y ∷ ys) h = ground (arith, Member-insert_call a x ys)

Member-sort_calls : (a : SubCall) (xs : List SubCall) → Member a xs → Member a (sort_calls xs)
unfolding sort_calls
Member-sort_calls a [] nowhere = nowhere
Member-sort_calls a (x ∷ xs) (inl same) = Member-insert_call a x (sort_calls xs) (inl same)
Member-sort_calls a (x ∷ xs) (inr later) =
    Member-insert_call a x (sort_calls xs) (inr (Member-sort_calls a xs later))

-- Two calls in order, in both respects.
abbrev Before : SubCall → SubCall → Type 0
Before a b = (a.sequence < b.sequence) × (a.call_index < b.call_index)

check_windows-rest :
    (address : ℕ) (a b : SubCall) (rest : List SubCall)
    → check_windows address (a ∷ b ∷ rest) ≡ ok tt
    → Before a b × (check_windows address (b ∷ rest) ≡ ok tt)
unfolding check_windows
check_windows-rest address a b rest e = ground arith

check_windows-first :
    (address : ℕ) (a b : SubCall) (rest : List SubCall)
    → check_windows address (a ∷ rest) ≡ ok tt
    → Member b rest
    → Before a b
check_windows-first address a b [] e nowhere = elim nowhere [ ]
check_windows-first address a b (c ∷ rest) e (inl same) =
    subst (Before a) same (check_windows-rest address a c rest e).0
check_windows-first address a b (c ∷ rest) e (inr later) =
    let (first, e') = check_windows-rest address a c rest e in
    let second = check_windows-first address c b rest e' later in
    (omega (arith, first.0, second.0), omega (arith, first.1, second.1))

check_windows-tail :
    (address : ℕ) (a : SubCall) (rest : List SubCall)
    → check_windows address (a ∷ rest) ≡ ok tt
    → check_windows address rest ≡ ok tt
unfolding check_windows
check_windows-tail address a [] e = refl
check_windows-tail address a (b ∷ rest) e = (check_windows-rest address a b rest e).1

check_windows-sorted :
    (address : ℕ) (a b : SubCall) (xs : List SubCall)
    → check_windows address xs ≡ ok tt
    → Member a xs
    → Member b xs
    → a.sequence < b.sequence
    → a.call_index < b.call_index
check_windows-sorted address a b [] e nowhere _ less = elim nowhere [ ]
check_windows-sorted address a b (x ∷ xs) e (inl here) (inl there) less =
    let same : a.sequence ≡ b.sequence = ap SubCall.sequence (sym here ∙ there) in
    omega (arith, same)
check_windows-sorted address a b (x ∷ xs) e (inl here) (inr there) less =
    subst (λ (y : SubCall). y.call_index < b.call_index) here
      (check_windows-first address x b xs e there).1
check_windows-sorted address a b (x ∷ xs) e (inr here) (inl there) less =
    let (later, _) = subst (λ y. Before y a) there (check_windows-first address x a xs e here) in
    omega arith
check_windows-sorted address a b (x ∷ xs) e (inr here) (inr there) less =
    check_windows-sorted address a b xs (check_windows-tail address x xs e) here there less

-- If the check of the calls that a call claims accepts, their places in the intent are in the order
-- of their sequence numbers.
pub sequencing_correlation_check-ordered :
    (address : ℕ) (found : List SubCall) (a b : SubCall)
    → sequencing_correlation_check address found ≡ ok tt
    → Member a found
    → Member b found
    → a.sequence < b.sequence
    → a.call_index < b.call_index
unfolding sequencing_correlation_check
sequencing_correlation_check-ordered address found a b e here there less =
    check_windows-sorted address a b (sort_calls found) e (Member-sort_calls a found here)
      (Member-sort_calls b found there) less

sub_call-later :
    (position : ℕ) (c : ContractCall) (claimed : ClaimedCall) (found all : List SubCall)
    (cids : List ℕ) (cid : ℕ)
    → try_fold (sub_call position c claimed) found cids ≡ ok all
    → Member cid cids
    → position < cid
unfolding try_fold sub_call
sub_call-later position c claimed found all [] cid e nowhere = elim nowhere [ ]
sub_call-later position c claimed found all (x ∷ xs) cid e (inl same) =
    let (next, e₁, _) = >>=-eq-ok (sub_call position c claimed found x) _ e in
    let (q, _) = fail_if-eq-ok (leb x position) _ _ e₁ in
    subst (λ y. position < y) same (ground (arith, q))
sub_call-later position c claimed found all (x ∷ xs) cid e (inr later) =
    let (next, _, e₂) = >>=-eq-ok (sub_call position c claimed found x) _ e in
    sub_call-later position c claimed next all xs cid e₂ later

sub_calls-later :
    (position : ℕ) (c : ContractCall) (call_lookup : Dict CallKey (List ℕ))
    (found all : List SubCall) (claims : List ClaimedCall) (claimed : ClaimedCall) (cids : List ℕ)
    (cid : ℕ)
    → try_fold (sub_calls position c call_lookup) found claims ≡ ok all
    → Member claimed claims
    → lookup (key_of claimed) call_lookup ≡ some cids
    → Member cid cids
    → position < cid
unfolding try_fold sub_calls
sub_calls-later position c call_lookup found all [] claimed cids cid e nowhere at here =
    elim nowhere [ ]
sub_calls-later position c call_lookup found all (x ∷ xs) claimed cids cid e (inl same) at here =
    let (next, e₁, _) = >>=-eq-ok (sub_calls position c call_lookup found x) _ e in
    let e₂ = subst (λ y. sub_calls position c call_lookup found y ≡ ok next) same e₁ in
    sub_call-later position c claimed found next cids cid (rw (sub_calls, at) at e₂) here
sub_calls-later position c call_lookup found all (x ∷ xs) claimed cids cid e (inr later) at here =
    let (next, _, e₂) = >>=-eq-ok (sub_calls position c call_lookup found x) _ e in
    sub_calls-later position c call_lookup next all xs claimed cids cid e₂ later at here

-- If the check of a call's place accepts, the call comes before every call of the intent that one of
-- its transcripts claims.
pub call_sequencing_check-later :
    (position : ℕ) (c : ContractCall) (call_lookup : Dict CallKey (List ℕ)) (all : List SubCall)
    (claimed : ClaimedCall) (cids : List ℕ) (cid : ℕ)
    → call_sequencing_check position c call_lookup ≡ ok all
    → Member claimed (claimed_calls c)
    → lookup (key_of claimed) call_lookup ≡ some cids
    → Member cid cids
    → position < cid
unfolding call_sequencing_check
call_sequencing_check-later position c call_lookup all claimed cids cid e claims at here =
    sub_calls-later position c call_lookup [] all (claimed_calls c) claimed cids cid e claims at
      here
