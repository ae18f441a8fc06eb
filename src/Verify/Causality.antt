-- ===== src/Verify/Causality.antt =====
-- What `causality_check` of ledger/src/verify.rs rules out.
use midnight_ledger.Prelude.{
  Member, ◌≡◌, sym, subst, true, false, inl, inr, ◌⊎◌, List, [], ◌∷◌, ok, >>=-eq-ok, fail_if-eq-ok,
}
use midnight_ledger.Prelude.Dict.{Dict, contains_key}
use midnight_ledger.Verify.{CallNode, call_node_eq, check_neighbors, neighbors_of, causality_check}

-- The calls that come after a call, directly or through others.
pub data Reaches (adjacencies : Dict CallNode (List CallNode)) : CallNode → CallNode → Type 0 where
  direct : (a b : CallNode) → Member b (neighbors_of adjacencies a) → Reaches adjacencies a b
  through :
      (a b c : CallNode)
      → Member b (neighbors_of adjacencies a)
      → Reaches adjacencies b c
      → Reaches adjacencies a c

check_neighbors-none :
    (guaranteed : Dict CallNode (Unit {0})) (curr succ : CallNode) (neighbors : List CallNode)
    → check_neighbors guaranteed curr neighbors ≡ ok tt
    → Member succ neighbors
    → contains_key succ guaranteed ≡ false
unfolding check_neighbors
check_neighbors-none guaranteed curr succ [] e nowhere = elim nowhere [ ]
check_neighbors-none guaranteed curr succ (first ∷ rest) e (inl same) =
    subst (λ n. contains_key n guaranteed ≡ false) same (fail_if-eq-ok _ _ _ e).0
check_neighbors-none guaranteed curr succ (first ∷ rest) e (inr later) =
    check_neighbors-none guaranteed curr succ rest (fail_if-eq-ok _ _ _ e).1 later

-- No call of the queue has a guaranteed successor.
causality_check-none :
    (guaranteed : Dict CallNode (Unit {0})) (queue : List CallNode)
    (adjacencies : Dict CallNode (List CallNode)) (a b : CallNode)
    → causality_check guaranteed queue adjacencies ≡ ok tt
    → Member a queue
    → Member b (neighbors_of adjacencies a)
    → contains_key b guaranteed ≡ false
unfolding causality_check
causality_check-none guaranteed [] adjacencies a b e nowhere next = elim nowhere [ ]
causality_check-none guaranteed (first ∷ rest) adjacencies a b e (inl same) next =
    let (_, e₁, _) =
      >>=-eq-ok (check_neighbors guaranteed first (neighbors_of adjacencies first)) _ e in
    check_neighbors-none guaranteed first b (neighbors_of adjacencies first) e₁
      (subst (λ n. Member b (neighbors_of adjacencies n)) (sym same) next)
causality_check-none guaranteed (first ∷ rest) adjacencies a b e (inr later) next =
    let (_, _, e₂) =
      >>=-eq-ok (check_neighbors guaranteed first (neighbors_of adjacencies first)) _ e in
    causality_check-none guaranteed rest adjacencies a b e₂ later next

-- If the check of causality accepts, and every successor of a call is a fallible or a guaranteed
-- call, then no guaranteed call comes after a fallible one, directly or through other calls.
pub causality_check-closed :
    (guaranteed : Dict CallNode (Unit {0})) (fallible : List CallNode)
    (adjacencies : Dict CallNode (List CallNode))
    → causality_check guaranteed fallible adjacencies ≡ ok tt
    → ((a b : CallNode)
        → Member b (neighbors_of adjacencies a)
        → Member b fallible ⊎ (contains_key b guaranteed ≡ true))
    → (a b : CallNode) → Member a fallible
    → Reaches adjacencies a b
    → contains_key b guaranteed ≡ false
causality_check-closed guaranteed fallible adjacencies e closed a b here (direct _ _ next) =
    causality_check-none guaranteed fallible adjacencies a b e here next
causality_check-closed guaranteed fallible adjacencies e closed a c here (through _ b _ next rest) =
    elim (closed a b next) [
      | inl there ↦ causality_check-closed guaranteed fallible adjacencies e closed b c there rest
      | inr is_guaranteed ↦
          let not_guaranteed =
            causality_check-none guaranteed fallible adjacencies a b e here next in
          cc
    ]
