-- ===== src/Verify/Closed.antt =====
-- The successors in the graph of calls that `sequencing_check` of ledger/src/verify.rs builds.
use midnight_ledger.Prelude.{
  ℕ, ◌≡◌, refl, sym, ap, subst, Bool, ◌&&◌, not, true, false, inl, inr, ◌⊎◌, Option, none, some,
  List, [], ◌∷◌, ◌++◌, ok, >>=-eq-ok, ok-injective, fail_if-eq-ok, try_fold, try_fold-inv,
  unwrap_or, is_some, Member, nat_eq, Bool-cases, arith,
}
use midnight_ledger.Prelude.Dict.{Dict, lookup, insert, contains_key, lookup-insert}
use midnight_ledger.Transaction.{
  ContractCall, Intent, StandardTransaction, Environment, sorted_iter,
}
use midnight_ledger.Verify.{
  CallNode, call_node_eq, fallible_in_guaranteed_context_violation,
  guaranteed_in_fallible_context_violation, neighbors_of,
}
use midnight_ledger.Verify.Causality.{Reaches, causality_check-closed}
use midnight_ledger.Verify.Graph.{
  CallGraph, Callers, insert_node, push, node_of, after_previous, relate_call, relate_nodes,
  context_caller, context_call, sequencing_context_check, as_indexed_from, check_places,
  check_intent, build_graph, sequencing_check,
}

Member-snoc :
    (b n : CallNode) (xs : List CallNode) → Member b (xs ++ (n ∷ [])) → Member b xs ⊎ (n ≡ b)
Member-snoc b n [] (inl same) = inr same
Member-snoc b n [] (inr nowhere) = elim nowhere [ ]
Member-snoc b n (x ∷ xs) (inl same) = inl (inl same)
Member-snoc b n (x ∷ xs) (inr later) = elim (Member-snoc b n xs later) [
  | inl there ↦ inl (inr there)
  | inr last ↦ inr last
]

Member-insert_node :
    (b x : CallNode) (ys : List CallNode) → Member b ys → Member b (insert_node x ys)
unfolding insert_node
Member-insert_node b x [] nowhere = elim nowhere [ ]
Member-insert_node b x (y ∷ ys) h = ground (arith, Member-insert_node b x ys)

insert_node_self : (x : CallNode) (ys : List CallNode) → Member x (insert_node x ys)
unfolding insert_node
insert_node_self x [] = inl refl
insert_node_self x (y ∷ ys) = ground (arith, insert_node_self x ys, call_node_eq.beq_iff y x)

-- The nodes of a graph.
abbrev pub Known : CallGraph → CallNode → Type 0
Known g b = Member b g.fallible_calls ⊎ (contains_key b g.guaranteed_calls ≡ true)

-- All successors satisfy a predicate.
abbrev pub Closed : (CallNode → Type 0) → Dict CallNode (List CallNode) → Type 0
Closed P adjacencies = (a b : CallNode) → Member b (neighbors_of adjacencies a) → P b

Member-unwrap_or :
    (b : CallNode) (m : Option (List CallNode))
    → Member b (unwrap_or m [])
    → Member b (elim m [ none ↦ [] | some neighbors ↦ neighbors ])
Member-unwrap_or b none h = h
Member-unwrap_or b (some neighbors) h = h

push-Closed :
    (P : CallNode → Type 0) (a n : CallNode) (adjacencies : Dict CallNode (List CallNode))
    → Closed P adjacencies
    → P n
    → Closed P (push a n adjacencies)
unfolding push
push-Closed P a n adjacencies closed p c b h =
    let pushed = unwrap_or (lookup a adjacencies) [] ++ (n ∷ []) in
    elim (Bool-cases (call_node_eq.beq a c)) [
      | inl found ↦
          let at : lookup c (insert a pushed adjacencies) ≡ some pushed =
            rw found at (lookup-insert a c pushed adjacencies) in
          elim (Member-snoc b n (unwrap_or (lookup a adjacencies) [])
            (subst (λ o. Member b (elim o [ none ↦ [] | some neighbors ↦ neighbors ])) at h)) [
              | inl there ↦ closed a b (Member-unwrap_or b (lookup a adjacencies) there)
              | inr last ↦ subst P last p
            ]
      | inr missed ↦
          let at : lookup c (insert a pushed adjacencies) ≡ lookup c adjacencies =
            rw missed at (lookup-insert a c pushed adjacencies) in
          closed c b
            (subst (λ o. Member b (elim o [ none ↦ [] | some neighbors ↦ neighbors ])) at h)
    ]

after_previous-Closed :
    (P : CallNode → Type 0) (n : CallNode) (previous : Option CallNode)
    (adjacencies : Dict CallNode (List CallNode))
    → Closed P adjacencies
    → P n
    → Closed P (after_previous n previous adjacencies)
after_previous-Closed P n none adjacencies closed p = closed
after_previous-Closed P n (some a) adjacencies closed p = push-Closed P a n adjacencies closed p

-- What a call adds to a graph: itself, and no successor that is not a node.
record Grows (g h : CallGraph) : Type 0 where
  kept : (b : CallNode) → Known g b → Known h b
  closed : Closed (Known g) g.adjacencies → Closed (Known h) h.adjacencies

relate_call-Known :
    (segment : ℕ) (g h : CallGraph) (cs ds : Callers) (cid : ℕ) (c : ContractCall)
    → relate_call segment (g, cs) (cid, c) ≡ ok (h, ds)
    → ((b : CallNode) → Known g b → Known h b)
      × Known h (node_of segment (cid, c))
      × (h.adjacencies
          ≡ after_previous
              (node_of segment (cid, c))
              (lookup c.address g.calls_by_address)
              g.adjacencies)
unfolding relate_call
relate_call-Known segment g h cs ds cid c e =
    let n = node_of segment (cid, c) in
    (
      λ b known. ground (
        arith,
        Member-insert_node b n g.fallible_calls,
        lookup-insert n b tt g.guaranteed_calls,
        call_node_eq.beq_iff n b,
      ),
      ground (
        arith,
        insert_node_self n g.fallible_calls,
        lookup-insert n n tt g.guaranteed_calls,
        call_node_eq.beq_iff n n,
      ),
      ground arith,
    )

relate_call-Grows :
    (segment : ℕ) (g h : CallGraph) (cs ds : Callers) (cid : ℕ) (c : ContractCall)
    → relate_call segment (g, cs) (cid, c) ≡ ok (h, ds)
    → Grows g h
relate_call-Grows segment g h cs ds cid c e =
    let (kept, itself, grown) = relate_call-Known segment g h cs ds cid c e in
    record {
      kept = kept;
      closed = λ closed. subst (Closed (Known h)) (sym grown) (
          after_previous-Closed (Known h) (node_of segment (cid, c))
            (lookup c.address g.calls_by_address) g.adjacencies
            (λ a b next. kept b (closed a b next)) itself);
    }

-- All calls of an intent are nodes after it is related.
fold-Grows :
    (segment : ℕ) (g h : CallGraph) (cs ds : Callers) (calls : List (ℕ × ContractCall))
    → try_fold (relate_call segment) (g, cs) calls ≡ ok (h, ds)
    → Grows g h
      × ((entry : ℕ × ContractCall) → Member entry calls → Known h (node_of segment entry))
unfolding try_fold
fold-Grows segment g h cs ds [] e =
    let same : g ≡ h = ap (λ (p : CallGraph × Callers). p.0) (ok-injective e) in
    (
      record {
        kept = λ b known. subst (λ x. Known x b) same known;
        closed = λ closed. subst (λ x. Closed (Known x) (CallGraph.adjacencies x)) same closed;
      },
      λ entry nowhere. elim nowhere [ ],
    )
fold-Grows segment g h cs ds ((cid, c) ∷ calls) e =
    let (next, e₁, e₂) = >>=-eq-ok (relate_call segment (g, cs) (cid, c)) _ e in
    let first = relate_call-Grows segment g next.0 cs next.1 cid c e₁ in
    let (_, itself, _) = relate_call-Known segment g next.0 cs next.1 cid c e₁ in
    let (rest, later) = fold-Grows segment next.0 h next.1 ds calls e₂ in
    (
      record {
        kept = λ b known. rest.kept b (first.kept b known);
        closed = λ closed. rest.closed (first.closed closed);
      },
      λ entry here. elim here [
        | inl same ↦ subst (λ x. Known h (node_of segment x)) same (rest.kept _ itself)
        | inr there ↦ later entry there
      ],
    )

context_caller-Closed :
    (P : CallNode → Type 0) (n : CallNode) (c : ContractCall)
    → P n
    → (adjacencies : Dict CallNode (List CallNode)) (caller : CallNode × Bool)
      (next : Dict CallNode (List CallNode))
    → Closed P adjacencies
    → context_caller n c adjacencies caller ≡ ok next
    → Closed P next
unfolding context_caller
context_caller-Closed P n c p adjacencies (caller, guaranteed) next closed e =
    let (_, e₁) =
      fail_if-eq-ok (guaranteed && is_some c.fallible_transcript)
        (fallible_in_guaranteed_context_violation caller n) _ e in
    let (_, e₂) =
      fail_if-eq-ok (not guaranteed && is_some c.guaranteed_transcript)
        (guaranteed_in_fallible_context_violation caller n) _ e₁ in
    subst (Closed P) (ok-injective e₂) (push-Closed P caller n adjacencies closed p)

module _ (E : Environment) where
  context-Closed :
      (P : CallNode → Type 0) (segment : ℕ) (callers : Callers) (calls : List (ℕ × ContractCall))
      (adjacencies next : Dict CallNode (List CallNode))
      → ((entry : ℕ × ContractCall) → Member entry calls → P (node_of segment entry))
      → Closed P adjacencies
      → try_fold (context_call E segment callers) adjacencies calls ≡ ok next
      → Closed P next
  unfolding try_fold context_call
  context-Closed P segment callers [] adjacencies next known closed e =
      subst (Closed P) (ok-injective e) closed
  context-Closed P segment callers ((cid, c) ∷ calls) adjacencies next known closed e =
      let (mid, e₁, e₂) = >>=-eq-ok (context_call E segment callers adjacencies (cid, c)) _ e in
      let n = node_of segment (cid, c) in
      context-Closed P segment callers calls mid next (λ entry there. known entry (inr there))
        (try_fold-inv (Closed P) (context_caller n c)
          (context_caller-Closed P n c (known (cid, c) (inl refl))) adjacencies mid _ closed e₁)
        e₂

  check_intent-Closed :
      (g : CallGraph) (entry : ℕ × Intent) (h : CallGraph)
      → Closed (Known g) g.adjacencies
      → check_intent E g entry ≡ ok h
      → Closed (Known h) h.adjacencies
  unfolding check_intent relate_nodes sequencing_context_check
  check_intent-Closed g (segment, intent) h closed e =
      let calls = as_indexed_from 0 intent.actions in
      let (_, _, e₁) = >>=-eq-ok (check_places E calls) _ e in
      let (related, e₂, e₃) = >>=-eq-ok (relate_nodes segment g calls) _ e₁ in
      let (adjacencies, e₄, e₅) =
        >>=-eq-ok (sequencing_context_check E segment related.0.adjacencies calls related.1) _ e₃ in
      let (grows, known) = fold-Grows segment g related.0 [] related.1 calls e₂ in
      subst (λ x. Closed (Known x) (CallGraph.adjacencies x)) (ok-injective e₅)
        (context-Closed (Known related.0) segment related.1 calls related.0.adjacencies adjacencies
          known (grows.closed closed) e₄)

  build_graph-Closed :
      (tx : StandardTransaction) (g : CallGraph)
      → build_graph E tx ≡ ok g
      → Closed (Known g) g.adjacencies
  unfolding build_graph lookup
  build_graph-Closed tx g e =
      try_fold-inv (λ x. Closed (Known x) (CallGraph.adjacencies x)) (check_intent E)
        (check_intent-Closed) _ g (sorted_iter tx.intents) (λ a b nowhere. elim nowhere [ ]) e

  -- A transaction that passes the check of sequencing has a graph of calls in which no call with a
  -- guaranteed part comes after a call with a fallible part, directly or through other calls.
  pub sequencing_check-causal :
      (tx : StandardTransaction)
      → sequencing_check E tx ≡ ok tt
      → (g : CallGraph) × (build_graph E tx ≡ ok g)
        × ((a b : CallNode)
            → Member a g.fallible_calls
            → Reaches g.adjacencies a b
            → contains_key b g.guaranteed_calls ≡ false)
  unfolding sequencing_check
  sequencing_check-causal tx e =
      let (g, built, checked) = >>=-eq-ok (build_graph E tx) _ e in
      (
        g,
        built,
        causality_check-closed g.guaranteed_calls g.fallible_calls g.adjacencies checked
            (build_graph-Closed tx g built),
      )
