-- ===== src/Dust/Backing.antt =====
-- The indices of NIGHT and the entries of the generation tree, along sequences of the operations on
-- the dust state (ledger/src/dust.rs and ledger/src/semantics.rs).
use midnight_ledger.Prelude.{
  ℕ, ◌^◌, ◌<◌, ◌≡◌, refl, Bool, true, false, not, Option, some, List, [], ◌∷◌, ◌==◌, if◌then◌else◌,
  ok, try_fold, >>=-eq-ok, ok-injective, map_err, map_err-eq-ok, fail_if-eq-ok, some-injective, ◌-◌,
  subst, Bool-cases, inl, inr, Option-cases, is_some, All, arith, nat_eq,
}
use midnight_ledger.Prelude.Dict.{Dict, lookup, insert, contains_key}
use midnight_ledger.MerkleTree.{MerkleTreeNode, index, height, try_update_hash, rehash}
use midnight_ledger.MerkleTree.Shape.{WellFormed, rehash-Shape, try_update_hash-Shape}
use midnight_ledger.MerkleTree.Index.{index-try_update_hash, try_update_hash-bound}
use midnight_ledger.MerkleTree.Membership.{index-rehash}
use midnight_ledger.Ledger.{night}
use midnight_ledger.Dust.{
  DustState, DustGenerationInfo, DustSpend, UtxoSpend, Hashes, merkle_tree_error, apply_spend,
  fresh_dust_output, post_block_update, uniqueness, uniqueness_eq, spend_nonce, new,
}
use midnight_ledger.Dust.CNight.{CNightEvent, destroy_night}
use midnight_ledger.Dust.Offer.{end_generation}
use midnight_ledger.Dust.Steps.{DustStep, take_step, run-P}

-- Predicates on the values of a map.
module _ (Q : ℕ → Type 0) where
  All-insert : (k v : ℕ) (m : Dict ℕ ℕ) → Q v → All (λ e. Q e.1) m → All (λ e. Q e.1) (insert k v m)
  unfolding insert
  All-insert k v [] q h = (q, tt)
  All-insert k v ((j, w) ∷ m) q h = elim (Bool-cases (j == k)) [
    | inl e ↦ rw e (q, h.1)
    | inr e ↦ rw e (h.0, All-insert k v m q h.1)
  ]

  All-weaken :
      (R : ℕ → Type 0)
      → ((v : ℕ) → Q v → R v)
      → (m : Dict ℕ ℕ) → All (λ e. Q e.1) m
      → All (λ e. R e.1) m
  All-weaken R f [] h = tt
  All-weaken R f ((j, w) ∷ m) h = (f w h.0, All-weaken R f m h.1)

  lookup-All : (k v : ℕ) (m : Dict ℕ ℕ) → All (λ e. Q e.1) m → lookup k m ≡ some v → Q v
  unfolding lookup
  lookup-All k v [] h e = cc
  lookup-All k v ((j, w) ∷ m) h e = elim (Bool-cases (j == k)) [
    | inl p ↦ let q : w ≡ v = some-injective (rw (lookup, p) at e) in subst Q q h.0
    | inr p ↦ lookup-All k v m h.1 (rw (lookup, p) at e)
  ]

-- An index of a tree of height 32 that has an entry.
abbrev Backed : MerkleTreeNode DustGenerationInfo → ℕ → Type 0
Backed t i = (i < 2 ^ height t) × (is_some (index t i) ≡ true)

abbrev pub IsBacked : DustState → Type 0
IsBacked s =
    WellFormed s.generation.generating_tree
    × All (λ e. Backed s.generation.generating_tree e.1) s.generation.night_indices

if_some :
    {A : Type 0} (b : Bool) (x : A) (o : Option A)
    → is_some o ≡ true
    → is_some (if b then some x else o) ≡ true
if_some true x o h = refl
if_some false x o h = h

if_same :
    {A : Type 0} (i : ℕ) (x : A) (o : Option A) → is_some (if i == i then some x else o) ≡ true
if_same i x o = ground arith

-- A write backs its index, and leaves the others backed.
module _ (t u : MerkleTreeNode DustGenerationInfo) (i v : ℕ) (a : DustGenerationInfo)
    (w : WellFormed t) (e : try_update_hash t i v a ≡ ok u) where
  write-Backed : (j : ℕ) → Backed t j → Backed u j
  write-Backed j b =
      let same = (try_update_hash-Shape t u i v a w e).0 in
      (
        rw same b.0,
        rw (index-try_update_hash t u i j v a w b.0 e) (if_some (i == j) (v, a) (index t j) b.1),
      )

  written-Backed : Backed u i
  written-Backed =
      let same = (try_update_hash-Shape t u i v a w e).0 in
      let b = try_update_hash-bound t u i v a e in
      (rw same b, rw (index-try_update_hash t u i i v a w b e) (if_same i (v, a) (index t i)))

module _ (H : Hashes) where
  fresh-IsBacked :
      (s : DustState) (nonce initial value addr tnow : ℕ) (t : DustState)
      → IsBacked s
      → fresh_dust_output H s nonce initial value addr tnow ≡ ok t
      → IsBacked t
  unfolding fresh_dust_output
  fresh-IsBacked s nonce initial value addr tnow t (w, all) h =
      let g = s.generation in
      let info : DustGenerationInfo = record {
        value = value;
        owner = addr;
        nonce = nonce;
        dtime = 2 ^ 64 - 1;
      } in
      let (tree, _, h₁) =
        >>=-eq-ok
          (map_err merkle_tree_error (
            try_update_hash s.utxo.commitments s.utxo.commitments_first_free
              (H.commitment initial addr (H.dust_first_nonce nonce addr) tnow) tt))
          _ h in
      let (_, h₂) = fail_if-eq-ok (contains_key (uniqueness info) g.generating_set) _ _ h₁ in
      let (u, e, h₃) =
        >>=-eq-ok
          (map_err merkle_tree_error (
            try_update_hash g.generating_tree g.generating_tree_first_free (H.merkle_hash info)
              info))
          _ h₂ in
      let e' = map_err-eq-ok merkle_tree_error _ e in
      let i = g.generating_tree_first_free in
      subst IsBacked (ok-injective h₃) (
        (try_update_hash-Shape g.generating_tree u i _ info w e').1,
        All-insert (Backed u) nonce i g.night_indices
            (written-Backed g.generating_tree u i _ info w e')
            (All-weaken (Backed g.generating_tree) (Backed u)
              (write-Backed g.generating_tree u i _ info w e') g.night_indices all),
      )

  end-IsBacked :
      (tblock : ℕ) (s : DustState) (input : UtxoSpend) (t : DustState)
      → IsBacked s
      → end_generation H tblock s input ≡ ok t
      → IsBacked t
  unfolding end_generation
  end-IsBacked tblock s input t (w, all) h = elim (Bool-cases (not (input.type_ == night))) [
    | inl other ↦ subst IsBacked (ok-injective (rw (end_generation, other) at h)) (w, all)
    | inr nights ↦ elim (Option-cases (lookup (spend_nonce H input) s.generation.night_indices)) [
      | inl e ↦ subst IsBacked (ok-injective (rw (end_generation, nights, e) at h)) (w, all)
      | inr (i, e) ↦ elim (Option-cases (index s.generation.generating_tree i)) [
        | inl f ↦ subst IsBacked (ok-injective (rw (end_generation, nights, e, f) at h)) (w, all)
        | inr (found, f) ↦
            let g = s.generation in
            let info : DustGenerationInfo = record found.1 { dtime = tblock } in
            let (u, k, h₁) =
              >>=-eq-ok
                (map_err merkle_tree_error
                  (try_update_hash g.generating_tree i (H.merkle_hash info) info))
                _ (rw (end_generation, nights, e, f) at h) in
            let k' = map_err-eq-ok merkle_tree_error _ k in
            subst IsBacked (ok-injective h₁) (
              (try_update_hash-Shape g.generating_tree u i _ info w k').1,
              All-weaken (Backed g.generating_tree) (Backed u)
                  (write-Backed g.generating_tree u i _ info w k') g.night_indices all,
            )
      ]
    ]
  ]

  rehash-Backed :
      (t : MerkleTreeNode DustGenerationInfo)
      → WellFormed t
      → (j : ℕ) → Backed t j
      → Backed (rehash H.hashing t) j
  rehash-Backed t w j b =
      (rw (rehash-Shape H.hashing t w).0 b.0, rw (index-rehash H.hashing t j) b.1)

  destroy-IsBacked :
      (s : DustState) (event : CNightEvent) (t : DustState)
      → IsBacked s
      → destroy_night H s event ≡ ok t
      → IsBacked t
  unfolding destroy_night
  destroy-IsBacked s event t (w, all) h =
      elim (Option-cases (lookup event.nonce s.generation.night_indices)) [
        | inl e ↦ subst IsBacked (ok-injective (rw (destroy_night, e) at h)) (w, all)
        | inr (i, e) ↦ elim (Option-cases (index s.generation.generating_tree i)) [
          | inl f ↦ subst IsBacked (ok-injective (rw (destroy_night, e, f) at h)) (w, all)
          | inr (found, f) ↦
              let g = s.generation in
              let info : DustGenerationInfo = record found.1 { dtime = event.time } in
              let (u, k, h₁) =
                >>=-eq-ok
                  (map_err merkle_tree_error
                    (try_update_hash g.generating_tree i (H.merkle_hash info) info))
                  _ (rw (destroy_night, e, f) at h) in
              let k' = map_err-eq-ok merkle_tree_error _ k in
              let written = (try_update_hash-Shape g.generating_tree u i _ info w k').1 in
              subst IsBacked (ok-injective h₁) (
                (rehash-Shape H.hashing u written).1,
                All-weaken (Backed u) (Backed (rehash H.hashing u)) (rehash-Backed u written)
                    g.night_indices
                    (All-weaken (Backed g.generating_tree) (Backed u)
                      (write-Backed g.generating_tree u i _ info w k') g.night_indices all),
              )
        ]
      ]

  spend-IsBacked :
      (s : DustState) (x : DustSpend) (t : DustState)
      → IsBacked s
      → apply_spend s x ≡ ok t
      → IsBacked t
  unfolding apply_spend
  spend-IsBacked s x t b h =
      let (_, h₁) = fail_if-eq-ok (contains_key x.old_nullifier s.utxo.nullifiers) _ _ h in
      let (tree, _, h₂) =
        >>=-eq-ok
          (map_err merkle_tree_error
            (try_update_hash s.utxo.commitments s.utxo.commitments_first_free x.new_commitment tt))
          _ h₁ in
      subst IsBacked (ok-injective h₂) b

  block-IsBacked :
      (s : DustState) (tblock ttl : ℕ) → IsBacked s → IsBacked (post_block_update H s tblock ttl)
  unfolding post_block_update
  block-IsBacked s tblock ttl (w, all) =
      let t = s.generation.generating_tree in
      let shape = rehash-Shape H.hashing t w in
      (
        shape.1,
        All-weaken (Backed t) (Backed (rehash H.hashing t)) (rehash-Backed t w)
            s.generation.night_indices all,
      )

  -- In every state that spends, registrations, offers, events of NIGHT on Cardano, claims and blocks
  -- reach from the empty one, the index of a piece of NIGHT has an entry in the generation tree: the
  -- branches of `apply_offer` and of `CNightGeneratesDustUpdate` that the source marks as a violated
  -- invariant are not taken.
  pub night_indices-backed :
      (steps : List DustStep) (s : DustState) (nonce idx : ℕ)
      → try_fold (take_step H) new steps ≡ ok s
      → lookup nonce s.generation.night_indices ≡ some idx
      → is_some (index s.generation.generating_tree idx) ≡ true
  night_indices-backed steps s nonce idx h e =
      let b =
        run-P H IsBacked fresh-IsBacked end-IsBacked destroy-IsBacked (λ s d p. p) spend-IsBacked
          block-IsBacked new s steps (tt, tt) h in
      (lookup-All (Backed s.generation.generating_tree) nonce idx s.generation.night_indices b.1
        e).1
