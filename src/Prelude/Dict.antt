-- ===== src/Prelude/Dict.antt =====
-- The maps of storage/src/storage.rs (`Map`, `HashMap`) as association lists over keys with a
-- decided equality, and the total of a weight over the entries (an annotation of the trie).
use midnight_ledger.Prelude.{
  ℕ, ◌+◌, ◌≤◌, ◌≡◌, refl, Bool, true, false, Option, none, some, List, [], ◌∷◌, arith, Eq,
  if◌then◌else◌, is_some, length,
}

abbrev pub Dict {ℓ κ} : Type ℓ → Type κ → Type (ℓ ⊔ κ)
Dict K V = List (K × V)

module _ {ℓ κ} {K : Type ℓ} {V : Type κ} where
  -- The sum of a weight over the entries.
  unfoldable pub total : (K → V → ℕ) → Dict K V → ℕ
  total w [] = 0
  total w ((k, v) ∷ m) = w k v + total w m

module _ {ℓ κ} {K : Type ℓ} {V : Type κ} ⦃e : Eq K⦄ where
  unfoldable pub lookup : K → Dict K V → Option V
  lookup k [] = none
  lookup k ((j, v) ∷ m) = if e.beq j k then some v else lookup k m

  abbrev pub contains_key : K → Dict K V → Bool
  contains_key k m = is_some (lookup k m)

  -- The key is put where it stood, or at the end.
  unfoldable pub insert : K → V → Dict K V → Dict K V
  insert k v [] = (k, v) ∷ []
  insert k v ((j, w) ∷ m) = if e.beq j k then (k, v) ∷ m else (j, w) ∷ insert k v m

  unfoldable pub erase : K → Dict K V → Dict K V
  erase k [] = []
  erase k ((j, w) ∷ m) = if e.beq j k then m else (j, w) ∷ erase k m

  -- No key is listed twice.
  abbrev pub IsDict : Dict K V → Type 0
  IsDict [] = Unit
  IsDict ((k, v) ∷ m) = (contains_key k m ≡ false) × IsDict m

  pub lookup-insert :
      (k j : K) (v : V) (m : Dict K V)
      → lookup j (insert k v m) ≡ (if e.beq k j then some v else lookup j m)
  unfolding lookup insert
  lookup-insert k j v [] = refl
  lookup-insert k j v ((i, w) ∷ m) =
      ground (arith, e.beq_iff k j, e.beq_iff i k, e.beq_iff i j, lookup-insert k j v m)

  pub lookup-insert_self : (k : K) (v : V) (m : Dict K V) → lookup k (insert k v m) ≡ some v
  lookup-insert_self k v m = ground (arith, e.beq_iff k k, lookup-insert k k v m)

  pub lookup-erase_ne :
      (k j : K) (m : Dict K V) → e.beq k j ≡ false → lookup j (erase k m) ≡ lookup j m
  unfolding lookup erase
  lookup-erase_ne k j [] h = refl
  lookup-erase_ne k j ((i, w) ∷ m) h =
      ground (arith, e.beq_iff i k, e.beq_iff i j, e.beq_iff k j, lookup-erase_ne k j m h)

  pub lookup-erase_self : (k : K) (m : Dict K V) → IsDict m → lookup k (erase k m) ≡ none
  unfolding lookup erase
  lookup-erase_self k [] h = refl
  lookup-erase_self k ((i, w) ∷ m) h = ground (arith, e.beq_iff i k, lookup-erase_self k m h.1)

  pub insert-IsDict : (k : K) (v : V) (m : Dict K V) → IsDict m → IsDict (insert k v m)
  unfolding insert lookup
  insert-IsDict k v [] h = (refl, tt)
  insert-IsDict k v ((i, w) ∷ m) h =
      ground (arith, e.beq_iff i k, e.beq_iff k i, lookup-insert k i v m, insert-IsDict k v m h.1)

  pub erase-IsDict : (k : K) (m : Dict K V) → IsDict m → IsDict (erase k m)
  unfolding erase
  erase-IsDict k [] h = tt
  erase-IsDict k ((i, w) ∷ m) h =
      ground (arith, e.beq_iff i k, e.beq_iff k i, lookup-erase_ne k i m, erase-IsDict k m h.1)

  module _ (w : K → V → ℕ) where
    pub total-insert-some :
        (k : K) (v u : V) (m : Dict K V)
        → lookup k m ≡ some u
        → total w (insert k v m) + w k u ≡ total w m + w k v
    unfolding lookup insert total
    total-insert-some k v u [] h = cc
    total-insert-some k v u ((i, x) ∷ m) h =
        ground (arith, e.beq_iff i k, total-insert-some k v u m)

    pub total-insert-none :
        (k : K) (v : V) (m : Dict K V)
        → lookup k m ≡ none
        → total w (insert k v m) ≡ total w m + w k v
    unfolding lookup insert total
    total-insert-none k v [] h = omega arith
    total-insert-none k v ((i, x) ∷ m) h = ground (arith, e.beq_iff i k, total-insert-none k v m)

    pub total-erase-some :
        (k : K) (u : V) (m : Dict K V)
        → lookup k m ≡ some u
        → total w (erase k m) + w k u ≡ total w m
    unfolding lookup erase total
    total-erase-some k u [] h = cc
    total-erase-some k u ((i, x) ∷ m) h = ground (arith, e.beq_iff i k, total-erase-some k u m)

    pub total-erase-none :
        (k : K) (m : Dict K V) → lookup k m ≡ none → total w (erase k m) ≡ total w m
    unfolding lookup erase total
    total-erase-none k [] h = refl
    total-erase-none k ((i, x) ∷ m) h = ground (arith, e.beq_iff i k, total-erase-none k m)

    pub weight-le-total : (k : K) (u : V) (m : Dict K V) → lookup k m ≡ some u → w k u ≤ total w m
    weight-le-total k u m h = omega (arith, total-erase-some k u m h)

  pub length-insert :
      (k : K) (v : V) (m : Dict K V)
      → length (insert k v m) ≡ length m + (if contains_key k m then 0 else 1)
  unfolding insert lookup
  length-insert k v [] = refl
  length-insert k v ((j, w) ∷ m) = ground (arith, length-insert k v m)

  pub contains_key-insert :
      (k j : K) (v : V) (m : Dict K V)
      → contains_key j (insert k v m) ≡ (if e.beq k j then true else contains_key j m)
  contains_key-insert k j v m = ground (arith, lookup-insert k j v m)
