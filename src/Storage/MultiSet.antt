-- ===== src/Storage/MultiSet.antt =====
-- `MultiSet` of storage/src/storage.rs: elements with a `u32` quantity.
use midnight_ledger.Prelude.{
  ℕ, ◌+◌, ◌-◌, ◌%◌, ◌^◌, ◌<◌, ◌≡◌, Bool, arith, ltb, ◌==◌, if◌then◌else◌, Eq, unwrap_or,
}
use midnight_ledger.Prelude.Dict.{
  Dict, lookup, insert as insert_key, erase, contains_key, IsDict, lookup-insert, lookup-erase_ne,
  lookup-erase_self, insert-IsDict, erase-IsDict,
}

module _ {ℓ} {V : Type ℓ} ⦃e : Eq V⦄ where
  unfoldable pub count : V → Dict V ℕ → ℕ
  count v s = unwrap_or (lookup v s) 0

  unfoldable pub member : V → Dict V ℕ → Bool
  member v s = contains_key v s

  unfoldable pub insert : V → Dict V ℕ → Dict V ℕ
  unfolding count
  insert v s = insert_key v ((count v s + 1) % 2 ^ 32) s

  unfoldable pub remove_n : V → ℕ → Dict V ℕ → Dict V ℕ
  unfolding count
  remove_n v n s =
      let result = count v s - n in if result == 0 then erase v s else insert_key v result s

  unfoldable pub remove : V → Dict V ℕ → Dict V ℕ
  unfolding remove_n
  remove v s = remove_n v 1 s

  -- `MultiSet::invariant`: no element has the quantity zero, and no element is listed twice.
  pub record IsMultiSet (s : Dict V ℕ) : Type ℓ where
    pub dict : IsDict s
    pub positive : (v : V) → member v s ≡ ltb 0 (count v s)

  pub count-insert :
      (v w : V) (s : Dict V ℕ)
      → count v s + 1 < 2 ^ 32
      → count w (insert v s) ≡ (if e.beq v w then count w s + 1 else count w s)
  unfolding count insert
  count-insert v w s b =
      ground (arith, lookup-insert v w ((count v s + 1) % 2 ^ 32) s, e.beq_iff v w)

  pub count-remove :
      (v w : V) (s : Dict V ℕ)
      → IsDict s
      → count w (remove v s) ≡ (if e.beq v w then count w s - 1 else count w s)
  unfolding count remove
  count-remove v w s d = ground (
    arith,
    lookup-insert v w (count v s - 1) s,
    lookup-erase_ne v w s,
    lookup-erase_self v s d,
    e.beq_iff v w,
  )

  pub insert-IsMultiSet :
      (v : V) (s : Dict V ℕ) → count v s + 1 < 2 ^ 32 → IsMultiSet s → IsMultiSet (insert v s)
  unfolding insert count member
  insert-IsMultiSet v s b m = record {
    dict = insert-IsDict v _ s m.dict;
    positive = λ w. ground (arith, lookup-insert v w ((count v s + 1) % 2 ^ 32) s, m.positive w);
  }

  pub remove-IsMultiSet : (v : V) (s : Dict V ℕ) → IsMultiSet s → IsMultiSet (remove v s)
  unfolding remove count member
  remove-IsMultiSet v s m = record {
    dict =
        ground
          (arith, insert-IsDict v (unwrap_or (lookup v s) 0 - 1) s m.dict, erase-IsDict v s m.dict);
    positive = λ w. ground (
      arith,
      lookup-insert v w (unwrap_or (lookup v s) 0 - 1) s,
      lookup-erase_ne v w s,
      lookup-erase_self v s m.dict,
      e.beq_iff v w,
      m.positive w,
    );
  }
