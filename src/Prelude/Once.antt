-- ===== src/Prelude/Once.antt =====
-- Steps that make a thing happen at most once: a test of the state that stays true, and items that
-- are only taken while it is false and then make it true.
use midnight_ledger.Prelude.Tests.{Bool-cases, if◌then◌else◌}
use midnight_ledger.Prelude.Lists.{any}
use midnight_ledger.Prelude.Results.{Result, ok, try_fold, >>=-eq-ok, ok-injective}
use mathlib.Core.Path.{◌≡◌, refl, sym, ap, ◌∙◌}
use mathlib.Core.Logic.{inl, inr}
use mathlib.Core.Bool.{Bool, true, false}
use mathlib.Core.List.{List, [], ◌∷◌}

module _ {ℓ} {S : Type ℓ} (done : S → Bool) where
  abbrev pub StaysDone : S → S → Type 0
  StaysDone s t = done s ≡ true → done t ≡ true

  abbrev pub BecomesDone : Bool → S → S → Type 0
  BecomesDone hit s t = hit ≡ true → (done s ≡ false) × (done t ≡ true)

  pub BecomesDone-then :
      (hit more : Bool) (s m t : S)
      → (StaysDone s m × BecomesDone hit s m)
      → (StaysDone m t × BecomesDone more m t)
      → StaysDone s t × BecomesDone (if hit then true else more) s t
  BecomesDone-then true more s m t (k1, b1) (k2, b2) =
      (λ p. k2 (k1 p), λ _. ((b1 refl).0, k2 (b1 refl).1))
  BecomesDone-then false more s m t (k1, b1) (k2, b2) = (
    λ p. k2 (k1 p),
    λ h. (
      elim (Bool-cases (done s)) [ inl p ↦ let a = k1 p in let b = (b2 h).0 in cc | inr p ↦ p ],
      (b2 h).1,
    ),
  )

  pub try_fold-once {κ μ} :
      {E : Type κ} {A : Type μ} (hit : A → Bool) (f : S → A → Result E S)
      → ((s : S) (x : A) (t : S) → f s x ≡ ok t → StaysDone s t × BecomesDone (hit x) s t)
      → (s t : S) (xs : List A) → try_fold f s xs ≡ ok t
      → StaysDone s t × BecomesDone (any hit xs) s t
  unfolding try_fold
  try_fold-once hit f step s t [] e = (λ p. ap done (sym (ok-injective e)) ∙ p, λ h. cc)
  try_fold-once hit f step s t (x ∷ xs) e =
      let (m, e1, e2) = >>=-eq-ok (f s x) (λ m. try_fold f m xs) e in
      BecomesDone-then (hit x) (any hit xs) s m t (step s x m e1)
        (try_fold-once hit f step m t xs e2)
