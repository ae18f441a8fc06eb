-- ===== src/Prelude.antt =====
-- The names that the other modules share: the libraries', passed on, and those of the children.
mod Tests
mod Lists
mod Results
pub mod Int
pub mod Dict
pub mod Once
pub use Tests.*
pub use Lists.*
unfoldable pub use Results.*
pub use Prim.Native.Nat.{ℕ, zero, suc, ◌+◌, ◌-◌, ◌*◌, ◌/◌, ◌%◌, ◌^◌, ◌≤◌, ◌<◌, min, max}
pub use mathlib.Core.Path.{◌≡◌, refl, sym, ap, ◌∙◌, subst}
pub use mathlib.Core.Logic.{◌≢◌, ◌↔◌, ◌⊎◌, inl, inr}
pub use mathlib.Core.Bool.{Bool, true, false, ◌&&◌, ◌||◌, not}
pub use mathlib.Core.Option.{Option, none, some}
pub use mathlib.Core.List.{List, [], ◌∷◌, ◌++◌, map, foldl}
pub use native.Mathlib.Omega.{arith}

-- A fold whose step adds one to a measure adds the number of its items.
pub try_fold-counts {ℓ κ μ ν} :
    {E : Type ℓ} {S : Type κ} {A : Type μ} (P : S → Type ν) (measure : S → ℕ)
    (f : S → A → Result E S)
    → ((s : S) (a : A) (t : S) → P s → f s a ≡ ok t → P t × (measure t ≡ measure s + 1))
    → (s t : S) (xs : List A) → P s
    → try_fold f s xs ≡ ok t
    → P t × (measure t ≡ measure s + length xs)
unfolding try_fold
try_fold-counts P measure f step s t [] p e = rw (sym (ok-injective e)) (p, omega arith)
try_fold-counts P measure f step s t (x ∷ xs) p e =
    let (s', e1, e2) = >>=-eq-ok (f s x) (λ s'. try_fold f s' xs) e in
    let (p', m') = step s x s' p e1 in
    let (q, n) = try_fold-counts P measure f step s' t xs p' e2 in (q, omega arith)
