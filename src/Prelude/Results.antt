-- ===== src/Prelude/Results.antt =====
-- Rust's `Result<A, E>` with the `?` operator as `>>=`, and `try_fold`.
use mathlib.Core.Path.{◌≡◌, refl, subst}
use mathlib.Core.Bool.{Bool, true, false}
use mathlib.Core.Logic.{◌⊎◌, inl, inr}
use mathlib.Core.Option.{Option, none, some}
use mathlib.Core.List.{List, [], ◌∷◌}

pub data Result {ℓ κ} (E : Type ℓ) (A : Type κ) : Type (ℓ ⊔ κ) where
  ok : A → Result E A
  err : E → Result E A

infixl 5 ◌>>=◌ ◌>>◌
abbrev pub ◌>>=◌ {ℓ κ μ} :
    {E : Type ℓ} {A : Type κ} {B : Type μ} → Result E A → (A → Result E B) → Result E B
ok a >>= f = f a
err e >>= f = err e

abbrev pub ◌>>◌ {ℓ κ} : {E : Type ℓ} {B : Type κ} → Result E (Unit {0}) → Result E B → Result E B
m >> k = m >>= λ _. k

-- An early `return Err(e)` when the test holds.
abbrev pub fail_if {ℓ} : {E : Type ℓ} → Bool → E → Result E (Unit {0})
fail_if true e = err e
fail_if false e = ok tt

-- `Option::ok_or`
abbrev pub ok_or {ℓ κ} : {E : Type ℓ} {A : Type κ} → Option A → E → Result E A
ok_or none e = err e
ok_or (some a) e = ok a

-- `Result::map_err`
abbrev pub map_err {ℓ κ μ} :
    {E : Type ℓ} {F : Type κ} {A : Type μ} → (E → F) → Result E A → Result F A
map_err f (ok a) = ok a
map_err f (err e) = err (f e)

abbrev pub is_ok {ℓ κ} : {E : Type ℓ} {A : Type κ} → Result E A → Bool
is_ok (ok _) = true
is_ok (err _) = false

-- `Iterator::try_fold`
unfoldable pub try_fold {ℓ κ μ} :
    {E : Type ℓ} {S : Type κ} {A : Type μ} → (S → A → Result E S) → S → List A → Result E S
try_fold f s [] = ok s
try_fold f s (x ∷ xs) = f s x >>= λ s'. try_fold f s' xs

-- The inversion of a successful bind.
pub >>=-eq-ok {ℓ κ μ} :
    {E : Type ℓ} {A : Type κ} {B : Type μ} (step : Result E A) (next : A → Result E B) {out : B}
    → (step >>= next) ≡ ok out
    → (mid : A) × (step ≡ ok mid) × (next mid ≡ ok out)
>>=-eq-ok (err failure) next h = cc
>>=-eq-ok (ok mid) next h = (mid, refl, h)

pub ok-injective {ℓ κ} :
    {E : Type ℓ} {A : Type κ} {a b : A} → ◌≡◌ {A = Result E A} (ok a) (ok b) → a ≡ b
ok-injective e = cc

-- A bind that goes on with a success succeeds when its first step does.
pub is_ok-bind_ok {ℓ κ μ} :
    {E : Type ℓ} {A : Type κ} {B : Type μ} (m : Result E A) (f : A → B)
    → is_ok (m >>= λ a. ok (f a)) ≡ is_ok m
is_ok-bind_ok (ok a) f = refl
is_ok-bind_ok (err e) f = refl

-- An invariant of the step is an invariant of the fold.
pub try_fold-inv {ℓ κ μ ν} :
    {E : Type ℓ} {S : Type κ} {A : Type μ} (P : S → Type ν) (f : S → A → Result E S)
    → ((s : S) (a : A) (t : S) → P s → f s a ≡ ok t → P t)
    → (s t : S) (xs : List A) → P s
    → try_fold f s xs ≡ ok t
    → P t
unfolding try_fold
try_fold-inv P f keep s t [] h e = subst P (ok-injective e) h
try_fold-inv P f keep s t (x ∷ xs) h e =
    let (s', e1, e2) = >>=-eq-ok (f s x) (λ s'. try_fold f s' xs) e in
    try_fold-inv P f keep s' t xs (keep s x s' h e1) e2

pub map_err-eq-ok {ℓ κ μ} :
    {E : Type ℓ} {F : Type κ} {A : Type μ} (f : E → F) (m : Result E A) {a : A}
    → map_err f m ≡ ok a
    → m ≡ ok a
map_err-eq-ok f (ok a) h = cc
map_err-eq-ok f (err e) h = cc

-- The inversion of a passed guard.
pub fail_if-eq-ok {ℓ κ} :
    {E : Type ℓ} {B : Type κ} (b : Bool) (e : E) (k : Result E B) {r : B}
    → (fail_if b e >> k) ≡ ok r
    → (b ≡ false) × (k ≡ ok r)
fail_if-eq-ok true e k h = cc
fail_if-eq-ok false e k h = (refl, h)

pub err-injective {ℓ κ} :
    {E : Type ℓ} {A : Type κ} {a b : E} → ◌≡◌ {A = Result E A} (err a) (err b) → a ≡ b
err-injective e = cc

-- An error of a bind is one of its first step or one of its second.
pub >>=-eq-err {ℓ κ μ ν} :
    {E : Type ℓ} {A : Type κ} {B : Type μ} (P : E → Type ν) (m : Result E A) (f : A → Result E B)
    (e : E)
    → ((e : E) → m ≡ err e → P e)
    → ((a : A) (e : E) → m ≡ ok a → f a ≡ err e → P e)
    → (m >>= f) ≡ err e
    → P e
>>=-eq-err P (ok a) f e first second h = second a e refl h
>>=-eq-err P (err d) f e first second h = subst P (err-injective h) (first d refl)

-- An error of a fold is an error of one of its steps.
pub try_fold-err {ℓ κ μ ν} :
    {E : Type ℓ} {S : Type κ} {A : Type μ} (P : E → Type ν) (f : S → A → Result E S)
    → ((s : S) (a : A) (e : E) → f s a ≡ err e → P e)
    → (s : S) (e : E) (xs : List A) → try_fold f s xs ≡ err e
    → P e
unfolding try_fold
try_fold-err P f step s e [] h = cc
try_fold-err P f step s e (x ∷ xs) h =
    >>=-eq-err P (f s x) (λ t. try_fold f t xs) e (λ d q. step s x d q)
      (λ t d _ q. try_fold-err P f step t d xs q) h

-- A predicate on a bind, by its first step's errors and by what follows its success.
pub >>=-elim {ℓ κ μ ν} :
    {E : Type ℓ} {A : Type κ} {B : Type μ} (P : Result E B → Type ν) (m : Result E A)
    (f : A → Result E B)
    → ((e : E) → m ≡ err e → P (err e))
    → ((a : A) → m ≡ ok a → P (f a))
    → P (m >>= f)
>>=-elim P (ok a) f bad good = good a refl
>>=-elim P (err e) f bad good = bad e refl

pub map_err-eq-err {ℓ κ μ ν} :
    {E : Type ℓ} {F : Type κ} {A : Type μ} (P : F → Type ν) (f : E → F) (m : Result E A) {e : F}
    → ((d : E) → P (f d))
    → map_err f m ≡ err e
    → P e
map_err-eq-err P f (ok a) all h = cc
map_err-eq-err P f (err d) all h = subst P (err-injective h) (all d)

pub fail_if-eq-err {ℓ ν} :
    {E : Type ℓ} (P : E → Type ν) (b : Bool) (e : E) {d : E} → P e → fail_if b e ≡ err d → P d
fail_if-eq-err P true e p h = subst P (err-injective h) p
fail_if-eq-err P false e p h = cc

pub fail_if-false {ℓ} :
    {E : Type ℓ} (b : Bool) (e : E) {u : Unit {0}} → fail_if b e ≡ ok u → b ≡ false
fail_if-false true e h = cc
fail_if-false false e h = refl

pub map_err-err-is_ok {ℓ κ μ} :
    {E : Type ℓ} {F : Type κ} {A : Type μ} (f : E → F) (m : Result E A) {d : F}
    → map_err f m ≡ err d
    → is_ok m ≡ false
map_err-err-is_ok f (ok a) h = cc
map_err-err-is_ok f (err e) h = refl

pub some-injective {ℓ} : {A : Type ℓ} {a b : A} → ◌≡◌ {A = Option A} (some a) (some b) → a ≡ b
some-injective e = cc

-- What holds of a value that a result has.
abbrev pub Yields {ℓ κ ν} : {E : Type ℓ} {A : Type κ} → (A → Type ν) → Result E A → Type ν
Yields P (ok a) = P a
Yields P (err e) = Unit

pub Yields-eq-ok {ℓ κ ν} :
    {E : Type ℓ} {A : Type κ} (P : A → Type ν) (m : Result E A) {a : A}
    → Yields P m
    → m ≡ ok a
    → P a
Yields-eq-ok P (ok a) y h = subst P (ok-injective h) y
Yields-eq-ok P (err e) y h = cc

pub Yields-bind :
    {E A B : Type 0} (Q : B → Type 0) (m : Result E A) (f : A → Result E B)
    → ((a : A) → m ≡ ok a → Yields Q (f a))
    → Yields Q (m >>= f)
Yields-bind Q (ok a) f k = k a refl
Yields-bind Q (err e) f k = tt

pub Yields-map_err {ℓ κ μ ν} :
    {E : Type ℓ} {F : Type κ} {A : Type μ} (P : A → Type ν) (f : E → F) (m : Result E A)
    → Yields P m
    → Yields P (map_err f m)
Yields-map_err P f (ok a) y = y
Yields-map_err P f (err e) y = tt

pub Yields-try_fold :
    {E S A : Type 0} (P : S → Type 0) (f : S → A → Result E S)
    → ((s : S) (a : A) → P s → Yields P (f s a))
    → (s : S) (xs : List A) → P s
    → Yields P (try_fold f s xs)
unfolding try_fold
Yields-try_fold P f keep s [] p = p
Yields-try_fold P f keep s (x ∷ xs) p =
    Yields-bind P (f s x) (λ t. try_fold f t xs)
      λ t e. Yields-try_fold P f keep t xs (Yields-eq-ok P (f s x) (keep s x p) e)

pub Yields-intro {ℓ κ ν} :
    {E : Type ℓ} {A : Type κ} (P : A → Type ν) (m : Result E A)
    → ((a : A) → m ≡ ok a → P a)
    → Yields P m
Yields-intro P (ok a) h = h a refl
Yields-intro P (err e) h = tt

-- A predicate on what is made of either outcome.
pub Result-elim {ℓ κ μ ν} :
    {E : Type ℓ} {A : Type κ} {C : Type μ} (P : C → Type ν) (m : Result E A) (f : A → C) (g : E → C)
    → ((a : A) → m ≡ ok a → P (f a))
    → ((e : E) → m ≡ err e → P (g e))
    → P (elim m [ ok a ↦ f a | err e ↦ g e ])
Result-elim P (ok a) f g good bad = good a refl
Result-elim P (err e) f g good bad = bad e refl

pub Result-cases {ℓ κ} :
    {E : Type ℓ} {A : Type κ} (m : Result E A) → ((a : A) × (m ≡ ok a)) ⊎ ((e : E) × (m ≡ err e))
Result-cases (ok a) = inl (a, refl)
Result-cases (err e) = inr (e, refl)

pub is_ok-never {ℓ κ} :
    {E : Type ℓ} {A : Type κ} (m : Result E A) → ((a : A) → m ≡ ok a → ⊥) → is_ok m ≡ false
is_ok-never (ok a) never = elim (never a refl) [ ]
is_ok-never (err e) never = refl

pub is_ok-eq-ok {ℓ κ} :
    {E : Type ℓ} {A : Type κ} (m : Result E A) → is_ok m ≡ true → (a : A) × (m ≡ ok a)
is_ok-eq-ok (ok a) h = (a, refl)
is_ok-eq-ok (err e) h = cc
