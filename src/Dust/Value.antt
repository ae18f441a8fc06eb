-- ===== src/Dust/Value.antt =====
-- The value of a dust output over time (`DustOutput::updated_value` of ledger/src/dust.rs).
use native.Mathlib.Nat.{add-mul, zero-mul}
use midnight_ledger.Prelude.{
  ℕ, ◌+◌, ◌-◌, ◌*◌, ◌^◌, min, ◌≤◌, ◌<◌, ◌≡◌, arith, inl, inr, ap, ltb, ltb→lt, ltb→ge, Bool-cases,
}
use midnight_ledger.Ledger.{saturating_add}
use midnight_ledger.Dust.{
  DustParameters, DustOutput, DustGenerationInfo, updated_value, saturating_mul,
}

-- The output that replaces another one at a time, with what it was worth then.
abbrev pub renewed : DustOutput → DustGenerationInfo → ℕ → DustParameters → DustOutput
renewed o info t params = record o { initial_value = updated_value o info t params; ctime = t }

-- A value that grows by A to the cap and then by B to the cap, in amounts that saturate at M.
grown_twice :
    (A B init V M : ℕ)
    → V ≤ M
    → min (min (min B M + (min (min (min A M + init) M) V - min 0 M)) M) V
      ≡ min (min (min (A + B) M + init) M) V
grown_twice A B init V M h = omega (arith, h)

-- The value at a time, by the rate r, the cap V, the end D, the start c and the initial value.
abbrev value_at : ℕ → ℕ → ℕ → ℕ → ℕ → ℕ → ℕ
value_at r V D c init t =
    min (saturating_add (saturating_mul (min D t - c) r) init) V - saturating_mul (t - D) r

value_at-early :
    (r V D c init t u : ℕ)
    → V < 2 ^ 128
    → c ≤ t
    → t ≤ u
    → t ≤ D
    → value_at r V D t (value_at r V D c init t) u ≡ value_at r V D c init u
value_at-early r V D c init t u hV hc hu hD =
    let first : min D t - c ≡ t - c = omega (arith, hD) in
    let none_yet : t - D ≡ 0 = omega (arith, hD) in
    let both : min D u - c ≡ (t - c) + (min D u - t) = omega (arith, hc, hu, hD) in
    rw (first, none_yet, both, add-mul (t - c) (min D u - t) r, zero-mul r)
      (ap (λ x. x - saturating_mul (u - D) r)
        (grown_twice ((t - c) * r) ((min D u - t) * r) init V (2 ^ 128 - 1) (omega (arith, hV))))

value_at-late :
    (r V D c init t u : ℕ)
    → D < t
    → t ≤ u
    → value_at r V D t (value_at r V D c init t) u ≤ value_at r V D c init u
value_at-late r V D c init t u hD hu =
    let none_more : min D u - t ≡ 0 = omega (arith, hD) in
    let same : min D t - c ≡ D - c = omega (arith, hD) in
    let same' : min D u - c ≡ D - c = omega (arith, hD, hu) in
    rw (none_more, same, same', zero-mul r) (omega arith)

-- As long as the NIGHT behind it is unspent, an output that is replaced, at no fee, by one of what
-- it is worth is worth the same from then on.
updated_value-renewed :
    (o : DustOutput) (info : DustGenerationInfo) (params : DustParameters) (t u : ℕ)
    → o.ctime ≤ t
    → t ≤ u
    → t ≤ info.dtime
    → updated_value (renewed o info t params) info u params ≡ updated_value o info u params
unfolding updated_value
updated_value-renewed o info params t u hc hu hD =
    value_at-early _ _ info.dtime o.ctime o.initial_value t u (omega arith) hc hu hD

-- If an output is replaced, at its creation time or later, by one of what it is worth then, the new
-- one is from then on never worth more than the old one would be.
pub updated_value-no_gain :
    (o : DustOutput) (info : DustGenerationInfo) (params : DustParameters) (t u : ℕ)
    → o.ctime ≤ t
    → t ≤ u
    → updated_value (renewed o info t params) info u params ≤ updated_value o info u params
unfolding updated_value
updated_value-no_gain o info params t u hc hu = elim (Bool-cases (ltb info.dtime t)) [
  | inl late ↦ value_at-late _ _ info.dtime o.ctime o.initial_value t u (ltb→lt _ _ late) hu
  | inr early ↦
      let same = updated_value-renewed o info params t u hc hu (ltb→ge _ _ early) in
      rw same (omega arith)
]
