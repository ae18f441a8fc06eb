-- ===== src/Fab/Flagged.antt =====
-- Integers with two flags, as they head every serialized value and alignment
-- (`write_flagged_int` and `read_flagged_int` of base-crypto/src/fab/serialize.rs). The source's
-- disjunctions of disjoint bits are sums.
use midnight_ledger.Prelude.{
  ℕ, ◌+◌, ◌*◌, ◌/◌, ◌%◌, ◌^◌, ◌<◌, ◌≡◌, refl, Bool, true, false, Option, none, some, List, [], ◌∷◌,
  ◌++◌, ltb, leb, ◌==◌, if◌then◌else◌, length, arith, not, Result, ok, err, ◌>>=◌, Bool-cases, inl,
  inr, ltb→lt,
}
use midnight_ledger.Fab.Size.{flagged_int_size}

-- The errors of reading: the input ends, or its encoding is longer than necessary or reserved.
pub data ReadError : Type 0 where
  end_of_input too_long reserved : ReadError

-- The two flags are bits 7 and 6.
abbrev pub flag_u8 : Bool → Bool → ℕ
flag_u8 x y = (if x then 128 else 0) + (if y then 64 else 0)

-- `none` is the error of an integer out of the three-byte limit.
unfoldable pub write_flagged_int : Bool → Bool → ℕ → Option (List ℕ)
write_flagged_int x y n =
    if ltb n (2 ^ 5)
    then some ((flag_u8 x y + n) ∷ [])
    else if ltb n (2 ^ 12)
    then some ((flag_u8 x y + (32 + n % 32)) ∷ (n / 2 ^ 5) ∷ [])
    else if ltb n (2 ^ 19)
    then some ((flag_u8 x y + (32 + n % 32)) ∷ (128 + (n / 2 ^ 5) % 128) ∷ (n / 2 ^ 12) ∷ [])
    else none

abbrev read_byte : List ℕ → Result ReadError (ℕ × List ℕ)
read_byte [] = err end_of_input
read_byte (b ∷ input) = ok (b, input)

-- Bit 7 of a byte, which is below 256, and bits 6 and 5 of it.
abbrev bit7 : ℕ → Bool
bit7 b = leb 128 b

abbrev bit6 : ℕ → Bool
bit6 b = leb 64 (b % 128)

abbrev bit5 : ℕ → Bool
bit5 b = leb 32 (b % 64)

-- The flags, the integer, and the input that is left.
unfoldable pub read_flagged_int : List ℕ → Result ReadError ((Bool × Bool × ℕ) × List ℕ)
read_flagged_int input = do
  (first, input₁) ← read_byte input
  let x = bit7 first
  let y = bit6 first
  let a = first % 32
  if not (bit5 first) then ok ((x, y, a), input₁) else do
    (second, input₂) ← read_byte input₁
    let b = second % 128
    if not (bit7 second)
        then (if b == 0 then err too_long else ok ((x, y, a + b * 32), input₂))
        else do
          (third, input₃) ← read_byte input₂
          let c = third % 128
          if not (bit7 third)
              then (if c == 0 then err too_long else ok ((x, y, a + b * 32 + c * 4096), input₃))
              else err reserved

-- The parts of a first byte.
first_byte :
    (x y : Bool) (k : ℕ)
    → k < 64
    → (bit7 (flag_u8 x y + k) ≡ x)
      × (bit6 (flag_u8 x y + k) ≡ y)
      × (bit5 (flag_u8 x y + k) ≡ leb 32 k)
      × ((flag_u8 x y + k) % 32 ≡ k % 32)
first_byte true true k h = (ground arith, ground arith, ground arith, omega arith)
first_byte true false k h = (ground arith, ground arith, ground arith, omega arith)
first_byte false true k h = (ground arith, ground arith, ground arith, omega arith)
first_byte false false k h = (ground arith, ground arith, ground arith, omega arith)

-- Every integer below the three-byte limit is written, in as many bytes as its size says, and is
-- read back with its flags from any input that begins with them.
pub write_flagged_int-read_flagged_int :
    (x y : Bool) (n : ℕ) (rest : List ℕ)
    → n < 2 ^ 19
    → (written : List ℕ) × (write_flagged_int x y n ≡ some written)
      × (length written ≡ flagged_int_size n)
      × (read_flagged_int (written ++ rest) ≡ ok ((x, y, n), rest))
unfolding write_flagged_int read_flagged_int flagged_int_size
write_flagged_int-read_flagged_int x y n rest h = elim (Bool-cases (ltb n (2 ^ 5))) [
  | inl one ↦
      let (e7, e6, e5, low) = first_byte x y n (omega (arith, ltb→lt _ _ one)) in
      let short : leb 32 n ≡ false = ground arith in
      let same : n % 32 ≡ n = omega (arith, ltb→lt _ _ one) in
      ((flag_u8 x y + n) ∷ [], rw one refl, rw one refl, rw (e7, e6, e5, low, short, same) refl)
  | inr one ↦
      let (e7, e6, e5, low) = first_byte x y (32 + n % 32) (omega arith) in
      let long : leb 32 (32 + n % 32) ≡ true = ground arith in
      elim (Bool-cases (ltb n (2 ^ 12))) [
        | inl two ↦
            let last : leb 128 (n / 2 ^ 5) ≡ false = ground arith in
            let more : ((n / 2 ^ 5) % 128 == 0) ≡ false = ground arith in
            let same : (32 + n % 32) % 32 + (n / 2 ^ 5) % 128 * 32 ≡ n =
              omega (arith, ltb→lt _ _ two) in
            (
              (flag_u8 x y + (32 + n % 32)) ∷ (n / 2 ^ 5) ∷ [],
              rw (one, two) refl,
              rw (one, two) refl,
              rw (e7, e6, e5, long, last, more, low, same) refl,
            )
        | inr two ↦
            let three : ltb n (2 ^ 19) ≡ true = ground arith in
            let next : leb 128 (128 + (n / 2 ^ 5) % 128) ≡ true = ground arith in
            let last : leb 128 (n / 2 ^ 12) ≡ false = ground arith in
            let more : ((n / 2 ^ 12) % 128 == 0) ≡ false = ground arith in
            let same : (32 + n % 32) % 32
                  + (128 + (n / 2 ^ 5) % 128) % 128 * 32
                  + (n / 2 ^ 12) % 128 * 4096
                ≡ n =
              omega (arith, h) in
            (
              (flag_u8 x y + (32 + n % 32)) ∷ (128 + (n / 2 ^ 5) % 128) ∷ (n / 2 ^ 12) ∷ [],
              rw (one, two, three) refl,
              rw (one, two, three) refl,
              rw (e7, e6, e5, long, next, last, more, low, same) refl,
            )
      ]
]
