-- ===== src/Store/Ledger/Epoch.antt =====
-- Registration epochs as decimal text. Of crates/herdr-a2a-broker/src/ledger.rs.
use herdr_a2a.Base.{
  ℕ, zero, suc, ◌+◌, ◌-◌, ◌*◌, ◌/◌, ◌%◌, ◌^◌, ◌≤◌, ◌<◌, ◌≡◌, refl, ap, ◌∙◌, Bool, true, false, ◌&&◌,
  not, Option, none, some, [], ◌∷◌, ◌++◌, inl, inr, leb, ltb, ◌==◌, if◌then◌else◌, length, all,
  is_empty, Text, u64_max, Bool-cases, arith,
}
use native.Mathlib.Nat.{pow-succ'}
use herdr_a2a.Base.Outcome.{done, ◌>>◌, require, some_or}
use herdr_a2a.Core.Model.{is_ascii_digit}
use herdr_a2a.Store.Ledger.{Stored, invalid_data}

-- `n.to_string()` of a number below 10^(fuel + 1)
unfoldable pub decimal_digits : ℕ → ℕ → Text
decimal_digits zero n = (n + b'0') ∷ []
decimal_digits (suc fuel) n =
    let front = decimal_digits fuel (n / 10) in
    if ltb n 10 then (n + b'0') ∷ [] else front ++ ((n % 10 + b'0') ∷ [])

-- `to_string` of a `u64`, which has twenty digits at most
abbrev pub decimal : ℕ → Text
decimal n = decimal_digits 19 n

-- `str::parse::<u64>` of a string of digits, the value so far being given: `none` on overflow.
unfoldable pub read_digits : ℕ → Text → Option ℕ
read_digits acc [] = some acc
read_digits acc (b ∷ bs) =
    let next = acc * 10 + (b - b'0') in
    let rest = read_digits next bs in if leb next u64_max then rest else none

abbrev begins_with_zero : Text → Bool
begins_with_zero [] = false
begins_with_zero (b ∷ bs) = b == b'0'

unfoldable pub parse_canonical_u64 : Text → Stored ℕ
parse_canonical_u64 value = do
  require (not (is_empty value)) invalid_data
  require (all is_ascii_digit value) invalid_data
  require (not (ltb 1 (length value) && begins_with_zero value)) invalid_data
  some_or (read_digits 0 value) invalid_data

read_digits-last :
    (acc : ℕ) (bs : Text) (d : ℕ) {m : ℕ}
    → read_digits acc bs ≡ some m
    → d < 10
    → m * 10 + d ≤ u64_max
    → read_digits acc (bs ++ ((d + b'0') ∷ [])) ≡ some (m * 10 + d)
unfolding read_digits
read_digits-last acc [] d {m} h small fits = ground arith
read_digits-last acc (b ∷ bs) d {m} h small fits =
    elim (Bool-cases (leb (acc * 10 + (b - b'0')) u64_max)) [
      | inl e ↦
          rw e (read_digits-last (acc * 10 + (b - b'0')) bs d (rw (read_digits, e) at h) small fits)
      | inr e ↦ let no : none ≡ some m = rw (read_digits, e) at h in cc
    ]

quotient_low : (n fuel : ℕ) → n < 10 ^ suc (suc fuel) → n / 10 < 10 ^ suc fuel
quotient_low n fuel low = omega (arith, pow-succ' 10 (suc fuel))

read_digits-decimal_digits :
    (fuel n : ℕ) → n < 10 ^ suc fuel → n ≤ u64_max → read_digits 0 (decimal_digits fuel n) ≡ some n
unfolding decimal_digits read_digits
read_digits-decimal_digits zero n low fits = ground arith
read_digits-decimal_digits (suc fuel) n low fits = elim (Bool-cases (ltb n 10)) [
  | inl e ↦ rw (decimal_digits, e) (ground arith)
  | inr e ↦
      let front =
        read_digits-decimal_digits fuel (n / 10) (quotient_low n fuel low) (omega arith) in
      rw (decimal_digits, e)
        (read_digits-last 0 (decimal_digits fuel (n / 10)) (n % 10) front (omega arith)
            (omega arith)
          ∙ ap some (omega arith))
]

all-append :
    (p : ℕ → Bool) (xs ys : Text) → all p xs ≡ true → all p ys ≡ true → all p (xs ++ ys) ≡ true
all-append p [] ys h g = g
all-append p (x ∷ xs) ys h g = ground (arith, all-append p xs ys)

decimal_digits-all :
    (fuel n : ℕ) → n < 10 ^ suc fuel → all is_ascii_digit (decimal_digits fuel n) ≡ true
unfolding decimal_digits
decimal_digits-all zero n low = ground arith
decimal_digits-all (suc fuel) n low = elim (Bool-cases (ltb n 10)) [
  | inl e ↦ rw (decimal_digits, e) (ground arith)
  | inr e ↦
      rw (decimal_digits, e)
        (all-append is_ascii_digit (decimal_digits fuel (n / 10)) ((n % 10 + b'0') ∷ [])
          (decimal_digits-all fuel (n / 10) (quotient_low n fuel low)) (ground arith))
]

append-begins :
    (xs ys : Text)
    → begins_with_zero xs ≡ false
    → is_empty xs ≡ false
    → (begins_with_zero (xs ++ ys) ≡ false) × (is_empty (xs ++ ys) ≡ false)
append-begins [] ys h g = cc
append-begins (x ∷ xs) ys h g = (h, refl)

-- A positive number does not begin with a zero.
decimal_digits-begins :
    (fuel n : ℕ)
    → 1 ≤ n
    → (begins_with_zero (decimal_digits fuel n) ≡ false)
      × (is_empty (decimal_digits fuel n) ≡ false)
unfolding decimal_digits
decimal_digits-begins zero n h = (ground arith, refl)
decimal_digits-begins (suc fuel) n h = elim (Bool-cases (ltb n 10)) [
  | inl e ↦ rw (decimal_digits, e) (ground arith, refl)
  | inr e ↦
      let (first, more) = decimal_digits-begins fuel (n / 10) (ground (arith, e)) in
      rw (decimal_digits, e)
        (append-begins (decimal_digits fuel (n / 10)) ((n % 10 + b'0') ∷ []) first more)
]

-- parse_canonical_u64 reads every u64 that to_string prints.
pub parse_canonical_u64-decimal : (n : ℕ) → n ≤ u64_max → parse_canonical_u64 (decimal n) ≡ done n
unfolding parse_canonical_u64 decimal_digits read_digits
parse_canonical_u64-decimal zero fits = refl
parse_canonical_u64-decimal (suc n) fits =
    let low : suc n < 10 ^ 20 = omega arith in
    let (first, more) = decimal_digits-begins 19 (suc n) (omega arith) in
    rw
      (
        more,
        decimal_digits-all 19 (suc n) low,
        first,
        read_digits-decimal_digits 19 (suc n) low fits,
      )
      (ground arith)
