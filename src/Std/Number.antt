-- ===== src/Std/Number.antt =====
-- Numbers as decimal text: `to_string`, and `parse` at the types `u64` and `i32`.
pub mod RoundTrip
use config_guard.Base.{
  ℕ, zero, suc, ◌+◌, ◌-◌, ◌*◌, ◌/◌, ◌%◌, ◌^◌, ◌<◌, ◌≤◌, ◌≡◌, refl, Bool, true, false, ◌&&◌, [], ◌∷◌,
  ◌++◌, Option, none, some, arith, ◌==◌, leb, ltb, if◌then◌else◌, and_then,
}
use config_guard.Base.Int.{ℤ, pos, negsuc}
use config_guard.Std.Bytes.{Bytes, bytes}
use mathlib.Core.Option

-- The digits of a number before those that stand; a number has fewer digits than the fuel.
digits : ℕ → ℕ → Bytes → Bytes
digits zero n out = out
digits (suc fuel) n out =
    let digit = b'0' + n % 10 in
    let rest = digits fuel (n / 10) (digit ∷ out) in if ltb n 10 then digit ∷ out else rest

-- `to_string` of a number that is not negative.
unfoldable pub to_string : ℕ → Bytes
unfolding digits
to_string n = digits (suc n) n []

abbrev pub is_digit : ℕ → Bool
is_digit b = leb b'0' b && leb b b'9'

-- The number that digits add to, unless it exceeds the bound.
scan : ℕ → ℕ → Bytes → Option ℕ
scan bound acc [] = some acc
scan bound acc (b ∷ bs) =
    let next = acc * 10 + (b - b'0') in
    let rest = scan bound next bs in
    if is_digit b then if leb next bound then rest else none else none

-- Digits, at least one.
magnitude : ℕ → Bytes → Option ℕ
unfolding scan
magnitude bound [] = none
magnitude bound (b ∷ bs) = scan bound 0 (b ∷ bs)

unfoldable pub parse_u64 : Bytes → Option ℕ
unfolding magnitude
parse_u64 [] = none
parse_u64 (b ∷ bs) =
    if b == b'+' then magnitude (2 ^ 64 - 1) bs else magnitude (2 ^ 64 - 1) (b ∷ bs)

abbrev negative : ℕ → ℤ
negative zero = pos 0
negative (suc n) = negsuc n

unfoldable pub parse_i32 : Bytes → Option ℤ
unfolding magnitude
parse_i32 [] = none
parse_i32 (b ∷ bs) =
    if b == b'-'
    then Option.map negative (magnitude (2 ^ 31) bs)
    else if b == b'+'
    then Option.map pos (magnitude (2 ^ 31 - 1) bs)
    else Option.map pos (magnitude (2 ^ 31 - 1) (b ∷ bs))

to_string_run : to_string 4096 ≡ bytes "4096"
unfolding to_string
to_string_run = refl

parse_u64_run : parse_u64 (bytes "18446744073709551615") ≡ some (2 ^ 64 - 1)
unfolding parse_u64
parse_u64_run = refl

parse_u64_overflow : parse_u64 (bytes "18446744073709551616") ≡ none
unfolding parse_u64
parse_u64_overflow = refl

parse_i32_min : parse_i32 (bytes "-2147483648") ≡ some (negsuc 2_147_483_647)
unfolding parse_i32
parse_i32_min = refl

parse_i32_sign : parse_i32 (bytes "-") ≡ none
unfolding parse_i32
parse_i32_sign = refl
