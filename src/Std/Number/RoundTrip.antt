-- ===== src/Std/Number/RoundTrip.antt =====
-- A number that is printed and read back.
use config_guard.Base.{
  ℕ, zero, suc, ◌+◌, ◌-◌, ◌*◌, ◌/◌, ◌%◌, ◌^◌, ◌<◌, ◌≤◌, ◌≡◌, ◌≢◌, refl, ap, ◌∙◌, inl, inr, [], ◌∷◌,
  some, arith, ltb, All, All-map, Bool-cases,
}
use config_guard.Base.Int.{pos}
use config_guard.Std.Bytes.{Bytes}
use config_guard.Std.Text.Words.{IsWord}
use config_guard.Std.Number.{digits, scan, magnitude, to_string, parse_u64, parse_i32}
use mathlib.Core.Option

abbrev IsDigit : ℕ → Type 0
IsDigit b = (b'0' ≤ b) × (b ≤ b'9')

digits-IsDigit : (fuel n : ℕ) (out : Bytes) → All IsDigit out → All IsDigit (digits fuel n out)
unfolding digits
digits-IsDigit zero n out h = h
digits-IsDigit (suc fuel) n out h = elim (Bool-cases (ltb n 10)) [
  | inl e ↦ rw (e) (omega arith, h)
  | inr e ↦ rw (e) (digits-IsDigit fuel (n / 10) ((b'0' + n % 10) ∷ out) (omega arith, h))
]

digits-ne-nil : (fuel n : ℕ) (out : Bytes) → out ≢ [] → digits fuel n out ≢ []
unfolding digits
digits-ne-nil zero n out h = h
digits-ne-nil (suc fuel) n out h = elim (Bool-cases (ltb n 10)) [
  | inl e ↦ rw (e) (λ q. cc)
  | inr e ↦ rw (e) (digits-ne-nil fuel (n / 10) ((b'0' + n % 10) ∷ out) (λ q. cc))
]

scan_digit :
    (bound acc n : ℕ) (out : Bytes)
    → acc * 10 + n % 10 ≡ n
    → n ≤ bound
    → scan bound acc ((b'0' + n % 10) ∷ out) ≡ scan bound n out
unfolding scan
scan_digit bound acc n out e h =
    let next : acc * 10 + (b'0' + n % 10 - b'0') ≡ n = omega arith in rw (next) (ground arith)

scan-digits :
    (bound fuel n : ℕ) (out : Bytes)
    → n < fuel
    → n ≤ bound
    → scan bound 0 (digits fuel n out) ≡ scan bound n out
unfolding digits
scan-digits bound zero n out f h = absurd (omega arith)
scan-digits bound (suc fuel) n out f h = elim (Bool-cases (ltb n 10)) [
  | inl e ↦ rw (e) (scan_digit bound 0 n out (ground arith) h)
  | inr e ↦ rw (e) (
      scan-digits bound fuel (n / 10) ((b'0' + n % 10) ∷ out) (ground arith) (omega arith)
      ∙ scan_digit bound (n / 10) n out (omega arith) h)
]

to_string_digits : (n : ℕ) → (to_string n ≢ []) × All IsDigit (to_string n)
unfolding to_string digits
to_string_digits n = elim (Bool-cases (ltb n 10)) [
  | inl e ↦ rw (e) (λ q. cc, (omega arith, tt))
  | inr e ↦ rw (e) (
    digits-ne-nil n (n / 10) ((b'0' + n % 10) ∷ []) (λ q. cc),
    digits-IsDigit n (n / 10) ((b'0' + n % 10) ∷ []) (omega arith, tt),
  )
]

-- The text of a number is a word of digits.
pub to_string-IsWord : (n : ℕ) → IsWord (to_string n)
to_string-IsWord n =
    let t = to_string_digits n in
    (t.0, All-map (to_string n) (λ b d. (omega arith, omega arith, λ e. omega arith)) t.1)

parse_u64_digits : (w : Bytes) → w ≢ [] → All IsDigit w → parse_u64 w ≡ scan (2 ^ 64 - 1) 0 w
unfolding parse_u64 magnitude
parse_u64_digits [] ne h = absurd (ne refl)
parse_u64_digits (b ∷ w) ne h = ground arith

parse_i32_digits :
    (w : Bytes) → w ≢ [] → All IsDigit w → parse_i32 w ≡ Option.map pos (scan (2 ^ 31 - 1) 0 w)
unfolding parse_i32 magnitude
parse_i32_digits [] ne h = absurd (ne refl)
parse_i32_digits (b ∷ w) ne h = ground arith

scan-to_string : (bound n : ℕ) → n ≤ bound → scan bound 0 (to_string n) ≡ some n
unfolding to_string
scan-to_string bound n h = scan-digits bound (suc n) n [] (omega arith) h ∙ (unfold scan in refl)

pub parse_u64-to_string : (n : ℕ) → n < 2 ^ 64 → parse_u64 (to_string n) ≡ some n
parse_u64-to_string n h =
    let t = to_string_digits n in
    parse_u64_digits (to_string n) t.0 t.1 ∙ scan-to_string (2 ^ 64 - 1) n (omega arith)

pub parse_i32-to_string : (n : ℕ) → n < 2 ^ 31 → parse_i32 (to_string n) ≡ some (pos n)
parse_i32-to_string n h =
    let t = to_string_digits n in
    parse_i32_digits (to_string n) t.0 t.1
    ∙ ap (Option.map pos) (scan-to_string (2 ^ 31 - 1) n (omega arith))
