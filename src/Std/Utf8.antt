-- ===== src/Std/Utf8.antt =====
-- `str::from_utf8` as a test: the well-formed byte sequences of the Unicode standard.
use config_guard.Base.{
  ℕ, ◌≡◌, refl, Bool, true, false, ◌&&◌, [], ◌∷◌, Option, none, some, leb, ltb, ◌==◌, if◌then◌else◌,
}
use config_guard.Std.Bytes.{Bytes, bytes}

-- What the next byte may be: a new character, or one more byte in a range with others to follow.
pub data Expect : Type 0 where
  lead : Expect
  cont : ℕ → ℕ → ℕ → Expect
  bad : Expect

abbrev in_range : ℕ → ℕ → ℕ → Bool
in_range lo hi b = leb lo b && leb b hi

after_lead : ℕ → Expect
after_lead b =
    if ltb b 0x80
    then lead
    else if in_range 0xc2 0xdf b
    then cont 0x80 0xbf 0
    else if b == 0xe0
    then cont 0xa0 0xbf 1
    else if b == 0xed
    then cont 0x80 0x9f 1
    else if in_range 0xe1 0xef b
    then cont 0x80 0xbf 1
    else if b == 0xf0
    then cont 0x90 0xbf 2
    else if in_range 0xf1 0xf3 b
    then cont 0x80 0xbf 2
    else if b == 0xf4
    then cont 0x80 0x8f 2
    else bad

abbrev after_cont : ℕ → Expect
after_cont ℕ.zero = lead
after_cont (ℕ.suc n) = cont 0x80 0xbf n

next : Expect → ℕ → Expect
unfolding after_lead
next lead b = after_lead b
next (cont lo hi more) b = if in_range lo hi b then after_cont more else bad
next bad b = bad

scan : Expect → Bytes → Bool
unfolding next
scan lead [] = true
scan (cont lo hi more) [] = false
scan bad [] = false
scan e (b ∷ bs) = scan (next e b) bs

unfoldable pub is_utf8 : Bytes → Bool
unfolding scan
is_utf8 bs = scan lead bs

-- `OsStr::to_str`, `String::from_utf8(..).ok()`.
unfoldable pub to_str : Bytes → Option Bytes
to_str bs = if is_utf8 bs then some bs else none

pub to_str-some : (bs : Bytes) → is_utf8 bs ≡ true → to_str bs ≡ some bs
unfolding to_str
to_str-some bs h = rw (h) refl

utf8_ascii : to_str (bytes "firefox") ≡ some (bytes "firefox")
unfolding to_str is_utf8
utf8_ascii = refl

utf8_bad : to_str (0xff ∷ []) ≡ none
unfolding to_str is_utf8
utf8_bad = refl

utf8_snowman : is_utf8 (0xe2 ∷ 0x98 ∷ 0x83 ∷ []) ≡ true
unfolding is_utf8
utf8_snowman = refl
