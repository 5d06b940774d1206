-- ===== src/Std/Text.antt =====
-- Searches in a `&str`: its bytes, with the white space of Unicode.
pub mod Words
use config_guard.Base.{
  ℕ, zero, suc, ◌≡◌, refl, Bool, true, false, ◌&&◌, ◌||◌, List, [], ◌∷◌, ◌++◌, Option, none, some,
  arith, ◌==◌, leb, ltb, if◌then◌else◌, or_else,
}
use config_guard.Std.Bytes.{Bytes, bytes, strip_prefix}

-- After the first byte of a character, the length of the white space that it starts; zero if it
-- starts another character.
blank_after : ℕ → Bytes → ℕ
blank_after b [] = if (leb 0x09 b && leb b 0x0d) || b == 0x20 then 1 else 0
blank_after b (c ∷ []) =
    if (leb 0x09 b && leb b 0x0d) || b == 0x20
    then 1
    else if b == 0xc2 && (c == 0x85 || c == 0xa0)
    then 2
    else 0
blank_after b (c ∷ d ∷ bs) =
    if (leb 0x09 b && leb b 0x0d) || b == 0x20
    then 1
    else if b == 0xc2 && (c == 0x85 || c == 0xa0)
    then 2
    else if b == 0xe1 && c == 0x9a && d == 0x80
    then 3
    else if b == 0xe2 && c == 0x80 && (leb d 0x8a || d == 0xa8 || d == 0xa9 || d == 0xaf)
    then 3
    else if b == 0xe2 && c == 0x81 && d == 0x9f
    then 3
    else if b == 0xe3 && c == 0x80 && d == 0x80
    then 3
    else 0

-- A new word starts with a byte that is no white space; a word is not empty.
abbrev end_word : Bytes → List Bytes → List Bytes
end_word [] ws = ws
end_word (b ∷ bs) ws = (b ∷ bs) ∷ ws

-- The bytes of white space that are still to be passed over, and the word at hand.
words : ℕ → Bytes → Bytes → List Bytes
unfolding blank_after
words skip word [] = end_word word []
words (suc n) word (b ∷ bs) = words n word bs
words zero word (b ∷ bs) = elim (blank_after b bs) [
  | zero ↦ words zero (word ++ b ∷ []) bs
  | suc n ↦ end_word word (words n [] bs)
]

-- `split_whitespace`.
unfoldable pub split_whitespace : Bytes → List Bytes
unfolding words
split_whitespace bs = words zero [] bs

trim_start_from : ℕ → Bytes → Bytes
unfolding blank_after
trim_start_from skip [] = []
trim_start_from (suc n) (b ∷ bs) = trim_start_from n bs
trim_start_from zero (b ∷ bs) = elim (blank_after b bs) [
  | zero ↦ b ∷ bs
  | suc n ↦ trim_start_from n bs
]

-- A byte within a character starts no white space, so what is cut off is made of characters.
trim_end : Bytes → Bytes
unfolding trim_start_from
trim_end [] = []
trim_end (b ∷ bs) = elim (trim_start_from zero (b ∷ bs)) [ [] ↦ [] | _ ∷ _ ↦ b ∷ trim_end bs ]

-- `trim`.
unfoldable pub trim : Bytes → Bytes
unfolding trim_start_from trim_end
trim bs = trim_end (trim_start_from zero bs)

-- What follows the last occurrence of a text: `rfind`, and the slice behind it.
unfoldable pub after_last : Bytes → Bytes → Option Bytes
after_last p [] = strip_prefix p []
after_last p (b ∷ bs) = or_else (after_last p bs) (strip_prefix p (b ∷ bs))

trim_run : trim (bytes " \tmy shell\n") ≡ bytes "my shell"
unfolding trim
trim_run = refl

trim_blank : trim (0xe2 ∷ 0x80 ∷ 0x83 ∷ 0x20 ∷ []) ≡ []
unfolding trim
trim_blank = refl

split_run :
    split_whitespace (bytes " S  17" ++ 0xc2 ∷ 0xa0 ∷ b'x' ∷ [])
    ≡ bytes "S" ∷ bytes "17" ∷ bytes "x" ∷ []
unfolding split_whitespace
split_run = refl

after_last_run : after_last (bytes ") ") (bytes "1 (a) b) S 7") ≡ some (bytes "S 7")
unfolding after_last strip_prefix
after_last_run = refl
