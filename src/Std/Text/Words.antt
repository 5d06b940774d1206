-- ===== src/Std/Text/Words.antt =====
-- Words of ASCII letters, digits and signs between single blanks.
use config_guard.Base.{
  ℕ, zero, ◌<◌, ◌≡◌, ◌≢◌, refl, ap, ◌∙◌, ◌⊎◌, inl, inr, List, [], ◌∷◌, ◌++◌, none, some, arith, All,
  All-map,
}
use mathlib.Core.List.{append-nil, append_assoc}
use config_guard.Std.Bytes.{Bytes, bytes, strip_prefix}
use config_guard.Std.Text.{blank_after, words, split_whitespace, after_last}

-- A byte of a visible ASCII character other than a closing parenthesis.
abbrev pub IsPlain : ℕ → Type 0
IsPlain b = (0x20 < b) × (b < 0x80) × (b ≢ b')')

abbrev pub IsWord : Bytes → Type 0
IsWord w = (w ≢ []) × All IsPlain w

-- Fields in one line, as the kernel prints them.
unfoldable pub line : List Bytes → Bytes
line [] = []
line (w ∷ []) = w ++ b'\n' ∷ []
line (w ∷ v ∷ ws) = w ++ (b' ' ∷ line (v ∷ ws))

blank_after-IsPlain : (b : ℕ) (bs : Bytes) → IsPlain b → blank_after b bs ≡ 0
unfolding blank_after
blank_after-IsPlain b [] h = ground arith
blank_after-IsPlain b (c ∷ []) h = ground arith
blank_after-IsPlain b (c ∷ d ∷ bs) h = ground arith

words-append :
    (word w rest : Bytes)
    → All IsPlain w
    → words zero word (w ++ rest) ≡ words zero (word ++ w) rest
unfolding words
words-append word [] rest h = rw append-nil
words-append word (b ∷ w) rest h =
    rw (blank_after-IsPlain b (w ++ rest) h.0, words)
      (words-append (word ++ b ∷ []) w rest h.1 ∙ rw append_assoc)

blank_after_blank : (b : ℕ) (bs : Bytes) → (b ≡ b' ') ⊎ (b ≡ b'\n') → blank_after b bs ≡ 1
unfolding blank_after
blank_after_blank b [] h = ground arith
blank_after_blank b (c ∷ []) h = ground arith
blank_after_blank b (c ∷ d ∷ bs) h = ground arith

words_end :
    (b : ℕ) (w rest : Bytes)
    → (b ≡ b' ') ⊎ (b ≡ b'\n')
    → w ≢ []
    → words zero w (b ∷ rest) ≡ w ∷ words zero [] rest
unfolding words
words_end b [] rest h ne = absurd (ne refl)
words_end b (a ∷ w) rest h ne = rw (blank_after_blank b rest h, words) refl

words-line : (ws : List Bytes) → All IsWord ws → words zero [] (line ws) ≡ ws
unfolding line
words-line [] h = unfold words in refl
words-line (w ∷ []) h =
    words-append [] w (b'\n' ∷ []) h.0.1
    ∙ words_end b'\n' w [] (inr refl) h.0.0
    ∙ (unfold words in refl)
words-line (w ∷ v ∷ ws) h =
    words-append [] w (b' ' ∷ line (v ∷ ws)) h.0.1
    ∙ words_end b' ' w (line (v ∷ ws)) (inl refl) h.0.0
    ∙ ap (λ l. w ∷ l) (words-line (v ∷ ws) h.1)

-- The words of a line are its fields.
pub split_whitespace-line : (ws : List Bytes) → All IsWord ws → split_whitespace (line ws) ≡ ws
unfolding split_whitespace
split_whitespace-line ws h = words-line ws h

-- Without its first byte the searched text does not occur.
after_last-none : (bs : Bytes) → All (λ b. b ≢ b')') bs → after_last (bytes ") ") bs ≡ none
unfolding after_last strip_prefix
after_last-none [] h = refl
after_last-none (b ∷ bs) h = ground (arith, after_last-none bs h.1)

after_last-append :
    (p head bs r : Bytes) → after_last p bs ≡ some r → after_last p (head ++ bs) ≡ some r
unfolding after_last
after_last-append p [] bs r h = h
after_last-append p (b ∷ head) bs r h = rw (after_last-append p head bs r h) refl

All-append : (P : ℕ → Type 0) (xs ys : Bytes) → All P xs → All P ys → All P (xs ++ ys)
All-append P [] ys h k = k
All-append P (x ∷ xs) ys h k = (h.0, All-append P xs ys h.1 k)

line-no_parenthesis : (ws : List Bytes) → All IsWord ws → All (λ b. b ≢ b')') (line ws)
unfolding line
line-no_parenthesis [] h = tt
line-no_parenthesis (w ∷ []) h =
    All-append _ w (b'\n' ∷ []) (All-map w (λ b p. p.2) h.0.1) (omega arith, tt)
line-no_parenthesis (w ∷ v ∷ ws) h =
    All-append _ w (b' ' ∷ line (v ∷ ws)) (All-map w (λ b p. p.2) h.0.1)
      (omega arith, line-no_parenthesis (v ∷ ws) h.1)

-- Behind the last closing parenthesis stands the line, whatever text comes before.
pub after_last-line :
    (head : Bytes) (ws : List Bytes)
    → All IsWord ws
    → after_last (bytes ") ") (head ++ (b')' ∷ b' ' ∷ line ws)) ≡ some (line ws)
after_last-line head ws h = after_last-append (bytes ") ") head (b')' ∷ b' ' ∷ line ws) (line ws) (
    unfold after_last strip_prefix in
    rw (after_last-none (line ws) (line-no_parenthesis ws h)) refl)
