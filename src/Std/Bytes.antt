-- ===== src/Std/Bytes.antt =====
-- Byte strings (`String`, `OsStr`, `&[u8]`) as lists of numbers, with the searches and the
-- splits of the standard library that the program calls.
use Prim.Native.Char.{code}
use Prim.Native.String.{String}
use config_guard.Base.{
  ℕ, ◌+◌, ◌-◌, ◌<◌, ◌≡◌, refl, Bool, true, false, ◌&&◌, List, [], ◌∷◌, Option, none, some, arith,
  ◌==◌, if◌then◌else◌, length, ◌≢◌, ◌++◌, All, any,
}

abbrev pub Bytes : Type 0
Bytes = List ℕ

-- A literal of the source. Every literal of the program is ASCII.
abbrev pub bytes : String → Bytes
bytes String.[] = []
bytes (String.◌∷◌ c s) = code c ∷ bytes s

-- `prefix` comes first, as in `text.strip_prefix(prefix)` read backwards.
unfoldable pub strip_prefix : Bytes → Bytes → Option Bytes
strip_prefix [] bs = some bs
strip_prefix (p ∷ ps) [] = none
strip_prefix (p ∷ ps) (b ∷ bs) = if p == b then strip_prefix ps bs else none

unfoldable pub starts_with : Bytes → Bytes → Bool
starts_with [] bs = true
starts_with (p ∷ ps) [] = false
starts_with (p ∷ ps) (b ∷ bs) = p == b && starts_with ps bs

abbrev pub take : ℕ → Bytes → Bytes
take n [] = []
take n (b ∷ bs) = let rest = take (n - 1) bs in if n == 0 then [] else b ∷ rest

abbrev pub drop : ℕ → Bytes → Bytes
drop n [] = []
drop n (b ∷ bs) = let rest = drop (n - 1) bs in if n == 0 then b ∷ bs else rest

abbrev cons_left : ℕ → Option (Bytes × Bytes) → Option (Bytes × Bytes)
cons_left b none = none
cons_left b (some (l, r)) = some (b ∷ l, r)

-- `split_once`: at the first separator.
unfoldable pub split_once : ℕ → Bytes → Option (Bytes × Bytes)
split_once c [] = none
split_once c (b ∷ bs) = if b == c then some ([], bs) else cons_left b (split_once c bs)

abbrev pub cons_head : ℕ → List Bytes → List Bytes
cons_head b [] = (b ∷ []) ∷ []
cons_head b (s ∷ ss) = (b ∷ s) ∷ ss

-- `split` at each separator: one piece more than there are separators.
unfoldable pub split : ℕ → Bytes → List Bytes
split c [] = [] ∷ []
split c (b ∷ bs) = let rest = split c bs in if b == c then [] ∷ rest else cons_head b rest

-- What a prefix is stripped off is shorter by its length.
pub length-strip_prefix :
    (p bs r : Bytes) → strip_prefix p bs ≡ some r → length r + length p ≡ length bs
unfolding strip_prefix
length-strip_prefix [] bs r h = ground arith
length-strip_prefix (p ∷ ps) [] r h = cc
length-strip_prefix (p ∷ ps) (b ∷ bs) r h = ground (arith, length-strip_prefix ps bs r)

-- The left part of a split is shorter than the whole, and holds no separator.
pub length-split_once :
    (c : ℕ) (bs l r : Bytes) → split_once c bs ≡ some (l, r) → length l < length bs
unfolding split_once
length-split_once c [] l r h = cc
length-split_once c (b ∷ bs) [] r h = omega arith
length-split_once c (b ∷ bs) (a ∷ l) r h = ground (arith, length-split_once c bs l r)

pub split_once-left :
    (c : ℕ) (bs l r : Bytes) → split_once c bs ≡ some (l, r) → split_once c l ≡ none
unfolding split_once
split_once-left c [] l r h = cc
split_once-left c (b ∷ bs) [] r h = refl
split_once-left c (b ∷ bs) (a ∷ l) r h = ground (arith, split_once-left c bs l r)

-- Stripping keeps a text free of a separator.
pub split_once-strip_prefix :
    (c : ℕ) (p bs r : Bytes)
    → split_once c bs ≡ none
    → strip_prefix p bs ≡ some r
    → split_once c r ≡ none
unfolding split_once strip_prefix
split_once-strip_prefix c [] bs r h e = ground arith
split_once-strip_prefix c (p ∷ ps) [] r h e = cc
split_once-strip_prefix c (p ∷ ps) (b ∷ bs) r h e =
    ground (arith, split_once-strip_prefix c ps bs r)

module _ (c : ℕ) where
  -- No byte of the text is the separator.
  abbrev pub IsFree : Bytes → Type 0
  IsFree = All (λ b. b ≢ c)

  pub IsFree-of_any : (bs : Bytes) → any (λ b. b == c) bs ≡ false → IsFree bs
  unfolding any
  IsFree-of_any [] h = tt
  IsFree-of_any (b ∷ bs) h = ((λ e. ground arith), IsFree-of_any bs (ground arith))

  -- A piece without a separator, before the rest.
  pub split-append : (bs rest : Bytes) → IsFree bs → split c (bs ++ (c ∷ rest)) ≡ bs ∷ split c rest
  unfolding split
  split-append [] rest h = ground arith
  split-append (b ∷ bs) rest h = rw (split-append bs rest h.1) (ground arith)

  pub split_once-append : (l r : Bytes) → IsFree l → split_once c (l ++ (c ∷ r)) ≡ some (l, r)
  unfolding split_once
  split_once-append [] r h = ground arith
  split_once-append (b ∷ l) r h = rw (split_once-append l r h.1) (ground arith)
