-- ===== src/Std/FilePath/Join.antt =====
-- The components of a joined path.
use config_guard.Base.{
  ℕ, ◌≡◌, ◌≢◌, refl, sym, ap, ◌∙◌, inl, inr, false, List, [], ◌∷◌, ◌++◌, none, some, arith, ◌==◌,
  last, list_beq, nat_eq, ◌⊎◌, Bool-cases, Option-cases,
}
use mathlib.Core.List.{append-nil, append_assoc}
use config_guard.Std.Bytes.{Bytes, split}
use config_guard.Std.FilePath.{
  FilePath, components, piece, body, first_piece, from_pieces, is_absolute, join, needs_separator,
  to_path,
}

split-cons : (c : ℕ) (xs : Bytes) → (s : Bytes) × (ss : List Bytes) × (split c xs ≡ s ∷ ss)
unfolding split
split-cons c [] = ([], [], refl)
split-cons c (x ∷ xs) = elim (Bool-cases (x == c)) [
  | inl e ↦ ([], split c xs, ground arith)
  | inr e ↦ let (s, ss, h) = split-cons c xs in (x ∷ s, ss, ground (arith, h))
]

-- The pieces of a text on both sides of a separator.
split-both : (c : ℕ) (xs ys : Bytes) → split c (xs ++ (c ∷ ys)) ≡ split c xs ++ split c ys
unfolding split
split-both c [] ys = ground arith
split-both c (x ∷ xs) ys =
    let (s, ss, h) = split-cons c xs in
    let both = split-both c xs ys in
    elim (Bool-cases (x == c)) [ inl e ↦ ground (arith, both) | inr e ↦ rw (e, both, h) ]

body-append : (ss ts : List Bytes) → body (ss ++ ts) ≡ body ss ++ body ts
unfolding body
body-append [] ts = refl
body-append (s ∷ ss) ts = rw (body-append ss ts, append_assoc)

body_end : (ss : List Bytes) → body (ss ++ [] ∷ []) ≡ body ss
unfolding body piece list_beq
body_end [] = refl
body_end (s ∷ ss) = rw (body_end ss) refl

-- What follows a first piece does not change what it stands for, unless it is empty and was alone.
from_pieces-append :
    (s : Bytes) (ss ts : List Bytes)
    → (s ≢ []) ⊎ (ss ≢ [])
    → from_pieces ((s ∷ ss) ++ ts) ≡ from_pieces (s ∷ ss) ++ body ts
unfolding from_pieces first_piece list_beq
from_pieces-append s [] [] h = simp (append-nil)
from_pieces-append s [] (t ∷ ts) (inr h) = absurd (h refl)
from_pieces-append [] [] (t ∷ ts) (inl h) = absurd (h refl)
from_pieces-append (b ∷ s) [] (t ∷ ts) (inl h) = simp (append-nil)
from_pieces-append s (t ∷ ss) ts h =
    rw (body-append (t ∷ ss) ts)
      (sym (append_assoc (first_piece s (t ∷ (ss ++ ts))) (body (t ∷ ss)) (body ts)))

from_pieces_more :
    (s : Bytes) (ss : List Bytes) (t : Bytes) (ts : List Bytes)
    → from_pieces ((s ∷ ss) ++ t ∷ ts) ≡ from_pieces ((s ∷ ss) ++ [] ∷ []) ++ body (t ∷ ts)
unfolding from_pieces first_piece
from_pieces_more s [] t ts =
    rw (body_end []) (sym (append_assoc (first_piece s (t ∷ ts)) (body []) (body (t ∷ ts))))
from_pieces_more s (u ∷ ss) t ts =
    rw (body_end (u ∷ ss), body-append (u ∷ ss) (t ∷ ts))
      (sym (append_assoc (first_piece s (u ∷ ss)) (body (u ∷ ss)) (body (t ∷ ts))))

split-nil : (c : ℕ) (bs : Bytes) → split c bs ≡ [] ∷ [] → bs ≡ []
unfolding split
split-nil c [] h = refl
split-nil c (b ∷ bs) h = let (s, ss, e) = split-cons c bs in absurd (ground (arith, e))

last-split : (xs : Bytes) (x : ℕ) → last xs ≡ some x → (ys : Bytes) × (xs ≡ ys ++ x ∷ [])
last-split [] x h = absurd (cc)
last-split (y ∷ []) x h = ([], cc)
last-split (y ∷ z ∷ xs) x h = let (ys, e) = last-split (z ∷ xs) x h in (y ∷ ys, ap (λ l. y ∷ l) e)

last-ne-none : (xs : Bytes) → xs ≢ [] → last xs ≢ none
last-ne-none [] ne h = ne refl
last-ne-none (x ∷ []) ne h = cc
last-ne-none (x ∷ y ∷ xs) ne h = last-ne-none (y ∷ xs) (λ q. cc) h

first_or_more :
    (bs s : Bytes) (ss : List Bytes) → bs ≢ [] → split b'/' bs ≡ s ∷ ss → (s ≢ []) ⊎ (ss ≢ [])
first_or_more bs (b ∷ s) ss ne h = inl (λ q. cc)
first_or_more bs [] (t ∷ ss) ne h = inr (λ q. cc)
first_or_more bs [] [] ne h = absurd (ne (split-nil b'/' bs h))

-- A separator between a path and a relative one.
components_separated :
    (base p : Bytes)
    → base ≢ []
    → components (record { os_str = base ++ (b'/' ∷ p) })
      ≡ components (record { os_str = base }) ++ body (split b'/' p)
unfolding components
components_separated base p ne =
    let (s, ss, h) = split-cons b'/' base in
    rw (split-both b'/' base p, h)
      (from_pieces-append s ss (split b'/' p) (first_or_more base s ss ne h))

-- A relative path behind a path that ends in a separator.
components_ended :
    (base p : Bytes)
    → components (record { os_str = base ++ (b'/' ∷ p) })
      ≡ components (record { os_str = base ++ b'/' ∷ [] }) ++ body (split b'/' p)
unfolding components
components_ended base p =
    let (s, ss, h) = split-cons b'/' base in
    let (t, ts, k) = split-cons b'/' p in
    rw (split-both b'/' base p, split-both b'/' base [], h, k) (from_pieces_more s ss t ts)

-- The components of a relative path joined to a path that is not empty are added to its own.
pub components-join :
    (base p : FilePath)
    → is_absolute p ≡ false
    → base.os_str ≢ []
    → components (join base p) ≡ components base ++ body (split b'/' p.os_str)
unfolding join
components-join base p h ne = elim (Bool-cases (needs_separator base.os_str)) [
  | inl e ↦ rw (h, e) (components_separated base.os_str p.os_str ne)
  | inr e ↦ elim (Option-cases (last base.os_str)) [
    | inl n ↦ absurd (last-ne-none base.os_str ne n)
    | inr (x, l) ↦
        let (front, f) = last-split base.os_str x l in
        let slash : x ≡ b'/' = ground arith in
        let ended : base.os_str ≡ front ++ b'/' ∷ [] = f ∙ ap (λ y. front ++ y ∷ []) slash in
        rw (h, e)
          (ap (λ b. components (to_path (b ++ p.os_str))) ended
            ∙ ap (λ b. components (to_path b)) (append_assoc front (b'/' ∷ []) p.os_str)
            ∙ components_ended front p.os_str
            ∙ ap (λ b. components (to_path b) ++ body (split b'/' p.os_str)) (sym ended))
  ]
]
