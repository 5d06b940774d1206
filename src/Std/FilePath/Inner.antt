-- ===== src/Std/FilePath/Inner.antt =====
-- The components that stand behind the first one of a path, and a relative path made of them.
use config_guard.Base.{
  ℕ, ◌≡◌, ◌≢◌, refl, sym, ap, inl, inr, Bool, true, false, List, [], ◌∷◌, ◌++◌, some, arith, ◌==◌,
  if◌then◌else◌, list_beq, list_beq→eq, list_refl, ◌⊎◌, subst, list_eq, nat_eq, All, Bool-cases,
}
use mathlib.Core.List.{append-nil}
use config_guard.Std.Bytes.{Bytes, split, cons_head, IsFree, split-append}
use config_guard.Std.FilePath.{
  FilePath, Component, root_dir, cur_dir, parent_dir, normal, component_beq, components, piece,
  body, first_piece, from_pieces, is_absolute, to_path, from_components, component_str, dot,
  dot_dot, strip_prefix, rest_after,
}

-- A component that stands behind another.
abbrev pub IsInner : Component → Type 0
IsInner root_dir = ⊥
IsInner cur_dir = ⊥
IsInner parent_dir = Unit
IsInner (normal s) = (s ≢ []) × (s ≢ dot) × (s ≢ dot_dot) × IsFree b'/' s

beq_of_ne : (a b : Bytes) → a ≢ b → list_beq a b ≡ false
beq_of_ne a b ne = elim (Bool-cases (list_beq a b)) [
  | inl e ↦ absurd (ne (list_beq→eq a b e))
  | inr e ↦ e
]

ne_of_beq : (a b : Bytes) → list_beq a b ≡ false → a ≢ b
ne_of_beq a b h e = cc (list_refl a, ap (λ x. list_beq a x) (sym e), h)

piece-IsInner : (c : Component) → IsInner c → piece (component_str c) ≡ c ∷ []
unfolding piece component_str
piece-IsInner root_dir h = absurd h
piece-IsInner cur_dir h = absurd h
piece-IsInner parent_dir h = unfold list_beq in refl
piece-IsInner (normal s) h = rw (beq_of_ne s [] h.0, beq_of_ne s dot h.1, beq_of_ne s dot_dot h.2)

split-IsFree : (c : ℕ) (bs : Bytes) → IsFree c bs → split c bs ≡ bs ∷ []
unfolding split
split-IsFree c [] h = refl
split-IsFree c (b ∷ bs) h = rw (split-IsFree c bs h.1) (ground arith)

component_str-IsFree : (c : Component) → IsInner c → IsFree b'/' (component_str c)
unfolding component_str
component_str-IsFree root_dir h = absurd h
component_str-IsFree cur_dir h = absurd h
component_str-IsFree parent_dir h = ((λ e. omega arith), ((λ e. omega arith), tt))
component_str-IsFree (normal s) h = h.3

-- A path made of such components has just these.
pub body-from_components :
    (cs : List Component) → All IsInner cs → body (split b'/' (from_components cs).os_str) ≡ cs
unfolding from_components body
body-from_components [] h = unfold split body piece list_beq in refl
body-from_components (c ∷ []) h =
    rw (split-IsFree b'/' (component_str c) (component_str-IsFree c h.0), piece-IsInner c h.0)
body-from_components (c ∷ d ∷ cs) h =
    let (inner, others) = h in
    rw
      (
        split-append b'/' (component_str c) (from_components (d ∷ cs)).os_str
            (component_str-IsFree c inner),
        piece-IsInner c inner,
      )
      (ap (λ l. c ∷ l) (body-from_components (d ∷ cs) others))

split-All : (c : ℕ) (bs : Bytes) → All (IsFree c) (split c bs)
unfolding split
split-All c [] = (tt, tt)
split-All c (b ∷ bs) = split_more (split c bs) (split-All c bs) (Bool-cases (b == c))
  where
    split_more :
        (ss : List Bytes)
        → All (IsFree c) ss
        → ((b == c) ≡ true) ⊎ ((b == c) ≡ false)
        → All (IsFree c) (if b == c then [] ∷ ss else cons_head b ss)
    split_more ss h (inl e) = rw (e) (tt, h)
    split_more [] h (inr e) = rw (e) (((λ q. ground arith), tt), tt)
    split_more (x ∷ ss) h (inr e) = rw (e) (((λ q. ground arith), h.0), h.1)

All-before : (xs ys : List Component) → All IsInner xs → All IsInner ys → All IsInner (xs ++ ys)
All-before [] ys h k = k
All-before (x ∷ xs) ys h k = (h.0, All-before xs ys h.1 k)

piece-All : (s : Bytes) → IsFree b'/' s → All IsInner (piece s)
unfolding piece
piece-All s h = elim (Bool-cases (list_beq s [])) [
  | inl e ↦ rw (e) tt
  | inr e ↦ elim (Bool-cases (list_beq s dot)) [
    | inl f ↦ rw (e, f) tt
    | inr f ↦ elim (Bool-cases (list_beq s dot_dot)) [
      | inl g ↦ rw (e, f, g) (tt, tt)
      | inr g ↦ rw (e, f, g) ((ne_of_beq s [] e, ne_of_beq s dot f, ne_of_beq s dot_dot g, h), tt)
    ]
  ]
]

body-IsInner : (ss : List Bytes) → All (IsFree b'/') ss → All IsInner (body ss)
unfolding body piece
body-IsInner [] h = tt
body-IsInner (s ∷ ss) h = All-before (piece s) (body ss) (piece-All s h.0) (body-IsInner ss h.1)

abbrev behind : List Component → List Component
behind [] = []
behind (c ∷ cs) = cs

abbrev IsShort : List Component → Type 0
IsShort [] = Unit
IsShort (x ∷ []) = Unit
IsShort (x ∷ y ∷ xs) = ⊥

behind-append :
    (xs cs : List Component) → IsShort xs → All IsInner cs → All IsInner (behind (xs ++ cs))
behind-append [] [] short h = tt
behind-append [] (c ∷ cs) short h = h.1
behind-append (x ∷ []) cs short h = h
behind-append (x ∷ y ∷ xs) cs short h = absurd short

if-IsShort :
    (b : Bool) (xs ys : List Component) → IsShort xs → IsShort ys → IsShort (if b then xs else ys)
if-IsShort true xs ys h k = h
if-IsShort false xs ys h k = k

piece-IsShort : (s : Bytes) → IsShort (piece s)
unfolding piece
piece-IsShort s =
    if-IsShort (list_beq s []) _ _ tt
      (if-IsShort (list_beq s dot) _ _ tt (if-IsShort (list_beq s dot_dot) _ _ tt tt))

-- A first piece gives one component at most.
first_piece-IsShort : (s : Bytes) (ss : List Bytes) → IsShort (first_piece s ss)
unfolding first_piece
first_piece-IsShort s [] = if-IsShort (list_beq s dot) _ _ tt (piece-IsShort s)
first_piece-IsShort s (t ∷ ss) =
    if-IsShort (list_beq s []) _ _ tt (if-IsShort (list_beq s dot) _ _ tt (piece-IsShort s))

behind-components : (p : FilePath) → All IsInner (behind (components p))
unfolding components from_pieces
behind-components p = behind_pieces (split b'/' p.os_str) (split-All b'/' p.os_str)
  where
    behind_pieces : (ss : List Bytes) → All (IsFree b'/') ss → All IsInner (behind (from_pieces ss))
    behind_pieces [] h = tt
    behind_pieces (s ∷ ss) h =
        behind-append (first_piece s ss) (body ss) (first_piece-IsShort s ss) (body-IsInner ss h.1)

rest_after-IsInner :
    (xs ys rest : List Component) → rest_after xs ys ≡ some rest → All IsInner ys → All IsInner rest
unfolding rest_after
rest_after-IsInner [] ys rest h k = subst (All IsInner) (cc h) k
rest_after-IsInner (x ∷ xs) [] rest h k = absurd (cc)
rest_after-IsInner (x ∷ xs) (y ∷ ys) rest h k = elim (Bool-cases (component_beq x y)) [
  | inl e ↦ rest_after-IsInner xs ys rest (ground arith) k.1
  | inr e ↦ absurd (ground arith)
]

rest_after-behind :
    (xs ys rest : List Component)
    → xs ≢ []
    → rest_after xs ys ≡ some rest
    → All IsInner (behind ys)
    → All IsInner rest
unfolding rest_after
rest_after-behind [] ys rest ne h k = absurd (ne refl)
rest_after-behind (x ∷ xs) [] rest ne h k = absurd (cc)
rest_after-behind (x ∷ xs) (y ∷ ys) rest ne h k = elim (Bool-cases (component_beq x y)) [
  | inl e ↦ rest_after-IsInner xs ys rest (ground arith) k
  | inr e ↦ absurd (ground arith)
]

-- What is left of a path behind a base that has components stands behind a first one.
pub strip_prefix-IsInner :
    (p base : FilePath) (rest : List Component)
    → components base ≢ []
    → strip_prefix p base ≡ some rest
    → All IsInner rest
unfolding strip_prefix
strip_prefix-IsInner p base rest ne h =
    rest_after-behind (components base) (components p) rest ne h (behind-components p)

first_free :
    (bs more : Bytes) → bs ≢ [] → IsFree b'/' bs → is_absolute (to_path (bs ++ more)) ≡ false
unfolding is_absolute
first_free [] more ne h = absurd (ne refl)
first_free (b ∷ bs) more ne h = ground (arith, h)

component_str-ne-nil : (c : Component) → IsInner c → component_str c ≢ []
unfolding component_str
component_str-ne-nil root_dir h e = absurd h
component_str-ne-nil cur_dir h e = absurd h
component_str-ne-nil parent_dir h e = cc
component_str-ne-nil (normal s) h e = h.0 e

-- A path made of components that stand behind another is relative.
pub from_components-is_absolute :
    (cs : List Component) → All IsInner cs → is_absolute (from_components cs) ≡ false
unfolding from_components
from_components-is_absolute [] h = unfold is_absolute in refl
from_components-is_absolute (c ∷ []) h =
    rw (append-nil) at
      (first_free (component_str c) [] (component_str-ne-nil c h.0) (component_str-IsFree c h.0))
from_components-is_absolute (c ∷ d ∷ cs) h =
    first_free (component_str c) _ (component_str-ne-nil c h.0) (component_str-IsFree c h.0)
