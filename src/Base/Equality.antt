-- ===== src/Base/Equality.antt =====
-- `PartialEq` as the collections use it: a Boolean equivalence. It need not be identity, since two
-- spellings of one path are equal.
use Prim.Native.Nat.{ℕ}
use mathlib.Core.Path.{◌≡◌, refl, sym, ap, ◌∙◌}
use mathlib.Core.Logic.{inl, inr}
use mathlib.Core.Bool.{Bool, true, false, ◌&&◌}
use mathlib.Core.List.{List, [], ◌∷◌}
use mathlib.Core.Option.{Option, none, some}
use native.Mathlib.Omega.{arith}
use config_guard.Base.Tests.{◌==◌ as nat_beq, Bool-cases}

pub record Eq {ℓ} (A : Type ℓ) : Type ℓ where
  pub beq : A → A → Bool
  pub beq_refl : (a : A) → beq a a ≡ true
  pub beq_sym : (a b : A) → beq a b ≡ beq b a
  pub beq_left : (a b c : A) → beq a b ≡ true → beq a c ≡ beq b c

-- A test that decides identity is an equivalence.
module _ {ℓ} {A : Type ℓ} (t : A → A → Bool) (r : (a : A) → t a a ≡ true) where
  module _ (sound : (a b : A) → t a b ≡ true → a ≡ b) where
    pub beq_sym_of_sound : (a b : A) → t a b ≡ t b a
    beq_sym_of_sound a b = elim (Bool-cases (t a b)) [
      | inl e ↦ let p = sound a b e in rw (p)
      | inr e ↦ elim (Bool-cases (t b a)) [
        | inl f ↦ let p = sound b a f in rw (p)
        | inr f ↦ e ∙ sym f
      ]
    ]

    pub beq_left_of_sound : (a b c : A) → t a b ≡ true → t a c ≡ t b c
    beq_left_of_sound a b c e = ap (λ x. t x c) (sound a b e)

    abbrev pub Eq_of_sound : Eq A
    Eq_of_sound = record {
      beq = t;
      beq_refl = r;
      beq_sym = beq_sym_of_sound;
      beq_left = beq_left_of_sound;
    }

infix 50 ◌≈◌
abbrev pub ◌≈◌ {ℓ} : {A : Type ℓ} ⦃e : Eq A⦄ → A → A → Bool
◌≈◌ ⦃e⦄ = e.beq

pub nat_refl : (a : ℕ) → nat_beq a a ≡ true
nat_refl a = ground arith

pub nat_sym : (a b : ℕ) → nat_beq a b ≡ nat_beq b a
nat_sym a b = ground arith

pub nat_left : (a b c : ℕ) → nat_beq a b ≡ true → nat_beq a c ≡ nat_beq b c
nat_left a b c h = ground arith

instance abbrev pub nat_eq : Eq ℕ
nat_eq = record { beq = nat_beq; beq_refl = nat_refl; beq_sym = nat_sym; beq_left = nat_left }

module _ {ℓ} {A : Type ℓ} ⦃e : Eq A⦄ where
  unfoldable pub list_beq : List A → List A → Bool
  list_beq [] [] = true
  list_beq [] (y ∷ ys) = false
  list_beq (x ∷ xs) [] = false
  list_beq (x ∷ xs) (y ∷ ys) = e.beq x y && list_beq xs ys

  pub list_refl : (xs : List A) → list_beq xs xs ≡ true
  unfolding list_beq
  list_refl [] = refl
  list_refl (x ∷ xs) = ground (arith, e.beq_refl x, list_refl xs)

  pub list_sym : (xs ys : List A) → list_beq xs ys ≡ list_beq ys xs
  unfolding list_beq
  list_sym [] [] = refl
  list_sym [] (y ∷ ys) = refl
  list_sym (x ∷ xs) [] = refl
  list_sym (x ∷ xs) (y ∷ ys) = ground (arith, e.beq_sym x y, list_sym xs ys)

  pub list_left : (xs ys zs : List A) → list_beq xs ys ≡ true → list_beq xs zs ≡ list_beq ys zs
  unfolding list_beq
  list_left [] [] zs h = refl
  list_left [] (y ∷ ys) zs h = cc
  list_left (x ∷ xs) [] zs h = cc
  list_left (x ∷ xs) (y ∷ ys) [] h = refl
  list_left (x ∷ xs) (y ∷ ys) (z ∷ zs) h = ground (arith, e.beq_left x y z, list_left xs ys zs)

  unfoldable pub option_beq : Option A → Option A → Bool
  option_beq none none = true
  option_beq none (some y) = false
  option_beq (some x) none = false
  option_beq (some x) (some y) = e.beq x y

instance abbrev pub list_eq {ℓ} : {A : Type ℓ} ⦃e : Eq A⦄ → Eq (List A)
list_eq = record { beq = list_beq; beq_refl = list_refl; beq_sym = list_sym; beq_left = list_left }

-- Byte strings: here equality is identity.
pub list_beq→eq : (xs ys : List ℕ) → list_beq xs ys ≡ true → xs ≡ ys
unfolding list_beq
list_beq→eq [] [] h = refl
list_beq→eq [] (y ∷ ys) h = cc
list_beq→eq (x ∷ xs) [] h = cc
list_beq→eq (x ∷ xs) (y ∷ ys) h = ground (arith, list_beq→eq xs ys)

pub option_beq→eq : (a b : Option ℕ) → option_beq a b ≡ true → a ≡ b
unfolding option_beq
option_beq→eq none none h = refl
option_beq→eq none (some b) h = cc
option_beq→eq (some a) none h = cc
option_beq→eq (some a) (some b) h = ground arith
