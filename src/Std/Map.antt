-- ===== src/Std/Map.antt =====
-- `HashMap` as an association list. Every theorem about a map ranges over all such lists, so over
-- every order of iteration.
use config_guard.Base.{
  ◌≡◌, refl, Bool, true, false, List, [], ◌∷◌, Option, none, some, arith, Eq, if◌then◌else◌, inl,
  inr, Bool-cases, ◌||◌,
}

abbrev pub Map {ℓ κ} : Type ℓ → Type κ → Type (ℓ ⊔ κ)
Map K V = List (K × V)

module _ {ℓ κ} {K : Type ℓ} {V : Type κ} ⦃e : Eq K⦄ where
  unfoldable pub get : K → Map K V → Option V
  get k [] = none
  get k ((j, v) ∷ m) = if e.beq j k then some v else get k m

  unfoldable pub insert : K → V → Map K V → Map K V
  insert k v [] = (k, v) ∷ []
  insert k v ((j, w) ∷ m) = if e.beq j k then (j, v) ∷ m else (j, w) ∷ insert k v m

  unfoldable pub remove : K → Map K V → Map K V
  remove k [] = []
  remove k ((j, v) ∷ m) = let rest = remove k m in if e.beq j k then rest else (j, v) ∷ rest

  pub get-insert :
      (k j : K) (v : V) (m : Map K V)
      → get j (insert k v m) ≡ (if e.beq k j then some v else get j m)
  unfolding get insert
  get-insert k j v [] = refl
  get-insert k j v ((i, w) ∷ m) =
      ground (
        arith,
        e.beq_left i k j,
        e.beq_left k j i,
        e.beq_sym i k,
        e.beq_sym i j,
        get-insert k j v m,
      )

  pub get-remove :
      (k j : K) (m : Map K V) → get j (remove k m) ≡ (if e.beq k j then none else get j m)
  unfolding get remove
  get-remove k j [] = ground arith
  get-remove k j ((i, w) ∷ m) =
      ground
        (arith, e.beq_left i k j, e.beq_left k j i, e.beq_sym i k, e.beq_sym i j, get-remove k j m)

  pub get-eq : (k j : K) (m : Map K V) → e.beq k j ≡ true → get k m ≡ get j m
  unfolding get
  get-eq k j [] h = refl
  get-eq k j ((i, w) ∷ m) h =
      ground (arith, e.beq_left k j i, e.beq_sym i k, e.beq_sym i j, get-eq k j m)

-- `HashSet`.
module _ {ℓ} {K : Type ℓ} ⦃e : Eq K⦄ where
  unfoldable pub contains : K → List K → Bool
  contains k [] = false
  contains k (j ∷ s) = e.beq j k || contains k s

  unfoldable pub add : K → List K → List K
  unfolding contains
  add k s = if contains k s then s else k ∷ s

  pub contains-eq : (k j : K) (s : List K) → e.beq k j ≡ true → contains k s ≡ contains j s
  unfolding contains
  contains-eq k j [] h = refl
  contains-eq k j (i ∷ s) h =
      ground (arith, e.beq_left k j i, e.beq_sym i k, e.beq_sym i j, contains-eq k j s)

  pub contains-add : (k j : K) (s : List K) → contains j (add k s) ≡ (e.beq k j || contains j s)
  unfolding add
  contains-add k j s = elim (Bool-cases (contains k s)) [
    | inl h ↦ ground (arith, contains-eq k j s)
    | inr h ↦ ground arith
  ]
