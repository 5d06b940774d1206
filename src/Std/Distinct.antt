-- ===== src/Std/Distinct.antt =====
-- Maps in which no key stands twice, as those of `HashMap`, and their sizes.
use config_guard.Base.{
  ℕ, ◌+◌, ◌≡◌, refl, [], ◌∷◌, ◌++◌, Option, none, some, arith, Eq, if◌then◌else◌, length,
}
use config_guard.Std.Map.{Map, get, insert, remove, get-remove, get-insert, get-eq}

abbrev pub present {ℓ} : {V : Type ℓ} → Option V → ℕ
present none = 0
present (some v) = 1

module _ {ℓ κ} {K : Type ℓ} {V : Type κ} ⦃e : Eq K⦄ where
  abbrev pub IsDistinct : Map K V → Type κ
  IsDistinct [] = Unit
  IsDistinct ((k, v) ∷ m) = (get k m ≡ none) × IsDistinct m

  pub length-remove :
      (k : K) (m : Map K V) → IsDistinct m → length (remove k m) + present (get k m) ≡ length m
  unfolding remove get
  length-remove k [] d = omega arith
  length-remove k ((j, v) ∷ m) d = ground (arith, length-remove k m d.1, get-eq j k m)

  pub remove-IsDistinct : (k : K) (m : Map K V) → IsDistinct m → IsDistinct (remove k m)
  unfolding remove
  remove-IsDistinct k [] d = tt
  remove-IsDistinct k ((j, v) ∷ m) d = ground (arith, remove-IsDistinct k m d.1, get-remove k j m)

  pub insert_new : (k : K) (v : V) (m : Map K V) → get k m ≡ none → insert k v m ≡ m ++ (k, v) ∷ []
  unfolding insert get
  insert_new k v [] h = refl
  insert_new k v ((j, w) ∷ m) h = ground (arith, insert_new k v m)

  pub get-append :
      (k j : K) (v : V) (m : Map K V)
      → get k m ≡ none
      → get j (m ++ (k, v) ∷ []) ≡ (if e.beq k j then some v else get j m)
  get-append k j v m h = rw (← insert_new k v m h) (get-insert k j v m)

  pub append-IsDistinct :
      (k : K) (v : V) (m : Map K V) → IsDistinct m → get k m ≡ none → IsDistinct (m ++ (k, v) ∷ [])
  unfolding get
  append-IsDistinct k v [] d h = (refl, tt)
  append-IsDistinct k v ((j, w) ∷ m) d h =
      ground (arith, append-IsDistinct k v m d.1, get-append k j v m, e.beq_sym j k)

  pub remove_absent : (k : K) (m : Map K V) → get k m ≡ none → remove k m ≡ m
  unfolding remove get
  remove_absent k [] h = refl
  remove_absent k ((j, v) ∷ m) h = ground (arith, remove_absent k m)

  pub insert-IsDistinct : (k : K) (v : V) (m : Map K V) → IsDistinct m → IsDistinct (insert k v m)
  unfolding insert get
  insert-IsDistinct k v [] d = (refl, tt)
  insert-IsDistinct k v ((j, w) ∷ m) d =
      ground (arith, insert-IsDistinct k v m d.1, get-insert k j v m, e.beq_sym j k)
