-- ===== src/Reconcile/Binaries.antt =====
-- src/reconcile.rs: the programs that an entry of the configuration directory may belong to.
use config_guard.Base.{
  ◌≡◌, subst, inl, inr, true, false, List, [], ◌∷◌, none, some, arith, Any, All, Member, unwrap_or,
  Bool-cases, Option-cases,
}
use config_guard.Std.Bytes.{Bytes}
use config_guard.Std.FilePath.{FilePath, join, to_path}
use config_guard.Reconcile.{
  Disk, BinaryMatch, owner_names_for_entry, first_binary, first_match, find_associated_binary,
}

-- There is a program of the name in one of the directories.
abbrev pub HasBinary : Disk → List FilePath → Bytes → Type 0
HasBinary disk dirs owner = Any (λ dir. disk.exists (join dir (to_path owner)) ≡ true) dirs

abbrev pub HasNoBinary : Disk → List FilePath → Bytes → Type 0
HasNoBinary disk dirs owner = All (λ dir. disk.exists (join dir (to_path owner)) ≡ false) dirs

-- The names that an entry may have its program under.
abbrev pub names_of : FilePath → List Bytes
names_of entry = unwrap_or (owner_names_for_entry entry) []

first_binary-some :
    (disk : Disk) (owner : Bytes) (dirs : List FilePath) (binary : FilePath)
    → first_binary disk owner dirs ≡ some binary
    → HasBinary disk dirs owner
unfolding first_binary
first_binary-some disk owner [] binary h = cc
first_binary-some disk owner (dir ∷ dirs) binary h =
    elim (Bool-cases (disk.exists (join dir (to_path owner)))) [
      | inl e ↦ inl e
      | inr e ↦ inr (first_binary-some disk owner dirs binary (ground arith))
    ]

first_binary-none :
    (disk : Disk) (owner : Bytes) (dirs : List FilePath)
    → first_binary disk owner dirs ≡ none
    → HasNoBinary disk dirs owner
unfolding first_binary
first_binary-none disk owner [] h = tt
first_binary-none disk owner (dir ∷ dirs) h =
    (ground arith, first_binary-none disk owner dirs (ground arith))

first_match-some :
    (disk : Disk) (dirs : List FilePath) (owners : List Bytes) (m : BinaryMatch)
    → first_match disk dirs owners ≡ some m
    → Member m.owner owners × HasBinary disk dirs m.owner
unfolding first_match
first_match-some disk dirs [] m h = cc
first_match-some disk dirs (owner ∷ owners) m h =
    elim (Option-cases (first_binary disk owner dirs)) [
      | inl n ↦
          let (listed, there) = first_match-some disk dirs owners m (ground arith) in
          (inr listed, there)
      | inr (binary, e) ↦
          let same : owner ≡ m.owner = ground arith in
          (inl same, subst (HasBinary disk dirs) same (first_binary-some disk owner dirs binary e))
    ]

first_match-none :
    (disk : Disk) (dirs : List FilePath) (owners : List Bytes)
    → first_match disk dirs owners ≡ none
    → All (HasNoBinary disk dirs) owners
unfolding first_match
first_match-none disk dirs [] h = tt
first_match-none disk dirs (owner ∷ owners) h = (
  first_binary-none disk owner dirs (ground arith),
  first_match-none disk dirs owners (ground arith),
)

pub find_associated_binary-some :
    (disk : Disk) (entry : FilePath) (dirs : List FilePath) (m : BinaryMatch)
    → find_associated_binary disk entry dirs ≡ some m
    → Member m.owner (names_of entry) × HasBinary disk dirs m.owner
unfolding find_associated_binary
find_associated_binary-some disk entry dirs m h =
    elim (Option-cases (owner_names_for_entry entry)) [
      | inl n ↦ absurd (ground arith)
      | inr (owners, e) ↦ rw (e) (first_match-some disk dirs owners m (ground arith))
    ]

pub find_associated_binary-none :
    (disk : Disk) (entry : FilePath) (dirs : List FilePath)
    → find_associated_binary disk entry dirs ≡ none
    → All (HasNoBinary disk dirs) (names_of entry)
unfolding find_associated_binary
find_associated_binary-none disk entry dirs h = elim (Option-cases (owner_names_for_entry entry)) [
  | inl n ↦ rw (n) tt
  | inr (owners, e) ↦ rw (e) (first_match-none disk dirs owners (ground arith))
]
