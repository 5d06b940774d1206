-- ===== src/Fanotify/Watch/Children.antt =====
-- src/fanotify/watch.rs: the directories that `child_directories` finds in a directory.
use config_guard.Base.{
  ◌≡◌, ◌⊎◌, refl, sym, ap, subst, inl, inr, true, false, List, [], ◌∷◌, Option, none, some, arith,
  Member, Option-cases, Bool-cases,
}
use config_guard.Std.FilePath.{FilePath}
use config_guard.Fanotify.Events.{is_excluded}
use config_guard.Fanotify.Watch.{DirEntry, Kernel, directories, child_directories}

-- An entry of a list that is a directory, not excluded, and at the path.
abbrev IsListed : List FilePath → List (Option DirEntry) → FilePath → Type 0
IsListed excluded_paths entries c =
    (entry : DirEntry) × Member (some entry) entries
    × (entry.is_dir ≡ some true)
    × (is_excluded entry.path excluded_paths ≡ false)
    × (entry.path ≡ c)

-- The directory holds an entry that is a directory, not excluded, and at the path.
abbrev pub IsChild : Kernel → List FilePath → FilePath → FilePath → Type 0
IsChild k excluded_paths p c =
    (entries : List (Option DirEntry)) × (k.read_dir p ≡ some entries)
    × IsListed excluded_paths entries c

IsListed-cons :
    (excluded_paths : List FilePath) (x : Option DirEntry) (entries : List (Option DirEntry))
    (c : FilePath)
    → IsListed excluded_paths entries c
    → IsListed excluded_paths (x ∷ entries) c
IsListed-cons excluded_paths x entries c (entry, m, dir, kept, at) = (entry, inr m, dir, kept, at)

-- An entry is taken first, or it is passed over and then is not a directory or is excluded.
directories-cases :
    (excluded_paths : List FilePath) (x : DirEntry) (entries : List (Option DirEntry))
    (children : List FilePath)
    → directories excluded_paths (some x ∷ entries) ≡ some children
    → (rest : List FilePath) × (directories excluded_paths entries ≡ some rest)
      × (((x.is_dir ≡ some true)
            × (is_excluded x.path excluded_paths ≡ false)
            × (children ≡ x.path ∷ rest))
          ⊎ (((x.is_dir ≡ some false) ⊎ (is_excluded x.path excluded_paths ≡ true))
              × (children ≡ rest)))
unfolding directories
directories-cases excluded_paths x entries children h =
    elim (Option-cases (directories excluded_paths entries)) [
      | inl n ↦ elim (Option-cases x.is_dir) [
        | inl o ↦ absurd (ground arith)
        | inr (dir, o) ↦ absurd (ground arith)
      ]
      | inr (rest, e) ↦ elim (Option-cases x.is_dir) [
        | inl o ↦ absurd (ground arith)
        | inr (false, o) ↦ (rest, e, inr (inl o, ground arith))
        | inr (true, o) ↦ elim (Bool-cases (is_excluded x.path excluded_paths)) [
          | inl q ↦ (rest, e, inr (inr q, ground arith))
          | inr q ↦ (rest, e, inl (o, q, ground arith))
        ]
      ]
    ]

directories-IsListed :
    (excluded_paths : List FilePath) (entries : List (Option DirEntry)) (children : List FilePath)
    → directories excluded_paths entries ≡ some children
    → (c : FilePath) → Member c children
    → IsListed excluded_paths entries c
unfolding directories
directories-IsListed excluded_paths [] children h c m =
    let same : children ≡ [] = cc in absurd (subst (Member c) same m)
directories-IsListed excluded_paths (none ∷ entries) children h c m = cc
directories-IsListed excluded_paths (some x ∷ entries) children h c m =
    let (rest, e, taken) = directories-cases excluded_paths x entries children h in
    elim taken [
      | inr (passed, same) ↦
          IsListed-cons excluded_paths (some x) entries c
            (directories-IsListed excluded_paths entries rest e c (subst (Member c) same m))
      | inl (dir, kept, same) ↦ elim (subst (Member c) same m) [
        | inl at ↦ (x, inl refl, dir, kept, at)
        | inr n ↦
            IsListed-cons excluded_paths (some x) entries c
              (directories-IsListed excluded_paths entries rest e c n)
      ]
    ]

Member-directories :
    (excluded_paths : List FilePath) (entries : List (Option DirEntry)) (children : List FilePath)
    → directories excluded_paths entries ≡ some children
    → (entry : DirEntry) → Member (some entry) entries
    → entry.is_dir ≡ some true
    → is_excluded entry.path excluded_paths ≡ false
    → Member entry.path children
unfolding directories
Member-directories excluded_paths [] children h entry m dir kept = absurd m
Member-directories excluded_paths (none ∷ entries) children h entry m dir kept = cc
Member-directories excluded_paths (some x ∷ entries) children h entry (inl at) dir kept =
    let is : x ≡ entry = cc in
    let (rest, e, taken) = directories-cases excluded_paths x entries children h in
    elim taken [
      | inr (passed, same) ↦ elim passed [
        | inl file ↦ absurd (cc (ap (λ (y : DirEntry). y.is_dir) is, file, dir))
        | inr out ↦
            absurd (cc (ap (λ (y : DirEntry). is_excluded y.path excluded_paths) is, out, kept))
      ]
      | inl (d, q, same) ↦
          subst (Member entry.path) (sym same) (inl (ap (λ (y : DirEntry). y.path) is))
    ]
Member-directories excluded_paths (some x ∷ entries) children h entry (inr m) dir kept =
    let (rest, e, taken) = directories-cases excluded_paths x entries children h in
    elim taken [
      | inr (passed, same) ↦
          subst (Member entry.path) (sym same)
            (Member-directories excluded_paths entries rest e entry m dir kept)
      | inl (d, q, same) ↦
          subst (Member entry.path) (sym same)
            (inr (Member-directories excluded_paths entries rest e entry m dir kept))
    ]

pub child_directories-IsChild :
    (k : Kernel) (excluded_paths : List FilePath) (p : FilePath) (children : List FilePath)
    → child_directories k excluded_paths p ≡ some children
    → (c : FilePath) → Member c children
    → IsChild k excluded_paths p c
unfolding child_directories
child_directories-IsChild k excluded_paths p children h c m = elim (Option-cases (k.read_dir p)) [
  | inl n ↦ absurd (ground arith)
  | inr (entries, e) ↦
      (entries, e, directories-IsListed excluded_paths entries children (ground arith) c m)
]

pub IsChild-child_directories :
    (k : Kernel) (excluded_paths : List FilePath) (p : FilePath) (children : List FilePath)
    → child_directories k excluded_paths p ≡ some children
    → (c : FilePath) → IsChild k excluded_paths p c
    → Member c children
unfolding child_directories
IsChild-child_directories k excluded_paths p children h c (entries, e, (entry, m, dir, kept, at)) =
    subst (λ q. Member q children) at
      (Member-directories excluded_paths entries children (ground arith) entry m dir kept)
