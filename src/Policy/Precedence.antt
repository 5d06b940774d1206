-- ===== src/Policy/Precedence.antt =====
-- src/policy.rs: the order in which `Policy::decide` applies its rules, seen from the outside.
use config_guard.Base.{
  ◌≡◌, ◌≤◌, ◌⊎◌, refl, sym, subst, ◌↔◌, List, [], ◌∷◌, Any, Member, Bool, true, false, not, some,
  arith, inl, inr, if◌then◌else◌, Option-cases, is_some_and, All, All-at, list_beq, nat_eq,
}
use config_guard.Std.Bytes.{bytes}
use config_guard.Std.FilePath.{FilePath, file_name, starts_with}
use config_guard.Policy.Types.{
  ProcessSubject, AccessKind, read, write, destructive_write, Decision, allow, deny, prompt,
  DecisionReason, cross_owner_read, cross_owner_write, sensitive_read_by_dev_tool, sensitive_write,
  OwnedPath, PolicyConfig,
}
use config_guard.Policy.Subject.{subject_name, subjects_allow}
use config_guard.Policy.Decide.{
  default_decision, path_len, owner_for, allows, shared_path_allows, sensitive_dev_tool_access,
  prompt_for_sensitive_access, prompt_for_cross_owner_access, is_gitignore, decide,
}
use config_guard.Policy.Ownership.{owner_for-most_specific, sensitive-most_specific}

-- Whether the question put to the user is about a write.
abbrev pub asks_write : DecisionReason → Bool
asks_write cross_owner_read = false
asks_write sensitive_read_by_dev_tool = false
asks_write cross_owner_write = true
asks_write sensitive_write = true

abbrev pub is_read : AccessKind → Bool
is_read read = true
is_read write = false
is_read destructive_write = false

-- A subject that the owned path `o` admits: its owner, or one of its allowed subjects.
abbrev pub Admits : OwnedPath → ProcessSubject → Type 0
Admits o s = allows o s (subject_name s) ≡ true

-- The file `.gitignore` is open to every subject under every policy.
pub decide-gitignore :
    (c : PolicyConfig) (s : ProcessSubject) (t : FilePath) (a : AccessKind)
    → file_name t ≡ some (bytes ".gitignore")
    → decide c s t a ≡ allow
unfolding decide list_beq
decide-gitignore c s t a h = rw (h, decide) refl

-- An access is denied outright exactly if the target is no .gitignore and its most specific owned
-- path is strict and does not admit the subject.
pub decide-deny_iff :
    (c : PolicyConfig) (s : ProcessSubject) (t : FilePath) (a : AccessKind)
    → (decide c s t a ≡ deny) ↔ (
        (is_gitignore t ≡ false)
        × ((o : OwnedPath) × (owner_for c t ≡ some o)
            × (o.deny_non_owner ≡ true)
            × (allows o s (subject_name s) ≡ false)))
unfolding decide prompt_for_sensitive_access prompt_for_cross_owner_access
decide-deny_iff c s t a = (to, from)
  where
    to :
        decide c s t a ≡ deny
        → (is_gitignore t ≡ false)
          × ((o : OwnedPath) × (owner_for c t ≡ some o)
              × (o.deny_non_owner ≡ true)
              × (allows o s (subject_name s) ≡ false))
    to h = elim (Option-cases (owner_for c t)) [
      | inl e ↦ absurd (ground arith)
      | inr (o, e) ↦ (ground arith, (o, e, ground arith, ground arith))
    ]

    from :
        (is_gitignore t ≡ false)
          × ((o : OwnedPath) × (owner_for c t ≡ some o)
              × (o.deny_non_owner ≡ true)
              × (allows o s (subject_name s) ≡ false))
        → decide c s t a ≡ deny
    from h = ground arith

-- Whether the question is about a sensitive path.
abbrev pub is_sensitive : DecisionReason → Bool
is_sensitive cross_owner_read = false
is_sensitive cross_owner_write = false
is_sensitive sensitive_read_by_dev_tool = true
is_sensitive sensitive_write = true

-- The scope is the path of a rule of the configuration, and as long as each rule of its kind that covers the target: a
-- sensitive path if a developer tool asks, and an owned path else.
abbrev pub IsScope : PolicyConfig → ProcessSubject → FilePath → DecisionReason → FilePath → Type 0
IsScope c s t r scope =
    ((is_sensitive r ≡ true)
      × (subjects_allow c.dev_tools s (subject_name s) ≡ true)
      × Any (λ rule. rule.path ≡ scope) c.sensitive_paths
      × All (λ rule. starts_with t rule.path ≡ true → path_len rule.path ≤ path_len scope)
          c.sensitive_paths)
    ⊎ ((is_sensitive r ≡ false)
        × Any (λ o. o.path ≡ scope) c.owned_paths
        × All (λ o. starts_with t o.path ≡ true → path_len o.path ≤ path_len scope) c.owned_paths)

Any-at : {A : Type 0} (P : A → Type 0) (xs : List A) (x : A) → Member x xs → P x → Any P xs
Any-at P [] x m h = absurd m
Any-at P (y ∷ xs) x (inl e) h = inl (subst P (sym e) h)
Any-at P (y ∷ xs) x (inr m) h = inr (Any-at P xs x m h)

prompt_sensitive :
    (c : PolicyConfig) (a : AccessKind) (p : FilePath) (r : DecisionReason) (d : Decision)
    (scope : FilePath)
    → prompt_for_sensitive_access c a p ≡ prompt r d scope
    → (is_sensitive r ≡ true) × (p ≡ scope)
unfolding prompt_for_sensitive_access
prompt_sensitive c read p r d scope h = ground arith
prompt_sensitive c write p r d scope h = ground arith
prompt_sensitive c destructive_write p r d scope h = ground arith

prompt_cross_owner :
    (c : PolicyConfig) (a : AccessKind) (p : FilePath) (r : DecisionReason) (d : Decision)
    (scope : FilePath)
    → prompt_for_cross_owner_access c a p ≡ prompt r d scope
    → (is_sensitive r ≡ false) × (p ≡ scope)
unfolding prompt_for_cross_owner_access
prompt_cross_owner c read p r d scope h = ground arith
prompt_cross_owner c write p r d scope h = ground arith
prompt_cross_owner c destructive_write p r d scope h = ground arith

prompt-IsScope :
    (c : PolicyConfig) (s : ProcessSubject) (t : FilePath) (a : AccessKind) (r : DecisionReason)
    (d : Decision) (scope : FilePath)
    → decide c s t a ≡ prompt r d scope
    → (starts_with t scope ≡ true) × IsScope c s t r scope
unfolding decide sensitive_dev_tool_access
prompt-IsScope c s t a r d scope h =
    elim (Option-cases (sensitive_dev_tool_access c s (subject_name s) t)) [
      | inr (rule, e) ↦
          let (covers, listed, longest) =
            sensitive-most_specific c.sensitive_paths t rule (ground arith) in
          let asked : prompt_for_sensitive_access c a rule.path ≡ prompt r d scope = ground arith in
          let (sensitive, same) = prompt_sensitive c a rule.path r d scope asked in
          (
            ground arith,
            inl (
              sensitive,
              ground arith,
              Any-at (λ rule'. rule'.path ≡ scope) c.sensitive_paths rule listed same,
              subst
                  (λ p.
                    All (λ r'. starts_with t r'.path ≡ true → path_len r'.path ≤ path_len p)
                      c.sensitive_paths)
                  same longest,
            ),
          )
      | inl e ↦ elim (Option-cases (owner_for c t)) [
        | inl f ↦ absurd (ground arith)
        | inr (o, f) ↦
            let (covers, listed, longest) = owner_for-most_specific c t o f in
            let asked : prompt_for_cross_owner_access c a o.path ≡ prompt r d scope =
              ground arith in
            let (cross, same) = prompt_cross_owner c a o.path r d scope asked in
            (
              ground arith,
              inr (
                cross,
                Any-at (λ o'. o'.path ≡ scope) c.owned_paths o listed same,
                subst
                    (λ p.
                      All (λ o'. starts_with t o'.path ≡ true → path_len o'.path ≤ path_len p)
                        c.owned_paths)
                    same longest,
              ),
            )
      ]
    ]

-- A question is asked only about a target that no rule opens: it is no .gitignore, no shared path
-- admits the access, and the most specific owned path, if there is one, neither admits the subject
-- nor is strict. Its scope covers the target, and is the path of a configured rule, as long as each rule of its kind that
-- covers the target: a sensitive path if a developer tool is asked about it as sensitive, and an owned path for a question
-- about another owner's files. Its reason tells reads from writes, and its default is the configured Allow or Deny.
pub decide-prompt :
    (c : PolicyConfig) (s : ProcessSubject) (t : FilePath) (a : AccessKind) (r : DecisionReason)
    (d : Decision) (scope : FilePath)
    → decide c s t a ≡ prompt r d scope
    → (is_gitignore t ≡ false)
      × (shared_path_allows c s (subject_name s) t a ≡ false)
      × (is_some_and (owner_for c t) (λ o. allows o s (subject_name s)) ≡ false)
      × (is_some_and (owner_for c t) (λ o. o.deny_non_owner) ≡ false)
      × (starts_with t scope ≡ true)
      × IsScope c s t r scope
      × (asks_write r ≡ not (is_read a))
      × (d ≡ (if c.fail_open then allow else deny))
unfolding decide prompt_for_sensitive_access prompt_for_cross_owner_access default_decision
decide-prompt c s t a r d scope h = (
  ground arith,
  ground arith,
  ground arith,
  ground arith,
  (prompt-IsScope c s t a r d scope h).0,
  (prompt-IsScope c s t a r d scope h).1,
  reason a h,
  ground arith,
)
  where
    reason : (a : AccessKind) → decide c s t a ≡ prompt r d scope → asks_write r ≡ not (is_read a)
    reason read e = ground arith
    reason write e = ground arith
    reason destructive_write e = ground arith

-- If the most specific owned path is strict, the decision depends on nothing but the owned paths,
-- the subject and the target: neither the other rules of the configuration nor the kind of access
-- have any influence.
pub decide-strict :
    (c c' : PolicyConfig) (s : ProcessSubject) (t : FilePath) (a a' : AccessKind) (o : OwnedPath)
    → owner_for c t ≡ some o
    → o.deny_non_owner ≡ true
    → c'.owned_paths ≡ c.owned_paths
    → decide c' s t a' ≡ decide c s t a
unfolding decide owner_for
decide-strict c c' s t a a' o h strict same =
    let h' : owner_for c' t ≡ some o = rw same h in ground arith

-- What no owned path and no sensitive path covers is allowed, whoever asks.
pub decide-unlisted :
    (c : PolicyConfig) (s : ProcessSubject) (t : FilePath) (a : AccessKind)
    → All (λ o. starts_with t o.path ≡ false) c.owned_paths
    → All (λ r. starts_with t r.path ≡ false) c.sensitive_paths
    → decide c s t a ≡ allow
unfolding decide sensitive_dev_tool_access
decide-unlisted c s t a owned sensitive = elim (Option-cases (owner_for c t)) [
  | inr (o, e) ↦
      let (covers, listed, _) = owner_for-most_specific c t o e in
      let not_covers = All-at (λ o'. starts_with t o'.path ≡ false) c.owned_paths o owned listed in
      absurd (ground arith)
  | inl e ↦ elim (Option-cases (sensitive_dev_tool_access c s (subject_name s) t)) [
    | inl f ↦ ground arith
    | inr (rule, f) ↦
        let (covers, listed, _) = sensitive-most_specific c.sensitive_paths t rule (ground arith) in
        let not_covers =
          All-at (λ r'. starts_with t r'.path ≡ false) c.sensitive_paths rule sensitive listed in
        absurd (ground arith)
  ]
]
