-- ===== src/Fanotify/AuditProcess/Recency.antt =====
-- The abstract view of the process cache: one list of distinct generations, oldest first.
use config_guard.Base.{
  ℕ, suc, ◌+◌, ◌≤◌, ◌<◌, ◌≡◌, refl, ap, ◌∙◌, sym, inl, inr, true, false, List, [], ◌∷◌, ◌++◌, map,
  none, arith, ◌==◌, leb, if◌then◌else◌, length, length-append, Bool-cases,
}
use config_guard.Std.Map as Map
use config_guard.Std.Map.{Map, get-remove, get-insert, get-eq}
use config_guard.Std.Distinct.{
  IsDistinct, present, length-remove, remove-IsDistinct, insert_new, get-append, append-IsDistinct,
  remove_absent,
}
use config_guard.Process.Identity.{ProcessIdentity}
use config_guard.Fanotify.AuditProcess.{
  ProcessGeneration, generation_beq, generation_refl, generation_sound, generation_eq,
  CachedIdentity, AuditProcessCache, remove_queued, remove, evict_loop, evict_oldest_if_full, store,
  with_limits, insert_at,
}

abbrev pub Entries : Type 0
Entries = Map ProcessGeneration CachedIdentity

abbrev pub generations : Entries → List ProcessGeneration
generations = map (λ e. e.0)

unfoldable pub trim : ℕ → Entries → Entries
trim capacity [] = []
trim capacity (e ∷ l) = if leb capacity (suc (length l)) then trim capacity l else e ∷ l

-- The map of a cache shows a list of entries: it finds what the list does, and it is as long.
pub record Shows (m l : Entries) : Type 0 where
  pub finds : (g : ProcessGeneration) → Map.get g m ≡ Map.get g l
  pub size : length m ≡ length l
  pub single : IsDistinct m
  pub distinct : IsDistinct l

-- A cache is the list of entries that its map shows in its insertion order, and the list fits the
-- capacity.
pub record Refines (c : AuditProcessCache) (l : Entries) : Type 0 where
  pub shows : Shows c.identities l
  pub order : c.insertion_order ≡ generations l
  pub bounded : length l ≤ c.capacity

generations-remove :
    (g : ProcessGeneration) (l : Entries)
    → IsDistinct l
    → generations (Map.remove g l) ≡ remove_queued g (generations l)
unfolding Map.remove remove_queued
generations-remove g [] d = refl
generations-remove g ((j, v) ∷ l) d = elim (Bool-cases (generation_beq j g)) [
  | inl e ↦
      rw (e, Map.remove, remove_queued)
        (ap generations (remove_absent g l (rw (← generation_sound j g e) d.0)))
  | inr e ↦ rw (e, Map.remove, remove_queued) (ap (◌∷◌ j) (generations-remove g l d.1))
]

generations-append :
    (g : ProcessGeneration) (v : CachedIdentity) (l : Entries)
    → generations (l ++ (g, v) ∷ []) ≡ generations l ++ g ∷ []
generations-append g v [] = refl
generations-append g v ((j, w) ∷ l) = ap (◌∷◌ j) (generations-append g v l)

remove-Shows :
    (m l : Entries) (g : ProcessGeneration) → Shows m l → Shows (Map.remove g m) (Map.remove g l)
remove-Shows m l g h = record {
  finds = λ j. ground (arith, get-remove g j m, get-remove g j l, h.finds j);
  size =
      let same = ap present (h.finds g) in
      omega (arith, length-remove g m h.single, length-remove g l h.distinct, h.size, same);
  single = remove-IsDistinct g m h.single;
  distinct = remove-IsDistinct g l h.distinct;
}

drop_first-Shows :
    (m l : Entries) (g : ProcessGeneration) (v : CachedIdentity)
    → Shows m ((g, v) ∷ l)
    → Shows (Map.remove g m) l
unfolding Map.get
drop_first-Shows m l g v h = record {
  finds = λ j. ground (arith, get-remove g j m, h.finds j, get-eq g j l, generation_sound g j);
  size =
      let same = ap present (h.finds g) in
      ground (arith, length-remove g m h.single, h.size, same, generation_refl g);
  single = remove-IsDistinct g m h.single;
  distinct = h.distinct.1;
}

-- The loop drops the oldest entries until there is room.
pub evict_loop-trim :
    (capacity : ℕ) (m l : Entries)
    → Shows m l
    → let r = evict_loop capacity m (generations l) in
      Shows r.0 (trim capacity l) × (r.1 ≡ generations (trim capacity l))
unfolding evict_loop trim
evict_loop-trim capacity m [] h = (h, refl)
evict_loop-trim capacity m ((g, v) ∷ l) h = elim (Bool-cases (leb capacity (length m))) [
  | inl full ↦
      let full' : leb capacity (suc (length l)) ≡ true = rw h.size at full in
      rw (full, full') (evict_loop-trim capacity (Map.remove g m) l (drop_first-Shows m l g v h))
  | inr room ↦
      let room' : leb capacity (suc (length l)) ≡ false = rw h.size at room in
      rw (room, room') (h, refl)
]

pub length-trim :
    (capacity : ℕ) (l : Entries) → 0 < capacity → length (trim capacity l) + 1 ≤ capacity
unfolding trim
length-trim capacity [] h = omega arith
length-trim capacity (e ∷ l) h = ground (arith, length-trim capacity l)

-- What the list finds after a trim, it found before.
pub get-trim-none :
    (g : ProcessGeneration) (capacity : ℕ) (l : Entries)
    → Map.get g l ≡ none
    → Map.get g (trim capacity l) ≡ none
unfolding Map.get trim
get-trim-none g capacity [] h = refl
get-trim-none g capacity ((j, v) ∷ l) h = ground (arith, get-trim-none g capacity l)

append-Shows :
    (m l : Entries) (g : ProcessGeneration) (v : CachedIdentity)
    → Map.get g l ≡ none
    → Shows m l
    → Shows (Map.insert g v m) (l ++ (g, v) ∷ [])
append-Shows m l g v absent h =
    let absent' : Map.get g m ≡ none = h.finds g ∙ absent in
    record {
      finds = λ j. ground (arith, get-insert g j v m, get-append g j v l absent, h.finds j);
      size =
          rw (insert_new g v m absent')
            (omega (arith, length-append m ((g, v) ∷ []), length-append l ((g, v) ∷ []), h.size));
      single = rw (insert_new g v m absent') (append-IsDistinct g v m h.single absent');
      distinct = append-IsDistinct g v l h.distinct absent;
    }

pub with_limits-Refines : (capacity ttl : ℕ) → Refines (with_limits capacity ttl) []
unfolding with_limits
with_limits-Refines capacity ttl = record {
  shows = record { finds = λ g. refl; size = refl; single = tt; distinct = tt };
  order = refl;
  bounded = omega arith;
}

pub remove-Refines :
    (c : AuditProcessCache) (l : Entries) (g : ProcessGeneration)
    → Refines c l
    → Refines (remove c g) (Map.remove g l)
unfolding remove
remove-Refines c l g h = record {
  shows = remove-Shows c.identities l g h.shows;
  order = rw h.order (sym (generations-remove g l h.shows.distinct));
  bounded = omega (arith, length-remove g l h.shows.distinct, h.bounded);
}

abbrev cached_at : ProcessIdentity → ℕ → CachedIdentity
cached_at identity now = record { identity = identity; recorded_at = now }

-- What an insertion makes of the list: the generation's earlier entry goes, then the oldest ones until
-- there is room, and the new entry comes last. A list without capacity stays as it is.
unfoldable pub record_entry : ℕ → ProcessGeneration → CachedIdentity → Entries → Entries
record_entry capacity g cached l =
    if capacity == 0 then l else trim capacity (Map.remove g l) ++ (g, cached) ∷ []

get-remove_self : (g : ProcessGeneration) (l : Entries) → Map.get g (Map.remove g l) ≡ none
get-remove_self g l = ground (arith, get-remove g g l, generation_refl g)

pub absent_after_trim :
    (capacity : ℕ) (g : ProcessGeneration) (l : Entries)
    → Map.get g (trim capacity (Map.remove g l)) ≡ none
absent_after_trim capacity g l = get-trim-none g capacity (Map.remove g l) (get-remove_self g l)

-- `insert_at` records the entry in the list.
pub insert_at-Refines :
    (c : AuditProcessCache) (l : Entries) (g : ProcessGeneration) (identity : ProcessIdentity)
    (now : ℕ)
    → Refines c l
    → Refines
        (insert_at c g identity now)
        (record_entry c.capacity g (record { identity = identity; recorded_at = now }) l)
unfolding insert_at record_entry evict_oldest_if_full store remove
insert_at-Refines c l g identity now h = elim (Bool-cases (c.capacity == 0)) [
  | inl none_held ↦ rw (none_held, insert_at, record_entry) h
  | inr some_held ↦
      let gone = remove-Refines c l g h in
      let (shows, order) =
        evict_loop-trim c.capacity (remove c g).identities (Map.remove g l) gone.shows in
      let pos : 0 < c.capacity = ground arith in
      rw (some_held, insert_at, record_entry, gone.order)
        (record {
          shows =
              append-Shows _ (trim c.capacity (Map.remove g l)) g (cached_at identity now)
                (absent_after_trim c.capacity g l) shows;
          order = rw order (
              sym
                (generations-append g (cached_at identity now) (trim c.capacity (Map.remove g l))));
          bounded = omega (
            arith,
            length-append (trim c.capacity (Map.remove g l)) ((g, cached_at identity now) ∷ []),
            length-trim c.capacity (Map.remove g l) pos,
          );
        })
]
