-- ===== src/Fanotify/EventBuffer/Records.antt =====
-- src/fanotify/event.rs: the loop over the information records of an event ends.
use config_guard.Base.{
  ℕ, zero, suc, ◌-◌, ◌≤◌, ◌≡◌, refl, inl, inr, ◌||◌, [], ◌∷◌, ◌++◌, Option, some, arith, ◌==◌, ltb,
  length, Bool-cases,
}
use config_guard.Std.Bytes.{Bytes}
use config_guard.Fanotify.Events.{Io, bad_info_length, truncated_header, truncated_pidfd}
use config_guard.Fanotify.EventBuffer.{
  take, drop, field, EventMetadata, info_header_size, info_pidfd_size, info_type_pidfd, Info,
  malformed, pidfd, to_i32, info_step, info_loop, Identify, Generation, generation_of,
  process_generation,
}

pub length-drop : (n : ℕ) (bs : Bytes) → length (drop n bs) ≡ length bs - n
length-drop n [] = omega arith
length-drop n (b ∷ bs) = ground (arith, length-drop (n - 1) bs)

pub length-take : (n : ℕ) (bs : Bytes) → n ≤ length bs → length (take n bs) ≡ n
length-take n [] h = omega arith
length-take n (b ∷ bs) h = ground (arith, length-take (n - 1) bs)

pub take-drop : (n : ℕ) (bs : Bytes) → take n bs ++ drop n bs ≡ bs
take-drop n [] = refl
take-drop n (b ∷ bs) = ground (arith, take-drop (n - 1) bs)

-- What follows a record counts only if the record is well-formed, thus not empty.
info_step-some :
    (remaining : Bytes) (rest : Option Info)
    → (4 ≤ field 2 2 remaining
        → field 2 2 remaining ≤ length remaining
        → (i : Info) × (rest ≡ some i))
    → (i : Info) × (info_step remaining rest ≡ some i)
unfolding info_step
info_step-some remaining rest h = elim (Bool-cases (ltb (length remaining) info_header_size)) [
  | inl a ↦ (malformed truncated_header, ground (arith, a))
  | inr a ↦
      elim (Bool-cases (
        ltb (field 2 2 remaining) info_header_size
        || ltb (length remaining) (field 2 2 remaining))) [
          | inl b ↦ (malformed bad_info_length, ground (arith, a, b))
          | inr b ↦ elim (Bool-cases (field 0 1 remaining == info_type_pidfd)) [
            | inl c ↦ elim (Bool-cases (ltb (field 2 2 remaining) info_pidfd_size)) [
              | inl d ↦ (malformed truncated_pidfd, ground (arith, a, b, c, d))
              | inr d ↦ (pidfd (to_i32 (field 4 4 remaining)), ground (arith, a, b, c, d))
            ]
            | inr c ↦
                let (i, e) = h (ground (arith, b)) (ground (arith, b)) in
                (i, ground (arith, a, b, c, e))
          ]
        ]
]

info_loop-some :
    (n : ℕ) (remaining : Bytes)
    → length remaining ≤ n
    → (i : Info) × (info_loop n remaining ≡ some i)
unfolding info_loop
info_loop-some zero [] h = (_, refl)
info_loop-some zero (b ∷ bs) h = absurd (omega (arith, h))
info_loop-some (suc n) [] h = (_, refl)
info_loop-some (suc n) (b ∷ bs) h = info_step-some (b ∷ bs) _ (λ low high.
    info_loop-some n (drop (field 2 2 (b ∷ bs)) (b ∷ bs))
      (omega (arith, length-drop (field 2 2 (b ∷ bs)) (b ∷ bs), low, h)))

-- The search of an event for the generation of its process ends, whatever its bytes and whatever
-- length its header gives for the metadata.
pub process_generation-some :
    (identify : Identify) (io : Io) (event : Bytes) (m : EventMetadata)
    → (g : Generation) × (process_generation identify io event m ≡ some g)
unfolding process_generation
process_generation-some identify io event m =
    let (i, e) =
      info_loop-some (length event) (drop m.metadata_len event)
        (omega (arith, length-drop m.metadata_len event)) in
    (generation_of identify io i, ground (arith, e))
