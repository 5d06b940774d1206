-- ===== src/Fanotify/Audit/Harmless.antt =====
-- src/fanotify.rs: the loop of the audit modes over any reads forbids nothing.
use config_guard.Base.{
  ℕ, ◌≡◌, refl, sym, subst, ◌⊎◌, inl, inr, true, false, List, [], ◌∷◌, ◌++◌, Option, none, some,
  arith, All, Bool-cases, Option-cases,
}
use config_guard.Base.Int.{ℤ, pos, negsuc}
use config_guard.Std.Bytes.{Bytes, take}
use config_guard.Std.FilePath.{FilePath}
use config_guard.Policy.Types.{allow}
use config_guard.Fanotify.AuditProcess.{ProcessGeneration}
use config_guard.Fanotify.Events.{
  Effect, respond, close, Error, Status, ok, err, Io, has_flag, fan_q_overflow, response_code,
  ensure_event_descriptor, read_failed, is_permission_event,
}
use config_guard.Fanotify.EventBuffer.{
  EventMetadata, Identify, Generation, generation, no_generation, process_generation,
  handle_with_generation,
}
use config_guard.Fanotify.EventBuffer.Framing.{serve, process_event_buffer-Cut}
use config_guard.Fanotify.Guard.Answers.{answer_calls, Status-cases}
use config_guard.Fanotify.Guard.Loop.{Metadata}
use config_guard.Fanotify.Audit.Handler.{EventFacts, AuditState, is_audit, handle_event}
use config_guard.Fanotify.Audit.Passive.{handle_event-forbids_nothing}
use config_guard.Fanotify.Audit.Run.{
  AuditRun, AuditRead, metadata_of, on_event, read_events, read_loop,
}

-- An answer of the code is Allow; other calls are free.
unfoldable pub IsAllowed : Effect → Type 0
IsAllowed (respond fd code) = code ≡ response_code allow
IsAllowed (close fd) = Unit

abbrev pub IsHarmlessRun : AuditRun → Type 0
IsHarmlessRun r = (is_audit r.state.mode ≡ true) × All IsAllowed r.effects

All-append : (es fs : List Effect) → All IsAllowed es → All IsAllowed fs → All IsAllowed (es ++ fs)
All-append [] fs h k = k
All-append (e ∷ es) fs h k = (h.0, All-append es fs h.1 k)

answer_calls-IsAllowed : (fd mask : ℕ) → All IsAllowed (answer_calls fd mask allow)
unfolding answer_calls IsAllowed
answer_calls-IsAllowed fd mask = elim (Bool-cases (is_permission_event mask)) [
  | inl e ↦ rw (e, answer_calls) (refl, (tt, tt))
  | inr e ↦ rw (e, answer_calls) (tt, tt)
]

ensure-ok :
    (mask : ℕ) (fd : ℤ)
    → ensure_event_descriptor mask fd ≡ ok
    → (n : ℕ) × (fd ≡ pos n) × (has_flag mask fan_q_overflow ≡ false)
unfolding ensure_event_descriptor
ensure-ok mask (negsuc n) h = absurd (ground arith)
ensure-ok mask (pos n) h = (n, refl, ground arith)

Generation-cases :
    (x : Generation)
    → ((g : Option ProcessGeneration) × (x ≡ generation g)) ⊎ ((e : Error) × (x ≡ no_generation e))
Generation-cases (generation g) = inl (g, refl)
Generation-cases (no_generation e) = inr (e, refl)

closing : (fd : ℕ) → All IsAllowed (close fd ∷ [])
unfolding IsAllowed
closing fd = (tt, tt)

module _ (paths excluded_paths : List FilePath) (io : Io) (identify : Identify)
    (facts_of : AuditRun → EventMetadata → EventFacts) where
  handle_event-IsAllowed :
      (m : Metadata) (facts : EventFacts) (s : AuditState)
      → is_audit s.mode ≡ true
      → (is_audit (handle_event paths excluded_paths io m facts s).state.mode ≡ true)
        × All IsAllowed (handle_event paths excluded_paths io m facts s).effects
  unfolding handle_event
  handle_event-IsAllowed m facts s h = elim (Status-cases (ensure_event_descriptor m.mask m.fd)) [
    | inr (e, b) ↦ rw (b, handle_event) (h, tt)
    | inl good ↦
        let (fd, e, q) = ensure-ok m.mask m.fd good in
        let (a, st, b, c) =
          handle_event-forbids_nothing paths excluded_paths io m facts s h fd e q in
        (
          a,
          elim c [
            | inl calls ↦ subst (All IsAllowed) (sym calls) (answer_calls-IsAllowed fd m.mask)
            | inr (calls, x, y) ↦ subst (All IsAllowed) (sym calls) (closing fd)
          ],
        )
  ]

  on_event-IsHarmlessRun :
      (m : EventMetadata) (g : Option ProcessGeneration) (r : AuditRun)
      → IsHarmlessRun r
      → IsHarmlessRun (on_event paths excluded_paths io identify facts_of m g r).1
  unfolding on_event
  on_event-IsHarmlessRun m g r h =
      let facts = record (facts_of r m) { generation = g } in
      let (a, b) = handle_event-IsAllowed (metadata_of m) facts r.state h.0 in
      (a, All-append r.effects _ h.1 b)

  abbrev handler : Bytes → EventMetadata → AuditRun → Status × AuditRun
  handler = handle_with_generation identify io (on_event paths excluded_paths io identify facts_of)

  handler-IsHarmlessRun :
      (event : Bytes) (m : EventMetadata) (r : AuditRun)
      → IsHarmlessRun r
      → IsHarmlessRun (handler event m r).1
  unfolding handle_with_generation
  handler-IsHarmlessRun event m r h = elim (Option-cases (process_generation identify io event m)) [
    | inl n ↦ rw (n, handle_with_generation) h
    | inr (x, e) ↦ elim (Generation-cases x) [
      | inl (g, b) ↦ rw (e, handle_with_generation, b) (on_event-IsHarmlessRun m g r h)
      | inr (y, b) ↦ rw (e, handle_with_generation, b) h
    ]
  ]

  serve-IsHarmlessRun :
      (events : List (Bytes × EventMetadata)) (end : Status) (r : AuditRun)
      → IsHarmlessRun r
      → IsHarmlessRun (serve handler events end r).1
  unfolding serve
  serve-IsHarmlessRun [] end r h = h
  serve-IsHarmlessRun ((event, m) ∷ events) end r h =
      let done = handler event m r in
      let next = handler-IsHarmlessRun event m r h in
      elim (Status-cases done.0) [
        | inl e ↦ rw (e, serve) (serve-IsHarmlessRun events end done.1 next)
        | inr (x, e) ↦ rw (e, serve) next
      ]

  read_events-IsHarmlessRun :
      (bs : Option Bytes) (r : AuditRun)
      → IsHarmlessRun r
      → (s : Status) × (t : AuditRun) × (read_events paths excluded_paths io identify facts_of bs r
          ≡ some (s, t))
        × IsHarmlessRun t
  unfolding read_events
  read_events-IsHarmlessRun none r h = (err read_failed, r, refl, h)
  read_events-IsHarmlessRun (some bs) r h =
      let (c, served) = process_event_buffer-Cut identify io (take 8192 bs) in
      let result = serve handler c.events c.end r in
      (
        result.0,
        result.1,
        served AuditRun (on_event paths excluded_paths io identify facts_of) r,
        serve-IsHarmlessRun c.events c.end r h,
      )

module _ (paths excluded_paths : List FilePath)
    (facts_of : AuditRun → EventMetadata → EventFacts) where
  -- The loop of an audit mode, over any reads, ends without a panic of its own in some state, whatever procfs, the
  -- policy, the user and, at each read, the kernel say: it is still an audit mode, and each answer that the kernel got
  -- is Allow.
  pub read_loop-forbids_nothing :
      (reads : List AuditRead) (r : AuditRun)
      → IsHarmlessRun r
      → (s : Status) × (t : AuditRun) × (read_loop paths excluded_paths facts_of reads r
          ≡ some (s, t))
        × IsHarmlessRun t
  unfolding read_loop
  read_loop-forbids_nothing [] r h = (ok, r, refl, h)
  read_loop-forbids_nothing (now ∷ reads) r h =
      let (s, t, e, k) =
        read_events-IsHarmlessRun paths excluded_paths now.io now.identify facts_of now.bytes_read r
          h in
      elim (Status-cases s) [
        | inr (x, b) ↦ (s, t, ground (arith, e, b), k)
        | inl b ↦
            let (u, v, f, l) = read_loop-forbids_nothing reads t k in
            (u, v, ground (arith, e, b, f), l)
      ]
