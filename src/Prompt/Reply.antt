-- ===== src/Prompt/Reply.antt =====
-- src/prompt.rs: what an answer of authd's prompt rests on.
use config_guard.Base.{
  ℕ, ◌≡◌, ◌⊎◌, refl, inl, inr, true, [], ◌∷◌, Option, none, some, arith, Option-cases,
}
use config_guard.Std.Bytes.{Bytes, take}
use config_guard.Policy.Types.{allow, deny}
use config_guard.Prompt.Types.{PromptAnswer, explicit, default, PromptRequest}
use config_guard.Prompt.Adapters.{AuthResponse, authd, authd_answer}
use config_guard.Prompt.Authd.{
  Socket, auth_request, ipc_buffer_size, read_response, call_authd, authd_prompt,
}

-- The request was written to the socket, and the first bytes that came back are a reply.
pub record IsReplied (s : Socket) (request : PromptRequest) (response : AuthResponse) : Type 0 where
  pub payload : Bytes
  pub first : ℕ
  pub others : Bytes
  pub received : Bytes
  pub connected : s.connects ≡ true
  pub encoded : s.encode (auth_request request) ≡ some payload
  pub sent : s.writes payload ≡ true
  pub came : s.received ≡ some received
  pub seen : take ipc_buffer_size received ≡ first ∷ others
  pub decoded : s.decode (first ∷ others) ≡ some response

Bytes-cases : (bs : Bytes) → (bs ≡ []) ⊎ ((b : ℕ) × (rest : Bytes) × (bs ≡ b ∷ rest))
Bytes-cases [] = inl refl
Bytes-cases (b ∷ rest) = inr (b, rest, refl)

read_response-some :
    (s : Socket) (response : AuthResponse)
    → read_response s ≡ some response
    → (bs : Bytes) × (b : ℕ) × (read : Bytes) × (s.received ≡ some bs)
      × (take ipc_buffer_size bs ≡ b ∷ read)
      × (s.decode (b ∷ read) ≡ some response)
unfolding read_response
read_response-some s response h = elim (Option-cases s.received) [
  | inl n ↦ absurd (ground arith)
  | inr (bs, e) ↦ elim (Bytes-cases (take ipc_buffer_size bs)) [
    | inl n ↦ absurd (ground arith)
    | inr (b, read, f) ↦ (bs, b, read, e, f, ground arith)
  ]
]

call_authd-some :
    (s : Socket) (request : PromptRequest) (response : AuthResponse)
    → call_authd s (auth_request request) ≡ some response
    → IsReplied s request response
unfolding call_authd
call_authd-some s request response h = elim (Option-cases (s.encode (auth_request request))) [
  | inl n ↦ absurd (ground arith)
  | inr (payload, e) ↦
      let reply : read_response s ≡ some response = ground arith in
      let (bs, b, read, came, seen, decoded) = read_response-some s response reply in
      record {
        payload = payload;
        first = b;
        others = read;
        received = bs;
        connected = ground arith;
        encoded = e;
        sent = ground arith;
        came = came;
        seen = seen;
        decoded = decoded;
      }
]

-- The prompt always answers. The answer Allow or Deny of a user rests on a request that was written to the socket and on a
-- reply that says so; any failure, and any other reply, gives the default of the request, which is marked as one.
pub authd_prompt-answers :
    (s : Socket) (request : PromptRequest)
    → (a : PromptAnswer) × ((authd_prompt s).ask_answer request ≡ some a)
      × ((a ≡ default request.default_decision)
          ⊎ ((a ≡ explicit allow) × IsReplied s request AuthResponse.success)
          ⊎ ((a ≡ explicit deny)
              × (IsReplied s request AuthResponse.denied
                  ⊎ IsReplied s request AuthResponse.auth_failed)))
unfolding authd_prompt authd authd_answer
authd_prompt-answers s request = (_, refl, go (call_authd s (auth_request request)) refl)
  where
    go :
        (x : Option AuthResponse)
        → call_authd s (auth_request request) ≡ x
        → (authd_answer x request.default_decision ≡ default request.default_decision)
          ⊎ ((authd_answer x request.default_decision ≡ explicit allow)
              × IsReplied s request AuthResponse.success)
          ⊎ ((authd_answer x request.default_decision ≡ explicit deny)
              × (IsReplied s request AuthResponse.denied
                  ⊎ IsReplied s request AuthResponse.auth_failed))
    go none e = inl refl
    go (some AuthResponse.success) e =
        inr (inl (refl, call_authd-some s request AuthResponse.success e))
    go (some AuthResponse.denied) e =
        inr (inr (refl, inl (call_authd-some s request AuthResponse.denied e)))
    go (some AuthResponse.auth_failed) e =
        inr (inr (refl, inr (call_authd-some s request AuthResponse.auth_failed e)))
    go (some AuthResponse.unknown_target) e = inl refl
    go (some AuthResponse.error) e = inl refl
