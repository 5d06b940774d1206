-- ===== src/SystemdNotify.antt =====
-- src/systemd_notify.rs: the message to systemd that the watches are installed.
use config_guard.Base.{
  ℕ, ◌+◌, ◌++◌, Option, none, some, if◌then◌else◌, any, and_then, ◌==◌, ◌||◌, ltb, length,
}
use config_guard.Std.Bytes.{Bytes, bytes, strip_prefix}

pub data SocketAddr : Type 0 where
  abstract_name pathname : Bytes → SocketAddr

-- The bytes that the address of a socket has room for.
abbrev sun_path_len : ℕ
sun_path_len = 108

-- The name of an abstract socket stands behind a zero byte.
unfoldable pub from_abstract_name : Bytes → Option SocketAddr
from_abstract_name name =
    if ltb sun_path_len (1 + length name) then none else some (abstract_name name)

-- A zero byte ends a path, and belongs to the address.
unfoldable pub from_pathname : Bytes → Option SocketAddr
from_pathname path =
    if any (λ b. b == 0) path || ltb sun_path_len (1 + length path)
    then none
    else some (pathname path)

unfoldable pub notify_address : Bytes → Option SocketAddr
notify_address notify_socket = elim (strip_prefix (bytes "@") notify_socket) [
  | some name ↦ from_abstract_name name
  | none ↦ from_pathname notify_socket
]

pub data Notification : Type 0 where
  silent : Notification
  sent : SocketAddr → Bytes → Notification

-- `send_to_addr` gives the number of bytes sent, if it sends any. `none` is an error.
unfoldable pub notify_ready :
    (SocketAddr → Bytes → Option ℕ) → Option Bytes → Bytes → Option Notification
notify_ready send_to_addr none status = some silent
notify_ready send_to_addr (some notify_socket) status =
    let message = bytes "READY=1\nSTATUS=" ++ status in
    and_then (notify_address notify_socket) (λ address.
      and_then (send_to_addr address message)
        (λ n. if n == length message then some (sent address message) else none))
