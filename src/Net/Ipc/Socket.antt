-- ===== src/Net/Ipc/Socket.antt =====
-- `gateway_ipc_init` and `gateway_ipc_poll` of src/net/gateway_ipc.cpp.
use bm_sbc.Prelude.{
  ℕ, ◌≡◌, inl, inr, refl, Bool, true, false, not, Option, none, some, List, [], ◌∷◌, ◌++◌, ◌==◌,
  if◌then◌else◌, length, take, is_empty, All, All-append, by_if, Option-cases, arith,
}
use bm_sbc.Net.Ipc.CborQueries.{Cbor}
use bm_sbc.Net.Ipc.{Stack, IpcCall, dispatch, recv_buf_bytes}
use bm_sbc.Net.Ipc.Config.{CopiesWhole}
use bm_sbc.Net.Ipc.Dispatch.{ViewsDatagram, CallFits, dispatch-CallFits}

-- `g_ipc_fd` and `mote_node_id`.
pub record IpcState : Type 0 where
  pub ipc_fd : Option ℕ
  pub mote_node_id : ℕ

pub data SocketEvent : Type 0 where
  close_fd : ℕ → SocketEvent
  unlink_path bind_path chmod_path : List ℕ → SocketEvent

-- GATEWAY_IPC_SOCKET_PATH.
abbrev pub socket_path : List ℕ
socket_path =
    b'/' ∷ b'r' ∷ b'u' ∷ b'n' ∷ b'/' ∷ b'b' ∷ b'm' ∷ b'_' ∷ b's' ∷ b'b' ∷ b'c' ∷ b'/' ∷ b'g' ∷ b'a'
    ∷ b't' ∷ b'e' ∷ b'w' ∷ b'a' ∷ b'y' ∷ b'_' ∷ b'i' ∷ b'p' ∷ b'c' ∷ b'.' ∷ b's' ∷ b'o' ∷ b'c'
    ∷ b'k' ∷ []

-- The path: that of the environment, unless it is unset or empty.
pub path_of : Option (List ℕ) → List ℕ
path_of none = socket_path
path_of (some env_path) = if is_empty env_path then socket_path else env_path

-- `gateway_ipc_init`: the state, whether 0 is returned, and the calls. `sock` is what `socket`
-- returns, `flags_ok` whether the socket can be made non-blocking, `bind_ok` whether `bind` succeeds.
pub gateway_ipc_init :
    Option ℕ → Bool → Option (List ℕ) → Bool → ℕ → IpcState → IpcState × Bool × List SocketEvent
gateway_ipc_init sock flags_ok env_path bind_ok mote_node_id_arg s = elim s.ipc_fd [
  | some fd ↦ (record s { mote_node_id = mote_node_id_arg }, true, [])
  | none ↦ elim sock [
    | none ↦ (record s { mote_node_id = mote_node_id_arg }, false, [])
    | some fd ↦
        if not flags_ok
        then (record s { mote_node_id = mote_node_id_arg }, false, close_fd fd ∷ [])
        else if not bind_ok
        then (
          record s { mote_node_id = mote_node_id_arg },
          false,
          unlink_path (path_of env_path) ∷ bind_path (path_of env_path) ∷ close_fd fd ∷ [],
        )
        else (
          record { ipc_fd = some fd; mote_node_id = mote_node_id_arg },
          true,
          unlink_path (path_of env_path)
              ∷ bind_path (path_of env_path)
              ∷ chmod_path (path_of env_path)
              ∷ [],
        )
  ]
]

-- A result of `recvfrom`: a datagram, EAGAIN, EINTR, or another error.
pub data Recv : Type 0 where
  got : List ℕ → Recv
  would_block interrupted recv_error : Recv

-- What `recvfrom` leaves of a datagram.
pub received : List ℕ → List ℕ
received datagram = take recv_buf_bytes datagram

module _ (c : Cbor) (k : Stack) where
  -- The loop of `gateway_ipc_poll`, and whether it has returned.
  pub poll_loop : ℕ → List Recv → List (IpcCall c) × Bool
  poll_loop mote_node_id [] = ([], false)
  poll_loop mote_node_id (would_block ∷ rs) = ([], true)
  poll_loop mote_node_id (interrupted ∷ rs) = poll_loop mote_node_id rs
  poll_loop mote_node_id (recv_error ∷ rs) = ([], true)
  poll_loop mote_node_id (got datagram ∷ rs) =
      let (calls, done) = poll_loop mote_node_id rs in
      if length (received datagram) == 0
      then (calls, done)
      else (dispatch c k mote_node_id (received datagram) ++ calls, done)

  -- `gateway_ipc_poll`.
  pub gateway_ipc_poll : List Recv → IpcState → List (IpcCall c) × Bool
  gateway_ipc_poll rs s = elim s.ipc_fd [
    | none ↦ ([], true)
    | some fd ↦ poll_loop s.mote_node_id rs
  ]

abbrev pub unopened : ℕ → IpcState
unopened old = record { ipc_fd = none; mote_node_id = old }

-- Initialisation takes effect once: after a success the socket that was made is kept, and a further
-- call opens nothing and changes only the node; a call that fails keeps no socket, and closes the one
-- it made as the last thing it does.
pub gateway_ipc_init_lem :
    (sock : Option ℕ) (flags_ok bind_ok : Bool) (env_path : Option (List ℕ)) (old node : ℕ)
    → let (s', done, calls) = gateway_ipc_init sock flags_ok env_path bind_ok node (unopened old) in
      (s' ≡ record { ipc_fd = (if done then sock else none); mote_node_id = node })
      × ((fd : ℕ)
          → sock ≡ some fd
          → done ≡ false
          → (before : List SocketEvent) × (calls ≡ before ++ close_fd fd ∷ []))
      × (done ≡ true
          → (again : ℕ) (sock' : Option ℕ)
          → gateway_ipc_init sock' flags_ok env_path bind_ok again s'
            ≡ (record s' { mote_node_id = again }, true, []))
unfolding gateway_ipc_init
gateway_ipc_init_lem none flags_ok bind_ok env_path old node =
    (refl, λ fd e f. cc, λ e again sock'. cc)
gateway_ipc_init_lem (some fd) false bind_ok env_path old node =
    (refl, λ fd' e f. ([], ground arith), λ e again sock'. cc)
gateway_ipc_init_lem (some fd) true false env_path old node = (
  refl,
  λ fd' e f. (unlink_path (path_of env_path) ∷ bind_path (path_of env_path) ∷ [], ground arith),
  λ e again sock'. cc,
)
gateway_ipc_init_lem (some fd) true true env_path old node =
    (refl, λ fd' e f. cc, λ e again sock'. refl)

module _ (c : Cbor) (k : Stack) (copies : CopiesWhole c) (views : ViewsDatagram c) where
  poll_loop-CallFits :
      (node : ℕ) (rs : List Recv) → All (CallFits c k node) (poll_loop c k node rs).0
  unfolding poll_loop
  poll_loop-CallFits node [] = tt
  poll_loop-CallFits node (would_block ∷ rs) = tt
  poll_loop-CallFits node (interrupted ∷ rs) = poll_loop-CallFits node rs
  poll_loop-CallFits node (recv_error ∷ rs) = tt
  poll_loop-CallFits node (got datagram ∷ rs) =
      let rest = poll_loop-CallFits node rs in
      let now = dispatch-CallFits c k node copies views (received datagram) in
      by_if {A = List (IpcCall c) × Bool} (λ r. All (CallFits c k node) r.0)
        (length (received datagram) == 0) _ _ (λ e. rest)
        (λ e. All-append (CallFits c k node) _ _ now rest)

  -- Whatever arrives on the socket, of whatever length and from whomever, one poll makes only calls
  -- within the limits of the stack, and without a socket it makes none. This holds if the CBOR
  -- library copies only texts that fit and gives only bytes of the datagram.
  pub gateway_ipc_poll-CallFits :
      (rs : List Recv) (s : IpcState)
      → All (CallFits c k s.mote_node_id) (gateway_ipc_poll c k rs s).0
        × (s.ipc_fd ≡ none → gateway_ipc_poll c k rs s ≡ ([], true))
  unfolding gateway_ipc_poll
  gateway_ipc_poll-CallFits rs s = elim (Option-cases s.ipc_fd) [
    | inl e ↦ (rw (e, gateway_ipc_poll) tt, λ n. rw (n, gateway_ipc_poll) refl)
    | inr (fd, e) ↦ (
      rw (e, gateway_ipc_poll) (poll_loop-CallFits s.mote_node_id rs),
      λ n. rw (n, gateway_ipc_poll) refl,
    )
  ]
