-- ===== src/Socketsrv/Descriptors.antt =====
-- The sets of descriptors of bsdqserver/socketsrv.c: socket_srv_init, socket_srv_close,
-- socket_srv_wait, socket_srv_fetch_client and find_max_fd. What the calls of the system return is
-- an argument: the descriptor of the server's socket, the set that select leaves, the connection
-- that accept takes and the bytes that wait on each descriptor.
pub mod Tracking
use bookshelfdq.Base.{
  ℕ, zero, suc, Bool, true, false, not, Option, none, some, ltb, ◌==◌, if◌then◌else◌,
}

-- An fd_set.
abbrev pub FdSet : Type 0
FdSet = ℕ → Bool

abbrev pub fd_zero : FdSet
fd_zero k = false

abbrev pub fd_set : ℕ → FdSet → FdSet
fd_set n f k = if n == k then true else f k

abbrev pub fd_clr : ℕ → FdSet → FdSet
fd_clr n f k = if n == k then false else f k

-- The static variables, fd_loop among them. `none` is -1.
pub record Fds : Type 0 where
  pub server_sockfd : Option ℕ
  pub readfds : FdSet
  pub recordfds : FdSet
  pub max_fd_num : ℕ
  pub fd_loop : ℕ

-- The system while a client is fetched.
pub record Waiting : Type 0 where
  pub accepted : Option ℕ
  pub pending : ℕ → ℕ

pub data Fetched : Type 0 where
  fetch_fd : ℕ → Fetched
  socket_fetch_err socket_fetch_end fetch_unfinished : Fetched

-- `made` is what socket returned, and `ready` says that setting its option, binding, listening and
-- AES_init all succeeded.
unfoldable pub socket_srv_init : Option ℕ → Bool → Fds → Bool × Fds
socket_srv_init none ready s = (false, record s { server_sockfd = none })
socket_srv_init (some fd) false s = (false, record s { server_sockfd = some fd })
socket_srv_init (some fd) true s = (
  true,
  record s {
    server_sockfd = some fd;
    readfds = fd_zero;
    recordfds = fd_set fd fd_zero;
    max_fd_num = fd;
  },
)

unfoldable pub socket_srv_close : Fds → Fds
socket_srv_close s = record s {
  server_sockfd = none;
  readfds = fd_zero;
  recordfds = fd_zero;
  max_fd_num = 0;
}

-- `ready` is what select made of the set, `none` where it failed.
unfoldable pub socket_srv_wait : Option FdSet → Fds → Bool × Fds
socket_srv_wait ready s = elim s.server_sockfd [
  | none ↦ (false, s)
  | some fd ↦ elim ready [
    | none ↦ (false, record s { readfds = s.recordfds })
    | some f ↦ (true, record s { readfds = f })
  ]
]

-- The highest member from i down, or the old value.
unfoldable pub find_max_from : FdSet → ℕ → ℕ → ℕ
find_max_from f zero old = if f 0 then 0 else old
find_max_from f (suc i) old = if f (suc i) then suc i else find_max_from f i old

unfoldable pub find_max_fd : Fds → Fds
find_max_fd s = record s { max_fd_num = find_max_from s.recordfds s.max_fd_num s.max_fd_num }

-- A connection of a client.
unfoldable pub add_client : ℕ → Fds → Fds
add_client newfd s = record s {
  recordfds = fd_set newfd s.recordfds;
  max_fd_num = if ltb s.max_fd_num newfd then newfd else s.max_fd_num;
}

-- A client that has gone.
unfoldable pub drop_client : ℕ → Fds → Fds
drop_client fd s = find_max_fd (record s { recordfds = fd_clr fd s.recordfds })

-- One turn of the loop: on, or out of the function.
pub data Turn : Type 0 where
  go : Fds → Turn
  stop : Fetched → Fds → Turn

abbrev pub next : Fds → Fds
next s = record s { fd_loop = suc s.fd_loop }

unfoldable pub turn : Waiting → ℕ → Fds → Turn
turn w server s =
    if not (s.readfds s.fd_loop)
    then go (next s)
    else if s.fd_loop == server
    then (elim w.accepted [
      | none ↦ stop socket_fetch_err s
      | some newfd ↦ go (next (add_client newfd s))
    ])
    else if w.pending s.fd_loop == 0
    then go (next (drop_client s.fd_loop s))
    else stop (fetch_fd s.fd_loop) (next s)

unfoldable pub fetch_loop : ℕ → Waiting → ℕ → Fds → Fetched × Fds
fetch_loop zero w server s = (fetch_unfinished, s)
fetch_loop (suc fuel) w server s = elim (ltb s.max_fd_num s.fd_loop) [
  | true ↦ (socket_fetch_end, record s { fd_loop = 0 })
  | false ↦ elim (turn w server s) [ go s1 ↦ fetch_loop fuel w server s1 | stop r s1 ↦ (r, s1) ]
]

unfoldable pub socket_srv_fetch_client : ℕ → Waiting → Fds → Fetched × Fds
socket_srv_fetch_client fuel w s = elim s.server_sockfd [
  | none ↦ (socket_fetch_err, s)
  | some server ↦ fetch_loop fuel w server s
]
