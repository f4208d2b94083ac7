-- ===== src/Socketsrv/Descriptors/Tracking.antt =====
-- The highest descriptor bounds the recorded ones, and fetching a client ends with one that has data.
use bookshelfdq.Base.{
  ℕ, zero, suc, ◌+◌, ◌≤◌, ◌<◌, ◌≡◌, refl, sym, ap, subst, ◌∙◌, inl, inr, true, false, Option, none,
  some, ltb, ◌==◌, arith, Option-cases, Bool-cases,
}
use bookshelfdq.Socketsrv.Descriptors.{
  FdSet, fd_clr, Fds, Waiting, Fetched, fetch_fd, socket_fetch_err, socket_fetch_end,
  socket_srv_init, socket_srv_wait, find_max_from, find_max_fd, add_client, drop_client, next, turn,
  fetch_loop, socket_srv_fetch_client,
}

-- The server's socket is recorded, and no recorded descriptor is above max_fd_num.
pub record IsTracked (server : ℕ) (s : Fds) : Type 0 where
  pub serving : s.recordfds server ≡ true
  pub bounded : (k : ℕ) → s.recordfds k ≡ true → k ≤ s.max_fd_num

find_max_bounds : (f : FdSet) (i old k : ℕ) → f k ≡ true → k ≤ i → k ≤ find_max_from f i old
unfolding find_max_from
find_max_bounds f zero old k h le = omega arith
find_max_bounds f (suc i) old k h le = elim (Bool-cases (f (suc i))) [
  | inl top ↦ ground arith
  | inr gap ↦ elim (Bool-cases (ltb k (suc i))) [
    | inl under ↦ ground (arith, find_max_bounds f i old k h (ground arith))
    | inr last ↦ let same : k ≡ suc i = ground arith in absurd (ground (arith, ap f same))
  ]
]

find_max_le : (f : FdSet) (i old k : ℕ) → f k ≡ true → k ≤ i → find_max_from f i old ≤ i
unfolding find_max_from
find_max_le f zero old k h le =
    let same : k ≡ zero = omega arith in
    let first : f 0 ≡ true = ap f (sym same) ∙ h in ground arith
find_max_le f (suc i) old k h le = elim (Bool-cases (f (suc i))) [
  | inl top ↦ ground arith
  | inr gap ↦ elim (Bool-cases (ltb k (suc i))) [
    | inl under ↦ ground (arith, find_max_le f i old k h (ground arith))
    | inr last ↦ let same : k ≡ suc i = ground arith in absurd (ground (arith, ap f same))
  ]
]

module _ (server : ℕ) where
  add_client-IsTracked :
      (fd : ℕ) (s : Fds) → IsTracked server s → IsTracked server (add_client fd s)
  unfolding add_client
  add_client-IsTracked fd s v = record {
    serving = ground (arith, v.serving);
    bounded = λ k h. elim (Bool-cases (fd == k)) [
      | inl e ↦ ground arith
      | inr e ↦ ground (arith, v.bounded k)
    ];
  }

  drop_client-IsTracked :
      (fd : ℕ) (s : Fds)
      → (fd == server) ≡ false
      → IsTracked server s
      → IsTracked server (drop_client fd s)
  unfolding drop_client find_max_fd
  drop_client-IsTracked fd s other v = record {
    serving = ground (arith, v.serving);
    bounded = λ k h. elim (Bool-cases (fd == k)) [
      | inl e ↦ absurd (ground arith)
      | inr e ↦
          find_max_bounds (fd_clr fd s.recordfds) s.max_fd_num s.max_fd_num k h
            (v.bounded k (ground arith))
    ];
  }

  add_client-max :
      (fd bound : ℕ) (s : Fds)
      → fd ≤ bound
      → s.max_fd_num ≤ bound
      → (add_client fd s).max_fd_num ≤ bound
  unfolding add_client
  add_client-max fd bound s h k = ground arith

  drop_client-max :
      (fd bound : ℕ) (s : Fds)
      → (fd == server) ≡ false
      → IsTracked server s
      → s.max_fd_num ≤ bound
      → (drop_client fd s).max_fd_num ≤ bound
  unfolding drop_client find_max_fd
  drop_client-max fd bound s other v h =
      let rest = fd_clr fd s.recordfds in
      let still : rest server ≡ true = ground (arith, v.serving) in
      omega (
        arith,
        find_max_le rest s.max_fd_num s.max_fd_num server still (v.bounded server v.serving),
      )

  -- How a fetch ends: with a readable client that has data, at the end of the set, or at a
  -- connection that could not be taken.
  pub data Ended (w : Waiting) (readable : FdSet) (r : Fetched × Fds) : Type 0 where
    client :
        (k : ℕ)
        → r.0 ≡ fetch_fd k
        → readable k ≡ true
        → (k == server) ≡ false
        → 0 < w.pending k
        → IsTracked server r.1
        → Ended w readable r
    over : r.0 ≡ socket_fetch_end → r.1.fd_loop ≡ 0 → IsTracked server r.1 → Ended w readable r
    not_taken :
        r.0 ≡ socket_fetch_err → w.accepted ≡ none → IsTracked server r.1 → Ended w readable r

  moved-IsTracked :
      (n : ℕ) (s : Fds) → IsTracked server s → IsTracked server (record s { fd_loop = n })
  moved-IsTracked n s v = record { serving = v.serving; bounded = v.bounded }

  module _ (w : Waiting) (bound : ℕ) (taken : (n : ℕ) → w.accepted ≡ some n → n ≤ bound) where
    -- A turn that goes on ends as the rest of the loop does.
    turned-Ended :
        (fuel : ℕ) (s s1 : Fds)
        → fetch_loop (suc fuel) w server s ≡ fetch_loop fuel w server s1
        → Ended w s.readfds (fetch_loop fuel w server s1)
        → Ended w s.readfds (fetch_loop (suc fuel) w server s)
    turned-Ended fuel s s1 goes ended = subst (Ended w s.readfds) (sym goes) ended

    fetch_loop-Ended :
        (fuel : ℕ) (s : Fds)
        → IsTracked server s
        → s.max_fd_num ≤ bound
        → s.fd_loop ≤ suc bound
        → suc bound < fuel + s.fd_loop
        → Ended w s.readfds (fetch_loop fuel w server s)
    unfolding fetch_loop turn add_client drop_client find_max_fd
    fetch_loop-Ended zero s v top low enough = absurd (omega arith)
    fetch_loop-Ended (suc fuel) s v top low enough =
        elim (Bool-cases (ltb s.max_fd_num s.fd_loop)) [
          | inl past ↦
              let goes : fetch_loop (suc fuel) w server s
                  ≡ (socket_fetch_end, record s { fd_loop = 0 }) =
                ground arith in
              subst (Ended w s.readfds) (sym goes) (over refl refl (moved-IsTracked 0 s v))
          | inr inside ↦ elim (Bool-cases (s.readfds s.fd_loop)) [
            | inr idle ↦ turned-Ended fuel s (next s) (ground arith) (
                fetch_loop-Ended fuel (next s) (moved-IsTracked (suc s.fd_loop) s v) top
                  (ground arith) (omega arith))
            | inl ready ↦ elim (Bool-cases (s.fd_loop == server)) [
              | inl own ↦ elim (Option-cases w.accepted) [
                | inl none_taken ↦
                    let goes : fetch_loop (suc fuel) w server s ≡ (socket_fetch_err, s) =
                      ground arith in
                    subst (Ended w s.readfds) (sym goes) (not_taken refl none_taken v)
                | inr (n, q) ↦
                    let s1 = add_client n s in
                    turned-Ended fuel s (next s1) (ground arith) (
                      fetch_loop-Ended fuel (next s1)
                        (moved-IsTracked (suc s.fd_loop) s1 (add_client-IsTracked n s v))
                        (add_client-max n bound s (taken n q) top) (ground arith) (omega arith))
              ]
              | inr other ↦ elim (Bool-cases (w.pending s.fd_loop == 0)) [
                | inl gone ↦
                    let s1 = drop_client s.fd_loop s in
                    turned-Ended fuel s (next s1) (ground arith) (
                      fetch_loop-Ended fuel (next s1)
                        (moved-IsTracked (suc s.fd_loop) s1
                          (drop_client-IsTracked s.fd_loop s other v))
                        (drop_client-max s.fd_loop bound s other v top) (ground arith)
                        (omega arith))
                | inr data_ready ↦
                    let goes : fetch_loop (suc fuel) w server s ≡ (fetch_fd s.fd_loop, next s) =
                      ground arith in
                    subst (Ended w s.readfds) (sym goes) (
                      client s.fd_loop refl ready other (ground arith)
                        (moved-IsTracked (suc s.fd_loop) s v))
              ]
            ]
          ]
        ]

-- Where the server's socket is recorded and max_fd_num bounds the recorded descriptors, fetching a
-- client ends, if the turns that are allowed lead past a bound on the descriptors: with a client that
-- is readable and has data, at the end of the set, or at a connection that could not be taken; and
-- the two conditions still hold, also where clients that had gone were dropped on the way.
pub fetch_client-Ended :
    (server : ℕ) (w : Waiting) (bound fuel : ℕ) (s : Fds)
    → ((n : ℕ) → w.accepted ≡ some n → n ≤ bound)
    → s.server_sockfd ≡ some server
    → IsTracked server s
    → s.max_fd_num ≤ bound
    → s.fd_loop ≤ suc bound
    → suc bound < fuel + s.fd_loop
    → Ended server w s.readfds (socket_srv_fetch_client fuel w s)
unfolding socket_srv_fetch_client
fetch_client-Ended server w bound fuel s taken is_open v top low enough =
    let goes : socket_srv_fetch_client fuel w s ≡ fetch_loop fuel w server s = ground arith in
    subst (Ended server w s.readfds) (sym goes)
      (fetch_loop-Ended server w bound taken fuel s v top low enough)

-- Opening the socket establishes the two conditions, and waiting keeps them.
pub init_wait-IsTracked :
    (fd : ℕ) (ready : Option FdSet) (s : Fds)
    → IsTracked fd (socket_srv_wait ready (socket_srv_init (some fd) true s).1).1
unfolding socket_srv_wait socket_srv_init
init_wait-IsTracked fd none s = record { serving = ground arith; bounded = λ k h. ground arith }
init_wait-IsTracked fd (some f) s = record { serving = ground arith; bounded = λ k h. ground arith }
