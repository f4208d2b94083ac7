-- ===== src/Tests/Clients.antt =====
-- The descriptors of the server at concrete inputs.
use bookshelfdq.Base.{ℕ, ◌≡◌, ◌≤◌, refl, some, arith, ◌==◌, ◌||◌, if◌then◌else◌}
use bookshelfdq.Socketsrv.Descriptors.{Fds, Waiting, socket_srv_fetch_client}
use bookshelfdq.Socketsrv.Descriptors.Tracking.{IsTracked, Ended, fetch_client-Ended}

-- A connection waits on 3, and 5 has data; 4 is quiet.
abbrev three_fds : Fds
three_fds = record {
  server_sockfd = some 3;
  readfds = λ k. k == 3 || k == 5;
  recordfds = λ k. k == 3 || (k == 4 || k == 5);
  max_fd_num = 5;
  fd_loop = 0;
}

abbrev a_caller : Waiting
a_caller = record { accepted = some 6; pending = λ k. if k == 5 then 640 else 0 }

three_fds-IsTracked : IsTracked 3 three_fds
three_fds-IsTracked = record { serving = refl; bounded = λ k h. ground arith }

taken_six : (n : ℕ) → a_caller.accepted ≡ some n → n ≤ 6
taken_six n h = ground arith

fetch_example : Ended 3 a_caller three_fds.readfds (socket_srv_fetch_client 8 a_caller three_fds)
fetch_example =
    fetch_client-Ended 3 a_caller 6 8 three_fds taken_six refl three_fds-IsTracked (omega arith)
      (omega arith) (omega arith)
