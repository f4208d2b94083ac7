-- ===== src/Srvshell.antt =====
-- bsdqserver/srvshell.c and the main program bsdqserver/bsdq_server.c: the password prompts, the
-- reset of the administrator's password, the start of the server and its loop. The bytes that are
-- typed, and whether the terminal's echo can be switched off, are arguments.
pub mod Reset
pub mod Serving
pub mod Starting
use bookshelfdq.Base.{
  ℕ, zero, suc, Text, codes, Bool, true, false, not, Option, none, some, List, [], ◌∷◌, ◌==◌,
  if◌then◌else◌, text_eq,
}
use bookshelfdq.Clisrv.{Message, account_admin, req_verify_account}
use bookshelfdq.Mysql.Client.{Mysql}
use bookshelfdq.Srvdb.Connection.{Server, srvdb_init, srvdb_connect, srvdb_close}
use bookshelfdq.Srvdb.Account.{
  Bcrypt, admin_default_account, srvdb_account_verify, srvdb_account_update,
  srvdb_accounts_table_init,
}
use bookshelfdq.Socketsrv.{Link, Received, socket_srv_process_request}

abbrev pub mysql_pw_len : ℕ
mysql_pw_len = 16

-- fgets with room for n characters and the NUL: what is read, with its newline, and what is left.
unfoldable pub fgets : ℕ → Text → Text × Text
fgets zero typed = ([], typed)
fgets (suc n) [] = ([], [])
fgets (suc n) (c ∷ typed) =
    let (line, rest) = fgets n typed in if c == 10 then (10 ∷ [], typed) else (c ∷ line, rest)

-- password[strlen(password)-1] = '\0'; at an empty text the source writes before its array.
unfoldable pub drop_last : Text → Text
drop_last [] = []
drop_last (c ∷ []) = []
drop_last (c ∷ d ∷ s) = c ∷ drop_last (d ∷ s)

-- The password after the call, and what is left to read. The end of the input leaves the text that
-- was there, less its last character; a terminal that refuses leaves it whole.
unfoldable pub get_mysql_password : Bool → Text → Text → Text × Text
get_mysql_password quiet typed password =
    let (line, rest) = fgets 15 typed in
    if not quiet
    then (password, typed)
    else elim typed [ [] ↦ (drop_last password, []) | c ∷ s ↦ (drop_last line, rest) ]

-- The message that asks for the administrator; `stack` is what stood in its place.
abbrev pub admin_request : Message → Text → Message
admin_request stack password = record stack {
  user = admin_default_account;
  request = req_verify_account;
  account = record { type = account_admin; name = admin_default_account; password = password };
}

-- Where the main program stands when it has started.
pub data Started : Type 0 where
  exit_success exit_failed serving : Started

-- What socket_srv_fetch_client finds: a client with data, with what is received of it and what
-- stood on the stack, or an error.
pub data Event : Type 0 where
  client : Received → Message → Option Text → ℕ → Event
  fetch_error : Event

module _ (m : Mysql) (b : Bcrypt) where
  unfoldable pub reset_admin_password :
      Bool → Text → Message → Option Text → Server m → Bool × Server m
  reset_admin_password quiet typed stack salt s =
      let (old, typed1) = get_mysql_password quiet typed [] in
      let (ok, msg1, s1) = srvdb_account_verify m b (admin_request stack old) s in
      let (new, typed2) = get_mysql_password quiet typed1 old in
      let (again, typed3) = get_mysql_password quiet typed2 [] in
      let msg2 = record msg1 { account = record msg1.account { password = again } } in
      let (done, msg3, s2) = srvdb_account_update m b salt msg2 s1 in
      if not ok then (false, s1) else if text_eq new again then (done, s2) else (false, s1)

  -- From srvdb_init on; `listens` is what socket_srv_init returns.
  unfoldable pub server_start :
      Text
      → Bool
      → Bool
      → Bool
      → Text
      → Message
      → Message
      → Option Text
      → Option Text
      → Server m
      → Started × Server m
  server_start my_password wants_reset listens quiet typed stack0 stack salt0 salt s =
      let (made, s1) = srvdb_init m s in
      let (up, s2) = srvdb_connect m (codes "127.0.0.1") my_password 0 s1 in
      let (ready, s3) = srvdb_accounts_table_init m b stack0 salt0 s2 in
      let (done, s4) = reset_admin_password quiet typed stack salt s3 in
      if not made
      then (exit_failed, s1)
      else if not up
      then (exit_failed, s2)
      else if not ready
      then (exit_failed, srvdb_close m s3)
      else if wants_reset
      then (exit_success, srvdb_close m s4)
      else if not listens
      then (exit_failed, srvdb_close m s3)
      else (serving, s3)

  module _ (l : Link) where
    -- The inner loop of the main program over all that is fetched, whatever a request returns.
    unfoldable pub serve_all : List Event → Server m → l.Line → Started × Server m × l.Line
    serve_all [] s line = (serving, s, line)
    serve_all (client r stack salt fuel ∷ es) s line =
        let (ok, s1, line1) = socket_srv_process_request m l b fuel true r stack salt s line in
        serve_all es s1 line1
    serve_all (fetch_error ∷ es) s line = (exit_failed, srvdb_close m s, line)

    -- The main program of the server, over the events that its loop meets.
    unfoldable pub server_main :
        Text
        → Bool
        → Bool
        → Bool
        → Text
        → Message
        → Message
        → Option Text
        → Option Text
        → List Event
        → Server m
        → l.Line
        → Started × Server m × l.Line
    server_main my_password wants_reset listens quiet typed stack0 stack salt0 salt es s line =
        let (started, s1) =
          server_start my_password wants_reset listens quiet typed stack0 stack salt0 salt s in
        elim started [
          | serving ↦ serve_all es s1 line
          | exit_success ↦ (exit_success, s1, line)
          | exit_failed ↦ (exit_failed, s1, line)
        ]
