-- ===== src/Socketsrv.antt =====
-- bsdqserver/socketsrv.c: how a request that was received is answered. Receiving and decrypting are
-- one parameter (what came in), encrypting and sending another.

pub mod Inert
pub mod Descriptors
pub mod Finding
pub mod Invariant
pub mod Receiving
use bookshelfdq.Base.{
  ℕ, zero, suc, Text, codes, [], not, Bool, true, false, ◌==◌, if◌then◌else◌, Option, none, some,
}
use bookshelfdq.Clisrv.{
  Message, ClientRequest, BookCount, ExtraInfo, no_info, rows_found, book_counts, shelf_counts,
  init_archive, ServerResponse, r_success, r_failed, r_find_end, r_find_end_more, req_insert_book,
  req_delete_book, req_update_book, req_find_book, req_count_book, req_build_shelf,
  req_remove_shelf, req_find_shelf, req_count_shelf, req_verify_account, req_register_account,
  req_heartbeat,
}
use bookshelfdq.Mysql.Client.{Mysql}
use bookshelfdq.Srvdb.Connection.{Server}
use bookshelfdq.Srvdb.Book.{
  Done, set_error, srvdb_book_insert, srvdb_book_delete, srvdb_book_update,
}
use bookshelfdq.Srvdb.Search.{
  FetchResult, fetch_end, fetch_end_more, fetch_cont, fetch_err, srvdb_book_find,
  srvdb_book_fetch_result,
}
use bookshelfdq.Srvdb.Search.Counting.{srvdb_book_count}
use bookshelfdq.Srvdb.Shelf.{
  srvdb_shelf_build, srvdb_shelf_remove, srvdb_shelf_find, srvdb_shelf_fetch_result,
  srvdb_shelf_count,
}
use bookshelfdq.Srvdb.Account.{
  Bcrypt, srvdb_account_verify, srvdb_account_register, srvdb_user_archive_init,
}

-- What recv and decrypt came to.
pub data Received : Type 0 where
  heartbeat bad_length read_error undecodable : Received
  request : Message → Received

-- The client's end: encrypt and send, true where both succeed.
pub record Link : Type 1 where
  pub Line : Type 0
  pub send : Message → Line → Bool × Line

abbrev pub with_response : ServerResponse → Message → Message
with_response r msg = record msg { response = r }

-- extra_info[0]
unfoldable pub first_info : ExtraInfo → ℕ
first_info no_info = 0
first_info (rows_found n) = n
first_info (book_counts c) = c.books_all
first_info (shelf_counts n) = n
first_info init_archive = 1

-- What a search answers with a row or at its end.
unfoldable pub response_of : FetchResult → ServerResponse
response_of fetch_end = r_find_end
response_of fetch_end_more = r_find_end_more
response_of _ = r_success

abbrev pub incorrect_length : Text
incorrect_length = codes "Server recieved incorrect num(%d) of message."

-- The message that a received request starts from.
abbrev pub cleared : Message → Message
cleared msg = record msg { response = r_success; error_text = [] }

abbrev pub failing : Bool × Message → Message
failing r = if r.0 then r.1 else with_response r_failed r.1

module _ (m : Mysql) (l : Link) where
  -- The answer of the function, the database and the line after it.
  abbrev pub Answered : Type 0
  Answered = Bool × Server m × l.Line

  unfoldable pub send_answer : Message → Server m → l.Line → Answered
  send_answer msg s line = let (ok, line1) = l.send msg line in (ok, s, line1)

  -- The loop that sends the results of a search, one fetch in each turn; false also where the fuel
  -- is used up.
  unfoldable pub send_results :
      (Message → Server m → FetchResult × Message × Server m)
      → ℕ
      → Message
      → Server m
      → l.Line
      → Answered
  send_results fetch zero msg s line = (false, s, line)
  send_results fetch (suc fuel) msg s line =
      let (r, msg1, s1) = fetch msg s in
      let msg2 = with_response (response_of r) msg1 in
      let (ok, line1) = l.send msg2 line in
      let rest = send_results fetch fuel msg2 s1 line1 in
      elim r [
        | fetch_err ↦ (false, s1, line)
        | fetch_cont ↦ if ok then rest else (false, s1, line1)
        | _ ↦ (ok, s1, line1)
      ]

  -- A search that failed is answered at once, another by its results.
  unfoldable pub send_found :
      (Message → Server m → FetchResult × Message × Server m)
      → ℕ
      → Message
      → Option ℕ × Server m
      → l.Line
      → Answered
  send_found fetch fuel msg found line = elim found.0 [
    | none ↦ send_answer (with_response r_failed msg) found.1 line
    | some n ↦ send_results fetch fuel (record msg { extra_info = rows_found n }) found.1 line
  ]

  -- A request that one call serves.
  unfoldable pub send_done : Done m → l.Line → Answered
  send_done r line = send_answer (failing (r.0, r.1)) r.2 line

  module _ (b : Bcrypt) where
    -- A verified user whose message asks for it gets the tables.
    unfoldable pub verify_and_init : Message → Server m → Done m
    verify_and_init msg s =
        let (ok, msg1, s1) = srvdb_account_verify m b msg s in
        let (made, s2) = srvdb_user_archive_init m b msg1.account.name s1 in
        if not ok
        then (false, msg1, s1)
        else if first_info msg1.extra_info == 1
        then (made, msg1, s2)
        else (true, msg1, s1)

    -- The switch over the kind of a decrypted request.
    unfoldable pub serve : ClientRequest → ℕ → Option Text → Message → Server m → l.Line → Answered
    serve req_insert_book fuel salt msg s line = send_done (srvdb_book_insert m msg s) line
    serve req_delete_book fuel salt msg s line = send_done (srvdb_book_delete m msg s) line
    serve req_update_book fuel salt msg s line = send_done (srvdb_book_update m msg s) line
    serve req_find_book fuel salt msg s line =
        send_found (srvdb_book_fetch_result m) fuel msg (srvdb_book_find m msg s) line
    serve req_count_book fuel salt msg s line = send_done (srvdb_book_count m msg s) line
    serve req_build_shelf fuel salt msg s line = send_done (srvdb_shelf_build m msg s) line
    serve req_remove_shelf fuel salt msg s line = send_done (srvdb_shelf_remove m msg s) line
    serve req_find_shelf fuel salt msg s line =
        send_found (srvdb_shelf_fetch_result m) fuel msg (srvdb_shelf_find m msg s) line
    serve req_count_shelf fuel salt msg s line = send_done (srvdb_shelf_count m msg s) line
    serve req_verify_account fuel salt msg s line = send_done (verify_and_init msg s) line
    serve req_register_account fuel salt msg s line =
        send_done (srvdb_account_register m b salt msg s) line
    serve req_heartbeat fuel salt msg s line = (false, s, line)

    unfoldable pub process_message : ℕ → Option Text → Message → Server m → l.Line → Answered
    process_message fuel salt msg s line = serve msg.request fuel salt msg s line

    -- `stack` is what stood in the place of the message. The source hands 0 to its caller where the
    -- socket is not open, where reading, decrypting or sending fails, and where a search breaks off.
    unfoldable pub socket_srv_process_request :
        ℕ → Bool → Received → Message → Option Text → Server m → l.Line → Answered
    socket_srv_process_request fuel is_open received stack salt s line =
        if not is_open then (false, s, line) else elim received [
          | heartbeat ↦ (true, s, line)
          | read_error ↦ (false, s, line)
          | undecodable ↦ (false, s, line)
          | bad_length ↦
              send_answer (set_error (with_response r_failed stack) incorrect_length) s line
          | request msg ↦ process_message fuel salt (cleared msg) s line
        ]
