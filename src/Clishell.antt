-- ===== src/Clishell.antt =====
-- bsdqclient/clishell.c: the requests of the client, over its socket (bsdqclient/socketcli.c) as a
-- parameter and the cache. The time of day, as it is printed, is an argument.
pub mod Requests
pub mod Loading
pub mod Moving
pub mod Sync
pub mod Session
use Prim.Native.Nat.{bit_and}
use bookshelfdq.Base.{
  ℕ, zero, suc, ◌+◌, Text, codes, ℤ, pos, negsuc, eq_ℤ, Bool, true, false, ◌&&◌, not, Option, none,
  some, List, [], ◌∷◌, ◌==◌, if◌then◌else◌, set,
}
use bookshelfdq.Clisrv.{
  Message, BookEntry, ShelfEntry, AccountEntry, AccountType, account_admin, account_user, BookCount,
  ClientRequest, r_success, r_failed, r_find_end, r_find_end_more, no_info, init_archive,
  rows_found, book_counts, shelf_counts, ExtraInfo, break_limit_int, non_sense_int,
  flag_find_unsorted, req_insert_book, req_delete_book, req_update_book, req_find_book,
  req_count_book, req_build_shelf, req_remove_shelf, req_verify_account, req_register_account,
}
use bookshelfdq.Clidb.Gdbm.{Dbm}
use bookshelfdq.Clidb.{
  Cache, clidb_book_insert, clidb_book_delete, clidb_shelf_insert, clidb_shelf_delete,
}

-- socket_client_send_request, and socket_client_get_response, `none` where it fails.
pub record Remote : Type 1 where
  pub Sock : Type 0
  pub send : Message → Sock → Bool × Sock
  pub receive : Sock → Option Message × Sock

-- The results 1, 0 and -1 of find_from_server, and the use of all fuel.
pub data Reply : Type 0 where
  reply_ok reply_failed reply_nothing reply_unfinished : Reply

abbrev pub is_ok : Reply → Bool
is_ok reply_ok = true
is_ok _ = false

abbrev pub is_find : ClientRequest → Bool
is_find req_find_book = true
is_find _ = false

-- memset(&msg, 0), the user's name and the request.
abbrev pub blank_book : BookEntry
blank_book = record {
  shelf_code = pos 0;
  floor_code = pos 0;
  book_code = pos 0;
  name = [];
  author = [];
  label = [];
  borrowed = 0;
  on_reading = 0;
  encoding_time = [];
}

abbrev pub blank_shelf : ShelfEntry
blank_shelf = record { code = pos 0; name = []; nfloors = 0; ndepth = []; building_time = [] }

abbrev pub blank : Text → ClientRequest → Message
blank u r = record {
  user = u;
  request = r;
  shelf = blank_shelf;
  book = blank_book;
  account = record { type = account_admin; name = []; password = [] };
  response = r_success;
  error_text = [];
  extra_info = no_info;
}

module _ (r : Remote) (g : Dbm) where
  pub record Client : Type 0 where
    pub login_user : Text
    pub line : r.Sock
    pub cache : Cache g

  abbrev pub Replied : Type 0
  Replied = Reply × Message × Client

  -- A book that a search found goes to the end of the cache.
  unfoldable pub cache_found : Bool → Message → Client → Client
  cache_found true msg c = record c { cache = (clidb_book_insert g msg.book none c.cache).1 }
  cache_found false msg c = c

  -- The loop of find_from_server, in which n counts the books.
  unfoldable pub await_responses : ℕ → Bool → ℕ → Message → Client → Replied
  await_responses zero cached n msg c = (reply_unfinished, msg, c)
  await_responses (suc fuel) cached n msg c =
      let (got, line1) = r.receive c.line in
      let c1 = record c { line = line1 } in
      elim got [
        | none ↦ (reply_failed, msg, c1)
        | some m ↦ elim m.response [
          | r_failed ↦ (reply_failed, m, c1)
          | r_find_end ↦ (if n == 0 then reply_nothing else reply_ok, m, c1)
          | r_find_end_more ↦ (reply_ok, m, c1)
          | r_success ↦ elim (is_find m.request) [
            | true ↦ await_responses fuel cached (suc n) m (cache_found cached m c1)
            | false ↦ (reply_ok, m, c1)
          ]
        ]
      ]

  unfoldable pub find_from_server : ℕ → Message → Client → Replied
  find_from_server fuel msg c =
      let cached = not (is_find msg.request && eq_ℤ msg.book.book_code break_limit_int) in
      let (sent, line1) = r.send msg c.line in
      let c1 = record c { line = line1 } in
      elim sent [ false ↦ (reply_failed, msg, c1) | true ↦ await_responses fuel cached 0 msg c1 ]
