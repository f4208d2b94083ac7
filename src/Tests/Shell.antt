-- ===== src/Tests/Shell.antt =====
-- The client's requests at concrete inputs, over a socket that is the list of what waits on it.
use bookshelfdq.Base.{
  ◌≡◌, refl, true, false, none, some, List, [], ◌∷◌, pos, codes, eq_ℤ, arith, length, map,
}
use bookshelfdq.Clisrv.{Message, BookEntry, req_find_book}
use bookshelfdq.Srvdb.Search.{entry_of_row}
use bookshelfdq.Socketsrv.Finding.{replies}
use bookshelfdq.Clishell.{Remote, Client, find_from_server}
use bookshelfdq.Clishell.Requests.{is_incomplete}
use bookshelfdq.Clishell.Loading.{IsQueue, Extended, final, verdict, find_from_server-Extended}
use bookshelfdq.Tests.Engine.{an_entry, a_book}
use bookshelfdq.Tests.Searches.{a_search}
use bookshelfdq.Tests.Caches.{memory, memory-IsDbm, a_cache, books_file}

abbrev inbox : Remote
inbox = record {
  Sock = List Message;
  send = λ msg line. (true, line);
  receive = λ line. elim line [ [] ↦ (none, []) | m ∷ ms ↦ (some m, ms) ];
}

inbox_takes :
    (line : List Message) (m : Message) (ms : List Message)
    → line ≡ m ∷ ms
    → ((inbox.receive line).0 ≡ some m) × ((inbox.receive line).1 ≡ ms)
inbox_takes line m ms h = (ground (arith, h), ground (arith, h))

abbrev inbox-IsQueue : IsQueue inbox
inbox-IsQueue = record { waiting = λ line. line; takes = inbox_takes }

abbrev find_request : Message
find_request = record a_search { request = req_find_book }

-- Two books wait on the socket, and that there are no more.
abbrev a_client : Client inbox memory
a_client = record {
  login_user = codes "tom";
  line =
      replies (final memory memory-IsDbm (λ f k v. refl) inbox inbox-IsQueue false) find_request
        (a_book 1 4 0 ∷ a_book 2 6 0 ∷ []);
  cache = a_cache;
}

find_books_example :
    let rows = a_book 1 4 0 ∷ a_book 2 6 0 ∷ [] in
    let r = find_from_server inbox memory 3 find_request a_client in
    (r.0 ≡ verdict memory memory-IsDbm (λ f k v. refl) inbox inbox-IsQueue false (length rows))
    × Extended memory memory-IsDbm (λ f k v. refl) a_cache (map entry_of_row rows) r.2.cache
unfolding eq_ℤ
find_books_example =
    find_from_server-Extended memory memory-IsDbm (λ f k v. refl) inbox inbox-IsQueue
      (a_book 1 4 0 ∷ a_book 2 6 0 ∷ []) false 3 find_request find_request a_client books_file refl
      refl refl refl refl refl (omega arith)

abbrev idle_entry : BookEntry
idle_entry = record an_entry { on_reading = b'0'; borrowed = b'0' }

-- The book "A" of "B" on the floor 1 lacks nothing.
complete_refused :
    is_incomplete inbox memory
      (record an_entry { name = codes "A"; author = codes "B"; floor_code = pos 1 })
    ≡ true
unfolding is_incomplete
complete_refused = refl
