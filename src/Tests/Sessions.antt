-- ===== src/Tests/Sessions.antt =====
-- Log-in, registration and synchronisation at concrete inputs.
use bookshelfdq.Base.{
  ℕ, ◌≡◌, refl, true, none, some, List, [], ◌∷◌, ◌++◌, pos, codes, length, not, arith,
}
use bookshelfdq.Clisrv.{
  Message, ShelfEntry, AccountEntry, account_user, ClientRequest, req_count_shelf, req_find_shelf,
  r_success, shelf_counts,
}
use bookshelfdq.Aes.{aes_init}
use bookshelfdq.Socketcli.{is_some, socket_client_init}
use bookshelfdq.Clidb.{Cache}
use bookshelfdq.Clidb.Gdbm.{shelf_key, shelf_value}
use bookshelfdq.Clishell.{Remote, Client}
use bookshelfdq.Clishell.Session.{socket_remote, socket_dial, client_start_register}
use bookshelfdq.Clishell.Session.Lines.{start_register-client_sockfd}
use bookshelfdq.Clishell.Sync.Serving.{shelf_replies, asked_shelves, IsServing}
use bookshelfdq.Tests.Caches.{File, put, memory, empty, a_cache}
use bookshelfdq.Tests.Sockets.{one_line, swapping, plain_layout, at_line}

abbrev a_client : Client (socket_remote one_line swapping plain_layout) memory
a_client = record { login_user = []; line = at_line []; cache = a_cache }

abbrev tom : AccountEntry
tom = record { type = account_user; name = codes "tom"; password = codes "Passw0rd" }

reached :
    (socket_client_init one_line swapping plain_layout (codes "127.0.0.1") none [] (at_line [])).0
    ≡ true
unfolding socket_client_init aes_init
reached = refl

register_client_example :
    let x =
      client_start_register
        (socket_remote one_line swapping plain_layout)
        memory
        (socket_dial one_line swapping plain_layout none [])
        2
        (codes "127.0.0.1")
        tom
        a_client in
    is_some x.2.line.client_sockfd ≡ not x.0
register_client_example =
    start_register-client_sockfd one_line swapping plain_layout memory none [] 2 (codes "127.0.0.1")
      tom a_client reached

-- A server with two shelves, its answers behind what waits.
abbrev numbered_shelf : ℕ → ShelfEntry
numbered_shelf n = record {
  code = pos n;
  name = codes "s";
  nfloors = 1;
  ndepth = 1 ∷ [];
  building_time = [];
}

abbrev two_shelves : List ShelfEntry
two_shelves = numbered_shelf 3 ∷ numbered_shelf 7 ∷ []

answer : ClientRequest → Message → List Message
answer req_count_shelf m =
    record m { response = r_success; extra_info = shelf_counts (length two_shelves) } ∷ []
answer req_find_shelf m = shelf_replies m (asked_shelves two_shelves m.shelf.code)
answer _ m = []

abbrev serving : Remote
serving = record {
  Sock = List Message;
  send = λ m s. (true, s ++ answer m.request m);
  receive = λ s. elim s [ [] ↦ (none, []) | m ∷ ms ↦ (some m, ms) ];
}

serving_takes :
    (s : List Message) (m : Message) (ms : List Message)
    → s ≡ m ∷ ms
    → ((serving.receive s).0 ≡ some m) × ((serving.receive s).1 ≡ ms)
serving_takes s m ms h = (ground (arith, h), ground (arith, h))

serving_counts :
    (s : List Message) (m : Message)
    → s ≡ []
    → m.request ≡ req_count_shelf
    → ((serving.send m s).0 ≡ true)
      × ((serving.send m s).1
          ≡ record m { response = r_success; extra_info = shelf_counts (length two_shelves) } ∷ [])
unfolding answer
serving_counts s m h e = (refl, rw h (asked m.request e))
  where
    asked :
        (q : ClientRequest)
        → q ≡ req_count_shelf
        → answer q m
          ≡ record m { response = r_success; extra_info = shelf_counts (length two_shelves) } ∷ []
    asked q e = rw e refl

serving_finds :
    (s : List Message) (m : Message)
    → s ≡ []
    → m.request ≡ req_find_shelf
    → ((serving.send m s).0 ≡ true)
      × ((serving.send m s).1 ≡ shelf_replies m (asked_shelves two_shelves m.shelf.code))
unfolding answer
serving_finds s m h e = (refl, rw h (asked m.request e))
  where
    asked :
        (q : ClientRequest)
        → q ≡ req_find_shelf
        → answer q m ≡ shelf_replies m (asked_shelves two_shelves m.shelf.code)
    asked q e = rw e refl

abbrev serving-IsServing : IsServing serving two_shelves
serving-IsServing = record {
  waiting = λ s. s;
  takes = serving_takes;
  counts = serving_counts;
  finds = serving_finds;
}

-- The second and the third of the client's shelves exist; the second is no longer on the server.
abbrev old_file : File
old_file =
    put (put empty (shelf_key (codes "tom") 2) (some (shelf_value (numbered_shelf 2))))
      (shelf_key (codes "tom") 3) (some (shelf_value (numbered_shelf 3)))

abbrev old_cache : Cache memory
old_cache = record a_cache {
  shelf_dbm_ptr = some old_file;
  shelf_record = 0 ∷ 1 ∷ 1 ∷ 0 ∷ 0 ∷ 0 ∷ 0 ∷ 0 ∷ 0 ∷ 0 ∷ 0 ∷ 0 ∷ 0 ∷ 0 ∷ 0 ∷ [];
}

abbrev old_client : Client serving memory
old_client = record { login_user = codes "tom"; line = []; cache = old_cache }
