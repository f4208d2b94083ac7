-- ===== src/Socketsrv/Invariant.antt =====
-- What every request keeps, whatever the data base answers and the line delivers.
use bookshelfdq.Base.{
  ℕ, zero, suc, ◌≡◌, refl, sym, ap, subst, ◌∙◌, Bool, true, false, Option, Text, text_eq,
  text_eq_refl, List, arith, Option-cases, inl, inr,
}
use bookshelfdq.Clisrv.{
  Message, ClientRequest, rows_found, req_insert_book, req_delete_book, req_update_book,
  req_find_book, req_count_book, req_build_shelf, req_remove_shelf, req_find_shelf, req_count_shelf,
  req_verify_account, req_register_account, req_heartbeat,
}
use bookshelfdq.Mysql.Statement.{BookRow, ShelfRow, create_shelves, create_books}
use bookshelfdq.Mysql.Meaning.{Tables, put_books, put_shelves, meaning}
use bookshelfdq.Mysql.Client.{Mysql, IsDocumented}
use bookshelfdq.Srvdb.Connection.Keeps.{tables_of, check-keeps, run-cases}
use bookshelfdq.Srvdb.Connection.{Server, run}
use bookshelfdq.Srvdb.Book.{Done, srvdb_book_insert, srvdb_book_delete, srvdb_book_update}
use bookshelfdq.Srvdb.Book.Rows.{IsNumbered}
use bookshelfdq.Srvdb.Book.Insert.{book_insert-Inserted}
use bookshelfdq.Srvdb.Book.Change.{Changed, book_delete-Changed, book_update-Changed}
use bookshelfdq.Srvdb.Search.{FetchResult, srvdb_book_find, srvdb_book_fetch_result}
use bookshelfdq.Srvdb.Search.Keeps.{find-keeps, fetch-keeps, count-keeps}
use bookshelfdq.Srvdb.Shelf.{
  srvdb_shelf_build, srvdb_shelf_remove, srvdb_shelf_find, srvdb_shelf_fetch_result,
}
use bookshelfdq.Srvdb.Shelf.Build.{AreShelves, shelf_build-Built}
use bookshelfdq.Srvdb.Shelf.Build as Build
use bookshelfdq.Srvdb.Book.Insert as Insert
use bookshelfdq.Srvdb.Shelf.Change.{shelf_remove-Refits}
use bookshelfdq.Srvdb.Shelf.Keeps.{shelf_find-keeps, shelf_fetch-keeps, shelf_count-keeps}
use bookshelfdq.Srvdb.Account.{
  Bcrypt, srvdb_account_verify, srvdb_account_register, srvdb_user_archive_init,
}
use bookshelfdq.Srvdb.Account.Register.{turned_away, hashed, account_register-Registered}
use bookshelfdq.Srvdb.Account.Roster.{IsRoster, account_register-IsRoster}
use bookshelfdq.Srvdb.Account.Verify.{account_verify-authentic}
use bookshelfdq.Socketsrv.Inert.{IsInert, AreRead, IsInert-AreRead}
use bookshelfdq.Socketsrv.{
  with_response, response_of, Link, request, cleared, send_answer, send_results, send_found,
  send_done, verify_and_init, serve, process_message, socket_srv_process_request,
}

-- The tables of a user and the accounts are well formed.
pub record IsOrderly (u : Text) (t : Tables) : Type 0 where
  pub numbered : IsNumbered (t.books u)
  pub keyed : AreShelves (t.shelves u)
  pub roster : IsRoster t.accounts

-- They still are, and no other user's tables have changed.
pub record Kept (u : Text) (t t' : Tables) : Type 0 where
  pub orderly : IsOrderly u t'
  pub others :
      (v : Text) → text_eq u v ≡ false → (t'.books v ≡ t.books v) × (t'.shelves v ≡ t.shelves v)

module _ (m : Mysql) (d : IsDocumented m) (msg : Message) (s : Server m)
    (v : IsOrderly msg.user (tables_of m d s)) where
  abbrev Keeps : Server m → Type 0
  Keeps s' = Kept msg.user (tables_of m d s) (tables_of m d s')

  same-Kept : (t' : Tables) → t' ≡ tables_of m d s → Kept msg.user (tables_of m d s) t'
  same-Kept t' e =
      subst (Kept msg.user (tables_of m d s)) (sym e)
        (record { orderly = v; others = λ x ne. (refl, refl) })

  books-Kept :
      (rows : List BookRow) (t' : Tables)
      → IsNumbered rows
      → t' ≡ put_books msg.user rows (tables_of m d s)
      → Kept msg.user (tables_of m d s) t'
  unfolding put_books
  books-Kept rows t' n e = subst (Kept msg.user (tables_of m d s)) (sym e) (record {
    orderly = record {
      numbered = rw (text_eq_refl msg.user) n;
      keyed = v.keyed;
      roster = v.roster;
    };
    others = λ x ne. (rw ne refl, refl);
  })

  shelves-Kept :
      (rows : List ShelfRow) (t' : Tables)
      → AreShelves rows
      → t' ≡ put_shelves msg.user rows (tables_of m d s)
      → Kept msg.user (tables_of m d s) t'
  unfolding put_shelves
  shelves-Kept rows t' n e = subst (Kept msg.user (tables_of m d s)) (sym e) (record {
    orderly = record {
      numbered = v.numbered;
      keyed = rw (text_eq_refl msg.user) n;
      roster = v.roster;
    };
    others = λ x ne. (refl, rw ne refl);
  })

  insert-Kept : Keeps (srvdb_book_insert m msg s).2
  insert-Kept = elim (book_insert-Inserted m d msg s v.numbered) [
    | Insert.refused e k ↦ same-Kept _ k
    | Insert.placed n rows e q k p ↦ books-Kept rows _ p.numbered k
  ]

  rewritten-Kept : (f : BookRow → BookRow) (r : Done m) → Changed m d msg f s r → Keeps r.2
  rewritten-Kept f r h = elim h [
    | inl (e, k) ↦ same-Kept _ k
    | inr (e, w) ↦ record {
      orderly = record {
        numbered = w.numbered v.numbered;
        keyed = rw w.shelves v.keyed;
        roster = rw w.accounts v.roster;
      };
      others = λ x ne. (w.others x ne, ap (λ (g : Text → List ShelfRow). g x) w.shelves);
    }
  ]

  build-Kept : Keeps (srvdb_shelf_build m msg s).2
  build-Kept = elim (shelf_build-Built m d msg s v.keyed) [
    | Build.refused e k ↦ same-Kept _ k
    | Build.built n rows e q k p ↦ shelves-Kept rows _ p.keyed k
  ]

  remove-Kept : Keeps (srvdb_shelf_remove m msg s).2
  remove-Kept = elim (shelf_remove-Refits m d msg s) [
    | inl (e, k) ↦ same-Kept _ k
    | inr (e, w) ↦ record {
      orderly = record {
        numbered = rw w.books v.numbered;
        keyed = w.keyed v.keyed;
        roster = rw w.accounts v.roster;
      };
      others = λ x ne. (ap (λ (g : Text → List BookRow). g x) w.books, w.others x ne);
    }
  ]

  register-Kept :
      (b : Bcrypt) (salt : Option Text) → Keeps (srvdb_account_register m b salt msg s).2
  register-Kept b salt = elim (account_register-Registered m d b salt msg s) [
    | inl (e, k) ↦ same-Kept _ k
    | inr (free, room, h) ↦ elim h [
      | turned_away e k ↦ same-Kept _ k
      | hashed hash e made k ↦ record {
        orderly = record {
          numbered = rw k v.numbered;
          keyed = rw k v.keyed;
          roster = account_register-IsRoster m d b salt msg s v.roster;
        };
        others = λ x ne. rw k (refl, refl);
      }
    ]
  ]

module _ (m : Mysql) (d : IsDocumented m) (b : Bcrypt) where
  -- Creating tables that may be there changes none that is.
  archive-keeps :
      (u : Text) (s : Server m)
      → tables_of m d (srvdb_user_archive_init m b u s).1 ≡ tables_of m d s
  unfolding srvdb_user_archive_init meaning
  archive-keeps u s =
      let s1 = (run m (create_shelves u) s).1 in
      let s2 = (run m (create_books u) s1).1 in
      let k1 : tables_of m d s1 ≡ tables_of m d s = elim (run-cases m d (create_shelves u) s) [
        | inl (e, k) ↦ k
        | inr (e, k) ↦ k
      ] in
      let k2 : tables_of m d s2 ≡ tables_of m d s1 = elim (run-cases m d (create_books u) s1) [
        | inl (e, k) ↦ k
        | inr (e, k) ↦ k
      ] in
      ground (arith, k1, k2, check-keeps m d s1, check-keeps m d s2)

  verify-keeps :
      (l : Link) (msg : Message) (s : Server m)
      → tables_of m d (verify_and_init m l b msg s).2 ≡ tables_of m d s
  unfolding verify_and_init
  verify-keeps l msg s =
      let r = srvdb_account_verify m b msg s in
      ground (arith, (account_verify-authentic m d b msg s).0, archive-keeps r.1.account.name r.2)

module _ (m : Mysql) (d : IsDocumented m) (l : Link) where
  send_results-keeps :
      (fetch : Message → Server m → FetchResult × Message × Server m)
      → ((msg : Message) (s : Server m) → tables_of m d (fetch msg s).2 ≡ tables_of m d s)
      → (fuel : ℕ) (msg : Message) (s : Server m) (line : l.Line)
      → tables_of m d (send_results m l fetch fuel msg s line).1 ≡ tables_of m d s
  unfolding send_results
  send_results-keeps fetch keeps zero msg s line = refl
  send_results-keeps fetch keeps (suc fuel) msg s line =
      let (r, msg1, s1) = fetch msg s in
      let msg2 = with_response (response_of r) msg1 in
      let line1 = (l.send msg2 line).1 in
      let rest = send_results-keeps fetch keeps fuel msg2 s1 line1 in
      ground (arith, keeps msg s, rest)

  send_found-keeps :
      (fetch : Message → Server m → FetchResult × Message × Server m)
      → ((msg : Message) (s : Server m) → tables_of m d (fetch msg s).2 ≡ tables_of m d s)
      → (fuel : ℕ) (msg : Message) (found : Option ℕ × Server m) (line : l.Line)
      → tables_of m d (send_found m l fetch fuel msg found line).1 ≡ tables_of m d found.1
  unfolding send_found send_answer
  send_found-keeps fetch keeps fuel msg found line = elim (Option-cases found.0) [
    | inl e ↦ ground arith
    | inr (n, e) ↦
        let msg1 = record msg { extra_info = rows_found n } in
        ground (arith, send_results-keeps fetch keeps fuel msg1 found.1 line)
  ]

  module _ (b : Bcrypt) (fuel : ℕ) (salt : Option Text) (msg : Message) (s : Server m)
      (line : l.Line) (v : IsOrderly msg.user (tables_of m d s)) where
    serve-Kept :
        (r : ClientRequest)
        → Kept msg.user (tables_of m d s) (tables_of m d (serve m l b r fuel salt msg s line).1)
    unfolding serve send_done send_answer
    serve-Kept req_insert_book = (insert-Kept m d msg s v)
    serve-Kept req_delete_book =
        (rewritten-Kept m d msg s v _ (srvdb_book_delete m msg s) (book_delete-Changed m d msg s))
    serve-Kept req_update_book =
        (rewritten-Kept m d msg s v _ (srvdb_book_update m msg s) (book_update-Changed m d msg s))
    serve-Kept req_find_book =
        (same-Kept m d msg s v _ (
          send_found-keeps (srvdb_book_fetch_result m) (fetch-keeps m d) fuel msg
            (srvdb_book_find m msg s) line
          ∙ find-keeps m d msg s))
    serve-Kept req_count_book = (same-Kept m d msg s v _ (count-keeps m d msg s))
    serve-Kept req_build_shelf = (build-Kept m d msg s v)
    serve-Kept req_remove_shelf = (remove-Kept m d msg s v)
    serve-Kept req_find_shelf =
        (same-Kept m d msg s v _ (
          send_found-keeps (srvdb_shelf_fetch_result m) (shelf_fetch-keeps m d) fuel msg
            (srvdb_shelf_find m msg s) line
          ∙ shelf_find-keeps m d msg s))
    serve-Kept req_count_shelf = (same-Kept m d msg s v _ (shelf_count-keeps m d msg s))
    serve-Kept req_verify_account = (same-Kept m d msg s v _ (verify-keeps m d b l msg s))
    serve-Kept req_register_account = (register-Kept m d msg s v b salt)
    serve-Kept req_heartbeat = (same-Kept m d msg s v _ refl)

  pub process_request-Kept :
      (b : Bcrypt) (fuel : ℕ) (is_open : Bool) (msg stack : Message) (salt : Option Text)
      (s : Server m) (line : l.Line)
      → IsInert msg
      → IsOrderly msg.user (tables_of m d s)
      → AreRead msg
        × Kept msg.user (tables_of m d s) (
            tables_of m d
              (socket_srv_process_request m l b fuel is_open (request msg) stack salt s line).1)
  unfolding socket_srv_process_request process_message
  process_request-Kept b fuel true msg stack salt s line safe v =
      (IsInert-AreRead msg safe, serve-Kept b fuel salt (cleared msg) s line v msg.request)
  process_request-Kept b fuel false msg stack salt s line safe v =
      (IsInert-AreRead msg safe, same-Kept m d msg s v _ refl)
