-- ===== src/Clishell/Requests.antt =====
-- The requests of bsdqclient/clishell.c that are made of find_from_server.
use Prim.Native.Nat.{bit_and}
use bookshelfdq.Base.{
  ℕ, suc, Text, codes, ℤ, pos, negsuc, eq_ℤ, Bool, false, Option, none, some, [], ◌∷◌, ◌==◌,
  if◌then◌else◌, set,
}
use bookshelfdq.Clisrv.{
  BookEntry, ShelfEntry, AccountEntry, account_admin, account_user, no_info, init_archive,
  non_sense_int, flag_find_unsorted, req_insert_book, req_delete_book, req_update_book,
  req_find_book, req_count_book, req_build_shelf, req_remove_shelf, req_verify_account,
  req_register_account,
}
use bookshelfdq.Clidb.Gdbm.{Dbm}
use bookshelfdq.Clidb.{clidb_book_insert, clidb_book_delete, clidb_shelf_insert, clidb_shelf_delete}
use bookshelfdq.Clishell.{
  Remote, Client, Replied, Reply, reply_failed, is_ok, blank, blank_book, blank_shelf,
  find_from_server,
}

module _ (r : Remote) (g : Dbm) where
  abbrev pub incomplete : Text
  incomplete = codes "书籍信息不完整"

  abbrev pub first_char : Text → ℕ
  first_char [] = 0
  first_char (x ∷ xs) = x

  abbrev pub as_bits : ℤ → ℕ
  as_bits (pos n) = n
  as_bits (negsuc n) = 0

  -- name[0] & author[0] & code[1], for a floor that is not negative.
  unfoldable pub is_incomplete : BookEntry → Bool
  is_incomplete e =
      bit_and (bit_and (first_char e.name) (first_char e.author)) (as_bits e.floor_code) == 0

  -- With the error text where the caller is given one.
  unfoldable pub client_shelf_insert_book :
      ℕ → Text → BookEntry → Client r g → Reply × Option Text × Client r g
  client_shelf_insert_book fuel now e c =
      if is_incomplete e
      then (reply_failed, some incomplete, c)
      else (let msg = record (blank c.login_user req_insert_book) {
        book = record e { encoding_time = now; book_code = non_sense_int };
      } in
          let (a, m, c1) = find_from_server r g fuel msg c in
          (a, elim a [ reply_failed ↦ some m.error_text | _ ↦ none ], c1))

  unfoldable pub client_shelf_loading_book : ℕ → ℤ → ℤ → Client r g → Replied r g
  client_shelf_loading_book fuel shelfno bookno c =
      let flag = if eq_ℤ shelfno non_sense_int then flag_find_unsorted else b'0' in
      find_from_server r g fuel
        (record (blank c.login_user req_find_book) {
          book = record blank_book {
            shelf_code = shelfno;
            book_code = bookno;
            name = b'-' ∷ [];
            author = b'-' ∷ [];
            label = b'-' ∷ [];
            borrowed = flag;
            on_reading = flag;
          };
        })
        c

  -- What a success leaves in the cache at a position.
  abbrev pub put_at : BookEntry → ℕ → Client r g → Client r g
  put_at e p c = record c { cache = (clidb_book_insert g e (some p) c.cache).1 }

  unfoldable pub client_shelf_delete_book : ℕ → BookEntry → ℕ → Client r g → Replied r g
  client_shelf_delete_book fuel e dbm_pos c =
      let msg = record (blank c.login_user req_delete_book) {
        book = record blank_book { book_code = e.book_code };
      } in
      let (a, m, c1) = find_from_server r g fuel msg c in
      (a, m, if is_ok a then record c1 { cache = (clidb_book_delete g dbm_pos c1.cache).1 } else c1)

  unfoldable pub client_shelf_collecting_book : ℕ → ℤ → BookEntry → ℕ → Client r g → Replied r g
  client_shelf_collecting_book fuel shelfno e dbm_pos c =
      let msg = record (blank c.login_user req_update_book) {
        book = record e { shelf_code = shelfno };
      } in
      let (a, m, c1) = find_from_server r g fuel msg c in
      (
        a,
        m,
        if is_ok a
            then put_at (record e { encoding_time = set e.encoding_time 11 b'H' }) dbm_pos c1
            else c1,
      )

  unfoldable pub client_shelf_tagging_book : ℕ → BookEntry → ℕ → Client r g → Replied r g
  client_shelf_tagging_book fuel e dbm_pos c =
      let msg = record (blank c.login_user req_update_book) { book = e } in
      let (a, m, c1) = find_from_server r g fuel msg c in
      (a, m, if is_ok a then put_at e dbm_pos c1 else c1)

  unfoldable pub client_shelf_count_book : ℕ → ℤ → Client r g → Replied r g
  client_shelf_count_book fuel shelfno c =
      find_from_server r g fuel
        (record (blank c.login_user req_count_book) {
          book = record blank_book { shelf_code = shelfno };
        })
        c

  -- The flags that a move writes, and the code that it returns on success.
  pub data Move : Type 0 where
    move_reading move_lending move_other : Move

  unfoldable pub moved : Move → BookEntry → ℕ × BookEntry
  moved move_reading e = (1, record e { on_reading = b'1' })
  moved move_lending e =
      if e.on_reading == b'1'
      then (4, record e { on_reading = b'0' })
      else if e.borrowed == b'1'
      then (4, record e { borrowed = b'0' })
      else (2, record e { borrowed = b'1' })
  moved move_other e = (0, e)

  unfoldable pub client_shelf_moving_book : ℕ → BookEntry → ℕ → Move → Client r g → ℕ × Client r g
  client_shelf_moving_book fuel e dbm_pos action c =
      let (code, e1) = moved action e in
      let (a, m, c1) =
        find_from_server r g fuel (record (blank c.login_user req_update_book) { book = e1 }) c in
      if is_ok a then (code, put_at m.book dbm_pos c1) else (suc code, c1)

  unfoldable pub client_shelf_abandon_books : ℕ → ℤ → Client r g → Replied r g
  client_shelf_abandon_books fuel shelfno c =
      find_from_server r g fuel
        (record (blank c.login_user req_delete_book) {
          book = record blank_book { shelf_code = shelfno };
        })
        c

  unfoldable pub client_shelf_unsorted_books : ℕ → ℤ → Client r g → Replied r g
  client_shelf_unsorted_books fuel shelfno c =
      find_from_server r g fuel
        (record (blank c.login_user req_update_book) {
          book = record blank_book { shelf_code = shelfno };
        })
        c

  unfoldable pub client_shelf_delete_itself : ℕ → ℕ → Client r g → Replied r g
  client_shelf_delete_itself fuel shelfno c =
      let msg = record (blank c.login_user req_remove_shelf) {
        shelf = record blank_shelf { code = pos shelfno };
      } in
      let (a, m, c1) = find_from_server r g fuel msg c in
      (
        a,
        m,
        if is_ok a then record c1 { cache = (clidb_shelf_delete g shelfno c1.cache).1 } else c1,
      )

  unfoldable pub client_searching_book : ℕ → ℤ → BookEntry → Client r g → Replied r g
  client_searching_book fuel bookno search_entry c =
      find_from_server r g fuel
        (record (blank c.login_user req_find_book) {
          book = record search_entry { floor_code = non_sense_int; book_code = bookno };
        })
        c

  unfoldable pub client_build_shelf : ℕ → Text → ShelfEntry → Client r g → Replied r g
  client_build_shelf fuel now e c =
      let msg = record (blank c.login_user req_build_shelf) {
        shelf = record e { building_time = now };
      } in
      let (a, m, c1) = find_from_server r g fuel msg c in
      (
        a,
        m,
        if is_ok a then record c1 { cache = (clidb_shelf_insert g m.shelf c1.cache).1 } else c1,
      )

  unfoldable pub client_register_account : ℕ → AccountEntry → Client r g → Replied r g
  client_register_account fuel a c =
      find_from_server r g fuel (record (blank a.name req_register_account) { account = a }) c

  unfoldable pub client_verify_account : ℕ → Bool → AccountEntry → Client r g → Replied r g
  client_verify_account fuel init_mode a c =
      let wants : Bool = elim a.type [ account_user ↦ init_mode | account_admin ↦ false ] in
      find_from_server r g fuel
        (record (blank a.name req_verify_account) {
          account = a;
          extra_info = if wants then init_archive else no_info;
        })
        c
