-- ===== src/Srvdb/Book/Insert.antt =====
-- srvdb_book_insert: where the new book is put, and what stays.
use bookshelfdq.Base.{
  ℕ, suc, ◌≡◌, sym, ap, subst, ◌∙◌, inl, inr, true, false, ◌&&◌, none, some, List, leb, pos, arith,
  Option-cases, Bool-cases,
}
use bookshelfdq.Clisrv.{max_book_num, book_avl, book_del, Message}
use bookshelfdq.Mysql.Statement.{BookRow, min_bookno, max_bookno, set_book, insert_book}
use bookshelfdq.Mysql.Rows.{insert_row, lowest, highest, Within, highest-Within, highest-none}
use bookshelfdq.Mysql.Meaning.{
  book_no, row_of_entry, Tables, put_books, meaning, book_update, book_insertion, is_digit,
}
use bookshelfdq.Mysql.Client.{Mysql, IsDocumented}
use bookshelfdq.Srvdb.Connection.Keeps.{tables_of, check-keeps, run-cases}
use bookshelfdq.Srvdb.Connection.{Server, run, mysql_check_connection, get_simple_int, is_failed}
use bookshelfdq.Srvdb.Book.{
  Done, insert_new, append_book, reuse_book, srvdb_book_insert, set_book_code, is_undefined,
}
use bookshelfdq.Srvdb.Book.Rows.{
  IsNumbered, is_deleted, Placed, reused, reused-Placed, reused_changes, appended-Placed,
}

module _ (m : Mysql) (d : IsDocumented m) where
  -- What an insertion comes to: nothing was changed, or the book stands under a free number, which
  -- the message brings back.
  pub data Inserted (msg : Message) (t : Tables) (r : Done m) : Type 0 where
    refused : r.0 ≡ false → tables_of m d r.2 ≡ t → Inserted msg t r
    placed :
        (n : ℕ) (rows : List BookRow)
        → r.0 ≡ true
        → r.1 ≡ set_book_code msg n
        → tables_of m d r.2 ≡ put_books msg.user rows t
        → Placed msg.book n (t.books msg.user) rows
        → Inserted msg t r

  module _ (msg : Message) (t : Tables) where
    insert_new-Inserted :
        (n : ℕ) (s : Server m)
        → tables_of m d s ≡ t
        → ((rows : List BookRow)
            → insert_row book_no (row_of_entry msg.book n book_avl) (t.books msg.user) ≡ some rows
            → Placed msg.book n (t.books msg.user) rows)
        → Inserted msg t (insert_new m msg n s)
    unfolding insert_new meaning is_failed book_insertion
    insert_new-Inserted n s same fits =
        elim (run-cases m d (insert_book msg.user msg.book n book_avl) s) [
          | inl (e, k) ↦ refused (ground arith) (
              ground
                (arith, check-keeps m d (run m (insert_book msg.user msg.book n book_avl) s).1))
          | inr (e, k) ↦
              elim (Option-cases
                (insert_row book_no (row_of_entry msg.book n book_avl) (t.books msg.user))) [
                  | inl q ↦ refused (ground arith) (
                      ground (
                        arith,
                        check-keeps m d (run m (insert_book msg.user msg.book n book_avl) s).1,
                      ))
                  | inr (rows, q) ↦
                      elim (Bool-cases
                        (is_digit msg.book.borrowed && is_digit msg.book.on_reading)) [
                          | inl g ↦
                              placed n rows (ground arith) (ground arith) (ground arith)
                                (fits rows q)
                          | inr g ↦ refused (ground arith) (
                              ground (
                                arith,
                                check-keeps m d
                                    (run m (insert_book msg.user msg.book n book_avl) s).1,
                              ))
                        ]
                ]
        ]

    none-Within : highest book_no (t.books msg.user) ≡ none → Within book_no 0 (t.books msg.user)
    none-Within q = rw (highest-none book_no (t.books msg.user) q) tt

    append_book-Inserted :
        (s : Server m)
        → tables_of m d s ≡ t
        → IsNumbered (t.books msg.user)
        → Inserted msg t (append_book m msg s)
    unfolding append_book meaning is_failed get_simple_int
    append_book-Inserted s same v =
        let s1 = (run m (max_bookno msg.user) s).1 in
        elim (run-cases m d (max_bookno msg.user) s) [
          | inl (e, k) ↦ refused (ground arith) (ground (arith, check-keeps m d s1))
          | inr (e, k) ↦ elim (Option-cases (highest book_no (t.books msg.user))) [
            | inl q ↦
                let goes : append_book m msg s ≡ insert_new m msg 1 s1 = ground arith in
                subst (Inserted msg t) (sym goes) (
                  insert_new-Inserted 1 s1 (ground arith) (λ rows h.
                    appended-Placed msg.book 0 (t.books msg.user) rows v (none-Within q)
                      (omega arith) h))
            | inr (n, q) ↦ elim (Bool-cases (leb max_book_num n)) [
              | inl full ↦ refused (ground arith) (ground arith)
              | inr room ↦
                  let goes : append_book m msg s ≡ insert_new m msg (suc n) s1 = ground arith in
                  subst (Inserted msg t) (sym goes) (
                    insert_new-Inserted (suc n) s1 (ground arith) (λ rows h.
                      appended-Placed msg.book n (t.books msg.user) rows v
                        (highest-Within book_no (t.books msg.user) n q) (ground arith) h))
            ]
          ]
        ]

    reuse_book-Inserted :
        (n : ℕ) (s : Server m)
        → tables_of m d s ≡ t
        → IsNumbered (t.books msg.user)
        → lowest book_no is_deleted (t.books msg.user) ≡ some n
        → Inserted msg t (reuse_book m msg n s)
    unfolding reuse_book meaning book_update
    reuse_book-Inserted n s same v low =
        let q = set_book msg.user msg.book book_avl (pos n) in
        let s1 = (run m q s).1 in
        elim (run-cases m d q s) [
          | inl (e, k) ↦
              let goes : reuse_book m msg n s ≡ append_book m msg (mysql_check_connection m s1) =
                ground arith in
              subst (Inserted msg t) (sym goes) (
                append_book-Inserted (mysql_check_connection m s1) (check-keeps m d s1 ∙ k ∙ same)
                  v)
          | inr (e, k) ↦
              elim (Bool-cases (is_digit msg.book.borrowed && is_digit msg.book.on_reading)) [
                | inl g ↦
                    let one = reused_changes d.collation msg.book n (t.books msg.user) v low in
                    let goes : reuse_book m msg n s ≡ (true, set_book_code msg n, s1) =
                      ground (arith, one) in
                    placed n (reused d.collation msg.book n (t.books msg.user))
                      (ap (λ (r : Done m). r.0) goes) (ap (λ (r : Done m). r.1) goes)
                      (ap (λ (r : Done m). tables_of m d r.2) goes ∙ ground arith)
                      (reused-Placed d.collation msg.book n (t.books msg.user) v low)
                | inr g ↦
                    let goes : reuse_book m msg n s
                        ≡ append_book m msg (mysql_check_connection m s1) =
                      ground arith in
                    subst (Inserted msg t) (sym goes) (
                      append_book-Inserted (mysql_check_connection m s1)
                        (check-keeps m d s1 ∙ ground arith) v)
              ]
        ]

  -- Whatever the server answers, an insertion either returns 0 and leaves all tables as they were,
  -- or returns 1 and the number of a book that was not in use, under which the entry now stands as
  -- available, every other book being unchanged; the numbers stay distinct and within
  -- 1 .. MAX_BOOK_NUM if they were so.
  pub book_insert-Inserted :
      (msg : Message) (s : Server m)
      → IsNumbered ((tables_of m d s).books msg.user)
      → Inserted msg (tables_of m d s) (srvdb_book_insert m msg s)
  unfolding srvdb_book_insert meaning is_failed get_simple_int
  book_insert-Inserted msg s v =
      let t = tables_of m d s in
      let s1 = (run m (min_bookno msg.user book_del) s).1 in
      elim (Bool-cases (is_undefined msg.user)) [
        | inl e ↦ refused (ground arith) (ground arith)
        | inr named ↦ elim (run-cases m d (min_bookno msg.user book_del) s) [
          | inl (e, k) ↦
              let goes : srvdb_book_insert m msg s
                  ≡ append_book m msg (mysql_check_connection m s1) =
                ground arith in
              subst (Inserted msg t) (sym goes) (
                append_book-Inserted msg t (mysql_check_connection m s1) (check-keeps m d s1 ∙ k) v)
          | inr (e, k) ↦ elim (Option-cases (lowest book_no is_deleted (t.books msg.user))) [
            | inl q ↦
                let goes : srvdb_book_insert m msg s ≡ append_book m msg s1 = ground arith in
                subst (Inserted msg t) (sym goes) (append_book-Inserted msg t s1 k v)
            | inr (n, q) ↦
                let goes : srvdb_book_insert m msg s ≡ reuse_book m msg n s1 = ground arith in
                subst (Inserted msg t) (sym goes) (reuse_book-Inserted msg t n s1 k v q)
          ]
        ]
      ]
