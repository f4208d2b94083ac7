-- ===== src/Srvdb/Book.antt =====
-- The books' part of bsdqserver/srvdb.c.
pub mod Rows
pub mod Insert
pub mod Choice
pub mod Change
use Prim.Native.Char.{code}
use bookshelfdq.Base.{
  ℕ, suc, ◌+◌, Text, codes, ℤ, pos, eq_ℤ, lt_ℤ, neg_ℤ, Bool, true, false, ◌&&◌, ◌||◌, not, Option,
  none, some, List, [], ◌∷◌, leb, ◌==◌, if◌then◌else◌, get_or, length,
}
use bookshelfdq.Clisrv.{
  max_book_num, default_finds, non_sense_int, break_limit_int, flag_borrowed, flag_on_reading,
  flag_find_unsorted, book_avl, book_del, book_unsorted, BookEntry, Message, book_counts,
}
use bookshelfdq.Mysql.Statement.{
  BookRow, BookCond, Columns, Statement, all_columns, bookno_only, shelfno_is, shelfno_above,
  floorno_is, bookno_is, bookno_above, cleaned_is, borrowed_set, on_reading_set, name_is, author_is,
  label_is, name_like, author_like, label_like, both, either, min_bookno, max_bookno, set_book,
  set_book_cleaned, insert_book, select_books, select_book,
}
use bookshelfdq.Mysql.Meaning.{
  Outcome, failed, affected, scalar_int, scalar_text, book_rows, shelf_rows,
}
use bookshelfdq.Mysql.Client.{Mysql}
use bookshelfdq.Srvdb.Connection.{
  Server, run, Stored, no_result, stored_books, stored_shelves, mysql_check_connection,
  srvdb_free_result, get_simple_int, is_failed,
}

-- The texts that the client shows, as code points.
abbrev pub too_many_books : Text
too_many_books = codes "上架失败:图书数量达到上限"

abbrev pub insert_failed : Text
insert_failed = codes "上架图书失败..."

abbrev pub is_undefined : Text → Bool
is_undefined [] = true
is_undefined (c ∷ cs) = false

abbrev pub set_book_code : Message → ℕ → Message
set_book_code msg n = record msg { book = record msg.book { book_code = pos n } }

abbrev pub set_error : Message → Text → Message
set_error msg t = record msg { error_text = t }

-- The message names a shelf and no book.
abbrev pub whole_shelf : BookEntry → Bool
whole_shelf e = eq_ℤ e.book_code non_sense_int && not (eq_ℤ e.shelf_code non_sense_int)

module _ (m : Mysql) where
  abbrev pub Done : Type 0
  Done = Bool × Message × Server m

  -- INSERT under the number n.
  unfoldable pub insert_new : Message → ℕ → Server m → Done
  insert_new msg n s =
      let (o, s1) = run m (insert_book msg.user msg.book n book_avl) s in
      if is_failed o
      then (false, set_error (set_book_code msg n) insert_failed, mysql_check_connection m s1)
      else (true, set_book_code msg n, s1)

  -- From the highest number in use on.
  unfoldable pub append_book : Message → Server m → Done
  append_book msg s =
      let (o, s1) = run m (max_bookno msg.user) s in
      if is_failed o then (false, msg, mysql_check_connection m s1) else elim (get_simple_int o) [
        | none ↦ insert_new msg 1 s1
        | some n ↦
            if leb max_book_num n
            then (false, set_error msg too_many_books, s1)
            else insert_new msg (suc n) s1
      ]

  -- Over the row of a deleted book, where that row takes the new values.
  unfoldable pub reuse_book : Message → ℕ → Server m → Done
  reuse_book msg n s =
      let (o, s1) = run m (set_book msg.user msg.book book_avl (pos n)) s in
      elim o [
        | failed ↦ append_book msg (mysql_check_connection m s1)
        | affected k ↦ if k == 1 then (true, set_book_code msg n, s1) else append_book msg s1
        | _ ↦ append_book msg s1
      ]

  unfoldable pub srvdb_book_insert : Message → Server m → Done
  srvdb_book_insert msg s =
      if is_undefined msg.user
      then (false, msg, s)
      else (let (o, s1) = run m (min_bookno msg.user book_del) s in
          if is_failed o
          then append_book msg (mysql_check_connection m s1)
          else elim (get_simple_int o) [ none ↦ append_book msg s1 | some n ↦ reuse_book msg n s1 ])

  -- One UPDATE, and what the functions do after it.
  unfoldable pub update : Statement → Message → Server m → Done
  update q msg s =
      let (o, s1) = run m q s in
      if is_failed o then (false, msg, mysql_check_connection m s1) else (true, msg, s1)

  unfoldable pub srvdb_book_delete : Message → Server m → Done
  srvdb_book_delete msg s =
      if is_undefined msg.user
      then (false, msg, s)
      else if whole_shelf msg.book
      then update (set_book_cleaned msg.user book_del (shelfno_is msg.book.shelf_code)) msg s
      else update (set_book_cleaned msg.user book_del (bookno_is msg.book.book_code)) msg s

  unfoldable pub srvdb_book_update : Message → Server m → Done
  srvdb_book_update msg s =
      if is_undefined msg.user
      then (false, msg, s)
      else if whole_shelf msg.book
      then update (set_book_cleaned msg.user book_unsorted (shelfno_is msg.book.shelf_code)) msg s
      else update (set_book msg.user msg.book book_avl msg.book.book_code) msg s
