-- ===== src/Srvdb/Search.antt =====
-- The search of books in bsdqserver/srvdb.c: srvdb_book_find and srvdb_book_fetch_result, and in the
-- module Counting srvdb_book_count.
pub mod Counting
pub mod Count
pub mod Words
pub mod Page
pub mod Paging
pub mod Keeps
use bookshelfdq.Base.{
  ℕ, ◌+◌, Text, ℤ, pos, eq_ℤ, lt_ℤ, neg_ℤ, Bool, true, false, ◌&&◌, ◌||◌, not, Option, none, some,
  [], ◌∷◌, ◌==◌, if◌then◌else◌, length,
}
use bookshelfdq.Clisrv.{
  max_book_num, default_finds, non_sense_int, break_limit_int, flag_borrowed, flag_on_reading,
  flag_find_unsorted, book_avl, book_unsorted, BookEntry, Message, book_counts,
}
use bookshelfdq.Mysql.Statement.{
  BookRow, BookCond, Columns, Statement, all_columns, bookno_only, shelfno_is, shelfno_above,
  floorno_is, bookno_above, cleaned_is, borrowed_set, on_reading_set, name_is, author_is, label_is,
  name_like, author_like, label_like, both, either, select_books, select_book,
}
use bookshelfdq.Mysql.Meaning.{Outcome, failed, book_rows}
use bookshelfdq.Mysql.Client.{Mysql}
use bookshelfdq.Srvdb.Book.{is_undefined}
use bookshelfdq.Srvdb.Connection.{
  Server, run, Stored, no_result, stored_books, stored_shelves, mysql_check_connection,
  srvdb_free_result,
}

-- shelfno=%d, or shelfno>0 for a search of all shelves
unfoldable pub place : BookEntry → BookCond
place e =
    if eq_ℤ e.shelf_code non_sense_int then shelfno_above e.shelf_code else shelfno_is e.shelf_code

-- The first byte of a search text, and the text behind it.
abbrev pub mode : Text → ℕ
mode [] = 0
mode (c ∷ cs) = c

abbrev pub behind : Text → Text
behind [] = []
behind (c ∷ cs) = cs

-- How a condition is joined to what stands before it.
pub data Link : Type 0 where
  or_like and_like and_is : Link

name_cond : Text → Option BookCond
name_cond t =
    if mode t == b'0' || (mode t == b'-' || mode t == b'+')
    then some (name_like (behind t))
    else if mode t == b'='
    then some (name_is (behind t))
    else none

link : Text → Option Link
link t =
    if mode t == b'-'
    then some or_like
    else if mode t == b'0' || mode t == b'+'
    then some and_like
    else if mode t == b'='
    then some and_is
    else none

author_cond : Link → Text → BookCond
author_cond and_is t = author_is t
author_cond _ t = author_like t

label_cond : Link → Text → BookCond
label_cond and_is t = label_is t
label_cond _ t = label_like t

-- `name <link> author <link> label`, read with AND before OR as SQL does.
join : BookCond → Link → BookCond → Link → BookCond → BookCond
join n or_like a or_like l = either (either n a) l
join n or_like a _ l = either n (both a l)
join n _ a or_like l = either (both n a) l
join n _ a _ l = both (both n a) l

unfoldable pub keywords : BookEntry → Option BookCond
unfolding name_cond link author_cond label_cond join
keywords e = elim (name_cond e.name) [
  | none ↦ none
  | some n ↦ elim (link e.author) [
    | none ↦ none
    | some la ↦ elim (link e.label) [
      | none ↦ none
      | some ll ↦
          some (join n la (author_cond la (behind e.author)) ll (label_cond ll (behind e.label)))
    ]
  ]
]

-- floorno=%d, where a floor of one shelf is searched.
on_floor : BookEntry → BookCond → BookCond
on_floor e p =
    if not (eq_ℤ e.floor_code non_sense_int) && not (eq_ℤ e.shelf_code non_sense_int)
    then both (floorno_is e.floor_code) p
    else p

-- The statement of a search: its columns, its first number and its limit are given. A search by
-- keywords in an unknown mode has none.
unfoldable pub find_statement : Text → BookEntry → Columns → ℤ → ℕ → Option Statement
unfolding keywords on_floor place
find_statement u e cols start limit =
    if e.borrowed == flag_find_unsorted && e.on_reading == flag_find_unsorted
    then some (
        select_books u cols (both (cleaned_is book_unsorted) (both (place e) (bookno_above start)))
          limit)
    else if e.borrowed == flag_borrowed
    then some (
        select_books u cols
          (both borrowed_set (both (cleaned_is book_avl) (both (place e) (bookno_above start))))
          limit)
    else if e.on_reading == flag_on_reading
    then some (
        select_books u cols
          (both on_reading_set (both (cleaned_is book_avl) (both (place e) (bookno_above start))))
          limit)
    else if lt_ℤ start non_sense_int
    then some (select_book u cols (neg_ℤ start))
    else elim (keywords e) [
      | none ↦ none
      | some k ↦ some (
          select_books u cols
            (both (both (place e) (both (cleaned_is book_avl) (bookno_above start))) (on_floor e k))
            limit)
    ]

-- BREAK_LIMIT_INT in place of a book number lifts the limit; only the number of rows is wanted.
abbrev pub limit_lifted : BookEntry → Bool
limit_lifted e = eq_ℤ e.book_code break_limit_int

unfoldable pub search_statement : Text → BookEntry → Option Statement
unfolding find_statement
search_statement u e =
    if limit_lifted e
    then find_statement u e bookno_only non_sense_int max_book_num
    else find_statement u e all_columns e.book_code default_finds

pub data FetchResult : Type 0 where
  fetch_end fetch_end_more fetch_cont fetch_err : FetchResult

unfoldable pub entry_of_row : BookRow → BookEntry
entry_of_row r = record {
  shelf_code = r.shelfno;
  floor_code = r.floorno;
  book_code = pos r.bookno;
  name = r.name;
  author = r.author;
  label = r.label;
  borrowed = r.borrowed;
  on_reading = r.on_reading;
  encoding_time = r.encoding_time;
}

module _ (m : Mysql) where
  -- mysql_store_result: the rows stay until they are fetched or freed.
  keep_result : Bool → Outcome → Server m → Option ℕ × Server m
  keep_result auto_free (book_rows fields rows) s = (
    some (length rows),
    (let s1 = record s {
      res_ptr = stored_books rows;
      res_rows = length rows;
      res_fields = fields;
    } in
        if auto_free then srvdb_free_result m s1 else s1),
  )
  keep_result auto_free failed s = (none, mysql_check_connection m s)
  keep_result auto_free _ s = (none, s)

  -- `none` is 0; otherwise 1, with the number of rows.
  unfoldable pub srvdb_book_find : Message → Server m → Option ℕ × Server m
  unfolding keep_result
  srvdb_book_find msg s =
      if is_undefined msg.user then (none, s) else elim (search_statement msg.user msg.book) [
        | none ↦ (none, s)
        | some q ↦ let (o, s1) = run m q s in keep_result (limit_lifted msg.book) o s1
      ]

  unfoldable pub fetch_row : Stored → Message → Server m → FetchResult × Message × Server m
  fetch_row no_result msg s = (fetch_end, msg, s)
  fetch_row (stored_shelves rows) msg s = (fetch_err, msg, srvdb_free_result m s)
  fetch_row (stored_books []) msg s =
      if not (m.errno s.conn == 0)
      then (fetch_err, msg, srvdb_free_result m s)
      else if s.res_rows == default_finds
      then (fetch_end_more, msg, s)
      else (fetch_end, msg, srvdb_free_result m s)
  fetch_row (stored_books (r ∷ rs)) msg s =
      if not (m.errno s.conn == 0)
      then (fetch_err, msg, srvdb_free_result m s)
      else if s.res_fields == 10
      then (
        fetch_cont,
        record msg { book = entry_of_row r },
        record s { res_ptr = stored_books rs },
      )
      else (fetch_err, record msg { book = entry_of_row r }, srvdb_free_result m s)

  unfoldable pub srvdb_book_fetch_result : Message → Server m → FetchResult × Message × Server m
  unfolding fetch_row
  srvdb_book_fetch_result msg s = fetch_row s.res_ptr msg s
