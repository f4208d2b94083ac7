-- ===== src/Srvdb/Book/Choice.antt =====
-- Which number srvdb_book_insert gives out, on a server that answers every statement.
use bookshelfdq.Base.{ℕ, suc, Bool, true, false, Option, none, some, List, leb, if◌then◌else◌}
use bookshelfdq.Clisrv.{max_book_num, Message}
use bookshelfdq.Mysql.Statement.{BookRow}
use bookshelfdq.Mysql.Rows.{lowest, highest}
use bookshelfdq.Mysql.Meaning.{book_no}
use bookshelfdq.Mysql.Client.{Mysql}
use bookshelfdq.Srvdb.Book.{Done, set_book_code, set_error, too_many_books}
use bookshelfdq.Srvdb.Book.Rows.{is_deleted}

-- The lowest number of a deleted book, else the number after the highest one in use, if any is left.
unfoldable pub chosen : List BookRow → Option ℕ
chosen rows = elim (lowest book_no is_deleted rows) [
  | some n ↦ some n
  | none ↦ elim (highest book_no rows) [
    | none ↦ some 1
    | some n ↦ if leb max_book_num n then none else some (suc n)
  ]
]

-- The answer of srvdb_book_insert to a message, when `chosen` is the number.
abbrev pub reply_of : Message → Option ℕ → Bool × Message
reply_of msg (some n) = (true, set_book_code msg n)
reply_of msg none = (false, set_error msg too_many_books)

abbrev pub answer : {m : Mysql} → Done m → Bool × Message
answer r = (r.0, r.1)
