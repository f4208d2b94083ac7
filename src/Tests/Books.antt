-- ===== src/Tests/Books.antt =====
-- The books' part of srvdb.c at concrete inputs.
use bookshelfdq.Base.{if◌then◌else◌, ◌≡◌, refl, arith, ℕ_discrete, eq_ℤ}
use bookshelfdq.Mysql.Rows.{lowest}
use bookshelfdq.Mysql.Rows.Update.{update_rows, changed_rows}
use bookshelfdq.Clisrv.{book_avl, book_del, book_unsorted}
use bookshelfdq.Mysql.Meaning.{
  set_cleaned, meaning, row_of_entry, is_digit, book_update, BookRow-discrete, sat, put_books,
}
use bookshelfdq.Srvdb.Connection.{run, is_failed, get_simple_int}
use bookshelfdq.Srvdb.Book.{
  srvdb_book_insert, srvdb_book_delete, srvdb_book_update, set_book_code, reuse_book, whole_shelf,
}
use bookshelfdq.Srvdb.Book.Rows.{IsNumbered}
use bookshelfdq.Srvdb.Book.Insert.{Inserted, book_insert-Inserted}
use bookshelfdq.Srvdb.Book.Change.{Changed, is_meant, book_delete-Changed, book_update-Changed}
use bookshelfdq.Tests.Engine.{ideal, ideal-IsDocumented, at_tables, three_books, a_message}

pub three_books-IsNumbered : IsNumbered (three_books.books a_message.user)
three_books-IsNumbered = record { rising = omega arith; within = omega arith }

-- The number of the deleted book is given out again.
insert_reuses_two :
    (srvdb_book_insert ideal a_message (at_tables three_books)).1 ≡ set_book_code a_message 2
unfolding srvdb_book_insert run meaning ℕ_discrete is_digit is_failed get_simple_int book_update
    lowest update_rows changed_rows BookRow-discrete sat eq_ℤ row_of_entry put_books reuse_book
insert_reuses_two = refl

book_insert_example :
    Inserted ideal ideal-IsDocumented a_message three_books
      (srvdb_book_insert ideal a_message (at_tables three_books))
book_insert_example =
    book_insert-Inserted ideal ideal-IsDocumented a_message (at_tables three_books)
      three_books-IsNumbered

book_delete_example :
    Changed ideal ideal-IsDocumented a_message
      (λ r. if is_meant a_message.book r then set_cleaned book_del r else r)
      (at_tables three_books)
      (srvdb_book_delete ideal a_message (at_tables three_books))
book_delete_example = book_delete-Changed ideal ideal-IsDocumented a_message (at_tables three_books)

book_update_example :
    Changed ideal ideal-IsDocumented a_message
      (λ r.
        if is_meant a_message.book r
        then (if whole_shelf a_message.book
            then set_cleaned book_unsorted r
            else row_of_entry a_message.book r.bookno book_avl)
        else r)
      (at_tables three_books)
      (srvdb_book_update ideal a_message (at_tables three_books))
book_update_example = book_update-Changed ideal ideal-IsDocumented a_message (at_tables three_books)
