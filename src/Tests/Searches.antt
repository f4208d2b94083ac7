-- ===== src/Tests/Searches.antt =====
-- The search part of srvdb.c at concrete inputs.
use bookshelfdq.Base.{◌≡◌, refl, some, eq_ℤ, lt_ℤ, ◌<◌, true, arith, codes, pos, length, keep}
use bookshelfdq.Clisrv.{Message, book_counts}
use bookshelfdq.Srvdb.Search.{srvdb_book_find}
use bookshelfdq.Srvdb.Search.Counting.{srvdb_book_count}
use bookshelfdq.Srvdb.Search.Count.{counts_of, book_count-counts}
use bookshelfdq.Srvdb.Search.Page.{page_of, Holds, wanted, book_find-page}
use bookshelfdq.Srvdb.Search.Paging.{read_all, read_all_complete}
use bookshelfdq.Srvdb.Connection.Keeps.{tables_of}
use bookshelfdq.Tests.Books.{three_books-IsNumbered}
use bookshelfdq.Tests.Engine.{
  contains, ideal, ideal-IsDocumented, ideal-IsReliable, exact, at_tables, three_books, a_message,
}

-- All shelves, books with "oo" in their names.
abbrev pub a_search : Message
a_search = record a_message {
  book = record a_message.book {
    shelf_code = pos 0;
    floor_code = pos 0;
    borrowed = 0;
    on_reading = 0;
    name = codes "0oo";
    author = codes "0";
    label = codes "+";
  };
}

book_count_example :
    ((srvdb_book_count ideal a_search (at_tables three_books)).0 ≡ true)
    × ((srvdb_book_count ideal a_search (at_tables three_books)).1.extra_info
        ≡ book_counts (counts_of a_search.book (three_books.books a_search.user)))
book_count_example =
    book_count-counts ideal ideal-IsDocumented ideal-IsReliable (three_books.books a_search.user)
      three_books-IsNumbered a_search (at_tables three_books) refl refl refl

book_find_example :
    let page = page_of exact a_search.book (three_books.books a_search.user) in
    let r = srvdb_book_find ideal a_search (at_tables three_books) in
    (r.0 ≡ some (length page))
    × Holds ideal ideal-IsDocumented ideal-IsReliable page r.1
    × (tables_of ideal ideal-IsDocumented r.1 ≡ three_books)
unfolding eq_ℤ lt_ℤ
book_find_example =
    book_find-page ideal ideal-IsDocumented ideal-IsReliable a_search (at_tables three_books) refl
      refl refl refl

few_books : length (keep (wanted exact a_search.book (pos 0)) (three_books.books a_search.user)) < 5
unfolding keep contains lt_ℤ eq_ℤ
few_books = omega arith

read_all_example :
    read_all ideal 5 a_search 0 (at_tables three_books)
    ≡ keep (wanted exact a_search.book (pos 0)) (three_books.books a_search.user)
read_all_example =
    read_all_complete ideal ideal-IsDocumented ideal-IsReliable a_search 5 0 (at_tables three_books)
      three_books-IsNumbered refl refl (omega arith) (few_books)
