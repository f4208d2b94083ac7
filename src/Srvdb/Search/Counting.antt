-- ===== src/Srvdb/Search/Counting.antt =====
-- srvdb_book_count of bsdqserver/srvdb.c: four searches with the limit lifted.
use bookshelfdq.Base.{ℕ, ◌+◌, Bool, true, false, none, some, [], ◌∷◌}
use bookshelfdq.Clisrv.{
  break_limit_int, flag_borrowed, flag_on_reading, flag_find_unsorted, Message, book_counts,
}
use bookshelfdq.Mysql.Client.{Mysql}
use bookshelfdq.Srvdb.Connection.{Server}
use bookshelfdq.Srvdb.Search.{srvdb_book_find}

-- The four searches of srvdb_book_count, which leave their marks in the message.
abbrev pub ask_on_reading : Message → Message
ask_on_reading msg = record msg {
  book = record msg.book { book_code = break_limit_int; on_reading = flag_on_reading };
}

abbrev pub ask_borrowed : Message → Message
ask_borrowed msg = record msg {
  book = record msg.book { on_reading = 0; borrowed = flag_borrowed };
}

abbrev pub ask_unsorted : Message → Message
ask_unsorted msg = record msg {
  book = record msg.book { borrowed = flag_find_unsorted; on_reading = flag_find_unsorted };
}

abbrev pub ask_all : Message → Message
ask_all msg = record msg {
  book = record msg.book {
    borrowed = 0;
    on_reading = 0;
    name = b'0' ∷ [];
    author = b'0' ∷ [];
    label = b'0' ∷ [];
  };
}

module _ (m : Mysql) where
  unfoldable pub count_all : ℕ → ℕ → ℕ → Message → Server m → Bool × Message × Server m
  count_all reading lent unsorted msg s =
      let msg1 = ask_all msg in
      let (r, s1) = srvdb_book_find m msg1 s in
      elim r [
        | none ↦ (false, msg1, s1)
        | some n ↦ (
          true,
          record msg1 {
            extra_info = book_counts (record {
              books_all = n + unsorted;
              books_on_reading = reading;
              books_borrowed = lent;
              books_unsorted = unsorted;
            });
          },
          s1,
        )
      ]

  unfoldable pub count_unsorted : ℕ → ℕ → Message → Server m → Bool × Message × Server m
  count_unsorted reading lent msg s =
      let msg1 = ask_unsorted msg in
      let (r, s1) = srvdb_book_find m msg1 s in
      elim r [ none ↦ (false, msg1, s1) | some n ↦ count_all reading lent n msg1 s1 ]

  unfoldable pub count_borrowed : ℕ → Message → Server m → Bool × Message × Server m
  count_borrowed reading msg s =
      let msg1 = ask_borrowed msg in
      let (r, s1) = srvdb_book_find m msg1 s in
      elim r [ none ↦ (false, msg1, s1) | some n ↦ count_unsorted reading n msg1 s1 ]

  unfoldable pub srvdb_book_count : Message → Server m → Bool × Message × Server m
  srvdb_book_count msg s =
      let msg1 = ask_on_reading msg in
      let (r, s1) = srvdb_book_find m msg1 s in
      elim r [ none ↦ (false, msg1, s1) | some n ↦ count_borrowed n msg1 s1 ]
