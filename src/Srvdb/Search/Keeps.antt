-- ===== src/Srvdb/Search/Keeps.antt =====
-- Searching and fetching change no table, whatever the server answers.
use bookshelfdq.Base.{
  ℕ, ◌≡◌, refl, ◌∙◌, Bool, true, false, some, ◌∷◌, [], Text, ℤ, arith, Option-cases, Bool-cases,
  inl, inr,
}
use bookshelfdq.Clisrv.{max_book_num, default_finds, non_sense_int, BookEntry, Message}
use bookshelfdq.Mysql.Statement.{Statement, Columns, bookno_only, all_columns}
use bookshelfdq.Mysql.Meaning.{
  Tables, Collation, Outcome, failed, affected, scalar_int, scalar_text, book_rows, shelf_rows,
  meaning,
}
use bookshelfdq.Mysql.Client.{Mysql, IsDocumented}
use bookshelfdq.Srvdb.Connection.Keeps.{tables_of, check-keeps, run-cases}
use bookshelfdq.Srvdb.Connection.{
  Server, Stored, run, stored_books, stored_shelves, no_result, srvdb_free_result,
}
use bookshelfdq.Srvdb.Book.{is_undefined}
use bookshelfdq.Srvdb.Search.{
  keywords, find_statement, search_statement, limit_lifted, keep_result, fetch_row, srvdb_book_find,
  srvdb_book_fetch_result,
}
use bookshelfdq.Srvdb.Search.Counting.{
  srvdb_book_count, count_borrowed, count_unsorted, count_all, ask_on_reading, ask_borrowed,
  ask_unsorted, ask_all,
}

module _ (c : Collation) (u : Text) (e : BookEntry) (t : Tables) where
  find_statement_reads :
      (cols : Columns) (start : ℤ) (limit : ℕ) (q : Statement)
      → find_statement u e cols start limit ≡ some q
      → (meaning c q t).1 ≡ t
  unfolding find_statement meaning
  find_statement_reads cols start limit q h = elim (Option-cases (keywords e)) [
    | inl k ↦ ground arith
    | inr (p, k) ↦ ground arith
  ]

  search_statement_reads : (q : Statement) → search_statement u e ≡ some q → (meaning c q t).1 ≡ t
  unfolding search_statement
  search_statement_reads q h = elim (Bool-cases (limit_lifted e)) [
    | inl all ↦ find_statement_reads bookno_only non_sense_int max_book_num q (ground arith)
    | inr page ↦ find_statement_reads all_columns e.book_code default_finds q (ground arith)
  ]

module _ (m : Mysql) (d : IsDocumented m) where
  free-keeps : (s : Server m) → tables_of m d (srvdb_free_result m s) ≡ tables_of m d s
  unfolding srvdb_free_result
  free-keeps s = refl

  keep_result-keeps :
      (free : Bool) (o : Outcome) (s : Server m)
      → tables_of m d (keep_result m free o s).1 ≡ tables_of m d s
  unfolding keep_result srvdb_free_result
  keep_result-keeps free failed s = check-keeps m d s
  keep_result-keeps true (book_rows n rows) s = refl
  keep_result-keeps false (book_rows n rows) s = refl
  keep_result-keeps free (affected n) s = refl
  keep_result-keeps free (scalar_int n) s = refl
  keep_result-keeps free (scalar_text n) s = refl
  keep_result-keeps free (shelf_rows n rows) s = refl

  pub find-keeps :
      (msg : Message) (s : Server m) → tables_of m d (srvdb_book_find m msg s).1 ≡ tables_of m d s
  unfolding srvdb_book_find
  find-keeps msg s = elim (Bool-cases (is_undefined msg.user)) [
    | inl u ↦ ground arith
    | inr u ↦ elim (Option-cases (search_statement msg.user msg.book)) [
      | inl none_asked ↦ ground arith
      | inr (q, asked) ↦
          let s1 = (run m q s).1 in
          let reads =
            search_statement_reads d.collation msg.user msg.book (tables_of m d s) q asked in
          let after : tables_of m d s1 ≡ tables_of m d s = elim (run-cases m d q s) [
            | inl (e, k) ↦ k
            | inr (e, k) ↦ k ∙ reads
          ] in
          ground (arith, keep_result-keeps (limit_lifted msg.book) (run m q s).0 s1, after)
    ]
  ]

  pub fetch-keeps :
      (msg : Message) (s : Server m)
      → tables_of m d (srvdb_book_fetch_result m msg s).2 ≡ tables_of m d s
  unfolding srvdb_book_fetch_result fetch_row srvdb_free_result
  fetch-keeps msg s = held s.res_ptr
    where
      held : (p : Stored) → tables_of m d (fetch_row m p msg s).2 ≡ tables_of m d s
      held no_result = refl
      held (stored_shelves rows) = refl
      held (stored_books []) = ground arith
      held (stored_books (r ∷ rs)) = ground arith

  count_all-keeps :
      (a b c : ℕ) (msg : Message) (s : Server m)
      → tables_of m d (count_all m a b c msg s).2 ≡ tables_of m d s
  unfolding count_all
  count_all-keeps a b c msg s = ground (arith, find-keeps (ask_all msg) s)

  count_unsorted-keeps :
      (a b : ℕ) (msg : Message) (s : Server m)
      → tables_of m d (count_unsorted m a b msg s).2 ≡ tables_of m d s
  unfolding count_unsorted
  count_unsorted-keeps a b msg s = elim (Option-cases (srvdb_book_find m (ask_unsorted msg) s).0) [
    | inl e ↦ ground (arith, find-keeps (ask_unsorted msg) s)
    | inr (n, e) ↦ ground (
      arith,
      find-keeps (ask_unsorted msg) s,
      count_all-keeps a b n (ask_unsorted msg) (srvdb_book_find m (ask_unsorted msg) s).1,
    )
  ]

  count_borrowed-keeps :
      (a : ℕ) (msg : Message) (s : Server m)
      → tables_of m d (count_borrowed m a msg s).2 ≡ tables_of m d s
  unfolding count_borrowed
  count_borrowed-keeps a msg s = elim (Option-cases (srvdb_book_find m (ask_borrowed msg) s).0) [
    | inl e ↦ ground (arith, find-keeps (ask_borrowed msg) s)
    | inr (n, e) ↦ ground (
      arith,
      find-keeps (ask_borrowed msg) s,
      count_unsorted-keeps a n (ask_borrowed msg) (srvdb_book_find m (ask_borrowed msg) s).1,
    )
  ]

  pub count-keeps :
      (msg : Message) (s : Server m) → tables_of m d (srvdb_book_count m msg s).2 ≡ tables_of m d s
  unfolding srvdb_book_count
  count-keeps msg s = elim (Option-cases (srvdb_book_find m (ask_on_reading msg) s).0) [
    | inl e ↦ ground (arith, find-keeps (ask_on_reading msg) s)
    | inr (n, e) ↦ ground (
      arith,
      find-keeps (ask_on_reading msg) s,
      count_borrowed-keeps n (ask_on_reading msg) (srvdb_book_find m (ask_on_reading msg) s).1,
    )
  ]
