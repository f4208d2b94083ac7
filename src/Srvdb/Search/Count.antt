-- ===== src/Srvdb/Search/Count.antt =====
-- srvdb_book_count: the four numbers are the numbers of rows that they name.
use bookshelfdq.Base.{
  ℕ, ◌+◌, ◌<◌, ◌≡◌, refl, ap, ◌∙◌, Bool, true, false, ◌&&◌, not, some, List, [], pos, eq_ℤ, lt_ℤ,
  ◌==◌, if◌then◌else◌, arith, length, take, keep, length-keep-le, eq_ℤ_refl, eq_ℤ_sound,
  length-take_all, keep_same,
}
use bookshelfdq.Clisrv.{
  break_limit_int, book_avl, book_unsorted, flag_borrowed, flag_on_reading, non_sense_int,
  max_book_num, BookEntry, BookCount, Message, book_counts,
}
use bookshelfdq.Mysql.Statement.{
  BookRow, BookCond, bookno_only, select_books, both, bookno_above, cleaned_is, on_reading_set,
  borrowed_set, name_like, author_like, label_like,
}
use bookshelfdq.Mysql.Rows.{length-le, Above-All}
use bookshelfdq.Mysql.Meaning.{book_no, Collation, meaning, sat, field_count}
use bookshelfdq.Mysql.Client.{Mysql, IsDocumented, IsReliable}
use bookshelfdq.Srvdb.Connection.Keeps.{tables_of, run-result, run-effect}
use bookshelfdq.Srvdb.Connection.{Server, srvdb_free_result}
use bookshelfdq.Srvdb.Book.{is_undefined, Done}
use bookshelfdq.Srvdb.Book.Rows.{IsNumbered}
use bookshelfdq.Srvdb.Search.{
  search_statement, find_statement, limit_lifted, keep_result, srvdb_book_find, keywords, on_floor,
  place,
}
use bookshelfdq.Srvdb.Search.Counting.{
  srvdb_book_count, count_all, count_unsorted, count_borrowed, ask_on_reading, ask_borrowed,
  ask_unsorted, ask_all,
}

-- Which rows are meant by the shelf of an entry: one shelf, or every numbered one.
abbrev pub on_shelf : BookEntry → BookRow → Bool
on_shelf e r =
    if eq_ℤ e.shelf_code non_sense_int then lt_ℤ (pos 0) r.shelfno else eq_ℤ r.shelfno e.shelf_code

-- Which rows are meant by its floor: one floor of one shelf, or all.
abbrev pub on_floor_of : BookEntry → BookRow → Bool
on_floor_of e r =
    if not (eq_ℤ e.floor_code non_sense_int) && not (eq_ℤ e.shelf_code non_sense_int)
    then eq_ℤ r.floorno e.floor_code
    else true

-- How many rows pass a test.
abbrev pub number_of : (BookRow → Bool) → List BookRow → ℕ
number_of p rows = length (keep p rows)

abbrev is_available : BookRow → Bool
is_available r = r.cleaned == book_avl

abbrev pub counts_of : BookEntry → List BookRow → BookCount
counts_of e rows = record {
  books_all =
      number_of (λ r. is_available r && (on_shelf e r && on_floor_of e r)) rows
      + number_of (λ r. r.cleaned == book_unsorted && on_shelf e r) rows;
  books_on_reading =
      number_of (λ r. r.on_reading == flag_on_reading && (is_available r && on_shelf e r)) rows;
  books_borrowed =
      number_of (λ r. r.borrowed == flag_borrowed && (is_available r && on_shelf e r)) rows;
  books_unsorted = number_of (λ r. r.cleaned == book_unsorted && on_shelf e r) rows;
}

abbrev any_text : BookCond
any_text = both (both (name_like []) (author_like [])) (label_like [])

lt_ℤ_pos : (n : ℕ) → 0 < n → lt_ℤ (pos 0) (pos n) ≡ true
unfolding lt_ℤ
lt_ℤ_pos n h = ground arith

zero_not_below : lt_ℤ non_sense_int non_sense_int ≡ false
unfolding lt_ℤ
zero_not_below = refl

-- `shelfno=%d` or `shelfno>0` asks for the shelf of the entry.
pub sat-place : (c : Collation) (e : BookEntry) (r : BookRow) → sat c (place e) r ≡ on_shelf e r
unfolding sat place
sat-place c e r = ground (arith, eq_ℤ_sound e.shelf_code non_sense_int)

module _ (m : Mysql) (d : IsDocumented m) (w : IsReliable m d) (rows : List BookRow)
    (v : IsNumbered rows) where
  number_kept :
      (p : BookCond) (q : BookRow → Bool)
      → ((r : BookRow) → 0 < r.bookno → sat d.collation p r ≡ q r)
      → length (take max_book_num (keep (sat d.collation p) rows)) ≡ number_of q rows
  number_kept p q h =
      length-take_all max_book_num (keep (sat d.collation p) rows) (
        omega (
          arith,
          length-keep-le (sat d.collation p) rows,
          length-le book_no 0 max_book_num rows v.rising v.within,
        ))
      ∙ ap length (
          keep_same (λ r. 0 < r.bookno) (sat d.collation p) q rows
            (Above-All book_no 0 0 rows (omega arith) v.rising) h)

  -- One search with the limit lifted.
  find_number :
      (msg : Message) (s : Server m) (p : BookCond) (q : BookRow → Bool)
      → is_undefined msg.user ≡ false
      → limit_lifted msg.book ≡ true
      → (tables_of m d s).books msg.user ≡ rows
      → search_statement msg.user msg.book ≡ some (select_books msg.user bookno_only p max_book_num)
      → ((r : BookRow) → 0 < r.bookno → sat d.collation p r ≡ q r)
      → ((srvdb_book_find m msg s).0 ≡ some (number_of q rows))
        × ((tables_of m d (srvdb_book_find m msg s).1).books msg.user ≡ rows)
  unfolding srvdb_book_find meaning keep_result srvdb_free_result field_count
  find_number msg s p q named lifted same st h =
      let stm = select_books msg.user bookno_only p max_book_num in
      ground (arith, run-result m d w stm s, run-effect m d w stm s, number_kept p q h)

  -- The place of a book, in the form in which each search asks for it.
  abbrev above_zero : BookEntry → BookCond
  above_zero e = both (place e) (bookno_above (pos 0))

  abbrev Found : Message → Server m → (BookRow → Bool) → Type 0
  Found msg s q =
      ((srvdb_book_find m msg s).0 ≡ some (number_of q rows))
      × ((tables_of m d (srvdb_book_find m msg s).1).books msg.user ≡ rows)

  module _ (msg : Message) (s : Server m) (named : is_undefined msg.user ≡ false)
      (same : (tables_of m d s).books msg.user ≡ rows) where
    reading_number :
        (msg.book.borrowed == flag_borrowed) ≡ false
        → Found
            (ask_on_reading msg)
            s
            (λ r. r.on_reading == flag_on_reading && (r.cleaned == book_avl && on_shelf msg.book r))
    unfolding search_statement find_statement sat
    reading_number not_lent =
        find_number (ask_on_reading msg) s
          (both on_reading_set (both (cleaned_is book_avl) (above_zero msg.book)))
          (λ r. r.on_reading == flag_on_reading && (r.cleaned == book_avl && on_shelf msg.book r))
          named (eq_ℤ_refl break_limit_int) same (ground (arith, eq_ℤ_refl break_limit_int))
          (λ r h. ground (arith, lt_ℤ_pos r.bookno, sat-place d.collation msg.book r))

    borrowed_number :
        limit_lifted msg.book ≡ true
        → Found
            (ask_borrowed msg)
            s
            (λ r. r.borrowed == flag_borrowed && (r.cleaned == book_avl && on_shelf msg.book r))
    unfolding search_statement find_statement sat
    borrowed_number lifted =
        find_number (ask_borrowed msg) s
          (both borrowed_set (both (cleaned_is book_avl) (above_zero msg.book)))
          (λ r. r.borrowed == flag_borrowed && (r.cleaned == book_avl && on_shelf msg.book r)) named
          lifted same (ground (arith, zero_not_below))
          (λ r h. ground (arith, lt_ℤ_pos r.bookno, sat-place d.collation msg.book r))

    unsorted_number :
        limit_lifted msg.book ≡ true
        → Found (ask_unsorted msg) s (λ r. r.cleaned == book_unsorted && on_shelf msg.book r)
    unfolding search_statement find_statement sat
    unsorted_number lifted =
        find_number (ask_unsorted msg) s (both (cleaned_is book_unsorted) (above_zero msg.book))
          (λ r. r.cleaned == book_unsorted && on_shelf msg.book r) named lifted same (ground arith)
          (λ r h. ground (arith, lt_ℤ_pos r.bookno, sat-place d.collation msg.book r))

    -- The keywords of srvdb_book_count match every book.
    all_number :
        limit_lifted msg.book ≡ true
        → Found
            (ask_all msg)
            s
            (λ r. is_available r && (on_shelf msg.book r && on_floor_of msg.book r))
    unfolding search_statement find_statement keywords on_floor sat
    all_number lifted =
        find_number (ask_all msg) s
          (both (both (place msg.book) (both (cleaned_is book_avl) (bookno_above (pos 0))))
            (on_floor msg.book any_text))
          (λ r. is_available r && (on_shelf msg.book r && on_floor_of msg.book r)) named lifted same
          (ground (arith, zero_not_below))
          (λ r h. ground (
            arith,
            lt_ℤ_pos r.bookno,
            sat-place d.collation msg.book r,
            d.like_empty r.name,
            d.like_empty r.author,
            d.like_empty r.label,
          ))

  module _ (msg : Message) (s : Server m) (named : is_undefined msg.user ≡ false)
      (same : (tables_of m d s).books msg.user ≡ rows) where
    count_all-counts :
        (reading lent unsorted : ℕ)
        → limit_lifted msg.book ≡ true
        → ((count_all m reading lent unsorted msg s).0 ≡ true)
          × ((count_all m reading lent unsorted msg s).1.extra_info
              ≡ book_counts (record {
                books_all =
                    number_of
                      (λ r. is_available r && (on_shelf msg.book r && on_floor_of msg.book r))
                      rows
                    + unsorted;
                books_on_reading = reading;
                books_borrowed = lent;
                books_unsorted = unsorted;
              }))
    unfolding count_all
    count_all-counts reading lent unsorted lifted =
        let f = all_number msg s named same lifted in ground (arith, f.0)

  module _ (msg : Message) (s : Server m) (named : is_undefined msg.user ≡ false)
      (same : (tables_of m d s).books msg.user ≡ rows) where
    -- On a server that answers, the counts that a request for a shelf (or for all shelves) brings
    -- back are the numbers of its available books on the floor asked for and of its unsorted books
    -- together, of its available books being read, of its available books lent out, and of its
    -- unsorted books; the request must not ask for lent books itself.
    pub book_count-counts :
        (msg.book.borrowed == flag_borrowed) ≡ false
        → ((srvdb_book_count m msg s).0 ≡ true)
          × ((srvdb_book_count m msg s).1.extra_info ≡ book_counts (counts_of msg.book rows))
    unfolding srvdb_book_count count_borrowed count_unsorted
    book_count-counts not_lent =
        let c = counts_of msg.book rows in
        let m1 = ask_on_reading msg in
        let (r1, k1) = reading_number msg s named same not_lent in
        let s1 = (srvdb_book_find m m1 s).1 in
        let m2 = ask_borrowed m1 in
        let (r2, k2) = borrowed_number m1 s1 named k1 (eq_ℤ_refl break_limit_int) in
        let s2 = (srvdb_book_find m m2 s1).1 in
        let m3 = ask_unsorted m2 in
        let (r3, k3) = unsorted_number m2 s2 named k2 (eq_ℤ_refl break_limit_int) in
        let s3 = (srvdb_book_find m m3 s2).1 in
        let goes : srvdb_book_count m msg s
            ≡ count_all m c.books_on_reading c.books_borrowed c.books_unsorted m3 s3 =
          ground (arith, r1, r2, r3) in
        let (done, counted) =
          count_all-counts m3 s3 named k3 c.books_on_reading c.books_borrowed c.books_unsorted
            (eq_ℤ_refl break_limit_int) in
        (ap (λ (r : Done m). r.0) goes ∙ done, ap (λ (r : Done m). r.1.extra_info) goes ∙ counted)
