-- ===== src/Srvdb/Search/Page.antt =====
-- srvdb_book_find: the rows that one page of a search holds.
use bookshelfdq.Base.{
  ◌≡◌, ap, ◌∙◌, Bool, true, false, ◌&&◌, ◌||◌, not, some, List, ℤ, pos, lt_ℤ, Text, ◌==◌,
  if◌then◌else◌, arith, Bool-cases, inl, inr, length, take, keep,
}
use mathlib.Core.Path.{fun_ext}
use bookshelfdq.Clisrv.{
  book_avl, book_unsorted, default_finds, flag_borrowed, flag_on_reading, flag_find_unsorted,
  non_sense_int, BookEntry, Message,
}
use bookshelfdq.Mysql.Statement.{
  BookRow, BookCond, all_columns, select_books, both, bookno_above, cleaned_is, borrowed_set,
  on_reading_set,
}
use bookshelfdq.Mysql.Meaning.{book_rows, Collation, meaning, sat, field_count}
use bookshelfdq.Mysql.Client.{Mysql, IsDocumented, IsReliable}
use bookshelfdq.Srvdb.Connection.Keeps.{tables_of, run-result, run-effect, run-errno}
use bookshelfdq.Srvdb.Connection.{Server, run, stored_books}
use bookshelfdq.Srvdb.Book.{is_undefined}
use bookshelfdq.Srvdb.Search.{
  keywords, on_floor, place, search_statement, find_statement, limit_lifted, keep_result,
  srvdb_book_find,
}
use bookshelfdq.Srvdb.Search.Count.{on_shelf, on_floor_of, sat-place}
use bookshelfdq.Srvdb.Search.Words.{has_mode, text_hit, keywords-hit, keywords-some}

-- A search by words, and not for unsorted, lent or read books.
abbrev pub by_words : BookEntry → Bool
by_words e =
    not (e.borrowed == flag_find_unsorted && e.on_reading == flag_find_unsorted)
    && not (e.borrowed == flag_borrowed || e.on_reading == flag_on_reading)

-- What else a search asks of a book: its flags choose among unsorted, lent and read books, and those
-- on the floor asked for that fit the texts.
abbrev pub fits : Collation → BookEntry → BookRow → Bool
fits c e r =
    if e.borrowed == flag_find_unsorted && e.on_reading == flag_find_unsorted
    then r.cleaned == book_unsorted
    else r.cleaned == book_avl
      && (if e.borrowed == flag_borrowed
          then r.borrowed == flag_borrowed
          else if e.on_reading == flag_on_reading
          then r.on_reading == flag_on_reading
          else on_floor_of e r && text_hit c e r)

-- The books behind the number `start` that a search is for.
abbrev pub wanted : Collation → BookEntry → ℤ → BookRow → Bool
wanted c e start r = (on_shelf e r && lt_ℤ start (pos r.bookno)) && fits c e r

on_floor-sat :
    (c : Collation) (e : BookEntry) (k : BookCond) (r : BookRow)
    → sat c (on_floor e k) r ≡ (on_floor_of e r && sat c k r)
unfolding on_floor sat
on_floor-sat c e k r = ground arith

-- The search texts of a search by words carry modes.
abbrev pub is_well_formed : BookEntry → Bool
is_well_formed e = not (by_words e) || (has_mode e.name && (has_mode e.author && has_mode e.label))

module _ (c : Collation) (u : Text) (e : BookEntry) (start : ℤ) where
  abbrev Asks : BookCond → Type 0
  Asks p =
      (find_statement u e all_columns start default_finds
        ≡ some (select_books u all_columns p default_finds))
      × ((r : BookRow) → sat c p r ≡ wanted c e start r)

  Asks-unsorted :
      (e.borrowed == flag_find_unsorted && e.on_reading == flag_find_unsorted) ≡ true
      → Asks (both (cleaned_is book_unsorted) (both (place e) (bookno_above start)))
  unfolding find_statement sat
  Asks-unsorted h = (ground arith, λ r. ground (arith, sat-place c e r))

  module _
      (sorted : (e.borrowed == flag_find_unsorted && e.on_reading == flag_find_unsorted)
        ≡ false) where
    Asks-borrowed :
        (e.borrowed == flag_borrowed) ≡ true
        → Asks
            (both borrowed_set (both (cleaned_is book_avl) (both (place e) (bookno_above start))))
    unfolding find_statement sat
    Asks-borrowed h = (ground arith, λ r. ground (arith, sat-place c e r))

    Asks-reading :
        (e.borrowed == flag_borrowed) ≡ false
        → (e.on_reading == flag_on_reading) ≡ true
        → Asks
            (both on_reading_set (both (cleaned_is book_avl) (both (place e) (bookno_above start))))
    unfolding find_statement sat
    Asks-reading k h = (ground arith, λ r. ground (arith, sat-place c e r))

    Asks-words :
        (k : BookCond)
        → (e.borrowed == flag_borrowed) ≡ false
        → (e.on_reading == flag_on_reading) ≡ false
        → lt_ℤ start non_sense_int ≡ false
        → keywords e ≡ some k
        → Asks
            (both (both (place e) (both (cleaned_is book_avl) (bookno_above start))) (on_floor e k))
    unfolding find_statement sat
    Asks-words k nb nr up h = (
      ground arith,
      λ r. ground (arith, sat-place c e r, on_floor-sat c e k r, keywords-hit c e k r h),
    )

  page_statement :
      is_well_formed e ≡ true → lt_ℤ start non_sense_int ≡ false → (p : BookCond) × (Asks p)
  page_statement wf up =
      elim (Bool-cases (e.borrowed == flag_find_unsorted && e.on_reading == flag_find_unsorted)) [
        | inl q ↦ (_, Asks-unsorted q)
        | inr q ↦ elim (Bool-cases (e.borrowed == flag_borrowed)) [
          | inl b ↦ (_, Asks-borrowed q b)
          | inr nb ↦ elim (Bool-cases (e.on_reading == flag_on_reading)) [
            | inl b ↦ (_, Asks-reading q nb b)
            | inr nr ↦
                let (k, h) = keywords-some e (ground arith) (ground arith) (ground arith) in
                (_, Asks-words q k nb nr up h)
          ]
        ]
      ]

-- The rows of a page: the first DEFAULT_FINDS of the books that the search is for, by number.
abbrev pub page_of : Collation → BookEntry → List BookRow → List BookRow
page_of c e rows = take default_finds (keep (wanted c e e.book_code) rows)

module _ (m : Mysql) (d : IsDocumented m) (w : IsReliable m d) where
  -- What is in the server's hands after a search that found `page`.
  pub record Holds (page : List BookRow) (s : Server m) : Type 0 where
    pub rows_held : s.res_ptr ≡ stored_books page
    pub row_count : s.res_rows ≡ length page
    pub fields : s.res_fields ≡ 10
    pub no_error : m.errno s.conn ≡ 0

  -- On a server that answers, a search with search modes that exist, from a book number that is not
  -- negative, finds and holds the first DEFAULT_FINDS books, in the order of their numbers, that
  -- lie on the shelf asked for, come after that number and fit: unsorted, lent or read ones where
  -- the flags ask for these, and otherwise available ones on the floor asked for that fit the
  -- three search texts, of which one of mode 0 asks for what is behind the 0 as one of mode + does.
  -- No table changes.
  pub book_find-page :
      (msg : Message) (s : Server m)
      → is_undefined msg.user ≡ false
      → is_well_formed msg.book ≡ true
      → limit_lifted msg.book ≡ false
      → lt_ℤ msg.book.book_code non_sense_int ≡ false
      → let page = page_of d.collation msg.book ((tables_of m d s).books msg.user) in
        let r = srvdb_book_find m msg s in
        (r.0 ≡ some (length page)) × Holds page r.1 × (tables_of m d r.1 ≡ tables_of m d s)
  unfolding srvdb_book_find meaning keep_result field_count search_statement
  book_find-page msg s named wf limited up =
      let c = d.collation in
      let (p, asks) = page_statement c msg.user msg.book msg.book.book_code wf up in
      let (st, fits) = asks in
      let q = select_books msg.user all_columns p default_finds in
      let rows = (tables_of m d s).books msg.user in
      let same : take default_finds (keep (sat c p) rows) ≡ page_of c msg.book rows =
        ap (λ (g : BookRow → Bool). take default_finds (keep g rows)) (fun_ext fits) in
      let held : (run m q s).0 ≡ book_rows 10 (page_of c msg.book rows) =
        run-result m d w q s ∙ ap (book_rows 10) same in
      (
        ground (arith, held),
        record {
          rows_held = ground (arith, held);
          row_count = ground (arith, held);
          fields = ground (arith, held);
          no_error = ground (arith, held, run-errno m d w q s);
        },
        ground (arith, held, run-effect m d w q s),
      )
