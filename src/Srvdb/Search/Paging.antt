-- ===== src/Srvdb/Search/Paging.antt =====
-- A search that is longer than a page: asking again, from the last number of each full page, reads
-- every book that the search is for, once and in order.
use mathlib.Core.Path.{fun_ext}
use bookshelfdq.Base.{
  ℕ, zero, suc, ◌+◌, ◌≤◌, ◌<◌, ◌≡◌, refl, ap, ◌∙◌, Bool, true, false, ◌&&◌, List, [], ◌++◌, pos,
  lt_ℤ, eq_ℤ, ◌==◌, ltb, if◌then◌else◌, arith, Bool-cases, inl, inr, length, take, keep,
  length-append, length-take-le, take_short,
}
use bookshelfdq.Clisrv.{default_finds, BookEntry, Message, max_book_num}
use bookshelfdq.Mysql.Statement.{BookRow}
use bookshelfdq.Mysql.Rows.Paging.{last_key, after, page_then_rest, last_key_page}
use bookshelfdq.Mysql.Meaning.{book_no, Tables, Collation}
use bookshelfdq.Mysql.Client.{Mysql, IsDocumented, IsReliable}
use bookshelfdq.Srvdb.Connection.Keeps.{tables_of}
use bookshelfdq.Srvdb.Connection.{Server, Stored, stored_books}
use bookshelfdq.Srvdb.Book.{is_undefined}
use bookshelfdq.Srvdb.Book.Rows.{IsNumbered}
use bookshelfdq.Srvdb.Search.{srvdb_book_find}
use bookshelfdq.Srvdb.Search.Count.{on_shelf}
use bookshelfdq.Srvdb.Search.Page.{fits, wanted, is_well_formed, book_find-page}

abbrev held_rows : Stored → List BookRow
held_rows (stored_books rows) = rows
held_rows _ = []

-- The same search from another book number.
abbrev from : Message → ℕ → Message
from msg a = record msg { book = record msg.book { book_code = pos a } }

module _ (m : Mysql) where
  -- The rows of a search from the number a on, asked for page by page.
  unfoldable pub read_all : ℕ → Message → ℕ → Server m → List BookRow
  read_all zero msg a s = []
  read_all (suc fuel) msg a s =
      let s1 = (srvdb_book_find m (from msg a) s).1 in
      let page = held_rows s1.res_ptr in
      let rest = read_all fuel msg (last_key book_no a page) s1 in
      if length page == default_finds then page ++ rest else page

and_swap : (a b c : Bool) → (a && b && c) ≡ (b && (a && c))
and_swap a b c = ground arith

-- What a search asks of a book beside its number.
abbrev asked : Collation → BookEntry → BookRow → Bool
asked c e r = on_shelf e r && fits c e r

wanted-after :
    (c : Collation) (e : BookEntry) (a : ℕ) → wanted c e (pos a) ≡ after book_no (asked c e) a
unfolding after lt_ℤ
wanted-after c e a = fun_ext (λ r. and_swap (on_shelf e r) (ltb a r.bookno) (fits c e r))

module _ (c : Collation) (e : BookEntry) (rows : List BookRow) (v : IsNumbered rows) where
  -- All books from the number a on that the search is for.
  abbrev all_from : ℕ → List BookRow
  all_from a = keep (wanted c e (pos a)) rows

  abbrev next : ℕ → ℕ
  next a = last_key book_no a (take default_finds (all_from a))

  page_and_next : (a : ℕ) → all_from a ≡ take default_finds (all_from a) ++ all_from (next a)
  page_and_next a =
      rw
        (
          wanted-after c e a,
          wanted-after c e
              (last_key book_no a (take default_finds (keep (after book_no (asked c e) a) rows))),
        )
        (page_then_rest book_no (asked c e) default_finds a 0 rows v.rising)

  next-bound : (a : ℕ) → a ≤ max_book_num → next a ≤ max_book_num
  next-bound a h = last_key_page book_no _ default_finds max_book_num a rows h v.within

module _ (m : Mysql) (d : IsDocumented m) (w : IsReliable m d) (msg : Message) where
  module _ (rows : List BookRow) (v : IsNumbered rows) (named : is_undefined msg.user ≡ false)
      (wf : is_well_formed msg.book ≡ true) where
    abbrev all : ℕ → List BookRow
    all a = all_from d.collation msg.book rows v a

    -- One page, and what is read behind it.
    abbrev step : ℕ → ℕ → Server m → List BookRow → List BookRow
    step fuel a s page =
        let rest = read_all m fuel msg (last_key book_no a page) s in
        if length page == default_finds then page ++ rest else page

    first_page :
        (a : ℕ) (s : Server m)
        → a ≤ max_book_num
        → (tables_of m d s).books msg.user ≡ rows
        → let s1 = (srvdb_book_find m (from msg a) s).1 in
          (held_rows s1.res_ptr ≡ take default_finds (all a))
          × ((tables_of m d s1).books msg.user ≡ rows)
    first_page a s low h =
        let (n, held, kept) =
          book_find-page m d w (from msg a) s named wf (unfold eq_ℤ in ground arith)
            (unfold lt_ℤ in ground arith) in
        (
          ap held_rows held.rows_held
              ∙ ap
                  (λ (x : List BookRow).
                    take default_finds (keep (wanted d.collation msg.book (pos a)) x))
                  h,
          ap (λ (t : Tables). t.books msg.user) kept ∙ h,
        )

    all_read :
        (fuel a : ℕ) (s : Server m)
        → (tables_of m d s).books msg.user ≡ rows
        → a ≤ max_book_num
        → length (all a) < fuel
        → read_all m fuel msg a s ≡ all a
    unfolding read_all
    all_read zero a s h low few = absurd (omega arith)
    all_read (suc fuel) a s h low few =
        let s1 = (srvdb_book_find m (from msg a) s).1 in
        let page = take default_finds (all a) in
        let b = next d.collation msg.book rows v a in
        let (held, same) = first_page a s low h in
        let split = page_and_next d.collation msg.book rows v a in
        let lengths : length (all a) ≡ length page + length (all b) =
          ap length split ∙ length-append page (all b) in
        ap (step fuel a s1) held ∙ elim (Bool-cases (length page == default_finds)) [
          | inl full ↦
              let rest =
                all_read fuel b s1 same (next-bound d.collation msg.book rows v a low)
                  (ground arith) in
              ground (arith, rest, split)
          | inr short ↦
              ground (arith, length-take-le default_finds (all a), take_short default_finds (all a))
        ]

  -- On a server that answers, a search with search modes that exist, asked for page after page from
  -- the number a on, each from the last number of the page before, until a page is not full, reads
  -- exactly the books from a on that the search is for, in the order of their numbers, if more
  -- page requests are allowed than there are such books and the books are numbered.
  pub read_all_complete :
      (fuel a : ℕ) (s : Server m)
      → IsNumbered ((tables_of m d s).books msg.user)
      → is_undefined msg.user ≡ false
      → is_well_formed msg.book ≡ true
      → a ≤ max_book_num
      → length (keep (wanted d.collation msg.book (pos a)) ((tables_of m d s).books msg.user))
        < fuel
      → read_all m fuel msg a s
        ≡ keep (wanted d.collation msg.book (pos a)) ((tables_of m d s).books msg.user)
  read_all_complete fuel a s v named wf low few = all_read _ v named wf fuel a s refl low few
