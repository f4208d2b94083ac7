-- ===== src/Srvdb/Book/Change.antt =====
-- srvdb_book_delete and srvdb_book_update: which books they change, and how.
use mathlib.Core.Option
use mathlib.Core.Path.{fun_ext}
use bookshelfdq.Base.{
  ℕ, ◌≡◌, refl, sym, subst, ◌⊎◌, Bool, true, false, ◌&&◌, eq_ℤ, Text, text_eq, text_eq_refl,
  if◌then◌else◌, pos, arith, Bool-cases, inl, inr,
}
use bookshelfdq.Clisrv.{book_avl, book_del, book_unsorted, BookEntry, Message, max_book_num}
use bookshelfdq.Mysql.Statement.{
  BookRow, BookCond, Statement, bookno_is, shelfno_is, set_book, set_book_cleaned,
}
use bookshelfdq.Mysql.Rows.{find_row}
use bookshelfdq.Mysql.Rows.Update.{
  update_rows, update_rows-find_row, update_rows-Above, update_rows-Within,
}
use bookshelfdq.Mysql.Meaning.{
  book_no, row_of_entry, Tables, put_books, meaning, failed, book_update, is_digit, sat,
  set_cleaned,
}
use bookshelfdq.Mysql.Client.{Mysql, IsDocumented}
use bookshelfdq.Srvdb.Connection.Keeps.{tables_of, check-keeps, run-cases}
use bookshelfdq.Srvdb.Connection.{Server, run, is_failed}
use bookshelfdq.Srvdb.Book.{
  Done, update, whole_shelf, srvdb_book_delete, srvdb_book_update, is_undefined,
}
use bookshelfdq.Srvdb.Book.Rows.{IsNumbered}

-- The books that a message is about: all of a shelf, if it names a shelf and no book; else the book
-- of that number.
abbrev pub is_meant : BookEntry → BookRow → Bool
is_meant e r =
    if whole_shelf e then eq_ℤ r.shelfno e.shelf_code else eq_ℤ (pos r.bookno) e.book_code

-- `t'` is `t`, with each book r of the user u replaced by f r.
pub record Rewritten (u : Text) (f : BookRow → BookRow) (t t' : Tables) : Type 0 where
  pub found :
      (k : ℕ) → find_row book_no k (t'.books u) ≡ Option.map f (find_row book_no k (t.books u))
  pub numbered : IsNumbered (t.books u) → IsNumbered (t'.books u)
  pub others : (v : Text) → text_eq u v ≡ false → t'.books v ≡ t.books v
  pub shelves : t'.shelves ≡ t.shelves
  pub accounts : t'.accounts ≡ t.accounts

-- An UPDATE of books, by its condition and its assignment.
put_books-Rewritten :
    (u : Text) (p : BookRow → Bool) (f : BookRow → BookRow) (t : Tables)
    → ((r : BookRow) → book_no (f r) ≡ book_no r)
    → Rewritten u (λ r. if p r then f r else r) t (put_books u (update_rows p f (t.books u)) t)
unfolding put_books
put_books-Rewritten u p f t same = record {
  found = λ k. rw (text_eq_refl u) (update_rows-find_row p f book_no same k (t.books u));
  numbered = λ v. rw (text_eq_refl u) (record {
    rising = update_rows-Above p f book_no same 0 (t.books u) v.rising;
    within = update_rows-Within p f book_no same max_book_num (t.books u) v.within;
  });
  others = λ v ne. rw ne;
  shelves = refl;
  accounts = refl;
}

module _ (m : Mysql) (d : IsDocumented m) where
  -- Either 0 is returned and no table is changed, or 1 and the user's books are rewritten by f.
  abbrev pub Changed : Message → (BookRow → BookRow) → Server m → Done m → Type 0
  Changed msg f s r =
      ((r.0 ≡ false) × (tables_of m d r.2 ≡ tables_of m d s))
      ⊎ ((r.0 ≡ true) × Rewritten msg.user f (tables_of m d s) (tables_of m d r.2))

  update-Changed :
      (q : Statement) (f : BookRow → BookRow) (msg : Message) (s : Server m)
      → (((meaning d.collation q (tables_of m d s)).0 ≡ failed)
          × ((meaning d.collation q (tables_of m d s)).1 ≡ tables_of m d s))
        ⊎ ((is_failed (meaning d.collation q (tables_of m d s)).0 ≡ false)
            × Rewritten msg.user f (tables_of m d s) (meaning d.collation q (tables_of m d s)).1)
      → Changed msg f s (update m q msg s)
  unfolding update is_failed
  update-Changed q f msg s h = elim (run-cases m d q s) [
    | inl (e, k) ↦ inl (ground arith, ground (arith, check-keeps m d (run m q s).1))
    | inr (e, k) ↦ elim h [
      | inl (e', k') ↦ inl (ground arith, ground (arith, check-keeps m d (run m q s).1))
      | inr (e', w) ↦
          let goes : update m q msg s ≡ (true, msg, (run m q s).1) = ground arith in
          subst (Changed msg f s) (sym goes) (inr (refl, rw k w))
    ]
  ]

  cleaned-Changed :
      (k : ℕ) (p : BookCond) (msg : Message) (s : Server m)
      → Changed msg
          (λ r. if sat d.collation p r then set_cleaned k r else r)
          s
          (update m (set_book_cleaned msg.user k p) msg s)
  unfolding meaning book_update is_failed
  cleaned-Changed k p msg s =
      update-Changed (set_book_cleaned msg.user k p) _ msg s
        (inr (refl, put_books-Rewritten msg.user _ _ (tables_of m d s) (λ r. refl)))

  entry-Changed :
      (e : BookEntry) (msg : Message) (s : Server m)
      → Changed msg
          (λ r.
            if sat d.collation (bookno_is e.book_code) r
            then row_of_entry e r.bookno book_avl
            else r)
          s
          (update m (set_book msg.user e book_avl e.book_code) msg s)
  unfolding meaning book_update is_failed row_of_entry
  entry-Changed e msg s =
      update-Changed (set_book msg.user e book_avl e.book_code) _ msg s
        (elim (Bool-cases (is_digit e.borrowed && is_digit e.on_reading)) [
          | inl g ↦
              rw g (inr (refl, put_books-Rewritten msg.user _ _ (tables_of m d s) (λ r. refl)))
          | inr g ↦ rw g (inl (refl, refl))
        ])

  module _ (msg : Message) (s : Server m) where
    -- A deletion returns 0 and changes no table, or returns 1 and marks as deleted exactly the
    -- books that the message means (all of its shelf, or the one of its number); the user's other
    -- books, the other tables and the numbering are as before.
    pub book_delete-Changed :
        Changed msg
          (λ r. if is_meant msg.book r then set_cleaned book_del r else r)
          s
          (srvdb_book_delete m msg s)
    unfolding srvdb_book_delete sat
    book_delete-Changed = elim (Bool-cases (is_undefined msg.user)) [
      | inl e ↦ inl (ground arith, ground arith)
      | inr e ↦ elim (Bool-cases (whole_shelf msg.book)) [
        | inl all ↦ by_cond (shelfno_is msg.book.shelf_code) (λ r. ground arith) (ground arith)
        | inr one ↦ by_cond (bookno_is msg.book.book_code) (λ r. ground arith) (ground arith)
      ]
    ]
      where
        by_cond :
            (p : BookCond)
            → ((r : BookRow) → sat d.collation p r ≡ is_meant msg.book r)
            → srvdb_book_delete m msg s ≡ update m (set_book_cleaned msg.user book_del p) msg s
            → Changed msg
                (λ r. if is_meant msg.book r then set_cleaned book_del r else r)
                s
                (srvdb_book_delete m msg s)
        by_cond p same goes =
            subst
              (λ t.
                Changed msg (λ r. if t r then set_cleaned book_del r else r) s
                  (srvdb_book_delete m msg s))
              (fun_ext same) (subst (Changed msg _ s) (sym goes) (cleaned-Changed book_del p msg s))

    -- An update returns 0 and changes no table, or returns 1; then a message for a whole shelf has
    -- made its books unsorted, and any other has put its entry, as available, over the book of its
    -- number; all else is as before.
    pub book_update-Changed :
        Changed msg
          (λ r.
            if is_meant msg.book r
            then (if whole_shelf msg.book
                then set_cleaned book_unsorted r
                else row_of_entry msg.book r.bookno book_avl)
            else r)
          s
          (srvdb_book_update m msg s)
    unfolding srvdb_book_update sat
    book_update-Changed = elim (Bool-cases (is_undefined msg.user)) [
      | inl e ↦ inl (ground arith, ground arith)
      | inr e ↦ elim (Bool-cases (whole_shelf msg.book)) [
        | inl all ↦
            let goes : srvdb_book_update m msg s
                ≡ update m
                    (set_book_cleaned msg.user book_unsorted (shelfno_is msg.book.shelf_code)) msg
                    s =
              ground arith in
            subst (λ f. Changed msg f s (srvdb_book_update m msg s)) (fun_ext (λ r. ground arith))
              (subst (Changed msg _ s) (sym goes)
                (cleaned-Changed book_unsorted (shelfno_is msg.book.shelf_code) msg s))
        | inr one ↦
            let goes : srvdb_book_update m msg s
                ≡ update m (set_book msg.user msg.book book_avl msg.book.book_code) msg s =
              ground arith in
            subst (λ f. Changed msg f s (srvdb_book_update m msg s)) (fun_ext (λ r. ground arith))
              (subst (Changed msg _ s) (sym goes) (entry-Changed msg.book msg s))
      ]
    ]
