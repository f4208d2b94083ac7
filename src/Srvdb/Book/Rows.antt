-- ===== src/Srvdb/Book/Rows.antt =====
-- What inserting a book does to the rows of a books table: the numbers stay distinct and within
-- MAX_BOOK_NUM, and a number that is given out was free.
use mathlib.Core.Option
use bookshelfdq.Base.{
  ℕ, suc, ◌<◌, ◌≡◌, refl, ap, ◌⊎◌, inl, inr, Bool, none, some, List, ◌==◌, if◌then◌else◌, pos,
  arith, eq_ℤ, Option-cases, ==_iff,
}
use bookshelfdq.Clisrv.{max_book_num, book_avl, book_del, BookEntry}
use bookshelfdq.Mysql.Statement.{BookRow, bookno_is}
use bookshelfdq.Mysql.Rows.{
  find_row, insert_row, lowest, Above, Within, lowest-find_row, insert_row-find_row,
  insert_row-Above, insert_row-Within, find_row_pos, find_row-beyond, find_row_key,
}
use bookshelfdq.Mysql.Rows.Update.{
  update_rows, changed_rows, update_rows-find_row, update_rows-Above, update_rows-Within,
  changed_one,
}
use bookshelfdq.Mysql.Meaning.{Collation, book_no, sat, row_of_entry, BookRow-discrete}

-- The numbers of the books are distinct, positive and at most MAX_BOOK_NUM.
pub record IsNumbered (rows : List BookRow) : Type 0 where
  pub rising : Above book_no 0 rows
  pub within : Within book_no max_book_num rows

abbrev pub is_deleted : BookRow → Bool
is_deleted r = r.cleaned == book_del

-- No book that is in use has the number n.
abbrev pub IsFree : ℕ → List BookRow → Type 0
IsFree n rows =
    (find_row book_no n rows ≡ none)
    ⊎ ((r : BookRow) × (find_row book_no n rows ≡ some r) × (r.cleaned ≡ book_del))

-- The entry stands in `rows'` as the book n, and every other book is as it was.
pub record Placed (e : BookEntry) (n : ℕ) (rows rows' : List BookRow) : Type 0 where
  pub numbered : IsNumbered rows'
  pub positive : 0 < n
  pub free : IsFree n rows
  pub found :
      (k : ℕ)
      → find_row book_no k rows'
        ≡ (if n == k then some (row_of_entry e n book_avl) else find_row book_no k rows)

abbrev pub reused : Collation → BookEntry → ℕ → List BookRow → List BookRow
reused c e n = update_rows (sat c (bookno_is (pos n))) (λ r. row_of_entry e r.bookno book_avl)

module _ (c : Collation) (e : BookEntry) where
  reused_key : (r : BookRow) → book_no (row_of_entry e r.bookno book_avl) ≡ book_no r
  unfolding row_of_entry
  reused_key r = refl

  reused-find_row :
      (n k : ℕ) (rows : List BookRow) (r : BookRow)
      → find_row book_no n rows ≡ some r
      → find_row book_no k (reused c e n rows)
        ≡ (if n == k then some (row_of_entry e n book_avl) else find_row book_no k rows)
  unfolding sat eq_ℤ row_of_entry
  reused-find_row n k rows r f = elim (Option-cases (find_row book_no k rows)) [
    | inl q ↦ ground (arith, updated k rows, q, f)
    | inr (x, q) ↦ ground (arith, updated k rows, q, f, find_row_key book_no k rows x q)
  ]
    where
      updated :
          (k : ℕ) (rows : List BookRow)
          → find_row book_no k (reused c e n rows)
            ≡ Option.map
                (λ r. if sat c (bookno_is (pos n)) r then row_of_entry e r.bookno book_avl else r)
                (find_row book_no k rows)
      updated = update_rows-find_row _ _ book_no reused_key

  pub reused-Placed :
      (n : ℕ) (rows : List BookRow)
      → IsNumbered rows
      → lowest book_no is_deleted rows ≡ some n
      → Placed e n rows (reused c e n rows)
  reused-Placed n rows v h =
      let (r, f, t) = lowest-find_row book_no is_deleted 0 rows n v.rising h in
      record {
        numbered = record {
          rising = update_rows-Above _ _ book_no reused_key 0 rows v.rising;
          within = update_rows-Within _ _ book_no reused_key max_book_num rows v.within;
        };
        positive = find_row_pos book_no n 0 rows r v.rising f;
        free = inr (r, f, (==_iff _ _).0 t);
        found = λ k. reused-find_row n k rows r f;
      }

  pub reused_changes :
      (n : ℕ) (rows : List BookRow)
      → IsNumbered rows
      → lowest book_no is_deleted rows ≡ some n
      → changed_rows
          (sat c (bookno_is (pos n)))
          (λ r. row_of_entry e r.bookno book_avl)
          BookRow-discrete
          rows
        ≡ 1
  unfolding sat eq_ℤ row_of_entry
  reused_changes n rows v h =
      let (r, f, t) = lowest-find_row book_no is_deleted 0 rows n v.rising h in
      changed_one book_no _ _ BookRow-discrete n 0 rows r (λ x q. ground arith) v.rising f
        (ground (arith, find_row_key book_no n rows r f))
        (λ q. ground (arith, ap (λ (x : BookRow). x.cleaned) q))

module _ (e : BookEntry) where
  pub appended-Placed :
      (n : ℕ) (rows rows' : List BookRow)
      → IsNumbered rows
      → Within book_no n rows
      → n < max_book_num
      → insert_row book_no (row_of_entry e (suc n) book_avl) rows ≡ some rows'
      → Placed e (suc n) rows rows'
  unfolding row_of_entry
  appended-Placed n rows rows' v w room h = record {
    numbered = record {
      rising = insert_row-Above book_no 0 _ rows rows' (omega arith) v.rising h;
      within = insert_row-Within book_no max_book_num _ rows rows' (omega arith) v.within h;
    };
    positive = omega arith;
    free = inl (find_row-beyond book_no n (suc n) rows w (omega arith));
    found = λ k. insert_row-find_row book_no _ rows rows' k h;
  }
