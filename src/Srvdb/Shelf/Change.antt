-- ===== src/Srvdb/Shelf/Change.antt =====
-- srvdb_shelf_remove and srvdb_shelf_update: which shelves they change, and how.
use mathlib.Core.Option
use bookshelfdq.Base.{
  ℕ, ◌≡◌, refl, sym, subst, ◌⊎◌, Bool, true, false, eq_ℤ, Text, text_eq, text_eq_refl,
  if◌then◌else◌, pos, arith, Bool-cases, inl, inr,
}
use bookshelfdq.Clisrv.{max_shelf_num, shelf_del, ShelfEntry, Message}
use bookshelfdq.Mysql.Statement.{ShelfRow, Statement, set_shelf, set_shelf_cleaned}
use bookshelfdq.Mysql.Rows.{find_row}
use bookshelfdq.Mysql.Rows.Update.{
  update_rows, update_rows-find_row, update_rows-Above, update_rows-Within,
}
use bookshelfdq.Mysql.Meaning.{
  shelf_no, set_shelf_values, Tables, put_shelves, meaning, shelf_update, one_digit,
}
use bookshelfdq.Mysql.Client.{Mysql, IsDocumented}
use bookshelfdq.Srvdb.Connection.Keeps.{tables_of, check-keeps, run-cases}
use bookshelfdq.Srvdb.Connection.{Server, run, is_failed}
use bookshelfdq.Srvdb.Book.{Done, update, is_undefined}
use bookshelfdq.Srvdb.Shelf.{values_of, srvdb_shelf_remove, srvdb_shelf_update}
use bookshelfdq.Srvdb.Shelf.Build.{AreShelves}

-- `t'` is `t`, with each shelf r of the user u replaced by f r.
pub record Refitted (u : Text) (f : ShelfRow → ShelfRow) (t t' : Tables) : Type 0 where
  pub found :
      (k : ℕ)
      → find_row shelf_no k (t'.shelves u) ≡ Option.map f (find_row shelf_no k (t.shelves u))
  pub keyed : AreShelves (t.shelves u) → AreShelves (t'.shelves u)
  pub others : (v : Text) → text_eq u v ≡ false → t'.shelves v ≡ t.shelves v
  pub books : t'.books ≡ t.books
  pub accounts : t'.accounts ≡ t.accounts

put_shelves-Refitted :
    (u : Text) (p : ShelfRow → Bool) (f : ShelfRow → ShelfRow) (t : Tables)
    → ((r : ShelfRow) → shelf_no (f r) ≡ shelf_no r)
    → Refitted u (λ r. if p r then f r else r) t (put_shelves u (update_rows p f (t.shelves u)) t)
unfolding put_shelves
put_shelves-Refitted u p f t same = record {
  found = λ k. rw (text_eq_refl u) (update_rows-find_row p f shelf_no same k (t.shelves u));
  keyed = λ v. rw (text_eq_refl u) (record {
    rising = update_rows-Above p f shelf_no same 0 (t.shelves u) v.rising;
    within = update_rows-Within p f shelf_no same max_shelf_num (t.shelves u) v.within;
  });
  others = λ v ne. rw ne;
  books = refl;
  accounts = refl;
}

-- The shelf that a message is about.
abbrev pub is_named : ShelfEntry → ShelfRow → Bool
is_named e r = eq_ℤ (pos r.shelfno) e.code

abbrev pub mark_removed : ShelfRow → ShelfRow
mark_removed r = record r { cleaned = shelf_del }

module _ (m : Mysql) (d : IsDocumented m) (msg : Message) (s : Server m) where
  -- Either 0 is returned and no table is changed, or 1 and the user's shelves are refitted by f.
  abbrev pub Refits : (ShelfRow → ShelfRow) → Done m → Type 0
  Refits f r =
      ((r.0 ≡ false) × (tables_of m d r.2 ≡ tables_of m d s))
      ⊎ ((r.0 ≡ true) × Refitted msg.user f (tables_of m d s) (tables_of m d r.2))

  update-Refits :
      (q : Statement) (f : ShelfRow → ShelfRow)
      → ((is_failed (meaning d.collation q (tables_of m d s)).0 ≡ true)
          × ((meaning d.collation q (tables_of m d s)).1 ≡ tables_of m d s))
        ⊎ ((is_failed (meaning d.collation q (tables_of m d s)).0 ≡ false)
            × Refitted msg.user f (tables_of m d s) (meaning d.collation q (tables_of m d s)).1)
      → Refits f (update m q msg s)
  unfolding update is_failed
  update-Refits q f h = elim (run-cases m d q s) [
    | inl (e, k) ↦ inl (ground arith, ground (arith, check-keeps m d (run m q s).1))
    | inr (e, k) ↦ elim h [
      | inl (e', k') ↦ inl (ground arith, ground (arith, check-keeps m d (run m q s).1))
      | inr (e', w) ↦
          let goes : update m q msg s ≡ (true, msg, (run m q s).1) = ground arith in
          subst (Refits f) (sym goes) (inr (refl, rw k w))
    ]
  ]

  -- Removing a shelf returns 0 and changes no table, or returns 1 and marks exactly the shelf of
  -- the message's number as removed; all books stay as they are, also those of that shelf.
  pub shelf_remove-Refits :
      Refits (λ r. if is_named msg.shelf r then mark_removed r else r) (srvdb_shelf_remove m msg s)
  unfolding srvdb_shelf_remove meaning shelf_update is_failed
  shelf_remove-Refits = elim (Bool-cases (is_undefined msg.user)) [
    | inl e ↦ inl (ground arith, ground arith)
    | inr e ↦
        let q = set_shelf_cleaned msg.user shelf_del msg.shelf.code in
        let goes : srvdb_shelf_remove m msg s ≡ update m q msg s = ground arith in
        subst (Refits _) (sym goes) (
          update-Refits q _
            (inr (refl, put_shelves-Refitted msg.user _ _ (tables_of m d s) (λ r. refl))))
  ]

  -- Updating a shelf returns 0 and changes no table, or returns 1 and gives exactly the shelf of
  -- the message's number the message's values, without making a removed shelf available.
  pub shelf_update-Refits :
      Refits
        (λ r. if is_named msg.shelf r then set_shelf_values (values_of msg.shelf) r else r)
        (srvdb_shelf_update m msg s)
  unfolding srvdb_shelf_update meaning shelf_update is_failed
  shelf_update-Refits = elim (Bool-cases (is_undefined msg.user)) [
    | inl e ↦ inl (ground arith, ground arith)
    | inr e ↦
        let q = set_shelf msg.user (values_of msg.shelf) msg.shelf.code in
        let goes : srvdb_shelf_update m msg s ≡ update m q msg s = ground arith in
        subst (Refits _) (sym goes) (
          update-Refits q _ (elim (Bool-cases (one_digit (values_of msg.shelf).nfloors)) [
            | inl g ↦
                rw g (inr (refl, put_shelves-Refitted msg.user _ _ (tables_of m d s) (λ r. refl)))
            | inr g ↦ rw g (inl (refl, refl))
          ]))
  ]
