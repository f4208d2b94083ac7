-- ===== src/Mysql/Meaning.antt =====
-- What the documentation of MySQL says of the program's statements: a reference for the hypotheses
-- on the server, over tables that are listed in the order of their primary keys.
use bookshelfdq.Base.{
  ◌+◌, ℕ, Text, text_eq, pos, eq_ℤ, lt_ℤ, List, [], ◌∷◌, ◌++◌, Option, none, some, Bool, ◌&&◌, ◌||◌,
  leb, ◌==◌, if◌then◌else◌, ℕ_discrete, length, keep, take,
}
use bookshelfdq.Mysql.Rows.{insert_row, lowest, highest}
use bookshelfdq.Mysql.Rows.Update.{update_rows, changed_rows}
use bookshelfdq.Clisrv.{AccountType, account_admin, account_user, BookEntry}
use bookshelfdq.Mysql.Statement.{
  BookRow, ShelfRow, AccountRow, BookCond, Columns, ShelfValues, Statement, all_columns,
  bookno_only, shelfno_is, shelfno_above, floorno_is, bookno_is, bookno_above, cleaned_is,
  borrowed_set, on_reading_set, name_is, author_is, label_is, name_like, author_like, label_like,
  both, either, create_accounts, create_shelves, create_books, min_bookno, max_bookno, set_book,
  set_book_cleaned, insert_book, select_books, select_book, min_shelfno, max_shelfno, reuse_shelf,
  set_shelf, set_shelf_cleaned, insert_shelf, select_shelf_at, select_shelves_above, select_type,
  select_password, count_named, count_accounts, insert_account, set_password,
}

-- What mysql_query and the result that it leaves amount to.
pub data Outcome : Type 0 where
  failed : Outcome
  -- mysql_affected_rows
  affected : ℕ → Outcome
  -- a result of one value, or of none (no row, or NULL)
  scalar_int : Option ℕ → Outcome
  scalar_text : Option Text → Outcome
  -- mysql_field_count and the rows
  book_rows : ℕ → List BookRow → Outcome
  shelf_rows : ℕ → List ShelfRow → Outcome

pub record Tables : Type 0 where
  pub books : Text → List BookRow
  pub shelves : Text → List ShelfRow
  pub accounts : List AccountRow

-- The collation of the text columns: = and LIKE '%...%'.
pub record Collation : Type 0 where
  pub same : Text → Text → Bool
  pub like : Text → Text → Bool

unfoldable pub BookRow-discrete : Discrete BookRow
BookRow-discrete = hlevel ℕ_discrete

unfoldable pub ShelfRow-discrete : Discrete ShelfRow
ShelfRow-discrete = hlevel ℕ_discrete

abbrev pub book_no : BookRow → ℕ
book_no r = r.bookno

abbrev pub shelf_no : ShelfRow → ℕ
shelf_no r = r.shelfno

unfoldable pub put_books : Text → List BookRow → Tables → Tables
put_books u rows t = record t { books = λ v. if text_eq u v then rows else t.books v }

unfoldable pub put_shelves : Text → List ShelfRow → Tables → Tables
put_shelves u rows t = record t { shelves = λ v. if text_eq u v then rows else t.shelves v }

-- A digit printed by %c is a number, of which the column keeps that digit; most other characters
-- make the statement wrong.
unfoldable pub is_digit : ℕ → Bool
is_digit c = leb b'0' c && leb c b'9'

unfoldable pub row_of_entry : BookEntry → ℕ → ℕ → BookRow
row_of_entry e n c = record {
  shelfno = e.shelf_code;
  floorno = e.floor_code;
  bookno = n;
  name = e.name;
  author = e.author;
  label = e.label;
  borrowed = e.borrowed;
  on_reading = e.on_reading;
  cleaned = c;
  encoding_time = e.encoding_time;
}

unfoldable pub row_of_values : ShelfValues → ℕ → ℕ → ShelfRow
row_of_values v n c = record {
  shelfno = n;
  name = v.name;
  nfloors = v.nfloors + b'0';
  floor_depth = v.floor_depth;
  cleaned = c;
  building_time = v.building_time;
}

unfoldable pub type_code : AccountType → ℕ
type_code account_admin = 0
type_code account_user = 1

abbrev pub set_cleaned : ℕ → BookRow → BookRow
set_cleaned c r = record r { cleaned = c }

abbrev pub set_shelf_values : ShelfValues → ShelfRow → ShelfRow
set_shelf_values v r = record r {
  name = v.name;
  nfloors = v.nfloors + b'0';
  floor_depth = v.floor_depth;
  building_time = v.building_time;
}

unfoldable pub field_count : Columns → ℕ → ℕ
field_count all_columns n = n
field_count bookno_only n = 1

-- A CHAR column holds the digit of a number that has one.
abbrev pub one_digit : ℕ → Bool
one_digit n = leb n 9

unfoldable pub named : Text → AccountRow → Bool
named n a = text_eq a.name n

abbrev pub first {ℓ κ} : {A : Type ℓ} {B : Type κ} → (A → B) → List A → Option B
first f [] = none
first f (x ∷ xs) = some (f x)

module _ (c : Collation) where
  -- WHERE
  unfoldable pub sat : BookCond → BookRow → Bool
  sat (shelfno_is z) r = eq_ℤ r.shelfno z
  sat (shelfno_above z) r = lt_ℤ z r.shelfno
  sat (floorno_is z) r = eq_ℤ r.floorno z
  sat (bookno_is z) r = eq_ℤ (pos r.bookno) z
  sat (bookno_above z) r = lt_ℤ z (pos r.bookno)
  sat (cleaned_is n) r = r.cleaned == n
  sat borrowed_set r = r.borrowed == b'1'
  sat on_reading_set r = r.on_reading == b'1'
  sat (name_is t) r = c.same r.name t
  sat (author_is t) r = c.same r.author t
  sat (label_is t) r = c.same r.label t
  sat (name_like t) r = c.like r.name t
  sat (author_like t) r = c.like r.author t
  sat (label_like t) r = c.like r.label t
  sat (both p q) r = sat p r && sat q r
  sat (either p q) r = sat p r || sat q r

  unfoldable pub book_insertion : Text → Option (List BookRow) → Tables → Outcome × Tables
  book_insertion u none t = (failed, t)
  book_insertion u (some rows) t = (affected 1, put_books u rows t)

  unfoldable pub shelf_insertion : Text → Option (List ShelfRow) → Tables → Outcome × Tables
  shelf_insertion u none t = (failed, t)
  shelf_insertion u (some rows) t = (affected 1, put_shelves u rows t)

  unfoldable pub book_update :
      Text → (BookRow → Bool) → (BookRow → BookRow) → Tables → Outcome × Tables
  book_update u p f t = (
    affected (changed_rows p f BookRow-discrete (t.books u)),
    put_books u (update_rows p f (t.books u)) t,
  )

  unfoldable pub shelf_update :
      Text → (ShelfRow → Bool) → (ShelfRow → ShelfRow) → Tables → Outcome × Tables
  shelf_update u p f t = (
    affected (changed_rows p f ShelfRow-discrete (t.shelves u)),
    put_shelves u (update_rows p f (t.shelves u)) t,
  )

  -- The result of a statement, and the tables after it.
  unfoldable pub meaning : Statement → Tables → Outcome × Tables
  meaning create_accounts t = (affected 0, t)
  meaning (create_shelves u) t = (affected 0, t)
  meaning (create_books u) t = (affected 0, t)
  meaning (min_bookno u k) t = (scalar_int (lowest book_no (λ r. r.cleaned == k) (t.books u)), t)
  meaning (max_bookno u) t = (scalar_int (highest book_no (t.books u)), t)
  meaning (set_book u e k z) t =
      if is_digit e.borrowed && is_digit e.on_reading
      then book_update u (sat (bookno_is z)) (λ r. row_of_entry e r.bookno k) t
      else (failed, t)
  meaning (set_book_cleaned u k p) t = book_update u (sat p) (set_cleaned k) t
  meaning (insert_book u e n k) t =
      if is_digit e.borrowed && is_digit e.on_reading
      then book_insertion u (insert_row book_no (row_of_entry e n k) (t.books u)) t
      else (failed, t)
  meaning (select_books u cols p n) t =
      (book_rows (field_count cols 10) (take n (keep (sat p) (t.books u))), t)
  meaning (select_book u cols z) t =
      (book_rows (field_count cols 10) (keep (sat (bookno_is z)) (t.books u)), t)
  meaning (min_shelfno u k) t =
      (scalar_int (lowest shelf_no (λ r. r.cleaned == k) (t.shelves u)), t)
  meaning (max_shelfno u) t = (scalar_int (highest shelf_no (t.shelves u)), t)
  meaning (reuse_shelf u v k n) t =
      if one_digit v.nfloors
      then shelf_update u (λ r. r.shelfno == n) (λ r. row_of_values v r.shelfno k) t
      else (failed, t)
  meaning (set_shelf u v z) t =
      if one_digit v.nfloors
      then shelf_update u (λ r. eq_ℤ (pos r.shelfno) z) (set_shelf_values v) t
      else (failed, t)
  meaning (set_shelf_cleaned u k z) t =
      shelf_update u (λ r. eq_ℤ (pos r.shelfno) z) (λ r. record r { cleaned = k }) t
  meaning (insert_shelf u v n k) t =
      if one_digit v.nfloors
      then shelf_insertion u (insert_row shelf_no (row_of_values v n k) (t.shelves u)) t
      else (failed, t)
  meaning (select_shelf_at u cols z k n) t = (
    shelf_rows (field_count cols 6)
        (take n (keep (λ r. eq_ℤ (pos r.shelfno) z && r.cleaned == k) (t.shelves u))),
    t,
  )
  meaning (select_shelves_above u cols z k n) t = (
    shelf_rows (field_count cols 6)
        (take n (keep (λ r. lt_ℤ z (pos r.shelfno) && r.cleaned == k) (t.shelves u))),
    t,
  )
  meaning (select_type n) t =
      (scalar_int (first (λ a. type_code a.type) (keep (named n) t.accounts)), t)
  meaning (select_password n) t =
      (scalar_text (first (λ a. a.password) (keep (named n) t.accounts)), t)
  meaning (count_named n) t = (scalar_int (some (length (keep (named n) t.accounts))), t)
  meaning count_accounts t = (scalar_int (some (length t.accounts)), t)
  meaning (insert_account a) t = (affected 1, record t { accounts = t.accounts ++ a ∷ [] })
  meaning (set_password n pw) t = (
    affected (length (keep (named n) t.accounts)),
    record t { accounts = update_rows (named n) (λ a. record a { password = pw }) t.accounts },
  )
