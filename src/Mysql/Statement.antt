-- ===== src/Mysql/Statement.antt =====
-- The SQL statements of bsdqserver/srvdb.c and the rows of its three kinds of tables.
use bookshelfdq.Base.{ℕ, Text, ℤ}
use bookshelfdq.Clisrv.{AccountType, BookEntry}

-- A row of USER_books.
pub record BookRow : Type 0 where
  pub shelfno : ℤ
  pub floorno : ℤ
  pub bookno : ℕ
  pub name : Text
  pub author : Text
  pub label : Text
  pub borrowed : ℕ
  pub on_reading : ℕ
  pub cleaned : ℕ
  pub encoding_time : Text

-- A row of USER_shelves. nfloors is the character in its CHAR column.
pub record ShelfRow : Type 0 where
  pub shelfno : ℕ
  pub name : Text
  pub nfloors : ℕ
  pub floor_depth : Text
  pub cleaned : ℕ
  pub building_time : Text

-- A row of bsdq_accounts; userno is assigned by AUTO_INCREMENT and never read.
pub record AccountRow : Type 0 where
  pub name : Text
  pub password : Text
  pub type : AccountType

-- The WHERE conditions on books.
pub data BookCond : Type 0 where
  shelfno_is shelfno_above floorno_is bookno_is bookno_above : ℤ → BookCond
  cleaned_is : ℕ → BookCond
  borrowed_set on_reading_set : BookCond
  name_is author_is label_is : Text → BookCond
  name_like author_like label_like : Text → BookCond
  both either : BookCond → BookCond → BookCond

pub data Columns : Type 0 where
  all_columns bookno_only : Columns

-- The values of a shelf that BUILD and UPDATE print.
pub record ShelfValues : Type 0 where
  pub name : Text
  pub nfloors : ℕ
  pub floor_depth : Text
  pub building_time : Text

pub data Statement : Type 0 where
  create_accounts : Statement
  create_shelves create_books : Text → Statement
  -- SELECT MIN(bookno) ... WHERE cleaned=%d, and SELECT MAX(bookno)
  min_bookno : Text → ℕ → Statement
  max_bookno : Text → Statement
  -- UPDATE ... SET (the entry's columns, and cleaned=%d) WHERE bookno=%d
  set_book : Text → BookEntry → ℕ → ℤ → Statement
  -- UPDATE ... SET cleaned=%d WHERE ...
  set_book_cleaned : Text → ℕ → BookCond → Statement
  -- INSERT INTO ... with the bookno and cleaned given
  insert_book : Text → BookEntry → ℕ → ℕ → Statement
  -- SELECT ... WHERE ... ORDER BY bookno LIMIT %d, and SELECT ... WHERE bookno=%d
  select_books : Text → Columns → BookCond → ℕ → Statement
  select_book : Text → Columns → ℤ → Statement
  min_shelfno : Text → ℕ → Statement
  max_shelfno : Text → Statement
  -- UPDATE ... SET cleaned=%d and the values WHERE shelfno=%d
  reuse_shelf : Text → ShelfValues → ℕ → ℕ → Statement
  -- UPDATE ... SET the values WHERE shelfno=%d
  set_shelf : Text → ShelfValues → ℤ → Statement
  set_shelf_cleaned : Text → ℕ → ℤ → Statement
  insert_shelf : Text → ShelfValues → ℕ → ℕ → Statement
  -- SELECT ... WHERE shelfno=%d AND cleaned=%d, and WHERE shelfno>%d AND cleaned=%d
  select_shelf_at select_shelves_above : Text → Columns → ℤ → ℕ → ℕ → Statement
  select_type select_password count_named : Text → Statement
  count_accounts : Statement
  insert_account : AccountRow → Statement
  -- UPDATE ... SET password='%s' WHERE name='%s'
  set_password : Text → Text → Statement
