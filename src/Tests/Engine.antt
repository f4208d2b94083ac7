-- ===== src/Tests/Engine.antt =====
-- A MySQL server that never fails, for the tests: its connection is the tables themselves.
use bookshelfdq.Base.{
  ℕ, Text, ◌≡◌, refl, inr, Bool, true, false, [], ◌∷◌, codes, pos, text_eq, ◌==◌, ◌&&◌, ◌||◌,
}
use bookshelfdq.Clisrv.{BookEntry, account_user, req_insert_book, r_success, no_info, Message}
use bookshelfdq.Mysql.Statement.{BookRow}
use bookshelfdq.Mysql.Meaning.{Tables, Collation, meaning}
use bookshelfdq.Mysql.Client.{Mysql, IsDocumented, IsReliable}
use bookshelfdq.Srvdb.Connection.{Server, no_result}

starts : Text → Text → Bool
starts s [] = true
starts [] (d ∷ t) = false
starts (c ∷ s) (d ∷ t) = c == d && starts s t

-- LIKE '%t%'
unfoldable pub contains : Text → Text → Bool
unfolding starts
contains [] t = starts [] t
contains (c ∷ s) t = starts (c ∷ s) t || contains s t

pub contains-nil : (s : Text) → contains s [] ≡ true
unfolding contains
contains-nil [] = refl
contains-nil (c ∷ s) = refl

abbrev pub exact : Collation
exact = record { same = text_eq; like = contains }

abbrev pub ideal : Mysql
ideal = record {
  Conn = Tables;
  query = meaning exact;
  errno = λ t. 0;
  ping = λ t. (true, t);
  close = λ t. t;
  start = λ t. (true, t);
  connect = λ h p n t. (true, t);
}

abbrev pub ideal-IsDocumented : IsDocumented ideal
ideal-IsDocumented = record {
  tables = λ t. t;
  collation = exact;
  like_empty = contains-nil;
  answers = λ q c. inr (refl, refl);
  ping_keeps = λ c. refl;
  close_keeps = λ c. refl;
  start_keeps = λ c. refl;
  connect_keeps = λ h p n c. refl;
}

abbrev pub ideal-IsReliable : IsReliable ideal ideal-IsDocumented
ideal-IsReliable = record { result = λ q c. refl; effect = λ q c. refl; no_error = λ q c. refl }

abbrev pub at_tables : Tables → Server ideal
at_tables t = record {
  conn = t;
  res_ptr = no_result;
  res_fields = 0;
  res_rows = 0;
  info_flag = true;
  my_port = 0;
  my_hostname = codes "127.0.0.1";
  my_password = [];
}

abbrev pub a_book : ℕ → ℕ → ℕ → BookRow
a_book shelf n c = record {
  shelfno = pos shelf;
  floorno = pos 1;
  bookno = n;
  name = codes "book";
  author = codes "author";
  label = [];
  borrowed = b'0';
  on_reading = b'0';
  cleaned = c;
  encoding_time = codes "19-06-01 12h";
}

-- Three books, of which the second is deleted and the third waits for a shelf.
abbrev pub three_books : Tables
three_books = record {
  books = λ u. a_book 1 1 0 ∷ a_book 1 2 1 ∷ a_book 2 4 2 ∷ [];
  shelves = λ u. [];
  accounts = [];
}

abbrev pub an_entry : BookEntry
an_entry = record {
  shelf_code = pos 3;
  floor_code = pos 2;
  book_code = pos 0;
  name = codes "new";
  author = codes "author";
  label = codes "a,b";
  borrowed = b'0';
  on_reading = b'1';
  encoding_time = codes "19-06-02 12h";
}

abbrev pub a_message : Message
a_message = record {
  user = codes "tom";
  request = req_insert_book;
  shelf = record { code = pos 0; name = []; nfloors = 0; ndepth = []; building_time = [] };
  book = an_entry;
  account = record { type = account_user; name = []; password = [] };
  response = r_success;
  error_text = [];
  extra_info = no_info;
}
