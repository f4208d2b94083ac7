-- ===== src/Clisrv.antt =====
-- bsdqserver/clisrv.h (bsdqclient/clisrv.h is the same file): limits, flags and the message that
-- client and server exchange. A char array is its text up to the NUL. The union `stuff` is three
-- fields: every request reads and writes the member of its own kind.
use bookshelfdq.Base.{ℕ, ◌+◌, Text, ℤ, pos, List}

abbrev pub max_book_num : ℕ
max_book_num = 10000

abbrev pub max_shelf_num : ℕ
max_shelf_num = 15

abbrev pub max_user_num : ℕ
max_user_num = 16

abbrev pub default_finds : ℕ
default_finds = 30

abbrev pub non_sense_int : ℤ
non_sense_int = pos 0

abbrev pub break_limit_int : ℤ
break_limit_int = pos (max_book_num + 1)

-- FLAG_BORROWED and FLAG_ON_READING are both '1'.
abbrev pub flag_borrowed : ℕ
flag_borrowed = b'1'

abbrev pub flag_on_reading : ℕ
flag_on_reading = b'1'

abbrev pub flag_find_unsorted : ℕ
flag_find_unsorted = b'2'

abbrev pub book_avl : ℕ
book_avl = 0

abbrev pub book_del : ℕ
book_del = 1

abbrev pub book_unsorted : ℕ
book_unsorted = 2

abbrev pub shelf_avl : ℕ
shelf_avl = 0

abbrev pub shelf_del : ℕ
shelf_del = 1

-- code[0] is the shelf, code[1] the floor, code[2] the book.
pub record BookEntry : Type 0 where
  pub shelf_code : ℤ
  pub floor_code : ℤ
  pub book_code : ℤ
  pub name : Text
  pub author : Text
  pub label : Text
  pub borrowed : ℕ
  pub on_reading : ℕ
  pub encoding_time : Text

pub record BookCount : Type 0 where
  pub books_all : ℕ
  pub books_on_reading : ℕ
  pub books_borrowed : ℕ
  pub books_unsorted : ℕ

-- ndepth holds the first nfloors entries of the array, the ones that the program reads.
pub record ShelfEntry : Type 0 where
  pub code : ℤ
  pub name : Text
  pub nfloors : ℕ
  pub ndepth : List ℕ
  pub building_time : Text

pub data AccountType : Type 0 where
  account_admin account_user : AccountType

pub record AccountEntry : Type 0 where
  pub type : AccountType
  pub name : Text
  pub password : Text

pub data ClientRequest : Type 0 where
  req_insert_book req_delete_book req_update_book req_find_book req_count_book : ClientRequest
  req_build_shelf req_remove_shelf req_find_shelf req_count_shelf : ClientRequest
  req_verify_account req_register_account req_heartbeat : ClientRequest

pub data ServerResponse : Type 0 where
  r_success r_failed r_find_end_more r_find_end : ServerResponse

-- extra_info carries a number of rows, a BookCount, a ShelfCount (shelves_all alone) or the flag by
-- which a client asks for its tables to be created.
pub data ExtraInfo : Type 0 where
  no_info : ExtraInfo
  rows_found : ℕ → ExtraInfo
  book_counts : BookCount → ExtraInfo
  shelf_counts : ℕ → ExtraInfo
  init_archive : ExtraInfo

pub record Message : Type 0 where
  pub user : Text
  pub request : ClientRequest
  pub shelf : ShelfEntry
  pub book : BookEntry
  pub account : AccountEntry
  pub response : ServerResponse
  pub error_text : Text
  pub extra_info : ExtraInfo

pub record Heartbeat : Type 0 where
  pub request : ClientRequest
  pub response : ServerResponse
  pub extra_info : List ℕ

-- How the compiler lays the two messages out: sizeof, and their bytes. `behind` is what stands in
-- memory behind a message.
pub record Layout : Type 0 where
  pub msg_size : ℕ
  pub hb_size : ℕ
  pub message_bytes : Message → List ℕ
  pub heartbeat_bytes : Heartbeat → List ℕ
  pub message_of : List ℕ → Message
  pub behind : List ℕ
