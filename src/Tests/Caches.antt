-- ===== src/Tests/Caches.antt =====
-- The client's cache at concrete inputs, over files that are functions of their keys.
use bookshelfdq.Base.{
  ℕ, ◌≡◌, ◌∷◌, [], refl, inl, true, Option, none, some, codes, pos, arith, ◌==◌, if◌then◌else◌,
  List,
}
use bookshelfdq.Clisrv.{ShelfEntry}
use bookshelfdq.Clidb.Gdbm.{Key, book_key, same_key, Value, book_value, Dbm, IsDbm}
use bookshelfdq.Clidb.{
  number, shelf_insert_mode, Cache, shelf_record_save, clidb_shelf_real_insert, clidb_shelf_delete,
  clidb_shelf_exists, shelf_at, overflow, clidb_shelf_realno, state_of, clidb_book_peek,
  clidb_book_backward_mode,
}
use bookshelfdq.Clidb.Shelves.{view, Shows, shelf_real_insert-Shows, shelf_delete-Shows}
use bookshelfdq.Clidb.Restart.{restart, shelf_real_insert-restart}
use bookshelfdq.Clidb.Realno.{rank, shelf_realno-rank, shelf_realno-overflow}
use bookshelfdq.Clidb.Pages.{
  cached_page, page_read, slice, IsFilled, cached_page-ReadTo, backward-cached_page,
}
use bookshelfdq.Tests.Engine.{an_entry}

abbrev pub File : Type 0
File = Key → Option Value

abbrev pub put : File → Key → Option Value → File
put f k v x = if same_key k x then v else f x

abbrev pub memory : Dbm
memory = record {
  File = File;
  store = λ f k v. (true, put f k (some v));
  fetch = λ f k. f k;
  delete = λ f k. (true, put f k none);
}

pub memory-IsDbm : IsDbm memory
memory-IsDbm = record {
  stores = λ f k v. inl (refl, λ x. refl);
  deletes = λ f k. inl (refl, λ x. refl);
}

abbrev pub empty : File
empty k = none

-- A file with the entry at every position.
abbrev pub books_file : File
books_file (book_key n) = some (book_value an_entry)
books_file _ = none

-- Of fifteen shelves the second, the third and the seventh exist.
abbrev pub records : List ℕ
records = 0 ∷ 1 ∷ 1 ∷ 0 ∷ 0 ∷ 0 ∷ 2 ∷ 0 ∷ 0 ∷ 0 ∷ 0 ∷ 0 ∷ 0 ∷ 0 ∷ 0 ∷ []

abbrev pub a_cache : Cache memory
a_cache = record {
  current_user = codes "tom";
  shelf_dbm_ptr = some empty;
  book_dbm_ptr = some books_file;
  shelf_record = records;
  book_dbm_pos = 40;
  book_search_pos = 30;
  book_search_step = 30;
  book_search_cnt = 3;
}

abbrev a_shelf_entry : ShelfEntry
a_shelf_entry = record {
  code = pos 4;
  name = codes "new";
  nfloors = 1;
  ndepth = 1 ∷ [];
  building_time = [];
}

shelf_insert_example :
    Shows memory memory-IsDbm a_cache
      (λ k. if number (pos 4) == k then some a_shelf_entry else view memory memory-IsDbm a_cache k)
      (clidb_shelf_real_insert memory a_shelf_entry shelf_insert_mode a_cache)
shelf_insert_example =
    shelf_real_insert-Shows memory memory-IsDbm a_cache refl a_shelf_entry shelf_insert_mode
      (omega arith) (omega arith)

shelf_delete_example :
    Shows memory memory-IsDbm a_cache
      (λ k. if 3 == k then none else view memory memory-IsDbm a_cache k)
      (clidb_shelf_delete memory 3 a_cache)
shelf_delete_example =
    shelf_delete-Shows memory memory-IsDbm a_cache refl 3 (omega arith) (omega arith)

restart_example :
    view memory memory-IsDbm
      (restart memory
        (clidb_shelf_real_insert memory a_shelf_entry shelf_insert_mode a_cache).1
        empty
        a_cache)
      4
    ≡ (if number (pos 4) == 4 then some a_shelf_entry else view memory memory-IsDbm a_cache 4)
unfolding clidb_shelf_real_insert shelf_record_save
restart_example =
    shelf_real_insert-restart memory memory-IsDbm a_shelf_entry shelf_insert_mode a_cache a_cache
      empty refl (omega arith) (omega arith) refl 4

realno_example :
    (r : ℕ) × (clidb_shelf_realno memory 16 3 a_cache ≡ shelf_at r)
    × (rank memory a_cache r ≡ 3)
    × (clidb_shelf_exists memory r a_cache ≡ true)
unfolding rank clidb_shelf_exists state_of
realno_example = shelf_realno-rank memory a_cache 16 2 (omega arith) (omega arith)

overflow_example : clidb_shelf_realno memory 2147483648 4 a_cache ≡ overflow
unfolding rank clidb_shelf_exists state_of
overflow_example = shelf_realno-overflow memory a_cache 2147483648 4 (omega arith) (omega arith)

a_cache-IsFilled : IsFilled memory books_file a_cache
unfolding clidb_book_peek
a_cache-IsFilled k h = (an_entry, refl)

page_example :
    ((cached_page memory a_cache).0
      ≡ page_read (slice (λ k. clidb_book_peek memory k a_cache) 30 10))
    × ((cached_page memory a_cache).1.book_search_pos ≡ 40)
    × ((cached_page memory a_cache).1.book_dbm_ptr ≡ some books_file)
page_example = cached_page-ReadTo memory books_file a_cache refl a_cache-IsFilled (omega arith)

backward_example :
    (clidb_book_backward_mode memory (cached_page memory a_cache).1).book_search_pos ≡ 30
backward_example =
    backward-cached_page memory books_file a_cache refl a_cache-IsFilled (omega arith) refl
