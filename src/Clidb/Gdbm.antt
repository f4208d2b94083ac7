-- ===== src/Clidb/Gdbm.antt =====
-- gdbm as the cache sees it, and what its documentation says. A key stands for its printed text:
-- "USER_shelf_N", "USER_shelf_record" and "book_N", padded with NULs to the size of the buffer.
use bookshelfdq.Base.{
  ℕ, ◌≡◌, Text, text_eq, Bool, true, false, ◌&&◌, ◌==◌, Option, none, some, List, if◌then◌else◌,
  ◌⊎◌,
}
use bookshelfdq.Clisrv.{ShelfEntry, BookEntry}

pub data Key : Type 0 where
  shelf_key : Text → ℕ → Key
  record_key : Text → Key
  book_key : ℕ → Key

-- The bytes that are stored: a shelf_entry_t, the array of records, or a book_entry_t.
pub data Value : Type 0 where
  shelf_value : ShelfEntry → Value
  record_value : List ℕ → Value
  book_value : BookEntry → Value

unfoldable pub same_key : Key → Key → Bool
same_key (shelf_key u n) (shelf_key v k) = text_eq u v && n == k
same_key (record_key u) (record_key v) = text_eq u v
same_key (book_key n) (book_key k) = n == k
same_key _ _ = false

pub record Dbm : Type 1 where
  pub File : Type 0
  -- dbm_store with DBM_REPLACE, true where it returns 0
  pub store : File → Key → Value → Bool × File
  pub fetch : File → Key → Option Value
  -- dbm_delete, true where it returns 0
  pub delete : File → Key → Bool × File

-- What is stored is fetched under its key alone, until it is replaced or deleted; a call that
-- fails changes nothing.
pub record IsDbm (m : Dbm) : Type 0 where
  pub stores :
      (f : m.File) (k : Key) (v : Value)
      → (((m.store f k v).0 ≡ true)
          × ((x : Key)
              → m.fetch (m.store f k v).1 x ≡ (if same_key k x then some v else m.fetch f x)))
        ⊎ (((m.store f k v).0 ≡ false) × ((x : Key) → m.fetch (m.store f k v).1 x ≡ m.fetch f x))
  pub deletes :
      (f : m.File) (k : Key)
      → (((m.delete f k).0 ≡ true)
          × ((x : Key) → m.fetch (m.delete f k).1 x ≡ (if same_key k x then none else m.fetch f x)))
        ⊎ (((m.delete f k).0 ≡ false) × ((x : Key) → m.fetch (m.delete f k).1 x ≡ m.fetch f x))
