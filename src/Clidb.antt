-- ===== src/Clidb.antt =====
-- bsdqclient/clidb.c, the client's cache of shelves and of the books of a search in two dbm files.
-- A function returns what the C function returns (true for 1) and the state after it. Shelf numbers
-- are positive: at 0 the source reads and writes before its array. The books' positions are
-- numbers of the cache; the source's int does not overflow below 2^31 books.
pub mod Gdbm
pub mod Shelves
pub mod Restart
pub mod Realno
pub mod Books
pub mod Pages
use bookshelfdq.Base.{
  ℕ, zero, suc, ◌+◌, ◌-◌, ◌*◌, ◌/◌, ◌%◌, ℤ, pos, negsuc, Text, Bool, true, false, ◌&&◌, not, Option,
  none, some, List, [], ◌∷◌, ltb, leb, ◌==◌, if◌then◌else◌, get_or, set, map,
}
use bookshelfdq.Clisrv.{max_shelf_num, ShelfEntry, BookEntry}
use bookshelfdq.Clidb.Gdbm.{
  Key, shelf_key, record_key, book_key, Value, shelf_value, record_value, book_value, Dbm,
}

-- The number that %d prints and that indexes the array, of a code in range.
abbrev pub number : ℤ → ℕ
number (pos n) = n
number (negsuc n) = 0

-- SHELF_RECORD_UNSET, SHELF_RECORD_SET and SHELF_RECORD_SYNC store 0, 1 and 2.
unfoldable pub mark : ℕ → ℕ → List ℕ → List ℕ
mark zero v record_ = record_
mark (suc i) v record_ = set record_ i v

-- shelf_record[x-1]
unfoldable pub state_of : ℕ → List ℕ → ℕ
state_of zero record_ = 0
state_of (suc i) record_ = get_or record_ i 0

unfoldable pub finish_sync : ℕ → ℕ
finish_sync v = if v == 2 then 1 else v

pub data InsertMode : Type 0 where
  shelf_insert_mode shelf_sync_mode : InsertMode

abbrev pub mode_mark : InsertMode → ℕ
mode_mark shelf_sync_mode = 2
mode_mark shelf_insert_mode = 1

-- What memcpy takes from the datum that was fetched, if there is one.
abbrev pub as_shelf : Option Value → Option ShelfEntry
as_shelf (some (shelf_value e)) = some e
as_shelf _ = none

abbrev pub as_book : Option Value → Option BookEntry
as_book (some (book_value e)) = some e
as_book _ = none

-- clidb_book_get returns 1 and a book, 0, or -1.
pub data Got : Type 0 where
  got : BookEntry → Got
  got_none got_end : Got

abbrev pub as_got : Option BookEntry → Got
as_got (some e) = got e
as_got none = got_none

-- Where the loops of clidb_shelf_realno stand: at a number, behind an int counter that has
-- overflowed, which C leaves undefined, or where the fuel is used up.
pub data Counted : Type 0 where
  shelf_at : ℕ → Counted
  overflow out_of_fuel : Counted

abbrev pub int_max : ℕ
int_max = 2147483647

module _ (m : Dbm) where
  pub record Cache : Type 0 where
    pub current_user : Text
    pub shelf_dbm_ptr : Option m.File
    pub book_dbm_ptr : Option m.File
    pub shelf_record : List ℕ
    pub book_dbm_pos : ℕ
    pub book_search_pos : ℕ
    pub book_search_step : ℕ
    pub book_search_cnt : ℕ

  unfoldable pub shelf_record_save : Cache → Bool × Cache
  shelf_record_save s = elim s.shelf_dbm_ptr [
    | none ↦ (false, s)
    | some f ↦
        let (ok, f1) = m.store f (record_key s.current_user) (record_value s.shelf_record) in
        (ok, record s { shelf_dbm_ptr = some f1 })
  ]

  unfoldable pub shelf_record_obtain : Cache → Bool × Cache
  shelf_record_obtain s = elim s.shelf_dbm_ptr [
    | none ↦ (false, s)
    | some f ↦ elim (m.fetch f (record_key s.current_user)) [
      | some (record_value v) ↦ (true, record s { shelf_record = v })
      | some (shelf_value v) ↦ (true, s)
      | some (book_value v) ↦ (true, s)
      | none ↦ (false, (shelf_record_save s).1)
    ]
  ]

  -- `made` says that the directory is there, and the other two are what dbm_open returned.
  unfoldable pub clidb_init : Bool → Option m.File → Option m.File → Text → Cache → Bool × Cache
  clidb_init made shelves books login_user s =
      let s1 = record s { current_user = login_user } in
      let s2 = record s1 { shelf_dbm_ptr = shelves; book_dbm_ptr = books } in
      if not made then (false, s1) else elim shelves [
        | none ↦ (false, s2)
        | some f ↦ elim books [ none ↦ (false, s2) | some g ↦ (true, (shelf_record_obtain s2).1) ]
      ]

  unfoldable pub clidb_shelf_real_insert : ShelfEntry → InsertMode → Cache → Bool × Cache
  clidb_shelf_real_insert e mode s = elim s.shelf_dbm_ptr [
    | none ↦ (false, s)
    | some f ↦
        let (ok, f1) = m.store f (shelf_key s.current_user (number e.code)) (shelf_value e) in
        let s1 = record s { shelf_dbm_ptr = some f1 } in
        if not ok
        then (false, s1)
        else shelf_record_save
            (record s1 { shelf_record = mark (number e.code) (mode_mark mode) s.shelf_record })
  ]

  unfoldable pub clidb_shelf_insert : ShelfEntry → Cache → Bool × Cache
  clidb_shelf_insert e s = clidb_shelf_real_insert e shelf_insert_mode s

  unfoldable pub clidb_shelf_synchronize : ShelfEntry → Cache → Bool × Cache
  clidb_shelf_synchronize e s = clidb_shelf_real_insert e shelf_sync_mode s

  unfoldable pub clidb_shelf_delete : ℕ → Cache → Bool × Cache
  clidb_shelf_delete shelfno s = elim s.shelf_dbm_ptr [
    | none ↦ (false, s)
    | some f ↦
        let (ok, f1) = m.delete f (shelf_key s.current_user shelfno) in
        let s1 = record s { shelf_dbm_ptr = some f1 } in
        if not ok
        then (false, s1)
        else shelf_record_save (record s1 { shelf_record = mark shelfno 0 s.shelf_record })
  ]

  -- `none` is 0.
  unfoldable pub clidb_shelf_get : ℕ → Cache → Option ShelfEntry
  clidb_shelf_get shelfno s = elim s.shelf_dbm_ptr [
    | none ↦ none
    | some f ↦ as_shelf (m.fetch f (shelf_key s.current_user shelfno))
  ]

  unfoldable pub clidb_shelf_exists : ℕ → Cache → Bool
  clidb_shelf_exists shelfno s =
      if ltb max_shelf_num shelfno then false else ltb 0 (state_of shelfno s.shelf_record)

  unfoldable pub clidb_shelf_not_syncs : ℕ → Cache → Bool
  clidb_shelf_not_syncs shelfno s =
      if ltb max_shelf_num shelfno then false else state_of shelfno s.shelf_record == 1

  -- The inner loop: the next number behind n of a shelf that exists. ++realno is an int.
  unfoldable pub next_existing : ℕ → ℕ → Cache → Counted
  next_existing zero n s = out_of_fuel
  next_existing (suc fuel) n s =
      let rest = next_existing fuel (suc n) s in
      if not (ltb n int_max)
      then overflow
      else if clidb_shelf_exists (suc n) s
      then shelf_at (suc n)
      else rest

  unfoldable pub realno_from : ℕ → ℕ → ℕ → Cache → Counted
  realno_from fuel zero n s = shelf_at n
  realno_from fuel (suc k) n s = elim (next_existing fuel n s) [
    | shelf_at n1 ↦ realno_from fuel k n1 s
    | overflow ↦ overflow
    | out_of_fuel ↦ out_of_fuel
  ]

  unfoldable pub clidb_shelf_realno : ℕ → ℕ → Cache → Counted
  clidb_shelf_realno fuel k s = realno_from fuel k 0 s

  unfoldable pub clidb_shelf_record_sort : Cache → Bool × Cache
  clidb_shelf_record_sort s =
      shelf_record_save (record s { shelf_record = map finish_sync s.shelf_record })

  unfoldable pub clidb_book_reset : Cache → Cache
  clidb_book_reset s = record s { book_dbm_pos = 0; book_search_pos = 0 }

  -- `none` in place of a position is -1.
  unfoldable pub clidb_book_insert : BookEntry → Option ℕ → Cache → Bool × Cache
  clidb_book_insert e ins_pos s = elim s.book_dbm_ptr [
    | none ↦ (false, s)
    | some f ↦
        let at : ℕ = elim ins_pos [ none ↦ s.book_dbm_pos | some p ↦ p ] in
        let end : ℕ = elim ins_pos [ none ↦ suc s.book_dbm_pos | some p ↦ s.book_dbm_pos ] in
        let (ok, f1) = m.store f (book_key at) (book_value e) in
        (ok, record s { book_dbm_ptr = some f1; book_dbm_pos = end })
  ]

  unfoldable pub clidb_book_search_reset : Cache → Cache
  clidb_book_search_reset s = record s { book_search_pos = 0 }

  unfoldable pub clidb_book_search_step : ℕ → Cache → Cache
  clidb_book_search_step step s = record s { book_search_step = step; book_search_cnt = 0 }

  unfoldable pub clidb_book_backward_mode : Cache → Cache
  clidb_book_backward_mode s =
      let factor = s.book_search_pos / s.book_search_step in
      let full = ltb 0 s.book_search_pos && s.book_search_pos % s.book_search_step == 0 in
      record s { book_search_pos = (if full then factor - 1 else factor) * s.book_search_step }

  unfoldable pub clidb_book_peek : ℕ → Cache → Option BookEntry
  clidb_book_peek peek_pos s = elim s.book_dbm_ptr [
    | none ↦ none
    | some f ↦ as_book (m.fetch f (book_key peek_pos))
  ]

  unfoldable pub clidb_book_get : Cache → Got × Cache
  clidb_book_get s = elim s.book_dbm_ptr [
    | none ↦ (got_none, s)
    | some f ↦
        if leb s.book_dbm_pos s.book_search_pos
        then (got_end, s)
        else (let s1 = record s { book_search_cnt = suc s.book_search_cnt } in
            if ltb s.book_search_step s1.book_search_cnt then (got_end, s1) else (
              as_got (as_book (m.fetch f (book_key s.book_search_pos))),
              record s1 { book_search_pos = suc s.book_search_pos },
            ))
  ]

  unfoldable pub clidb_book_delete : ℕ → Cache → Bool × Cache
  clidb_book_delete del_pos s = elim (clidb_book_peek del_pos s) [
    | none ↦ (false, s)
    | some e ↦ clidb_book_insert (record e { encoding_time = [] }) (some del_pos) s
  ]
