-- ===== src/Srvdb/Shelf.antt =====
-- The shelves' part of bsdqserver/srvdb.c.
pub mod Build
pub mod Change
pub mod Search
pub mod Keeps
use bookshelfdq.Base.{
  ℕ, suc, ◌+◌, ◌%◌, zero, Text, codes, pos, eq_ℤ, lt_ℤ, neg_ℤ, Bool, true, false, not, Option, none,
  some, List, [], ◌∷◌, leb, ◌==◌, if◌then◌else◌, get_or, take, length,
}
use bookshelfdq.Clisrv.{
  max_shelf_num, default_finds, non_sense_int, break_limit_int, shelf_avl, shelf_del, ShelfEntry,
  Message, shelf_counts,
}
use bookshelfdq.Mysql.Statement.{
  ShelfRow, ShelfValues, Statement, all_columns, bookno_only, min_shelfno, max_shelfno, reuse_shelf,
  set_shelf, set_shelf_cleaned, insert_shelf, select_shelf_at, select_shelves_above,
}
use bookshelfdq.Mysql.Meaning.{Outcome, failed, affected, shelf_rows}
use bookshelfdq.Mysql.Client.{Mysql}
use bookshelfdq.Srvdb.Book.{Done, update, is_undefined, set_error}
use bookshelfdq.Srvdb.Search.{FetchResult, fetch_end, fetch_end_more, fetch_cont, fetch_err}
use bookshelfdq.Srvdb.Connection.{
  Server, run, Stored, no_result, stored_books, stored_shelves, mysql_check_connection,
  srvdb_free_result, get_simple_int, is_failed,
}

abbrev pub too_many_shelves : Text
too_many_shelves = codes "打造失败:书架达到上限"

abbrev pub build_failed : Text
build_failed = codes "打造书架失败"

-- A char plus '0', and minus '0'.
unfoldable pub digit_of : ℕ → ℕ
digit_of d = (d + b'0') % 256

unfoldable pub value_of : ℕ → ℕ
value_of c = (c + 208) % 256

-- The depths as digits with commas between them, up to a digit that is a NUL. (Without floors the
-- source writes before its buffer.) The text is printed into the statement as it is: a digit that
-- is a quote or a backslash would break it.
unfoldable pub floor_depth_text : List ℕ → Text
floor_depth_text [] = []
floor_depth_text (d ∷ []) = if digit_of d == 0 then [] else digit_of d ∷ []
floor_depth_text (d ∷ e ∷ ds) =
    let rest = floor_depth_text (e ∷ ds) in if digit_of d == 0 then [] else digit_of d ∷ b',' ∷ rest

-- Every second character of the text, n times. (Behind the text the source reads what is there.)
unfoldable pub floor_depths : ℕ → Text → List ℕ
floor_depths zero t = []
floor_depths (suc n) [] = value_of 0 ∷ floor_depths n []
floor_depths (suc n) (c ∷ []) = value_of c ∷ floor_depths n []
floor_depths (suc n) (c ∷ x ∷ t) = value_of c ∷ floor_depths n t

unfoldable pub values_of : ShelfEntry → ShelfValues
values_of e = record {
  name = e.name;
  nfloors = e.nfloors;
  floor_depth = floor_depth_text (take e.nfloors e.ndepth);
  building_time = e.building_time;
}

unfoldable pub entry_of_shelf : ShelfRow → ShelfEntry
entry_of_shelf r = record {
  code = pos r.shelfno;
  name = r.name;
  nfloors = value_of r.nfloors;
  ndepth = floor_depths (value_of r.nfloors) r.floor_depth;
  building_time = r.building_time;
}

abbrev pub set_shelf_code : Message → ℕ → Message
set_shelf_code msg n = record msg { shelf = record msg.shelf { code = pos n } }

unfoldable pub shelf_statement : Text → ShelfEntry → Statement
shelf_statement u e =
    if eq_ℤ e.code break_limit_int
    then select_shelves_above u bookno_only non_sense_int shelf_avl max_shelf_num
    else if lt_ℤ e.code non_sense_int
    then select_shelf_at u all_columns (neg_ℤ e.code) shelf_avl default_finds
    else select_shelves_above u all_columns e.code shelf_avl default_finds

module _ (m : Mysql) where
  -- INSERT under the number n, which the message already has.
  unfoldable pub insert_built : Message → ℕ → Server m → Done m
  insert_built msg n s =
      let (o, s1) = run m (insert_shelf msg.user (values_of msg.shelf) n shelf_avl) s in
      if is_failed o
      then (false, set_error (set_shelf_code msg n) build_failed, mysql_check_connection m s1)
      else (true, set_shelf_code msg n, s1)

  unfoldable pub append_shelf : Message → Server m → Done m
  append_shelf msg s =
      let (o, s1) = run m (max_shelfno msg.user) s in
      if is_failed o then (false, msg, mysql_check_connection m s1) else elim (get_simple_int o) [
        | none ↦ insert_built msg 1 s1
        | some n ↦
            if leb max_shelf_num n
            then (false, set_error msg too_many_shelves, s1)
            else insert_built msg (suc n) s1
      ]

  unfoldable pub rebuild_shelf : Message → ℕ → Server m → Done m
  rebuild_shelf msg n s =
      let (o, s1) = run m (reuse_shelf msg.user (values_of msg.shelf) shelf_avl n) s in
      elim o [
        | failed ↦ append_shelf msg (mysql_check_connection m s1)
        | affected k ↦ if k == 1 then (true, set_shelf_code msg n, s1) else append_shelf msg s1
        | _ ↦ append_shelf msg s1
      ]

  unfoldable pub srvdb_shelf_build : Message → Server m → Done m
  srvdb_shelf_build msg s =
      if is_undefined msg.user
      then (false, msg, s)
      else (let (o, s1) = run m (min_shelfno msg.user shelf_del) s in
          if is_failed o
          then append_shelf msg (mysql_check_connection m s1)
          else elim (get_simple_int o) [
            | none ↦ append_shelf msg s1
            | some n ↦ rebuild_shelf msg n s1
          ])

  -- The second UPDATE of the source, on the shelf's books, is printed and never sent.
  unfoldable pub srvdb_shelf_remove : Message → Server m → Done m
  srvdb_shelf_remove msg s =
      if is_undefined msg.user
      then (false, msg, s)
      else update m (set_shelf_cleaned msg.user shelf_del msg.shelf.code) msg s

  unfoldable pub srvdb_shelf_update : Message → Server m → Done m
  srvdb_shelf_update msg s =
      if is_undefined msg.user
      then (false, msg, s)
      else update m (set_shelf msg.user (values_of msg.shelf) msg.shelf.code) msg s

  keep_shelves : Outcome → Server m → Option ℕ × Server m
  keep_shelves (shelf_rows fields rows) s = (
    some (length rows),
    record s { res_ptr = stored_shelves rows; res_rows = length rows; res_fields = fields },
  )
  keep_shelves failed s = (none, mysql_check_connection m s)
  keep_shelves _ s = (none, s)

  -- `none` is 0; otherwise 1, with the number of rows.
  unfoldable pub srvdb_shelf_find : Message → Server m → Option ℕ × Server m
  unfolding keep_shelves
  srvdb_shelf_find msg s =
      if is_undefined msg.user
      then (none, s)
      else (let (o, s1) = run m (shelf_statement msg.user msg.shelf) s in keep_shelves o s1)

  -- (The source does not test the pointer, and hands NULL to MySQL where there is no result.)
  fetch_shelf : Stored → Message → Server m → FetchResult × Message × Server m
  fetch_shelf no_result msg s = (fetch_end, msg, s)
  fetch_shelf (stored_books rows) msg s = (fetch_err, msg, srvdb_free_result m s)
  fetch_shelf (stored_shelves []) msg s =
      if not (m.errno s.conn == 0)
      then (fetch_err, msg, srvdb_free_result m s)
      else if s.res_rows == default_finds
      then (fetch_end_more, msg, s)
      else (fetch_end, msg, srvdb_free_result m s)
  fetch_shelf (stored_shelves (r ∷ rs)) msg s =
      if not (m.errno s.conn == 0)
      then (fetch_err, msg, srvdb_free_result m s)
      else if s.res_fields == 6
      then (
        fetch_cont,
        record msg { shelf = entry_of_shelf r },
        record s { res_ptr = stored_shelves rs },
      )
      else (fetch_err, record msg { shelf = entry_of_shelf r }, srvdb_free_result m s)

  unfoldable pub srvdb_shelf_fetch_result : Message → Server m → FetchResult × Message × Server m
  unfolding fetch_shelf
  srvdb_shelf_fetch_result msg s = fetch_shelf s.res_ptr msg s

  unfoldable pub srvdb_shelf_count : Message → Server m → Bool × Message × Server m
  srvdb_shelf_count msg s =
      let msg1 = record msg { shelf = record msg.shelf { code = break_limit_int } } in
      let (r, s1) = srvdb_shelf_find msg1 s in
      elim r [
        | none ↦ (false, msg1, s1)
        | some n ↦ (true, record msg1 { extra_info = shelf_counts n }, srvdb_free_result m s1)
      ]
