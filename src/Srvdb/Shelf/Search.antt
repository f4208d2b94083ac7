-- ===== src/Srvdb/Shelf/Search.antt =====
-- srvdb_shelf_find and srvdb_shelf_count, and a shelf read back as it was built.
use mathlib.Core.Path.{fun_ext}
use bookshelfdq.Base.{
  ℕ, ◌+◌, ◌≤◌, ◌<◌, ◌≡◌, refl, sym, ap, ◌∙◌, Bool, true, false, ◌&&◌, some, List, [], ◌∷◌, pos,
  eq_ℤ, lt_ℤ, neg_ℤ, eq_ℤ_refl, Text, ◌==◌, if◌then◌else◌, arith, Bool-cases, inl, inr, length,
  take, keep, All, take_whole, length-take_all, length-keep-le, keep_same,
}
use bookshelfdq.Clisrv.{
  default_finds, max_shelf_num, non_sense_int, break_limit_int, shelf_avl, ShelfEntry, Message,
  shelf_counts,
}
use bookshelfdq.Mysql.Statement.{ShelfRow}
use bookshelfdq.Mysql.Rows.{length-le, Above-All}
use bookshelfdq.Mysql.Meaning.{
  meaning, field_count, row_of_values, shelf_no, shelf_rows, Outcome, Tables, Collation,
}
use bookshelfdq.Mysql.Client.{Mysql, IsDocumented, IsReliable}
use bookshelfdq.Srvdb.Connection.Keeps.{tables_of, run-result, run-effect}
use bookshelfdq.Srvdb.Connection.{Server, stored_shelves}
use bookshelfdq.Srvdb.Book.{is_undefined}
use bookshelfdq.Srvdb.Shelf.{
  digit_of, value_of, floor_depth_text, floor_depths, values_of, entry_of_shelf, shelf_statement,
  srvdb_shelf_find, srvdb_shelf_count,
}
use bookshelfdq.Srvdb.Shelf.Build.{AreShelves, built_row}

-- A depth whose digit is a printable character before the backslash, and no quote.
abbrev pub IsDepth : ℕ → Type 0
IsDepth d = d < 44

value-digit_of : (d : ℕ) → IsDepth d → value_of (digit_of d) ≡ d
unfolding value_of digit_of
value-digit_of d h = omega arith

digit_of-nul : (d : ℕ) → IsDepth d → (digit_of d == 0) ≡ false
unfolding digit_of
digit_of-nul d h = ground arith

value_of_digit : (n : ℕ) → n ≤ 9 → value_of (n + b'0') ≡ n
unfolding value_of
value_of_digit n h = omega arith

floor_depths-floor_depth_text :
    (ds : List ℕ) → All IsDepth ds → floor_depths (length ds) (floor_depth_text ds) ≡ ds
unfolding floor_depths floor_depth_text
floor_depths-floor_depth_text [] h = refl
floor_depths-floor_depth_text (d ∷ []) h =
    rw (digit_of-nul d h.0) (ap (λ (x : ℕ). x ∷ []) (value-digit_of d h.0))
floor_depths-floor_depth_text (d ∷ e ∷ ds) h =
    rw (digit_of-nul d h.0)
      (rw (value-digit_of d h.0, floor_depths-floor_depth_text (e ∷ ds) h.1) refl)

-- The row of a shelf with one to nine floors, each with a depth below 44, so that its digit neither
-- ends nor breaks the text in the statement, is fetched as the entry that it was built from, under
-- its number.
pub entry-built_row :
    (e : ShelfEntry) (n : ℕ)
    → 0 < e.nfloors
    → e.nfloors ≤ 9
    → length e.ndepth ≡ e.nfloors
    → All IsDepth e.ndepth
    → entry_of_shelf (built_row e n) ≡ record e { code = pos n }
unfolding entry_of_shelf built_row row_of_values values_of
entry-built_row e n any_floor few long small =
    let floors : value_of (e.nfloors + b'0') ≡ e.nfloors = value_of_digit e.nfloors few in
    let whole : take e.nfloors e.ndepth ≡ e.ndepth = take_whole e.nfloors e.ndepth (omega arith) in
    let depths = floor_depths-floor_depth_text e.ndepth small in
    rw (floors, whole, sym long, depths) refl

-- The shelves that a search is for: one of a negative number, else all from a number on.
abbrev pub shelf_wanted : ShelfEntry → ShelfRow → Bool
shelf_wanted e r =
    (if lt_ℤ e.code non_sense_int
      then eq_ℤ (pos r.shelfno) (neg_ℤ e.code)
      else lt_ℤ e.code (pos r.shelfno))
    && r.cleaned == shelf_avl

-- The rows that the statement of a search asks for.
meaning-shelf_statement :
    (c : Collation) (u : Text) (e : ShelfEntry) (t : Tables)
    → eq_ℤ e.code break_limit_int ≡ false
    → meaning c (shelf_statement u e) t
      ≡ (shelf_rows 6 (take default_finds (keep (shelf_wanted e) (t.shelves u))), t)
unfolding meaning shelf_statement field_count
meaning-shelf_statement c u e t one = elim (Bool-cases (lt_ℤ e.code non_sense_int)) [
  | inl b ↦
      let same : (λ (r : ShelfRow). eq_ℤ (pos r.shelfno) (neg_ℤ e.code) && r.cleaned == shelf_avl)
          ≡ shelf_wanted e =
        fun_ext (λ r. ground arith) in
      rw (one, b) (ap found same)
  | inr b ↦
      let same : (λ (r : ShelfRow). lt_ℤ e.code (pos r.shelfno) && r.cleaned == shelf_avl)
          ≡ shelf_wanted e =
        fun_ext (λ r. ground arith) in
      rw (one, b) (ap found same)
]
  where
    found : (ShelfRow → Bool) → Outcome × Tables
    found g = (shelf_rows 6 (take default_finds (keep g (t.shelves u))), t)

-- The rows of a count.
abbrev above_zero : ShelfRow → Bool
above_zero r = lt_ℤ (pos 0) (pos r.shelfno) && r.cleaned == shelf_avl

meaning-count_statement :
    (c : Collation) (u : Text) (e : ShelfEntry) (t : Tables)
    → eq_ℤ e.code break_limit_int ≡ true
    → meaning c (shelf_statement u e) t
      ≡ (shelf_rows 1 (take max_shelf_num (keep above_zero (t.shelves u))), t)
unfolding meaning shelf_statement field_count
meaning-count_statement c u e t all = rw all refl

lt_ℤ_pos : (n : ℕ) → 0 < n → lt_ℤ (pos 0) (pos n) ≡ true
unfolding lt_ℤ
lt_ℤ_pos n h = ground arith

module _ (m : Mysql) (d : IsDocumented m) (w : IsReliable m d) (msg : Message) (s : Server m)
    (named : is_undefined msg.user ≡ false) where
  abbrev shelves_of : List ShelfRow
  shelves_of = (tables_of m d s).shelves msg.user

  find_shelves :
      (fields : ℕ) (rows : List ShelfRow)
      → meaning d.collation (shelf_statement msg.user msg.shelf) (tables_of m d s)
        ≡ (shelf_rows fields rows, tables_of m d s)
      → ((srvdb_shelf_find m msg s).0 ≡ some (length rows))
        × ((srvdb_shelf_find m msg s).1.res_ptr ≡ stored_shelves rows)
        × (tables_of m d (srvdb_shelf_find m msg s).1 ≡ tables_of m d s)
  unfolding srvdb_shelf_find
  find_shelves fields rows h =
      let q = shelf_statement msg.user msg.shelf in
      let r = run-result m d w q s in
      let k = run-effect m d w q s in
      (ground (arith, r, h), ground (arith, r, h), ground (arith, r, h, k))

  -- On a server that answers, a search finds and holds the first DEFAULT_FINDS available shelves
  -- that come after the number asked for, or the one of the number whose negative is asked for.
  pub shelf_find-page :
      eq_ℤ msg.shelf.code break_limit_int ≡ false
      → let page =
          take default_finds (keep (shelf_wanted msg.shelf) ((tables_of m d s).shelves msg.user)) in
        ((srvdb_shelf_find m msg s).0 ≡ some (length page))
        × ((srvdb_shelf_find m msg s).1.res_ptr ≡ stored_shelves page)
        × (tables_of m d (srvdb_shelf_find m msg s).1 ≡ tables_of m d s)
  shelf_find-page one =
      find_shelves 6 _
        (meaning-shelf_statement d.collation msg.user msg.shelf (tables_of m d s) one)

abbrev pub is_standing : ShelfRow → Bool
is_standing r = r.cleaned == shelf_avl

all_counted :
    (rows : List ShelfRow)
    → AreShelves rows
    → length (take max_shelf_num (keep above_zero rows)) ≡ length (keep is_standing rows)
all_counted rows v =
    length-take_all max_shelf_num _ (
      omega (
        arith,
        length-keep-le above_zero rows,
        length-le shelf_no 0 max_shelf_num rows v.rising v.within,
      ))
    ∙ ap length (
        keep_same (λ r. 0 < r.shelfno) _ is_standing rows
          (Above-All shelf_no 0 0 rows (omega arith) v.rising)
          (λ r h. ground (arith, lt_ℤ_pos r.shelfno h)))

module _ (m : Mysql) (d : IsDocumented m) (w : IsReliable m d) where
  -- On a server that answers, the count of shelves that a request brings back is the number of
  -- the user's shelves that are not removed.
  pub shelf_count-counts :
      (msg : Message) (s : Server m)
      → is_undefined msg.user ≡ false
      → AreShelves ((tables_of m d s).shelves msg.user)
      → ((srvdb_shelf_count m msg s).0 ≡ true)
        × ((srvdb_shelf_count m msg s).1.extra_info
            ≡ shelf_counts (length (keep is_standing ((tables_of m d s).shelves msg.user))))
  unfolding srvdb_shelf_count
  shelf_count-counts msg s named v =
      let msg1 = record msg { shelf = record msg.shelf { code = break_limit_int } } in
      let found = find_shelves m d w msg1 s named 1 _ (
        meaning-count_statement d.collation msg.user msg1.shelf (tables_of m d s)
          (eq_ℤ_refl break_limit_int)) in
      ground (arith, found.0, all_counted ((tables_of m d s).shelves msg.user) v)
