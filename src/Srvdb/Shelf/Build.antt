-- ===== src/Srvdb/Shelf/Build.antt =====
-- srvdb_shelf_build: where the new shelf is put, and what stays.
use bookshelfdq.Base.{
  ℕ, suc, ◌<◌, ◌≡◌, refl, sym, ap, subst, ◌∙◌, inl, inr, Bool, true, false, some, List, leb, ◌==◌,
  arith, Option-cases, Bool-cases,
}
use bookshelfdq.Clisrv.{max_shelf_num, shelf_avl, shelf_del, Message, ShelfEntry}
use bookshelfdq.Mysql.Statement.{ShelfRow, min_shelfno, max_shelfno, reuse_shelf, insert_shelf}
use bookshelfdq.Mysql.Rows.{insert_row, lowest, highest, Within, highest-Within, highest-none}
use bookshelfdq.Mysql.Rows.Update.{update_rows, changed_rows}
use bookshelfdq.Mysql.Rows.Placing.{
  IsKeyed, Stands, inserted-Stands, overwritten-Stands, overwrites_one,
}
use bookshelfdq.Mysql.Meaning.{
  shelf_no, row_of_values, Tables, put_shelves, meaning, shelf_update, shelf_insertion, one_digit,
  ShelfRow-discrete,
}
use bookshelfdq.Mysql.Client.{Mysql, IsDocumented}
use bookshelfdq.Srvdb.Connection.Keeps.{tables_of, check-keeps, run-cases}
use bookshelfdq.Srvdb.Connection.{Server, run, mysql_check_connection, get_simple_int, is_failed}
use bookshelfdq.Srvdb.Book.{Done, is_undefined}
use bookshelfdq.Srvdb.Shelf.{
  values_of, insert_built, append_shelf, rebuild_shelf, srvdb_shelf_build, set_shelf_code,
}

abbrev pub is_removed : ShelfRow → Bool
is_removed r = r.cleaned == shelf_del

abbrev pub AreShelves : List ShelfRow → Type 0
AreShelves rows = IsKeyed shelf_no max_shelf_num is_removed rows

-- The row of a shelf that was built under the number n.
unfoldable pub built_row : ShelfEntry → ℕ → ShelfRow
built_row e n = row_of_values (values_of e) n shelf_avl

abbrev pub BuiltIn : ShelfEntry → ℕ → List ShelfRow → List ShelfRow → Type 0
BuiltIn e n rows rows' = Stands shelf_no max_shelf_num is_removed (built_row e n) rows rows'

-- The UPDATE over a removed shelf.
abbrev rebuilt : ShelfEntry → ℕ → List ShelfRow → List ShelfRow
rebuilt e n rows =
    update_rows (λ r. r.shelfno == n) (λ r. row_of_values (values_of e) r.shelfno shelf_avl) rows

module _ (e : ShelfEntry) (n : ℕ) (rows : List ShelfRow) (v : AreShelves rows) where
  inserted-BuiltIn :
      (rows' : List ShelfRow)
      → Within shelf_no n rows
      → n < max_shelf_num
      → insert_row shelf_no (row_of_values (values_of e) (suc n) shelf_avl) rows ≡ some rows'
      → BuiltIn e (suc n) rows rows'
  unfolding built_row row_of_values
  inserted-BuiltIn rows' w room h =
      inserted-Stands shelf_no max_shelf_num is_removed n _ rows rows' v w room refl h

  module _ (low : lowest shelf_no is_removed rows ≡ some n) where
    rebuilt-BuiltIn : BuiltIn e n rows (rebuilt e n rows)
    unfolding built_row row_of_values
    rebuilt-BuiltIn =
        overwritten-Stands shelf_no max_shelf_num is_removed _ _ n _ refl (λ r. refl) (λ r. refl)
          (λ r q. ap (λ (k : ℕ). built_row e k) q) refl rows v low

    rebuilds_one :
        changed_rows
          (λ r. r.shelfno == n)
          (λ r. row_of_values (values_of e) r.shelfno shelf_avl)
          ShelfRow-discrete
          rows
        ≡ 1
    unfolding built_row row_of_values
    rebuilds_one =
        overwrites_one shelf_no max_shelf_num is_removed _ _ n (built_row e n) refl (λ r. refl)
          (λ r. refl) (λ r q. ap (λ (k : ℕ). built_row e k) q) refl rows v low ShelfRow-discrete

module _ (m : Mysql) (d : IsDocumented m) where
  -- What building comes to: nothing was changed, or the shelf stands under a free number, which
  -- the message brings back.
  pub data Built (msg : Message) (t : Tables) (r : Done m) : Type 0 where
    refused : r.0 ≡ false → tables_of m d r.2 ≡ t → Built msg t r
    built :
        (n : ℕ) (rows : List ShelfRow)
        → r.0 ≡ true
        → r.1 ≡ set_shelf_code msg n
        → tables_of m d r.2 ≡ put_shelves msg.user rows t
        → BuiltIn msg.shelf n (t.shelves msg.user) rows
        → Built msg t r

  module _ (msg : Message) (t : Tables) where
    -- Where a statement that did not succeed leaves the tables alone, so does a refusal.
    insert_built-Built :
        (n : ℕ) (s : Server m)
        → tables_of m d s ≡ t
        → ((rows : List ShelfRow)
            → insert_row shelf_no
                (row_of_values (values_of msg.shelf) n shelf_avl)
                (t.shelves msg.user)
              ≡ some rows
            → BuiltIn msg.shelf n (t.shelves msg.user) rows)
        → Built msg t (insert_built m msg n s)
    unfolding insert_built meaning is_failed shelf_insertion
    insert_built-Built n s same fits =
        let q = insert_shelf msg.user (values_of msg.shelf) n shelf_avl in
        let s1 = (run m q s).1 in
        elim (run-cases m d q s) [
          | inl (e, k) ↦ refused (ground arith) (ground (arith, check-keeps m d s1))
          | inr (e, k) ↦
              elim (Option-cases (
                insert_row shelf_no (row_of_values (values_of msg.shelf) n shelf_avl)
                  (t.shelves msg.user))) [
                    | inl none_left ↦ refused (ground arith) (ground (arith, check-keeps m d s1))
                    | inr (rows, h) ↦ elim (Bool-cases (one_digit (values_of msg.shelf).nfloors)) [
                      | inl g ↦
                          built n rows (ground arith) (ground arith) (ground arith) (fits rows h)
                      | inr g ↦ refused (ground arith) (ground (arith, check-keeps m d s1))
                    ]
                  ]
        ]

    append_shelf-Built :
        (s : Server m)
        → tables_of m d s ≡ t
        → AreShelves (t.shelves msg.user)
        → Built msg t (append_shelf m msg s)
    unfolding append_shelf meaning is_failed get_simple_int
    append_shelf-Built s same v =
        let rows = t.shelves msg.user in
        let s1 = (run m (max_shelfno msg.user) s).1 in
        elim (run-cases m d (max_shelfno msg.user) s) [
          | inl (e, k) ↦ refused (ground arith) (ground (arith, check-keeps m d s1))
          | inr (e, k) ↦ elim (Option-cases (highest shelf_no rows)) [
            | inl q ↦
                let goes : append_shelf m msg s ≡ insert_built m msg 1 s1 = ground arith in
                let empty : Within shelf_no 0 rows = rw (highest-none shelf_no rows q) tt in
                subst (Built msg t) (sym goes) (
                  insert_built-Built 1 s1 (ground arith)
                    (λ rows' h. inserted-BuiltIn msg.shelf 0 rows v rows' empty (omega arith) h))
            | inr (n, q) ↦ elim (Bool-cases (leb max_shelf_num n)) [
              | inl full ↦ refused (ground arith) (ground arith)
              | inr room ↦
                  let goes : append_shelf m msg s ≡ insert_built m msg (suc n) s1 = ground arith in
                  subst (Built msg t) (sym goes) (
                    insert_built-Built (suc n) s1 (ground arith) (λ rows' h.
                      inserted-BuiltIn msg.shelf n rows v rows' (highest-Within shelf_no rows n q)
                        (ground arith) h))
            ]
          ]
        ]

    rebuild_shelf-Built :
        (n : ℕ) (s : Server m)
        → tables_of m d s ≡ t
        → AreShelves (t.shelves msg.user)
        → lowest shelf_no is_removed (t.shelves msg.user) ≡ some n
        → Built msg t (rebuild_shelf m msg n s)
    unfolding rebuild_shelf meaning shelf_update
    rebuild_shelf-Built n s same v low =
        let rows = t.shelves msg.user in
        let q = reuse_shelf msg.user (values_of msg.shelf) shelf_avl n in
        let s1 = (run m q s).1 in
        elim (run-cases m d q s) [
          | inl (e, k) ↦
              let goes : rebuild_shelf m msg n s
                  ≡ append_shelf m msg (mysql_check_connection m s1) =
                ground arith in
              subst (Built msg t) (sym goes)
                (append_shelf-Built (mysql_check_connection m s1) (check-keeps m d s1 ∙ k ∙ same) v)
          | inr (e, k) ↦ elim (Bool-cases (one_digit (values_of msg.shelf).nfloors)) [
            | inl g ↦
                let goes : rebuild_shelf m msg n s ≡ (true, set_shelf_code msg n, s1) =
                  ground (arith, rebuilds_one msg.shelf n rows v low) in
                built n (rebuilt msg.shelf n rows) (ap (λ (r : Done m). r.0) goes)
                  (ap (λ (r : Done m). r.1) goes)
                  (ap (λ (r : Done m). tables_of m d r.2) goes ∙ ground arith)
                  (rebuilt-BuiltIn msg.shelf n rows v low)
            | inr g ↦
                let goes : rebuild_shelf m msg n s
                    ≡ append_shelf m msg (mysql_check_connection m s1) =
                  ground arith in
                subst (Built msg t) (sym goes) (
                  append_shelf-Built (mysql_check_connection m s1)
                    (check-keeps m d s1 ∙ ground arith) v)
          ]
        ]

  -- Whatever the server answers, building a shelf either returns 0 and leaves all tables as they
  -- were, or returns 1 and the number of no shelf in use, under which the new one now stands as
  -- available, every other shelf and all books and accounts being unchanged; the numbers stay
  -- distinct and within 1 .. MAX_SHELF_NUM if they were so.
  pub shelf_build-Built :
      (msg : Message) (s : Server m)
      → AreShelves ((tables_of m d s).shelves msg.user)
      → Built msg (tables_of m d s) (srvdb_shelf_build m msg s)
  unfolding srvdb_shelf_build meaning is_failed get_simple_int
  shelf_build-Built msg s v =
      let t = tables_of m d s in
      let q = min_shelfno msg.user shelf_del in
      let s1 = (run m q s).1 in
      elim (Bool-cases (is_undefined msg.user)) [
        | inl e ↦ refused (ground arith) (ground arith)
        | inr named ↦ elim (run-cases m d q s) [
          | inl (e, k) ↦
              let goes : srvdb_shelf_build m msg s
                  ≡ append_shelf m msg (mysql_check_connection m s1) =
                ground arith in
              subst (Built msg t) (sym goes)
                (append_shelf-Built msg t (mysql_check_connection m s1) (check-keeps m d s1 ∙ k) v)
          | inr (e, k) ↦ elim (Option-cases (lowest shelf_no is_removed (t.shelves msg.user))) [
            | inl none_dead ↦
                let goes : srvdb_shelf_build m msg s ≡ append_shelf m msg s1 = ground arith in
                subst (Built msg t) (sym goes) (append_shelf-Built msg t s1 k v)
            | inr (n, low) ↦
                let goes : srvdb_shelf_build m msg s ≡ rebuild_shelf m msg n s1 = ground arith in
                subst (Built msg t) (sym goes) (rebuild_shelf-Built msg t n s1 k v low)
          ]
        ]
      ]
