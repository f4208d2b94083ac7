-- ===== src/Srvdb/Shelf/Keeps.antt =====
-- Searching and fetching shelves changes no table, whatever the server answers.
use bookshelfdq.Base.{◌≡◌, refl, ◌∙◌, ◌∷◌, [], Text, arith, Bool-cases, inl, inr}
use bookshelfdq.Clisrv.{break_limit_int, ShelfEntry, Message}
use bookshelfdq.Mysql.Meaning.{
  Tables, Collation, Outcome, failed, affected, scalar_int, scalar_text, book_rows, shelf_rows,
  meaning,
}
use bookshelfdq.Mysql.Client.{Mysql, IsDocumented}
use bookshelfdq.Srvdb.Connection.Keeps.{tables_of, check-keeps, run-cases}
use bookshelfdq.Srvdb.Connection.{
  Server, Stored, run, stored_books, stored_shelves, no_result, srvdb_free_result,
}
use bookshelfdq.Srvdb.Book.{is_undefined}
use bookshelfdq.Srvdb.Shelf.{
  shelf_statement, keep_shelves, fetch_shelf, srvdb_shelf_find, srvdb_shelf_fetch_result,
  srvdb_shelf_count,
}

shelf_statement_reads :
    (c : Collation) (u : Text) (e : ShelfEntry) (t : Tables)
    → (meaning c (shelf_statement u e) t).1 ≡ t
unfolding shelf_statement meaning
shelf_statement_reads c u e t = ground arith

module _ (m : Mysql) (d : IsDocumented m) where
  keep_shelves-keeps :
      (o : Outcome) (s : Server m) → tables_of m d (keep_shelves m o s).1 ≡ tables_of m d s
  unfolding keep_shelves
  keep_shelves-keeps failed s = check-keeps m d s
  keep_shelves-keeps (book_rows n rows) s = refl
  keep_shelves-keeps (affected n) s = refl
  keep_shelves-keeps (scalar_int n) s = refl
  keep_shelves-keeps (scalar_text n) s = refl
  keep_shelves-keeps (shelf_rows n rows) s = refl

  pub shelf_find-keeps :
      (msg : Message) (s : Server m) → tables_of m d (srvdb_shelf_find m msg s).1 ≡ tables_of m d s
  unfolding srvdb_shelf_find
  shelf_find-keeps msg s = elim (Bool-cases (is_undefined msg.user)) [
    | inl u ↦ ground arith
    | inr u ↦
        let q = shelf_statement msg.user msg.shelf in
        let s1 = (run m q s).1 in
        let reads = shelf_statement_reads d.collation msg.user msg.shelf (tables_of m d s) in
        let after : tables_of m d s1 ≡ tables_of m d s = elim (run-cases m d q s) [
          | inl (e, k) ↦ k
          | inr (e, k) ↦ k ∙ reads
        ] in
        ground (arith, keep_shelves-keeps (run m q s).0 s1, after)
  ]

  pub shelf_fetch-keeps :
      (msg : Message) (s : Server m)
      → tables_of m d (srvdb_shelf_fetch_result m msg s).2 ≡ tables_of m d s
  unfolding srvdb_shelf_fetch_result fetch_shelf srvdb_free_result
  shelf_fetch-keeps msg s = held s.res_ptr
    where
      held : (p : Stored) → tables_of m d (fetch_shelf m p msg s).2 ≡ tables_of m d s
      held no_result = refl
      held (stored_books rows) = refl
      held (stored_shelves []) = ground arith
      held (stored_shelves (r ∷ rs)) = ground arith

  pub shelf_count-keeps :
      (msg : Message) (s : Server m) → tables_of m d (srvdb_shelf_count m msg s).2 ≡ tables_of m d s
  unfolding srvdb_shelf_count srvdb_free_result
  shelf_count-keeps msg s =
      let msg1 = record msg { shelf = record msg.shelf { code = break_limit_int } } in
      ground (arith, shelf_find-keeps msg1 s)
