-- ===== src/Tests/Shelves.antt =====
-- The shelves' part of srvdb.c at concrete inputs.
use bookshelfdq.Base.{
  ℕ, ◌≡◌, ◌∷◌, [], refl, some, arith, codes, pos, eq_ℤ, length, keep, take, if◌then◌else◌,
}
use bookshelfdq.Clisrv.{Message, default_finds}
use bookshelfdq.Mysql.Meaning.{Tables, set_shelf_values}
use bookshelfdq.Mysql.Statement.{ShelfRow}
use bookshelfdq.Srvdb.Connection.{stored_shelves}
use bookshelfdq.Srvdb.Connection.Keeps.{tables_of}
use bookshelfdq.Srvdb.Shelf.{
  values_of, entry_of_shelf, srvdb_shelf_build, srvdb_shelf_remove, srvdb_shelf_update,
  srvdb_shelf_find,
}
use bookshelfdq.Srvdb.Shelf.Build.{AreShelves, Built, built_row, shelf_build-Built}
use bookshelfdq.Srvdb.Shelf.Change.{
  Refits, is_named, mark_removed, shelf_remove-Refits, shelf_update-Refits,
}
use bookshelfdq.Srvdb.Shelf.Search.{entry-built_row, shelf_wanted, shelf_find-page}
use bookshelfdq.Tests.Engine.{
  ideal, ideal-IsDocumented, ideal-IsReliable, at_tables, three_books, a_message,
}

abbrev a_shelf : ℕ → ℕ → ShelfRow
a_shelf n c = record {
  shelfno = n;
  name = codes "shelf";
  nfloors = b'2';
  floor_depth = codes "1,2";
  cleaned = c;
  building_time = codes "19-06-01 12h";
}

-- Two shelves, of which the first is removed.
abbrev two_shelves : Tables
two_shelves = record three_books { shelves = λ u. a_shelf 1 1 ∷ a_shelf 2 0 ∷ [] }

two_shelves-AreShelves : AreShelves (two_shelves.shelves a_message.user)
two_shelves-AreShelves = record { rising = omega arith; within = omega arith }

abbrev a_request : Message
a_request = record a_message {
  shelf = record {
    code = pos 1;
    name = codes "new";
    nfloors = 3;
    ndepth = 1 ∷ 2 ∷ 1 ∷ [];
    building_time = codes "19-06-02 12h";
  };
}

shelf_build_example :
    Built ideal ideal-IsDocumented a_request two_shelves
      (srvdb_shelf_build ideal a_request (at_tables two_shelves))
shelf_build_example =
    shelf_build-Built ideal ideal-IsDocumented a_request (at_tables two_shelves)
      two_shelves-AreShelves

shelf_remove_example :
    Refits ideal ideal-IsDocumented a_request
      (at_tables two_shelves)
      (λ r. if is_named a_request.shelf r then mark_removed r else r)
      (srvdb_shelf_remove ideal a_request (at_tables two_shelves))
shelf_remove_example =
    shelf_remove-Refits ideal ideal-IsDocumented a_request (at_tables two_shelves)

shelf_update_example :
    Refits ideal ideal-IsDocumented a_request
      (at_tables two_shelves)
      (λ r.
        if is_named a_request.shelf r then set_shelf_values (values_of a_request.shelf) r else r)
      (srvdb_shelf_update ideal a_request (at_tables two_shelves))
shelf_update_example =
    shelf_update-Refits ideal ideal-IsDocumented a_request (at_tables two_shelves)

entry_example :
    entry_of_shelf (built_row a_request.shelf 7) ≡ record a_request.shelf { code = pos 7 }
entry_example = entry-built_row a_request.shelf 7 (omega arith) (omega arith) refl (omega arith)

shelf_find_example :
    let page =
      take default_finds
        (keep (shelf_wanted a_request.shelf) (two_shelves.shelves a_request.user)) in
    ((srvdb_shelf_find ideal a_request (at_tables two_shelves)).0 ≡ some (length page))
    × ((srvdb_shelf_find ideal a_request (at_tables two_shelves)).1.res_ptr ≡ stored_shelves page)
    × (tables_of ideal ideal-IsDocumented
          (srvdb_shelf_find ideal a_request (at_tables two_shelves)).1
        ≡ two_shelves)
unfolding eq_ℤ
shelf_find_example =
    shelf_find-page ideal ideal-IsDocumented ideal-IsReliable a_request (at_tables two_shelves) refl
      refl
