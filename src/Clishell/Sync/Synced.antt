-- ===== src/Clishell/Sync/Synced.antt =====
-- client_shelves_info_sync against a server that answers: the cache is then the server's map.
use bookshelfdq.Base.{ℕ, ◌≡◌, Bool, true, List, [], length}
use bookshelfdq.Clisrv.{ShelfEntry}
use bookshelfdq.Clidb.Gdbm.{Dbm, IsDbm}
use bookshelfdq.Clidb.Shelves.{view}
use bookshelfdq.Clishell.{Remote, Client}
use bookshelfdq.Clishell.Sync.Mirror.{IsWilling, Mirror}
use bookshelfdq.Clishell.Sync.Serving.{IsServing, map_of}

module _ (g : Dbm) (h : IsDbm g) (w : IsWilling g) (r : Remote) (rows : List ShelfEntry)
    (q : IsServing r rows) where
  -- What holds of the synchronisation's result.
  Synced : ℕ → Bool × ℕ × Client r g → Type 0
  Synced k a =
      (a.0 ≡ true)
      × (a.1 ≡ length rows)
      × (view g h a.2.cache k ≡ map_of rows k)
      × (q.waiting a.2.line ≡ [])
