-- ===== src/Clishell/Moving.antt =====
-- client_shelf_moving_book: reading, lending and bringing back.
use bookshelfdq.Base.{ℕ, ◌≡◌, sym, ap, ◌∙◌, arith}
use bookshelfdq.Clisrv.{BookEntry}
use bookshelfdq.Clidb.Gdbm.{Dbm}
use bookshelfdq.Clishell.{Remote}
use bookshelfdq.Clishell.Requests.{move_reading, move_lending, moved}

-- Neither read nor lent.
pub record IsIdle (e : BookEntry) : Type 0 where
  pub unread : e.on_reading ≡ b'0'
  pub unlent : e.borrowed ≡ b'0'

module _ (r : Remote) (g : Dbm) where
  -- A book at rest that is taken for reading, or lent, and then moved again by the second action is
  -- brought back: its entry is as before, and the code is the one of bringing back.
  pub moved_back :
      (e : BookEntry)
      → IsIdle e
      → (moved r g move_lending (moved r g move_reading e).1 ≡ (4, e))
        × (moved r g move_lending (moved r g move_lending e).1 ≡ (4, e))
  unfolding moved
  moved_back e v =
      let lent : moved r g move_lending e ≡ (2, record e { borrowed = b'1' }) =
        ground (arith, v.unread, v.unlent) in
      let back : moved r g move_lending (record e { borrowed = b'1' })
          ≡ (4, record e { borrowed = b'0' }) =
        ground (arith, v.unread) in
      (
        ap (λ (n : ℕ). (4, record e { on_reading = n })) (sym v.unread),
        ap (λ (x : ℕ × BookEntry). moved r g move_lending x.1) lent
            ∙ back
            ∙ ap (λ (n : ℕ). (4, record e { borrowed = n })) (sym v.unlent),
      )
