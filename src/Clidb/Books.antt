-- ===== src/Clidb/Books.antt =====
-- The cached books as a map from positions to entries.
use bookshelfdq.Base.{
  ℕ, ◌≡◌, sym, subst, inl, inr, ◌⊎◌, Bool, true, false, Option, none, some, [], ◌==◌, if◌then◌else◌,
  arith, Option-cases,
}
use bookshelfdq.Clisrv.{BookEntry}
use bookshelfdq.Clidb.Gdbm.{book_key, same_key, book_value, Dbm, IsDbm}
use bookshelfdq.Clidb.{Cache, clidb_book_insert, clidb_book_peek, clidb_book_delete}

module _ (m : Dbm) (h : IsDbm m) where
  -- The position where an insertion puts its book.
  abbrev pub position : Option ℕ → Cache m → ℕ
  position none s = s.book_dbm_pos
  position (some p) s = p

  -- The positions show g, or nothing has changed and 0 is returned.
  abbrev pub Peeks : Cache m → (ℕ → Option BookEntry) → Bool × Cache m → Type 0
  Peeks s g r =
      (((r.0 ≡ true) × ((k : ℕ) → clidb_book_peek m k r.1 ≡ g k))
        ⊎ ((r.0 ≡ false) × ((k : ℕ) → clidb_book_peek m k r.1 ≡ clidb_book_peek m k s)))

  -- An insertion puts the book at its position (the end of the cache, or the one given) and leaves
  -- all other positions alone; or it returns 0 and leaves all positions alone.
  pub book_insert-Peeks :
      (e : BookEntry) (at : Option ℕ) (s : Cache m)
      → Peeks s
          (λ k. if position at s == k then some e else clidb_book_peek m k s)
          (clidb_book_insert m e at s)
  unfolding clidb_book_insert clidb_book_peek same_key
  book_insert-Peeks e at s = elim (Option-cases s.book_dbm_ptr) [
    | inl shut ↦ inr (ground arith, λ k. ground arith)
    | inr (f, held) ↦ elim (h.stores f (book_key (position at s)) (book_value e)) [
      | inl (ok, after) ↦
          inl (ground (arith, held, ok), λ k. ground (arith, held, after (book_key k)))
      | inr (ok, after) ↦
          inr (ground (arith, held, ok), λ k. ground (arith, held, after (book_key k)))
    ]
  ]

  -- A deletion empties the time of the book at its position, by which the client knows it for
  -- deleted, and leaves all other positions alone; or it returns 0 and leaves all positions alone.
  pub book_delete-Peeks :
      (p : ℕ) (s : Cache m)
      → ((e : BookEntry) × (clidb_book_peek m p s ≡ some e)
          × Peeks s
              (λ k.
                if p == k then some (record e { encoding_time = [] }) else clidb_book_peek m k s)
              (clidb_book_delete m p s))
        ⊎ ((clidb_book_peek m p s ≡ none) × (clidb_book_delete m p s ≡ (false, s)))
  unfolding clidb_book_delete
  book_delete-Peeks p s = elim (Option-cases (clidb_book_peek m p s)) [
    | inl q ↦ inr (q, ground arith)
    | inr (e, q) ↦
        let goes : clidb_book_delete m p s
            ≡ clidb_book_insert m (record e { encoding_time = [] }) (some p) s =
          ground arith in
        inl (
          e,
          q,
          subst (Peeks s _) (sym goes)
              (book_insert-Peeks (record e { encoding_time = [] }) (some p) s),
        )
  ]
