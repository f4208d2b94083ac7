-- ===== src/Clidb/Pages.antt =====
-- The pages of the cached books: the loop of next_page_bookinfo in bsdqclient/ncgui.c that reads
-- one, and going back to the start of a page.
use bookshelfdq.Base.{
  ℕ, zero, suc, ◌+◌, ◌-◌, ◌*◌, ◌/◌, ◌%◌, ◌≤◌, ◌<◌, ◌≡◌, refl, sym, ap, subst, ◌∙◌, inl, inr, ◌⊎◌,
  ◌&&◌, Option, none, some, List, [], ◌∷◌, ltb, leb, ◌==◌, if◌then◌else◌, arith, Bool-cases,
}
use bookshelfdq.Clisrv.{BookEntry, default_finds}
use bookshelfdq.Clidb.Gdbm.{Dbm}
use bookshelfdq.Clidb.{
  got, got_none, got_end, Cache, clidb_book_get, clidb_book_peek, clidb_book_search_step,
  clidb_book_backward_mode,
}

abbrev pub pad_hight : ℕ
pad_hight = default_finds

-- The books that the loop read, its error, or that its fuel was used up.
pub data Page : Type 0 where
  page_read : List BookEntry → Page
  page_error page_unfinished : Page

abbrev pub with_book : BookEntry → Page → Page
with_book e (page_read es) = page_read (e ∷ es)
with_book e p = p

module _ (m : Dbm) where
  unfoldable pub read_cached : ℕ → Cache m → Page × Cache m
  read_cached zero s = (page_unfinished, s)
  read_cached (suc fuel) s =
      let (g, s1) = clidb_book_get m s in
      let (p, s2) = read_cached fuel s1 in
      elim g [
        | got_end ↦ (page_read [], s1)
        | got_none ↦ (page_error, s1)
        | got e ↦ (with_book e p, s2)
      ]

  -- One turn more than the step allows for books.
  unfoldable pub cached_page : Cache m → Page × Cache m
  cached_page s = read_cached (suc pad_hight) (clidb_book_search_step m pad_hight s)

-- The entries at n positions from p on.
unfoldable pub slice : (ℕ → Option BookEntry) → ℕ → ℕ → List BookEntry
slice f p zero = []
slice f p (suc n) = elim (f p) [ none ↦ [] | some e ↦ e ∷ slice f (suc p) n ]

pub slice-suc :
    (f : ℕ → Option BookEntry) (p n : ℕ) (e : BookEntry)
    → f p ≡ some e
    → slice f p (suc n) ≡ e ∷ slice f (suc p) n
unfolding slice
slice-suc f p n e h = ground arith

back_of :
    (p n : ℕ)
    → p % pad_hight ≡ 0
    → 0 < n
    → n ≤ pad_hight
    → (if ltb 0 (p + n) && (p + n) % pad_hight == 0
          then (p + n) / pad_hight - 1
          else (p + n) / pad_hight)
        * pad_hight
      ≡ p
back_of p n start some_ few = elim (Bool-cases ((p + n) % pad_hight == 0)) [
  | inl full ↦ ground arith
  | inr part ↦ ground arith
]

abbrev pub smaller : ℕ → ℕ → ℕ
smaller a b = if leb a b then a else b

module _ (m : Dbm) (f : m.File) where
  -- Every position of the cache holds a book.
  abbrev pub IsFilled : Cache m → Type 0
  IsFilled s = (k : ℕ) → k < s.book_dbm_pos → (e : BookEntry) × (clidb_book_peek m k s ≡ some e)

  pub record ReadTo (s : Cache m) (n : ℕ) (r : Page × Cache m) : Type 0 where
    pub books : r.0 ≡ page_read (slice (λ k. clidb_book_peek m k s) s.book_search_pos n)
    pub moved : r.1.book_search_pos ≡ s.book_search_pos + n
    pub step : r.1.book_search_step ≡ s.book_search_step
    pub end_ : r.1.book_dbm_pos ≡ s.book_dbm_pos
    pub file : r.1.book_dbm_ptr ≡ s.book_dbm_ptr

  read_cached-ReadTo :
      (fuel n : ℕ) (s : Cache m)
      → s.book_dbm_ptr ≡ some f
      → IsFilled s
      → n < fuel
      → s.book_search_cnt + n ≤ s.book_search_step
      → s.book_search_pos + n ≤ s.book_dbm_pos
      → (s.book_search_cnt + n ≡ s.book_search_step) ⊎ (s.book_search_pos + n ≡ s.book_dbm_pos)
      → ReadTo s n (read_cached m fuel s)
  unfolding read_cached clidb_book_get clidb_book_peek slice
  read_cached-ReadTo zero n s held filled enough steps stays last = absurd (omega arith)
  read_cached-ReadTo (suc fuel) zero s held filled enough steps stays last =
      elim (Bool-cases (leb s.book_dbm_pos s.book_search_pos)) [
        | inl over ↦
            let goes : read_cached m (suc fuel) s ≡ (page_read [], s) = ground arith in
            subst (ReadTo s 0) (sym goes) (at_end s refl refl refl refl)
        | inr under ↦
            let s1 = record s { book_search_cnt = suc s.book_search_cnt } in
            let goes : read_cached m (suc fuel) s ≡ (page_read [], s1) = ground arith in
            subst (ReadTo s 0) (sym goes) (at_end s1 refl refl refl refl)
      ]
    where
      at_end :
          (s1 : Cache m)
          → s1.book_search_pos ≡ s.book_search_pos
          → s1.book_search_step ≡ s.book_search_step
          → s1.book_dbm_pos ≡ s.book_dbm_pos
          → s1.book_dbm_ptr ≡ s.book_dbm_ptr
          → ReadTo s 0 (page_read [], s1)
      at_end s1 p q r t = record { books = refl; moved = omega arith; step = q; end_ = r; file = t }
  read_cached-ReadTo (suc fuel) (suc n) s held filled enough steps stays last =
      let (e, at) = filled s.book_search_pos (omega arith) in
      let s1 = record s {
        book_search_cnt = suc s.book_search_cnt;
        book_search_pos = suc s.book_search_pos;
      } in
      let r = read_cached m fuel s1 in
      let ih =
        read_cached-ReadTo fuel n s1 held filled (omega arith) (omega arith) (omega arith)
          (ground arith) in
      let goes : read_cached m (suc fuel) s ≡ (with_book e r.0, r.1) = ground arith in
      subst (ReadTo s (suc n)) (sym goes) (record {
        books =
            ap (with_book e) ih.books
            ∙ ap page_read (sym (slice-suc (λ k. clidb_book_peek m k s) s.book_search_pos n e at));
        moved = omega (arith, ih.moved);
        step = ih.step;
        end_ = ih.end_;
        file = ih.file;
      })

  backward_at :
      (t : Cache m) (p n : ℕ)
      → t.book_search_pos ≡ p + n
      → t.book_search_step ≡ pad_hight
      → p % pad_hight ≡ 0
      → 0 < n
      → n ≤ pad_hight
      → (clidb_book_backward_mode m t).book_search_pos ≡ p
  unfolding clidb_book_backward_mode
  backward_at t p n at step start some_ few = rw (at, step) (back_of p n start some_ few)

  -- How many books the next page has.
  abbrev pub page_size : Cache m → ℕ
  page_size s = smaller pad_hight (s.book_dbm_pos - s.book_search_pos)

  -- Where the file is open and every position holds a book, reading a page ends, gives the next
  -- books up to a page's height or the end of the cache, and moves the search behind them.
  pub cached_page-ReadTo :
      (s : Cache m)
      → s.book_dbm_ptr ≡ some f
      → IsFilled s
      → s.book_search_pos ≤ s.book_dbm_pos
      → ((cached_page m s).0
          ≡ page_read (slice (λ k. clidb_book_peek m k s) s.book_search_pos (page_size s)))
        × ((cached_page m s).1.book_search_pos ≡ s.book_search_pos + page_size s)
        × ((cached_page m s).1.book_dbm_ptr ≡ s.book_dbm_ptr)
  unfolding cached_page clidb_book_search_step clidb_book_peek
  cached_page-ReadTo s held filled under =
      let s1 = clidb_book_search_step m pad_hight s in
      let r =
        read_cached-ReadTo (suc pad_hight) (page_size s) s1 held filled (ground arith)
          (ground arith) (ground arith) (ground arith) in
      (r.books, r.moved, r.file)

  -- After a page was read from the start of a page, going back leads to that start.
  pub backward-cached_page :
      (s : Cache m)
      → s.book_dbm_ptr ≡ some f
      → IsFilled s
      → s.book_search_pos < s.book_dbm_pos
      → s.book_search_pos % pad_hight ≡ 0
      → (clidb_book_backward_mode m (cached_page m s).1).book_search_pos ≡ s.book_search_pos
  unfolding cached_page clidb_book_search_step clidb_book_peek
  backward-cached_page s held filled under start =
      let s1 = clidb_book_search_step m pad_hight s in
      let r =
        read_cached-ReadTo (suc pad_hight) (page_size s) s1 held filled (ground arith)
          (ground arith) (ground arith) (ground arith) in
      backward_at (cached_page m s).1 s.book_search_pos (page_size s) r.moved r.step start
        (ground arith) (ground arith)
