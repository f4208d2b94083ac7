-- ===== src/Clidb/Realno.antt =====
-- clidb_shelf_realno: the number of the k-th existing shelf, and when its loop ends.
use bookshelfdq.Base.{
  ℕ, zero, suc, ◌+◌, ◌≤◌, ◌<◌, ◌≡◌, ap, ◌∙◌, inl, inr, true, false, ltb, if◌then◌else◌, arith,
  Bool-cases,
}
use bookshelfdq.Clisrv.{max_shelf_num}
use bookshelfdq.Clidb.Gdbm.{Dbm}
use bookshelfdq.Clidb.{
  Cache, shelf_at, overflow, int_max, clidb_shelf_exists, next_existing, realno_from,
  clidb_shelf_realno,
}

module _ (m : Dbm) (s : Cache m) where
  -- How many shelves exist with numbers from 1 to n.
  unfoldable pub rank : ℕ → ℕ
  rank zero = 0
  rank (suc n) = (if clidb_shelf_exists m (suc n) s then 1 else 0) + rank n

  -- All of them.
  abbrev pub existing : ℕ
  existing = rank max_shelf_num

  none_beyond : (n : ℕ) → max_shelf_num < n → clidb_shelf_exists m n s ≡ false
  unfolding clidb_shelf_exists
  none_beyond n h = ground arith

  exists_low : (k : ℕ) → clidb_shelf_exists m k s ≡ true → k ≤ max_shelf_num
  unfolding clidb_shelf_exists
  exists_low k h = ground arith

  rank-suc : (n : ℕ) → clidb_shelf_exists m (suc n) s ≡ false → rank (suc n) ≡ rank n
  unfolding rank
  rank-suc n h = ground arith

  rank_beyond : (n : ℕ) → max_shelf_num ≤ n → rank n ≡ existing
  rank_beyond zero h = absurd (omega arith)
  rank_beyond (suc n) h = elim (Bool-cases (ltb n max_shelf_num)) [
    | inl last ↦ ap rank {x = suc n} {y = max_shelf_num} (ground arith)
    | inr past ↦ rank-suc n (none_beyond (suc n) (ground arith)) ∙ rank_beyond n (ground arith)
  ]

  few_left : (n : ℕ) → rank n < existing → n < max_shelf_num
  few_left n left = elim (Bool-cases (ltb n max_shelf_num)) [
    | inl few ↦ ground arith
    | inr many ↦ absurd (omega (arith, rank_beyond n (ground arith)))
  ]

  next_found :
      (fuel n : ℕ)
      → rank n < existing
      → max_shelf_num < fuel + n
      → (k : ℕ) × (next_existing m fuel n s ≡ shelf_at k)
        × (rank k ≡ suc (rank n))
        × (clidb_shelf_exists m k s ≡ true)
  unfolding next_existing rank
  next_found zero n left far = absurd (omega (arith, rank_beyond n (omega arith)))
  next_found (suc fuel) n left far =
      let small = few_left n left in
      elim (Bool-cases (clidb_shelf_exists m (suc n) s)) [
        | inl here ↦ (suc n, ground arith, ground arith, here)
        | inr gap ↦
            let (k, next, at, e) = next_found fuel (suc n) (ground arith) (omega arith) in
            (k, ground arith, ground arith, e)
      ]

  realno_found :
      (fuel k n : ℕ)
      → suc k + rank n ≤ existing
      → max_shelf_num < fuel
      → (r : ℕ) × (realno_from m fuel (suc k) n s ≡ shelf_at r)
        × (rank r ≡ suc k + rank n)
        × (clidb_shelf_exists m r s ≡ true)
  unfolding realno_from
  realno_found fuel zero n left far =
      let (n1, next, at, e) = next_found fuel n (omega arith) (omega arith) in
      (n1, ground arith, omega arith, e)
  realno_found fuel (suc k) n left far =
      let (n1, next, at, e) = next_found fuel n (omega arith) (omega arith) in
      let (r, found, there, e') = realno_found fuel k n1 (omega arith) far in
      (r, ground arith, omega arith, e')

  rank_mono : (n b : ℕ) → n ≤ b → rank n ≤ rank b
  unfolding rank
  rank_mono zero b h = omega arith
  rank_mono (suc n) zero h = absurd (omega arith)
  rank_mono (suc n) (suc b) h = elim (Bool-cases (ltb n b)) [
    | inl under ↦ ground (arith, rank_mono (suc n) b (ground arith))
    | inr last ↦ same_rank (ground arith)
  ]
    where
      same_rank : n ≡ b → rank (suc n) ≤ rank (suc b)
      same_rank e = rw e (omega arith)

  rank_le : (n : ℕ) → rank n ≤ existing
  rank_le n = elim (Bool-cases (ltb n max_shelf_num)) [
    | inl under ↦ rank_mono n max_shelf_num (ground arith)
    | inr past ↦ omega (arith, rank_beyond n (ground arith))
  ]

  -- Where no more shelves exist, the inner loop counts on until its counter overflows.
  overflow_next :
      (fuel n : ℕ)
      → rank n ≡ existing
      → n ≤ int_max
      → int_max < fuel + n
      → next_existing m fuel n s ≡ overflow
  unfolding next_existing rank
  overflow_next zero n all low far = absurd (omega arith)
  overflow_next (suc fuel) n all low far = elim (Bool-cases (ltb n int_max)) [
    | inr last ↦ ground arith
    | inl more ↦ elim (Bool-cases (clidb_shelf_exists m (suc n) s)) [
      | inl here ↦ absurd (ground (arith, rank_le (suc n)))
      | inr gap ↦
          ground (arith, overflow_next fuel (suc n) (ground arith) (ground arith) (omega arith))
    ]
  ]

  next_mono :
      (fuel n : ℕ)
      → rank n < existing
      → max_shelf_num < fuel + n
      → (k : ℕ) × (next_existing m fuel n s ≡ shelf_at k)
        × (rank k ≡ suc (rank n))
        × (k ≤ max_shelf_num)
  next_mono fuel n left far =
      let (k, next, at, e) = next_found fuel n left far in (k, next, at, exists_low k e)

  overflow_from :
      (fuel k n : ℕ)
      → existing < k + rank n
      → n ≤ max_shelf_num
      → int_max < fuel
      → realno_from m fuel k n s ≡ overflow
  unfolding realno_from
  overflow_from fuel zero n h low far = absurd (omega (arith, rank_le n))
  overflow_from fuel (suc k) n h low far = elim (Bool-cases (ltb (rank n) existing)) [
    | inr all ↦
        let next : next_existing m fuel n s ≡ overflow =
          overflow_next fuel n (ground (arith, rank_le n)) (omega arith) (omega arith) in
        ground (arith, next)
    | inl left ↦
        let (n1, next, at, low1) = next_mono fuel n (ground arith) (omega arith) in
        ground (arith, next, overflow_from fuel k n1 (omega arith) low1 far)
  ]

  -- With fuel for more than MAX_SHELF_NUM steps of the inner loop, clidb_shelf_realno gives, for
  -- each place up to the number of existing shelves, the existing shelf of that place.
  pub shelf_realno-rank :
      (fuel k : ℕ)
      → suc k ≤ existing
      → max_shelf_num < fuel
      → (r : ℕ) × (clidb_shelf_realno m fuel (suc k) s ≡ shelf_at r)
        × (rank r ≡ suc k)
        × (clidb_shelf_exists m r s ≡ true)
  unfolding clidb_shelf_realno rank
  shelf_realno-rank fuel k few far =
      let (r, found, at, e) = realno_found fuel k 0 (omega arith) far in (r, found, omega arith, e)

  -- For a place behind all existing shelves no shelf is ever found: with fuel for more than 2^31
  -- steps, the loop has gone on until its int counter overflows, which C leaves undefined.
  pub shelf_realno-overflow :
      (fuel k : ℕ) → existing < k → int_max < fuel → clidb_shelf_realno m fuel k s ≡ overflow
  unfolding clidb_shelf_realno rank
  shelf_realno-overflow fuel k many far = overflow_from fuel k 0 (omega arith) (omega arith) far
