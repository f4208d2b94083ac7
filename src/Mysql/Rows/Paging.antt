-- ===== src/Mysql/Rows/Paging.antt =====
-- Reading a table page by page: each page starts behind the last key of the page before.
use bookshelfdq.Base.{
  ℕ, zero, suc, ◌≤◌, ◌<◌, ◌≡◌, refl, ap, List, [], ◌∷◌, ◌++◌, Bool, true, false, ◌&&◌, ltb, take,
  keep, arith, Bool-cases, inl, inr, keep_same,
}
use bookshelfdq.Mysql.Rows.{Above, Above-All, Within}

module _ {ℓ} {R : Type ℓ} (no : R → ℕ) where
  -- The key of the last row, or `b` for no row.
  unfoldable pub last_key : ℕ → List R → ℕ
  last_key b [] = b
  last_key b (x ∷ xs) = last_key (no x) xs

  -- The rows behind the key b that pass q.
  unfoldable pub after : (R → Bool) → ℕ → R → Bool
  after q b r = ltb b (no r) && q r

  module _ (q : R → Bool) where
    after_later :
        (a b : ℕ) (xs : List R) → a ≤ b → Above no b xs → keep (after q a) xs ≡ keep (after q b) xs
    unfolding after
    after_later a b xs h v =
        keep_same (λ x. b < no x) (after q a) (after q b) xs (Above-All no b b xs (omega arith) v)
          (λ x g. ground arith)

    after-lt : (a : ℕ) (x : R) → after q a x ≡ true → a < no x
    unfolding after
    after-lt a x h = ground arith

    not-after : (a : ℕ) (x : R) → no x ≤ a → after q a x ≡ false
    unfolding after
    not-after a x h = ground arith

    last_key-le :
        (n a b : ℕ) (xs : List R) → Above no b xs → a ≤ last_key a (take n (keep (after q a) xs))
    unfolding last_key take keep
    last_key-le zero a b xs v = omega arith
    last_key-le (suc n) a b [] v = omega arith
    last_key-le (suc n) a b (x ∷ xs) v = elim (Bool-cases (after q a x)) [
      | inl e ↦
          let lt = after-lt a x e in
          rw (e, after_later a (no x) xs (omega (arith, lt)) v.1)
            (omega (arith, lt, last_key-le n (no x) (no x) xs v.1))
      | inr e ↦ rw e (last_key-le (suc n) a (no x) xs v.1)
    ]

    not-after_mono : (a k : ℕ) (x : R) → a ≤ k → after q a x ≡ false → after q k x ≡ false
    unfolding after
    not-after_mono a k x h e = ground arith

    keep-after_hit :
        (a : ℕ) (x : R) (xs : List R)
        → after q a x ≡ true
        → Above no (no x) xs
        → keep (after q a) (x ∷ xs) ≡ x ∷ keep (after q (no x)) xs
    unfolding keep
    keep-after_hit a x xs e v =
        rw e (ap (◌∷◌ x) (after_later a (no x) xs (omega (arith, after-lt a x e)) v))

    keep-after_miss :
        (a : ℕ) (x : R) (xs : List R)
        → after q a x ≡ false
        → keep (after q a) (x ∷ xs) ≡ keep (after q a) xs
    unfolding keep
    keep-after_miss a x xs e = rw e

    -- The rows behind `a` are the first n of them, and those behind the last key of these.
    pub page_then_rest :
        (n a b : ℕ) (xs : List R)
        → Above no b xs
        → keep (after q a) xs
          ≡ take n (keep (after q a) xs)
            ++ keep (after q (last_key a (take n (keep (after q a) xs)))) xs
    unfolding last_key take
    page_then_rest zero a b xs v = refl
    page_then_rest (suc n) a b [] v = unfold keep in refl
    page_then_rest (suc n) a b (x ∷ xs) v = elim (Bool-cases (after q a x)) [
      | inl e ↦
          let past =
            not-after (last_key (no x) (take n (keep (after q (no x)) xs))) x
              (last_key-le n (no x) (no x) xs v.1) in
          rw (keep-after_hit a x xs e v.1, keep-after_miss _ x xs past)
            (ap (◌∷◌ x) (page_then_rest n (no x) (no x) xs v.1))
      | inr e ↦
          let past =
            not-after_mono a (last_key a (take (suc n) (keep (after q a) xs))) x
              (last_key-le (suc n) a (no x) xs v.1) e in
          rw (keep-after_miss a x xs e, keep-after_miss _ x xs past)
            (page_then_rest (suc n) a (no x) xs v.1)
    ]

  Within-keep : (q : R → Bool) (n : ℕ) (xs : List R) → Within no n xs → Within no n (keep q xs)
  unfolding keep
  Within-keep q n [] w = tt
  Within-keep q n (x ∷ xs) w = elim (Bool-cases (q x)) [
    | inl e ↦ rw e (w.0, Within-keep q n xs w.1)
    | inr e ↦ rw e (Within-keep q n xs w.1)
  ]

  last_key-bound : (k n a : ℕ) (xs : List R) → a ≤ n → Within no n xs → last_key a (take k xs) ≤ n
  unfolding last_key take
  last_key-bound zero n a xs h w = h
  last_key-bound (suc k) n a [] h w = h
  last_key-bound (suc k) n a (x ∷ xs) h w = last_key-bound k n (no x) xs w.0 w.1

  -- The last key of a page is within the bound on all keys.
  pub last_key_page :
      (q : R → Bool) (k n a : ℕ) (xs : List R)
      → a ≤ n
      → Within no n xs
      → last_key a (take k (keep q xs)) ≤ n
  last_key_page q k n a xs h w = last_key-bound k n a (keep q xs) h (Within-keep q n xs w)
