-- ===== src/Mysql/Rows.antt =====
-- A table as the list of its rows in the order of a numeric primary key, for the tables of books
-- and of shelves alike: what INSERT, UPDATE, MIN and MAX do to it.
pub mod Paging
pub mod Update
pub mod Placing
use mathlib.Core.Option
use bookshelfdq.Base.{
  ℕ, ◌+◌, ◌-◌, ◌≤◌, ◌<◌, ◌≡◌, refl, List, [], ◌∷◌, Option, none, some, Bool, true, false, ◌==◌, ltb,
  leb, ◌≢◌, if◌then◌else◌, ite, if_neg, ◌++◌, length, All, arith, inl, inr, Option-cases,
  Bool-cases,
}

module _ {ℓ} {R : Type ℓ} (no : R → ℕ) where
  -- The row with a given key.
  unfoldable pub find_row : ℕ → List R → Option R
  find_row k [] = none
  find_row k (x ∷ xs) = if no x == k then some x else find_row k xs

  -- INSERT, which a row with the same key stops.
  unfoldable pub insert_row : R → List R → Option (List R)
  insert_row r [] = some (r ∷ [])
  insert_row r (x ∷ xs) =
      let rest = insert_row r xs in
      if ltb (no r) (no x)
      then some (r ∷ x ∷ xs)
      else if no r == no x
      then none
      else Option.map (◌∷◌ x) rest

  abbrev least : ℕ → Option ℕ → ℕ
  least n none = n
  least n (some m) = if leb n m then n else m

  abbrev most : ℕ → Option ℕ → ℕ
  most n none = n
  most n (some m) = if leb m n then n else m

  -- SELECT MIN(key) WHERE p
  unfoldable pub lowest : (R → Bool) → List R → Option ℕ
  lowest p [] = none
  lowest p (x ∷ xs) = let m = lowest p xs in if p x then some (least (no x) m) else m

  -- SELECT MAX(key)
  unfoldable pub highest : List R → Option ℕ
  highest [] = none
  highest (x ∷ xs) = some (most (no x) (highest xs))

  -- The keys rise along the list, from above `b`.
  abbrev pub Above : ℕ → List R → Type 0
  Above b [] = Unit
  Above b (x ∷ xs) = (b < no x) × Above (no x) xs

  abbrev pub Within : ℕ → List R → Type 0
  Within n [] = Unit
  Within n (x ∷ xs) = (no x ≤ n) × Within n xs

  pub Above-mono : (a b : ℕ) (xs : List R) → a ≤ b → Above b xs → Above a xs
  Above-mono a b [] h v = tt
  Above-mono a b (x ∷ xs) h v = (omega arith, v.1)

  pub Within-mono : (m n : ℕ) (xs : List R) → m ≤ n → Within m xs → Within n xs
  Within-mono m n [] h w = tt
  Within-mono m n (x ∷ xs) h w = (omega arith, Within-mono m n xs h w.1)

  pub find_row-Above : (b k : ℕ) (xs : List R) → Above b xs → k ≤ b → find_row k xs ≡ none
  unfolding find_row
  find_row-Above b k [] v h = refl
  find_row-Above b k (x ∷ xs) v h = ground (arith, find_row-Above (no x) k xs v.1)

  pub find_row_key : (k : ℕ) (xs : List R) (r : R) → find_row k xs ≡ some r → no r ≡ k
  unfolding find_row
  find_row_key k [] r h = ground arith
  find_row_key k (x ∷ xs) r h = ground (arith, find_row_key k xs r)

  pub find_row-Within :
      (n k : ℕ) (xs : List R) (r : R) → Within n xs → find_row k xs ≡ some r → k ≤ n
  unfolding find_row
  find_row-Within n k [] r w h = ground arith
  find_row-Within n k (x ∷ xs) r w h = ground (arith, find_row-Within n k xs r w.1)

  pub find_row-beyond : (n k : ℕ) (xs : List R) → Within n xs → n < k → find_row k xs ≡ none
  unfolding find_row
  find_row-beyond n k [] w h = refl
  find_row-beyond n k (x ∷ xs) w h = ground (arith, find_row-beyond n k xs w.1)

  pub find_row_pos : (k b : ℕ) (xs : List R) (r : R) → Above b xs → find_row k xs ≡ some r → b < k
  unfolding find_row
  find_row_pos k b [] r v h = absurd (ground arith)
  find_row_pos k b (x ∷ xs) r v h = ground (arith, find_row_pos k (no x) xs r v.1)

  pub Above-All : (a b : ℕ) (xs : List R) → a ≤ b → Above b xs → All (λ x. a < no x) xs
  Above-All a b [] h v = tt
  Above-All a b (x ∷ xs) h v = (omega arith, Above-All a (no x) xs (omega arith) v.1)

  -- Distinct keys up to n leave room for n rows.
  pub length-le : (b n : ℕ) (xs : List R) → Above b xs → Within n xs → length xs ≤ n - b
  length-le b n [] v w = omega arith
  length-le b n (x ∷ xs) v w = omega (arith, length-le (no x) n xs v.1 w.1)

  pub highest-Within : (xs : List R) (m : ℕ) → highest xs ≡ some m → Within m xs
  unfolding highest
  highest-Within [] m h = tt
  highest-Within (x ∷ xs) m h = elim (Option-cases (highest xs)) [
    | inl e ↦ (ground arith, rest_of e)
    | inr (k, e) ↦ (ground arith, Within-mono k m xs (ground arith) (highest-Within xs k e))
  ]
    where
      rest_of : highest xs ≡ none → Within m xs
      rest_of e = empty_within xs e
        where
          empty_within : (ys : List R) → highest ys ≡ none → Within m ys
          empty_within [] q = tt
          empty_within (y ∷ ys) q = ground arith

  pub highest-none : (xs : List R) → highest xs ≡ none → xs ≡ []
  unfolding highest
  highest-none [] h = refl
  highest-none (x ∷ xs) h = ground arith

  pub highest-le : (n : ℕ) (xs : List R) (m : ℕ) → Within n xs → highest xs ≡ some m → m ≤ n
  unfolding highest
  highest-le n [] m w h = ground arith
  highest-le n (x ∷ xs) m w h = elim (Option-cases (highest xs)) [
    | inl e ↦ ground arith
    | inr (k, e) ↦ ground (arith, highest-le n xs k w.1 e)
  ]

  lowest-none :
      (p : R → Bool) (xs : List R) (k : ℕ) (r : R)
      → lowest p xs ≡ none
      → find_row k xs ≡ some r
      → p r ≡ false
  unfolding lowest find_row
  lowest-none p [] k r h f = absurd (ground arith)
  lowest-none p (x ∷ xs) k r h f = ground (arith, lowest-none p xs k r)

  lowest-Above :
      (p : R → Bool) (b : ℕ) (xs : List R) (n : ℕ) → Above b xs → lowest p xs ≡ some n → b < n
  unfolding lowest
  lowest-Above p b [] n v h = absurd (ground arith)
  lowest-Above p b (x ∷ xs) n v h = elim (Option-cases (lowest p xs)) [
    | inl e ↦ ground arith
    | inr (m, e) ↦ ground (arith, lowest-Above p (no x) xs m v.1 e)
  ]

  -- The lowest key that passes is the key of a row that passes.
  pub lowest-find_row :
      (p : R → Bool) (b : ℕ) (xs : List R) (n : ℕ)
      → Above b xs
      → lowest p xs ≡ some n
      → (r : R) × (find_row n xs ≡ some r) × (p r ≡ true)
  unfolding lowest find_row
  lowest-find_row p b [] n v h = absurd (ground arith)
  lowest-find_row p b (x ∷ xs) n v h = elim (Bool-cases (p x)) [
    | inl e ↦ (
      x,
      elim (Option-cases (lowest p xs)) [
        | inl q ↦ ground arith
        | inr (m, q) ↦ ground (arith, lowest-Above p (no x) xs m v.1 q)
      ],
      e,
    )
    | inr e ↦
        let q : lowest p xs ≡ some n = ground arith in
        let (r, f, t) = lowest-find_row p (no x) xs n v.1 q in
        (r, ground (arith, lowest-Above p (no x) xs n v.1 q), t)
  ]

  -- No row that passes has a lower key.
  pub lowest-le :
      (p : R → Bool) (xs : List R) (n k : ℕ) (r : R)
      → lowest p xs ≡ some n
      → find_row k xs ≡ some r
      → p r ≡ true
      → n ≤ k
  unfolding lowest find_row
  lowest-le p [] n k r h f t = absurd (ground arith)
  lowest-le p (x ∷ xs) n k r h f t = elim (Option-cases (lowest p xs)) [
    | inl e ↦ ground (arith, lowest-none p xs k r e)
    | inr (m, e) ↦ ground (arith, lowest-le p xs m k r e)
  ]

  pub insert_row-find_row :
      (r : R) (xs ys : List R) (k : ℕ)
      → insert_row r xs ≡ some ys
      → find_row k ys ≡ (if no r == k then some r else find_row k xs)
  unfolding insert_row find_row
  insert_row-find_row r [] ys k h = ground arith
  insert_row-find_row r (x ∷ xs) ys k h = elim (Option-cases (insert_row r xs)) [
    | inl e ↦ ground arith
    | inr (zs, e) ↦ ground (arith, insert_row-find_row r xs zs k e)
  ]

  pub insert_row-Above :
      (b : ℕ) (r : R) (xs ys : List R)
      → b < no r
      → Above b xs
      → insert_row r xs ≡ some ys
      → Above b ys
  unfolding insert_row
  insert_row-Above b r [] ys g v h = ground arith
  insert_row-Above b r (x ∷ xs) ys g v h = elim (Option-cases (insert_row r xs)) [
    | inl e ↦ ground arith
    | inr (zs, e) ↦ ground (arith, insert_row-Above (no x) r xs zs)
  ]

  pub insert_row-Within :
      (n : ℕ) (r : R) (xs ys : List R)
      → no r ≤ n
      → Within n xs
      → insert_row r xs ≡ some ys
      → Within n ys
  unfolding insert_row
  insert_row-Within n r [] ys g w h = ground arith
  insert_row-Within n r (x ∷ xs) ys g w h = elim (Option-cases (insert_row r xs)) [
    | inl e ↦ ground arith
    | inr (zs, e) ↦ ground (arith, insert_row-Within n r xs zs g w.1 e)
  ]

  -- A key above all others is free.
  pub insert_row_fresh :
      (n : ℕ) (r : R) (xs : List R) → Within n xs → n < no r → insert_row r xs ≡ some (xs ++ r ∷ [])
  unfolding insert_row
  insert_row_fresh n r [] w h = refl
  insert_row_fresh n r (x ∷ xs) w h = ground (arith, insert_row_fresh n r xs w.1 h)
