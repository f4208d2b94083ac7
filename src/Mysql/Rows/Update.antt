-- ===== src/Mysql/Rows/Update.antt =====
-- UPDATE on a table with a numeric key: what it does to the rows, and how many it changes.
use mathlib.Core.Option
use bookshelfdq.Base.{
  ℕ, ◌+◌, ◌≡◌, refl, List, [], ◌∷◌, Bool, true, ◌==◌, ◌≤◌, ◌≢◌, if◌then◌else◌, ite, if_neg, some,
  arith, inl, inr, Bool-cases,
}
use bookshelfdq.Mysql.Rows.{find_row, Above, Within}

-- UPDATE ... WHERE p, for an assignment that leaves the key alone.
module _ {ℓ} {R : Type ℓ} (p : R → Bool) (f : R → R) where
  unfoldable pub update_rows : List R → List R
  update_rows [] = []
  update_rows (x ∷ xs) = (if p x then f x else x) ∷ update_rows xs

  -- mysql_affected_rows counts the rows that the assignment really changes.
  unfoldable pub changed_rows : Discrete R → List R → ℕ
  changed_rows d [] = 0
  changed_rows d (x ∷ xs) = (if p x then ite (d (f x) x) 0 1 else 0) + changed_rows d xs

  module _ (no : R → ℕ) (same : (r : R) → no (f r) ≡ no r) where
    pub update_rows-find_row :
        (k : ℕ) (xs : List R)
        → find_row no k (update_rows xs)
          ≡ Option.map (λ r. if p r then f r else r) (find_row no k xs)
    unfolding update_rows find_row
    update_rows-find_row k [] = refl
    update_rows-find_row k (x ∷ xs) = ground (arith, same x, update_rows-find_row k xs)

    updated_key : (r : R) → no (if p r then f r else r) ≡ no r
    updated_key r = ground (arith, same r)

    pub update_rows-Above : (b : ℕ) (xs : List R) → Above no b xs → Above no b (update_rows xs)
    unfolding update_rows
    update_rows-Above b [] v = tt
    update_rows-Above b (x ∷ xs) v = rw (updated_key x) (v.0, update_rows-Above (no x) xs v.1)

    pub update_rows-Within : (n : ℕ) (xs : List R) → Within no n xs → Within no n (update_rows xs)
    unfolding update_rows
    update_rows-Within n [] w = tt
    update_rows-Within n (x ∷ xs) w = (ground (arith, same x), update_rows-Within n xs w.1)

-- An UPDATE of one row by its key, where it changes that row.
module _ {ℓ} {R : Type ℓ} (no : R → ℕ) (p : R → Bool) (f : R → R) (d : Discrete R) where
  counted_once : (r : R) → f r ≢ r → ◌≡◌ {A = ℕ} (ite (d (f r) r) 0 1) 1
  counted_once r c = if_neg (d (f r) r) c 0 1

  changed_none :
      (n b : ℕ) (xs : List R)
      → ((r : R) → p r ≡ true → no r ≡ n)
      → Above no b xs
      → n ≤ b
      → changed_rows p f d xs ≡ 0
  unfolding changed_rows
  changed_none n b [] only v h = refl
  changed_none n b (x ∷ xs) only v h = elim (Bool-cases (p x)) [
    | inl e ↦ absurd (omega (arith, only x e))
    | inr e ↦ ground (arith, changed_none n (no x) xs only v.1)
  ]

  pub changed_one :
      (n b : ℕ) (xs : List R) (r : R)
      → ((x : R) → p x ≡ true → no x ≡ n)
      → Above no b xs
      → find_row no n xs ≡ some r
      → p r ≡ true
      → f r ≢ r
      → changed_rows p f d xs ≡ 1
  unfolding changed_rows find_row
  changed_one n b [] r only v h t c = absurd (ground arith)
  changed_one n b (x ∷ xs) r only v h t c = elim (Bool-cases (no x == n)) [
    | inl e ↦
        let same : x ≡ r = ground arith in
        let rest : changed_rows p f d xs ≡ 0 = changed_none n (no x) xs only v.1 (ground arith) in
        rw (same, t, counted_once r c) (omega (arith, rest))
    | inr e ↦ elim (Bool-cases (p x)) [
      | inl q ↦ absurd (ground (arith, only x q))
      | inr q ↦ ground (arith, changed_one n (no x) xs r only v.1)
    ]
  ]
