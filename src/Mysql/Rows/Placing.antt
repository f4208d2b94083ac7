-- ===== src/Mysql/Rows/Placing.antt =====
-- Giving out the numbers of a table, whose rows may be marked as dead: a dead row is written over,
-- or a row is added behind all others.
use bookshelfdq.Base.{
  ℕ, suc, ◌<◌, ◌≡◌, ap, sym, ◌∙◌, ◌⊎◌, inl, inr, Bool, true, false, none, some, List, ◌==◌,
  if◌then◌else◌, arith, Option-cases, ==_iff,
}
use bookshelfdq.Mysql.Rows.{
  find_row, insert_row, lowest, Above, Within, lowest-find_row, insert_row-find_row,
  insert_row-Above, insert_row-Within, find_row_pos, find_row-beyond, find_row_key,
}
use bookshelfdq.Mysql.Rows.Update.{
  update_rows, changed_rows, update_rows-find_row, update_rows-Above, update_rows-Within,
  changed_one,
}

module _ {ℓ} {R : Type ℓ} (no : R → ℕ) (limit : ℕ) (dead : R → Bool) where
  -- The numbers are distinct, positive and within the limit.
  pub record IsKeyed (rows : List R) : Type ℓ where
    pub rising : Above no 0 rows
    pub within : Within no limit rows

  -- The row x stands in `rows'`, under a number that no live row had; all others are as they were.
  pub record Stands (x : R) (rows rows' : List R) : Type ℓ where
    pub keyed : IsKeyed rows'
    pub positive : 0 < no x
    pub free :
        (find_row no (no x) rows ≡ none)
        ⊎ ((r : R) × (find_row no (no x) rows ≡ some r) × (dead r ≡ true))
    pub found : (k : ℕ) → find_row no k rows' ≡ (if no x == k then some x else find_row no k rows)

  pub inserted-Stands :
      (n : ℕ) (x : R) (rows rows' : List R)
      → IsKeyed rows
      → Within no n rows
      → n < limit
      → no x ≡ suc n
      → insert_row no x rows ≡ some rows'
      → Stands x rows rows'
  inserted-Stands n x rows rows' v w room at h = record {
    keyed = record {
      rising = insert_row-Above no 0 x rows rows' (omega arith) v.rising h;
      within = insert_row-Within no limit x rows rows' (omega arith) v.within h;
    };
    positive = omega arith;
    free = inl (find_row-beyond no n (no x) rows w (omega arith));
    found = λ k. insert_row-find_row no x rows rows' k h;
  }

  -- UPDATE ... WHERE key = n with an assignment f that brings a dead row n to life.
  module _ (p : R → Bool) (f : R → R) (n : ℕ) (x : R) (at : no x ≡ n)
      (picks : (r : R) → p r ≡ (no r == n)) (keeps : (r : R) → no (f r) ≡ no r)
      (writes : (r : R) → no r ≡ n → f r ≡ x) (lives : dead x ≡ false) (rows : List R)
      (v : IsKeyed rows) (low : lowest no dead rows ≡ some n) where
    overwritten-find_row :
        (r : R)
        → find_row no n rows ≡ some r
        → (k : ℕ)
        → find_row no k (update_rows p f rows) ≡ (if no x == k then some x else find_row no k rows)
    overwritten-find_row r h k = elim (Option-cases (find_row no k rows)) [
      | inl q ↦ ground (arith, update_rows-find_row p f no keeps k rows, q, h, at)
      | inr (y, q) ↦ ground (
        arith,
        update_rows-find_row p f no keeps k rows,
        q,
        at,
        picks y,
        writes y,
        find_row_key no k rows y q,
      )
    ]

    pub overwritten-Stands : Stands x rows (update_rows p f rows)
    overwritten-Stands =
        let (r, h, t) = lowest-find_row no dead 0 rows n v.rising low in
        record {
          keyed = record {
            rising = update_rows-Above p f no keeps 0 rows v.rising;
            within = update_rows-Within p f no keeps limit rows v.within;
          };
          positive = rw at (find_row_pos no n 0 rows r v.rising h);
          free = inr (r, rw at h, t);
          found = overwritten-find_row r h;
        }

    pub overwrites_one : (d : Discrete R) → changed_rows p f d rows ≡ 1
    overwrites_one d =
        let (r, h, t) = lowest-find_row no dead 0 rows n v.rising low in
        let key = find_row_key no n rows r h in
        changed_one no p f d n 0 rows r (λ y q. (==_iff _ _).0 (sym (picks y) ∙ q)) v.rising h
          (ground (arith, picks r, key)) (λ q. ground (arith, ap dead q, ap dead (writes r key)))
