-- ===== src/Clidb/Shelves.antt =====
-- The cached shelves as a map from numbers to entries.
use bookshelfdq.Base.{
  ℕ, zero, suc, ◌≤◌, ◌<◌, ◌≡◌, refl, ap, ◌∙◌, inl, inr, ◌⊎◌, Bool, true, false, Option, none, some,
  List, [], ◌∷◌, ltb, ◌==◌, if◌then◌else◌, get_or, set, length, text_eq_refl, arith, Option-cases,
  Bool-cases,
}
use bookshelfdq.Clisrv.{max_shelf_num, ShelfEntry}
use bookshelfdq.Clidb.Gdbm.{
  Key, shelf_key, record_key, same_key, Value, shelf_value, record_value, Dbm, IsDbm,
}
use bookshelfdq.Clidb.{
  number, as_shelf, mark, shelf_insert_mode, shelf_sync_mode, state_of, mode_mark, InsertMode,
  Cache, shelf_record_save, clidb_shelf_real_insert, clidb_shelf_delete, clidb_shelf_get,
  clidb_shelf_exists,
}

pub state-mark :
    (n k v : ℕ) (r : List ℕ)
    → 0 < n
    → n ≤ length r
    → state_of k (mark n v r) ≡ (if n == k then v else state_of k r)
unfolding state_of mark
state-mark zero k v r p h = absurd (omega arith)
state-mark (suc i) zero v r p h = ground arith
state-mark (suc i) (suc k) v r p h = ground (arith, written i k r (omega arith))
  where
    written :
        (i k : ℕ) (r : List ℕ)
        → i < length r
        → get_or (set r i v) k 0 ≡ (if i == k then v else get_or r k 0)
    written i k [] q = absurd (omega arith)
    written zero zero (x ∷ xs) q = ground arith
    written zero (suc k) (x ∷ xs) q = ground arith
    written (suc i) zero (x ∷ xs) q = ground arith
    written (suc i) (suc k) (x ∷ xs) q = ground (arith, written i k xs (omega arith))

mode_mark-positive : (mode : InsertMode) → ltb 0 (mode_mark mode) ≡ true
mode_mark-positive shelf_insert_mode = refl
mode_mark-positive shelf_sync_mode = refl

module _ (m : Dbm) (h : IsDbm m) where
  -- The entry of an existing shelf.
  abbrev pub view : Cache m → ℕ → Option ShelfEntry
  view s k = if clidb_shelf_exists m k s then clidb_shelf_get m k s else none

  -- What is read of the file does not depend on the record that is stored in it.
  save-get :
      (k : ℕ) (s : Cache m) → clidb_shelf_get m k (shelf_record_save m s).1 ≡ clidb_shelf_get m k s
  unfolding clidb_shelf_get shelf_record_save same_key
  save-get k s = elim (Option-cases s.shelf_dbm_ptr) [
    | inl e ↦ ground arith
    | inr (f, e) ↦ elim (h.stores f (record_key s.current_user) (record_value s.shelf_record)) [
      | inl (ok, after) ↦ ground (arith, after (shelf_key s.current_user k))
      | inr (ok, after) ↦ ground (arith, after (shelf_key s.current_user k))
    ]
  ]

  pub save-record : (s : Cache m) → (shelf_record_save m s).1.shelf_record ≡ s.shelf_record
  unfolding shelf_record_save
  save-record s = ground arith

  pub save-view : (k : ℕ) (s : Cache m) → view (shelf_record_save m s).1 k ≡ view s k
  unfolding clidb_shelf_exists
  save-view k s = rw (save-record s, save-get k s) refl

  -- A change of the map: `s1` shows g, or nothing has changed and 0 is returned.
  abbrev pub Shows : Cache m → (ℕ → Option ShelfEntry) → Bool × Cache m → Type 0
  Shows s g r = ((k : ℕ) → view r.1 k ≡ g k) ⊎ ((r.0 ≡ false) × ((k : ℕ) → view r.1 k ≡ view s k))

  module _ (s : Cache m) (full : length s.shelf_record ≡ max_shelf_num) where
    -- The state after the call on the file f1 has succeeded.
    abbrev marked : m.File → ℕ → ℕ → Cache m
    marked f1 n v = record s { shelf_dbm_ptr = some f1; shelf_record = mark n v s.shelf_record }

    exists-marked :
        (f1 : m.File) (n v k : ℕ)
        → 0 < n
        → n ≤ max_shelf_num
        → clidb_shelf_exists m k (marked f1 n v)
          ≡ (if n == k then ltb 0 v else clidb_shelf_exists m k s)
    unfolding clidb_shelf_exists
    exists-marked f1 n v k low high =
        ground (arith, state-mark n k v s.shelf_record low (rw full high))

    get-marked :
        (f1 : m.File) (n v k : ℕ)
        → clidb_shelf_get m k (marked f1 n v) ≡ as_shelf (m.fetch f1 (shelf_key s.current_user k))
    unfolding clidb_shelf_get
    get-marked f1 n v k = refl

    get-open :
        (f : m.File) (k : ℕ)
        → s.shelf_dbm_ptr ≡ some f
        → clidb_shelf_get m k s ≡ as_shelf (m.fetch f (shelf_key s.current_user k))
    unfolding clidb_shelf_get
    get-open f k held = ground arith

    -- A file that reads as the old one but for the shelf n.
    marked-view :
        (f f1 : m.File) (n v : ℕ) (x : Option Value)
        → s.shelf_dbm_ptr ≡ some f
        → 0 < n
        → n ≤ max_shelf_num
        → ((q : Key)
            → m.fetch f1 q ≡ (if same_key (shelf_key s.current_user n) q then x else m.fetch f q))
        → (k : ℕ)
        → view (marked f1 n v) k
          ≡ (if n == k then (if ltb 0 v then as_shelf x else none) else view s k)
    unfolding same_key
    marked-view f f1 n v x held low high after k =
        rw
          (
            exists-marked f1 n v k low high,
            get-marked f1 n v k,
            after (shelf_key s.current_user k),
            text_eq_refl s.current_user,
            get-open f k held,
          )
          (elim (Bool-cases (n == k)) [ inl q ↦ ground arith | inr q ↦ ground arith ])

    -- A call that failed, whatever file it left.
    unmarked-view :
        (f f1 : m.File)
        → s.shelf_dbm_ptr ≡ some f
        → ((q : Key) → m.fetch f1 q ≡ m.fetch f q)
        → (k : ℕ) → view (record s { shelf_dbm_ptr = some f1 }) k ≡ view s k
    unfolding clidb_shelf_get clidb_shelf_exists
    unmarked-view f f1 held after k = ground (arith, after (shelf_key s.current_user k))

    -- Inserting or synchronising a shelf of a number within 1 .. MAX_SHELF_NUM maps its number to
    -- the entry and leaves all other numbers alone; or it returns 0 and leaves the whole map alone.
    pub shelf_real_insert-Shows :
        (e : ShelfEntry) (mode : InsertMode)
        → 0 < number e.code
        → number e.code ≤ max_shelf_num
        → Shows s
            (λ k. if number e.code == k then some e else view s k)
            (clidb_shelf_real_insert m e mode s)
    unfolding clidb_shelf_real_insert
    shelf_real_insert-Shows e mode low high = elim (Option-cases s.shelf_dbm_ptr) [
      | inl shut ↦ inr (ground arith, λ k. ground arith)
      | inr (f, held) ↦
          let n = number e.code in
          let q = shelf_key s.current_user n in
          let f1 = (m.store f q (shelf_value e)).1 in
          elim (h.stores f q (shelf_value e)) [
            | inl (ok, after) ↦
                let s2 = marked f1 n (mode_mark mode) in
                let goes : clidb_shelf_real_insert m e mode s ≡ shelf_record_save m s2 =
                  ground (arith, held, ok) in
                inl (λ k.
                  ap (λ (r : Bool × Cache m). view r.1 k) goes
                  ∙ save-view k s2
                  ∙ marked-view f f1 n (mode_mark mode) (some (shelf_value e)) held low high after k
                  ∙ ap (λ (b : Bool). if n == k then (if b then some e else none) else view s k)
                      (mode_mark-positive mode))
            | inr (ok, after) ↦
                let goes : clidb_shelf_real_insert m e mode s
                    ≡ (false, record s { shelf_dbm_ptr = some f1 }) =
                  ground (arith, held, ok) in
                inr (
                  ap (λ (r : Bool × Cache m). r.0) goes,
                  λ k.
                      ap (λ (r : Bool × Cache m). view r.1 k) goes
                      ∙ unmarked-view f f1 held after k,
                )
          ]
    ]

    -- Deleting a shelf of a number within 1 .. MAX_SHELF_NUM takes that number out of the map and
    -- leaves all others alone; or it returns 0 and leaves the whole map alone.
    pub shelf_delete-Shows :
        (n : ℕ)
        → 0 < n
        → n ≤ max_shelf_num
        → Shows s (λ k. if n == k then none else view s k) (clidb_shelf_delete m n s)
    unfolding clidb_shelf_delete
    shelf_delete-Shows n low high = elim (Option-cases s.shelf_dbm_ptr) [
      | inl shut ↦ inr (ground arith, λ k. ground arith)
      | inr (f, held) ↦
          let q = shelf_key s.current_user n in
          let f1 = (m.delete f q).1 in
          elim (h.deletes f q) [
            | inl (ok, after) ↦
                let s2 = marked f1 n 0 in
                let goes : clidb_shelf_delete m n s ≡ shelf_record_save m s2 =
                  ground (arith, held, ok) in
                inl (λ k.
                  ap (λ (r : Bool × Cache m). view r.1 k) goes
                  ∙ save-view k s2
                  ∙ marked-view f f1 n 0 none held low high after k)
            | inr (ok, after) ↦
                let goes : clidb_shelf_delete m n s
                    ≡ (false, record s { shelf_dbm_ptr = some f1 }) =
                  ground (arith, held, ok) in
                inr (
                  ap (λ (r : Bool × Cache m). r.0) goes,
                  λ k.
                      ap (λ (r : Bool × Cache m). view r.1 k) goes
                      ∙ unmarked-view f f1 held after k,
                )
          ]
    ]
