-- ===== src/Clidb/Restart.antt =====
-- The record of shelves is kept in the file: the next log-in of the user finds the same map, and a
-- user without a record inherits the one in memory.
use bookshelfdq.Base.{
  ℕ, zero, suc, ◌≤◌, ◌<◌, ◌≡◌, refl, sym, ap, subst, ◌∙◌, inl, inr, Bool, true, none, some, List,
  [], ◌∷◌, ◌==◌, if◌then◌else◌, get_or, map, length, Text, text_eq_refl, arith, Option-cases,
  Bool-cases, All,
}
use bookshelfdq.Clisrv.{max_shelf_num, ShelfEntry}
use bookshelfdq.Clidb.Gdbm.{shelf_key, record_key, same_key, shelf_value, record_value, Dbm, IsDbm}
use bookshelfdq.Clidb.{
  number, mark, state_of, finish_sync, mode_mark, InsertMode, Cache, shelf_record_save,
  shelf_record_obtain, clidb_init, clidb_shelf_real_insert, clidb_shelf_get, clidb_shelf_exists,
  clidb_shelf_not_syncs, clidb_shelf_record_sort,
}
use bookshelfdq.Clidb.Shelves.{view, save-view, save-record, shelf_real_insert-Shows}

state-finish_sync :
    (k : ℕ) (r : List ℕ) → state_of k (map finish_sync r) ≡ finish_sync (state_of k r)
unfolding state_of finish_sync
state-finish_sync zero r = refl
state-finish_sync (suc i) r = finished i r
  where
    finished : (i : ℕ) (r : List ℕ) → get_or (map finish_sync r) i 0 ≡ finish_sync (get_or r i 0)
    finished i [] = refl
    finished zero (x ∷ xs) = refl
    finished (suc i) (x ∷ xs) = finished i xs

state_le : (k : ℕ) (r : List ℕ) → All (λ v. v ≤ 2) r → state_of k r ≤ 2
unfolding state_of
state_le zero r h = omega arith
state_le (suc i) r h = bounded i r h
  where
    bounded : (i : ℕ) (r : List ℕ) → All (λ v. v ≤ 2) r → get_or r i 0 ≤ 2
    bounded i [] h = omega arith
    bounded zero (x ∷ xs) h = h.0
    bounded (suc i) (x ∷ xs) h = bounded i xs h.1

module _ (m : Dbm) where
  -- The file is open and holds the record of its user.
  pub record IsSaved (s : Cache m) : Type 0 where
    pub file : m.File
    pub open_ : s.shelf_dbm_ptr ≡ some file
    pub kept : m.fetch file (record_key s.current_user) ≡ some (record_value s.shelf_record)

-- The next session of the user, with the same file and whatever else was in memory.
abbrev pub restart : (m : Dbm) → Cache m → m.File → Cache m → Cache m
restart m s books s0 = (clidb_init m true s.shelf_dbm_ptr (some books) s.current_user s0).1

module _ (m : Dbm) (h : IsDbm m) where
  save-IsSaved :
      (s : Cache m) → (shelf_record_save m s).0 ≡ true → IsSaved m (shelf_record_save m s).1
  unfolding shelf_record_save same_key
  save-IsSaved s ok = elim (Option-cases s.shelf_dbm_ptr) [
    | inl e ↦ absurd (ground arith)
    | inr (f, e) ↦ elim (h.stores f (record_key s.current_user) (record_value s.shelf_record)) [
      | inl (done, after) ↦ record {
        file = (m.store f (record_key s.current_user) (record_value s.shelf_record)).1;
        open_ = ground arith;
        kept = ground (arith, after (record_key s.current_user), text_eq_refl s.current_user);
      }
      | inr (failed, after) ↦ absurd (ground arith)
    ]
  ]

  insert-IsSaved :
      (e : ShelfEntry) (mode : InsertMode) (s : Cache m)
      → (clidb_shelf_real_insert m e mode s).0 ≡ true
      → IsSaved m (clidb_shelf_real_insert m e mode s).1
  unfolding clidb_shelf_real_insert
  insert-IsSaved e mode s ok = elim (Option-cases s.shelf_dbm_ptr) [
    | inl shut ↦ absurd (ground arith)
    | inr (f, held) ↦
        let (stored, f1) = m.store f (shelf_key s.current_user (number e.code)) (shelf_value e) in
        elim (Bool-cases stored) [
          | inl done ↦
              let s2 = record s {
                shelf_dbm_ptr = some f1;
                shelf_record = mark (number e.code) (mode_mark mode) s.shelf_record;
              } in
              let goes : clidb_shelf_real_insert m e mode s ≡ shelf_record_save m s2 =
                ground (arith, held, done) in
              subst (λ (r : Bool × Cache m). IsSaved m r.1) (sym goes)
                (save-IsSaved s2 (sym (ap (λ (r : Bool × Cache m). r.0) goes) ∙ ok))
          | inr failed ↦ absurd (ground arith)
        ]
  ]

  view-restart :
      (s s0 : Cache m) (books : m.File) (k : ℕ)
      → IsSaved m s
      → view m h (restart m s books s0) k ≡ view m h s k
  unfolding clidb_init shelf_record_obtain clidb_shelf_get clidb_shelf_exists
  view-restart s s0 books k v = ground (arith, v.open_, v.kept)

  -- After a shelf was inserted or synchronised with success, the next log-in of the user finds it
  -- under its number, and every other shelf as it was.
  pub shelf_real_insert-restart :
      (e : ShelfEntry) (mode : InsertMode) (s s0 : Cache m) (books : m.File)
      → length s.shelf_record ≡ max_shelf_num
      → 0 < number e.code
      → number e.code ≤ max_shelf_num
      → (clidb_shelf_real_insert m e mode s).0 ≡ true
      → (k : ℕ)
      → view m h (restart m (clidb_shelf_real_insert m e mode s).1 books s0) k
        ≡ (if number e.code == k then some e else view m h s k)
  shelf_real_insert-restart e mode s s0 books full low high ok k =
      view-restart (clidb_shelf_real_insert m e mode s).1 s0 books k (insert-IsSaved e mode s ok)
      ∙ elim (shelf_real_insert-Shows m h s full e mode low high) [
        | inl shown ↦ shown k
        | inr (failed, kept) ↦ absurd (ground arith)
      ]

  -- A shelf is not_syncs after the sort exactly if it existed before, and the sort changes no
  -- entry of the map, where the records are 0, 1 and 2.
  pub shelf_record_sort-states :
      (s : Cache m) (k : ℕ)
      → All (λ v. v ≤ 2) s.shelf_record
      → (clidb_shelf_not_syncs m k (clidb_shelf_record_sort m s).1 ≡ clidb_shelf_exists m k s)
        × (view m h (clidb_shelf_record_sort m s).1 k ≡ view m h s k)
  unfolding clidb_shelf_record_sort clidb_shelf_not_syncs clidb_shelf_exists clidb_shelf_get
      finish_sync
  shelf_record_sort-states s k small =
      let s1 = record s { shelf_record = map finish_sync s.shelf_record } in
      let at = state-finish_sync k s.shelf_record in
      let two = state_le k s.shelf_record small in
      (rw (save-record m h s1, at) (ground arith), save-view m h k s1 ∙ rw at (ground arith))

  -- Where no record is stored for the user who logs in, the record that was in memory is kept, the
  -- one of another user included, and stored as that user's.
  pub clidb_init-inherits :
      (user : Text) (f books : m.File) (s : Cache m)
      → m.fetch f (record_key user) ≡ none
      → ((clidb_init m true (some f) (some books) user s).1.shelf_record ≡ s.shelf_record)
        × ((clidb_init m true (some f) (some books) user s).1.current_user ≡ user)
  unfolding clidb_init shelf_record_obtain shelf_record_save
  clidb_init-inherits user f books s unknown = (ground (arith, unknown), ground (arith, unknown))
