-- ===== src/Clishell/Sync/Mirror.antt =====
-- The cached shelves as two functions of the number: the entry that is shown and the state of the
-- record. What clidb_shelf_synchronize, clidb_shelf_delete and the sort do to them, on a dbm that
-- does what it is asked.
use bookshelfdq.Base.{
  ℕ, zero, suc, ◌≤◌, ◌<◌, ◌≡◌, refl, sym, ap, subst, ◌∙◌, inl, inr, Bool, true, Option, none, some,
  List, [], ◌∷◌, ◌==◌, if◌then◌else◌, set, length, map, arith, All, Option-cases, Bool-cases,
}
use bookshelfdq.Clisrv.{max_shelf_num, ShelfEntry}
use bookshelfdq.Clidb.Gdbm.{
  Key, Value, shelf_key, record_key, shelf_value, record_value, Dbm, IsDbm,
}
use bookshelfdq.Clidb.{
  number, mark, state_of, finish_sync, Cache, shelf_sync_mode, shelf_record_save, clidb_shelf_get,
  clidb_shelf_exists, clidb_shelf_real_insert, clidb_shelf_synchronize, clidb_shelf_delete,
  clidb_shelf_record_sort,
}
use bookshelfdq.Clidb.Shelves.{view, state-mark, shelf_real_insert-Shows, shelf_delete-Shows}
use bookshelfdq.Clidb.Restart.{shelf_record_sort-states}

-- A store succeeds, and so does a delete of a key that is there; what is deleted without being there
-- is left open (gdbm returns -1).
pub record IsWilling (g : Dbm) : Type 0 where
  pub stored : (f : g.File) (k : Key) (v : Value) → (g.store f k v).0 ≡ true
  pub deleted : (f : g.File) (k : Key) (v : Value) → g.fetch f k ≡ some v → (g.delete f k).0 ≡ true

length-mark : (n v : ℕ) (r : List ℕ) → length (mark n v r) ≡ length r
unfolding mark
length-mark zero v r = refl
length-mark (suc i) v r = length-set i v r
  where
    length-set : (i v : ℕ) (r : List ℕ) → length (set r i v) ≡ length r
    length-set i v [] = refl
    length-set zero v (x ∷ r) = refl
    length-set (suc i) v (x ∷ r) = ap suc (length-set i v r)

small_members : (r : List ℕ) → ((i : ℕ) → state_of (suc i) r ≤ 2) → All (λ v. v ≤ 2) r
unfolding state_of
small_members [] h = tt
small_members (x ∷ r) h = (h 0, small_members r (λ i. h (suc i)))

module _ (g : Dbm) (h : IsDbm g) (w : IsWilling g) where
  pub record Mirror (shown : ℕ → Option ShelfEntry) (state : ℕ → ℕ) (s : Cache g) : Type 0 where
    pub full : length s.shelf_record ≡ max_shelf_num
    pub file : g.File
    pub open_ : s.shelf_dbm_ptr ≡ some file
    pub shows : (k : ℕ) → view g h s k ≡ shown k
    pub states : (k : ℕ) → state_of k s.shelf_record ≡ state k

  -- What a save leaves of an open cache.
  save_goes :
      (s : Cache g) (f : g.File)
      → s.shelf_dbm_ptr ≡ some f
      → shelf_record_save g s ≡ (
        true,
        record s {
          shelf_dbm_ptr =
              some (g.store f (record_key s.current_user) (record_value s.shelf_record)).1;
        },
      )
  unfolding shelf_record_save
  save_goes s f held =
      ground (arith, held, w.stored f (record_key s.current_user) (record_value s.shelf_record))

  synchronize_goes :
      (e : ShelfEntry) (s : Cache g) (f : g.File)
      → s.shelf_dbm_ptr ≡ some f
      → (f2 : g.File) × (clidb_shelf_synchronize g e s ≡ (
        true,
        record s { shelf_dbm_ptr = some f2; shelf_record = mark (number e.code) 2 s.shelf_record },
      ))
  unfolding clidb_shelf_synchronize clidb_shelf_real_insert
  synchronize_goes e s f held =
      let q = shelf_key s.current_user (number e.code) in
      let f1 = (g.store f q (shelf_value e)).1 in
      let s1 = record s {
        shelf_dbm_ptr = some f1;
        shelf_record = mark (number e.code) 2 s.shelf_record;
      } in
      (
        (g.store f1 (record_key s1.current_user) (record_value s1.shelf_record)).1,
        ground (arith, held, w.stored f q (shelf_value e), save_goes s1 f1 refl),
      )

  synchronized_view :
      (e : ShelfEntry) (s : Cache g)
      → length s.shelf_record ≡ max_shelf_num
      → 0 < number e.code
      → number e.code ≤ max_shelf_num
      → (s2 : Cache g) → clidb_shelf_synchronize g e s ≡ (true, s2)
      → (k : ℕ) → view g h s2 k ≡ (if number e.code == k then some e else view g h s k)
  unfolding clidb_shelf_synchronize
  synchronized_view e s full low high s2 goes k =
      elim (shelf_real_insert-Shows g h s full e shelf_sync_mode low high) [
        | inl shown ↦ ap (λ (r : Bool × Cache g). view g h r.1 k) (sym goes) ∙ shown k
        | inr (failed, same) ↦
            absurd (ground (arith, ap (λ (r : Bool × Cache g). r.0) goes, failed))
      ]

  pub synchronize-Mirror :
      (e : ShelfEntry) (s : Cache g) (shown : ℕ → Option ShelfEntry) (state : ℕ → ℕ)
      → 0 < number e.code
      → number e.code ≤ max_shelf_num
      → Mirror shown state s
      → ((clidb_shelf_synchronize g e s).0 ≡ true)
        × Mirror
            (λ k. if number e.code == k then some e else shown k)
            (λ k. if number e.code == k then 2 else state k)
            (clidb_shelf_synchronize g e s).1
  synchronize-Mirror e s shown state low high t =
      let (f2, goes) = synchronize_goes e s t.file t.open_ in
      let n = number e.code in
      let s2 = record s { shelf_dbm_ptr = some f2; shelf_record = mark n 2 s.shelf_record } in
      let seen = synchronized_view e s t.full low high s2 goes in
      (
        ap (λ (r : Bool × Cache g). r.0) goes,
        subst
            (λ (r : Bool × Cache g).
              Mirror (λ k. if n == k then some e else shown k) (λ k. if n == k then 2 else state k)
                r.1)
            (sym goes)
            (record {
              full = length-mark n 2 s.shelf_record ∙ t.full;
              file = f2;
              open_ = refl;
              shows = λ k.
                  seen k ∙ ap (λ (x : Option ShelfEntry). if n == k then some e else x) (t.shows k);
              states = λ k.
                  state-mark n k 2 s.shelf_record low (rw t.full high)
                  ∙ ap (λ (x : ℕ). if n == k then 2 else x) (t.states k);
            }),
      )

  -- A shelf that is shown has its entry in the file.
  view-fetch :
      (n : ℕ) (s : Cache g) (f : g.File) (e : ShelfEntry)
      → s.shelf_dbm_ptr ≡ some f
      → view g h s n ≡ some e
      → (v : Value) × (g.fetch f (shelf_key s.current_user n) ≡ some v)
  unfolding clidb_shelf_get
  view-fetch n s f e held seen = elim (Bool-cases (clidb_shelf_exists g n s)) [
    | inr hidden ↦ absurd (ground (arith, seen, hidden))
    | inl shown ↦ elim (Option-cases (g.fetch f (shelf_key s.current_user n))) [
      | inl gone ↦ absurd (ground (arith, held, seen, shown, gone))
      | inr (v, there) ↦ (v, there)
    ]
  ]

  delete_goes :
      (n : ℕ) (s : Cache g) (f : g.File) (e : ShelfEntry)
      → s.shelf_dbm_ptr ≡ some f
      → view g h s n ≡ some e
      → (f2 : g.File) × (clidb_shelf_delete g n s
          ≡ (true, record s { shelf_dbm_ptr = some f2; shelf_record = mark n 0 s.shelf_record }))
  unfolding clidb_shelf_delete
  delete_goes n s f e held seen =
      let (v, there) = view-fetch n s f e held seen in
      let q = shelf_key s.current_user n in
      let f1 = (g.delete f q).1 in
      let s1 = record s { shelf_dbm_ptr = some f1; shelf_record = mark n 0 s.shelf_record } in
      (
        (g.store f1 (record_key s1.current_user) (record_value s1.shelf_record)).1,
        ground (arith, held, w.deleted f q v there, save_goes s1 f1 refl),
      )

  deleted_view :
      (n : ℕ) (s : Cache g)
      → length s.shelf_record ≡ max_shelf_num
      → 0 < n
      → n ≤ max_shelf_num
      → (s2 : Cache g) → clidb_shelf_delete g n s ≡ (true, s2)
      → (k : ℕ) → view g h s2 k ≡ (if n == k then none else view g h s k)
  deleted_view n s full low high s2 goes k = elim (shelf_delete-Shows g h s full n low high) [
    | inl shown ↦ ap (λ (r : Bool × Cache g). view g h r.1 k) (sym goes) ∙ shown k
    | inr (failed, same) ↦ absurd (ground (arith, ap (λ (r : Bool × Cache g). r.0) goes, failed))
  ]

  pub delete-Mirror :
      (n : ℕ) (s : Cache g) (e : ShelfEntry) (shown : ℕ → Option ShelfEntry) (state : ℕ → ℕ)
      → 0 < n
      → n ≤ max_shelf_num
      → shown n ≡ some e
      → Mirror shown state s
      → ((clidb_shelf_delete g n s).0 ≡ true)
        × Mirror
            (λ k. if n == k then none else shown k)
            (λ k. if n == k then 0 else state k)
            (clidb_shelf_delete g n s).1
  delete-Mirror n s e shown state low high there t =
      let (f2, goes) = delete_goes n s t.file e t.open_ (t.shows n ∙ there) in
      let s2 = record s { shelf_dbm_ptr = some f2; shelf_record = mark n 0 s.shelf_record } in
      let seen = deleted_view n s t.full low high s2 goes in
      (
        ap (λ (r : Bool × Cache g). r.0) goes,
        subst
            (λ (r : Bool × Cache g).
              Mirror (λ k. if n == k then none else shown k) (λ k. if n == k then 0 else state k)
                r.1)
            (sym goes)
            (record {
              full = length-mark n 0 s.shelf_record ∙ t.full;
              file = f2;
              open_ = refl;
              shows = λ k.
                  seen k ∙ ap (λ (x : Option ShelfEntry). if n == k then none else x) (t.shows k);
              states = λ k.
                  state-mark n k 0 s.shelf_record low (rw t.full high)
                  ∙ ap (λ (x : ℕ). if n == k then 0 else x) (t.states k);
            }),
      )

  -- The sort succeeds and changes no entry, where no state is above 2.
  pub sort-Mirror :
      (s : Cache g) (shown : ℕ → Option ShelfEntry) (state : ℕ → ℕ)
      → ((k : ℕ) → state k ≤ 2)
      → Mirror shown state s
      → ((clidb_shelf_record_sort g s).0 ≡ true)
        × ((k : ℕ) → view g h (clidb_shelf_record_sort g s).1 k ≡ shown k)
  unfolding clidb_shelf_record_sort
  sort-Mirror s shown state small t = (
    ap (λ (r : Bool × Cache g). r.0)
        (save_goes (record s { shelf_record = map finish_sync s.shelf_record }) t.file t.open_),
    λ k.
        (shelf_record_sort-states g h s k (
          small_members s.shelf_record
            (λ i. subst (λ (x : ℕ). x ≤ 2) (sym (t.states (suc i))) (small (suc i))))).1
        ∙ t.shows k,
  )
