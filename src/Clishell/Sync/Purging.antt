-- ===== src/Clishell/Sync/Purging.antt =====
-- The second loop of client_shelves_info_sync: the shelves that the server no longer has are deleted.
use bookshelfdq.Base.{
  ℕ, zero, suc, ◌+◌, ◌≤◌, ◌<◌, ◌≡◌, refl, sym, ap, subst, ◌∙◌, inl, inr, pos, neg_ℤ, true, false,
  Option, none, some, List, [], ◌==◌, length, arith, Bool-cases,
}
use bookshelfdq.Clisrv.{Message, ShelfEntry, max_shelf_num, req_find_shelf}
use bookshelfdq.Clidb.Gdbm.{Dbm, IsDbm}
use bookshelfdq.Clidb.{
  state_of, Cache, clidb_shelf_delete, clidb_shelf_exists, clidb_shelf_not_syncs,
}
use bookshelfdq.Clidb.Shelves.{view}
use bookshelfdq.Clishell.{Remote, Client}
use bookshelfdq.Clishell.Sync.{ask_once, ask_again, ask_again_from}
use bookshelfdq.Clishell.Sync.Mirror.{IsWilling, Mirror, delete-Mirror}
use bookshelfdq.Clishell.Sync.Serving.{
  end_reply, shelf_replies, asked_shelves, IsServing, has_number, laid_over, map_of, marked_over,
  laid_over-has_number, marked_over-has_number, keep-has_number, map_of-has_number,
}

module _ (g : Dbm) (h : IsDbm g) (w : IsWilling g) (r : Remote) (rows : List ShelfEntry)
    (q : IsServing r rows) where
  -- The server's shelves are shown, and of the others below a number none exists any more.
  pub record Purged (i : ℕ) (s : Cache g) : Type 0 where
    pub full : length s.shelf_record ≡ max_shelf_num
    pub file : g.File
    pub open_ : s.shelf_dbm_ptr ≡ some file
    pub present : (k : ℕ) → has_number rows k ≡ true → view g h s k ≡ map_of rows k
    pub marked : (k : ℕ) → has_number rows k ≡ true → state_of k s.shelf_record ≡ 2
    pub absent : (k : ℕ) → has_number rows k ≡ false → state_of k s.shelf_record ≤ 1
    pub backed :
        (k : ℕ) → state_of k s.shelf_record ≡ 1 → (e : ShelfEntry) × (view g h s k ≡ some e)
    pub passed : (k : ℕ) → has_number rows k ≡ false → 0 < k → k < i → state_of k s.shelf_record ≡ 0

  -- A number that is not stale is passed over.
  skip-Purged :
      (i : ℕ) (s : Cache g)
      → (state_of i s.shelf_record == 1) ≡ false
      → Purged i s
      → Purged (suc i) s
  skip-Purged i s fresh p = record {
    full = p.full;
    file = p.file;
    open_ = p.open_;
    present = p.present;
    marked = p.marked;
    absent = p.absent;
    backed = p.backed;
    passed = λ k other low below. elim (Bool-cases (k == i)) [
      | inl here ↦
          let e : k ≡ i = ground arith in
          ground (arith, e, p.absent i (subst (λ (x : ℕ). has_number rows x ≡ false) e other))
      | inr there ↦ p.passed k other low (ground arith)
    ];
  }

  stale-has_number :
      (i : ℕ) (s : Cache g)
      → (state_of i s.shelf_record == 1) ≡ true
      → Purged i s
      → has_number rows i ≡ false
  stale-has_number i s stale p = elim (Bool-cases (has_number rows i)) [
    | inl there ↦ absurd (ground (arith, p.marked i there))
    | inr other ↦ other
  ]

  -- A stale number is deleted.
  delete-Purged :
      (i : ℕ) (s : Cache g)
      → 0 < i
      → i ≤ max_shelf_num
      → (state_of i s.shelf_record == 1) ≡ true
      → Purged i s
      → ((clidb_shelf_delete g i s).0 ≡ true) × Purged (suc i) (clidb_shelf_delete g i s).1
  delete-Purged i s low high stale p =
      let other = stale-has_number i s stale p in
      let (e, shown) = p.backed i (ground (arith, stale)) in
      let (done, t) =
        delete-Mirror g h w i s e (view g h s) (λ k. state_of k s.shelf_record) low high shown
          (record {
            full = p.full;
            file = p.file;
            open_ = p.open_;
            shows = λ k. refl;
            states = λ k. refl;
          }) in
      (
        done,
        record {
          full = t.full;
          file = t.file;
          open_ = t.open_;
          present = λ k there. elim (Bool-cases (i == k)) [
            | inl here ↦
                let e : i ≡ k = ground arith in
                absurd (ground (arith, subst (λ (x : ℕ). has_number rows x ≡ false) e other))
            | inr away ↦ t.shows k ∙ rw away (p.present k there)
          ];
          marked = λ k there. elim (Bool-cases (i == k)) [
            | inl here ↦
                let e : i ≡ k = ground arith in
                absurd (ground (arith, subst (λ (x : ℕ). has_number rows x ≡ false) e other))
            | inr away ↦ t.states k ∙ rw away (p.marked k there)
          ];
          absent = λ k unknown. ground (arith, t.states k, p.absent k unknown);
          backed = λ k waits. elim (Bool-cases (i == k)) [
            | inl here ↦ absurd (ground (arith, t.states k, waits))
            | inr away ↦
                let (e1, seen) = p.backed k (ground (arith, t.states k, waits)) in
                (e1, t.shows k ∙ rw away seen)
          ];
          passed = λ k unknown above below. elim (Bool-cases (i == k)) [
            | inl here ↦ t.states k ∙ rw here refl
            | inr away ↦ t.states k ∙ rw away (p.passed k unknown above (ground arith))
          ];
        },
      )

  -- The answer to a request for a stale number is one message, the end of the search.
  ask_again-Purged :
      (i cnt : ℕ) (msgreq : Message) (c : Client r g)
      → 0 < i
      → i ≤ max_shelf_num
      → msgreq.request ≡ req_find_shelf
      → q.waiting c.line ≡ []
      → (state_of i c.cache.shelf_record == 1) ≡ true
      → Purged i c.cache
      → let a = ask_again r g i cnt msgreq c in
        (a.0 ≡ some cnt) × (q.waiting a.1.line ≡ []) × Purged (suc i) a.1.cache
  unfolding ask_again ask_once
  ask_again-Purged zero cnt msgreq c low high finds idle stale p = absurd (omega arith)
  ask_again-Purged (suc j) cnt msgreq c low high finds idle stale p =
      let i = suc j in
      let msg = record msgreq { shelf = record msgreq.shelf { code = neg_ℤ (pos i) } } in
      let (sent, queued) = q.finds c.line msg idle finds in
      let alone : asked_shelves rows msg.shelf.code ≡ [] =
        keep-has_number rows i (stale-has_number i c.cache stale p) in
      let (first, rest) =
        q.takes (r.send msg c.line).1 (end_reply msg) [] (queued ∙ ap (shelf_replies msg) alone) in
      let (done, p1) = delete-Purged i c.cache low high stale p in
      let c1 = record c {
        line = (r.receive (r.send msg c.line).1).1;
        cache = (clidb_shelf_delete g i c.cache).1;
      } in
      let goes : ask_again r g i cnt msgreq c ≡ (some cnt, c1) =
        ground (arith, sent, first, done) in
      (
        ap (λ (a : Option ℕ × Client r g). a.0) goes,
        ap (λ (a : Option ℕ × Client r g). q.waiting a.1.line) goes ∙ rest,
        subst (λ (a : Option ℕ × Client r g). Purged (suc i) a.1.cache) (sym goes) p1,
      )

  pub ask_again_from-Purged :
      (n i cnt : ℕ) (msgreq : Message) (c : Client r g)
      → i + n ≡ suc max_shelf_num
      → 0 < i
      → msgreq.request ≡ req_find_shelf
      → q.waiting c.line ≡ []
      → Purged i c.cache
      → let a = ask_again_from r g n i cnt msgreq c in
        (a.0 ≡ some cnt) × (q.waiting a.1.line ≡ []) × Purged (suc max_shelf_num) a.1.cache
  unfolding ask_again_from clidb_shelf_not_syncs
  ask_again_from-Purged zero i cnt msgreq c last low finds idle p =
      (refl, idle, subst (λ (x : ℕ). Purged x c.cache) (omega arith) p)
  ask_again_from-Purged (suc n) i cnt msgreq c last low finds idle p =
      elim (Bool-cases (state_of i c.cache.shelf_record == 1)) [
        | inl stale ↦
            let (said, left, p1) =
              ask_again-Purged i cnt msgreq c low (omega arith) finds idle stale p in
            let c1 = (ask_again r g i cnt msgreq c).1 in
            let goes : ask_again_from r g (suc n) i cnt msgreq c
                ≡ ask_again_from r g n (suc i) cnt msgreq c1 =
              ground (arith, said, stale, last) in
            subst
              (λ (a : Option ℕ × Client r g).
                (a.0 ≡ some cnt) × (q.waiting a.1.line ≡ []) × Purged (suc max_shelf_num) a.1.cache)
              (sym goes)
              (ask_again_from-Purged n (suc i) cnt msgreq c1 (omega arith) (omega arith) finds left
                p1)
        | inr fresh ↦
            let goes : ask_again_from r g (suc n) i cnt msgreq c
                ≡ ask_again_from r g n (suc i) cnt msgreq c =
              ground (arith, fresh, last) in
            subst
              (λ (a : Option ℕ × Client r g).
                (a.0 ≡ some cnt) × (q.waiting a.1.line ≡ []) × Purged (suc max_shelf_num) a.1.cache)
              (sym goes)
              (ask_again_from-Purged n (suc i) cnt msgreq c (omega arith) (omega arith) finds idle
                (skip-Purged i c.cache fresh p))
      ]

  -- What the answers leave is ready for the second loop.
  pub start-Purged :
      (s s1 : Cache g)
      → ((k : ℕ) → state_of k s.shelf_record ≤ 1)
      → ((k : ℕ) → state_of k s.shelf_record ≡ 1 → (e : ShelfEntry) × (view g h s k ≡ some e))
      → Mirror g h w
          (laid_over rows (view g h s))
          (marked_over rows (λ k. state_of k s.shelf_record))
          s1
      → Purged 1 s1
  start-Purged s s1 small stored t =
      let st = λ (k : ℕ). state_of k s.shelf_record in
      record {
        full = t.full;
        file = t.file;
        open_ = t.open_;
        present = λ k there. t.shows k ∙ laid_over-has_number rows (view g h s) k ∙ rw there refl;
        marked = λ k there. t.states k ∙ marked_over-has_number rows st k ∙ rw there refl;
        absent = λ k other.
            subst (λ (x : ℕ). x ≤ 1)
              (sym (t.states k ∙ marked_over-has_number rows st k ∙ rw other refl)) (small k);
        backed = λ k waits. elim (Bool-cases (has_number rows k)) [
          | inl there ↦ absurd (ground (arith, t.states k, marked_over-has_number rows st k, waits))
          | inr other ↦
              let (e, seen) =
                stored k (ground (arith, t.states k, marked_over-has_number rows st k, waits)) in
              (e, t.shows k ∙ laid_over-has_number rows (view g h s) k ∙ rw other seen)
        ];
        passed = λ k other low below. absurd (omega arith);
      }

  -- Behind the last number the cache is the server's map.
  pub Purged-view :
      (s : Cache g) (k : ℕ) → Purged (suc max_shelf_num) s → view g h s k ≡ map_of rows k
  unfolding clidb_shelf_exists state_of
  Purged-view s k p = elim (Bool-cases (has_number rows k)) [
    | inl there ↦ p.present k there
    | inr other ↦ hidden k other ∙ sym (map_of-has_number rows k other)
  ]
    where
      hidden : (k : ℕ) → has_number rows k ≡ false → view g h s k ≡ none
      hidden zero other = refl
      hidden (suc j) other = ground (arith, p.passed (suc j) other)

  pub states_small :
      (s : Cache g) (k : ℕ) → Purged (suc max_shelf_num) s → state_of k s.shelf_record ≤ 2
  states_small s k p = elim (Bool-cases (has_number rows k)) [
    | inl there ↦ omega (arith, p.marked k there)
    | inr other ↦ omega (arith, p.absent k other)
  ]
