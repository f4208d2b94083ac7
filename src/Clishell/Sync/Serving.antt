-- ===== src/Clishell/Sync/Serving.antt =====
-- What the server promises to a client that synchronises its shelves, and what the client's cache is
-- to hold then.
use bookshelfdq.Base.{
  ℕ, suc, ◌≤◌, ◌<◌, ◌≡◌, refl, ap, ◌∙◌, inl, inr, ℤ, pos, negsuc, Bool, true, false, ◌||◌, Option,
  none, some, List, [], ◌∷◌, ltb, ◌==◌, if◌then◌else◌, keep, length, arith, All, Bool-cases,
}
use bookshelfdq.Clisrv.{
  Message, ShelfEntry, shelf_counts, r_success, r_find_end, max_shelf_num, req_count_shelf,
  req_find_shelf,
}
use bookshelfdq.Clidb.{number}
use bookshelfdq.Clishell.{Remote}

abbrev pub shelf_reply : Message → ShelfEntry → Message
shelf_reply m e = record m { shelf = e; response = r_success }

abbrev pub end_reply : Message → Message
end_reply m = record m { response = r_find_end }

abbrev pub shelf_replies : Message → List ShelfEntry → List Message
shelf_replies m [] = end_reply m ∷ []
shelf_replies m (e ∷ es) = shelf_reply m e ∷ shelf_replies m es

-- The shelves that a search for a code finds: all behind it, or the one of the negated code.
abbrev pub asked_shelves : List ShelfEntry → ℤ → List ShelfEntry
asked_shelves rows (pos n) = keep (λ e. ltb n (number e.code)) rows
asked_shelves rows (negsuc n) = keep (λ e. number e.code == suc n) rows

-- A connection to a server that has these shelves, fewer than a page: a count or a search that is
-- sent when nothing waits is answered, and what waits is received in its order.
pub record IsServing (r : Remote) (rows : List ShelfEntry) : Type 0 where
  pub waiting : r.Sock → List Message
  pub takes :
      (s : r.Sock) (m : Message) (ms : List Message)
      → waiting s ≡ m ∷ ms
      → ((r.receive s).0 ≡ some m) × (waiting (r.receive s).1 ≡ ms)
  pub counts :
      (s : r.Sock) (m : Message)
      → waiting s ≡ []
      → m.request ≡ req_count_shelf
      → ((r.send m s).0 ≡ true)
        × (waiting (r.send m s).1
            ≡ record m { response = r_success; extra_info = shelf_counts (length rows) } ∷ [])
  pub finds :
      (s : r.Sock) (m : Message)
      → waiting s ≡ []
      → m.request ≡ req_find_shelf
      → ((r.send m s).0 ≡ true)
        × (waiting (r.send m s).1 ≡ shelf_replies m (asked_shelves rows m.shelf.code))

abbrev pub has_number : List ShelfEntry → ℕ → Bool
has_number [] k = false
has_number (e ∷ es) k = number e.code == k || has_number es k

-- A map of shelves over which these are laid, the later ones above.
abbrev pub laid_over : List ShelfEntry → (ℕ → Option ShelfEntry) → ℕ → Option ShelfEntry
laid_over [] v = v
laid_over (e ∷ es) v = laid_over es (λ k. if number e.code == k then some e else v k)

-- The shelves as a map from their numbers.
abbrev pub map_of : List ShelfEntry → ℕ → Option ShelfEntry
map_of rows = laid_over rows (λ k. none)

abbrev pub marked_over : List ShelfEntry → (ℕ → ℕ) → ℕ → ℕ
marked_over [] st = st
marked_over (e ∷ es) st = marked_over es (λ k. if number e.code == k then 2 else st k)

abbrev pub IsNumbered : List ShelfEntry → Type 0
IsNumbered = All (λ e. (0 < number e.code) × (number e.code ≤ max_shelf_num))

-- Numbers that are not laid over are as before, others are not.
pub laid_over_lem :
    (es : List ShelfEntry) (u v : ℕ → Option ShelfEntry) (k : ℕ)
    → u k ≡ v k
    → laid_over es u k ≡ laid_over es v k
laid_over_lem [] u v k h = h
laid_over_lem (e ∷ es) u v k h =
    laid_over_lem es (λ k. if number e.code == k then some e else u k)
      (λ k. if number e.code == k then some e else v k) k
      (ap (λ (x : Option ShelfEntry). if number e.code == k then some e else x) h)

pub laid_over-has_number :
    (es : List ShelfEntry) (v : ℕ → Option ShelfEntry) (k : ℕ)
    → laid_over es v k ≡ (if has_number es k then map_of es k else v k)
laid_over-has_number [] v k = refl
laid_over-has_number (e ∷ es) v k = elim (Bool-cases (number e.code == k)) [
  | inl here ↦ rw here (
      laid_over_lem es (λ j. if number e.code == j then some e else v j)
        (λ j. if number e.code == j then some e else none) k (rw here refl))
  | inr there ↦ rw there (
      laid_over_lem es (λ j. if number e.code == j then some e else v j) v k (rw there refl)
      ∙ laid_over-has_number es v k
      ∙ ap (λ (x : Option ShelfEntry). if has_number es k then x else v k)
          (laid_over_lem es (λ j. none) (λ j. if number e.code == j then some e else none) k
            (rw there refl)))
]

pub marked_over-has_number :
    (es : List ShelfEntry) (st : ℕ → ℕ) (k : ℕ)
    → marked_over es st k ≡ (if has_number es k then 2 else st k)
marked_over-has_number [] st k = refl
marked_over-has_number (e ∷ es) st k =
    marked_over-has_number es (λ j. if number e.code == j then 2 else st j) k ∙ ground arith

pub keep-has_number :
    (es : List ShelfEntry) (i : ℕ)
    → has_number es i ≡ false
    → keep (λ e. number e.code == i) es ≡ []
unfolding keep
keep-has_number [] i h = refl
keep-has_number (e ∷ es) i h = ground (arith, keep-has_number es i)

pub asked_shelves_all : (es : List ShelfEntry) → IsNumbered es → asked_shelves es (pos 0) ≡ es
unfolding keep
asked_shelves_all [] h = refl
asked_shelves_all (e ∷ es) h = ground (arith, asked_shelves_all es h.1)

pub map_of-has_number :
    (es : List ShelfEntry) (k : ℕ) → has_number es k ≡ false → map_of es k ≡ none
map_of-has_number es k h = laid_over-has_number es (λ j. none) k ∙ rw h refl
