-- ===== src/Srvdb/Search/Words.antt =====
-- The search texts of a search of books: their modes, and what their conditions ask of a book.
use bookshelfdq.Base.{
  ◌≢◌, ◌≡◌, ap, ◌∙◌, Bool, true, false, ◌&&◌, ◌||◌, none, some, Text, ◌==◌, if◌then◌else◌, arith,
  Option-cases, inl, inr,
}
use bookshelfdq.Clisrv.{BookEntry}
use bookshelfdq.Mysql.Statement.{BookRow, BookCond}
use bookshelfdq.Mysql.Meaning.{Collation, sat}
use bookshelfdq.Srvdb.Search.{
  mode, behind, Link, or_like, and_like, and_is, link, name_cond, author_cond, label_cond, join,
  keywords,
}

-- The first byte of a search text is a search mode.
abbrev pub has_mode : Text → Bool
has_mode t = mode t == b'0' || (mode t == b'-' || (mode t == b'+' || mode t == b'='))

-- '=' asks for the whole text, every other mode for a part of it.
abbrev pub hit : Collation → Text → Text → Bool
hit c column t = if mode t == b'=' then c.same column (behind t) else c.like column (behind t)

-- The three texts together: '-' before the author or the label makes an alternative of it, and the
-- name and author, or the author and label, that are no alternatives have to fit together.
abbrev pub text_hit : Collation → BookEntry → BookRow → Bool
text_hit c e r =
    if mode e.author == b'-'
    then (if mode e.label == b'-'
        then hit c r.name e.name || (hit c r.author e.author || hit c r.label e.label)
        else hit c r.name e.name || (hit c r.author e.author && hit c r.label e.label))
    else (if mode e.label == b'-'
        then (hit c r.name e.name && hit c r.author e.author) || hit c r.label e.label
        else hit c r.name e.name && (hit c r.author e.author && hit c r.label e.label))

name-hit :
    (c : Collation) (t : Text) (p : BookCond) (r : BookRow)
    → name_cond t ≡ some p
    → sat c p r ≡ hit c r.name t
unfolding name_cond sat
name-hit c t p r h = ground arith

author-hit :
    (c : Collation) (t : Text) (l : Link) (r : BookRow)
    → link t ≡ some l
    → sat c (author_cond l (behind t)) r ≡ hit c r.author t
unfolding link author_cond sat
author-hit c t l r h = ground arith

label-hit :
    (c : Collation) (t : Text) (l : Link) (r : BookRow)
    → link t ≡ some l
    → sat c (label_cond l (behind t)) r ≡ hit c r.label t
unfolding link label_cond sat
label-hit c t l r h = ground arith

abbrev is_or : Link → Bool
is_or or_like = true
is_or _ = false

link-mode : (t : Text) (l : Link) → link t ≡ some l → is_or l ≡ (mode t == b'-')
unfolding link
link-mode t l h = ground arith

sat-join :
    (c : Collation) (n a l : BookCond) (la ll : Link) (r : BookRow)
    → sat c (join n la a ll l) r ≡ (
        if is_or la
        then (if is_or ll
            then sat c n r || (sat c a r || sat c l r)
            else sat c n r || (sat c a r && sat c l r))
        else (if is_or ll
            then (sat c n r && sat c a r) || sat c l r
            else sat c n r && (sat c a r && sat c l r)))
unfolding sat join
sat-join c n a l or_like or_like r = ground arith
sat-join c n a l or_like and_like r = ground arith
sat-join c n a l or_like and_is r = ground arith
sat-join c n a l and_like or_like r = ground arith
sat-join c n a l and_like and_like r = ground arith
sat-join c n a l and_like and_is r = ground arith
sat-join c n a l and_is or_like r = ground arith
sat-join c n a l and_is and_like r = ground arith
sat-join c n a l and_is and_is r = ground arith

pub keywords-hit :
    (c : Collation) (e : BookEntry) (k : BookCond) (r : BookRow)
    → keywords e ≡ some k
    → sat c k r ≡ text_hit c e r
unfolding keywords
keywords-hit c e k r h = elim (Option-cases (name_cond e.name)) [
  | inl q ↦ absurd (ground arith)
  | inr (n, qn) ↦ elim (Option-cases (link e.author)) [
    | inl q ↦ absurd (ground arith)
    | inr (la, qa) ↦ elim (Option-cases (link e.label)) [
      | inl q ↦ absurd (ground arith)
      | inr (ll, ql) ↦
          let a = author_cond la (behind e.author) in
          let l = label_cond ll (behind e.label) in
          let whole : k ≡ join n la a ll l = ground arith in
          ap (λ (x : BookCond). sat c x r) whole
          ∙ rw (
            sat-join c n a l la ll r,
            name-hit c e.name n r qn,
            author-hit c e.author la r qa,
            label-hit c e.label ll r ql,
            link-mode e.author la qa,
            link-mode e.label ll ql,
          )
    ]
  ]
]

name_cond-some : (t : Text) → has_mode t ≡ true → name_cond t ≢ none
unfolding name_cond
name_cond-some t h q = ground arith

link-some : (t : Text) → has_mode t ≡ true → link t ≢ none
unfolding link
link-some t h q = ground arith

pub keywords-some :
    (e : BookEntry)
    → has_mode e.name ≡ true
    → has_mode e.author ≡ true
    → has_mode e.label ≡ true
    → (k : BookCond) × (keywords e ≡ some k)
unfolding keywords
keywords-some e hn ha hl = elim (Option-cases (name_cond e.name)) [
  | inl q ↦ absurd (name_cond-some e.name hn q)
  | inr (n, qn) ↦ elim (Option-cases (link e.author)) [
    | inl q ↦ absurd (link-some e.author ha q)
    | inr (la, qa) ↦ elim (Option-cases (link e.label)) [
      | inl q ↦ absurd (link-some e.label hl q)
      | inr (ll, ql) ↦ (
        join n la (author_cond la (behind e.author)) ll (label_cond ll (behind e.label)),
        ground arith,
      )
    ]
  ]
]
