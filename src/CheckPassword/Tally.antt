-- ===== src/CheckPassword/Tally.antt =====
-- What the counting loop of check_password.c comes to.
use bookshelfdq.Base.{
  ℕ, zero, suc, ◌+◌, ◌≡◌, refl, Text, ℤ, pos, negsuc, lt_ℤ, Bool, true, false, ◌||◌, not, inl, inr,
  [], ◌∷◌, arith, Bool-cases,
}
use bookshelfdq.Aes.{is_digit}
use bookshelfdq.CheckPassword.{
  is_lower, is_upper, is_punct, pred_ℤ, Points, scores, raised, count_char, count_points, no_points,
}

abbrev pub any : (ℕ → Bool) → Text → Bool
any p [] = false
any p (c ∷ s) = p c || any p s

abbrev pub one_if : Bool → ℕ
one_if true = 1
one_if false = 0

-- The variables of a class, of which `seen` says whether a character was there: a required one.
abbrev Required : ℤ → Bool → Bool → Type 0
Required least flag seen =
    (lt_ℤ (pos 0) least ≡ not seen) × (flag ≡ seen) × (lt_ℤ least (pos 2) ≡ true)

abbrev Optional : ℤ → Bool → Bool → Type 0
Optional least flag seen = (lt_ℤ least (pos 1) ≡ true) × (flag ≡ seen)

-- The variables where characters of these four classes were seen.
pub record Tallies (lower upper digit punct : Bool) (p : Points) : Type 0 where
  pub of_lower : Required p.min_lower p.n_lower lower
  pub of_upper : Required p.min_upper p.n_upper upper
  pub of_digit : Required p.min_digit p.n_digit digit
  pub of_punct : Optional p.min_punct p.n_punct punct
  pub in_all : p.n_quality ≡ one_if lower + one_if upper + one_if digit + one_if punct

seen-Required :
    (least : ℤ) (flag seen : Bool)
    → Required least flag seen
    → Required (pred_ℤ least) (scores flag (pred_ℤ least) || flag) true
unfolding scores lt_ℤ
seen-Required (pos zero) flag seen h = ground arith
seen-Required (pos (suc zero)) flag seen h = ground arith
seen-Required (pos (suc (suc n))) flag seen h = absurd (ground arith)
seen-Required (negsuc n) flag seen h = ground arith

seen-Optional :
    (least : ℤ) (flag seen : Bool)
    → Optional least flag seen
    → Optional (pred_ℤ least) (scores flag (pred_ℤ least) || flag) true
unfolding scores lt_ℤ
seen-Optional (pos zero) flag seen h = ground arith
seen-Optional (pos (suc n)) flag seen h = absurd (ground arith)
seen-Optional (negsuc n) flag seen h = ground arith

needed_point :
    (least : ℤ) (flag seen : Bool) (q : ℕ)
    → Required least flag seen
    → raised (scores flag (pred_ℤ least)) q + one_if seen ≡ q + 1
unfolding scores raised lt_ℤ
needed_point (pos zero) flag seen q h = ground arith
needed_point (pos (suc zero)) flag seen q h = ground arith
needed_point (pos (suc (suc n))) flag seen q h = absurd (ground arith)
needed_point (negsuc n) flag seen q h = ground arith

spare_point :
    (least : ℤ) (flag seen : Bool) (q : ℕ)
    → Optional least flag seen
    → raised (scores flag (pred_ℤ least)) q + one_if seen ≡ q + 1
unfolding scores raised lt_ℤ
spare_point (pos zero) flag seen q h = ground arith
spare_point (pos (suc n)) flag seen q h = absurd (ground arith)
spare_point (negsuc n) flag seen q h = ground arith

-- The classes are disjoint.
classes :
    (c : ℕ)
    → ((is_lower c ≡ true) → (is_upper c ≡ false) × (is_digit c ≡ false) × (is_punct c ≡ false))
      × ((is_upper c ≡ true) → (is_digit c ≡ false) × (is_punct c ≡ false))
      × ((is_digit c ≡ true) → is_punct c ≡ false)
unfolding is_punct
classes c = (λ h. ground arith, λ h. ground arith, λ h. ground arith)

module _ (l u d q : Bool) (p : Points) (t : Tallies l u d q p) where
  lower-Tallies : (c : ℕ) → is_lower c ≡ true → Tallies true u d q (count_char c p)
  unfolding count_char
  lower-Tallies c h =
      let step = seen-Required p.min_lower p.n_lower l t.of_lower in
      let point = needed_point p.min_lower p.n_lower l p.n_quality t.of_lower in
      rw h (record {
        of_lower = step;
        of_upper = t.of_upper;
        of_digit = t.of_digit;
        of_punct = t.of_punct;
        in_all = omega (arith, point, t.in_all);
      })

  upper-Tallies :
      (c : ℕ) → is_lower c ≡ false → is_upper c ≡ true → Tallies l true d q (count_char c p)
  unfolding count_char
  upper-Tallies c hl h =
      let step = seen-Required p.min_upper p.n_upper u t.of_upper in
      let point = needed_point p.min_upper p.n_upper u p.n_quality t.of_upper in
      rw (hl, h)
        (record {
          of_lower = t.of_lower;
          of_upper = step;
          of_digit = t.of_digit;
          of_punct = t.of_punct;
          in_all = omega (arith, point, t.in_all);
        })

  digit-Tallies :
      (c : ℕ)
      → is_lower c ≡ false
      → is_upper c ≡ false
      → is_digit c ≡ true
      → Tallies l u true q (count_char c p)
  unfolding count_char
  digit-Tallies c hl hu h =
      let step = seen-Required p.min_digit p.n_digit d t.of_digit in
      let point = needed_point p.min_digit p.n_digit d p.n_quality t.of_digit in
      rw (hl, hu, h)
        (record {
          of_lower = t.of_lower;
          of_upper = t.of_upper;
          of_digit = step;
          of_punct = t.of_punct;
          in_all = omega (arith, point, t.in_all);
        })

  punct-Tallies :
      (c : ℕ)
      → is_lower c ≡ false
      → is_upper c ≡ false
      → is_digit c ≡ false
      → is_punct c ≡ true
      → Tallies l u d true (count_char c p)
  unfolding count_char
  punct-Tallies c hl hu hd h =
      let step = seen-Optional p.min_punct p.n_punct q t.of_punct in
      let point = spare_point p.min_punct p.n_punct q p.n_quality t.of_punct in
      rw (hl, hu, hd, h)
        (record {
          of_lower = t.of_lower;
          of_upper = t.of_upper;
          of_digit = t.of_digit;
          of_punct = step;
          in_all = omega (arith, point, t.in_all);
        })

  other-Tallies :
      (c : ℕ)
      → is_lower c ≡ false
      → is_upper c ≡ false
      → is_digit c ≡ false
      → is_punct c ≡ false
      → Tallies l u d q (count_char c p)
  unfolding count_char
  other-Tallies c hl hu hd hp = rw (hl, hu, hd, hp) t

  -- One character adds its class.
  count_char-Tallies :
      (c : ℕ)
      → Tallies
          (is_lower c || l)
          (is_upper c || u)
          (is_digit c || d)
          (is_punct c || q)
          (count_char c p)
  count_char-Tallies c =
      let (lower_only, upper_only, digit_only) = classes c in
      elim (Bool-cases (is_lower c)) [
        | inl h ↦ let (hu, hd, hp) = lower_only h in rw (h, hu, hd, hp) (lower-Tallies c h)
        | inr hl ↦ elim (Bool-cases (is_upper c)) [
          | inl h ↦ let (hd, hp) = upper_only h in rw (hl, h, hd, hp) (upper-Tallies c hl h)
          | inr hu ↦ elim (Bool-cases (is_digit c)) [
            | inl h ↦ let hp = digit_only h in rw (hl, hu, h, hp) (digit-Tallies c hl hu h)
            | inr hd ↦ elim (Bool-cases (is_punct c)) [
              | inl h ↦ rw (hl, hu, hd, h) (punct-Tallies c hl hu hd h)
              | inr hp ↦ rw (hl, hu, hd, hp) (other-Tallies c hl hu hd hp)
            ]
          ]
        ]
      ]

or_later : (p : ℕ → Bool) (c : ℕ) (s : Text) (b : Bool) → any p s || (p c || b) ≡ any p (c ∷ s) || b
or_later p c s b = ground arith

count_points-Tallies :
    (s : Text) (l u d q : Bool) (p : Points)
    → Tallies l u d q p
    → Tallies
        (any is_lower s || l)
        (any is_upper s || u)
        (any is_digit s || d)
        (any is_punct s || q)
        (count_points s p)
unfolding count_points
count_points-Tallies [] l u d q p t = t
count_points-Tallies (c ∷ s) l u d q p t =
    rw
      (
        ← or_later is_lower c s l,
        ← or_later is_upper c s u,
        ← or_later is_digit c s d,
        ← or_later is_punct c s q,
      )
      (count_points-Tallies s (is_lower c || l) (is_upper c || u) (is_digit c || d)
        (is_punct c || q) (count_char c p) (count_char-Tallies l u d q p t c))

or_false : (b : Bool) → b || false ≡ b
or_false b = ground arith

pub count_points_lem :
    (s : Text)
    → Tallies
        (any is_lower s)
        (any is_upper s)
        (any is_digit s)
        (any is_punct s)
        (count_points s no_points)
unfolding lt_ℤ
count_points_lem s =
    let t = count_points-Tallies s false false false false no_points start in
    rw
      (
        ← or_false (any is_lower s),
        ← or_false (any is_upper s),
        ← or_false (any is_digit s),
        ← or_false (any is_punct s),
      )
      t
  where
    start : Tallies false false false false no_points
    start = record {
      of_lower = (refl, refl, refl);
      of_upper = (refl, refl, refl);
      of_digit = (refl, refl, refl);
      of_punct = (refl, refl);
      in_all = refl;
    }
