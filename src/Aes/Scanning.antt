-- ===== src/Aes/Scanning.antt =====
-- What AES_init reads of the file that gen_aes_key.c writes.
use mathlib.Core.List.{cons-ne-nil}
use bookshelfdq.Base.{
  ℕ, suc, ◌*◌, ◌%◌, ◌<◌, ◌≤◌, ◌≡◌, refl, ap, ◌∙◌, ◌≢◌, Text, ℤ, pos, Bool, true, false, some, List,
  [], ◌∷◌, ◌++◌, map, length, arith, if◌then◌else◌, length-append,
}
use bookshelfdq.Aes.{
  is_digit, skip_space, scan_number, scan_digits, scan_int, after_comma, scan_fields, over, to_byte,
  Aes, aes_init, aes_block_size,
}
use bookshelfdq.Aes.Key.{print_byte, key_fields, cut_last, gen_aes_key}

abbrev ends_number : Text → Bool
ends_number [] = true
ends_number (c ∷ s) = if is_digit c then false else true

scan_number_ends : (n : ℕ) (t : Text) → ends_number t ≡ true → scan_number n t ≡ (n, t)
unfolding scan_number
scan_number_ends n [] h = refl
scan_number_ends n (c ∷ s) h = ground arith

scan_int-print_byte :
    (n : ℕ) (t : Text)
    → n < 1000
    → ends_number t ≡ true
    → scan_int (print_byte n ++ t) ≡ some (pos n, t)
unfolding scan_int print_byte scan_digits skip_space scan_number
scan_int-print_byte n t h e = ground (arith, scan_number_ends n t e)

cut_last-append : (s t : Text) → t ≢ [] → cut_last (s ++ t) ≡ s ++ cut_last t
unfolding cut_last
cut_last-append [] t h = refl
cut_last-append (c ∷ []) [] h = absurd (h refl)
cut_last-append (c ∷ []) (d ∷ t) h = refl
cut_last-append (c ∷ d ∷ s) t h = ap (◌∷◌ c) (cut_last-append (d ∷ s) t h)

key_fields-ne-nil : (r : ℕ) (rs : List ℕ) → key_fields (r ∷ rs) ≢ []
unfolding key_fields print_byte
key_fields-ne-nil r rs = ground arith

-- The comma behind the last number is the one that is cut off.
pub cut_last-comma :
    (r : ℕ) (rs : List ℕ) → cut_last (b',' ∷ key_fields (r ∷ rs)) ≡ b',' ∷ gen_aes_key (r ∷ rs)
unfolding gen_aes_key
cut_last-comma r rs = cut_last-append (b',' ∷ []) (key_fields (r ∷ rs)) (key_fields-ne-nil r rs)

gen_aes_key-one :
    (r : ℕ) (rs : List ℕ)
    → gen_aes_key (r ∷ rs) ≡ print_byte (r % 255) ++ cut_last (b',' ∷ key_fields rs)
unfolding gen_aes_key key_fields
gen_aes_key-one r rs =
    cut_last-append (print_byte (r % 255)) (b',' ∷ key_fields rs) (cons-ne-nil b',' (key_fields rs))

byte_small : (r : ℕ) → r % 255 < 1000
byte_small r = omega arith

scan_fields_last :
    (n : ℕ) (s : Text) (v : ℤ) → scan_int s ≡ some (v, []) → scan_fields (suc n) s ≡ v ∷ []
unfolding scan_fields after_comma
scan_fields_last n s v h = ground (arith, h)

scan_fields_more :
    (n : ℕ) (s t : Text) (v : ℤ)
    → scan_int s ≡ some (v, b',' ∷ t)
    → scan_fields (suc n) s ≡ v ∷ scan_fields n t
unfolding scan_fields after_comma
scan_fields_more n s t v h = ground (arith, h)

scan_none : (s : Text) → scan_fields 0 s ≡ []
unfolding scan_fields
scan_none s = refl

scan_fields-gen_aes_key :
    (rs : List ℕ) → scan_fields (length rs) (gen_aes_key rs) ≡ map (λ r. pos (r % 255)) rs
unfolding cut_last key_fields
scan_fields-gen_aes_key [] = scan_none (gen_aes_key [])
scan_fields-gen_aes_key (r ∷ []) =
    let n = r % 255 in
    scan_fields_last 0 (gen_aes_key (r ∷ [])) (pos n)
      (ap scan_int (gen_aes_key-one r []) ∙ scan_int-print_byte n [] (byte_small r) refl)
scan_fields-gen_aes_key (r ∷ q ∷ rs) =
    let n = r % 255 in
    let t = gen_aes_key (q ∷ rs) in
    scan_fields_more (suc (length rs)) (gen_aes_key (r ∷ q ∷ rs)) t (pos n) (
      ap scan_int (gen_aes_key-one r (q ∷ rs) ∙ ap (λ u. print_byte n ++ u) (cut_last-comma q rs))
      ∙ scan_int-print_byte n (b',' ∷ t) (byte_small r) refl)
    ∙ ap (◌∷◌ (pos n)) (scan_fields-gen_aes_key (q ∷ rs))

over_all : {A : Type 0} (xs olds : List A) → length xs ≡ length olds → over xs olds ≡ xs
unfolding over
over_all [] [] h = refl
over_all [] (y ∷ olds) h = absurd (omega arith)
over_all (x ∷ xs) [] h = absurd (omega arith)
over_all (x ∷ xs) (y ∷ olds) h = ap (◌∷◌ x) (over_all xs olds (omega arith))

length-map-pos : (rs : List ℕ) → length (map (λ r. pos (r % 255)) rs) ≡ length rs
length-map-pos [] = refl
length-map-pos (r ∷ rs) = omega (arith, length-map-pos rs)

bytes_kept : (rs : List ℕ) → map to_byte (map (λ r. pos (r % 255)) rs) ≡ map (λ r. r % 255) rs
unfolding to_byte
bytes_kept [] = refl
bytes_kept (r ∷ rs) = ground (arith, bytes_kept rs)

pub length-print_byte : (n : ℕ) → length (print_byte n) ≤ 3
unfolding print_byte
length-print_byte n = ground arith

pub length-key_fields : (rs : List ℕ) → length (key_fields rs) ≤ 4 * length rs
unfolding key_fields
length-key_fields [] = omega arith
length-key_fields (r ∷ rs) = omega (
  arith,
  length-append (print_byte (r % 255)) (b',' ∷ key_fields rs),
  length-print_byte (r % 255),
  length-key_fields rs,
)

-- For any 16 random numbers, whatever the stack held, AES_init reads the file that gen_aes_key
-- writes as these numbers modulo 255, and the generator's text, the last comma included, fits its
-- buffer of 128 bytes.
pub aes_init-gen_aes_key :
    (rs : List ℕ) (tkey : List ℤ) (a : Aes)
    → length rs ≡ aes_block_size
    → length tkey ≡ aes_block_size
    → a.aes_has_init ≡ false
    → (aes_init (some (gen_aes_key rs)) tkey a
        ≡ (true, record { key = map (λ r. r % 255) rs; aes_has_init = true }))
      × (length (key_fields rs) < 128)
unfolding aes_init
aes_init-gen_aes_key rs tkey a n k fresh = (
  rw (fresh, ← n, scan_fields-gen_aes_key rs)
      (rw (over_all (map (λ r. pos (r % 255)) rs) tkey (omega (arith, length-map-pos rs)))
        (rw (bytes_kept rs) refl)),
  omega (arith, length-key_fields rs),
)
