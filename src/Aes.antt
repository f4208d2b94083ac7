-- ===== src/Aes.antt =====
-- aes/aes_options.c, which bsdqserver and bsdqclient each have a copy of. The key schedules and the
-- chained cipher of OpenSSL are a parameter; what fopen reads is an argument.
pub mod Key
pub mod Sizes
pub mod Scanning
use bookshelfdq.Base.{
  ℕ, zero, suc, ◌+◌, ◌-◌, ◌*◌, ◌/◌, ◌%◌, Text, ℤ, pos, negsuc, Bool, true, false, ◌&&◌, ◌||◌, not,
  Option, none, some, List, [], ◌∷◌, ◌++◌, map, ltb, leb, ◌==◌, if◌then◌else◌, length, take,
}

abbrev pub Bytes : Type 0
Bytes = List ℕ

abbrev pub aes_block_size : ℕ
aes_block_size = 16

-- AES_set_encrypt_key and AES_set_decrypt_key, `none` where they return a negative number, and
-- AES_cbc_encrypt in its two directions: a schedule, the initial vector and the bytes.
pub record Cipher : Type 1 where
  pub Schedule : Type 0
  pub set_encrypt_key : Bytes → Option Schedule
  pub set_decrypt_key : Bytes → Option Schedule
  pub cbc_encrypt : Schedule → Bytes → Bytes → Bytes
  pub cbc_decrypt : Schedule → Bytes → Bytes → Bytes

-- The two static variables.
pub record Aes : Type 0 where
  pub key : Bytes
  pub aes_has_init : Bool

-- isspace
abbrev pub is_space : ℕ → Bool
is_space c = c == 32 || (leb 9 c && leb c 13)

abbrev pub is_digit : ℕ → Bool
is_digit c = leb b'0' c && leb c b'9'

unfoldable pub skip_space : Text → Text
skip_space [] = []
skip_space (c ∷ s) = if is_space c then skip_space s else c ∷ s

unfoldable pub scan_number : ℕ → Text → ℕ × Text
scan_number n [] = (n, [])
scan_number n (c ∷ s) =
    let rest = scan_number (n * 10 + (c - b'0')) s in if is_digit c then rest else (n, c ∷ s)

-- A number without its sign: at least one digit.
unfoldable pub scan_digits : Text → Option (ℕ × Text)
scan_digits [] = none
scan_digits (c ∷ s) = if is_digit c then some (scan_number 0 (c ∷ s)) else none

abbrev pub negated : ℕ → ℤ
negated zero = pos 0
negated (suc n) = negsuc n

unfoldable pub scan_signed : Text → Option (ℤ × Text)
unfolding scan_digits
scan_signed [] = none
scan_signed (c ∷ s) =
    if c == b'-'
    then elim (scan_digits s) [ none ↦ none | some (n, t) ↦ some (negated n, t) ]
    else elim (scan_digits (if c == b'+' then s else c ∷ s)) [
      | none ↦ none
      | some (n, t) ↦ some (pos n, t)
    ]

-- %d of fscanf, for a number that an int holds.
unfoldable pub scan_int : Text → Option (ℤ × Text)
unfolding scan_signed skip_space
scan_int s = scan_signed (skip_space s)

unfoldable pub after_comma : Text → Option Text
after_comma [] = none
after_comma (c ∷ s) = if c == b',' then some s else none

-- The numbers that fscanf stores for so many %d with commas between them: it stops at the first
-- that does not fit.
unfoldable pub scan_fields : ℕ → Text → List ℤ
unfolding scan_int after_comma
scan_fields zero s = []
scan_fields (suc n) s = elim (scan_int s) [
  | none ↦ []
  | some (v, rest) ↦ elim (after_comma rest) [ none ↦ v ∷ [] | some t ↦ v ∷ scan_fields n t ]
]

-- An int stored in an unsigned char.
unfoldable pub to_byte : ℤ → ℕ
to_byte (pos n) = n % 256
to_byte (negsuc n) = 255 - n % 256

-- What is read goes over what was there before.
unfoldable pub over {ℓ} : {A : Type ℓ} → List A → List A → List A
over [] olds = olds
over (x ∷ xs) [] = []
over (x ∷ xs) (y ∷ olds) = x ∷ over xs olds

-- `opened` is the file's text where fopen succeeds, `tkey` what the stack holds in the 16 places of
-- the array.
unfoldable pub aes_init : Option Text → List ℤ → Aes → Bool × Aes
unfolding scan_fields over to_byte
aes_init opened tkey a = if a.aes_has_init then (true, a) else elim opened [
  | none ↦ (false, a)
  | some text ↦ (
    true,
    record a {
      key = map to_byte (over (scan_fields aes_block_size text) tkey);
      aes_has_init = true;
    },
  )
]

-- The length that a buffer of `len` bytes has when it is encrypted; the same lines stand in
-- socket_client_get_response and socket_srv_process_request.
unfoldable pub encrypted_size : ℕ → ℕ
encrypted_size len =
    if len % aes_block_size == 0 then len else (len / aes_block_size + 1) * aes_block_size

abbrev pub zero_iv : Bytes
zero_iv = 0 ∷ 0 ∷ 0 ∷ 0 ∷ 0 ∷ 0 ∷ 0 ∷ 0 ∷ 0 ∷ 0 ∷ 0 ∷ 0 ∷ 0 ∷ 0 ∷ 0 ∷ 0 ∷ []

module _ (c : Cipher) where
  -- `memory` is what stands from the input's address on: the whole last block is read, also behind
  -- the input's end. The length that is returned, with the bytes that are written; `none` for -1.
  unfoldable pub encrypt : Bytes → ℕ → Aes → Option (ℕ × Bytes)
  encrypt memory len a =
      let size = encrypted_size len in
      if not a.aes_has_init then none else elim (c.set_encrypt_key a.key) [
        | none ↦ none
        | some k ↦ some (size, c.cbc_encrypt k zero_iv (take size memory))
      ]

  -- The bytes that are written to the output; `none` for -1.
  unfoldable pub decrypt : Bytes → ℕ → Aes → Option Bytes
  decrypt memory len a = if not a.aes_has_init then none else elim (c.set_decrypt_key a.key) [
    | none ↦ none
    | some k ↦ some (c.cbc_decrypt k zero_iv (take len memory))
  ]
