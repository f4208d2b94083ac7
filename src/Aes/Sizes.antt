-- ===== src/Aes/Sizes.antt =====
-- Lengths of buffers of encrypt and decrypt of aes_options.c.
use bookshelfdq.Base.{
  ℕ, zero, suc, ◌+◌, ◌%◌, ◌≤◌, ◌<◌, ◌≡◌, refl, ◌∙◌, true, some, List, [], ◌∷◌, take, length, arith,
  take_whole,
}
use bookshelfdq.Aes.{Bytes, Cipher, Aes, aes_block_size, zero_iv, encrypted_size, encrypt, decrypt}

pub encrypted_size_bounds :
    (n : ℕ)
    → (encrypted_size n % aes_block_size ≡ 0)
      × (n ≤ encrypted_size n)
      × (encrypted_size n < n + aes_block_size)
unfolding encrypted_size
encrypted_size_bounds n = (ground arith, ground arith, ground arith)

-- The length of an encrypted buffer of n bytes is whole blocks and holds the n bytes, and every
-- length m of whole blocks that holds them is at least as long.
pub encrypted_size_least :
    (n m : ℕ)
    → m % aes_block_size ≡ 0
    → n ≤ m
    → (encrypted_size n % aes_block_size ≡ 0) × (n ≤ encrypted_size n) × (encrypted_size n ≤ m)
unfolding encrypted_size
encrypted_size_least n m w h = (ground arith, ground arith, ground arith)

pub length-take_full {ℓ} :
    {A : Type ℓ} (n : ℕ) (xs : List A) → n ≤ length xs → length (take n xs) ≡ n
unfolding take
length-take_full zero xs h = refl
length-take_full (suc n) [] h = absurd (omega arith)
length-take_full (suc n) (x ∷ xs) h = omega (arith, length-take_full n xs (omega arith))

-- What the program relies on of OpenSSL: a key of 16 bytes has both schedules, and on whole blocks
-- the decryption undoes the encryption under the same vector, the length unchanged.
pub record IsCipher (c : Cipher) : Type 0 where
  pub enciphers :
      (k : Bytes) → length k ≡ aes_block_size → (e : c.Schedule) × (c.set_encrypt_key k ≡ some e)
  pub deciphers :
      (k : Bytes) → length k ≡ aes_block_size → (d : c.Schedule) × (c.set_decrypt_key k ≡ some d)
  pub length_kept :
      (e : c.Schedule) (iv t : Bytes)
      → length t % aes_block_size ≡ 0
      → length (c.cbc_encrypt e iv t) ≡ length t
  pub undoes :
      (k iv t : Bytes) (e d : c.Schedule)
      → c.set_encrypt_key k ≡ some e
      → c.set_decrypt_key k ≡ some d
      → length t % aes_block_size ≡ 0
      → c.cbc_decrypt d iv (c.cbc_encrypt e iv t) ≡ t

module _ (c : Cipher) (h : IsCipher c) where
  -- A key that is set.
  abbrev pub IsReady : Aes → Type 0
  IsReady a = (a.aes_has_init ≡ true) × (length a.key ≡ aes_block_size)

  -- What encrypt makes of n bytes: as many as encrypted_size says, of which decrypt makes the blocks
  -- that were read.
  pub decrypt-encrypt :
      (memory : Bytes) (n : ℕ) (a : Aes)
      → IsReady a
      → encrypted_size n ≤ length memory
      → (t : Bytes) × (encrypt c memory n a ≡ some (encrypted_size n, t))
        × (length t ≡ encrypted_size n)
        × (decrypt c t (encrypted_size n) a ≡ some (take (encrypted_size n) memory))
  unfolding encrypt decrypt
  decrypt-encrypt memory n a (ready, long) room =
      let (e, he) = h.enciphers a.key long in
      let (d, hd) = h.deciphers a.key long in
      let size = encrypted_size n in
      let m = take size memory in
      let full : length m ≡ size = length-take_full size memory room in
      let whole : length m % aes_block_size ≡ 0 = rw full ((encrypted_size_bounds n).0) in
      let kept : length (c.cbc_encrypt e zero_iv m) ≡ size =
        h.length_kept e zero_iv m whole ∙ full in
      (
        c.cbc_encrypt e zero_iv m,
        ground (arith, ready, he),
        kept,
        ground (
          arith,
          ready,
          hd,
          take_whole size (c.cbc_encrypt e zero_iv m) (omega (arith, kept)),
          h.undoes a.key zero_iv m e d he hd whole,
        ),
      )
