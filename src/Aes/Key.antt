-- ===== src/Aes/Key.antt =====
-- bsdqserver/aes/gen_aes_key.c: the file that AES_init reads.
use bookshelfdq.Base.{ℕ, ◌+◌, ◌/◌, ◌%◌, Text, List, [], ◌∷◌, ◌++◌, ltb, if◌then◌else◌}

-- %d of a value below 1000, as those of an unsigned char are.
unfoldable pub print_byte : ℕ → Text
print_byte n =
    if ltb n 10
    then (b'0' + n) ∷ []
    else if ltb n 100
    then (b'0' + n / 10) ∷ (b'0' + n % 10) ∷ []
    else (b'0' + n / 100) ∷ (b'0' + n / 10 % 10) ∷ (b'0' + n % 10) ∷ []

-- What the loop makes of the numbers that rand returns, each with a comma behind it.
unfoldable pub key_fields : List ℕ → Text
unfolding print_byte
key_fields [] = []
key_fields (r ∷ rs) = print_byte (r % 255) ++ b',' ∷ key_fields rs

-- key[strlen(key)-1] = '\0'
unfoldable pub cut_last : Text → Text
cut_last [] = []
cut_last (c ∷ []) = []
cut_last (c ∷ d ∷ s) = c ∷ cut_last (d ∷ s)

unfoldable pub gen_aes_key : List ℕ → Text
unfolding key_fields cut_last
gen_aes_key rands = cut_last (key_fields rands)
