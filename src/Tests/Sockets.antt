-- ===== src/Tests/Sockets.antt =====
-- The encrypted connection at concrete inputs: a kernel that is the packets on its one line, a cipher
-- that swaps neighbouring bytes' values, and messages that differ in one number.
use bookshelfdq.Base.{
  ℕ, zero, suc, ◌+◌, ◌-◌, ◌%◌, ◌≤◌, ◌<◌, ◌≡◌, ◌≢◌, ◌↔◌, refl, true, false, none, some, List, [],
  ◌∷◌, ◌++◌, map, pos, ℤ, ◌==◌, if◌then◌else◌, length, take, arith, sym, length-append,
}
use bookshelfdq.Clisrv.{Message, Heartbeat, Layout, req_heartbeat, r_success}
use bookshelfdq.Aes.{Bytes, Cipher, Aes, aes_block_size, aes_init, encrypted_size, encrypt}
use bookshelfdq.Aes.Key.{gen_aes_key, key_fields}
use bookshelfdq.Aes.Sizes.{IsCipher}
use bookshelfdq.Aes.Scanning.{aes_init-gen_aes_key}
use bookshelfdq.Socketsrv.{heartbeat, request}
use bookshelfdq.Socketsrv.Receiving.{encrypt_size_hb, socket_srv_receive, answer_packet}
use bookshelfdq.Socketcli.{
  Kernel, Socket, socket_client_send_request, socket_client_send_heartbeat, socket_client_close,
  socket_client_get_response,
}
use bookshelfdq.Socketcli.Wire.{
  IsLayout, Sent, socket_srv_receive-send_request, socket_srv_receive-send_heartbeat,
}
use bookshelfdq.Socketcli.Closed.{
  get_response-bad_length, socket_client_close-refuses, get_response-answer_packet,
}
use bookshelfdq.Tests.Engine.{a_message}

abbrev pub swapped : ℕ → ℕ
swapped n = if n % 2 == 0 then n + 1 else n - 1

swapped_twice : (t : Bytes) → map swapped (map swapped t) ≡ t
swapped_twice [] = refl
swapped_twice (x ∷ t) = ground (arith, swapped_twice t)

length-swapped : (t : Bytes) → length (map swapped t) ≡ length t
length-swapped [] = refl
length-swapped (x ∷ t) = omega (arith, length-swapped t)

abbrev pub swapping : Cipher
swapping = record {
  Schedule = Bytes;
  set_encrypt_key = λ k. some k;
  set_decrypt_key = λ k. some k;
  cbc_encrypt = λ k iv t. map swapped t;
  cbc_decrypt = λ k iv t. map swapped t;
}

swapping-IsCipher : IsCipher swapping
swapping-IsCipher = record {
  enciphers = λ k h. (k, refl);
  deciphers = λ k h. (k, refl);
  length_kept = λ e iv t h. length-swapped t;
  undoes = λ k iv t e d he hd h. swapped_twice t;
}

abbrev pub zeros : ℕ → Bytes
zeros zero = []
zeros (suc n) = 0 ∷ zeros n

abbrev pub numbered : ℕ → Message
numbered n = record a_message { user = n ∷ [] }

abbrev pub number_in : List ℕ → ℕ
number_in [] = 0
number_in (n ∷ t) = n

-- sizeof(message_cs_t) is 704 and sizeof(heartbeat_cs_t) 16 where an int takes four bytes.
abbrev pub plain_layout : Layout
plain_layout = record {
  msg_size = 704;
  hb_size = 16;
  message_bytes = λ m. number_in m.user ∷ zeros 703;
  heartbeat_bytes = λ hb. hb.extra_info ++ zeros 14;
  message_of = λ t. numbered (number_in t);
  behind = zeros 16;
}

reads_number :
    (m : Message) (n : ℕ)
    → m ≡ numbered (number_in m.user)
    → 704 ≤ n
    → numbered (number_in (take n ((number_in m.user ∷ zeros 703) ++ zeros 16))) ≡ m
unfolding take
reads_number m zero f h = absurd (omega arith)
reads_number m (suc n) f h = sym f

room_behind : aes_block_size ≤ length (zeros 16)
room_behind = omega arith

two_numbers : (hb : Heartbeat) → length hb.extra_info ≡ 2 → length (hb.extra_info ++ zeros 14) ≡ 16
two_numbers hb two = omega (arith, length-append hb.extra_info (zeros 14))

abbrev plain_layout-IsLayout : IsLayout plain_layout
plain_layout-IsLayout = record {
  Fits = λ m. m ≡ numbered (number_in m.user);
  message_sized = λ m f. refl;
  heartbeat_sized = two_numbers;
  roomy = room_behind;
  reads = reads_number;
}

-- What was sent, the last packet first.
abbrev pub one_line : Kernel
one_line = record {
  World = List Bytes;
  socket = λ w. (some 3, w);
  setsockopt = λ fd w. (true, w);
  connect = λ fd host w. (true, w);
  send = λ fd t w. (some (length t), t ∷ w);
  recv = λ fd n w. elim w [ [] ↦ (none, []) | t ∷ ts ↦ (some t, ts) ];
  close = λ fd w. w;
}

abbrev pub an_aes : Aes
an_aes = record { key = zeros 16; aes_has_init = true }

abbrev pub at_line : List Bytes → Socket one_line swapping plain_layout
at_line w = record { client_sockfd = some 3; aes = an_aes; world = w }

abbrev seven : Message
seven = numbered 7

sizes_differ : encrypted_size plain_layout.msg_size ≢ encrypt_size_hb plain_layout
unfolding encrypted_size encrypt_size_hb
sizes_differ = omega arith

send_request_example :
    (t : Bytes) × Sent one_line swapping plain_layout swapping-IsCipher plain_layout-IsLayout
      (at_line [])
      3
      t
      (socket_client_send_request one_line swapping plain_layout seven (at_line []))
    × (socket_srv_receive swapping plain_layout (some t) an_aes ≡ request seven)
send_request_example =
    socket_srv_receive-send_request one_line swapping plain_layout swapping-IsCipher
      plain_layout-IsLayout seven (at_line []) 3 refl refl (refl, refl) sizes_differ

abbrev a_heartbeat : Heartbeat
a_heartbeat = record { request = req_heartbeat; response = r_success; extra_info = 0 ∷ 0 ∷ [] }

send_heartbeat_example :
    (t : Bytes) × Sent one_line swapping plain_layout swapping-IsCipher plain_layout-IsLayout
      (at_line [])
      3
      t
      (socket_client_send_heartbeat one_line swapping plain_layout a_heartbeat (at_line []))
    × ((socket_srv_receive swapping plain_layout (some t) an_aes ≡ heartbeat)
        ↔ ((704 % aes_block_size ≡ 0) ↔ (16 % aes_block_size ≡ 0)))
send_heartbeat_example =
    socket_srv_receive-send_heartbeat one_line swapping plain_layout swapping-IsCipher
      plain_layout-IsLayout a_heartbeat (at_line []) 3 refl refl (refl, refl)

abbrev seven_packet : Bytes
seven_packet = 6 ∷ map swapped (zeros 703)

seven_packed : answer_packet swapping plain_layout seven an_aes ≡ some seven_packet
unfolding answer_packet encrypt encrypted_size take
seven_packed = refl

get_response_example :
    socket_client_get_response one_line swapping plain_layout (at_line (seven_packet ∷ []))
    ≡ (some seven, at_line [])
get_response_example =
    get_response-answer_packet one_line swapping plain_layout swapping-IsCipher
      plain_layout-IsLayout seven (at_line (seven_packet ∷ [])) 3 seven_packet [] refl refl
      (refl, refl) seven_packed refl

half_packet : length (zeros 352) ≢ encrypted_size plain_layout.msg_size
unfolding encrypted_size
half_packet = omega arith

bad_length_example :
    socket_client_get_response one_line swapping plain_layout (at_line (zeros 352 ∷ []))
    ≡ (none, at_line [])
bad_length_example =
    get_response-bad_length one_line swapping plain_layout (at_line (zeros 352 ∷ [])) 3 (zeros 352)
      [] refl refl half_packet

closed_example :
    let s1 = socket_client_close one_line swapping plain_layout (at_line []) in
    (socket_client_send_request one_line swapping plain_layout seven s1 ≡ (false, s1))
    × (socket_client_send_heartbeat one_line swapping plain_layout a_heartbeat s1 ≡ (false, s1))
    × (socket_client_get_response one_line swapping plain_layout s1 ≡ (none, s1))
    × (s1.world ≡ [])
closed_example =
    socket_client_close-refuses one_line swapping plain_layout (at_line []) (λ w. refl) seven
      a_heartbeat

abbrev rands : List ℕ
rands = 7 ∷ 300 ∷ 255 ∷ 254 ∷ 1 ∷ 2 ∷ 3 ∷ 4 ∷ 5 ∷ 6 ∷ 99 ∷ 100 ∷ 10 ∷ 9 ∷ 1000 ∷ 0 ∷ []

abbrev no_key : Aes
no_key = record { key = []; aes_has_init = false }

abbrev old_stack : List ℤ
old_stack = map (λ n. pos n) (zeros 16)

key_file_example :
    (aes_init (some (gen_aes_key rands)) old_stack no_key
      ≡ (true, record { key = map (λ r. r % 255) rands; aes_has_init = true }))
    × (length (key_fields rands) < 128)
key_file_example = aes_init-gen_aes_key rands old_stack no_key refl refl refl
