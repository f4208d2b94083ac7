-- ===== src/Socketcli/Wire.antt =====
-- Both ends of the connection: bsdqclient/socketcli.c sends what bsdqserver/socketsrv.c receives,
-- and the other way.
use bookshelfdq.Base.{
  ℕ, ◌%◌, ◌≤◌, ◌≡◌, ◌≢◌, ◌↔◌, sym, ◌∙◌, Bool, some, ◌++◌, arith, take, length, length-append,
}
use bookshelfdq.Clisrv.{Message, Heartbeat, Layout}
use bookshelfdq.Aes.{Bytes, aes_block_size, Cipher, Aes, encrypted_size, decrypt}
use bookshelfdq.Aes.Sizes.{IsCipher, IsReady, encrypted_size_bounds, decrypt-encrypt}
use bookshelfdq.Socketsrv.{heartbeat, request}
use bookshelfdq.Socketsrv.Receiving.{encrypt_size_hb, socket_srv_receive, answer_packet}
use bookshelfdq.Socketcli.{
  Kernel, is_some, Socket, send_struct, socket_client_send_request, socket_client_send_heartbeat,
  open_packet,
}

-- The layout of a compiler: a message whose texts fit their arrays takes sizeof bytes, from which it
-- is read again, a heartbeat likewise, and there is at least a block of memory behind it.
pub record IsLayout (l : Layout) : Type 1 where
  pub Fits : Message → Type 0
  pub message_sized : (m : Message) → Fits m → length (l.message_bytes m) ≡ l.msg_size
  pub heartbeat_sized :
      (hb : Heartbeat) → length hb.extra_info ≡ 2 → length (l.heartbeat_bytes hb) ≡ l.hb_size
  pub roomy : aes_block_size ≤ length l.behind
  pub reads :
      (m : Message) (n : ℕ)
      → Fits m
      → l.msg_size ≤ n
      → l.message_of (take n (l.message_bytes m ++ l.behind)) ≡ m

module _ (k : Kernel) (c : Cipher) (l : Layout) (hc : IsCipher c) (hl : IsLayout l) where
  room : (bytes : Bytes) (n : ℕ) → length bytes ≡ n → encrypted_size n ≤ length (bytes ++ l.behind)
  room bytes n h =
      omega (arith, length-append bytes l.behind, hl.roomy, (encrypted_size_bounds n).2, h)

  -- An open connection hands one packet to send.
  abbrev pub Sent : Socket k c l → ℕ → Bytes → Bool × Socket k c l → Type 0
  Sent s fd t r =
      r ≡ (is_some (k.send fd t s.world).0, record s { world = (k.send fd t s.world).1 })

  send_struct-Sent :
      (bytes : Bytes) (n fd : ℕ) (s : Socket k c l)
      → length bytes ≡ n
      → s.client_sockfd ≡ some fd
      → IsReady c hc s.aes
      → (t : Bytes) × Sent s fd t (send_struct k c l bytes n s)
        × (length t ≡ encrypted_size n)
        × (decrypt c t (encrypted_size n) s.aes
            ≡ some (take (encrypted_size n) (bytes ++ l.behind)))
  unfolding send_struct
  send_struct-Sent bytes n fd s sized held ready =
      let (t, made, long, back) =
        decrypt-encrypt c hc (bytes ++ l.behind) n s.aes ready (room bytes n sized) in
      (t, ground (arith, held, made), long, back)

  -- A request on an open connection is one packet, which the server with the same key receives as
  -- this request, if its texts fit and a request is not as long as it expects a heartbeat to be.
  pub socket_srv_receive-send_request :
      (m : Message) (s : Socket k c l) (fd : ℕ)
      → hl.Fits m
      → s.client_sockfd ≡ some fd
      → IsReady c hc s.aes
      → encrypted_size l.msg_size ≢ encrypt_size_hb l
      → (t : Bytes) × Sent s fd t (socket_client_send_request k c l m s)
        × (socket_srv_receive c l (some t) s.aes ≡ request m)
  unfolding socket_client_send_request socket_srv_receive
  socket_srv_receive-send_request m s fd fits held ready differ =
      let (t, sent, long, back) =
        send_struct-Sent (l.message_bytes m) l.msg_size fd s (hl.message_sized m fits) held ready in
      let read =
        hl.reads m (encrypted_size l.msg_size) fits ((encrypted_size_bounds l.msg_size).1) in
      (t, sent, rw long (ground (arith, back, read)))

  receive-heartbeat :
      (t : Bytes) (a : Aes)
      → (socket_srv_receive c l (some t) a ≡ heartbeat) ↔ (length t ≡ encrypt_size_hb l)
  unfolding socket_srv_receive
  receive-heartbeat t a = (λ h. ground arith, λ h. ground arith)

  hb_sizes :
      (encrypted_size l.hb_size ≡ encrypt_size_hb l)
      ↔ ((l.msg_size % aes_block_size ≡ 0) ↔ (l.hb_size % aes_block_size ≡ 0))
  unfolding encrypted_size encrypt_size_hb
  hb_sizes =
      (λ e. (λ w. ground arith, λ w. ground arith), λ (there, back). ground (arith, there, back))

  -- A heartbeat on an open connection is one packet, which the server takes for a heartbeat exactly
  -- when both messages or neither are whole blocks.
  pub socket_srv_receive-send_heartbeat :
      (hb : Heartbeat) (s : Socket k c l) (fd : ℕ)
      → length hb.extra_info ≡ 2
      → s.client_sockfd ≡ some fd
      → IsReady c hc s.aes
      → (t : Bytes) × Sent s fd t (socket_client_send_heartbeat k c l hb s)
        × ((socket_srv_receive c l (some t) s.aes ≡ heartbeat)
            ↔ ((l.msg_size % aes_block_size ≡ 0) ↔ (l.hb_size % aes_block_size ≡ 0)))
  unfolding socket_client_send_heartbeat
  socket_srv_receive-send_heartbeat hb s fd two held ready =
      let (t, sent, long, back) =
        send_struct-Sent (l.heartbeat_bytes hb) l.hb_size fd s (hl.heartbeat_sized hb two) held
          ready in
      let (there, back) = receive-heartbeat t s.aes in
      let (alike, whole) = hb_sizes in
      (t, sent, (λ e. alike (sym long ∙ there e), λ e. back (long ∙ whole e)))

  -- Every answer makes a packet.
  pub answer_packet_made :
      (m : Message) (a : Aes)
      → hl.Fits m
      → IsReady c hc a
      → (t : Bytes) × (answer_packet c l m a ≡ some t) × (open_packet k c l (some t) a ≡ some m)
  unfolding answer_packet open_packet
  answer_packet_made m a fits ready =
      let (t, made, long, back) =
        decrypt-encrypt c hc (l.message_bytes m ++ l.behind) l.msg_size a ready
          (room (l.message_bytes m) l.msg_size (hl.message_sized m fits)) in
      let read =
        hl.reads m (encrypted_size l.msg_size) fits ((encrypted_size_bounds l.msg_size).1) in
      (t, ground (arith, made), rw long (ground (arith, back, read)))
