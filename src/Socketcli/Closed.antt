-- ===== src/Socketcli/Closed.antt =====
-- bsdqclient/socketcli.c: responses that are received or refused, and a connection that is closed.
use bookshelfdq.Base.{ℕ, ◌≡◌, ◌≢◌, refl, false, none, some, arith, length}
use bookshelfdq.Clisrv.{Message, Heartbeat, Layout}
use bookshelfdq.Aes.{Bytes, Cipher, encrypted_size}
use bookshelfdq.Aes.Sizes.{IsCipher, IsReady}
use bookshelfdq.Socketsrv.Receiving.{answer_packet}
use bookshelfdq.Socketcli.{
  Kernel, Socket, send_struct, socket_client_send_request, socket_client_send_heartbeat,
  socket_client_close, open_packet, socket_client_get_response,
}
use bookshelfdq.Socketcli.Wire.{IsLayout, answer_packet_made}

module _ (k : Kernel) (c : Cipher) (l : Layout) where
  -- A response that is cut short or too long is refused, and only the connection moves on.
  pub get_response-bad_length :
      (s : Socket k c l) (fd : ℕ) (t : Bytes) (w : k.World)
      → s.client_sockfd ≡ some fd
      → k.recv fd (encrypted_size l.msg_size) s.world ≡ (some t, w)
      → length t ≢ encrypted_size l.msg_size
      → socket_client_get_response k c l s ≡ (none, record s { world = w })
  unfolding socket_client_get_response open_packet
  get_response-bad_length s fd t w held came differ = ground (arith, held, came)

  -- After socket_client_close nothing is sent or received any more, and where closing -1 changes
  -- nothing, the kernel is left as it was: the descriptor that was held stays open.
  pub socket_client_close-refuses :
      (s : Socket k c l)
      → ((w : k.World) → k.close none w ≡ w)
      → (m : Message) (hb : Heartbeat)
      → let s1 = socket_client_close k c l s in
        (socket_client_send_request k c l m s1 ≡ (false, s1))
        × (socket_client_send_heartbeat k c l hb s1 ≡ (false, s1))
        × (socket_client_get_response k c l s1 ≡ (none, s1))
        × (s1.world ≡ s.world)
  unfolding socket_client_close socket_client_send_request socket_client_send_heartbeat send_struct
      socket_client_get_response
  socket_client_close-refuses s nothing m hb = (refl, refl, refl, nothing s.world)

  -- The packet that the server makes of an answer is received by an open client with the same key
  -- as this answer, if its texts fit their arrays.
  pub get_response-answer_packet :
      (hc : IsCipher c) (hl : IsLayout l) (m : Message) (s : Socket k c l) (fd : ℕ) (t : Bytes)
      (w : k.World)
      → hl.Fits m
      → s.client_sockfd ≡ some fd
      → IsReady c hc s.aes
      → answer_packet c l m s.aes ≡ some t
      → k.recv fd (encrypted_size l.msg_size) s.world ≡ (some t, w)
      → socket_client_get_response k c l s ≡ (some m, record s { world = w })
  unfolding socket_client_get_response
  get_response-answer_packet hc hl m s fd t w fits held ready packed came =
      let (t1, made, opened) = answer_packet_made k c l hc hl m s.aes fits ready in
      ground (arith, held, came, packed, made, opened)
