-- ===== src/Socketcli.antt =====
-- bsdqclient/socketcli.c: the client's end of the connection. The system calls are a parameter, as
-- are the cipher and the layout of the messages.
pub mod Wire
pub mod Closed
use bookshelfdq.Base.{
  ℕ, Text, ℤ, Bool, true, false, Option, none, some, List, ◌++◌, ◌==◌, if◌then◌else◌, not, length,
}
use bookshelfdq.Clisrv.{Message, Heartbeat, Layout}
use bookshelfdq.Aes.{Bytes, Cipher, Aes, aes_init, encrypted_size, encrypt, decrypt}

-- socket, setsockopt and connect (true where they succeed), send with the number of bytes written,
-- recv with MSG_WAITALL, and close; a descriptor of -1 is `none`, as is a call that returns -1.
pub record Kernel : Type 1 where
  pub World : Type 0
  pub socket : World → Option ℕ × World
  pub setsockopt : ℕ → World → Bool × World
  pub connect : ℕ → Text → World → Bool × World
  pub send : ℕ → Bytes → World → Option ℕ × World
  pub recv : ℕ → ℕ → World → Option Bytes × World
  pub close : Option ℕ → World → World

abbrev pub is_some {ℓ} : {A : Type ℓ} → Option A → Bool
is_some none = false
is_some (some x) = true

module _ (k : Kernel) (c : Cipher) (l : Layout) where
  pub record Socket : Type 0 where
    pub client_sockfd : Option ℕ
    pub aes : Aes
    pub world : k.World

  -- The file of the key is read where the server was reached.
  unfoldable pub socket_client_init : Text → Option Text → List ℤ → Socket → Bool × Socket
  socket_client_init host opened tkey s =
      let (got, w1) = k.socket s.world in
      let s1 = record s { client_sockfd = got; world = w1 } in
      elim got [
        | none ↦ (false, s1)
        | some fd ↦
            let (set, w2) = k.setsockopt fd w1 in
            let (connected, w3) = k.connect fd host w2 in
            let (ready, aes1) = aes_init opened tkey s.aes in
            if not set
            then (false, record s1 { world = w2 })
            else if not connected
            then (false, record s1 { world = w3 })
            else (ready, record s1 { world = w3; aes = aes1 })
      ]

  -- The descriptor is overwritten before it is closed.
  unfoldable pub socket_client_close : Socket → Socket
  socket_client_close s = record s { client_sockfd = none; world = k.close none s.world }

  -- What socket_client_send_request and socket_client_send_heartbeat do with a struct of a size.
  unfoldable pub send_struct : Bytes → ℕ → Socket → Bool × Socket
  send_struct bytes size s = elim s.client_sockfd [
    | none ↦ (false, s)
    | some fd ↦ elim (encrypt c (bytes ++ l.behind) size s.aes) [
      | none ↦ (false, s)
      | some (n, stream) ↦
          let (written, w1) = k.send fd stream s.world in (is_some written, record s { world = w1 })
    ]
  ]

  unfoldable pub socket_client_send_request : Message → Socket → Bool × Socket
  unfolding send_struct
  socket_client_send_request msg s = send_struct (l.message_bytes msg) l.msg_size s

  unfoldable pub socket_client_send_heartbeat : Heartbeat → Socket → Bool × Socket
  unfolding send_struct
  socket_client_send_heartbeat hb s = send_struct (l.heartbeat_bytes hb) l.hb_size s

  -- The message that a packet of the wanted length decrypts to.
  unfoldable pub open_packet : Option Bytes → Aes → Option Message
  open_packet none a = none
  open_packet (some stream) a =
      if not (length stream == encrypted_size l.msg_size)
      then none
      else elim (decrypt c stream (length stream) a) [
        | none ↦ none
        | some plain ↦ some (l.message_of plain)
      ]

  -- The response, where 1 is returned.
  unfoldable pub socket_client_get_response : Socket → Option Message × Socket
  unfolding open_packet
  socket_client_get_response s = elim s.client_sockfd [
    | none ↦ (none, s)
    | some fd ↦
        let (stream, w1) = k.recv fd (encrypted_size l.msg_size) s.world in
        (open_packet stream s.aes, record s { world = w1 })
  ]
