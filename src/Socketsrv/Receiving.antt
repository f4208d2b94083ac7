-- ===== src/Socketsrv/Receiving.antt =====
-- bsdqserver/socketsrv.c: how socket_srv_process_request tells a heartbeat, a request and a broken
-- packet apart, and how it sends an answer.
use bookshelfdq.Base.{ℕ, ◌+◌, ◌*◌, ◌/◌, ◌%◌, Option, none, some, ◌++◌, ◌==◌, if◌then◌else◌, length}
use bookshelfdq.Clisrv.{Message, Layout}
use bookshelfdq.Aes.{Bytes, aes_block_size, Cipher, Aes, encrypted_size, encrypt, decrypt}
use bookshelfdq.Socketsrv.{Received, heartbeat, bad_length, read_error, undecodable, request}

module _ (l : Layout) where
  -- The source tests the size of the other message.
  unfoldable pub encrypt_size_hb : ℕ
  encrypt_size_hb =
      if l.msg_size % aes_block_size == 0
      then l.hb_size
      else (l.hb_size / aes_block_size + 1) * aes_block_size

module _ (c : Cipher) (l : Layout) where
  -- Of what recv returned, `none` for -1.
  unfoldable pub socket_srv_receive : Option Bytes → Aes → Received
  socket_srv_receive none a = read_error
  socket_srv_receive (some stream) a =
      if length stream == encrypt_size_hb l
      then heartbeat
      else if length stream == encrypted_size l.msg_size
      then elim (decrypt c stream (length stream) a) [
        | none ↦ undecodable
        | some plain ↦ request (l.message_of plain)
      ]
      else bad_length

  -- The packet of an answer, `none` where encrypt fails.
  unfoldable pub answer_packet : Message → Aes → Option Bytes
  answer_packet msg a = elim (encrypt c (l.message_bytes msg ++ l.behind) l.msg_size a) [
    | none ↦ none
    | some (n, stream) ↦ some stream
  ]
