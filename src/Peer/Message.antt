-- ===== src/Peer/Message.antt =====
-- src/peer/message.rs and `ExtendedMessage` of src/extensions/mod.rs. `H` is the handshake of the
-- extension protocol, and `decode` its bencoded reading, which serde derives.
use rustorrent.Common.{ℕ, zero, suc, Option, List, [], ◌∷◌, ◌==◌, if◌then◌else◌, read_u16, read_u32}
use rustorrent.Common.Outcome.{Outcome, ok, err, ◌>>=◌, ok_or}

pub data ExtendedMessage (H : Type 0) : Type 0 where
  handshake : H → ExtendedMessage H
  message : (id : ℕ) → (buffer : List ℕ) → ExtendedMessage H

pub data MessagePeer (H : Type 0) : Type 0 where
  keep_alive choke un_choke interested not_interested : MessagePeer H
  have : (piece_index : ℕ) → MessagePeer H
  bit_field : List ℕ → MessagePeer H
  request : (piece block length : ℕ) → MessagePeer H
  piece : (piece block : ℕ) → List ℕ → MessagePeer H
  cancel : (piece block length : ℕ) → MessagePeer H
  port : ℕ → MessagePeer H
  extension : ExtendedMessage H → MessagePeer H
  handshake : (info_hash extern_id : List ℕ) → MessagePeer H
  unknown : (id : ℕ) → (buffer : List ℕ) → MessagePeer H

-- the errors that `?` passes on: the end of a `Cursor`, and the decoder's
pub data MessageError : Type 0 where
  unexpected_eof deserialize_error : MessageError

module _ {H : Type 0} where
  -- three `read_u32` of the cursor
  unfoldable read_three :
      (ℕ → ℕ → ℕ → MessagePeer H) → List ℕ → Outcome MessageError (MessagePeer H)
  read_three f buffer = ok_or (read_u32 buffer) unexpected_eof >>= λ (a, r).
      ok_or (read_u32 r) unexpected_eof >>= λ (b, r').
      ok_or (read_u32 r') unexpected_eof >>= λ (c, r''). ok (f a b c)

module _ {H : Type 0} (decode : List ℕ → Option H) where
  -- the arm 20: `buffer[1..]` is what `read_u8` left, and `id` is still that of the message.
  unfoldable pub read_extension : ℕ → List ℕ → Outcome MessageError (MessagePeer H)
  read_extension id [] = err unexpected_eof
  read_extension id (zero ∷ r) =
      ok_or (decode r) deserialize_error >>= λ h. ok (extension (handshake h))
  read_extension id (suc n ∷ r) = ok (extension (message id r))

  unfoldable pub read_message : ℕ → List ℕ → Outcome MessageError (MessagePeer H)
  unfolding read_three read_extension
  read_message id buffer =
      if id == 0
      then ok choke
      else if id == 1
      then ok un_choke
      else if id == 2
      then ok interested
      else if id == 3
      then ok not_interested
      else if id == 4
      then (ok_or (read_u32 buffer) unexpected_eof >>= λ (n, r). ok (have n))
      else if id == 5
      then ok (bit_field buffer)
      else if id == 6
      then read_three request buffer
      else if id == 7
      then (ok_or (read_u32 buffer) unexpected_eof >>= λ (p, r).
          ok_or (read_u32 r) unexpected_eof >>= λ (b, block). ok (piece p b block))
      else if id == 8
      then read_three cancel buffer
      else if id == 9
      then (ok_or (read_u16 buffer) unexpected_eof >>= λ (n, r). ok (port n))
      else if id == 20
      then read_extension id buffer
      else ok (unknown id buffer)

  -- `TryFrom<&[u8]>::try_from`
  unfoldable pub try_from : List ℕ → Outcome MessageError (MessagePeer H)
  unfolding read_message
  try_from [] = ok keep_alive
  try_from (id ∷ buffer) = read_message id buffer
