-- ===== src/Peer/Writer.antt =====
-- src/peer/writer.rs, `BufferWriter`. `encode` is the bencoding of an extension handshake, which serde
-- derives.
pub mod Sent
mod Tests
use rustorrent.Common.{
  ℕ, ◌+◌, ◌-◌, ◌%◌, ◌^◌, ◌≡◌, Bool, true, false, List, [], ◌∷◌, ◌++◌, ◌==◌, ltb, if◌then◌else◌,
  length, take, drop, replicate, wrapping_add, write_u16, write_u32,
}
use rustorrent.Common.Outcome.{Outcome, ok, err, panic}
use rustorrent.Peer.Message.{
  MessagePeer, ExtendedMessage, MessageError, keep_alive, choke, un_choke, interested,
  not_interested, have, bit_field, request, piece, cancel, port, extension, handshake, message,
  unknown,
}

pub record BufferWriter : Type 0 where
  pub buffer : List ℕ
  pub pos : ℕ

-- `BufferWriter::new`: a capacity is no content.
abbrev pub buffer_writer_new : ℕ → BufferWriter
buffer_writer_new capacity = record { buffer = []; pos = 0 }

-- `AsRef<[u8]>`, for a position inside the buffer
abbrev pub as_ref : BufferWriter → List ℕ
as_ref w = take w.pos w.buffer

abbrev pub len : BufferWriter → ℕ
len w = w.pos

abbrev pub is_empty : BufferWriter → Bool
is_empty w = w.pos == 0

-- `copy_within(nbytes..pos, 0)`
unfoldable pub copy_within : ℕ → ℕ → List ℕ → List ℕ
copy_within nbytes pos buffer = drop nbytes (take pos buffer) ++ drop (pos - nbytes) buffer

unfoldable pub consume : ℕ → BufferWriter → Outcome MessageError BufferWriter
unfolding copy_within
consume nbytes w =
    if nbytes == w.pos
    then ok (record w { pos = 0 })
    else if ltb nbytes w.pos
    then ok (record { buffer = copy_within nbytes w.pos w.buffer; pos = w.pos - nbytes })
    else panic

-- `write_all` on a `Cursor<&mut Vec<u8>>` at `pos`: it writes over what is there, and beyond the end
-- of the vector, which it fills up with zeros to the position.
unfoldable pub write_all : BufferWriter → List ℕ → BufferWriter
write_all w bytes = record {
  buffer =
      ((take w.pos w.buffer ++ replicate (w.pos - length w.buffer) 0) ++ bytes)
      ++ drop (w.pos + length bytes) w.buffer;
  pos = w.pos + length bytes;
}

abbrev pub cursor_u8 : BufferWriter → ℕ → BufferWriter
cursor_u8 w n = write_all w (n ∷ [])

abbrev pub cursor_u16 : BufferWriter → ℕ → BufferWriter
cursor_u16 w n = write_all w (write_u16 n)

abbrev pub cursor_u32 : BufferWriter → ℕ → BufferWriter
cursor_u32 w n = write_all w (write_u32 n)

-- `n + slice.len() as u32`
abbrev pub length_prefix : ℕ → List ℕ → ℕ
length_prefix n slice = wrapping_add 32 n (length slice % 2 ^ 32)

-- `b"BitTorrent protocol"`
abbrev protocol : List ℕ
protocol =
    b'B' ∷ b'i' ∷ b't' ∷ b'T' ∷ b'o' ∷ b'r' ∷ b'r' ∷ b'e' ∷ b'n' ∷ b't' ∷ b' ' ∷ b'p' ∷ b'r' ∷ b'o'
    ∷ b't' ∷ b'o' ∷ b'c' ∷ b'o' ∷ b'l' ∷ []

abbrev reserved : List ℕ
reserved = 0 ∷ 0 ∷ 0 ∷ 0 ∷ 0 ∷ 0x10 ∷ 0 ∷ 0 ∷ []

module _ {H : Type 0} (encode : H → List ℕ) where
  unfoldable pub write_msg : MessagePeer H → BufferWriter → Outcome MessageError BufferWriter
  write_msg choke w = ok (cursor_u8 (cursor_u32 w 1) 0)
  write_msg un_choke w = ok (cursor_u8 (cursor_u32 w 1) 1)
  write_msg interested w = ok (cursor_u8 (cursor_u32 w 1) 2)
  write_msg not_interested w = ok (cursor_u8 (cursor_u32 w 1) 3)
  write_msg (have piece_index) w = ok (cursor_u32 (cursor_u8 (cursor_u32 w 5) 4) piece_index)
  write_msg (bit_field bitfield) w =
      ok (write_all (cursor_u8 (cursor_u32 w (length_prefix 1 bitfield)) 5) bitfield)
  write_msg (request index begin length) w =
      ok (cursor_u32 (cursor_u32 (cursor_u32 (cursor_u8 (cursor_u32 w 13) 6) index) begin) length)
  write_msg (piece index block bytes) w = ok (
      write_all
        (cursor_u32 (cursor_u32 (cursor_u8 (cursor_u32 w (length_prefix 9 bytes)) 7) index) block)
        bytes)
  write_msg (cancel index block length) w =
      ok (cursor_u32 (cursor_u32 (cursor_u32 (cursor_u8 (cursor_u32 w 13) 8) index) block) length)
  write_msg (port n) w = ok (cursor_u16 (cursor_u8 (cursor_u32 w 3) 9) n)
  write_msg keep_alive w = ok (cursor_u32 w 0)
  write_msg (extension (handshake h)) w =
      let bytes = encode h in
      ok (write_all (cursor_u8 (cursor_u8 (cursor_u32 w (length_prefix 2 bytes)) 20) 0) bytes)
  write_msg (extension (message id buffer)) w =
      ok (write_all (cursor_u8 (cursor_u8 (cursor_u32 w (length_prefix 2 buffer)) 20) id) buffer)
  write_msg (handshake info_hash extern_id) w = ok (
      write_all (write_all (write_all (write_all (cursor_u8 w 19) protocol) reserved) info_hash)
        extern_id)
  write_msg (unknown id buffer) w = panic
