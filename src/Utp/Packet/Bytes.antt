-- ===== src/Utp/Packet/Bytes.antt =====
-- Headers as bytes: the BEP 29 layout and the way back.
use rustorrent.Common.{
  ℕ, ◌+◌, ◌*◌, ◌^◌, ◌<◌, ◌≡◌, refl, List, some, ◌∷◌, ◌++◌, arith, length, write_u16, write_u32,
}
use rustorrent.Common.Outcome.{ok}
use rustorrent.Utp.Packet.{
  Header, PacketType, header_new, header_as_bytes, header_of_bytes, get_type, check_version,
  packet_type_of, set_connection_id, set_timestamp, set_timestamp_diff, set_window_size,
  set_seq_number, set_ack_number, get_connection_id, get_timestamp, get_timestamp_diff,
  get_window_size, get_seq_number, get_ack_number, packet_type_to_u8, data_packet, fin, state,
  reset, syn, swap16, swap32, le16, le32,
}

-- every field fits its width in memory
pub record IsStored (h : Header) : Type 0 where
  pub type_version_in : h.type_version < 256
  pub extension_in : h.extension < 256
  pub connection_id_in : h.connection_id < 2 ^ 16
  pub timestamp_in : h.timestamp_micro < 2 ^ 32
  pub difference_in : h.timestamp_difference_micro < 2 ^ 32
  pub window_in : h.window_size < 2 ^ 32
  pub seq_in : h.seq_nr < 2 ^ 16
  pub ack_in : h.ack_nr < 2 ^ 16

-- Bytes sent as a header and copied over a header give the same header, whatever follows them.
pub header_of_bytes-header_as_bytes :
    {h : Header} (rest : List ℕ)
    → IsStored h
    → header_of_bytes (header_as_bytes h ++ rest) ≡ some (h, rest)
unfolding header_of_bytes header_as_bytes
header_of_bytes-header_as_bytes rest v = ground arith

pub length-header_as_bytes : (h : Header) → length (header_as_bytes h) ≡ 20
unfolding header_as_bytes
length-header_as_bytes h = refl

le16-swap16 : (n : ℕ) → le16 (swap16 n) ≡ write_u16 n
le16-swap16 n = ground arith

le32-swap32 : (n : ℕ) → le32 (swap32 n) ≡ write_u32 n
le32-swap32 n = ground arith

swap16-swap16 : (n : ℕ) → n < 2 ^ 16 → swap16 (swap16 n) ≡ n
swap16-swap16 n h = omega arith

swap32-swap32 : (n : ℕ) → n < 2 ^ 32 → swap32 (swap32 n) ≡ n
swap32-swap32 n h = omega arith

get_type-header_new : (ty : PacketType) → get_type (header_new ty) ≡ ok ty
unfolding get_type check_version packet_type_of
get_type-header_new data_packet = refl
get_type-header_new fin = refl
get_type-header_new state = refl
get_type-header_new reset = refl
get_type-header_new syn = refl

-- the packets that the code makes: a new header and its setters
abbrev pub filled : PacketType → ℕ → ℕ → ℕ → ℕ → ℕ → ℕ → Header
filled ty id time diff window seq ack =
    set_ack_number
      (set_seq_number
        (set_window_size
          (set_timestamp_diff (set_timestamp (set_connection_id (header_new ty) id) time) diff)
          window)
        seq)
      ack

-- Such a header lies in memory as BEP 29 lays it out: type and version 1, no extension, then each
-- number with its high byte first.
pub header_as_bytes-filled :
    (ty : PacketType) (id time diff window seq ack : ℕ)
    → header_as_bytes (filled ty id time diff window seq ack)
      ≡ (packet_type_to_u8 ty * 16 + 1)
        ∷ 0
        ∷ (write_u16 id
            ++ (write_u32 time
                ++ (write_u32 diff ++ (write_u32 window ++ (write_u16 seq ++ write_u16 ack)))))
unfolding header_as_bytes
header_as_bytes-filled ty id time diff window seq ack = ground (
  arith,
  le16-swap16 id,
  le32-swap32 time,
  le32-swap32 diff,
  le32-swap32 window,
  le16-swap16 seq,
  le16-swap16 ack,
)

-- What is set of a new header is what its getters give, and its type is the one it was made with.
pub getters-filled :
    (ty : PacketType) (id time diff window seq ack : ℕ)
    → id < 2 ^ 16
    → time < 2 ^ 32
    → diff < 2 ^ 32
    → window < 2 ^ 32
    → seq < 2 ^ 16
    → ack < 2 ^ 16
    → let h = filled ty id time diff window seq ack in
      (get_type h ≡ ok ty)
      × (get_connection_id h ≡ id)
      × (get_timestamp h ≡ time)
      × (get_timestamp_diff h ≡ diff)
      × (get_window_size h ≡ window)
      × (get_seq_number h ≡ seq)
      × (get_ack_number h ≡ ack)
unfolding get_type check_version packet_type_of
getters-filled ty id time diff window seq ack h₁ h₂ h₃ h₄ h₅ h₆ = (
  get_type-header_new ty,
  swap16-swap16 id h₁,
  swap32-swap32 time h₂,
  swap32-swap32 diff h₃,
  swap32-swap32 window h₄,
  swap16-swap16 seq h₅,
  swap16-swap16 ack h₆,
)
