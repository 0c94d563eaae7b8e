-- ===== src/Utp/Packet/Tests.antt =====
-- Runs of the packet header, and its theorems at concrete inputs.
use rustorrent.Common.{◌≡◌, refl, [], ◌∷◌, true, false, arith}
use rustorrent.Common.Outcome.{err}
use rustorrent.Utp.Packet.{
  Header, syn, unknown_packet_type, wrong_version, io, timed_out, header_as_bytes, get_type,
  check_version, packet_type_of, get_version, has_extension, should_continue,
}
use rustorrent.Utp.Packet.Bytes.{IsStored, filled, header_as_bytes-filled}

abbrev sample : Header
sample = filled syn 0x1234 0x01020304 5 0x100000 1 65535

syn_bytes :
    header_as_bytes sample
    ≡ 0x41 ∷ 0 ∷ 0x12 ∷ 0x34 ∷ 1 ∷ 2 ∷ 3 ∷ 4 ∷ 0 ∷ 0 ∷ 0 ∷ 5 ∷ 0 ∷ 16 ∷ 0 ∷ 0 ∷ 0 ∷ 1 ∷ 255 ∷ 255
      ∷ []
unfolding header_as_bytes
syn_bytes = refl

type_five : packet_type_of 0x51 ≡ err unknown_packet_type
unfolding packet_type_of
type_five = refl

version_two : get_type (record sample { type_version = 0x42 }) ≡ err wrong_version
unfolding get_type check_version
version_two = refl

version_of_new : get_version sample ≡ 1
version_of_new = refl

no_extension : has_extension sample ≡ false
unfolding has_extension
no_extension = refl

timeouts_go_on : should_continue (io timed_out) ≡ true
unfolding should_continue
timeouts_go_on = refl

sample-IsStored : IsStored sample
sample-IsStored = omega arith

header_as_bytes-filled_example :
    header_as_bytes sample
    ≡ 0x41 ∷ 0 ∷ 0x12 ∷ 0x34 ∷ 1 ∷ 2 ∷ 3 ∷ 4 ∷ 0 ∷ 0 ∷ 0 ∷ 5 ∷ 0 ∷ 16 ∷ 0 ∷ 0 ∷ 0 ∷ 1 ∷ 255 ∷ 255
      ∷ []
header_as_bytes-filled_example = header_as_bytes-filled syn 0x1234 0x01020304 5 0x100000 1 65535
