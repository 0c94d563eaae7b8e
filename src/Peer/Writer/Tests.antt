-- ===== src/Peer/Writer/Tests.antt =====
-- Messages written and read, on concrete inputs. The handshake of the extension protocol is a number
-- here, and its encoding one byte.
use rustorrent.Common.{ℕ, ◌≡◌, refl, Option, none, some, List, [], ◌∷◌, arith, drop}
use rustorrent.Common.Outcome.{ok, panic}
use rustorrent.Peer.Message.{MessagePeer, choke, extension, message, piece, unknown, try_from}
use rustorrent.Peer.Writer.{BufferWriter, as_ref, write_all, write_msg, consume}
use rustorrent.Peer.Writer.Sent.{IsInside, IsSendable, IsSent, write_msg-IsSent, consume-as_ref}

abbrev encode : ℕ → List ℕ
encode n = n ∷ []

abbrev decode : List ℕ → Option ℕ
decode (n ∷ []) = some n
decode _ = none

-- two bytes held, and one behind the position
abbrev held : BufferWriter
held = record { buffer = 7 ∷ 8 ∷ 9 ∷ []; pos = 2 }

write_msg-choke :
    write_msg encode choke held ≡ ok (record { buffer = 7 ∷ 8 ∷ 0 ∷ 0 ∷ 0 ∷ 1 ∷ 0 ∷ []; pos = 7 })
unfolding write_msg write_all
write_msg-choke = refl

write_msg-unknown : write_msg encode (unknown 1 (1 ∷ [])) held ≡ panic
unfolding write_msg write_all
write_msg-unknown = refl

-- a peer exchange message, id 1, as it is read
try_from-pex :
    try_from decode (20 ∷ 1 ∷ 100 ∷ 101 ∷ []) ≡ ok (extension (message 20 (100 ∷ 101 ∷ [])))
unfolding try_from
try_from-pex = refl

abbrev sample : MessagePeer ℕ
sample = piece 5 2 (1 ∷ 2 ∷ 3 ∷ [])

sample-IsSendable : IsSendable encode decode sample
unfolding IsSendable
sample-IsSendable = (omega arith, omega arith, omega arith)

write_msg-IsSent_example : IsSent encode decode held sample
write_msg-IsSent_example =
    write_msg-IsSent encode decode held sample (omega arith) sample-IsSendable

consume-as_ref_example :
    (w' : BufferWriter) × (consume 1 held ≡ ok w')
    × IsInside w'
    × (as_ref w' ≡ drop 1 (as_ref held))
consume-as_ref_example = consume-as_ref 1 held (omega arith) (omega arith)
