-- ===== src/Lib.antt =====
-- rustorrent, a BitTorrent client: its formats and the arithmetic between them.
--
-- The program reads a torrent file (src/bencode/de.rs, src/metadata.rs), cuts the files that it
-- names into pieces and blocks (src/pieces.rs), and asks peers for the blocks with the messages of
-- src/peer/message.rs, which src/peer/writer.rs collects in a buffer, over TCP or over uTP packets
-- (src/utp/mod.rs). The development follows that path:
--
-- - Common: lists and words over the native numbers, tests, and results that may be errors or
--   panics.
-- - Bencode: src/bencode/de.rs (Reader and De) and src/bencode/ser.rs (Ser), between them the type
--   Value. The reader's state is the record Deserializer with the code's fields; a pointer into the
--   input is the input from there on. The visitor is the one that keeps every value. After and Quiet
--   describe the reader's state behind a value, Work the calls that it costs, Visits each call.
-- - Torrent: the metadata of src/metadata.rs and the checks of `read_meta` in src/bencode/de.rs.
-- - Pieces: src/pieces.rs, the sizes that `Pieces::from` computes and the iterator
--   `IterTaskDownload` over the blocks of a task.
-- - Picker: src/piece_picker.rs, which pieces a peer is asked for. Pick has the loop of
--   `pick_piece_inner` and its closures; Calls runs histories of the calls of a torrent's
--   supervisor (src/supervisors/torrent.rs), each with a shuffle of its own.
--   What the picker asks of the collector is the record Collector.
-- - Collect: src/piece_collector.rs, the blocks that have come in, as sorted ranges of bytes and the
--   buffer of each piece (Metadata). Its as_collector fills the record Collector of the picker.
-- - Fs: src/fs/mod.rs and src/fs/standard_fs.rs, where the bytes of a piece are in the files of a
--   torrent, and its writes (Write) and reads (Read) on a disk that is a function of paths and does not
--   fail: the panic of `unwrap` on an I/O error of a write is not modelled.
-- - BitField: src/bitfield.rs, the pieces that a peer has.
-- - Peer: src/peer/message.rs (Message) and `BufferWriter` of src/peer/writer.rs (Writer).
-- - Spsc: src/spsc/mod.rs, the queue between a producer and a consumer, one call a step: each index
--   has one writer. Places has the arithmetic of its indices, Fifo the queue as a list.
-- - Utp: src/utp/mod.rs, in modules for sequence numbers (Seq), delays and their history (Delay), the
--   header (Packet), packets with their payload (Datagram) and selective acks (Sack). Ack is
--   src/utp/ack_bitfield.rs, the packets that have come in out of order; State and Stream are the two
--   halves of src/utp/stream.rs, what a connection keeps of its packets in flight and what its reader
--   gets. Manager is `UtpManager` of src/utp/manager.rs: what it sends, with Resend (packets again), Receive
--   (acks, losses, the window) and Dispatch (an event, and the loop of `start`). What is around a manager is in its
--   record: the answers that the socket will give, what it took, and the channel to the stream.
--
-- Unsigned integers are natural numbers, with the wrap-around of their width written out where the
-- code's arithmetic can reach it; an `i64` of a bencoded number is its 64-bit pattern. The
-- arithmetic is that of a release build, which wraps. A panic is a value of its own where the code
-- can panic.
--
-- Recursion and loops that are not structural run on fuel. The bencode reader is given two units for
-- each byte of the input, one for the value and one for the end that follows it. An iteration is
-- given one call more than it has items, and a loop inside a call two rounds where the code leaves it
-- in the second. A binary search has as many rounds as elements, and the iterator of empty ranges one
-- more than the piece has bytes. A read of a stream takes a packet out of the map in every round but the
-- last, and the loop over a packet's extensions has one round more than the packet has bytes.
--
-- Parameters stand for what is not in the repository: the digest of the crate sha1, and the bencoded
-- form of the extension handshake, which serde derives; the gain that the crate fixed computes for the
-- window of a manager, its random numbers, and the readings of the clock, which stands still while an
-- event is handled. The standard library's vectors, slices and
-- cursors are modelled by what the code uses of them.
--
-- Not modelled: sockets, asynchronous tasks, io_uring (with src/fs/uring_fs.rs) and the processor's
-- SHA instructions, which are I/O or machine code; and src/peer/peer.rs and
-- the trackers, which are outside this development; src/utp/writer.rs and src/utp/socket.rs, which are
-- not compiled; of src/utp/stream.rs, the wakers and the writes, which are passed to the manager; of
-- src/spsc/mod.rs, `push_slice` and the memory orderings; of src/fs, the map of torrents and the messages.
pub mod Common
pub mod Bencode
pub mod Torrent
pub mod Pieces
pub mod Utp
pub mod Peer
pub mod BitField
pub mod Spsc
pub mod Picker
pub mod Collect
pub mod Fs
