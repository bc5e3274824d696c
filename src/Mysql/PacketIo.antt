-- ===== src/Mysql/PacketIo.antt =====
-- The packets of the MySQL protocol: mysql/packetio.go. The reader is the bytes that are still to
-- come, the writer those that were written.
pub mod Frames
use kingshard.Prelude.{
  ℕ, zero, suc, ◌+◌, ◌-◌, ◌*◌, ◌/◌, ◌%◌, Bytes, List, [], ◌∷◌, ◌++◌, Option, none, some, Bool, true,
  false, ltb, leb, ◌==◌, not, if◌then◌else◌, length, take, drop,
}
use kingshard.Outcome.{Result, Error, ok, err, panic, ◌>>=◌}
use kingshard.Outcome.Error.{bad_conn, invalid_payload_length, invalid_sequence}

-- MaxPayloadLen, 1<<24 - 1.
unfoldable pub max_payload_len : ℕ
max_payload_len = 16777215

-- `io.ReadFull` of `n` bytes: what is read and what is left, or an error if the bytes end before.
unfoldable pub read_full : ℕ → Bytes → Option (Bytes × Bytes)
read_full n rb = if leb n (length rb) then some (take n rb, drop n rb) else none

-- The payload length and the sequence number of a header.
unfoldable pub header_length : Bytes → ℕ
header_length (a ∷ b ∷ c ∷ d ∷ []) = a + b * 256 + c * 65536
header_length _ = 0

unfoldable pub header_sequence : Bytes → ℕ
header_sequence (a ∷ b ∷ c ∷ d ∷ []) = d
header_sequence _ = 0

-- A packet with the ones that follow it, the bytes that are left, and the sequence number.
abbrev pub Received : Type 0
Received = Result (Bytes × Bytes × ℕ)

-- The packets after one of the full length; every error of theirs is a bad connection.
abbrev pub joined : Bytes → Received → Received
joined body (ok (more, rb, sequence)) = ok (body ++ more, rb, sequence)
joined body (err e) = err bad_conn
joined body (panic p) = panic p

-- The payload of a packet whose header is read.
abbrev pub payload : (Bytes → ℕ → Received) → ℕ → ℕ → Option (Bytes × Bytes) → Received
payload others len sequence none = err bad_conn
payload others len sequence (some (body, rb)) = elim (ltb len max_payload_len) [
  | true ↦ ok (body, rb, sequence)
  | false ↦ joined body (others rb sequence)
]

-- The tests on a header, of a length and a sequence number, and the payload that follows it.
unfoldable pub framed : (Bytes → ℕ → Received) → ℕ → ℕ → ℕ → Bytes → Received
unfolding read_full
framed others sequence len seq rb =
    if ltb len 1
    then err invalid_payload_length
    else if not (seq == sequence)
    then err invalid_sequence
    else payload others len (suc sequence % 256) (read_full len rb)

unfoldable pub checked : (Bytes → ℕ → Received) → ℕ → Option (Bytes × Bytes) → Received
unfolding header_length header_sequence framed
checked others sequence none = err bad_conn
checked others sequence (some (head, rb)) =
    framed others sequence (header_length head) (header_sequence head) rb

-- ReadPacket, for at most `fuel` packets.
unfoldable pub read_packet : ℕ → Bytes → ℕ → Received
unfolding checked read_full
read_packet zero rb sequence = err bad_conn
read_packet (suc fuel) rb sequence = checked (read_packet fuel) sequence (read_full 4 rb)

-- The header that WritePacket puts over the first four bytes.
unfoldable pub header : ℕ → ℕ → Bytes
header len sequence = len % 256 ∷ len / 256 % 256 ∷ len / 65536 % 256 ∷ sequence ∷ []

-- What WritePacket hands to the writer, and the sequence number after it, for at most `fuel` full
-- packets; the loop leaves four bytes of what it sent for the next header.
unfoldable pub write_loop : ℕ → Bytes → ℕ → Bytes × ℕ
unfolding header
write_loop zero body sequence =
    (header (length body - 4) sequence ++ drop 4 body, suc sequence % 256)
write_loop (suc fuel) body sequence = elim (leb max_payload_len (length body - 4)) [
  | false ↦ (header (length body - 4) sequence ++ drop 4 body, suc sequence % 256)
  | true ↦
      let (sent, s) = write_loop fuel (drop max_payload_len body) (suc sequence % 256) in
      (255 ∷ 255 ∷ 255 ∷ sequence ∷ take max_payload_len (drop 4 body) ++ sent, s)
]

-- WritePacket, to a writer that takes all it is given: the bytes and the next sequence number.
unfoldable pub write_packet : Bytes → ℕ → Bytes × ℕ
unfolding write_loop
write_packet body sequence = write_loop (length body) body sequence
