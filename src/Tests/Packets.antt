-- ===== src/Tests/Packets.antt =====
-- A packet of three bytes.
use kingshard.Prelude.{◌%◌, ◌-◌, ◌≤◌, Bytes, [], ◌∷◌, ◌++◌, ◌≡◌, arith, length}
use kingshard.Outcome.{ok}
use kingshard.Mysql.PacketIo.{max_payload_len, read_packet, write_packet}
use kingshard.Mysql.PacketIo.Frames.{read-write_packet}

abbrev three_bytes : Bytes
three_bytes = 0 ∷ 0 ∷ 0 ∷ 0 ∷ 14 ∷ 15 ∷ 16 ∷ []

no_multiple : 1 ≤ (length three_bytes - 4) % max_payload_len
unfolding max_payload_len
no_multiple = omega arith

read-write_packet_example :
    let (sent, s) = write_packet three_bytes 255 in
    read_packet 8 (sent ++ (9 ∷ [])) 255 ≡ ok (14 ∷ 15 ∷ 16 ∷ [], 9 ∷ [], s)
read-write_packet_example = read-write_packet 255 three_bytes (9 ∷ []) (omega arith) no_multiple
