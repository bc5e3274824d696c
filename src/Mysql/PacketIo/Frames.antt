-- ===== src/Mysql/PacketIo/Frames.antt =====
-- What WritePacket writes, ReadPacket reads.
use kingshard.Prelude.{
  ℕ, zero, suc, ◌-◌, ◌*◌, ◌%◌, ◌≤◌, ◌<◌, Bytes, [], ◌∷◌, ◌++◌, ◌≡◌, refl, sym, subst, ap, ◌∙◌, inl,
  inr, arith, some, Bool-cases, true, false, ltb, leb, ◌==◌, not, length, take, drop, length-append,
  append_assoc, take-length_append, drop-length_append, lt→ltb,
}
use kingshard.Outcome.{ok}
use kingshard.Mysql.PacketIo.{
  max_payload_len, read_full, header_length, header_sequence, Received, joined, payload, framed,
  checked, read_packet, header, write_loop, write_packet,
}

max_len : max_payload_len ≡ 16777215
unfolding max_payload_len
max_len = refl

header_full : (q : ℕ) → header max_payload_len q ≡ 255 ∷ 255 ∷ 255 ∷ q ∷ []
unfolding max_payload_len header
header_full q = refl

-- Exactly the bytes that are asked for are read.
read_full-append : (n : ℕ) (xs ys : Bytes) → length xs ≡ n → read_full n (xs ++ ys) ≡ some (xs, ys)
unfolding read_full
read_full-append n xs ys e =
    subst (λ (k : ℕ). read_full k (xs ++ ys) ≡ some (xs, ys)) e
      (rw (fits, read_full) (rw (take-length_append xs ys, drop-length_append xs ys) refl))
  where
    fits : leb (length xs) (length (xs ++ ys)) ≡ true
    fits = ground (arith, length-append xs ys)

header_length-header : (n q : ℕ) → n < 16777216 → header_length (header n q) ≡ n
unfolding header_length header
header_length-header n q h = omega arith

-- A packet that is read, and what follows it.
positive : (n : ℕ) → 1 ≤ n → ltb n 1 ≡ false
positive n h = ground arith

same_sequence : (q : ℕ) → not (q == q) ≡ false
same_sequence q = ground arith

length-take : (n : ℕ) (xs : Bytes) → n ≤ length xs → length (take n xs) ≡ n
length-take zero xs h = refl
length-take (suc n) [] h = omega arith
length-take (suc n) (x ∷ xs) h = ap suc (length-take n xs (omega arith))

length-drop : (n : ℕ) (xs : Bytes) → length (drop n xs) ≡ length xs - n
length-drop zero xs = omega arith
length-drop (suc n) [] = omega arith
length-drop (suc n) (x ∷ xs) = omega (arith, length-drop n xs)

take-drop : (n : ℕ) (xs : Bytes) → take n xs ++ drop n xs ≡ xs
take-drop zero xs = refl
take-drop (suc n) [] = refl
take-drop (suc n) (x ∷ xs) = ap (◌∷◌ x) (take-drop n xs)

drop-suc : (n : ℕ) (xs : Bytes) → drop (suc n) xs ≡ drop 1 (drop n xs)
drop-suc zero xs = refl
drop-suc (suc n) [] = refl
drop-suc (suc n) (x ∷ xs) = drop-suc n xs

drop_comm : (a b : ℕ) (xs : Bytes) → drop a (drop b xs) ≡ drop b (drop a xs)
drop_comm zero b xs = refl
drop_comm (suc a) zero xs = refl
drop_comm (suc a) (suc b) [] = refl
drop_comm (suc a) (suc b) (x ∷ xs) =
    drop-suc a (drop b xs) ∙ ap (drop 1) (drop_comm a b xs) ∙ sym (drop-suc b (drop a xs))

read_frame :
    (others : Bytes → ℕ → Received) (n q : ℕ) (xs ys : Bytes)
    → length xs ≡ n
    → 1 ≤ n
    → n < 16777216
    → checked others q (read_full 4 (header n q ++ (xs ++ ys)))
      ≡ payload others n (suc q % 256) (some (xs, ys))
unfolding checked header header_sequence
read_frame others n q xs ys e low high =
    rw (read_full-append 4 (header n q) (xs ++ ys) refl, checked)
      (subst
        (λ (k : ℕ). framed others q k q (xs ++ ys) ≡ payload others n (suc q % 256) (some (xs, ys)))
        (sym (header_length-header n q high)) (tested n e low))
  where
    tested :
        (n : ℕ)
        → length xs ≡ n
        → 1 ≤ n
        → framed others q n q (xs ++ ys) ≡ payload others n (suc q % 256) (some (xs, ys))
    tested n e low = rw (positive n low, same_sequence q, read_full-append n xs ys e, framed) refl

-- The packet that ends a payload.
last_packet :
    (others : Bytes → ℕ → Received) (q : ℕ) (body rest : Bytes)
    → 1 ≤ length body - 4
    → length body - 4 < max_payload_len
    → checked others q (read_full 4 ((header (length body - 4) q ++ drop 4 body) ++ rest))
      ≡ ok (drop 4 body, rest, suc q % 256)
last_packet others q body rest low high =
    ap (λ (bs : Bytes). checked others q (read_full 4 bs))
      (append_assoc (header (length body - 4) q) (drop 4 body) rest)
    ∙ read_frame others (length body - 4) q (drop 4 body) rest (length-drop 4 body) low
        (omega (arith, max_len))
    ∙ rw (lt→ltb (length body - 4) max_payload_len high, payload) refl

not_below : (n : ℕ) → ltb n n ≡ false
not_below n = ground arith

full_packet :
    (fuel q s : ℕ) (xs sent rest more : Bytes)
    → length xs ≡ max_payload_len
    → read_packet fuel (sent ++ rest) (suc q % 256) ≡ ok (more, rest, s)
    → read_packet (suc fuel) ((255 ∷ 255 ∷ 255 ∷ q ∷ xs ++ sent) ++ rest) q
      ≡ ok (xs ++ more, rest, s)
unfolding read_packet header
full_packet fuel q s xs sent rest more e h =
    ap (λ (bs : Bytes). checked (read_packet fuel) q (read_full 4 (255 ∷ 255 ∷ 255 ∷ q ∷ bs)))
      (append_assoc xs sent rest)
    ∙ subst
        (λ (h : Bytes).
          checked (read_packet fuel) q (read_full 4 (h ++ (xs ++ (sent ++ rest))))
          ≡ payload (read_packet fuel) max_payload_len (suc q % 256) (some (xs, sent ++ rest)))
        (header_full q)
        (read_frame (read_packet fuel) max_payload_len q xs (sent ++ rest) e
          (omega (arith, max_len)) (omega (arith, max_len)))
    ∙ rw (not_below max_payload_len, payload) (ap (joined xs) h)

left_small :
    (n fuel : ℕ)
    → max_payload_len ≤ n
    → 1 ≤ n % max_payload_len
    → n < max_payload_len * suc (suc fuel)
    → (1 ≤ (n - max_payload_len) % max_payload_len)
      × ((n - max_payload_len) < max_payload_len * suc fuel)
left_small n fuel =
    subst
      (λ (m : ℕ).
        m ≤ n → 1 ≤ n % m → n < m * suc (suc fuel) → (1 ≤ (n - m) % m) × ((n - m) < m * suc fuel))
      (sym max_len) (λ h r b. (omega arith, omega arith))

fits : (n : ℕ) → leb max_payload_len n ≡ true → max_payload_len ≤ n
fits n h = ground arith

small : (n : ℕ) → leb max_payload_len n ≡ false → n < max_payload_len
small n h = ground arith

some_bytes : (n : ℕ) → 1 ≤ n % max_payload_len → 1 ≤ n
some_bytes n = subst (λ (m : ℕ). 1 ≤ n % m → 1 ≤ n) (sym max_len) (λ h. omega arith)

written_read :
    (fuel q : ℕ) (body rest : Bytes)
    → 4 ≤ length body
    → 1 ≤ (length body - 4) % max_payload_len
    → length body - 4 < max_payload_len * suc fuel
    → let (sent, s) = write_loop fuel body q in
      read_packet (suc fuel) (sent ++ rest) q ≡ ok (drop 4 body, rest, s)
unfolding write_loop read_packet
written_read zero q body rest room odd bound =
    last_packet (read_packet zero) q body rest (some_bytes (length body - 4) odd) (omega arith)
written_read (suc fuel) q body rest room odd bound =
    elim (Bool-cases (leb max_payload_len (length body - 4))) [
      | inl full ↦
          let (odd', bound') =
            left_small (length body - 4) fuel (fits (length body - 4) full) odd bound in
          let shorter : length (drop max_payload_len body) - 4 ≡ length body - 4 - max_payload_len =
            omega (arith, length-drop max_payload_len body) in
          rw (full, write_loop)
            (full_packet (suc fuel) q (write_loop fuel (drop max_payload_len body) (suc q % 256)).1
                (take max_payload_len (drop 4 body))
                (write_loop fuel (drop max_payload_len body) (suc q % 256)).0 rest
                (drop 4 (drop max_payload_len body))
                (length-take max_payload_len (drop 4 body)
                  (omega (arith, length-drop 4 body, fits (length body - 4) full)))
                (written_read fuel (suc q % 256) (drop max_payload_len body) rest
                  (omega (arith, length-drop max_payload_len body, fits (length body - 4) full))
                  (subst (λ (k : ℕ). 1 ≤ k % max_payload_len) (sym shorter) odd')
                  (omega (arith, shorter, bound')))
              ∙ ap
                  (λ (xs : Bytes).
                    ok (xs, rest, (write_loop fuel (drop max_payload_len body) (suc q % 256)).1))
                  (ap (λ (ys : Bytes). take max_payload_len (drop 4 body) ++ ys)
                      (drop_comm 4 max_payload_len body)
                    ∙ take-drop max_payload_len (drop 4 body)))
      | inr part ↦
          rw (part, write_loop)
            (last_packet (read_packet (suc fuel)) q body rest (some_bytes (length body - 4) odd)
              (small (length body - 4) part))
    ]

enough_rounds : (n : ℕ) → n - 4 < max_payload_len * suc n
enough_rounds n = subst (λ (m : ℕ). n - 4 < m * suc n) (sym max_len) (omega arith)

-- What WritePacket writes, ReadPacket reads. For a payload behind four bytes for its header, whose
-- length is no multiple of MaxPayloadLen, the packets that are written come back as the payload,
-- whatever bytes follow them, and the reader ends with the sequence number of the writer; both
-- begin with the same one. A payload of n bytes takes at most n + 5 packets.
pub read-write_packet :
    (q : ℕ) (body rest : Bytes)
    → 4 ≤ length body
    → 1 ≤ (length body - 4) % max_payload_len
    → let (sent, s) = write_packet body q in
      read_packet (suc (length body)) (sent ++ rest) q ≡ ok (drop 4 body, rest, s)
unfolding write_packet
read-write_packet q body rest room odd =
    written_read (length body) q body rest room odd (enough_rounds (length body))
