-- ===== src/Protocol/RoundTrip.antt =====
-- main/protocol.h: what one node sends is what the next one reads.
use esp32_s3_rap.Base.{ℕ, ◌+◌, ◌^◌, ◌<◌, ◌≡◌, refl, List, ◌++◌, arith, length, take-append_length}
use esp32_s3_rap.Config.{max_plate_len}
use esp32_s3_rap.Protocol.{
  HelloPacket, StatusPacket, AckPacket, encode_hello, encode_status, encode_ack, decode_hello,
  decode_status, decode_ack, sizeof_status,
}

pub length-encode_status :
    (p : StatusPacket)
    → length p.plate ≡ max_plate_len + 1
    → length (encode_status p) ≡ sizeof_status
unfolding encode_status
length-encode_status p h = omega arith

-- The bytes of a status packet whose sequence number is below 2^16 and whose plate fills its array
-- read back as the packet; bytes that follow in the buffer do not change what is read.
pub decode-encode_status :
    (p : StatusPacket) (rest : List ℕ)
    → p.seq < 2 ^ 16
    → length p.plate ≡ max_plate_len + 1
    → decode_status (encode_status p ++ rest) ≡ p
unfolding encode_status decode_status
decode-encode_status p rest s h =
    ground (arith, take-append_length p.plate rest (max_plate_len + 1))

-- The bytes of an ACK whose sequence number is below 2^16 read back as the ACK, whatever follows.
pub decode-encode_ack :
    (p : AckPacket) (rest : List ℕ) → p.seq < 2 ^ 16 → decode_ack (encode_ack p ++ rest) ≡ p
unfolding encode_ack decode_ack
decode-encode_ack p rest s = ground arith

pub decode-encode_hello :
    (p : HelloPacket) (rest : List ℕ) → decode_hello (encode_hello p ++ rest) ≡ p
unfolding encode_hello decode_hello
decode-encode_hello p rest = refl
