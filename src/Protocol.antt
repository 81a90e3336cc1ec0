-- ===== src/Protocol.antt =====
-- main/protocol.h: the packets of the status chain and their bytes. The structs are packed and the
-- processor is little-endian, so a packet's bytes are its fields in order, a `uint16_t` low byte
-- first; `memcpy` between a packet and a buffer is the two directions below.
pub mod RoundTrip
use esp32_s3_rap.Base.{ℕ, ◌+◌, List, [], ◌∷◌, ◌++◌, get_or, take, drop, replicate, le16, read16}
use esp32_s3_rap.Config.{max_plate_len}

-- enum PacketType
abbrev pub packet_hello : ℕ
packet_hello = 1

abbrev pub packet_status : ℕ
packet_status = 2

abbrev pub packet_ack : ℕ
packet_ack = 3

pub record HelloPacket : Type 0 where
  pub type : ℕ
  pub node_id : ℕ
  pub chain_size : ℕ

-- `plate` is the array of `kMaxPlateLen + 1` characters, its NUL and padding included.
pub record StatusPacket : Type 0 where
  pub type : ℕ
  pub origin_node_id : ℕ
  pub stream_id : ℕ
  pub seq : ℕ
  pub occupied : ℕ
  pub plate : List ℕ

pub record AckPacket : Type 0 where
  pub type : ℕ
  pub origin_node_id : ℕ
  pub seq : ℕ

-- `StatusPacket pkt{}`
abbrev pub empty_status : StatusPacket
empty_status = record {
  type = packet_status;
  origin_node_id = 0;
  stream_id = 0;
  seq = 0;
  occupied = 0;
  plate = replicate (max_plate_len + 1) 0;
}

-- The sizes of the packed structs.
abbrev pub sizeof_hello : ℕ
sizeof_hello = 3

abbrev pub sizeof_status : ℕ
sizeof_status = 18

abbrev pub sizeof_ack : ℕ
sizeof_ack = 4

unfoldable pub encode_hello : HelloPacket → List ℕ
encode_hello p = p.type ∷ p.node_id ∷ p.chain_size ∷ []

unfoldable pub encode_status : StatusPacket → List ℕ
encode_status p = p.type ∷ p.origin_node_id ∷ p.stream_id ∷ (le16 p.seq ++ (p.occupied ∷ p.plate))

unfoldable pub encode_ack : AckPacket → List ℕ
encode_ack p = p.type ∷ p.origin_node_id ∷ le16 p.seq

unfoldable pub decode_hello : List ℕ → HelloPacket
decode_hello bytes = record {
  type = get_or bytes 0 0;
  node_id = get_or bytes 1 0;
  chain_size = get_or bytes 2 0;
}

unfoldable pub decode_status : List ℕ → StatusPacket
decode_status bytes = record {
  type = get_or bytes 0 0;
  origin_node_id = get_or bytes 1 0;
  stream_id = get_or bytes 2 0;
  seq = read16 bytes 3;
  occupied = get_or bytes 5 0;
  plate = take (max_plate_len + 1) (drop 6 bytes);
}

unfoldable pub decode_ack : List ℕ → AckPacket
decode_ack bytes = record {
  type = get_or bytes 0 0;
  origin_node_id = get_or bytes 1 0;
  seq = read16 bytes 2;
}
