-- ===== src/VideoRelay/State.antt =====
-- main/video_relay.cpp: the globals, the frames, and the bytes of a frame's header.
use esp32_s3_rap.Base.{
  ℕ, Bool, false, List, [], ◌∷◌, ◌++◌, Option, none, get_or, le16, le32, read16, read32,
}
use esp32_s3_rap.Uplink.State.{Buffer}

pub record FrameHeader : Type 0 where
  pub origin_node_id : ℕ
  pub stream_id : ℕ
  pub seq : ℕ
  pub data_len : ℕ

pub record Frame : Type 0 where
  pub header : FrameHeader
  pub data_buffer : Buffer

-- `Q` is the type behind `QueueHandle_t`.
pub record Relay (Q : Type 0) : Type 0 where
  pub node_id : ℕ
  pub chain_size : ℕ
  pub next_id : ℕ
  pub is_gateway : Bool
  pub next_ip : List ℕ
  pub v_local : ℕ
  pub v_in : ℕ
  pub v_out : ℕ
  pub v_out_bytes : ℕ
  pub v_drop : ℕ
  pub v_sunk : ℕ
  pub v_bad : ℕ
  pub v_reconnects : ℕ
  pub v_prev_drops : ℕ
  pub server_up : Bool
  pub client_up : Bool
  pub out_queue : Option Q

-- The initial values of the globals.
abbrev pub at_boot : {Q : Type 0} → Relay Q
at_boot = record {
  node_id = 0;
  chain_size = 0;
  next_id = 0;
  is_gateway = false;
  next_ip = [];
  v_local = 0;
  v_in = 0;
  v_out = 0;
  v_out_bytes = 0;
  v_drop = 0;
  v_sunk = 0;
  v_bad = 0;
  v_reconnects = 0;
  v_prev_drops = 0;
  server_up = false;
  client_up = false;
  out_queue = none;
}

abbrev pub sizeof_frame_header : ℕ
sizeof_frame_header = 8

unfoldable pub encode_frame_header : FrameHeader → List ℕ
encode_frame_header h = h.origin_node_id ∷ h.stream_id ∷ (le16 h.seq ++ le32 h.data_len)

unfoldable pub decode_frame_header : List ℕ → FrameHeader
decode_frame_header bytes = record {
  origin_node_id = get_or bytes 0 0;
  stream_id = get_or bytes 1 0;
  seq = read16 bytes 2;
  data_len = read32 bytes 4;
}
