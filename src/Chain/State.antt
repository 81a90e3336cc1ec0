-- ===== src/Chain/State.antt =====
-- main/chain_node.cpp: the globals of `chain_node`, and `init`.
use esp32_s3_rap.Base.{
  ℕ, ◌+◌, ◌-◌, ◌%◌, Bool, false, List, Option, none, replicate, u8, ◌==◌, if◌then◌else◌,
}
use esp32_s3_rap.Base.Queue.{QueueApi}
use esp32_s3_rap.Config.{gateway_node_id, max_plate_len, status_queue_depth, video_streams_per_node}
use esp32_s3_rap.Protocol.{StatusPacket, empty_status}

pub data State : Type 0 where
  discovering idle forwarding : State

-- `Q` is the type behind `QueueHandle_t`; a null handle is `none`. MACs are lists of six bytes.
pub record Node (Q : Type 0) : Type 0 where
  pub node_id : ℕ
  pub chain_size : ℕ
  pub is_gateway : Bool
  pub next_id : ℕ
  pub prev_id : ℕ
  pub next_mac : List ℕ
  pub prev_mac : List ℕ
  pub next_known : Bool
  pub prev_known : Bool
  pub state : State
  pub last_hello_ms : ℕ
  pub last_local_ms : ℕ
  pub local_seq : ℕ
  pub local_stream : ℕ
  pub has_accepted_any : Bool
  pub last_accepted_origin : ℕ
  pub last_accepted_seq : ℕ
  pub out_queue : Option Q
  pub pending : StatusPacket
  pub ack_deadline_ms : ℕ
  pub retry_count : ℕ
  pub stat_local : ℕ
  pub stat_in : ℕ
  pub stat_forwarded : ℕ
  pub stat_sunk : ℕ
  pub stat_retx : ℕ
  pub stat_queue_drops : ℕ
  pub last_retry_warn_ms : ℕ
  pub lane_occupied : List ℕ
  pub lane_plate : List (List ℕ)

abbrev pub no_mac : List ℕ
no_mac = replicate 6 0

abbrev pub no_plate : List ℕ
no_plate = replicate (max_plate_len + 1) 0

-- The initial values of the globals.
abbrev pub boot : {Q : Type 0} → Node Q
boot = record {
  node_id = 0;
  chain_size = 0;
  is_gateway = false;
  next_id = 0;
  prev_id = 0;
  next_mac = no_mac;
  prev_mac = no_mac;
  next_known = false;
  prev_known = false;
  state = discovering;
  last_hello_ms = 0;
  last_local_ms = 0;
  local_seq = 0;
  local_stream = 0;
  has_accepted_any = false;
  last_accepted_origin = 0;
  last_accepted_seq = 0;
  out_queue = none;
  pending = empty_status;
  ack_deadline_ms = 0;
  retry_count = 0;
  stat_local = 0;
  stat_in = 0;
  stat_forwarded = 0;
  stat_sunk = 0;
  stat_retx = 0;
  stat_queue_drops = 0;
  last_retry_warn_ms = 0;
  lane_occupied = replicate video_streams_per_node 0;
  lane_plate = replicate video_streams_per_node no_plate;
}

abbrev pub next_of : ℕ → ℕ → ℕ
next_of node_id chain_size = u8 ((node_id + 1) % chain_size)

abbrev pub prev_of : ℕ → ℕ → ℕ
prev_of node_id chain_size = u8 ((node_id + chain_size - 1) % chain_size)

-- The effect of `init` on the globals; its hello follows (`Chain.Loop.init`).
unfoldable pub configure : (api : QueueApi StatusPacket) → ℕ → ℕ → Node api.Queue → Node api.Queue
configure api node_id chain_size n = record n {
  node_id = node_id;
  chain_size = chain_size;
  is_gateway = node_id == gateway_node_id;
  next_id = next_of node_id chain_size;
  prev_id = prev_of node_id chain_size;
  state = discovering;
  out_queue = if node_id == gateway_node_id then n.out_queue else api.create status_queue_depth;
}
