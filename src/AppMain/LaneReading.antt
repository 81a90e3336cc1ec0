-- ===== src/AppMain/LaneReading.antt =====
-- main/luckfox_spi.cpp and main/chain_node.cpp: a lane's reading on its way from the SPI link to the
-- packet that carries it.
use esp32_s3_rap.Base.{
  ℕ, ◌<◌, ◌≤◌, ◌≡◌, refl, ◌∙◌, Bool, List, [], ◌∷◌, ◌++◌, some, arith, length, take, drop, get_or,
  c_str, length-take,
}
use esp32_s3_rap.Base.Slices.{take_all}
use esp32_s3_rap.Config.{max_plate_len, video_streams_per_node}
use esp32_s3_rap.Protocol.{StatusPacket}
use esp32_s3_rap.Chain.State.{Node}
use esp32_s3_rap.Chain.Loop.{set_lane_status, read_local_status}
use esp32_s3_rap.Chain.Lanes.{HasLanes, read_local_status-set_lane_status}
use esp32_s3_rap.Spi.Receiver.{
  decode_header, magic, msg_status, sizeof_lane_status, wire_plate, Receiver, hunting, Event, frame,
  status, pause, Transaction, check_header, hunt, receive, step, run,
}

-- `g_onStatus` is `chain_node::setLaneStatus`.
unfoldable pub deliver : {Q : Type 0} → List Event → Node Q → Node Q
deliver [] n = n
deliver (status stream_id occupied plate ∷ events) n =
    deliver events (set_lane_status stream_id occupied plate n)
deliver (frame stream_id seq image ∷ events) n = deliver events n
deliver (pause ms ∷ events) n = deliver events n

length-c_str : (text : List ℕ) → length (c_str (text ++ (0 ∷ []))) ≤ length text
unfolding c_str
length-c_str [] = omega arith
length-c_str (c ∷ text) = ground (arith, length-c_str text)

-- The header of a lane's reading.
pub record IsReading (header : List ℕ) : Type 0 where
  pub magic_word : (decode_header header).magic_word ≡ magic
  pub msg_type : (decode_header header).msg_type ≡ msg_status
  pub data_len : (decode_header header).data_len ≡ sizeof_lane_status
  pub lane : (decode_header header).stream_id < video_streams_per_node

-- The chunk with the header, and the one with the reading.
abbrev pub transfer : (header body : List ℕ) → (memory : Bool) → List Transaction
transfer header body memory =
    record { scratch = some header; memory = memory }
    ∷ record { scratch = some body; memory = memory }
    ∷ []

run-transfer :
    (header body : List ℕ) (memory : Bool) (r : Receiver)
    → r.phase ≡ hunting
    → IsReading header
    → run (transfer header body memory) r ≡ (
      record { phase = hunting; no_sync_run = 0 },
      status (decode_header header).stream_id (get_or body 0 0) (wire_plate body) ∷ [],
    )
unfolding run step receive hunt check_header
run-transfer header body memory r hunts reading =
    ground (arith, reading.magic_word, reading.msg_type, reading.data_len)

-- On a node with its three lanes' arrays whose receiver waits for a header: when a lane's reading
-- comes over SPI, the packet that the node makes for that lane next has its occupancy and its
-- plate, and the receiver waits for a header again.
pub read_local_status-deliver :
    {Q : Type 0} (header body : List ℕ) (memory : Bool) (r : Receiver) (now : ℕ) (n : Node Q)
    (packet : StatusPacket)
    → r.phase ≡ hunting
    → IsReading header
    → HasLanes n
    → let (r', events) = run (transfer header body memory) r in
      let sent = read_local_status now (deliver events n) (decode_header header).stream_id packet in
      (r'.phase ≡ hunting)
      × (sent.occupied ≡ get_or body 0 0)
      × (c_str sent.plate ≡ c_str (wire_plate body))
unfolding deliver
read_local_status-deliver header body memory r now n packet hunts reading lanes =
    let lane = (decode_header header).stream_id in
    let (occupied, plate) =
      read_local_status-set_lane_status now lane (get_or body 0 0) (wire_plate body) n packet lanes
        reading.lane in
    let copied = take max_plate_len (drop 1 body) in
    let size = length-take max_plate_len (drop 1 body) in
    let text = length-c_str copied in
    rw (run-transfer header body memory r hunts reading)
      (refl, occupied, plate ∙ take_all max_plate_len (c_str (wire_plate body)) (omega arith))
