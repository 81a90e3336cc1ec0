-- ===== src/Chain/Loop.antt =====
-- main/chain_node.cpp: `init`, `loop` and `setLaneStatus`.
use esp32_s3_rap.Base.{
  ℕ, ◌+◌, ◌/◌, ◌%◌, ◌&&◌, List, [], ◌∷◌, ◌++◌, none, some, get_or, set, u8, u16, u32, sub32, ltb,
  leb, ◌==◌, if◌then◌else◌, strncpy, decimal,
}
use esp32_s3_rap.Base.Queue.{QueueApi}
use esp32_s3_rap.Config.{
  hello_interval_ms, hello_idle_interval_ms, status_local_interval_ms, max_retransmit,
  max_plate_len, video_streams_per_node, chain_self_test, ack_timeout_ms,
}
use esp32_s3_rap.Protocol.{StatusPacket, empty_status}
use esp32_s3_rap.Chain.State.{Node, forwarding, no_plate, configure}
use esp32_s3_rap.Chain.Effects.{Step, skip, assert_failed, ◌>>◌}
use esp32_s3_rap.Chain.Handlers.{
  on_esp_now_recv, broadcast_hello, begin_forwarding, send_status, send_out, no_queue, full, queued,
  flush_of, is_discovering,
}

-- What `nowMs()` returns at each of its calls in one round of `loop`: `*_test` in a condition,
-- `*_stamp` where the time is stored, `arm` where the ACK deadline is set.
pub record Clock : Type 0 where
  pub hello_test : ℕ
  pub hello_stamp : ℕ
  pub local_test : ℕ
  pub local_stamp : ℕ
  pub reading : ℕ
  pub ack_test : ℕ
  pub warn_test : ℕ
  pub warn_stamp : ℕ
  pub arm : ℕ

abbrev pub hello_interval : {Q : Type 0} → Node Q → ℕ
hello_interval n = if is_discovering n.state then hello_interval_ms else hello_idle_interval_ms

unfoldable pub hello_timer : {Q : Type 0} → Clock → Step Q
unfolding broadcast_hello
hello_timer t n =
    if leb (hello_interval n) (sub32 t.hello_test n.last_hello_ms)
    then broadcast_hello t.hello_stamp n
    else skip n

-- The synthetic reading of the self-test.
unfoldable pub synthetic_status : {Q : Type 0} → ℕ → Node Q → ℕ → StatusPacket → StatusPacket
synthetic_status now n stream_id packet =
    if (now / 10000 + n.node_id + stream_id) % 2 == 1
    then record packet {
      occupied = 1;
      plate =
          strncpy (b'T' ∷ (decimal n.node_id ++ (b'L' ∷ decimal stream_id))) max_plate_len
          ++ (0 ∷ []);
    }
    else record packet { occupied = 0; plate = set packet.plate 0 0 }

unfoldable pub read_local_status : {Q : Type 0} → ℕ → Node Q → ℕ → StatusPacket → StatusPacket
unfolding synthetic_status
read_local_status now n stream_id packet =
    if chain_self_test then synthetic_status now n stream_id packet else record packet {
      occupied = get_or n.lane_occupied stream_id 0;
      plate = strncpy (get_or n.lane_plate stream_id no_plate) max_plate_len ++ (0 ∷ []);
    }

-- The packet that this round originates.
unfoldable pub local_packet : {Q : Type 0} → ℕ → Node Q → StatusPacket
unfolding read_local_status
local_packet now n = read_local_status now n n.local_stream (record empty_status {
  origin_node_id = n.node_id;
  stream_id = n.local_stream;
  seq = n.local_seq;
})

-- The counters after a reading was made.
abbrev pub originated : {Q : Type 0} → ℕ → Node Q → Node Q
originated stamp n = record n {
  last_local_ms = stamp;
  local_seq = u16 (n.local_seq + 1);
  local_stream = u8 ((n.local_stream + 1) % video_streams_per_node);
  stat_local = u32 (n.stat_local + 1);
}

-- `setLaneStatus`
unfoldable pub set_lane_status : {Q : Type 0} → ℕ → ℕ → List ℕ → Node Q → Node Q
set_lane_status stream_id occupied plate n =
    if leb video_streams_per_node stream_id then n else record n {
      lane_occupied = set n.lane_occupied stream_id occupied;
      lane_plate = set n.lane_plate stream_id (strncpy plate max_plate_len ++ (0 ∷ []));
    }

abbrev pub rate_limit_ms : ℕ
rate_limit_ms = 5000

-- The branch of `loop` for a packet that waits for its ACK.
unfoldable pub retransmit : {Q : Type 0} → Clock → Step Q
unfolding send_status
retransmit t n =
    let retries = u8 (n.retry_count + 1) in
    let warn =
      ltb max_retransmit retries && leb rate_limit_ms (sub32 t.warn_test n.last_retry_warn_ms) in
    if leb n.ack_deadline_ms t.ack_test
    then (
      record n {
        retry_count = retries;
        stat_retx = u32 (n.stat_retx + 1);
        last_retry_warn_ms = if warn then t.warn_stamp else n.last_retry_warn_ms;
        ack_deadline_ms = u32 (t.arm + ack_timeout_ms);
      },
      send_status n n.pending ∷ [],
    )
    else skip n

module _ (api : QueueApi StatusPacket) where
  open api use {Queue}

  unfoldable pub poll : List (List ℕ × List ℕ) → Step Queue
  poll [] n = skip n
  poll ((mac, bytes) ∷ rest) n = (on_esp_now_recv api mac bytes >> poll rest) n

  -- The local-origination timer.
  unfoldable pub originate : Clock → Step Queue
  unfolding send_out
  originate t n =
      let packet = local_packet t.reading n in
      if ltb (sub32 t.local_test n.last_local_ms) status_local_interval_ms
      then skip n
      else if n.is_gateway
      then (
        record (originated t.local_stamp n) { stat_sunk = u32 (n.stat_sunk + 1) },
        flush_of packet ∷ [],
      )
      else elim (send_out api n.out_queue packet) [
        | no_queue ↦ (originated t.local_stamp n, assert_failed ∷ [])
        | full ↦ (
          record (originated t.local_stamp n) { stat_queue_drops = u32 (n.stat_queue_drops + 1) },
          [],
        )
        | queued r ↦ (record (originated t.local_stamp n) { out_queue = some r }, [])
      ]

  unfoldable pub take_next : Clock → Step Queue
  unfolding begin_forwarding
  take_next t n = elim n.out_queue [
    | none ↦ (n, assert_failed ∷ [])
    | some q ↦ (elim (api.receive q) [
      | none ↦ skip n
      | some (packet, r) ↦ begin_forwarding t.arm packet (record n { out_queue = some r })
    ])
  ]

  -- The end of `loop`: nothing on the Gateway, else the retry or the next packet.
  unfoldable pub forward : Clock → Step Queue
  forward t n =
      if n.is_gateway
      then skip n
      else elim n.state [ forwarding ↦ retransmit t n | _ ↦ take_next t n ]

  -- `loop` after the HELLO timer: nothing more while neighbours are unknown.
  unfoldable pub run_chain : Clock → Step Queue
  run_chain t n = if is_discovering n.state then skip n else (originate t >> forward t) n

  -- `loop` after `espnow::poll`.
  unfoldable pub timers : Clock → Step Queue
  timers t = hello_timer t >> run_chain t

  -- `inbox` is what `espnow::poll` hands over in this round.
  unfoldable pub loop : Clock → List (List ℕ × List ℕ) → Step Queue
  loop t inbox n = (poll inbox >> timers t) n

  unfoldable pub init : ℕ → ℕ → ℕ → Step Queue
  unfolding configure broadcast_hello
  init now node_id chain_size n = broadcast_hello now (configure api node_id chain_size n)
