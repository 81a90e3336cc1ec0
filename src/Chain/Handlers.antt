-- ===== src/Chain/Handlers.antt =====
-- main/chain_node.cpp: sending, and the handlers of received packets.
use esp32_s3_rap.Base.{
  ℕ, ◌+◌, Bool, true, false, not, ◌&&◌, ◌||◌, List, [], ◌∷◌, ◌++◌, Option, none, some, length,
  get_or, u32, ltb, leb, ◌==◌, if◌then◌else◌, same_bytes,
}
use esp32_s3_rap.Base.Queue.{QueueApi}
use esp32_s3_rap.Config.{ack_timeout_ms}
use esp32_s3_rap.Protocol.{
  HelloPacket, StatusPacket, AckPacket, packet_hello, packet_status, packet_ack, sizeof_hello,
  sizeof_status, sizeof_ack, encode_hello, encode_status, encode_ack, decode_hello, decode_status,
  decode_ack,
}
use esp32_s3_rap.Chain.State.{Node, State, discovering, idle, forwarding}
use esp32_s3_rap.Chain.Effects.{Effect, send, broadcast, add_peer, flush, assert_failed}

unfoldable pub mac_equals : List ℕ → List ℕ → Bool
mac_equals a b = same_bytes a b

abbrev pub ack_for : ℕ → ℕ → AckPacket
ack_for origin seq = record { type = packet_ack; origin_node_id = origin; seq = seq }

-- `sendAck` and `sendStatus`.
unfoldable pub send_ack : List ℕ → ℕ → ℕ → Effect
send_ack to_mac origin seq = send to_mac (encode_ack (ack_for origin seq))

unfoldable pub send_status : {Q : Type 0} → Node Q → StatusPacket → Effect
send_status n packet = send n.next_mac (encode_status packet)

abbrev pub hello_of : {Q : Type 0} → Node Q → HelloPacket
hello_of n = record { type = packet_hello; node_id = n.node_id; chain_size = n.chain_size }

-- `now` is what `nowMs()` returns.
unfoldable pub broadcast_hello : {Q : Type 0} → ℕ → Node Q → Node Q × List Effect
broadcast_hello now n =
    (record n { last_hello_ms = now }, broadcast (encode_hello (hello_of n)) ∷ [])

unfoldable pub begin_forwarding : {Q : Type 0} → ℕ → StatusPacket → Node Q → Node Q × List Effect
unfolding send_status
begin_forwarding now packet n = (
  record n {
    pending = packet;
    retry_count = 0;
    ack_deadline_ms = u32 (now + ack_timeout_ms);
    state = forwarding;
  },
  send_status n packet ∷ [],
)

unfoldable pub learn_next : {Q : Type 0} → List ℕ → HelloPacket → Node Q → Node Q × List Effect
learn_next mac hello n =
    if hello.node_id == n.next_id && not n.next_known
    then (record n { next_mac = mac; next_known = true }, add_peer mac ∷ [])
    else (n, [])

unfoldable pub learn_prev : {Q : Type 0} → List ℕ → HelloPacket → Node Q → Node Q × List Effect
learn_prev mac hello n =
    if hello.node_id == n.prev_id && not n.prev_known
    then (record n { prev_mac = mac; prev_known = true }, add_peer mac ∷ [])
    else (n, [])

abbrev pub is_discovering : State → Bool
is_discovering discovering = true
is_discovering idle = false
is_discovering forwarding = false

abbrev pub is_forwarding : State → Bool
is_forwarding discovering = false
is_forwarding idle = false
is_forwarding forwarding = true

unfoldable pub finish_discovery : {Q : Type 0} → Node Q → Node Q
finish_discovery n =
    if is_discovering n.state && (n.prev_known && (n.is_gateway || n.next_known))
    then record n { state = idle }
    else n

unfoldable pub handle_hello : {Q : Type 0} → List ℕ → HelloPacket → Node Q → Node Q × List Effect
unfolding learn_next learn_prev finish_discovery
handle_hello mac hello n =
    if not (hello.chain_size == n.chain_size) || leb n.chain_size hello.node_id
    then (n, [])
    else let (n1, calls) = learn_next mac hello n in
      let (n2, more) = learn_prev mac hello n1 in (finish_discovery n2, calls ++ more)

-- `g_hasAcceptedAny` and the two that go with it.
abbrev pub accepted : {Q : Type 0} → StatusPacket → Node Q → Node Q
accepted packet n = record n {
  has_accepted_any = true;
  last_accepted_origin = packet.origin_node_id;
  last_accepted_seq = packet.seq;
}

abbrev pub is_duplicate : {Q : Type 0} → StatusPacket → Node Q → Bool
is_duplicate packet n =
    n.has_accepted_any
    && (packet.origin_node_id == n.last_accepted_origin && packet.seq == n.last_accepted_seq)

-- The call of `gateway_uplink::flush` for a packet.
abbrev pub flush_of : StatusPacket → Effect
flush_of packet = flush packet.origin_node_id packet.stream_id packet.occupied packet.plate

abbrev pub ack_to_prev : {Q : Type 0} → StatusPacket → Node Q → Effect
ack_to_prev packet n = send_ack n.prev_mac packet.origin_node_id packet.seq

-- What `xQueueSend(g_outQueue, &pkt, 0)` did: a null handle stops the program.
pub data Sending (Q : Type 0) : Type 0 where
  no_queue : Sending Q
  full : Sending Q
  queued : Q → Sending Q

module _ (api : QueueApi StatusPacket) where
  open api use {Queue}

  unfoldable pub send_out : Option Queue → StatusPacket → Sending Queue
  send_out none packet = no_queue
  send_out (some q) packet = elim (api.send q packet) [ none ↦ full | some r ↦ queued r ]

  -- The branch of `handleStatus` for a packet that was not seen before.
  unfoldable pub accept_status : StatusPacket → Node Queue → Node Queue × List Effect
  unfolding send_out send_ack
  accept_status packet n =
      if n.is_gateway
      then (
        record (accepted packet n) {
          stat_in = u32 (n.stat_in + 1);
          stat_sunk = u32 (n.stat_sunk + 1);
        },
        ack_to_prev packet n ∷ flush_of packet ∷ [],
      )
      else elim (send_out n.out_queue packet) [
        | no_queue ↦ (n, assert_failed ∷ [])
        | full ↦ (record n { stat_queue_drops = u32 (n.stat_queue_drops + 1) }, [])
        | queued r ↦ (
          record (accepted packet n) { stat_in = u32 (n.stat_in + 1); out_queue = some r },
          ack_to_prev packet n ∷ [],
        )
      ]

  unfoldable pub handle_status : List ℕ → StatusPacket → Node Queue → Node Queue × List Effect
  unfolding mac_equals send_ack
  handle_status mac packet n =
      if not n.prev_known || not (mac_equals mac n.prev_mac)
      then (n, [])
      else if is_duplicate packet n
      then (n, ack_to_prev packet n ∷ [])
      else accept_status packet n

unfoldable pub handle_ack : {Q : Type 0} → List ℕ → AckPacket → Node Q → Node Q × List Effect
unfolding mac_equals
handle_ack mac ack n =
    if not (is_forwarding n.state) || (not n.next_known || not (mac_equals mac n.next_mac))
    then (n, [])
    else if not (ack.origin_node_id == n.pending.origin_node_id) || not (ack.seq == n.pending.seq)
    then (n, [])
    else (
      record n { state = idle; retry_count = 0; stat_forwarded = u32 (n.stat_forwarded + 1) },
      [],
    )

-- What `onEspNowRecv` makes of a frame: it looks at the first byte, and ignores a frame that is
-- shorter than its packet.
pub data Message : Type 0 where
  ignored : Message
  hello : HelloPacket → Message
  status : StatusPacket → Message
  ack : AckPacket → Message

unfoldable pub message_of : List ℕ → Message
message_of bytes =
    if ltb (length bytes) 1
    then ignored
    else if get_or bytes 0 0 == packet_hello
    then (if leb sizeof_hello (length bytes) then hello (decode_hello bytes) else ignored)
    else if get_or bytes 0 0 == packet_status
    then (if leb sizeof_status (length bytes) then status (decode_status bytes) else ignored)
    else if get_or bytes 0 0 == packet_ack
    then (if leb sizeof_ack (length bytes) then ack (decode_ack bytes) else ignored)
    else ignored

module _ (api : QueueApi StatusPacket) where
  open api use {Queue}

  unfoldable pub dispatch : List ℕ → Message → Node Queue → Node Queue × List Effect
  dispatch mac ignored n = (n, [])
  dispatch mac (hello packet) n = handle_hello mac packet n
  dispatch mac (status packet) n = handle_status api mac packet n
  dispatch mac (ack packet) n = handle_ack mac packet n

  unfoldable pub on_esp_now_recv : List ℕ → List ℕ → Node Queue → Node Queue × List Effect
  unfolding dispatch
  on_esp_now_recv mac bytes n = dispatch mac (message_of bytes) n
