-- ===== src/Chain/Tests.antt =====
-- main/chain_node.cpp: the theorems about the chain, applied to two relays of a chain of three nodes.
use esp32_s3_rap.Base.{
  ◌≡◌, ◌≢◌, refl, ◌⊎◌, inr, ◌↔◌, true, false, List, [], ◌∷◌, ◌++◌, some, arith, get_or, same_bytes,
}
use esp32_s3_rap.Base.Queue.{QueueApi}
use esp32_s3_rap.Base.ListQueue.{Bounded, list_queue}
use esp32_s3_rap.Protocol.{StatusPacket, encode_status, packet_status, packet_hello, empty_status}
use esp32_s3_rap.Chain.State.{Node, idle, forwarding, boot}
use esp32_s3_rap.Chain.Handlers.{
  is_forwarding, on_esp_now_recv, handle_status, ack_to_prev, accept_status, mac_equals, send_out,
  send_ack, begin_forwarding, send_status,
}
use esp32_s3_rap.Chain.Loop.{
  Clock, timers, init, hello_timer, run_chain, originate, forward, take_next,
}
use esp32_s3_rap.Chain.Invariant.{IsPacket, IsValid, Keeps}
use esp32_s3_rap.Chain.History.{round, lane_reading, power_on, power_on-Keeps}
use esp32_s3_rap.Chain.Receive.{handle_status_again, on_esp_now_recv_foreign}
use esp32_s3_rap.Chain.Neighbours.{init-neighbours}
use esp32_s3_rap.Chain.Hop.{
  Hop, Reach, here, next, IsStart, sender_round, deliver_frame, frames_to, received, last, started,
  taken_in,
}
use esp32_s3_rap.Chain.Hop.Safety.{got-eq-sent}

abbrev api : QueueApi StatusPacket
api = list_queue StatusPacket

abbrev packet : StatusPacket
packet = record empty_status { type = packet_status; origin_node_id = 1; seq = 5; occupied = 1 }

abbrev ten_oclock : Clock
ten_oclock = record {
  hello_test = 1000;
  hello_stamp = 1000;
  local_test = 1000;
  local_stamp = 1000;
  reading = 1000;
  ack_test = 1000;
  warn_test = 1000;
  warn_stamp = 1000;
  arm = 1000;
}

abbrev one_packet : Bounded StatusPacket
one_packet = record { items = packet ∷ []; depth = 8 }

abbrev node_one : Node (Bounded StatusPacket)
node_one = record boot {
  node_id = 1;
  chain_size = 3;
  next_id = 2;
  prev_id = 0;
  next_mac = 2 ∷ 2 ∷ 2 ∷ 2 ∷ 2 ∷ 2 ∷ [];
  prev_mac = 7 ∷ 7 ∷ 7 ∷ 7 ∷ 7 ∷ 7 ∷ [];
  next_known = true;
  prev_known = true;
  state = idle;
  last_local_ms = 1000;
  out_queue = some one_packet;
}

abbrev node_two : Node (Bounded StatusPacket)
node_two = record boot {
  node_id = 2;
  chain_size = 3;
  next_id = 0;
  prev_id = 1;
  next_mac = 7 ∷ 7 ∷ 7 ∷ 7 ∷ 7 ∷ 7 ∷ [];
  prev_mac = 1 ∷ 1 ∷ 1 ∷ 1 ∷ 1 ∷ 1 ∷ [];
  next_known = true;
  prev_known = true;
  state = idle;
  out_queue = some (record { items = []; depth = 8 });
}

-- A relay that waits for an ACK of `packet`, and one whose queue is full.
abbrev sending : Node (Bounded StatusPacket)
sending = record node_one { state = forwarding; pending = packet; ack_deadline_ms = 900 }

packet-IsPacket : IsPacket packet
packet-IsPacket = record { type_fits = refl; seq_fits = omega arith; plate_fits = refl }

empty-IsPacket : IsPacket empty_status
empty-IsPacket = record { type_fits = refl; seq_fits = omega arith; plate_fits = refl }

node_one-IsValid : IsValid api node_one
node_one-IsValid = record {
  role = inr (one_packet, refl, refl, refl, omega arith, (packet-IsPacket, tt));
  found = inr (refl, inr refl);
  seq_fits = omega arith;
  stream_fits = omega arith;
  retries_fit = omega arith;
  pending_fits = empty-IsPacket;
  lanes = refl;
  plates = refl;
  plates_fit = (refl, (refl, (refl, tt)));
}

node_two-IsValid : IsValid api node_two
node_two-IsValid = record {
  role = inr (record { items = []; depth = 8 }, refl, refl, refl, omega arith, tt);
  found = inr (refl, inr refl);
  seq_fits = omega arith;
  stream_fits = omega arith;
  retries_fit = omega arith;
  pending_fits = empty-IsPacket;
  lanes = refl;
  plates = refl;
  plates_fit = (refl, (refl, (refl, tt)));
}

power_on_example : Keeps api (
    power_on api 0 1 3 (
      lane_reading 1 1 (b'A' ∷ 0 ∷ [])
      ∷ round ten_oclock ((7 ∷ 7 ∷ 7 ∷ 7 ∷ 7 ∷ 7 ∷ [], 1 ∷ 0 ∷ 3 ∷ []) ∷ [])
      ∷ []))
power_on_example =
    power_on-Keeps api 0 1 3
      (lane_reading 1 1 (b'A' ∷ 0 ∷ [])
        ∷ round ten_oclock ((7 ∷ 7 ∷ 7 ∷ 7 ∷ 7 ∷ 7 ∷ [], 1 ∷ 0 ∷ 3 ∷ []) ∷ [])
        ∷ [])
      (record { items = []; depth = 8 }) refl
      (tt, (((omega arith, (omega arith, (omega arith, tt))), tt), tt))

-- The hop before any round, after the sender's round, and after the delivery of the frame.
abbrev quiet_hop : Hop api
quiet_hop = record {
  sender = node_one;
  receiver = node_two;
  frames = [];
  acks = [];
  sent = [];
  got = [];
}

quiet_hop-IsStart : IsStart api quiet_hop
quiet_hop-IsStart = record {
  valid = node_one-IsValid;
  relay = refl;
  sender_free = refl;
  next_found = refl;
  prev_found = refl;
  fresh = refl;
  no_frames = refl;
  no_acks = refl;
  none_sent = refl;
  none_got = refl;
}

abbrev round_hop : Hop api
round_hop = record {
  sender = (timers api ten_oclock node_one).0;
  receiver = node_two;
  frames = frames_to node_one.next_mac (timers api ten_oclock node_one).1;
  acks = [];
  sent = started api node_one (timers api ten_oclock node_one).0;
  got = [];
}

abbrev delivered_hop : Hop api
delivered_hop = record {
  sender = round_hop.sender;
  receiver = (received api (encode_status packet) node_two).0;
  frames = [];
  acks = frames_to node_two.prev_mac (received api (encode_status packet) node_two).1;
  sent = round_hop.sent;
  got = taken_in api (encode_status packet) node_two (received api (encode_status packet) node_two);
}

sent_frames :
    frames_to node_one.next_mac (timers api ten_oclock node_one).1 ≡ encode_status packet ∷ []
unfolding timers hello_timer run_chain originate forward take_next begin_forwarding send_status
    frames_to same_bytes
sent_frames = refl

delivered_hop-Reach : Reach api quiet_hop delivered_hop
unfolding last
delivered_hop-Reach =
    next (next here (sender_round ten_oclock (λ p e. tt)))
      (deliver_frame (encode_status packet) [] sent_frames)

got-eq-sent_example :
    ((is_forwarding delivered_hop.sender.state ≡ false) × (delivered_hop.got ≡ delivered_hop.sent))
    ⊎ ((earlier : List StatusPacket) × (is_forwarding delivered_hop.sender.state ≡ true)
        × (delivered_hop.sent ≡ earlier ++ delivered_hop.sender.pending ∷ [])
        × ((delivered_hop.got ≡ earlier) ⊎ (delivered_hop.got ≡ delivered_hop.sent)))
got-eq-sent_example = got-eq-sent api quiet_hop-IsStart delivered_hop-Reach

answered : (handle_status api node_two.prev_mac packet node_two).1 ≢ []
unfolding handle_status accept_status mac_equals send_out send_ack same_bytes
answered e = ground arith

handle_status_again_example :
    handle_status api node_two.prev_mac packet
      (handle_status api node_two.prev_mac packet node_two).0
    ≡ ((handle_status api node_two.prev_mac packet node_two).0, ack_to_prev packet node_two ∷ [])
handle_status_again_example =
    handle_status_again api node_two.prev_mac packet node_two node_two-IsValid answered

not_hello : get_or (encode_status packet) 0 0 ≢ packet_hello
unfolding encode_status
not_hello e = omega arith

on_esp_now_recv_foreign_example :
    on_esp_now_recv api (9 ∷ 9 ∷ 9 ∷ 9 ∷ 9 ∷ 9 ∷ []) (encode_status packet) node_two
    ≡ (node_two, [])
on_esp_now_recv_foreign_example =
    on_esp_now_recv_foreign api (9 ∷ 9 ∷ 9 ∷ 9 ∷ 9 ∷ 9 ∷ []) (encode_status packet) node_two
      (λ e. ground arith) (λ e. ground arith) not_hello

init-neighbours_example :
    ((init api 0 2 3 boot).0.next_id ≡ 0) ↔ ((init api 5 0 3 boot).0.prev_id ≡ 2)
init-neighbours_example =
    init-neighbours api 2 0 3 0 5 boot boot (omega arith, omega arith) (omega arith, omega arith)
