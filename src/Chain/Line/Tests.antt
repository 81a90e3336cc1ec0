-- ===== src/Chain/Line/Tests.antt =====
-- main/chain_node.cpp: the theorems about the whole chain, applied to a chain of three nodes.
use esp32_s3_rap.Base.{
  ℕ, ◌≡◌, refl, inl, inr, true, List, [], ◌∷◌, ◌++◌, some, arith, replicate, same_bytes, strncpy,
}
use esp32_s3_rap.Base.ListQueue.{Bounded, list_queue}
use esp32_s3_rap.Base.Queue.{QueueApi}
use esp32_s3_rap.Protocol.{
  StatusPacket, empty_status, encode_status, decode_status, encode_ack, decode_ack,
}
use esp32_s3_rap.Chain.State.{Node, boot, idle}
use esp32_s3_rap.Chain.Handlers.{
  accept_status, begin_forwarding, broadcast_hello, dispatch, handle_ack, handle_status, mac_equals,
  message_of, on_esp_now_recv, send_ack, send_out, send_status,
}
use esp32_s3_rap.Chain.Loop.{
  Clock, forward, hello_timer, local_packet, originate, read_local_status, run_chain, take_next,
  timers,
}
use esp32_s3_rap.Chain.Invariant.{IsPacket}
use esp32_s3_rap.Chain.Hop.{frames_to, received}
use esp32_s3_rap.Chain.Line.{
  Station, made_by, after_round, after_frame, after_ack, Leads, here, next, round, deliver_frame,
  deliver_ack, nearer, IsNew, IsLine, IsNumbered,
}
use esp32_s3_rap.Chain.Line.Order.{InOrder, IsIdle, IsComplete}
use esp32_s3_rap.Chain.Line.Reached.{line-InOrder, line-IsComplete}

abbrev api : QueueApi StatusPacket
api = list_queue StatusPacket

abbrev clock : ℕ → Clock
clock now = record {
  hello_test = now;
  hello_stamp = now;
  local_test = now;
  local_stamp = now;
  reading = now;
  ack_test = now;
  warn_test = now;
  warn_stamp = now;
  arm = now;
}

abbrev mac : ℕ → List ℕ
mac n = n ∷ n ∷ n ∷ n ∷ n ∷ n ∷ []

abbrev node : ℕ → ℕ → ℕ → Node (Bounded StatusPacket)
node i next_id prev_id = record boot {
  node_id = i;
  chain_size = 3;
  next_id = next_id;
  prev_id = prev_id;
  next_mac = mac next_id;
  prev_mac = mac prev_id;
  next_known = true;
  prev_known = true;
  state = idle;
}

abbrev station : Node (Bounded StatusPacket) → Station api
station n = record {
  node = n;
  frames = [];
  acks = [];
  got = [];
  made = [];
  entered = [];
  sent = [];
}

abbrev relay : ℕ → ℕ → ℕ → Station api
relay i next_id prev_id =
    station
      (record (node i next_id prev_id) { out_queue = some (record { items = []; depth = 8 }) })

abbrev gateway : Station api
gateway = station (record (node 0 1 2) { is_gateway = true })

empty-IsPacket : IsPacket empty_status
empty-IsPacket = record { type_fits = refl; seq_fits = omega arith; plate_fits = refl }

relay-IsNew : (i next_id prev_id : ℕ) → IsNew api (relay i next_id prev_id)
relay-IsNew i next_id prev_id = record {
  valid = record {
    role = inr (record { items = []; depth = 8 }, refl, refl, refl, omega arith, tt);
    found = inr (refl, inr refl);
    seq_fits = omega arith;
    stream_fits = omega arith;
    retries_fit = omega arith;
    pending_fits = empty-IsPacket;
    lanes = refl;
    plates = refl;
    plates_fit = (refl, (refl, (refl, tt)));
  };
  sender_free = refl;
  prev_found = refl;
  fresh = refl;
  no_queue = refl;
  no_frames = refl;
  no_acks = refl;
  none_got = refl;
  none_made = refl;
  none_entered = refl;
  none_sent = refl;
}

gateway-IsNew : IsNew api gateway
gateway-IsNew = record {
  valid = record {
    role = inl (refl, refl);
    found = inr (refl, inl refl);
    seq_fits = omega arith;
    stream_fits = omega arith;
    retries_fit = omega arith;
    pending_fits = empty-IsPacket;
    lanes = refl;
    plates = refl;
    plates_fit = (refl, (refl, (refl, tt)));
  };
  sender_free = refl;
  prev_found = refl;
  fresh = refl;
  no_queue = refl;
  no_frames = refl;
  no_acks = refl;
  none_got = refl;
  none_made = refl;
  none_entered = refl;
  none_sent = refl;
}

abbrev start : List (Station api)
start = relay 1 2 0 ∷ relay 2 0 1 ∷ gateway ∷ []

start-IsLine : IsLine api start
start-IsLine = (
  relay-IsNew 1 2 0,
  refl,
  refl,
  (omega arith, (omega arith, tt)),
  (relay-IsNew 2 0 1, refl, refl, (omega arith, tt), gateway-IsNew),
)

-- Node 1 makes a reading and forwards it; node 2 answers, and forwards it to the Gateway.
abbrev reading : List ℕ
reading = 2 ∷ 1 ∷ 0 ∷ 0 ∷ 0 ∷ 0 ∷ replicate 12 0

abbrev answer : List ℕ
answer = 3 ∷ 1 ∷ 0 ∷ 0 ∷ []

abbrev first : Station api
first = after_round api (clock 20000) (relay 1 2 0)

-- A station whose frame another one gets, and one that gets the ACK for it.
abbrev delivered : Station api → Station api → Station api
delivered s r = record s {
  frames = [];
  acks = s.acks ++ frames_to r.node.prev_mac (received api reading r.node).1;
}

abbrev acknowledged : Station api → Station api → Station api
acknowledged s r = record (after_ack api answer (delivered s r)) { acks = [] }

abbrev second : Station api
second = after_round api (clock 0) (after_frame api reading (relay 2 0 1))

abbrev end : List (Station api)
end =
    acknowledged first (relay 2 0 1)
    ∷ acknowledged second gateway
    ∷ after_frame api reading gateway
    ∷ []

first_frames : first.frames ≡ reading ∷ []
unfolding timers hello_timer run_chain originate forward take_next begin_forwarding send_status
    frames_to same_bytes send_out local_packet read_local_status strncpy encode_status
    broadcast_hello
first_frames = refl

first_acks : (delivered first (relay 2 0 1)).acks ≡ answer ∷ []
unfolding on_esp_now_recv message_of dispatch handle_status accept_status mac_equals send_ack
    send_out frames_to same_bytes encode_ack decode_status
first_acks = refl

second_frames : second.frames ≡ reading ∷ []
unfolding timers hello_timer run_chain originate forward take_next begin_forwarding send_status
    frames_to same_bytes send_out on_esp_now_recv message_of dispatch handle_status accept_status
    mac_equals send_ack encode_status decode_status
second_frames = refl

second_acks : (delivered second gateway).acks ≡ answer ∷ []
unfolding on_esp_now_recv message_of dispatch handle_status accept_status mac_equals send_ack
    send_out frames_to same_bytes encode_ack decode_status
second_acks = refl

end-Leads : Leads api start end
end-Leads =
    next
      (next
        (next
          (next
            (next (next here (round (relay 1 2 0) (relay 2 0 1 ∷ gateway ∷ []) (clock 20000)))
              (deliver_frame first (relay 2 0 1) (gateway ∷ []) reading [] first_frames))
            (deliver_ack (delivered first (relay 2 0 1))
              (after_frame api reading (relay 2 0 1) ∷ gateway ∷ []) answer [] first_acks))
          (nearer (acknowledged first (relay 2 0 1))
            (round (after_frame api reading (relay 2 0 1)) (gateway ∷ []) (clock 0))))
        (nearer (acknowledged first (relay 2 0 1))
          (deliver_frame second gateway [] reading [] second_frames)))
      (nearer (acknowledged first (relay 2 0 1)) (
        deliver_ack (delivered second gateway) (after_frame api reading gateway ∷ []) answer []
          second_acks))

end-IsNumbered : IsNumbered api end
unfolding made_by timers hello_timer run_chain originate forward take_next begin_forwarding
    send_status same_bytes send_out on_esp_now_recv message_of dispatch handle_status accept_status
    handle_ack mac_equals send_ack encode_status decode_status decode_ack local_packet
    read_local_status strncpy broadcast_hello
end-IsNumbered = ((tt, tt), (tt, (tt, tt)))

line-InOrder_example : InOrder api end
line-InOrder_example = line-InOrder api start-IsLine end-Leads end-IsNumbered

end-IsIdle : IsIdle api end
unfolding timers hello_timer run_chain originate forward take_next begin_forwarding send_status
    same_bytes send_out on_esp_now_recv message_of dispatch handle_status accept_status handle_ack
    mac_equals send_ack encode_status decode_status decode_ack local_packet read_local_status
    strncpy broadcast_hello
end-IsIdle = (refl, refl, (refl, refl, tt))

line-IsComplete_example : IsComplete api end
line-IsComplete_example = line-IsComplete api start-IsLine end-Leads end-IsNumbered end-IsIdle
