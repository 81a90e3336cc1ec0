-- ===== src/Chain/RadioTests.antt =====
-- main/chain_node.cpp and main/espnow_transport.cpp: the chain over the peer table, and its timer,
-- on small inputs.
use esp32_s3_rap.Base.{◌≡◌, ℕ, refl, List, [], ◌∷◌, arith, All, replicate}
use esp32_s3_rap.Base.ListQueue.{list_queue}
use esp32_s3_rap.Protocol.{StatusPacket, empty_status}
use esp32_s3_rap.Chain.Loop.{Clock}
use esp32_s3_rap.Chain.State.{Node, boot}
use esp32_s3_rap.Chain.Handlers.{begin_forwarding, send_status}
use esp32_s3_rap.Chain.Deadline.{resends, due, resends-begin_forwarding}
use esp32_s3_rap.Chain.History.{Event, IsEvent, round, lane_reading, power_on}
use esp32_s3_rap.Chain.Radio.{Serves}
use esp32_s3_rap.Chain.Served.{power_on-Serves}
use esp32_s3_rap.EspNow.Peers
use esp32_s3_rap.EspNow.Peers.{broadcast_mac}
use esp32_s3_rap.EspNow.ListPeers.{list_peers, list_peers-HasMemory}

abbrev at : ℕ → Clock
at now = record {
  hello_test = now;
  hello_stamp = now;
  local_test = now;
  local_stamp = now;
  reading = now;
  ack_test = now;
  warn_test = now;
  warn_stamp = now;
  arm = now;
}

-- HELLOs of nodes 2 and 0 of a chain of three, then a round that originates a reading and sends it.
abbrev events : List Event
events =
    lane_reading 1 1 (b'A' ∷ 0 ∷ [])
    ∷ round (at 20000) (
        (7 ∷ 7 ∷ 7 ∷ 7 ∷ 7 ∷ 7 ∷ [], 1 ∷ 2 ∷ 3 ∷ [])
        ∷ (8 ∷ 8 ∷ 8 ∷ 8 ∷ 8 ∷ 8 ∷ [], 1 ∷ 0 ∷ 3 ∷ [])
        ∷ [])
    ∷ []

events-IsEvent : All IsEvent events
events-IsEvent = ground arith

power_on-Serves_example :
    Serves list_peers
      (Peers.add_peer list_peers broadcast_mac []).1
      (power_on (list_queue StatusPacket) 0 1 3 events)
power_on-Serves_example =
    power_on-Serves (list_queue StatusPacket) list_peers list_peers-HasMemory 0 1 3 events
      (record { items = []; depth = 8 }) [] refl events-IsEvent refl

-- Just before the clock wraps: the deadline is past the wrap, so each round sends the packet again.
resends-begin_forwarding_example :
    let n : Node (Unit {0}) = boot in
    resends
      (at 4294967293 ∷ at 4294967294 ∷ at 4294967295 ∷ [])
      (begin_forwarding 4294967292 empty_status n).0
    ≡ replicate
        (due 4294967292 (at 4294967293 ∷ at 4294967294 ∷ at 4294967295 ∷ []))
        (send_status n empty_status)
resends-begin_forwarding_example =
    resends-begin_forwarding 4294967292 (at 4294967293 ∷ at 4294967294 ∷ at 4294967295 ∷ [])
      empty_status boot (omega arith)
