-- ===== src/Chain/Served.antt =====
-- main/chain_node.cpp and main/espnow_transport.cpp: the timers and the rounds of the chain over the
-- peer table.
use esp32_s3_rap.Base.{
  ℕ, ◌<◌, ◌≤◌, ◌≡◌, ◌^◌, inl, inr, ◌∙◌, true, false, List, [], ◌∷◌, some, arith, All, if_cases,
}
use esp32_s3_rap.Base.Queue.{QueueApi, receive_cases}
use esp32_s3_rap.Protocol.{StatusPacket}
use esp32_s3_rap.Config.{status_queue_depth}
use esp32_s3_rap.Chain.State.{Node, boot, configure}
use esp32_s3_rap.Chain.Handlers.{on_esp_now_recv, hello_of, is_discovering, broadcast_hello}
use esp32_s3_rap.Chain.Loop.{
  Clock, originate, forward, take_next, retransmit, set_lane_status, timers, poll, loop, init,
  hello_timer, run_chain,
}
use esp32_s3_rap.Chain.Invariant.{
  IsPacket, IsValid, originate-Keeps, state-originate, hello_timer-Keeps, poll-Keeps, init-Keeps,
}
use esp32_s3_rap.Chain.History.{
  Event, round, lane_reading, IsEvent, step, run, power_on, step-Keeps,
}
use esp32_s3_rap.Chain.Radio.{IsPaired, Serves, Serves-append, perform_all}
use esp32_s3_rap.Chain.Pairing.{on_esp_now_recv-Serves, hello-IsSendable, status-IsSendable}
use esp32_s3_rap.EspNow.Peers
use esp32_s3_rap.EspNow.Peers.{PeerApi, broadcast_mac, HasMemory, add_peer-exist}

module _ (api : QueueApi StatusPacket) (radio : PeerApi) (memory : HasMemory radio) where
  open api use {Queue}
  open radio use {Table}

  hello_timer-Serves :
      (t : Clock) (n : Node Queue) (peers : Table)
      → IsPaired radio n peers
      → Serves radio peers (hello_timer t n)
  unfolding hello_timer
  hello_timer-Serves t n peers paired =
      let greeting = hello-IsSendable radio (hello_of n) peers paired.2 in ground (arith, greeting)

  originate-Serves :
      (t : Clock) (n : Node Queue) (peers : Table)
      → IsPaired radio n peers
      → Serves radio peers (originate api t n)
  unfolding originate
  originate-Serves t n peers paired = ground arith

  retransmit-Serves :
      (t : Clock) (n : Node Queue) (peers : Table)
      → IsPacket n.pending
      → n.next_known ≡ true
      → IsPaired radio n peers
      → Serves radio peers (retransmit t n)
  unfolding retransmit
  retransmit-Serves t n peers sound known paired =
      let packet = status-IsSendable radio n.next_mac n.pending peers sound (paired.0 known) in
      ground (arith, packet)

  take_next-Serves :
      (t : Clock) (n : Node Queue) (peers : Table)
      → IsValid api n
      → n.is_gateway ≡ false
      → n.next_known ≡ true
      → IsPaired radio n peers
      → Serves radio peers (take_next api t n)
  unfolding take_next
  take_next-Serves t n peers v relay known paired = elim v.role [
    | inl h ↦ cc
    | inr (q, _, e, d, r, a) ↦ elim (receive_cases api q) [
      | inl (empty, nothing) ↦ rw (take_next, e, nothing) (tt, paired)
      | inr (packet, q', front, took, _) ↦
          let sound : All IsPacket (packet ∷ api.contents q') = rw front at a in
          let frame = status-IsSendable radio n.next_mac packet peers sound.0 (paired.0 known) in
          rw (take_next, e, took) ((frame, tt), paired)
    ]
  ]

  forward-Serves :
      (t : Clock) (n : Node Queue) (peers : Table)
      → IsValid api n
      → is_discovering n.state ≡ false
      → IsPaired radio n peers
      → Serves radio peers (forward api t n)
  unfolding forward
  forward-Serves t n peers v s paired =
      ground
        (arith, v.found, v.pending_fits, retransmit-Serves t n peers, take_next-Serves t n peers v)

  run_chain-Serves :
      (t : Clock) (n : Node Queue) (peers : Table)
      → IsValid api n
      → IsPaired radio n peers
      → Serves radio peers (run_chain api t n)
  unfolding run_chain
  run_chain-Serves t n peers v paired =
      if_cases (Serves radio peers) (is_discovering n.state) (λ _. (tt, paired))
        λ s.
          let first = originate-Serves t n peers paired in
          let kept = originate-Keeps api t n v in
          let (n', calls) = originate api t n in
          let second =
            forward-Serves t n' (perform_all radio calls peers) kept.0 (state-originate api t n ∙ s)
              first.1 in
          Serves-append radio (n', calls) (forward api t n') peers first second

  timers-Serves :
      (t : Clock) (n : Node Queue) (peers : Table)
      → IsValid api n
      → IsPaired radio n peers
      → Serves radio peers (timers api t n)
  unfolding timers
  timers-Serves t n peers v paired =
      let first = hello_timer-Serves t n peers paired in
      let (n', calls) = hello_timer t n in
      let second =
        run_chain-Serves t n' (perform_all radio calls peers) (hello_timer-Keeps api t n v).0
          first.1 in
      Serves-append radio (n', calls) (run_chain api t n') peers first second

  poll-Serves :
      (inbox : List (List ℕ × List ℕ)) (n : Node Queue) (peers : Table)
      → IsPaired radio n peers
      → Serves radio peers (poll api inbox n)
  unfolding poll
  poll-Serves [] n peers paired = (tt, paired)
  poll-Serves ((mac, bytes) ∷ rest) n peers paired =
      let first = on_esp_now_recv-Serves api radio memory mac bytes n peers paired in
      let (n', calls) = on_esp_now_recv api mac bytes n in
      let second = poll-Serves rest n' (perform_all radio calls peers) first.1 in
      Serves-append radio (n', calls) (poll api rest n') peers first second

  loop-Serves :
      (t : Clock) (inbox : List (List ℕ × List ℕ)) (n : Node Queue) (peers : Table)
      → All (λ item. All (λ b. b < 2 ^ 8) item.1) inbox
      → IsValid api n
      → IsPaired radio n peers
      → Serves radio peers (loop api t inbox n)
  unfolding loop
  loop-Serves t inbox n peers b v paired =
      let first = poll-Serves inbox n peers paired in
      let (n', calls) = poll api inbox n in
      let second =
        timers-Serves t n' (perform_all radio calls peers) (poll-Keeps api inbox n b v).0 first.1 in
      Serves-append radio (n', calls) (timers api t n') peers first second

  step-Serves :
      (e : Event) (n : Node Queue) (peers : Table)
      → IsEvent e
      → IsValid api n
      → IsPaired radio n peers
      → Serves radio peers (step api e n)
  unfolding step set_lane_status
  step-Serves (round t inbox) n peers b v paired = loop-Serves t inbox n peers b v paired
  step-Serves (lane_reading stream_id occupied plate) n peers b v paired = ground arith

  run-Serves :
      (events : List Event) (n : Node Queue) (peers : Table)
      → All IsEvent events
      → IsValid api n
      → IsPaired radio n peers
      → Serves radio peers (run api events n)
  unfolding run
  run-Serves [] n peers b v paired = (tt, paired)
  run-Serves (e ∷ es) n peers b v paired =
      let first = step-Serves e n peers b.0 v paired in
      let kept = step-Keeps api e n b.0 v in
      let (n', calls) = step api e n in
      let second = run-Serves es n' (perform_all radio calls peers) b.1 kept.0 first.1 in
      Serves-append radio (n', calls) (run api es n') peers first second

  init-Serves :
      (now node_id chain_size : ℕ) (peers : Table)
      → radio.exist peers broadcast_mac ≡ true
      → radio.count peers ≤ 1
      → Serves radio peers (init api now node_id chain_size boot)
  unfolding init broadcast_hello
  init-Serves now node_id chain_size peers there few =
      let n = configure api node_id chain_size boot in
      let greeting = hello-IsSendable radio (hello_of n) peers there in ground (arith, greeting)

  -- If `esp_now_add_peer` never runs out of memory on a table with room, the queue of the chain can be
  -- created, and `espnow::init` has put the broadcast address into an empty table of ESP-NOW: in `chain_node::init` and any history of rounds, received bytes and lane
  -- readings after it, every frame that the chain sends is to an address that is a peer at that
  -- time, of 1 to 250 bytes, so that it is handed to `esp_now_send`; every `addPeer` succeeds; and
  -- the neighbours that the node then knows are peers.
  pub power_on-Serves :
      (now node_id chain_size : ℕ) (events : List Event) (q : Queue) (t : Table)
      → api.create status_queue_depth ≡ some q
      → All IsEvent events
      → radio.count t ≡ 0
      → Serves radio
          (Peers.add_peer radio broadcast_mac t).1
          (power_on api now node_id chain_size events)
  unfolding power_on
  power_on-Serves now node_id chain_size events q t e b empty =
      let (peers, added, there, kept, few) =
        add_peer-exist radio memory broadcast_mac t (omega arith) in
      let first = init-Serves now node_id chain_size peers there (omega arith) in
      let valid = init-Keeps api now node_id chain_size q e in
      let (n, calls) = init api now node_id chain_size boot in
      let second = run-Serves events n (perform_all radio calls peers) b valid.0 first.1 in
      rw added (Serves-append radio (n, calls) (run api events n) peers first second)
