-- ===== src/Chain/Line/Same.antt =====
-- main/chain_node.cpp: what each handler and the timers leave alone on their node.
use esp32_s3_rap.Base.{
  ℕ, ◌≡◌, refl, ◌∙◌, inl, inr, true, false, List, [], ◌∷◌, arith, length, drop, Option-cases, All,
  if_cases,
}
use esp32_s3_rap.Base.Queue.{QueueApi, send_cases}
use esp32_s3_rap.Protocol.{StatusPacket, HelloPacket, AckPacket}
use esp32_s3_rap.Chain.State.{Node}
use esp32_s3_rap.Chain.Handlers.{
  handle_status, accept_status, handle_ack, handle_hello, learn_next, learn_prev, finish_discovery,
  is_discovering,
}
use esp32_s3_rap.Chain.Loop.{
  Clock, hello_timer, originate, timers, run_chain, forward, retransmit, take_next, set_lane_status,
  local_packet, read_local_status,
}
use esp32_s3_rap.Chain.Invariant.{
  IsPacket, IsValid, handle_status-Keeps, handle_hello-Keeps, set_lane_status-IsValid,
}
use esp32_s3_rap.Chain.Hop.{SameSender, SameReceiver, waiting_in}
use esp32_s3_rap.Chain.Hop.Receiver.{drop-length, drop-length_append}
use esp32_s3_rap.Chain.Hop.Sender.{hello_timer-Silent}
use esp32_s3_rap.Chain.Line.{made_by}

module _ (api : QueueApi StatusPacket) where
  open api use {Queue, contents}

  -- A step that has nothing to do with packets from `prev`.
  abbrev pub Apart : Node Queue → Node Queue → Type 0
  Apart a b = SameReceiver api a b × (b.node_id ≡ a.node_id)

  Apart-trans : (a b c : Node Queue) → Apart a b → Apart b c → Apart a c
  Apart-trans a b c first second = ground (arith, first, second)

  hello_timer-Apart : (t : Clock) (n : Node Queue) → Apart n (hello_timer t n).0
  unfolding hello_timer
  hello_timer-Apart t n = ground arith

  originate-Apart : (t : Clock) (n : Node Queue) → Apart n (originate api t n).0
  unfolding originate
  originate-Apart t n = ground arith

  forward-Apart : (t : Clock) (n : Node Queue) → Apart n (forward api t n).0
  unfolding forward retransmit take_next
  forward-Apart t n = ground arith

  run_chain-Apart : (t : Clock) (n : Node Queue) → Apart n (run_chain api t n).0
  unfolding run_chain
  run_chain-Apart t n =
      let m = (originate api t n).0 in ground (arith, originate-Apart t n, forward-Apart t m)

  pub timers-Apart : (t : Clock) (n : Node Queue) → Apart n (timers api t n).0
  unfolding timers
  timers-Apart t n =
      let m = (hello_timer t n).0 in ground (arith, hello_timer-Apart t n, run_chain-Apart t m)

  pub handle_ack-Apart :
      (mac : List ℕ) (packet : AckPacket) (n : Node Queue) → Apart n (handle_ack mac packet n).0
  unfolding handle_ack
  handle_ack-Apart mac packet n = ground arith

  pub handle_ack-queue :
      (mac : List ℕ) (packet : AckPacket) (n : Node Queue)
      → ((handle_ack mac packet n).0.out_queue ≡ n.out_queue)
        × ((handle_ack mac packet n).0.next_known ≡ n.next_known)
  unfolding handle_ack
  handle_ack-queue mac packet n = ground arith

  -- Once the neighbours are known a HELLO changes nothing that concerns packets.
  pub handle_hello-Apart :
      (mac : List ℕ) (packet : HelloPacket) (n : Node Queue)
      → n.prev_known ≡ true
      → Apart n (handle_hello mac packet n).0
  unfolding handle_hello learn_next learn_prev finish_discovery
  handle_hello-Apart mac packet n known = ground arith

  pub handle_hello-SameSender :
      (mac : List ℕ) (packet : HelloPacket) (n : Node Queue)
      → IsValid api n
      → n.next_known ≡ true
      → SameSender api n (handle_hello mac packet n).0
        × ((handle_hello mac packet n).0.out_queue ≡ n.out_queue)
  unfolding handle_hello learn_next learn_prev finish_discovery
  handle_hello-SameSender mac packet n v known =
      ground (arith, handle_hello-Keeps api mac packet n v)

  pub set_lane_status-Apart :
      (stream_id occupied : ℕ) (plate : List ℕ) (n : Node Queue)
      → Apart n (set_lane_status stream_id occupied plate n)
  unfolding set_lane_status
  set_lane_status-Apart stream_id occupied plate n = ground arith

  pub set_lane_status-SameSender :
      (stream_id occupied : ℕ) (plate : List ℕ) (n : Node Queue)
      → IsValid api n
      → SameSender api n (set_lane_status stream_id occupied plate n)
        × ((set_lane_status stream_id occupied plate n).out_queue ≡ n.out_queue)
  unfolding set_lane_status
  set_lane_status-SameSender stream_id occupied plate n v =
      ground (arith, set_lane_status-IsValid api stream_id occupied plate n v)

  -- A packet from `prev` leaves what the node sends alone.
  pub handle_status-SameSender :
      (mac : List ℕ) (packet : StatusPacket) (n : Node Queue)
      → IsPacket packet
      → IsValid api n
      → SameSender api n (handle_status api mac packet n).0
        × ((handle_status api mac packet n).0.node_id ≡ n.node_id)
  unfolding handle_status accept_status
  handle_status-SameSender mac packet n fits v =
      ground (arith, handle_status-Keeps api mac packet n fits v)

  local_packet-origin : (now : ℕ) (n : Node Queue) → (local_packet now n).origin_node_id ≡ n.node_id
  unfolding local_packet read_local_status
  local_packet-origin now n = refl

  originate-made :
      (t : Clock) (n : Node Queue)
      → n.is_gateway ≡ false
      → All
          (λ p. p.origin_node_id ≡ n.node_id)
          (drop
            (length (waiting_in api n.out_queue))
            (waiting_in api (originate api t n).0.out_queue))
  unfolding originate
  originate-made t n relay = elim (Option-cases n.out_queue) [
    | inl e ↦ ground arith
    | inr (q, e) ↦
        let packet = local_packet t.reading n in
        ground (
          arith,
          send_cases api q packet,
          drop-length (contents q),
          drop-length_append (contents q) (packet ∷ []),
          local_packet-origin t.reading n,
        )
  ]

  -- A relay's own readings carry its id.
  pub made_by-All :
      (t : Clock) (n : Node Queue)
      → n.is_gateway ≡ false
      → All (λ p. p.origin_node_id ≡ n.node_id) (made_by api t n)
  unfolding made_by
  made_by-All t n relay =
      let m = (hello_timer t n).0 in
      let (same, id_same) = hello_timer-Apart t n in
      let still = (hello_timer-Silent api t n).0 in
      if_cases (All (λ p. p.origin_node_id ≡ n.node_id)) (is_discovering m.state) (λ _. tt)
        (λ _. rw id_same at (originate-made t m (still.2 ∙ relay)))
