-- ===== src/Chain/Line/Fifo.antt =====
-- main/chain_node.cpp: what a relay forwards is what joined its queue, in that order.
use esp32_s3_rap.Base.{
  ℕ, ◌≡◌, inl, inr, false, List, [], ◌∷◌, ◌++◌, arith, length, drop, append-nil, Option-cases,
  Bool-cases, if◌then◌else◌,
}
use esp32_s3_rap.Base.Queue.{QueueApi, send_cases, receive_cases}
use esp32_s3_rap.Protocol.{StatusPacket}
use esp32_s3_rap.Chain.State.{Node}
use esp32_s3_rap.Chain.Handlers.{handle_status, accept_status, is_discovering}
use esp32_s3_rap.Chain.Loop.{
  Clock, hello_timer, originate, timers, run_chain, forward, retransmit, take_next, local_packet,
}
use esp32_s3_rap.Chain.Hop.{started, waiting_in, taken}
use esp32_s3_rap.Chain.Hop.Receiver.{drop-length, drop-length_append}
use esp32_s3_rap.Chain.Hop.Sender.{hello_timer-Silent, originate-Silent}
use esp32_s3_rap.Chain.Line.{made_by}

module _ (api : QueueApi StatusPacket) where
  open api use {Queue, contents}

  abbrev pub waiting : Node Queue → List StatusPacket
  waiting n = waiting_in api n.out_queue

  hello_timer-waiting : (t : Clock) (n : Node Queue) → (hello_timer t n).0.out_queue ≡ n.out_queue
  unfolding hello_timer
  hello_timer-waiting t n = ground arith

  -- A reading joins the queue at its end, or is dropped.
  originate-waiting :
      (t : Clock) (n : Node Queue)
      → n.is_gateway ≡ false
      → waiting (originate api t n).0
        ≡ waiting n ++ drop (length (waiting n)) (waiting (originate api t n).0)
  unfolding originate
  originate-waiting t n relay = elim (Option-cases n.out_queue) [
    | inl e ↦ ground arith
    | inr (q, e) ↦
        let packet = local_packet t.reading n in
        ground (
          arith,
          send_cases api q packet,
          drop-length (contents q),
          drop-length_append (contents q) (packet ∷ []),
          append-nil (contents q),
        )
  ]

  -- A packet begins to be forwarded when it leaves the queue at its front.
  forward-waiting :
      (t : Clock) (n : Node Queue)
      → n.is_gateway ≡ false
      → waiting n ≡ started api n (forward api t n).0 ++ waiting (forward api t n).0
  unfolding forward retransmit take_next
  forward-waiting t n relay = elim (Option-cases n.out_queue) [
    | inl e ↦ ground arith
    | inr (q, e) ↦ ground (arith, receive_cases api q)
  ]

  -- The same over the rest of the loop.
  run_chain-waiting :
      (t : Clock) (n : Node Queue)
      → n.is_gateway ≡ false
      → waiting n
          ++ (if is_discovering n.state
              then []
              else drop (length (waiting n)) (waiting (originate api t n).0))
        ≡ started api n (run_chain api t n).0 ++ waiting (run_chain api t n).0
  unfolding run_chain
  run_chain-waiting t n relay = elim (Bool-cases (is_discovering n.state)) [
    | inl d ↦ ground (arith, append-nil (waiting n))
    | inr d ↦
        let m = (originate api t n).0 in
        ground (arith, originate-waiting t n, forward-waiting t m, originate-Silent api t n)
  ]

  pub timers-waiting :
      (t : Clock) (n : Node Queue)
      → n.is_gateway ≡ false
      → waiting n ++ made_by api t n
        ≡ started api n (timers api t n).0 ++ waiting (timers api t n).0
  unfolding timers made_by
  timers-waiting t n relay =
      let m = (hello_timer t n).0 in
      ground (arith, hello_timer-Silent api t n, hello_timer-waiting t n, run_chain-waiting t m)

  -- A packet from `prev` joins the queue at its end, or nothing does.
  pub handle_status-waiting :
      (mac : List ℕ) (packet : StatusPacket) (n : Node Queue)
      → n.is_gateway ≡ false
      → waiting (handle_status api mac packet n).0
        ≡ waiting n ++ taken api packet n (handle_status api mac packet n)
  unfolding handle_status accept_status taken
  handle_status-waiting mac packet n relay = elim (Option-cases n.out_queue) [
    | inl e ↦ ground arith
    | inr (q, e) ↦ ground (
      arith,
      send_cases api q packet,
      drop-length (contents q),
      drop-length_append (contents q) (packet ∷ []),
      append-nil (contents q),
    )
  ]
