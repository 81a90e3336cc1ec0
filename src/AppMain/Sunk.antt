-- ===== src/AppMain/Sunk.antt =====
-- main/chain_node.cpp: `g_statSunk` counts the calls of `gateway_uplink::flush`.
use esp32_s3_rap.Base.{ℕ, ◌+◌, ◌%◌, ◌^◌, ◌≡◌, List, [], ◌∷◌, ◌++◌, arith, if_cases}
use esp32_s3_rap.Base.Queue.{QueueApi}
use esp32_s3_rap.Protocol.{StatusPacket, HelloPacket}
use esp32_s3_rap.Chain.State.{Node}
use esp32_s3_rap.Chain.Effects.{Effect, send, broadcast, add_peer, flush, assert_failed}
use esp32_s3_rap.Chain.Handlers.{
  learn_next, learn_prev, finish_discovery, handle_hello, accept_status, handle_status, handle_ack,
  is_discovering, Message, ignored, hello, status, ack, message_of, dispatch, on_esp_now_recv,
}
use esp32_s3_rap.Chain.Loop.{
  Clock, hello_timer, originate, retransmit, take_next, forward, run_chain, timers, poll, loop,
}
use esp32_s3_rap.Chain.Hop.{count_flushes}

-- What a function's calls add to the count.
abbrev pub Sinks : {Q : Type 0} → Node Q → Node Q × List Effect → Type 0
Sinks n out = out.0.stat_sunk % 2 ^ 32 ≡ (n.stat_sunk + count_flushes out.1) % 2 ^ 32

pub count_flushes-append :
    (xs ys : List Effect) → count_flushes (xs ++ ys) ≡ count_flushes xs + count_flushes ys
unfolding count_flushes
count_flushes-append [] ys = omega arith
count_flushes-append (flush node_id stream_id occupied plate ∷ xs) ys =
    let rest = count_flushes-append xs ys in omega arith
count_flushes-append (send mac bytes ∷ xs) ys = count_flushes-append xs ys
count_flushes-append (broadcast bytes ∷ xs) ys = count_flushes-append xs ys
count_flushes-append (add_peer mac ∷ xs) ys = count_flushes-append xs ys
count_flushes-append (assert_failed ∷ xs) ys = count_flushes-append xs ys

Sinks-append :
    {Q : Type 0}
    → (n : Node Q) (first second : Node Q × List Effect) → Sinks n first
    → Sinks first.0 second
    → Sinks n (second.0, first.1 ++ second.1)
Sinks-append n first second one two = let sum = count_flushes-append first.1 second.1 in omega arith

handle_hello-Sinks :
    {Q : Type 0} (mac : List ℕ) (packet : HelloPacket) (n : Node Q)
    → Sinks n (handle_hello mac packet n)
unfolding handle_hello learn_next learn_prev finish_discovery count_flushes
handle_hello-Sinks mac packet n = ground arith

module _ (api : QueueApi StatusPacket) where
  open api use {Queue}

  handle_status-Sinks :
      (mac : List ℕ) (packet : StatusPacket) (n : Node Queue)
      → Sinks n (handle_status api mac packet n)
  unfolding handle_status accept_status count_flushes
  handle_status-Sinks mac packet n = ground arith

  dispatch-Sinks : (mac : List ℕ) (m : Message) (n : Node Queue) → Sinks n (dispatch api mac m n)
  unfolding dispatch handle_ack count_flushes
  dispatch-Sinks mac ignored n = omega arith
  dispatch-Sinks mac (hello packet) n = handle_hello-Sinks mac packet n
  dispatch-Sinks mac (status packet) n = handle_status-Sinks mac packet n
  dispatch-Sinks mac (ack packet) n = ground arith

  poll-Sinks : (inbox : List (List ℕ × List ℕ)) (n : Node Queue) → Sinks n (poll api inbox n)
  unfolding poll on_esp_now_recv count_flushes
  poll-Sinks [] n = omega arith
  poll-Sinks ((mac, bytes) ∷ rest) n =
      let (n', calls) = on_esp_now_recv api mac bytes n in
      Sinks-append n (n', calls) (poll api rest n') (dispatch-Sinks mac (message_of bytes) n)
        (poll-Sinks rest n')

  hello_timer-Sinks : (t : Clock) (n : Node Queue) → Sinks n (hello_timer t n)
  unfolding hello_timer count_flushes
  hello_timer-Sinks t n = ground arith

  originate-Sinks : (t : Clock) (n : Node Queue) → Sinks n (originate api t n)
  unfolding originate count_flushes
  originate-Sinks t n = ground arith

  forward-Sinks : (t : Clock) (n : Node Queue) → Sinks n (forward api t n)
  unfolding forward take_next retransmit count_flushes
  forward-Sinks t n = ground arith

  run_chain-Sinks : (t : Clock) (n : Node Queue) → Sinks n (run_chain api t n)
  unfolding run_chain count_flushes
  run_chain-Sinks t n =
      let (n', calls) = originate api t n in
      if_cases (Sinks n) (is_discovering n.state) (λ _. omega arith)
        (λ _.
          Sinks-append n (n', calls) (forward api t n') (originate-Sinks t n) (forward-Sinks t n'))

  timers-Sinks : (t : Clock) (n : Node Queue) → Sinks n (timers api t n)
  unfolding timers
  timers-Sinks t n =
      let (n', calls) = hello_timer t n in
      Sinks-append n (n', calls) (run_chain api t n') (hello_timer-Sinks t n) (run_chain-Sinks t n')

  pub loop-Sinks :
      (t : Clock) (inbox : List (List ℕ × List ℕ)) (n : Node Queue) → Sinks n (loop api t inbox n)
  unfolding loop
  loop-Sinks t inbox n =
      let (n', calls) = poll api inbox n in
      Sinks-append n (n', calls) (timers api t n') (poll-Sinks inbox n) (timers-Sinks t n')
