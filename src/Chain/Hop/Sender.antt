-- ===== src/Chain/Hop/Sender.antt =====
-- main/chain_node.cpp: what the sending end of a hop does in a round, and with an ACK.
use esp32_s3_rap.Base.{
  ℕ, ◌^◌, ◌<◌, ◌≡◌, refl, ◌⊎◌, true, false, List, [], ◌∷◌, ◌++◌, arith, same_bytes_self, append-nil,
}
use esp32_s3_rap.Base.Queue.{QueueApi}
use esp32_s3_rap.Protocol.{StatusPacket, encode_status, encode_ack, decode_ack}
use esp32_s3_rap.Protocol.RoundTrip.{decode-encode_ack}
use esp32_s3_rap.Chain.State.{Node}
use esp32_s3_rap.Chain.Effects.{Effect, send, broadcast, add_peer, flush, assert_failed}
use esp32_s3_rap.Chain.Handlers.{
  handle_ack, ack_for, message_of, ack, on_esp_now_recv, is_forwarding,
}
use esp32_s3_rap.Chain.Loop.{
  Clock, timers, hello_timer, run_chain, originate, forward, retransmit, take_next,
}
use esp32_s3_rap.Chain.Invariant.{IsPacket, IsValid, handle_ack-Keeps}
use esp32_s3_rap.Chain.Hop.{frames_to}

pub frames_to-append :
    (mac : List ℕ) (xs ys : List Effect)
    → frames_to mac (xs ++ ys) ≡ frames_to mac xs ++ frames_to mac ys
unfolding frames_to
frames_to-append mac [] ys = refl
frames_to-append mac (send to bytes ∷ xs) ys = ground (arith, frames_to-append mac xs ys)
frames_to-append mac (broadcast _ ∷ xs) ys = frames_to-append mac xs ys
frames_to-append mac (add_peer _ ∷ xs) ys = frames_to-append mac xs ys
frames_to-append mac (flush _ _ _ _ ∷ xs) ys = frames_to-append mac xs ys
frames_to-append mac (assert_failed ∷ xs) ys = frames_to-append mac xs ys

module _ (api : QueueApi StatusPacket) where
  open api use {Queue}

  abbrev pub Still : Node Queue → Node Queue → Type 0
  Still n m =
      (m.next_mac ≡ n.next_mac) × (m.next_known ≡ n.next_known) × (m.is_gateway ≡ n.is_gateway)

  -- A round of a relay's timers: while a packet waits for its ACK only that packet may go out again;
  -- otherwise nothing is sent to `next`, or a packet that then waits.
  abbrev pub Rounded : Node Queue → Node Queue × List Effect → Type 0
  Rounded n out =
      Still n out.0
      × (((is_forwarding n.state ≡ true)
            × (is_forwarding out.0.state ≡ true)
            × (out.0.pending ≡ n.pending)
            × ((frames_to n.next_mac out.1 ≡ [])
                ⊎ (frames_to n.next_mac out.1 ≡ encode_status n.pending ∷ [])))
          ⊎ ((is_forwarding n.state ≡ false)
              × (is_forwarding out.0.state ≡ false)
              × (frames_to n.next_mac out.1 ≡ []))
          ⊎ ((is_forwarding n.state ≡ false)
              × (is_forwarding out.0.state ≡ true)
              × (frames_to n.next_mac out.1 ≡ encode_status out.0.pending ∷ [])))

  -- A step that sends nothing to `next`.
  abbrev pub Silent : Node Queue → Node Queue × List Effect → Type 0
  Silent n out =
      Still n out.0
      × (out.0.state ≡ n.state)
      × (out.0.pending ≡ n.pending)
      × (out.0.ack_deadline_ms ≡ n.ack_deadline_ms)
      × (frames_to n.next_mac out.1 ≡ [])

  pub hello_timer-Silent : (t : Clock) (n : Node Queue) → Silent n (hello_timer t n)
  unfolding hello_timer frames_to
  hello_timer-Silent t n = ground arith

  pub originate-Silent : (t : Clock) (n : Node Queue) → Silent n (originate api t n)
  unfolding originate frames_to
  originate-Silent t n = ground arith

  take_next-Rounded :
      (t : Clock) (n : Node Queue) → is_forwarding n.state ≡ false → Rounded n (take_next api t n)
  unfolding take_next frames_to
  take_next-Rounded t n s = ground (arith, same_bytes_self n.next_mac)

  forward-Rounded :
      (t : Clock) (n : Node Queue) → n.is_gateway ≡ false → Rounded n (forward api t n)
  unfolding forward retransmit frames_to
  forward-Rounded t n g = ground (arith, same_bytes_self n.next_mac, take_next-Rounded t n)

  run_chain-Rounded :
      (t : Clock) (n : Node Queue) → n.is_gateway ≡ false → Rounded n (run_chain api t n)
  unfolding run_chain frames_to
  run_chain-Rounded t n g =
      let m = (originate api t n).0 in
      ground (
        arith,
        originate-Silent t n,
        forward-Rounded t m,
        frames_to-append n.next_mac (originate api t n).1 (forward api t m).1,
      )

  pub timers-Rounded :
      (t : Clock) (n : Node Queue) → n.is_gateway ≡ false → Rounded n (timers api t n)
  unfolding timers
  timers-Rounded t n g =
      let m = (hello_timer t n).0 in
      ground (
        arith,
        hello_timer-Silent t n,
        run_chain-Rounded t m,
        frames_to-append n.next_mac (hello_timer t n).1 (run_chain api t m).1,
      )

  -- An ACK frees the slot if it names the packet that waits, and changes nothing else.
  abbrev pub Acknowledged : StatusPacket → Node Queue → Node Queue → Type 0
  Acknowledged p n m =
      Still n m
      × (m.pending ≡ n.pending)
      × (((is_forwarding n.state ≡ true)
            × (n.next_known ≡ true)
            × (p.origin_node_id ≡ n.pending.origin_node_id)
            × (p.seq ≡ n.pending.seq)
            × (is_forwarding m.state ≡ false))
          ⊎ ((¬ ((p.origin_node_id ≡ n.pending.origin_node_id) × (p.seq ≡ n.pending.seq))
                ⊎ (is_forwarding n.state ≡ false)
                ⊎ (n.next_known ≡ false))
              × (m ≡ n)))

  pub message_of-encode_ack :
      (p : StatusPacket)
      → p.seq < 2 ^ 16
      → message_of (encode_ack (ack_for p.origin_node_id p.seq))
        ≡ ack (ack_for p.origin_node_id p.seq)
  unfolding message_of encode_ack
  message_of-encode_ack p h = ground (arith, whole)
    where
      whole :
          decode_ack (encode_ack (ack_for p.origin_node_id p.seq)) ≡ ack_for p.origin_node_id p.seq
      whole =
          let e = decode-encode_ack (ack_for p.origin_node_id p.seq) [] h in
          rw (append-nil (encode_ack (ack_for p.origin_node_id p.seq))) at e

  pub ack-Acknowledged :
      (p : StatusPacket) (n : Node Queue)
      → IsPacket p
      → Acknowledged p n
          (on_esp_now_recv api n.next_mac (encode_ack (ack_for p.origin_node_id p.seq)) n).0
  unfolding on_esp_now_recv handle_ack
  ack-Acknowledged p n v =
      rw (message_of-encode_ack p v.seq_fits, on_esp_now_recv)
        (ground (arith, same_bytes_self n.next_mac))

  pub ack-IsValid :
      (p : StatusPacket) (n : Node Queue)
      → IsPacket p
      → IsValid api n
      → IsValid api
          (on_esp_now_recv api n.next_mac (encode_ack (ack_for p.origin_node_id p.seq)) n).0
  unfolding on_esp_now_recv
  ack-IsValid p n v w =
      rw (message_of-encode_ack p v.seq_fits, on_esp_now_recv)
        (handle_ack-Keeps api n.next_mac (ack_for p.origin_node_id p.seq) n w).0
