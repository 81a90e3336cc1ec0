-- ===== src/Chain/Receive.antt =====
-- main/chain_node.cpp: what one node makes of the frames of the chain.
use esp32_s3_rap.Base.{ℕ, ◌≡◌, ◌≢◌, refl, inl, inr, List, [], ◌∷◌, arith, same_bytes→eq, get_or}
use esp32_s3_rap.Base.Queue.{QueueApi, send_cases}
use esp32_s3_rap.Protocol.{StatusPacket, HelloPacket, packet_hello}
use esp32_s3_rap.Chain.State.{Node}
use esp32_s3_rap.Chain.Handlers.{
  handle_status, accept_status, handle_ack, on_esp_now_recv, message_of, ack_to_prev, dispatch,
  Message, ignored, hello, status, ack,
}
use esp32_s3_rap.Chain.Invariant.{IsValid}

module _ (api : QueueApi StatusPacket) where
  open api use {Queue, contents, depth}

  -- A packet that a valid node has answered is only answered again when it comes back at once: the
  -- second delivery changes nothing and makes one call, the same ACK.
  pub handle_status_again :
      (mac : List ℕ) (p : StatusPacket) (n : Node Queue)
      → IsValid api n
      → (handle_status api mac p n).1 ≢ []
      → handle_status api mac p (handle_status api mac p n).0
        ≡ ((handle_status api mac p n).0, ack_to_prev p n ∷ [])
  unfolding handle_status accept_status
  handle_status_again mac p n v h = elim v.role [
    | inl g ↦ ground arith
    | inr (q, g, e, _, _, _) ↦ ground (arith, send_cases api q p)
  ]

  message_of-ne_hello :
      (bytes : List ℕ) (p : HelloPacket)
      → get_or bytes 0 0 ≢ packet_hello
      → message_of bytes ≢ hello p
  unfolding message_of
  message_of-ne_hello bytes p h e = ground arith

  dispatch_foreign :
      (mac : List ℕ) (m : Message) (n : Node Queue)
      → mac ≢ n.prev_mac
      → mac ≢ n.next_mac
      → ((p : HelloPacket) → m ≢ hello p)
      → dispatch api mac m n ≡ (n, [])
  unfolding dispatch handle_status handle_ack
  dispatch_foreign mac ignored n a b h = refl
  dispatch_foreign mac (hello p) n a b h = absurd (h p refl)
  dispatch_foreign mac (status p) n a b h = ground (arith, same_bytes→eq mac n.prev_mac)
  dispatch_foreign mac (ack p) n a b h = ground (arith, same_bytes→eq mac n.next_mac)

  -- A frame that is no HELLO, from a MAC that is neither neighbour's, has no effect, whatever it
  -- holds.
  pub on_esp_now_recv_foreign :
      (mac bytes : List ℕ) (n : Node Queue)
      → mac ≢ n.prev_mac
      → mac ≢ n.next_mac
      → get_or bytes 0 0 ≢ packet_hello
      → on_esp_now_recv api mac bytes n ≡ (n, [])
  unfolding on_esp_now_recv
  on_esp_now_recv_foreign mac bytes n a b h =
      dispatch_foreign mac (message_of bytes) n a b (λ p. message_of-ne_hello bytes p h)
