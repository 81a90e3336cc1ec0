-- ===== src/Chain/Pairing.antt =====
-- main/chain_node.cpp and main/espnow_transport.cpp: no frame of the chain is lost to an unknown
-- peer or to its length.
use esp32_s3_rap.Base.{
  ℕ, ◌<◌, ◌≤◌, ◌≡◌, inl, inr, Bool, true, false, List, arith, Bool-cases, not, ◌||◌, leb, ◌==◌,
  if_cases,
}
use esp32_s3_rap.Base.Queue.{QueueApi}
use esp32_s3_rap.Protocol.{
  StatusPacket, HelloPacket, AckPacket, encode_hello, encode_status, encode_ack,
}
use esp32_s3_rap.Chain.State.{Node}
use esp32_s3_rap.Chain.Handlers.{
  learn_next, learn_prev, finish_discovery, handle_hello, accept_status, handle_status, handle_ack,
  dispatch, message_of, on_esp_now_recv, ack_for, Message, ignored, hello, status, ack,
}
use esp32_s3_rap.Chain.Invariant.{IsPacket}
use esp32_s3_rap.Chain.Radio.{
  count_known, IsSendable, IsPaired, Serves, Serves-append, perform_all, sendable,
}
use esp32_s3_rap.EspNow.Peers.{PeerApi, broadcast_mac, HasMemory, add_peer-exist, max_peers}

module _ (radio : PeerApi) where
  open radio use {Table}

  pub status-IsSendable :
      (mac : List ℕ) (p : StatusPacket) (t : Table)
      → IsPacket p
      → radio.exist t mac ≡ true
      → IsSendable radio mac (encode_status p) t
  unfolding encode_status
  status-IsSendable mac p t sound there =
      let size = sound.plate_fits in
      sendable radio mac (encode_status p) t (omega arith) (omega arith) there

  ack-IsSendable :
      (mac : List ℕ) (p : AckPacket) (t : Table)
      → radio.exist t mac ≡ true
      → IsSendable radio mac (encode_ack p) t
  unfolding encode_ack
  ack-IsSendable mac p t there =
      sendable radio mac (encode_ack p) t (omega arith) (omega arith) there

  pub hello-IsSendable :
      (p : HelloPacket) (t : Table)
      → radio.exist t broadcast_mac ≡ true
      → IsSendable radio broadcast_mac (encode_hello p) t
  unfolding encode_hello
  hello-IsSendable p t there =
      sendable radio broadcast_mac (encode_hello p) t (omega arith) (omega arith) there

count_known-le : (b : Bool) → count_known b ≤ 1
count_known-le true = omega arith
count_known-le false = omega arith

module _ {Q : Type 0} (radio : PeerApi) (memory : HasMemory radio) where
  open radio use {Table}

  has_room : (n : Node Q) (t : Table) → IsPaired radio n t → radio.count t < max_peers
  has_room n t paired =
      let next = count_known-le n.next_known in
      let prev = count_known-le n.prev_known in let few = paired.3 in omega arith

  learn_next-Serves :
      (mac : List ℕ) (packet : HelloPacket) (n : Node Q) (t : Table)
      → IsPaired radio n t
      → Serves radio t (learn_next mac packet n)
  unfolding learn_next
  learn_next-Serves mac packet n t paired = elim (Bool-cases n.next_known) [
    | inl known ↦ ground arith
    | inr new ↦
        let (r, added, now, kept, few) = add_peer-exist radio memory mac t (has_room n t paired) in
        ground (arith, kept n.prev_mac, kept broadcast_mac)
  ]

  learn_prev-Serves :
      (mac : List ℕ) (packet : HelloPacket) (n : Node Q) (t : Table)
      → IsPaired radio n t
      → Serves radio t (learn_prev mac packet n)
  unfolding learn_prev
  learn_prev-Serves mac packet n t paired = elim (Bool-cases n.prev_known) [
    | inl known ↦ ground arith
    | inr new ↦
        let (r, added, now, kept, few) = add_peer-exist radio memory mac t (has_room n t paired) in
        ground (arith, kept n.next_mac, kept broadcast_mac)
  ]

  finish_discovery-IsPaired :
      (n : Node Q) (t : Table) → IsPaired radio n t → IsPaired radio (finish_discovery n) t
  unfolding finish_discovery
  finish_discovery-IsPaired n t paired = ground arith

  handle_hello-Serves :
      (mac : List ℕ) (packet : HelloPacket) (n : Node Q) (t : Table)
      → IsPaired radio n t
      → Serves radio t (handle_hello mac packet n)
  unfolding handle_hello
  handle_hello-Serves mac packet n t paired =
      if_cases (Serves radio t)
        (not (packet.chain_size == n.chain_size) || leb n.chain_size packet.node_id)
        (λ _. (tt, paired))
        λ _.
          let first = learn_next-Serves mac packet n t paired in
          let (n1, calls) = learn_next mac packet n in
          let second = learn_prev-Serves mac packet n1 (perform_all radio calls t) first.1 in
          let (n2, more) = learn_prev mac packet n1 in
          let both = Serves-append radio (n1, calls) (n2, more) t first second in
          (both.0, finish_discovery-IsPaired n2 _ both.1)

module _ (api : QueueApi StatusPacket) (radio : PeerApi) (memory : HasMemory radio) where
  open api use {Queue}
  open radio use {Table}

  accept_status-Serves :
      (packet : StatusPacket) (n : Node Queue) (t : Table)
      → n.prev_known ≡ true
      → IsPaired radio n t
      → Serves radio t (accept_status api packet n)
  unfolding accept_status
  accept_status-Serves packet n t known paired =
      let answer =
        ack-IsSendable radio n.prev_mac (ack_for packet.origin_node_id packet.seq) t
          (paired.1 known) in
      ground (arith, answer)

  handle_status-Serves :
      (mac : List ℕ) (packet : StatusPacket) (n : Node Queue) (t : Table)
      → IsPaired radio n t
      → Serves radio t (handle_status api mac packet n)
  unfolding handle_status
  handle_status-Serves mac packet n t paired = ground (
    arith,
    accept_status-Serves packet n t,
    ack-IsSendable radio n.prev_mac (ack_for packet.origin_node_id packet.seq) t,
  )

  handle_ack-Serves :
      (mac : List ℕ) (packet : AckPacket) (n : Node Queue) (t : Table)
      → IsPaired radio n t
      → Serves radio t (handle_ack mac packet n)
  unfolding handle_ack
  handle_ack-Serves mac packet n t paired = ground arith

  dispatch-Serves :
      (mac : List ℕ) (m : Message) (n : Node Queue) (t : Table)
      → IsPaired radio n t
      → Serves radio t (dispatch api mac m n)
  unfolding dispatch
  dispatch-Serves mac ignored n t paired = (tt, paired)
  dispatch-Serves mac (hello packet) n t paired =
      handle_hello-Serves radio memory mac packet n t paired
  dispatch-Serves mac (status packet) n t paired = handle_status-Serves mac packet n t paired
  dispatch-Serves mac (ack packet) n t paired = handle_ack-Serves mac packet n t paired

  pub on_esp_now_recv-Serves :
      (mac bytes : List ℕ) (n : Node Queue) (t : Table)
      → IsPaired radio n t
      → Serves radio t (on_esp_now_recv api mac bytes n)
  unfolding on_esp_now_recv
  on_esp_now_recv-Serves mac bytes n t paired = dispatch-Serves mac (message_of bytes) n t paired
