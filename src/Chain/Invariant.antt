-- ===== src/Chain/Invariant.antt =====
-- main/chain_node.cpp: what holds of the globals between two rounds of the main task.
use esp32_s3_rap.Base.{
  ℕ, ◌+◌, ◌^◌, ◌≤◌, ◌<◌, ◌≡◌, refl, ◌∙◌, ◌==◌, Bool-cases, ◌⊎◌, inl, inr, true, false, List, [],
  ◌∷◌, ◌++◌, some, arith, length, All, All-append, All-set, All-get_or, length-strncpy,
  length-append, length-set, strncpy, get_or, drop, length-take, length-drop, if_cases,
}
use esp32_s3_rap.Base.Queue.{QueueApi, send_cases, receive_cases}
use esp32_s3_rap.Config.{gateway_node_id, max_plate_len, status_queue_depth, video_streams_per_node}
use esp32_s3_rap.Protocol.{
  StatusPacket, HelloPacket, AckPacket, packet_status, decode_status, sizeof_status,
}
use esp32_s3_rap.Chain.State.{Node, boot, no_plate}
use esp32_s3_rap.Chain.Effects.{Effect, send, broadcast, add_peer, flush, assert_failed}
use esp32_s3_rap.Chain.Handlers.{
  Message, ignored, hello, status, ack, message_of, dispatch, handle_hello, handle_status,
  handle_ack, on_esp_now_recv, accept_status, is_discovering, is_forwarding,
}
use esp32_s3_rap.Chain.Loop.{
  Clock, originate, forward, take_next, retransmit, local_packet, set_lane_status, timers, poll,
  loop, init, hello_timer, run_chain,
}

-- A packet whose fields fit their C types.
pub record IsPacket (p : StatusPacket) : Type 0 where
  pub type_fits : p.type ≡ packet_status
  pub seq_fits : p.seq < 2 ^ 16
  pub plate_fits : length p.plate ≡ max_plate_len + 1

abbrev pub IsPlate : List ℕ → Type 0
IsPlate plate = length plate ≡ max_plate_len + 1

-- A copied plate: `strncpy` and the NUL after it.
abbrev copy_plate : List ℕ → List ℕ
copy_plate plate = strncpy plate max_plate_len ++ (0 ∷ [])

abbrev Fits : Message → Type 0
Fits (status packet) = IsPacket packet
Fits ignored = Unit {0}
Fits (hello _) = Unit {0}
Fits (ack _) = Unit {0}

abbrev pub IsNotAssert : Effect → Type 0
IsNotAssert assert_failed = ⊥
IsNotAssert (send _ _) = Unit {0}
IsNotAssert (broadcast _) = Unit {0}
IsNotAssert (add_peer _) = Unit {0}
IsNotAssert (flush _ _ _ _) = Unit {0}

module _ (api : QueueApi StatusPacket) where
  open api use {Queue, contents, depth}

  -- The Gateway never forwards; a relay has its queue, with room for `kStatusQueueDepth` packets.
  abbrev pub Role : Node Queue → Type 0
  Role n =
      ((n.is_gateway ≡ true) × (is_forwarding n.state ≡ false))
      ⊎ ((q : Queue) × (n.is_gateway ≡ false)
          × (n.out_queue ≡ some q)
          × (depth q ≡ status_queue_depth)
          × (length (contents q) ≤ status_queue_depth)
          × All IsPacket (contents q))

  pub record IsValid (n : Node Queue) : Type 0 where
    pub role : Role n
    pub found :
        (is_discovering n.state ≡ true)
        ⊎ ((n.prev_known ≡ true) × ((n.is_gateway ≡ true) ⊎ (n.next_known ≡ true)))
    pub seq_fits : n.local_seq < 2 ^ 16
    pub stream_fits : n.local_stream < video_streams_per_node
    pub retries_fit : n.retry_count < 2 ^ 8
    pub pending_fits : IsPacket n.pending
    pub lanes : length n.lane_occupied ≡ video_streams_per_node
    pub plates : length n.lane_plate ≡ video_streams_per_node
    pub plates_fit : All IsPlate n.lane_plate

  -- The new globals are valid, and no call met a null queue handle.
  abbrev pub Keeps : Node Queue × List Effect → Type 0
  Keeps out = IsValid out.0 × All IsNotAssert out.1

  pub handle_hello-Keeps :
      (mac : List ℕ) (packet : HelloPacket) (n : Node Queue)
      → IsValid n
      → Keeps (handle_hello mac packet n)
  unfolding handle_hello
  handle_hello-Keeps mac packet n v = ground arith

  pub handle_ack-Keeps :
      (mac : List ℕ) (packet : AckPacket) (n : Node Queue)
      → IsValid n
      → Keeps (handle_ack mac packet n)
  unfolding handle_ack
  handle_ack-Keeps mac packet n v = ground arith

  accept_status-Keeps :
      (packet : StatusPacket) (n : Node Queue)
      → IsPacket packet
      → IsValid n
      → Keeps (accept_status api packet n)
  unfolding accept_status
  accept_status-Keeps packet n p v = elim v.role [
    | inl g ↦ ground arith
    | inr (q, g, e, d, r, a) ↦ ground (
      arith,
      send_cases api q packet,
      length-append (contents q) (packet ∷ []),
      All-append IsPacket (contents q) (packet ∷ []),
    )
  ]

  pub handle_status-Keeps :
      (mac : List ℕ) (packet : StatusPacket) (n : Node Queue)
      → IsPacket packet
      → IsValid n
      → Keeps (handle_status api mac packet n)
  unfolding handle_status
  handle_status-Keeps mac packet n p v = ground (arith, accept_status-Keeps packet n p v)

  decode_status-IsPacket :
      (bytes : List ℕ)
      → All (λ b. b < 2 ^ 8) bytes
      → sizeof_status ≤ length bytes
      → get_or bytes 0 0 ≡ packet_status
      → IsPacket (decode_status bytes)
  unfolding decode_status
  decode_status-IsPacket bytes b h e = record {
    type_fits = e;
    seq_fits = omega (
      arith,
      All-get_or (λ b. b < 2 ^ 8) bytes 3 0 b (omega arith),
      All-get_or (λ b. b < 2 ^ 8) bytes 4 0 b (omega arith),
    );
    plate_fits = omega (arith, length-take {0} 12 (drop 6 bytes), length-drop {0} 6 bytes);
  }

  message_of-Fits : (bytes : List ℕ) → All (λ b. b < 2 ^ 8) bytes → Fits (message_of bytes)
  unfolding message_of
  message_of-Fits bytes b = ground (arith, decode_status-IsPacket bytes b)

  dispatch-Keeps :
      (mac : List ℕ) (m : Message) (n : Node Queue)
      → Fits m
      → IsValid n
      → Keeps (dispatch api mac m n)
  unfolding dispatch
  dispatch-Keeps mac ignored n f v = (v, tt)
  dispatch-Keeps mac (hello packet) n f v = handle_hello-Keeps mac packet n v
  dispatch-Keeps mac (status packet) n f v = handle_status-Keeps mac packet n f v
  dispatch-Keeps mac (ack packet) n f v = handle_ack-Keeps mac packet n v

  pub on_esp_now_recv-Keeps :
      (mac bytes : List ℕ) (n : Node Queue)
      → All (λ b. b < 2 ^ 8) bytes
      → IsValid n
      → Keeps (on_esp_now_recv api mac bytes n)
  unfolding on_esp_now_recv
  on_esp_now_recv-Keeps mac bytes n b v =
      dispatch-Keeps mac (message_of bytes) n (message_of-Fits bytes b) v

  copy_plate-IsPlate : (plate : List ℕ) → IsPlate (copy_plate plate)
  copy_plate-IsPlate plate =
      omega (arith, length-append (strncpy plate max_plate_len) (0 ∷ []), length-strncpy plate 11)

  pub set_lane_status-IsValid :
      (stream_id occupied : ℕ) (plate : List ℕ) (n : Node Queue)
      → IsValid n
      → IsValid (set_lane_status stream_id occupied plate n)
  unfolding set_lane_status
  set_lane_status-IsValid stream_id occupied plate n v = ground (
    arith,
    length-set n.lane_occupied stream_id occupied,
    length-set n.lane_plate stream_id (copy_plate plate),
    All-set IsPlate n.lane_plate stream_id (copy_plate plate) v.plates_fit
        (copy_plate-IsPlate plate),
  )

  pub local_packet-IsPacket : (now : ℕ) (n : Node Queue) → IsValid n → IsPacket (local_packet now n)
  unfolding local_packet
  local_packet-IsPacket now n v =
      ground (arith, copy_plate-IsPlate (get_or n.lane_plate n.local_stream no_plate))

  pub originate-Keeps : (t : Clock) (n : Node Queue) → IsValid n → Keeps (originate api t n)
  unfolding originate
  originate-Keeps t n v = elim v.role [
    | inl g ↦ ground arith
    | inr (q, g, e, d, r, a) ↦
        let packet = local_packet t.reading n in
        ground (
          arith,
          send_cases api q packet,
          local_packet-IsPacket t.reading n v,
          length-append (contents q) (packet ∷ []),
          All-append IsPacket (contents q) (packet ∷ []),
        )
  ]

  pub state-originate :
      (t : Clock) (n : Node Queue)
      → is_discovering (originate api t n).0.state ≡ is_discovering n.state
  unfolding originate
  state-originate t n = ground arith

  pub retransmit-Keeps : (t : Clock) (n : Node Queue) → IsValid n → Keeps (retransmit t n)
  unfolding retransmit
  retransmit-Keeps t n v = ground arith

  take_next-Keeps :
      (t : Clock) (n : Node Queue)
      → IsValid n
      → is_discovering n.state ≡ false
      → n.is_gateway ≡ false
      → Keeps (take_next api t n)
  unfolding take_next
  take_next-Keeps t n v s g = elim v.role [
    | inl h ↦ cc
    | inr (q, _, e, d, r, a) ↦ ground (arith, receive_cases api q)
  ]

  pub forward-Keeps :
      (t : Clock) (n : Node Queue)
      → IsValid n
      → is_discovering n.state ≡ false
      → Keeps (forward api t n)
  unfolding forward
  forward-Keeps t n v s = ground (arith, retransmit-Keeps t n v, take_next-Keeps t n v)

  run_chain-Keeps : (t : Clock) (n : Node Queue) → IsValid n → Keeps (run_chain api t n)
  unfolding run_chain
  run_chain-Keeps t n v =
      if_cases Keeps (is_discovering n.state) (λ _. (v, tt))
        λ s.
          let first = originate-Keeps t n v in
          let second = forward-Keeps t (originate api t n).0 first.0 (state-originate t n ∙ s) in
          (second.0, All-append IsNotAssert _ _ first.1 second.1)

  pub hello_timer-Keeps : (t : Clock) (n : Node Queue) → IsValid n → Keeps (hello_timer t n)
  unfolding hello_timer
  hello_timer-Keeps t n v = ground arith

  pub timers-Keeps : (t : Clock) (n : Node Queue) → IsValid n → Keeps (timers api t n)
  unfolding timers
  timers-Keeps t n v =
      let first = hello_timer-Keeps t n v in
      let second = run_chain-Keeps t (hello_timer t n).0 first.0 in
      (second.0, All-append IsNotAssert _ _ first.1 second.1)

  pub poll-Keeps :
      (inbox : List (List ℕ × List ℕ)) (n : Node Queue)
      → All (λ item. All (λ b. b < 2 ^ 8) item.1) inbox
      → IsValid n
      → Keeps (poll api inbox n)
  unfolding poll
  poll-Keeps [] n b v = (v, tt)
  poll-Keeps ((mac, bytes) ∷ rest) n b v =
      let first = on_esp_now_recv-Keeps mac bytes n b.0 v in
      let second = poll-Keeps rest (on_esp_now_recv api mac bytes n).0 b.1 first.0 in
      (second.0, All-append IsNotAssert _ _ first.1 second.1)

  pub loop-Keeps :
      (t : Clock) (inbox : List (List ℕ × List ℕ)) (n : Node Queue)
      → All (λ item. All (λ b. b < 2 ^ 8) item.1) inbox
      → IsValid n
      → Keeps (loop api t inbox n)
  unfolding loop
  loop-Keeps t inbox n b v =
      let first = poll-Keeps inbox n b v in
      let second = timers-Keeps t (poll api inbox n).0 first.0 in
      (second.0, All-append IsNotAssert _ _ first.1 second.1)

  init-Role :
      (now node_id chain_size : ℕ) (q : Queue)
      → api.create status_queue_depth ≡ some q
      → Role (init api now node_id chain_size boot).0
  unfolding init
  init-Role now node_id chain_size q e = elim (Bool-cases (node_id == gateway_node_id)) [
    | inl g ↦ inl (g, refl)
    | inr r ↦
        let (empty, deep) = api.create_empty status_queue_depth q e in
        inr (q, r, rw (r, e), deep, rw empty (omega arith), rw empty tt)
  ]

  -- Whatever `init` is given, if a relay's queue could be created.
  pub init-Keeps :
      (now node_id chain_size : ℕ) (q : Queue)
      → api.create status_queue_depth ≡ some q
      → Keeps (init api now node_id chain_size boot)
  unfolding init
  init-Keeps now node_id chain_size q e = ground (arith, init-Role now node_id chain_size q e)
