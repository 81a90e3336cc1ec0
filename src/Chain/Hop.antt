-- ===== src/Chain/Hop.antt =====
-- main/chain_node.cpp: one hop of the chain, between a relay and its `next`, as a system: the two
-- nodes and the frames under way between them. Frames may be lost at any time and are not
-- reordered. Beside the program's state the system records which packets the sender began to
-- forward and which ones the receiver took in.
pub mod Receiver
pub mod Sender
pub mod Phase
pub mod Delivery
pub mod Rounds
pub mod Safety
pub mod Progress
use esp32_s3_rap.Base.{
  ℕ, suc, ◌≡◌, true, false, List, [], ◌∷◌, ◌++◌, Option, none, some, length, drop, ◌==◌,
  if◌then◌else◌, same_bytes,
}
use esp32_s3_rap.Base.Queue.{QueueApi}
use esp32_s3_rap.Protocol.{StatusPacket}
use esp32_s3_rap.Chain.State.{Node}
use esp32_s3_rap.Chain.Effects.{Effect, send, broadcast, add_peer, flush, assert_failed}
use esp32_s3_rap.Chain.Handlers.{on_esp_now_recv, is_forwarding, message_of, status}
use esp32_s3_rap.Chain.Loop.{Clock, timers}
use esp32_s3_rap.Chain.Invariant.{IsValid}

-- The frames that some calls put on the air for one MAC.
unfoldable pub frames_to : List ℕ → List Effect → List (List ℕ)
frames_to mac [] = []
frames_to mac (send to bytes ∷ rest) =
    if same_bytes to mac then bytes ∷ frames_to mac rest else frames_to mac rest
frames_to mac (broadcast _ ∷ rest) = frames_to mac rest
frames_to mac (add_peer _ ∷ rest) = frames_to mac rest
frames_to mac (flush _ _ _ _ ∷ rest) = frames_to mac rest
frames_to mac (assert_failed ∷ rest) = frames_to mac rest

unfoldable pub count_flushes : List Effect → ℕ
count_flushes [] = 0
count_flushes (flush _ _ _ _ ∷ rest) = suc (count_flushes rest)
count_flushes (send _ _ ∷ rest) = count_flushes rest
count_flushes (broadcast _ ∷ rest) = count_flushes rest
count_flushes (add_peer _ ∷ rest) = count_flushes rest
count_flushes (assert_failed ∷ rest) = count_flushes rest

unfoldable pub last {ℓ} : {A : Type ℓ} → List A → Option A
last [] = none
last (x ∷ []) = some x
last (x ∷ y ∷ rest) = last (y ∷ rest)

-- Packets with one identity: `(origin_node_id, seq)`.
abbrev pub SameKey : StatusPacket → StatusPacket → Type 0
SameKey p r = (p.origin_node_id ≡ r.origin_node_id) × (p.seq ≡ r.seq)

abbrev pub Fresh : Option StatusPacket → StatusPacket → Type 0
Fresh none p = Unit {0}
Fresh (some l) p = ¬ SameKey p l

module _ (api : QueueApi StatusPacket) where
  open api use {Queue, contents}

  abbrev pub waiting_in : Option Queue → List StatusPacket
  waiting_in none = []
  waiting_in (some q) = contents q

  -- What a node took in while it handled `packet`: on the Gateway the packet, if the uplink was
  -- called; on a relay what its queue holds more.
  unfoldable pub taken : StatusPacket → Node Queue → Node Queue × List Effect → List StatusPacket
  unfolding count_flushes
  taken packet n out =
      if n.is_gateway
      then (if count_flushes out.1 == 1 then packet ∷ [] else [])
      else drop (length (waiting_in n.out_queue)) (waiting_in out.0.out_queue)

  unfoldable pub taken_in : List ℕ → Node Queue → Node Queue × List Effect → List StatusPacket
  taken_in bytes n out = elim (message_of bytes) [ status p ↦ taken p n out | _ ↦ [] ]

  -- A frame from the node's `prev`.
  abbrev pub received : List ℕ → Node Queue → Node Queue × List Effect
  received bytes n = on_esp_now_recv api n.prev_mac bytes n

  -- The hop, with the ghosts `sent` and `got`, oldest first.
  pub record Hop : Type 0 where
    pub sender : Node Queue
    pub receiver : Node Queue
    pub frames : List (List ℕ)
    pub acks : List (List ℕ)
    pub sent : List StatusPacket
    pub got : List StatusPacket

  -- What the rest of the sender's loop leaves alone: its own readings, its traffic with its `prev`,
  -- HELLOs.
  pub record SameSender (a b : Node Queue) : Type 0 where
    pub valid : IsValid api b
    pub state_same : is_forwarding b.state ≡ is_forwarding a.state
    pub pending_same : b.pending ≡ a.pending
    pub mac_same : b.next_mac ≡ a.next_mac
    pub known_same : b.next_known ≡ a.next_known
    pub role_same : b.is_gateway ≡ a.is_gateway

  -- What the receiver leaves alone but for packets from its `prev`.
  pub record SameReceiver (a b : Node Queue) : Type 0 where
    pub mac_same : b.prev_mac ≡ a.prev_mac
    pub known_same : b.prev_known ≡ a.prev_known
    pub any_same : b.has_accepted_any ≡ a.has_accepted_any
    pub origin_same : b.last_accepted_origin ≡ a.last_accepted_origin
    pub seq_same : b.last_accepted_seq ≡ a.last_accepted_seq

  abbrev pub started : Node Queue → Node Queue → List StatusPacket
  started a b =
      if is_forwarding a.state then [] else (if is_forwarding b.state then b.pending ∷ [] else [])

  pub data HopStep (h : Hop) : Hop → Type 0 where
    -- The sender's `loop` after `espnow::poll`. Neighbouring packets of its queue have different identities.
    sender_round :
        (t : Clock)
        → ((p : StatusPacket)
            → started h.sender (timers api t h.sender).0 ≡ p ∷ []
            → Fresh (last h.sent) p)
        → HopStep h (record h {
          sender = (timers api t h.sender).0;
          frames = h.frames ++ frames_to h.sender.next_mac (timers api t h.sender).1;
          sent = h.sent ++ started h.sender (timers api t h.sender).0;
        })
    deliver_frame :
        (bytes : List ℕ) (rest : List (List ℕ))
        → h.frames ≡ bytes ∷ rest
        → HopStep h (record h {
          receiver = (received bytes h.receiver).0;
          frames = rest;
          acks = h.acks ++ frames_to h.receiver.prev_mac (received bytes h.receiver).1;
          got = h.got ++ taken_in bytes h.receiver (received bytes h.receiver);
        })
    deliver_ack :
        (bytes : List ℕ) (rest : List (List ℕ))
        → h.acks ≡ bytes ∷ rest
        → HopStep h (record h {
          sender = (on_esp_now_recv api h.sender.next_mac bytes h.sender).0;
          acks = rest;
        })
    lose_frame :
        (bytes : List ℕ) (rest : List (List ℕ))
        → h.frames ≡ bytes ∷ rest
        → HopStep h (record h { frames = rest })
    lose_ack :
        (bytes : List ℕ) (rest : List (List ℕ))
        → h.acks ≡ bytes ∷ rest
        → HopStep h (record h { acks = rest })
    sender_other : (b : Node Queue) → SameSender h.sender b → HopStep h (record h { sender = b })
    receiver_other :
        (b : Node Queue) → SameReceiver h.receiver b → HopStep h (record h { receiver = b })

  -- Both have found each other; nothing is under way, and the receiver has accepted nothing yet.
  pub record IsStart (h : Hop) : Type 0 where
    pub valid : IsValid api h.sender
    pub relay : h.sender.is_gateway ≡ false
    pub sender_free : is_forwarding h.sender.state ≡ false
    pub next_found : h.sender.next_known ≡ true
    pub prev_found : h.receiver.prev_known ≡ true
    pub fresh : h.receiver.has_accepted_any ≡ false
    pub no_frames : h.frames ≡ []
    pub no_acks : h.acks ≡ []
    pub none_sent : h.sent ≡ []
    pub none_got : h.got ≡ []

  pub data Reach (s : Hop) : Hop → Type 0 where
    here : Reach s s
    next : {h k : Hop} → Reach s h → HopStep h k → Reach s k
