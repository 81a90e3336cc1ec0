-- ===== src/Chain/Line.antt =====
-- main/chain_node.cpp: the whole chain as a system, from its far end to the Gateway: the nodes in
-- order, and between each node and the one after it the frames and the ACKs under way. Frames may be
-- lost at any time and are not reordered. Each node also has the history of its readings.
pub mod Fifo
pub mod Same
pub mod Invariant
pub mod Steps
pub mod Order
pub mod Numbers
pub mod Reached
mod Tests
use esp32_s3_rap.Base.{
  ℕ, ◌≡◌, ◌≢◌, Bool, true, false, List, [], ◌∷◌, ◌++◌, length, drop, All, map, ◌==◌, if◌then◌else◌,
}
use esp32_s3_rap.Base.Queue.{QueueApi}
use esp32_s3_rap.Protocol.{StatusPacket, HelloPacket}
use esp32_s3_rap.Chain.State.{Node}
use esp32_s3_rap.Chain.Effects.{Effect}
use esp32_s3_rap.Chain.Handlers.{handle_hello, is_discovering, is_forwarding, on_esp_now_recv}
use esp32_s3_rap.Chain.Loop.{Clock, hello_timer, originate, timers, set_lane_status}
use esp32_s3_rap.Chain.Invariant.{IsValid}
use esp32_s3_rap.Chain.Hop.{frames_to, received, started, taken_in, waiting_in}

-- Neighbours in a list have different sequence numbers.
abbrev pub Differs : StatusPacket → List StatusPacket → Type 0
Differs p [] = Unit {0}
Differs p (q ∷ rest) = p.seq ≢ q.seq

abbrev pub Alternates : List StatusPacket → Type 0
Alternates [] = Unit {0}
Alternates (p ∷ rest) = Differs p rest × Alternates rest

-- The packets of one origin.
unfoldable pub of_origin : ℕ → List StatusPacket → List StatusPacket
of_origin o [] = []
of_origin o (p ∷ ps) = let rest = of_origin o ps in if p.origin_node_id == o then p ∷ rest else rest

module _ (api : QueueApi StatusPacket) where
  open api use {Queue}

  -- The readings of its own that a round of a relay puts into the queue.
  unfoldable pub made_by : Clock → Node Queue → List StatusPacket
  made_by t n =
      let m = (hello_timer t n).0 in
      if is_discovering m.state
      then []
      else drop (length (waiting_in api m.out_queue))
          (waiting_in api (originate api t m).0.out_queue)

  -- A node with the frames for its `next` and the ACKs from it; what it has taken in from its
  -- `prev`, which readings of its own and which packets at all joined its queue, and which it began
  -- to forward, oldest first.
  pub record Station : Type 0 where
    pub node : Node Queue
    pub frames : List (List ℕ)
    pub acks : List (List ℕ)
    pub got : List StatusPacket
    pub made : List StatusPacket
    pub entered : List StatusPacket
    pub sent : List StatusPacket

  abbrev pub id : Station → ℕ
  id s = s.node.node_id

  -- The timers of a node.
  abbrev pub after_round : Clock → Station → Station
  after_round t s = record s {
    node = (timers api t s.node).0;
    frames = s.frames ++ frames_to s.node.next_mac (timers api t s.node).1;
    made = s.made ++ made_by t s.node;
    entered = s.entered ++ made_by t s.node;
    sent = s.sent ++ started api s.node (timers api t s.node).0;
  }

  -- A frame from its `prev`.
  abbrev pub after_frame : List ℕ → Station → Station
  after_frame bytes s =
      let came = taken_in api bytes s.node (received api bytes s.node) in
      record s {
        node = (received api bytes s.node).0;
        got = s.got ++ came;
        entered = s.entered ++ came;
      }

  -- An ACK from its `next`.
  abbrev pub after_ack : List ℕ → Station → Station
  after_ack bytes s = record s { node = (on_esp_now_recv api s.node.next_mac bytes s.node).0 }

  -- One step somewhere on the line.
  pub data LineStep : List Station → List Station → Type 0 where
    round :
        (s : Station) (rest : List Station) (t : Clock)
        → LineStep (s ∷ rest) (after_round t s ∷ rest)
    lane_reading :
        (s : Station) (rest : List Station) (stream_id occupied : ℕ) (plate : List ℕ)
        → LineStep
            (s ∷ rest)
            (record s { node = set_lane_status stream_id occupied plate s.node } ∷ rest)
    greeting :
        (s : Station) (rest : List Station) (mac : List ℕ) (packet : HelloPacket)
        → LineStep (s ∷ rest) (record s { node = (handle_hello mac packet s.node).0 } ∷ rest)
    deliver_frame :
        (s r : Station) (rest : List Station) (bytes : List ℕ) (others : List (List ℕ))
        → s.frames ≡ bytes ∷ others
        → LineStep (s ∷ r ∷ rest) (
            record s {
              frames = others;
              acks = s.acks ++ frames_to r.node.prev_mac (received api bytes r.node).1;
            }
            ∷ after_frame bytes r
            ∷ rest)
    deliver_ack :
        (s : Station) (rest : List Station) (bytes : List ℕ) (others : List (List ℕ))
        → s.acks ≡ bytes ∷ others
        → LineStep (s ∷ rest) (record (after_ack bytes s) { acks = others } ∷ rest)
    lose_frame :
        (s : Station) (rest : List Station) (bytes : List ℕ) (others : List (List ℕ))
        → s.frames ≡ bytes ∷ others
        → LineStep (s ∷ rest) (record s { frames = others } ∷ rest)
    lose_ack :
        (s : Station) (rest : List Station) (bytes : List ℕ) (others : List (List ℕ))
        → s.acks ≡ bytes ∷ others
        → LineStep (s ∷ rest) (record s { acks = others } ∷ rest)
    nearer : (s : Station) {xs ys : List Station} → LineStep xs ys → LineStep (s ∷ xs) (s ∷ ys)

  pub data Leads (start : List Station) : List Station → Type 0 where
    here : Leads start start
    next : {xs ys : List Station} → Leads start xs → LineStep xs ys → Leads start ys

  -- At every node, readings that join its own queue one after the other have different sequence
  -- numbers: between two of them there were not 65,535 (or a multiple of 65,536, less one) that
  -- found the queue full.
  abbrev pub IsNumbered : List Station → Type 0
  IsNumbered line = All (λ (s : Station). Alternates s.made) line

  -- A relay, or the Gateway, that has found its neighbours, before any packet.
  pub record IsNew (s : Station) : Type 0 where
    pub valid : IsValid api s.node
    pub sender_free : is_forwarding s.node.state ≡ false
    pub prev_found : s.node.prev_known ≡ true
    pub fresh : s.node.has_accepted_any ≡ false
    pub no_queue : waiting_in api s.node.out_queue ≡ []
    pub no_frames : s.frames ≡ []
    pub no_acks : s.acks ≡ []
    pub none_got : s.got ≡ []
    pub none_made : s.made ≡ []
    pub none_entered : s.entered ≡ []
    pub none_sent : s.sent ≡ []

  -- The line at its start: relays, and the Gateway at the end, with different ids.
  abbrev pub IsLine : List Station → Type 0
  IsLine [] = ⊥
  IsLine (g ∷ []) = IsNew g
  IsLine (s ∷ r ∷ rest) =
      IsNew s
      × (s.node.is_gateway ≡ false)
      × (s.node.next_known ≡ true)
      × All (λ y. y ≢ id s) (map id (r ∷ rest))
      × IsLine (r ∷ rest)
