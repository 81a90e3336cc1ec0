-- ===== src/Chain/Hop/Safety.antt =====
-- main/chain_node.cpp: over a hop that loses frames every packet arrives once, in order.
use esp32_s3_rap.Base.{
  ℕ, ◌≡◌, refl, ◌∙◌, ◌⊎◌, inl, inr, true, false, List, [], ◌∷◌, ◌++◌, Option, none, some, arith,
  All,
}
use esp32_s3_rap.Base.Queue.{QueueApi}
use esp32_s3_rap.Protocol.{StatusPacket}
use esp32_s3_rap.Chain.State.{Node}
use esp32_s3_rap.Chain.Handlers.{is_forwarding, on_esp_now_recv}
use esp32_s3_rap.Chain.Invariant.{IsValid, timers-Keeps}
use esp32_s3_rap.Chain.Hop.{
  Hop, HopStep, Reach, here, next, IsStart, Fresh, SameReceiver, last, sender_round, deliver_frame,
  deliver_ack, lose_frame, lose_ack, sender_other, receiver_other,
}
use esp32_s3_rap.Chain.Hop.Receiver.{Remembers, Recalls-SameReceiver}
use esp32_s3_rap.Chain.Hop.Sender.{timers-Rounded, ack-Acknowledged, ack-IsValid}
use esp32_s3_rap.Chain.Hop.Delivery.{deliver-Phase}
use esp32_s3_rap.Chain.Hop.Rounds.{same_sender-Phase, round-Phase}
use esp32_s3_rap.Chain.Hop.Phase.{
  Phase, quiet, waiting, answered, Run-of_second, IsCopy, IsAck, last-snoc,
}

module _ (api : QueueApi StatusPacket) where
  open api use {Queue}

  abbrev pub IsAckBytes : List ℕ → Type 0
  IsAckBytes bytes = (p : StatusPacket) × IsAck api (some p) bytes

  -- An ACK of an earlier packet, or one that nobody waits for.
  stale_ack :
      (l : Option StatusPacket) (a : Node Queue) (bytes : List ℕ)
      → IsAck api l bytes
      → (is_forwarding a.state ≡ false) ⊎ Fresh l a.pending
      → (on_esp_now_recv api a.next_mac bytes a).0 ≡ a
  stale_ack none a bytes k f = absurd k
  stale_ack (some l) a bytes k f = rw (k.1) (ground (arith, ack-Acknowledged api l a k.0))

  -- The ACK that the sender waits for.
  current_ack :
      (a b : Node Queue) (bytes : List ℕ) {frames rest : List (List ℕ)}
      {sent got : List StatusPacket} (s : List StatusPacket)
      → is_forwarding a.state ≡ true
      → sent ≡ s ++ a.pending ∷ []
      → got ≡ sent
      → Fresh (last s) a.pending
      → All (IsCopy (some a.pending)) frames
      → IsAck api (some a.pending) bytes
      → All (IsAck api (some a.pending)) rest
      → Remembers api b a.pending
      → Phase api (on_esp_now_recv api a.next_mac bytes a).0 b frames rest sent got
  current_ack a b bytes {rest = rest} {sent = sent} s f e g n c q r m =
      rw (q.1) (elim (ack-Acknowledged api a.pending a q.0).2 [
        | inl (_, _, _, _, free) ↦ quiet free g (rw newest c) (rw newest r) (rw newest m)
        | inr (_, same) ↦ rw same (
            answered s f e g n c
              (Run-of_second (IsAck api (last s)) (IsAck api (some a.pending)) rest r) m)
      ])
    where
      newest : last sent ≡ some a.pending
      newest = rw e (last-snoc s a.pending)

  -- An ACK that reaches the sender.
  ack-Phase :
      (a b : Node Queue) (bytes : List ℕ) {frames rest : List (List ℕ)}
      {sent got : List StatusPacket}
      → Phase api a b frames (bytes ∷ rest) sent got
      → Phase api (on_esp_now_recv api a.next_mac bytes a).0 b frames rest sent got
  ack-Phase a b bytes {sent = sent} (quiet s g c q m) =
      rw (stale_ack (last sent) a bytes q.0 (inl s)) (quiet s g c q.1 m)
  ack-Phase a b bytes (waiting s f e g n c q m) =
      rw (stale_ack (last s) a bytes q.0 (inr n)) (waiting s f e g n c q.1 m)
  ack-Phase a b bytes (answered s f e g n c (inl q) m) =
      rw (stale_ack (last s) a bytes q.0 (inr n)) (answered s f e g n c q.1 m)
  ack-Phase a b bytes (answered s f e g n c (inr (q, rest)) m) =
      current_ack a b bytes s f e g n c q rest m

  lose_frame-Phase :
      (a b : Node Queue) (bytes : List ℕ) {rest acks : List (List ℕ)} {sent got : List StatusPacket}
      → Phase api a b (bytes ∷ rest) acks sent got
      → Phase api a b rest acks sent got
  lose_frame-Phase a b bytes (quiet s g c q m) = quiet s g c.1 q m
  lose_frame-Phase a b bytes (waiting s f e g n (inl c) q m) = waiting s f e g n c.1 q m
  lose_frame-Phase a b bytes {rest = rest} (waiting s f e g n (inr c) q m) =
      waiting s f e g n (Run-of_second (IsCopy (last s)) (IsCopy (some a.pending)) rest c.1) q m
  lose_frame-Phase a b bytes (answered s f e g n c q m) = answered s f e g n c.1 q m

  lose_ack-Phase :
      (a b : Node Queue) (bytes : List ℕ) {frames rest : List (List ℕ)}
      {sent got : List StatusPacket}
      → Phase api a b frames (bytes ∷ rest) sent got
      → Phase api a b frames rest sent got
  lose_ack-Phase a b bytes (quiet s g c q m) = quiet s g c q.1 m
  lose_ack-Phase a b bytes (waiting s f e g n c q m) = waiting s f e g n c q.1 m
  lose_ack-Phase a b bytes (answered s f e g n c (inl q) m) = answered s f e g n c q.1 m
  lose_ack-Phase a b bytes {rest = rest} (answered s f e g n c (inr q) m) =
      answered s f e g n c
        (Run-of_second (IsAck api (last s)) (IsAck api (some a.pending)) rest q.1) m

  same_receiver-Phase :
      (a b b' : Node Queue) {frames acks : List (List ℕ)} {sent got : List StatusPacket}
      → SameReceiver api b b'
      → Phase api a b frames acks sent got
      → Phase api a b' frames acks sent got
  same_receiver-Phase a b b' {sent = sent} k (quiet s g c q m) =
      quiet s g c q (Recalls-SameReceiver api (last sent) b b' k m)
  same_receiver-Phase a b b' k (waiting s f e g n c q m) =
      waiting s f e g n c q (Recalls-SameReceiver api (last s) b b' k m)
  same_receiver-Phase a b b' k (answered s f e g n c q m) =
      answered s f e g n c q (Recalls-SameReceiver api (some a.pending) b b' k m)

  -- An ACK under way is the ACK of a packet.
  ack_of_some : (l : Option StatusPacket) (bytes : List ℕ) → IsAck api l bytes → IsAckBytes bytes
  ack_of_some none bytes k = absurd k
  ack_of_some (some p) bytes k = (p, k)

  pub first_ack :
      (a b : Node Queue) (bytes : List ℕ) {frames rest : List (List ℕ)}
      {sent got : List StatusPacket}
      → Phase api a b frames (bytes ∷ rest) sent got
      → IsAckBytes bytes
  first_ack a b bytes {sent = sent} (quiet s g c q m) = ack_of_some (last sent) bytes q.0
  first_ack a b bytes (waiting s f e g n c q m) = ack_of_some (last s) bytes q.0
  first_ack a b bytes (answered s f e g n c (inl q) m) = ack_of_some (last s) bytes q.0
  first_ack a b bytes (answered s f e g n c (inr q) m) = ack_of_some (some a.pending) bytes q.0

  ack_sender :
      (a : Node Queue) (bytes : List ℕ)
      → IsAckBytes bytes
      → IsValid api a
      → IsValid api (on_esp_now_recv api a.next_mac bytes a).0
        × ((on_esp_now_recv api a.next_mac bytes a).0.is_gateway ≡ a.is_gateway)
  ack_sender a bytes (p, (fits, e)) v =
      rw e (ack-IsValid api p a fits v, (ack-Acknowledged api p a fits).0.2)

  pub record Inv (h : Hop api) : Type 0 where
    pub valid : IsValid api h.sender
    pub relay : h.sender.is_gateway ≡ false
    pub known : h.receiver.prev_known ≡ true
    pub phase : Phase api h.sender h.receiver h.frames h.acks h.sent h.got

  pub start-Inv : (h : Hop api) → IsStart api h → Inv h
  unfolding last
  start-Inv h s = record {
    valid = s.valid;
    relay = s.relay;
    known = s.prev_found;
    phase =
        rw (s.no_frames, s.no_acks, s.none_sent, s.none_got)
          (quiet s.sender_free refl tt tt s.fresh);
  }

  pub step-Inv : {h k : Hop api} → HopStep api h k → Inv h → Inv k
  step-Inv {h = h} (sender_round t fresh) v = record {
    valid = (timers-Keeps api t h.sender v.valid).0;
    relay = (timers-Rounded api t h.sender v.relay).0.2 ∙ v.relay;
    known = v.known;
    phase = round-Phase api h.sender h.receiver t v.valid v.relay fresh v.phase;
  }
  step-Inv {h = h} (deliver_frame bytes rest e) v =
      let done =
        deliver-Phase api h.sender h.receiver bytes rest h.acks h.sent h.got v.known
          (rw e at v.phase) in
      record { valid = v.valid; relay = v.relay; known = done.0; phase = done.1 }
  step-Inv {h = h} (deliver_ack bytes rest e) v =
      let phase = rw e at v.phase in
      let (kept, role) =
        ack_sender h.sender bytes (first_ack h.sender h.receiver bytes phase) v.valid in
      record {
        valid = kept;
        relay = role ∙ v.relay;
        known = v.known;
        phase = ack-Phase h.sender h.receiver bytes phase;
      }
  step-Inv {h = h} (lose_frame bytes rest e) v = record {
    valid = v.valid;
    relay = v.relay;
    known = v.known;
    phase = lose_frame-Phase h.sender h.receiver bytes (rw e at v.phase);
  }
  step-Inv {h = h} (lose_ack bytes rest e) v = record {
    valid = v.valid;
    relay = v.relay;
    known = v.known;
    phase = lose_ack-Phase h.sender h.receiver bytes (rw e at v.phase);
  }
  step-Inv {h = h} (sender_other b s) v = record {
    valid = s.valid;
    relay = s.role_same ∙ v.relay;
    known = v.known;
    phase = same_sender-Phase api h.sender b h.receiver s.state_same s.pending_same v.phase;
  }
  step-Inv {h = h} (receiver_other b s) v = record {
    valid = v.valid;
    relay = v.relay;
    known = s.known_same ∙ v.known;
    phase = same_receiver-Phase h.sender h.receiver b s v.phase;
  }

  Reach-Inv : {h k : Hop api} → Reach api h k → Inv h → Inv k
  Reach-Inv here v = v
  Reach-Inv (next r s) v = step-Inv s (Reach-Inv r v)

  -- From a start with a valid relay as the sender, both nodes known to each other and nothing sent
  -- or accepted yet, whatever frames are lost and however the rounds and deliveries interleave, while
  -- no packet that the sender begins to forward has the origin and the sequence number of the one it
  -- began to forward before (a premise of each round): with no packet waiting, the receiver has taken
  -- in exactly the packets that the sender began to forward, each once and in that order; with one
  -- waiting, it has taken in those and perhaps that one.
  pub got-eq-sent :
      {s h : Hop api}
      → IsStart api s
      → Reach api s h
      → ((is_forwarding h.sender.state ≡ false) × (h.got ≡ h.sent))
        ⊎ ((earlier : List StatusPacket) × (is_forwarding h.sender.state ≡ true)
            × (h.sent ≡ earlier ++ h.sender.pending ∷ [])
            × ((h.got ≡ earlier) ⊎ (h.got ≡ h.sent)))
  got-eq-sent {s = s} {h = h} i r = elim (Reach-Inv r (start-Inv s i)).phase [
    | quiet f g _ _ _ ↦ inl (f, g)
    | waiting earlier f e g _ _ _ _ ↦ inr (earlier, f, e, inl g)
    | answered earlier f e g _ _ _ _ ↦ inr (earlier, f, e, inr g)
  ]
