-- ===== src/Chain/Line/Steps.antt =====
-- Every step on the line keeps its invariant.
use esp32_s3_rap.Base.{
  ℕ, ◌≡◌, ◌≢◌, refl, ap, ◌∙◌, inl, inr, true, List, [], ◌∷◌, ◌++◌, Option, some, none,
}
use esp32_s3_rap.Base.Queue.{QueueApi}
use esp32_s3_rap.Protocol.{StatusPacket, encode_status, encode_ack}
use esp32_s3_rap.Chain.State.{Node}
use esp32_s3_rap.Chain.Handlers.{
  handle_ack, handle_hello, handle_status, on_esp_now_recv, ack_for, dispatch,
}
use esp32_s3_rap.Chain.Invariant.{IsPacket, IsValid}
use esp32_s3_rap.Chain.Loop.{Clock, timers, set_lane_status}
use esp32_s3_rap.Chain.Hop.{
  frames_to, Fresh, last, received, started, taken, taken_in, waiting_in, sender_round, SameSender,
  SameReceiver, sender_other, receiver_other,
}
use esp32_s3_rap.Chain.Hop
use esp32_s3_rap.Chain.Hop.Phase.{Phase, quiet, waiting, answered, IsCopy}
use esp32_s3_rap.Chain.Hop.Receiver.{received-Handled}
use esp32_s3_rap.Chain.Hop.Sender.{timers-Rounded, message_of-encode_ack}
use esp32_s3_rap.Chain.Hop.Safety.{Inv, step-Inv, first_ack}
use esp32_s3_rap.Chain.Line.{
  Station, after_round, after_frame, after_ack, LineStep, round, lane_reading, greeting,
  deliver_frame, deliver_ack, lose_frame, lose_ack, nearer,
}
use esp32_s3_rap.Chain.Line.Fifo.{handle_status-waiting}
use esp32_s3_rap.Chain.Line.Same.{
  Apart, timers-Apart, handle_ack-Apart, handle_ack-queue, handle_hello-Apart,
  handle_hello-SameSender, set_lane_status-Apart, set_lane_status-SameSender,
  handle_status-SameSender,
}
use esp32_s3_rap.Chain.Line.Invariant.{hop, IsSafe, IsKept-same, IsKept-round, IsKept-frame}

module _ (api : QueueApi StatusPacket) where
  open api use {Queue}

  -- What a node says to the one before it is as it was.
  abbrev pub HeadSame : List (Station api) → List (Station api) → Type 0
  HeadSame [] [] = Unit {0}
  HeadSame [] (b ∷ _) = ⊥
  HeadSame (a ∷ _) [] = ⊥
  HeadSame (a ∷ _) (b ∷ _) = Apart api a.node b.node × (b.got ≡ a.got)

  Apart-refl : (n : Node Queue) → Apart api n n
  Apart-refl n = (
    record {
      mac_same = refl;
      known_same = refl;
      any_same = refl;
      origin_same = refl;
      seq_same = refl;
    },
    refl,
  )

  nearer-IsSafe :
      (s : Station api) (xs ys : List (Station api))
      → HeadSame xs ys
      → IsSafe api ys
      → IsSafe api (s ∷ xs)
      → IsSafe api (s ∷ ys)
  nearer-IsSafe s [] [] same after before = before
  nearer-IsSafe s [] (b ∷ ys) same after before = absurd same
  nearer-IsSafe s (a ∷ xs) [] same after before = absurd same
  nearer-IsSafe s (a ∷ xs) (b ∷ ys) (same, got) after (known, kept, inv, _) =
      (known, kept, rw got (step-Inv api (receiver_other b.node same.0) inv), after)

  -- The node of a station changes without sending or taking in a packet.
  node-IsSafe :
      (s : Station api) (n : Node Queue) (rest : List (Station api))
      → Apart api s.node n
      → (IsValid api s.node
          → s.node.next_known ≡ true
          → SameSender api s.node n × (n.out_queue ≡ s.node.out_queue))
      → IsSafe api (s ∷ rest)
      → IsSafe api (record s { node = n } ∷ rest)
  node-IsSafe s n [] apart still (known, no_acks) = (apart.0.known_same ∙ known, no_acks)
  node-IsSafe s n (r ∷ rest) apart still (known, kept, inv, later) =
      let (same, queue) = still inv.valid kept.next_found in
      (
        apart.0.known_same ∙ known,
        IsKept-same api s n s.frames s.acks queue apart.1 same.known_same kept,
        step-Inv api (sender_other n same) inv,
        later,
      )

  -- A relay does not begin to forward a packet with the identity of the one before it.
  abbrev pub IsFreshRound : Station api → List (Station api) → Clock → Type 0
  IsFreshRound s [] t = Unit {0}
  IsFreshRound s (r ∷ rest) t =
      (p : StatusPacket)
      → started api s.node (timers api t s.node).0 ≡ p ∷ []
      → Fresh (last s.sent) p

  abbrev pub IsFreshStep : {xs ys : List (Station api)} → LineStep api xs ys → Type 0
  IsFreshStep (round s rest t) = IsFreshRound s rest t
  IsFreshStep (lane_reading s rest stream_id occupied plate) = Unit {0}
  IsFreshStep (greeting s rest mac packet) = Unit {0}
  IsFreshStep (deliver_frame s r rest bytes others e) = Unit {0}
  IsFreshStep (deliver_ack s rest bytes others e) = Unit {0}
  IsFreshStep (lose_frame s rest bytes others e) = Unit {0}
  IsFreshStep (lose_ack s rest bytes others e) = Unit {0}
  IsFreshStep (nearer s step) = IsFreshStep step

  round-IsSafe :
      (s : Station api) (rest : List (Station api)) (t : Clock)
      → IsFreshRound s rest t
      → IsSafe api (s ∷ rest)
      → IsSafe api (after_round api t s ∷ rest)
  round-IsSafe s [] t fresh (known, no_acks) =
      ((timers-Apart api t s.node).0.known_same ∙ known, no_acks)
  round-IsSafe s (r ∷ rest) t fresh (known, kept, inv, later) = (
    (timers-Apart api t s.node).0.known_same ∙ known,
    IsKept-round api t s inv.relay (timers-Rounded api t s.node inv.relay).0.1 kept,
    step-Inv api (sender_round t fresh) inv,
    later,
  )

  abbrev IsPacketBytes : List ℕ → Type 0
  IsPacketBytes bytes = (p : StatusPacket) × IsPacket p × (bytes ≡ encode_status p)

  copy_of_some : (l : Option StatusPacket) (bytes : List ℕ) → IsCopy l bytes → IsPacketBytes bytes
  copy_of_some none bytes k = absurd k
  copy_of_some (some p) bytes k = (p, k.0, k.1)

  -- The frame at the front of a hop is a packet.
  first_frame :
      (a b : Node Queue) (bytes : List ℕ) {rest acks : List (List ℕ)} {sent got : List StatusPacket}
      → Phase api a b (bytes ∷ rest) acks sent got
      → IsPacketBytes bytes
  first_frame a b bytes {sent = sent} (quiet s g c q m) = copy_of_some (last sent) bytes c.0
  first_frame a b bytes (waiting s f e g n (inl c) q m) = copy_of_some (last s) bytes c.0
  first_frame a b bytes (waiting s f e g n (inr c) q m) = (a.pending, c.0.0, c.0.1)
  first_frame a b bytes (answered s f e g n c q m) = (a.pending, c.0.0, c.0.1)

  -- The station that a packet reaches, apart from the hop it came over.
  frame-IsSafe :
      (r : Station api) (rest : List (Station api)) (bytes : List ℕ)
      → IsPacketBytes bytes
      → (received api bytes r.node).0.prev_known ≡ true
      → IsSafe api (r ∷ rest)
      → IsSafe api (after_frame api bytes r ∷ rest)
  frame-IsSafe r [] bytes packet known' (known, no_acks) = (known', no_acks)
  frame-IsSafe r (x ∷ rest) bytes (p, fits, copy) known' (known, kept, inv, later) =
      let (handled, came, _) = received-Handled api p r.node fits known in
      let result = ap (λ b. received api b r.node) copy ∙ handled in
      let n = (handle_status api r.node.prev_mac p r.node).0 in
      let (same, name) = handle_status-SameSender api r.node.prev_mac p r.node fits inv.valid in
      let joined = handle_status-waiting api r.node.prev_mac p r.node inv.relay in
      rw copy (
        rw (came, handled)
          (
            rw (copy, handled) at known',
            IsKept-frame api r n (taken api p r.node (handle_status api r.node.prev_mac p r.node))
                joined name same.known_same kept,
            step-Inv api (sender_other n same) inv,
            later,
          ))

  deliver-IsSafe :
      (s r : Station api) (rest : List (Station api)) (bytes : List ℕ) (others : List (List ℕ))
      → s.frames ≡ bytes ∷ others
      → IsSafe api (s ∷ r ∷ rest)
      → IsSafe api (
          record s {
            frames = others;
            acks = s.acks ++ frames_to r.node.prev_mac (received api bytes r.node).1;
          }
          ∷ after_frame api bytes r
          ∷ rest)
  deliver-IsSafe s r rest bytes others e (known, kept, inv, later) =
      let inv' = step-Inv api (Hop.deliver_frame bytes others e) inv in
      let packet = first_frame s.node r.node bytes (rw e at inv.phase) in
      (
        known,
        IsKept-same api s s.node others
            (s.acks ++ frames_to r.node.prev_mac (received api bytes r.node).1) refl refl refl kept,
        inv',
        frame-IsSafe r rest bytes packet inv'.known later,
      )

  -- An ACK on a hop reaches its sender as `handleAck`.
  ack_handled :
      (p : StatusPacket) (n : Node Queue)
      → IsPacket p
      → on_esp_now_recv api n.next_mac (encode_ack (ack_for p.origin_node_id p.seq)) n
        ≡ handle_ack n.next_mac (ack_for p.origin_node_id p.seq) n
  unfolding on_esp_now_recv dispatch
  ack_handled p n fits = rw (message_of-encode_ack api p fits.seq_fits, on_esp_now_recv) refl

  abbrev AckSame : Node Queue → Node Queue → Type 0
  AckSame a b = Apart api a b × (b.out_queue ≡ a.out_queue) × (b.next_known ≡ a.next_known)

  ack-AckSame :
      (s r : Station api) (bytes : List ℕ) (others : List (List ℕ))
      → s.acks ≡ bytes ∷ others
      → Inv api (hop api s r)
      → AckSame s.node (after_ack api bytes s).node
  ack-AckSame s r bytes others e inv =
      let (p, (fits, copy)) = first_ack api s.node r.node bytes (rw e at inv.phase) in
      let answer = ack_for p.origin_node_id p.seq in
      let (queue, known) = handle_ack-queue api s.node.next_mac answer s.node in
      rw copy (
        rw (ack_handled p s.node fits)
          (handle_ack-Apart api s.node.next_mac answer s.node, queue, known))

  abbrev Kept : List (Station api) → List (Station api) → Type 0
  Kept xs ys = HeadSame xs ys × IsSafe api ys

  ack-IsSafe :
      (s : Station api) (rest : List (Station api)) (bytes : List ℕ) (others : List (List ℕ))
      → s.acks ≡ bytes ∷ others
      → IsSafe api (s ∷ rest)
      → Kept (s ∷ rest) (record (after_ack api bytes s) { acks = others } ∷ rest)
  ack-IsSafe s [] bytes others e (known, no_acks) = cc
  ack-IsSafe s (r ∷ rest) bytes others e (known, kept, inv, later) =
      let (apart, queue, found) = ack-AckSame s r bytes others e inv in
      (
        (apart, refl),
        (
          apart.0.known_same ∙ known,
          IsKept-same api s (after_ack api bytes s).node s.frames others queue apart.1 found kept,
          step-Inv api (Hop.deliver_ack bytes others e) inv,
          later,
        ),
      )

  lose_frame-IsSafe :
      (s : Station api) (rest : List (Station api)) (bytes : List ℕ) (others : List (List ℕ))
      → s.frames ≡ bytes ∷ others
      → IsSafe api (s ∷ rest)
      → IsSafe api (record s { frames = others } ∷ rest)
  lose_frame-IsSafe s [] bytes others e safe = safe
  lose_frame-IsSafe s (r ∷ rest) bytes others e (known, kept, inv, later) = (
    known,
    IsKept-same api s s.node others s.acks refl refl refl kept,
    step-Inv api (Hop.lose_frame bytes others e) inv,
    later,
  )

  lose_ack-IsSafe :
      (s : Station api) (rest : List (Station api)) (bytes : List ℕ) (others : List (List ℕ))
      → s.acks ≡ bytes ∷ others
      → IsSafe api (s ∷ rest)
      → IsSafe api (record s { acks = others } ∷ rest)
  lose_ack-IsSafe s [] bytes others e (known, no_acks) = cc
  lose_ack-IsSafe s (r ∷ rest) bytes others e (known, kept, inv, later) = (
    known,
    IsKept-same api s s.node s.frames others refl refl refl kept,
    step-Inv api (Hop.lose_ack bytes others e) inv,
    later,
  )

  head_known :
      (s : Station api) (rest : List (Station api))
      → IsSafe api (s ∷ rest)
      → s.node.prev_known ≡ true
  head_known s [] safe = safe.0
  head_known s (r ∷ rest) safe = safe.0

  pub step-some : {xs ys : List (Station api)} → LineStep api xs ys → xs ≢ []
  step-some (round s rest t) = λ e. cc
  step-some (lane_reading s rest stream_id occupied plate) = λ e. cc
  step-some (greeting s rest mac packet) = λ e. cc
  step-some (deliver_frame s r rest bytes others e) = λ e. cc
  step-some (deliver_ack s rest bytes others e) = λ e. cc
  step-some (lose_frame s rest bytes others e) = λ e. cc
  step-some (lose_ack s rest bytes others e) = λ e. cc
  step-some (nearer s step) = λ e. cc

  -- No step but a delivery from before a node changes what it says to the node before it.
  pub step-IsSafe :
      {xs ys : List (Station api)} (step : LineStep api xs ys)
      → IsFreshStep step
      → IsSafe api xs
      → Kept xs ys
  step-IsSafe (round s rest t) fresh safe =
      ((timers-Apart api t s.node, refl), round-IsSafe s rest t fresh safe)
  step-IsSafe (lane_reading s rest stream_id occupied plate) fresh safe =
      let n = set_lane_status stream_id occupied plate s.node in
      let apart = set_lane_status-Apart api stream_id occupied plate s.node in
      (
        (apart, refl),
        node-IsSafe s n rest apart
            (λ valid known. set_lane_status-SameSender api stream_id occupied plate s.node valid)
            safe,
      )
  step-IsSafe (greeting s rest mac packet) fresh safe =
      let n = (handle_hello mac packet s.node).0 in
      let apart = handle_hello-Apart api mac packet s.node (head_known s rest safe) in
      (
        (apart, refl),
        node-IsSafe s n rest apart
            (λ valid known. handle_hello-SameSender api mac packet s.node valid known) safe,
      )
  step-IsSafe (deliver_frame s r rest bytes others e) fresh safe =
      ((Apart-refl s.node, refl), deliver-IsSafe s r rest bytes others e safe)
  step-IsSafe (deliver_ack s rest bytes others e) fresh safe = ack-IsSafe s rest bytes others e safe
  step-IsSafe (lose_frame s rest bytes others e) fresh safe =
      ((Apart-refl s.node, refl), lose_frame-IsSafe s rest bytes others e safe)
  step-IsSafe (lose_ack s rest bytes others e) fresh safe =
      ((Apart-refl s.node, refl), lose_ack-IsSafe s rest bytes others e safe)
  step-IsSafe (nearer s {xs = []} step) fresh safe = absurd (step-some step refl)
  step-IsSafe (nearer s {xs = r ∷ rest} {ys = ys} step) fresh safe =
      let (same, after) = step-IsSafe step fresh safe.3 in
      ((Apart-refl s.node, refl), nearer-IsSafe s (r ∷ rest) ys same after safe)
