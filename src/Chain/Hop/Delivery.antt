-- ===== src/Chain/Hop/Delivery.antt =====
-- A frame that reaches the receiving end of a hop.
use esp32_s3_rap.Base.{
  ℕ, ◌≡◌, refl, sym, ap, ◌∙◌, inl, inr, true, List, [], ◌∷◌, ◌++◌, Option, none, some, All,
  append-nil,
}
use esp32_s3_rap.Base.Queue.{QueueApi}
use esp32_s3_rap.Protocol.{StatusPacket}
use esp32_s3_rap.Chain.State.{Node}
use esp32_s3_rap.Chain.Handlers.{is_forwarding}
use esp32_s3_rap.Chain.Hop.{Fresh, last, frames_to, taken_in, received}
use esp32_s3_rap.Chain.Hop.Receiver.{
  Recalls, ack_of, not_duplicate_of_Fresh, Recalls-SameReceiver, received_again, received_first,
}
use esp32_s3_rap.Chain.Hop.Phase.{
  Phase, quiet, waiting, answered, Run-of_first, Run-of_second, Run-snoc, All-snoc, IsCopy, IsAck,
}

module _ (api : QueueApi StatusPacket) where
  open api use {Queue}

  abbrev pub Delivered :
      Node Queue
      → Node Queue
      → List ℕ
      → List (List ℕ)
      → List (List ℕ)
      → List StatusPacket
      → List StatusPacket
      → Type 0
  Delivered a b bytes rest acks sent got =
      ((received api bytes b).0.prev_known ≡ true)
      × Phase api a (received api bytes b).0 rest
          (acks ++ frames_to b.prev_mac (received api bytes b).1) sent
          (got ++ taken_in api bytes b (received api bytes b))

  -- Another copy of the packet that the receiver took in last.
  deliver_again :
      (l : Option StatusPacket) (b : Node Queue) (bytes : List ℕ)
      → b.prev_known ≡ true
      → IsCopy l bytes
      → Recalls api b l
      → (ack_bytes : List ℕ) × IsAck api l ack_bytes
        × ((received api bytes b).0 ≡ b)
        × (frames_to b.prev_mac (received api bytes b).1 ≡ ack_bytes ∷ [])
        × (taken_in api bytes b (received api bytes b) ≡ [])
  deliver_again none b bytes k c r = absurd c
  deliver_again (some l) b bytes k c r =
      let (same, reply, none_in) = received_again api l b bytes c.0 c.1 k r in
      (ack_of api l, (c.0, refl), same, reply, none_in)

  -- The first copy of a packet: it is taken in, or the receiver has no room.
  deliver_first :
      (a b : Node Queue) (bytes : List ℕ) (rest acks : List (List ℕ)) (sent got : List StatusPacket)
      (s : List StatusPacket)
      → b.prev_known ≡ true
      → is_forwarding a.state ≡ true
      → sent ≡ s ++ a.pending ∷ []
      → got ≡ s
      → Fresh (last s) a.pending
      → IsCopy (some a.pending) bytes × All (IsCopy (some a.pending)) rest
      → All (IsAck api (last s)) acks
      → Recalls api b (last s)
      → Delivered a b bytes rest acks sent got
  deliver_first a b bytes rest acks sent got s k f e g n c q r =
      elim (received_first api a.pending b bytes c.0.0 c.0.1 k
        (not_duplicate_of_Fresh api (last s) a.pending b r n)) [
          | inl (m, k', u, t) ↦
              rw (t, u)
                (
                  k',
                  answered s f e (ap (λ l. l ++ a.pending ∷ []) g ∙ sym e) n c.1
                      (Run-snoc (IsAck api (last s)) (IsAck api (some a.pending))
                        (ack_of api a.pending) acks
                        (Run-of_first (IsAck api (last s)) (IsAck api (some a.pending)) acks q)
                        (c.0.0, refl))
                      m,
                )
          | inr (m, u, t) ↦
              rw (t, u, append-nil got, append-nil acks)
                (
                  m.known_same ∙ k,
                  waiting s f e g n
                      (Run-of_second (IsCopy (last s)) (IsCopy (some a.pending)) rest c.1) q
                      (Recalls-SameReceiver api (last s) b _ m r),
                )
        ]

  pub deliver-Phase :
      (a b : Node Queue) (bytes : List ℕ) (rest acks : List (List ℕ)) (sent got : List StatusPacket)
      → b.prev_known ≡ true
      → Phase api a b (bytes ∷ rest) acks sent got
      → Delivered a b bytes rest acks sent got
  deliver-Phase a b bytes rest acks sent got k (quiet s g c q r) =
      let (reply, is_reply, same, e, none_in) = deliver_again (last sent) b bytes k c.0 r in
      rw (none_in, e, same, append-nil got)
        (k, quiet s g c.1 (All-snoc (IsAck api (last sent)) reply acks q is_reply) r)
  deliver-Phase a b bytes rest acks sent got k (waiting s f e g n (inl c) q r) =
      let (reply, is_reply, same, u, none_in) = deliver_again (last s) b bytes k c.0 r in
      rw (none_in, u, same, append-nil got)
        (k, waiting s f e g n c.1 (All-snoc (IsAck api (last s)) reply acks q is_reply) r)
  deliver-Phase a b bytes rest acks sent got k (waiting s f e g n (inr c) q r) =
      deliver_first a b bytes rest acks sent got s k f e g n c q r
  deliver-Phase a b bytes rest acks sent got k (answered s f e g n c q r) =
      let (reply, is_reply, same, u, none_in) = deliver_again (some a.pending) b bytes k c.0 r in
      rw (none_in, u, same, append-nil got)
        (
          k,
          answered s f e g n c.1
              (Run-snoc (IsAck api (last s)) (IsAck api (some a.pending)) reply acks q is_reply) r,
        )
