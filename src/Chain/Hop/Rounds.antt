-- ===== src/Chain/Hop/Rounds.antt =====
-- A round of the sending end of a hop, and what else its node does.
use esp32_s3_rap.Base.{
  ℕ, ◌≡◌, refl, sym, ◌∙◌, inl, inr, true, false, List, [], ◌∷◌, ◌++◌, some, append-nil,
}
use esp32_s3_rap.Base.Queue.{QueueApi}
use esp32_s3_rap.Protocol.{StatusPacket, encode_status}
use esp32_s3_rap.Chain.State.{Node}
use esp32_s3_rap.Chain.Handlers.{is_forwarding}
use esp32_s3_rap.Chain.Loop.{Clock, timers}
use esp32_s3_rap.Chain.Invariant.{IsPacket, IsValid, timers-Keeps}
use esp32_s3_rap.Chain.Hop.{Fresh, last, started, frames_to}
use esp32_s3_rap.Chain.Hop.Sender.{timers-Rounded}
use esp32_s3_rap.Chain.Hop.Phase.{
  Phase, quiet, waiting, answered, Run-of_first, Run-snoc, All-snoc, IsCopy, true≢false,
}

module _ (api : QueueApi StatusPacket) where
  open api use {Queue}

  pub same_sender-Phase :
      {frames acks : List (List ℕ)} {sent got : List StatusPacket} (a a' b : Node Queue)
      → is_forwarding a'.state ≡ is_forwarding a.state
      → a'.pending ≡ a.pending
      → Phase api a b frames acks sent got
      → Phase api a' b frames acks sent got
  same_sender-Phase a a' b u w (quiet s g c q m) = quiet (u ∙ s) g c q m
  same_sender-Phase a a' b u w (waiting s f e g n c q m) =
      waiting s (u ∙ f) (rw w e) g (rw w n) (rw w c) q m
  same_sender-Phase a a' b u w (answered s f e g n c q m) =
      answered s (u ∙ f) (rw w e) g (rw w n) (rw w c) (rw w q) (rw w m)

  free-Phase :
      {frames acks : List (List ℕ)} {sent got : List StatusPacket} (a a' b : Node Queue)
      → is_forwarding a.state ≡ false
      → is_forwarding a'.state ≡ false
      → Phase api a b frames acks sent got
      → Phase api a' b frames acks sent got
  free-Phase a a' b h h' (quiet s g c q m) = quiet h' g c q m
  free-Phase a a' b h h' (waiting _ k _ _ _ _ _ _) = absurd (true≢false k h)
  free-Phase a a' b h h' (answered _ k _ _ _ _ _ _) = absurd (true≢false k h)

  resend-Phase :
      {frames acks : List (List ℕ)} {sent got : List StatusPacket} (a b : Node Queue)
      → IsPacket a.pending
      → is_forwarding a.state ≡ true
      → Phase api a b frames acks sent got
      → Phase api a b (frames ++ encode_status a.pending ∷ []) acks sent got
  resend-Phase a b v h (quiet s g c q m) = absurd (true≢false h s)
  resend-Phase {frames} a b v h (waiting s f e g n c q m) =
      waiting s f e g n (Run-snoc (IsCopy (last s)) (IsCopy (some a.pending)) _ frames c (v, refl))
        q m
  resend-Phase {frames} a b v h (answered s f e g n c q m) =
      answered s f e g n (All-snoc (IsCopy (some a.pending)) _ frames c (v, refl)) q m

  start-Phase :
      {frames acks : List (List ℕ)} {sent got : List StatusPacket} (a a' b : Node Queue)
      → IsPacket a'.pending
      → is_forwarding a.state ≡ false
      → is_forwarding a'.state ≡ true
      → Fresh (last sent) a'.pending
      → Phase api a b frames acks sent got
      → Phase api a' b (frames ++ encode_status a'.pending ∷ []) acks (sent ++ a'.pending ∷ []) got
  start-Phase {frames} {sent = sent} a a' b v h f n (quiet s g c q m) =
      let copies = Run-of_first (IsCopy (last sent)) (IsCopy (some a'.pending)) frames c in
      waiting sent f refl g n
        (Run-snoc (IsCopy (last sent)) (IsCopy (some a'.pending)) _ frames copies (v, refl)) q m
  start-Phase a a' b v h f n (waiting _ k _ _ _ _ _ _) = absurd (true≢false k h)
  start-Phase a a' b v h f n (answered _ k _ _ _ _ _ _) = absurd (true≢false k h)

  -- The timers of the sender.
  pub round-Phase :
      {frames acks : List (List ℕ)} {sent got : List StatusPacket} (a b : Node Queue) (t : Clock)
      → IsValid api a
      → a.is_gateway ≡ false
      → ((p : StatusPacket) → started api a (timers api t a).0 ≡ p ∷ [] → Fresh (last sent) p)
      → Phase api a b frames acks sent got
      → Phase api
          (timers api t a).0
          b
          (frames ++ frames_to a.next_mac (timers api t a).1)
          acks
          (sent ++ started api a (timers api t a).0)
          got
  round-Phase {frames} {sent = sent} a b t v r fresh p = elim (timers-Rounded api t a r).1 [
    | inl (f, f', w, inl e) ↦
        rw (e, none_new f, append-nil frames, append-nil sent)
          (same_sender-Phase a _ b (f' ∙ sym f) w p)
    | inl (f, f', w, inr e) ↦
        rw (e, none_new f, append-nil sent)
          (same_sender-Phase a _ b (f' ∙ sym f) w (resend-Phase a b v.pending_fits f p))
    | inr (inl (s, f, e)) ↦
        rw (e, none_free s f, append-nil frames, append-nil sent) (free-Phase a _ b s f p)
    | inr (inr (s, f, e)) ↦
        rw (e, new s f)
          (start-Phase a _ b (timers-Keeps api t a v).0.pending_fits s f (fresh _ (new s f)) p)
  ]
    where
      none_new : is_forwarding a.state ≡ true → started api a (timers api t a).0 ≡ []
      none_new f = rw f

      none_free :
          is_forwarding a.state ≡ false
          → is_forwarding (timers api t a).0.state ≡ false
          → started api a (timers api t a).0 ≡ []
      none_free s f = rw (s, f)

      new :
          is_forwarding a.state ≡ false
          → is_forwarding (timers api t a).0.state ≡ true
          → started api a (timers api t a).0 ≡ (timers api t a).0.pending ∷ []
      new s f = rw (s, f)
