-- ===== src/VideoRelay/Sending.antt =====
-- main/video_relay.cpp: what the client puts on a connection to `next`.
use esp32_s3_rap.Base.{
  ℕ, zero, suc, ◌+◌, ◌≡◌, refl, sym, ap, ◌∙◌, ◌⊎◌, inl, inr, Bool, true, false, List, [], ◌∷◌, ◌++◌,
  some, arith, length, take, min, All, append_assoc, append-nil,
}
use esp32_s3_rap.Base.Slices.{take_all, take-min, take-append_le, take-append_add}
use esp32_s3_rap.Base.Queue.{QueueApi}
use esp32_s3_rap.Base.Socket.{SendApi}
use esp32_s3_rap.VideoRelay.State.{Frame, Relay, encode_frame_header}
use esp32_s3_rap.VideoRelay.Socket.{send_all, send_all-Sent}
use esp32_s3_rap.VideoRelay.Client.{heartbeat, send_frame, client_round, client_loop}
use esp32_s3_rap.VideoRelay.Wire.{Item, beat, frame, wire, wires, IsSound}

-- What a number of rounds sends when nothing joins the queue: the frames in order, then heartbeats.
abbrev pub offered : ℕ → List Frame → List Item
offered zero frames = []
offered (suc rounds) [] = beat ∷ offered rounds []
offered (suc rounds) (f ∷ frames) = frame f ∷ offered rounds frames

module _ (net : SendApi) where
  open net use {Conn, accepted}

  -- All of the bytes went across, or the connection failed and has taken a prefix of them.
  abbrev pub Crossed : Conn → List ℕ → Bool → Conn → Type 0
  Crossed c bytes ok d =
      ((ok ≡ true) × (accepted d ≡ accepted c ++ bytes))
      ⊎ ((j : ℕ) × (ok ≡ false) × (accepted d ≡ accepted c ++ take j bytes))

  -- One stretch of bytes after another.
  Crossed-append :
      (c d e : Conn) (xs ys : List ℕ) (ok : Bool)
      → accepted d ≡ accepted c ++ xs
      → Crossed d ys ok e
      → Crossed c (xs ++ ys) ok e
  Crossed-append c d e xs ys ok first (inl (fine, now)) =
      inl (fine, now ∙ ap (λ l. l ++ ys) first ∙ append_assoc (accepted c) xs ys)
  Crossed-append c d e xs ys ok first (inr (j, failed, now)) = inr (
    length xs + j,
    failed,
    now
        ∙ ap (λ l. l ++ take j ys) first
        ∙ append_assoc (accepted c) xs (take j ys)
        ∙ ap (λ l. accepted c ++ l) (sym (take-append_add xs ys j)),
  )

  -- A failure in the first of two stretches.
  Crossed-cut :
      (c d : Conn) (xs ys : List ℕ) (j : ℕ)
      → accepted d ≡ accepted c ++ take j xs
      → Crossed c (xs ++ ys) false d
  Crossed-cut c d xs ys j now =
      let k = min j (length xs) in
      let same : take k (xs ++ ys) ≡ take j xs =
        take-append_le k xs ys (omega arith) ∙ take-min j (length xs) xs (omega arith) in
      inr (k, refl, now ∙ ap (λ l. accepted c ++ l) (sym same))

  send_all-Crossed :
      (bytes : List ℕ) (c : Conn)
      → Crossed c bytes (send_all net bytes c).0 (send_all net bytes c).1
  send_all-Crossed bytes c = elim (send_all-Sent net bytes c) [
    | inl all ↦ inl all
    | inr (k, failed, part, now, _) ↦ inr (k, failed, now)
  ]

  send_frame_ok :
      (f : Frame) (c : Conn)
      → (send_all net (encode_frame_header f.header) c).0 ≡ true
      → send_frame net f c
        ≡ send_all net
            (take f.header.data_len f.data_buffer.bytes)
            (send_all net (encode_frame_header f.header) c).1
  unfolding send_frame
  send_frame_ok f c ok = rw (send_frame, ok) refl

  send_frame_failed :
      (f : Frame) (c : Conn)
      → (send_all net (encode_frame_header f.header) c).0 ≡ false
      → send_frame net f c ≡ (false, (send_all net (encode_frame_header f.header) c).1)
  unfolding send_frame
  send_frame_failed f c failed = rw (send_frame, failed) refl

  send_frame-Crossed :
      (f : Frame) (c : Conn)
      → IsSound f
      → Crossed c (wire (frame f)) (send_frame net f c).0 (send_frame net f c).1
  send_frame-Crossed f c sound =
      let start = encode_frame_header f.header in
      let d = (send_all net start c).1 in
      elim (send_all-Sent net start c) [
        | inl (ok, now) ↦
            let whole = take_all f.header.data_len f.data_buffer.bytes (omega arith) in
            rw (send_frame_ok f c ok, whole)
              (Crossed-append c d (send_all net f.data_buffer.bytes d).1 start f.data_buffer.bytes
                (send_all net f.data_buffer.bytes d).0 now (send_all-Crossed f.data_buffer.bytes d))
        | inr (k, failed, part, now, _) ↦
            rw (send_frame_failed f c failed) (Crossed-cut c d start f.data_buffer.bytes k now)
      ]

  module _ (out : QueueApi Frame) where
    open out use {Queue, contents}

    abbrev later_frames : List Frame → List Frame
    later_frames [] = []
    later_frames (f ∷ frames) = frames

    abbrev now_offered : List Frame → Item
    now_offered [] = beat
    now_offered (f ∷ frames) = frame f

    -- A round sends the next item, and takes its frame from the queue.
    client_round-Crossed :
        (frames : List Frame) (c : Conn) (relay : Relay Queue) (q : Queue)
        → All IsSound frames
        → relay.out_queue ≡ some q
        → contents q ≡ frames
        → let r = client_round net out c relay in
          Crossed c (wire (now_offered frames)) r.0 r.1
          × ((q' : Queue) × (r.2.out_queue ≡ some q') × (contents q' ≡ later_frames frames))
    unfolding client_round
    client_round-Crossed [] c relay q sound has e =
        let empty = out.receive_empty q e in
        (
          rw (client_round, has, empty) (send_all-Crossed (encode_frame_header heartbeat) c),
          (q, rw (client_round, has, empty) has, e),
        )
    client_round-Crossed (f ∷ frames) c relay q sound has e =
        let (q', took, now, _) = out.receive_oldest q f frames e in
        (rw (client_round, has, took) (send_frame-Crossed f c sound.0), (q', ground arith, now))

    offered-suc :
        (n : ℕ) (frames : List Frame)
        → offered (suc n) frames ≡ now_offered frames ∷ offered n (later_frames frames)
    offered-suc n [] = refl
    offered-suc n (f ∷ frames) = refl

    later_frames-All :
        (frames : List Frame) → All IsSound frames → All IsSound (later_frames frames)
    later_frames-All [] sound = tt
    later_frames-All (f ∷ frames) sound = sound.1

    client_loop_on :
        (n : ℕ) (c : Conn) (relay : Relay Queue)
        → (client_round net out c relay).0 ≡ true
        → let r = client_round net out c relay in
          ((client_loop net out (suc n) c relay).0 ≡ (client_loop net out n r.1 r.2).0)
          × ((client_loop net out (suc n) c relay).1 ≡ (client_loop net out n r.1 r.2).1)
    unfolding client_loop
    client_loop_on n c relay ok = (rw (client_loop, ok) refl, rw (client_loop, ok) refl)

    client_loop_off :
        (n : ℕ) (c : Conn) (relay : Relay Queue)
        → (client_round net out c relay).0 ≡ false
        → ((client_loop net out (suc n) c relay).0 ≡ false)
          × ((client_loop net out (suc n) c relay).1 ≡ (client_round net out c relay).1)
    unfolding client_loop
    client_loop_off n c relay failed =
        (rw (client_loop, failed) refl, rw (client_loop, failed) refl)

    -- Rounds of the client while no frame joins the queue, whatever pieces the connection takes: it
    -- has taken the frames of the queue in order and then heartbeats, all that the rounds offer if
    -- the link is still up, and a prefix of that if it failed.
    pub client_loop-Crossed :
        (n : ℕ) (frames : List Frame) (c : Conn) (relay : Relay Queue) (q : Queue)
        → All IsSound frames
        → relay.out_queue ≡ some q
        → contents q ≡ frames
        → Crossed c
            (wires (offered n frames))
            (client_loop net out n c relay).0
            (client_loop net out n c relay).1
    unfolding client_loop
    client_loop-Crossed zero frames c relay q sound has e =
        inl (refl, sym (append-nil (accepted c)))
    client_loop-Crossed (suc n) frames c relay q sound has e =
        let r = client_round net out c relay in
        let (crossed, (q', has', left)) = client_round-Crossed frames c relay q sound has e in
        let rest = wires (offered n (later_frames frames)) in
        elim crossed [
          | inl (ok, now) ↦
              let later =
                client_loop-Crossed n (later_frames frames) r.1 r.2 q'
                  (later_frames-All frames sound) has' left in
              let on = client_loop_on n c relay ok in
              rw (offered-suc n frames, on.0, on.1)
                (Crossed-append c r.1 (client_loop net out n r.1 r.2).1 (wire (now_offered frames))
                  rest (client_loop net out n r.1 r.2).0 now later)
          | inr (j, failed, now) ↦
              let off = client_loop_off n c relay failed in
              rw (offered-suc n frames, off.0, off.1)
                (Crossed-cut c r.1 (wire (now_offered frames)) rest j now)
        ]
