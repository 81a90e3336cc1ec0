-- ===== src/VideoRelay/Hop.antt =====
-- main/video_relay.cpp: one hop, from the queue of a relay to the globals of its `next`.
use native.Mathlib.Decide.{dec_lt}
use esp32_s3_rap.Base.{
  ℕ, zero, suc, ◌+◌, ◌-◌, ◌<◌, ◌≤◌, ◌≡◌, refl, sym, ap, ◌∙◌, ◌⊎◌, inl, inr, Bool, true, List, [],
  ◌∷◌, ◌++◌, Option, some, arith, length, take, min, All, length-append, length-take, append_assoc,
}
use esp32_s3_rap.Base.Slices.{take_all, take-append_le, take-append_add, take-take}
use esp32_s3_rap.Base.Queue.{QueueApi}
use esp32_s3_rap.Base.Socket.{RecvApi, SendApi, IsFinal}
use esp32_s3_rap.Uplink.State.{VideoItem}
use esp32_s3_rap.VideoRelay.State.{Frame, Relay, encode_frame_header, sizeof_frame_header}
use esp32_s3_rap.VideoRelay.Frames.{Globals}
use esp32_s3_rap.VideoRelay.Server.{serve}
use esp32_s3_rap.VideoRelay.Client.{client_loop, heartbeat}
use esp32_s3_rap.VideoRelay.Wire.{
  Item, beat, frame, wire, wires, IsSound, IsItem, IsPart, length-encode_frame_header,
}
use esp32_s3_rap.VideoRelay.Serving.{handle_items, one_more_dropped, serve-items, serve-wires}
use esp32_s3_rap.VideoRelay.Sending.{offered, Crossed, client_loop-Crossed}

-- A proper prefix of an item is the start of one.
take-IsPart :
    (item : Item) (j : ℕ) → IsItem item → j < length (wire item) → IsPart (take j (wire item))
take-IsPart beat j sound short = inl (
    let size = length-take j (encode_frame_header heartbeat) in
    let all = length-encode_frame_header heartbeat in omega arith)
take-IsPart (frame f) j sound short = elim (dec_lt j sizeof_frame_header) [
  | yes header ↦ inl (let size = length-take j (wire (frame f)) in omega arith)
  | no payload ↦
      let start = encode_frame_header f.header in
      let all = length-encode_frame_header f.header in
      let sum = length-append start f.data_buffer.bytes in
      let size = sound.whole in
      let k = j - sizeof_frame_header in
      let split : j ≡ length start + k = omega arith in
      inr (
        f,
        k,
        sound,
        omega arith,
        ap (λ n. take n (start ++ f.data_buffer.bytes)) split
            ∙ take-append_add start f.data_buffer.bytes k,
      )
]

take_none : (j : ℕ) → take {A = ℕ} j [] ≡ []
take_none zero = refl
take_none (suc j) = refl

-- A prefix of the bytes of some items: the first of them whole, and the start of the next.
take-wires :
    (items : List Item) (j : ℕ)
    → All IsItem items
    → (k : ℕ) × (tail : List ℕ) × (k ≤ length items)
      × (take j (wires items) ≡ wires (take k items) ++ tail)
      × IsPart tail
      × All IsItem (take k items)
take-wires [] j sound = (0, [], omega arith, take_none j, inl (omega arith), tt)
take-wires (item ∷ items) j sound = elim (dec_lt j (length (wire item))) [
  | yes short ↦ (
    0,
    take j (wire item),
    omega arith,
    take-append_le j (wire item) (wires items) (omega arith),
    take-IsPart item j sound.0 short,
    tt,
  )
  | no long ↦
      let i = j - length (wire item) in
      let split : j ≡ length (wire item) + i = omega arith in
      let (k, tail, within, starts, part, whole) = take-wires items i sound.1 in
      (
        suc k,
        tail,
        omega arith,
        ap (λ n. take n (wire item ++ wires items)) split
            ∙ take-append_add (wire item) (wires items) i
            ∙ ap (λ l. wire item ++ l) starts
            ∙ sym (append_assoc (wire item) (wires (take k items)) tail),
        part,
        (sound.0, whole),
      )
]

offered-All : (n : ℕ) (frames : List Frame) → All IsSound frames → All IsItem (offered n frames)
offered-All zero frames sound = tt
offered-All (suc n) [] sound = (tt, offered-All n [] tt)
offered-All (suc n) (f ∷ frames) sound = (sound.0, offered-All n frames sound.1)

pub length-offered : (n : ℕ) (frames : List Frame) → length (offered n frames) ≡ n
length-offered zero frames = refl
length-offered (suc n) [] = ap suc (length-offered n [])
length-offered (suc n) (f ∷ frames) = ap suc (length-offered n frames)

module _ (from : SendApi) where
  open from use {Conn, accepted}

  Crossed-whole :
      (c d : Conn) (bytes : List ℕ) (ok : Bool)
      → Crossed from c bytes ok d
      → accepted c ≡ []
      → ok ≡ true
      → accepted d ≡ bytes
  Crossed-whole c d bytes ok (inl (_, now)) fresh up = now ∙ ap (λ l. l ++ bytes) fresh
  Crossed-whole c d bytes ok (inr (j, failed, now)) fresh up = cc

  Crossed-prefix :
      (c d : Conn) (bytes : List ℕ) (ok : Bool)
      → Crossed from c bytes ok d
      → accepted c ≡ []
      → (j : ℕ) × (accepted d ≡ take j bytes)
  Crossed-prefix c d bytes ok (inl (_, now)) fresh = (
    length bytes,
    now ∙ ap (λ l. l ++ bytes) fresh ∙ sym (take_all (length bytes) bytes (omega arith)),
  )
  Crossed-prefix c d bytes ok (inr (j, failed, now)) fresh =
      (j, now ∙ ap (λ l. l ++ take j bytes) fresh)

module _ {S : Type 0} (from : SendApi) (to : RecvApi) (queue out : QueueApi Frame)
    (up : QueueApi VideoItem) where
  -- A relay sends for `n` rounds on a new connection while no frame joins its queue, and its `next`
  -- gets all that the connection took: if the link is still up, the globals of `next` are what the
  -- frames of the queue, in order and unchanged, make of them, and the heartbeats after the frames
  -- make nothing of them.
  pub hop-whole :
      (n : ℕ) (frames : List Frame) (q : queue.Queue) (relay : Relay queue.Queue) (c : from.Conn)
      (s : to.Stream) (rounds : List (Option ℕ)) (w : Globals out up S)
      → All IsSound frames
      → relay.out_queue ≡ some q
      → queue.contents q ≡ frames
      → from.accepted c ≡ []
      → to.remaining s ≡ from.accepted (client_loop from queue n c relay).1
      → (client_loop from queue n c relay).0 ≡ true
      → (serve to out up rounds s w).0 ≡ handle_items out up (offered n frames) rounds w
  hop-whole n frames q relay c s rounds w sound has e fresh all ok =
      let crossed = client_loop-Crossed from queue n frames c relay q sound has e in
      let d = (client_loop from queue n c relay).1 in
      let bytes = wires (offered n frames) in
      serve-wires to out up (offered n frames) rounds s w (offered-All n frames sound)
        (all ∙ Crossed-whole from c d bytes (client_loop from queue n c relay).0 crossed fresh ok)

  -- A relay sends for `n` rounds on a new connection while no frame joins its queue, and its `next`
  -- gets a prefix of what the connection took, since it failed on either side at any byte. If nothing
  -- comes after the first `recv` that fails (a time-out may be followed by more): the globals of
  -- `next` are what a first part of the frames, in order and unchanged, makes of them; the frame that
  -- is cut off may count as dropped.
  pub hop-part :
      (n i : ℕ) (frames : List Frame) (q : queue.Queue) (relay : Relay queue.Queue) (c : from.Conn)
      (s : to.Stream) (rounds : List (Option ℕ)) (w : Globals out up S)
      → All IsSound frames
      → relay.out_queue ≡ some q
      → queue.contents q ≡ frames
      → IsFinal to
      → from.accepted c ≡ []
      → to.remaining s ≡ take i (from.accepted (client_loop from queue n c relay).1)
      → (k : ℕ) × (k ≤ n)
        × (((serve to out up rounds s w).0
              ≡ handle_items out up (take k (offered n frames)) rounds w)
            ⊎ ((serve to out up rounds s w).0
                ≡ one_more_dropped out up
                    (handle_items out up (take k (offered n frames)) rounds w)))
  hop-part n i frames q relay c s rounds w sound has e final fresh part =
      let items = offered n frames in
      let d = (client_loop from queue n c relay).1 in
      let crossed = client_loop-Crossed from queue n frames c relay q sound has e in
      let (j, taken) =
        Crossed-prefix from c d (wires items) (client_loop from queue n c relay).0 crossed fresh in
      let (k, tail, within, starts, rest, whole) =
        take-wires items (min i j) (offered-All n frames sound) in
      let size = length-offered n frames in
      (
        k,
        omega arith,
        serve-items to out up (take k items) tail rounds s w whole rest final
            (part ∙ ap (λ l. take i l) taken ∙ take-take i j (wires items) ∙ starts),
      )
