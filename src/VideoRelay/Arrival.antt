-- ===== src/VideoRelay/Arrival.antt =====
-- main/video_relay.cpp: the frames of one node's queue in the queue of the next.
use esp32_s3_rap.Base.{
  ℕ, zero, suc, ◌+◌, ◌<◌, ◌≤◌, ◌≡◌, refl, sym, ap, ◌∙◌, true, false, List, [], ◌∷◌, ◌++◌, Option,
  none, some, arith, length, All, map, append_assoc, append-nil, length-append, length-map,
}
use mathlib.Core.List.{map-append}
use esp32_s3_rap.Base.Queue.{QueueApi}
use esp32_s3_rap.Base.Socket.{RecvApi, SendApi}
use esp32_s3_rap.Uplink.State.{VideoItem}
use esp32_s3_rap.VideoRelay.State.{FrameHeader, Frame, Relay}
use esp32_s3_rap.VideoRelay.Frames.{Globals, enqueue_or_drop}
use esp32_s3_rap.VideoRelay.Server.{framed, handle_reading, serve}
use esp32_s3_rap.VideoRelay.Client.{client_loop}
use esp32_s3_rap.VideoRelay.Wire.{Item, beat, frame, IsSound}
use esp32_s3_rap.VideoRelay.Serving.{handle_items}
use esp32_s3_rap.VideoRelay.Sending.{offered}
use esp32_s3_rap.VideoRelay.Hop.{hop-whole, length-offered}

-- A frame apart from the address of its block.
abbrev pub content_of : Frame → FrameHeader × List ℕ
content_of f = (f.header, f.data_buffer.bytes)

abbrev pub frames_in : List Item → List (FrameHeader × List ℕ)
frames_in [] = []
frames_in (beat ∷ items) = frames_in items
frames_in (frame f ∷ items) = content_of f ∷ frames_in items

-- Every round finds memory.
abbrev pub IsGiven : Option ℕ → Type 0
IsGiven memory = (address : ℕ) × (memory ≡ some address)

module _ {S : Type 0} (out : QueueApi Frame) (up : QueueApi VideoItem) where
  open out use {Queue, contents, depth}

  -- The globals of a relay with a queue.
  abbrev pub HasQueue : Globals out up S → Queue → Type 0
  HasQueue w q = (w.relay.is_gateway ≡ false) × (w.relay.out_queue ≡ some q)

  framed-joins :
      (f : Frame) (q : Queue) (w : Globals out up S)
      → HasQueue w q
      → length (contents q) < depth q
      → (r : Queue) × HasQueue (handle_reading out up (framed f) w).1 r
        × (contents r ≡ contents q ++ f ∷ [])
        × (depth r ≡ depth q)
  unfolding handle_reading enqueue_or_drop
  framed-joins f q w has room =
      let (r, sent, now, same) = out.send_room q f room in (r, ground arith, now, same)

  -- Items that find memory and room join the queue in order.
  handle_items-joins :
      (items : List Item) (rounds : List (Option ℕ)) (q : Queue) (w : Globals out up S)
      → HasQueue w q
      → All IsGiven rounds
      → length items ≤ length rounds
      → length (contents q) + length (frames_in items) ≤ depth q
      → (r : Queue) × HasQueue (handle_items out up items rounds w) r
        × (map content_of (contents r) ≡ map content_of (contents q) ++ frames_in items)
  unfolding handle_reading
  handle_items-joins [] rounds q w has given enough room =
      (q, has, sym (append-nil (map content_of (contents q))))
  handle_items-joins (item ∷ items) [] q w has given enough room = absurd (omega arith)
  handle_items-joins (beat ∷ items) (memory ∷ rounds) q w has given enough room =
      handle_items-joins items rounds q w has given.1 (omega arith) room
  handle_items-joins (frame f ∷ items) (none ∷ rounds) q w has given enough room =
      let (address, got) = given.0 in cc
  handle_items-joins (frame f ∷ items) (some address ∷ rounds) q w has given enough room =
      let copy : Frame = record {
        header = f.header;
        data_buffer = record { address = address; bytes = f.data_buffer.bytes };
      } in
      let (r, has', now, same) = framed-joins copy q w has (omega arith) in
      let size = ap length now ∙ length-append (contents q) (copy ∷ []) in
      let w' = (handle_reading out up (framed copy) w).1 in
      let (t, has'', joined) =
        handle_items-joins items rounds r w' has' given.1 (omega arith) (omega arith) in
      let copied = ap (map content_of) now ∙ map-append content_of (contents q) (copy ∷ []) in
      (
        t,
        has'',
        joined
            ∙ ap (λ l. l ++ frames_in items) copied
            ∙ append_assoc (map content_of (contents q)) (content_of f ∷ []) (frames_in items),
      )

frames_in-offered :
    (n : ℕ) (frames : List Frame)
    → length frames ≤ n
    → frames_in (offered n frames) ≡ map content_of frames
frames_in-offered zero [] enough = refl
frames_in-offered zero (f ∷ frames) enough = absurd (omega arith)
frames_in-offered (suc n) [] enough = frames_in-offered n [] (omega arith)
frames_in-offered (suc n) (f ∷ frames) enough =
    ap (λ l. content_of f ∷ l) (frames_in-offered n frames (omega arith))

module _ {S : Type 0} (from : SendApi) (to : RecvApi) (queue out : QueueApi Frame)
    (up : QueueApi VideoItem) where
  -- A relay empties its queue of frames, to which none is added meanwhile, into a connection that
  -- stays up, and `next`, itself a relay, gets all its bytes, finds memory in every round and has
  -- room in its queue for all the frames, to which no other is added meanwhile: they stand in that
  -- queue behind what was there, each once, in order, with the same header and the same bytes.
  pub hop-queue :
      (n : ℕ) (frames : List Frame) (q : queue.Queue) (relay : Relay queue.Queue) (c : from.Conn)
      (s : to.Stream) (rounds : List (Option ℕ)) (p : out.Queue) (w : Globals out up S)
      → All IsSound frames
      → relay.out_queue ≡ some q
      → queue.contents q ≡ frames
      → length frames ≤ n
      → from.accepted c ≡ []
      → (client_loop from queue n c relay).0 ≡ true
      → to.remaining s ≡ from.accepted (client_loop from queue n c relay).1
      → HasQueue out up w p
      → All IsGiven rounds
      → n ≤ length rounds
      → length (out.contents p) + length frames ≤ out.depth p
      → (r : out.Queue) × HasQueue out up (serve to out up rounds s w).0 r
        × (map content_of (out.contents r)
            ≡ map content_of (out.contents p) ++ map content_of frames)
  hop-queue n frames q relay c s rounds p w sound has e all_sent fresh ok all ready given enough
        room =
      let items = offered n frames in
      let arrived =
        hop-whole from to queue out up n frames q relay c s rounds w sound has e fresh all ok in
      let same = frames_in-offered n frames all_sent in
      let count = ap length same ∙ length-map frames content_of in
      let size = length-offered n frames in
      let (r, ready', joined) =
        handle_items-joins out up items rounds p w ready given (omega arith) (omega arith) in
      (r, rw arrived ready', joined ∙ ap (λ l. map content_of (out.contents p) ++ l) same)
