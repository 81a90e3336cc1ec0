-- ===== src/Spi/Stream.antt =====
-- main/luckfox_spi.cpp: what the receiver makes of a sender's whole stream, noise included.
use esp32_s3_rap.Base.{
  ℕ, ◌+◌, ◌<◌, ◌≤◌, ◌≡◌, ◌≢◌, refl, ap, ◌∙◌, Bool, true, false, List, [], ◌∷◌, ◌++◌, Option, none,
  some, arith, length, u32, ltb, ◌==◌, if◌then◌else◌, append_assoc, All,
}
use esp32_s3_rap.Config.{video_max_frame_bytes}
use esp32_s3_rap.Spi.Receiver.{
  hunting, draining, collecting, Event, frame, status, pause, Receiver, Transaction, WireHeader,
  decode_header, check_header, hunt, receive, fail, step, run, magic, msg_status,
}
use esp32_s3_rap.Spi.Transfer.{slices, chunks_of, run-slices, run-drained, at_phase}

-- A frame on the wire: what the bus carried before it, its header's chunk and its image. `memory`
-- says whether the receiver can allocate room for it.
pub record Sent : Type 0 where
  pub noise : List Transaction
  pub header : List ℕ
  pub image : List ℕ
  pub padding : List ℕ
  pub memory : Bool

-- A transaction that failed, or that carries no header.
abbrev pub IsNoise : Transaction → Type 0
IsNoise t =
    (scratch : List ℕ) → t.scratch ≡ some scratch → (decode_header scratch).magic_word ≢ magic

-- What the sender does by the protocol.
pub record IsSound (s : Sent) : Type 0 where
  pub noisy : All IsNoise s.noise
  pub marked : (decode_header s.header).magic_word ≡ magic
  pub video : (decode_header s.header).msg_type ≢ msg_status
  pub sized : (decode_header s.header).data_len ≡ length s.image
  pub nonempty : 0 < length s.image
  pub fits : length s.image ≤ video_max_frame_bytes

abbrev pub wire : Sent → List Transaction
wire s =
    s.noise
    ++ record { scratch = some s.header; memory = s.memory }
      ∷ slices (chunks_of (length s.image)) s.image s.padding s.memory

abbrev pub stream : List Sent → List Transaction
stream [] = []
stream (s ∷ rest) = wire s ++ stream rest

-- The frames among the events.
abbrev pub frames : List Event → List (ℕ × ℕ × List ℕ)
frames [] = []
frames (frame stream_id seq image ∷ events) = (stream_id, seq, image) ∷ frames events
frames (status stream_id occupied plate ∷ events) = frames events
frames (pause ms ∷ events) = frames events

-- The frames that found memory.
abbrev pub kept : List Sent → List (ℕ × ℕ × List ℕ)
kept [] = []
kept (s ∷ rest) =
    if s.memory
    then ((decode_header s.header).stream_id, (decode_header s.header).seq, s.image) ∷ kept rest
    else kept rest

frames-append : (xs ys : List Event) → frames (xs ++ ys) ≡ frames xs ++ frames ys
frames-append [] ys = refl
frames-append (frame stream_id seq image ∷ xs) ys =
    ap (λ l. (stream_id, seq, image) ∷ l) (frames-append xs ys)
frames-append (status stream_id occupied plate ∷ xs) ys = frames-append xs ys
frames-append (pause ms ∷ xs) ys = frames-append xs ys

frames-pause : (b : Bool) → frames (if b then pause 5 ∷ [] else []) ≡ []
frames-pause true = refl
frames-pause false = refl

run-append :
    (xs ys : List Transaction) (r : Receiver)
    → run (xs ++ ys) r ≡ ((run ys (run xs r).0).0, (run xs r).1 ++ (run ys (run xs r).0).1)
unfolding run
run-append [] ys r = refl
run-append (x ∷ xs) ys r =
    rw
      (
        run-append xs ys (step x r).0,
        append_assoc (step x r).1 (run xs (step x r).0).1 (run ys (run xs (step x r).0).0).1,
      )
      refl

step-noise :
    (scratch : Option (List ℕ)) (memory : Bool) (n : ℕ)
    → IsNoise (record { scratch = scratch; memory = memory })
    → ((step (record { scratch = scratch; memory = memory }) (at_phase hunting n)).0.phase
        ≡ hunting)
      × (frames (step (record { scratch = scratch; memory = memory }) (at_phase hunting n)).1 ≡ [])
unfolding step fail receive hunt
step-noise none memory n noisy = (refl, refl)
step-noise (some scratch) memory n noisy =
    let unmarked = noisy scratch refl in
    let test : ((decode_header scratch).magic_word == magic) ≡ false = ground arith in
    (rw test refl, rw test (frames-pause (ltb 100 (u32 (n + 1)))))

waiting : (r : Receiver) → r.phase ≡ hunting → r ≡ at_phase hunting r.no_sync_run
waiting r hunts = rw hunts refl

run-noise :
    (noise : List Transaction) (r : Receiver)
    → r.phase ≡ hunting
    → All IsNoise noise
    → ((run noise r).0.phase ≡ hunting) × (frames (run noise r).1 ≡ [])
unfolding run
run-noise [] r hunts noisy = (hunts, refl)
run-noise (t ∷ ts) r hunts noisy =
    let here = waiting r hunts in
    let once = step-noise t.scratch t.memory r.no_sync_run noisy.0 in
    let phase : (step t r).0.phase ≡ hunting = rw here once.0 in
    let none_now : frames (step t r).1 ≡ [] = rw here once.1 in
    let later = run-noise ts (step t r).0 phase noisy.1 in
    (later.0, frames-append (step t r).1 (run ts (step t r).0).1 ∙ rw (none_now, later.1) refl)

accept_header :
    (hdr : WireHeader) (memory : Bool)
    → hdr.msg_type ≢ msg_status
    → 0 < hdr.data_len
    → hdr.data_len ≤ video_max_frame_bytes
    → check_header memory hdr ≡ (if memory then collecting hdr [] else draining hdr.data_len)
unfolding check_header
accept_header hdr memory video some_data fits = ground arith

hunt-marked :
    (memory : Bool) (scratch : List ℕ) (r : Receiver)
    → (decode_header scratch).magic_word ≡ magic
    → hunt memory scratch r ≡ (at_phase (check_header memory (decode_header scratch)) 0, [])
unfolding hunt
hunt-marked memory scratch r marked =
    let test : ((decode_header scratch).magic_word == magic) ≡ true = ground arith in rw test refl

run-image :
    (hdr : WireHeader) (image padding : List ℕ) (memory : Bool)
    → hdr.data_len ≡ length image
    → 0 < length image
    → run
        (slices (chunks_of (length image)) image padding memory)
        (at_phase (if memory then collecting hdr [] else draining hdr.data_len) 0)
      ≡ (at_phase hunting 0, if memory then frame hdr.stream_id hdr.seq image ∷ [] else [])
run-image hdr image padding true sized nonempty =
    run-slices (chunks_of (length image)) hdr [] image padding true 0 (omega arith) nonempty
      (omega arith) (omega arith)
run-image hdr image padding false sized nonempty = rw sized (
    run-drained (chunks_of (length image)) (length image) image padding 0 nonempty (omega arith)
      (omega arith))

run-frame :
    (s : Sent) (n : ℕ)
    → IsSound s
    → run
        (record { scratch = some s.header; memory = s.memory }
          ∷ slices (chunks_of (length s.image)) s.image s.padding s.memory)
        (at_phase hunting n)
      ≡ (
        at_phase hunting 0,
        if s.memory
            then frame (decode_header s.header).stream_id (decode_header s.header).seq s.image ∷ []
            else [],
      )
unfolding run step receive
run-frame s n sound =
    let record {
      noisy = _;
      marked = marked;
      video = video;
      sized = sized;
      nonempty = nonempty;
      fits = fits;
    } =
      sound in
    rw
      (
        hunt-marked s.memory s.header (at_phase hunting n) marked,
        accept_header (decode_header s.header) s.memory video (omega arith) (omega arith),
      )
      (run-image (decode_header s.header) s.image s.padding s.memory sized nonempty)

frames_of_outcome :
    (memory : Bool) (stream_id seq : ℕ) (image : List ℕ) (rest : List (ℕ × ℕ × List ℕ))
    → frames (if memory then frame stream_id seq image ∷ [] else []) ++ rest
      ≡ (if memory then (stream_id, seq, image) ∷ rest else rest)
frames_of_outcome true stream_id seq image rest = refl
frames_of_outcome false stream_id seq image rest = refl

run-wire :
    (s : Sent) (r : Receiver)
    → r.phase ≡ hunting
    → IsSound s
    → ((run (wire s) r).0.phase ≡ hunting)
      × (frames (run (wire s) r).1
          ≡ frames (
              if s.memory
              then frame (decode_header s.header).stream_id (decode_header s.header).seq s.image
                ∷ []
              else []))
run-wire s r hunts sound =
    let quiet = run-noise s.noise r hunts sound.noisy in
    let after = (run s.noise r).0 in
    let here = waiting after quiet.0 in
    let message =
      record { scratch = some s.header; memory = s.memory }
      ∷ slices (chunks_of (length s.image)) s.image s.padding s.memory in
    let heard = ap (run message) here ∙ run-frame s after.no_sync_run sound in
    let whole = run-append s.noise message r in
    (
      ap (λ o. o.0.phase) whole ∙ ap (λ o. o.0.phase) heard,
      ap (λ o. frames o.1) whole
          ∙ frames-append (run s.noise r).1 (run message after).1
          ∙ rw quiet.1 (ap (λ o. frames o.1) heard),
    )

-- From a receiver that waits for a header, a stream of frames of a size the receiver takes, each
-- after any number of failed transactions and chunks without the magic word, comes out as exactly
-- the frames that found memory, in order, each image whole; and the receiver waits for a header
-- again. A frame that found no memory is skipped without losing the place in the stream.
pub stream-frames :
    (sent : List Sent) (r : Receiver)
    → r.phase ≡ hunting
    → All IsSound sent
    → ((run (stream sent) r).0.phase ≡ hunting) × (frames (run (stream sent) r).1 ≡ kept sent)
unfolding run
stream-frames [] r hunts sound = (hunts, refl)
stream-frames (s ∷ rest) r hunts sound =
    let first = run-wire s r hunts sound.0 in
    let later = stream-frames rest (run (wire s) r).0 first.0 sound.1 in
    let whole = run-append (wire s) (stream rest) r in
    (
      ap (λ o. o.0.phase) whole ∙ later.0,
      ap (λ o. frames o.1) whole
          ∙ frames-append (run (wire s) r).1 (run (stream rest) (run (wire s) r).0).1
          ∙ rw (first.1, later.1)
              (frames_of_outcome s.memory (decode_header s.header).stream_id
                (decode_header s.header).seq s.image (kept rest)),
    )
