-- ===== src/Uplink/Reassembly.antt =====
-- main/gateway_uplink.cpp: the chunks of a frame make up the frame.
use esp32_s3_rap.Base.Slices.{take_all, take-min, take-add, drop-add}
use esp32_s3_rap.Base.{
  ℕ, zero, suc, ◌+◌, ◌*◌, ◌^◌, ◌<◌, ◌≤◌, ◌≡◌, refl, ap, sym, ◌∙◌, Bool, true, Bool-cases, inl, inr,
  List, [], ◌∷◌, ◌++◌, arith, min, length, take, drop, sub32, length-drop, length-take,
}
use esp32_s3_rap.Config.{video_udp_chunk_bytes, video_max_frame_bytes}
use esp32_s3_rap.Uplink.State.{VideoItem}
use esp32_s3_rap.Uplink.Video.{Chunk, chunk_count, chunk_payload, send_chunks, send_frame}

-- A frame that the rest of the firmware lets through, with all its bytes.
pub record IsFrame (item : VideoItem) : Type 0 where
  pub whole : length item.data_buffer.bytes ≡ item.data_len
  pub bounded : item.data_len ≤ video_max_frame_bytes

abbrev pub payloads : List Chunk → List ℕ
payloads [] = []
payloads (c ∷ cs) = c.payload ++ payloads cs

-- The chunks carry the frame's tags, count up from `i`, agree on their number, and fit a datagram.
abbrev pub Numbered : VideoItem → ℕ → List Chunk → Type 0
Numbered item i [] = Unit {0}
Numbered item i (c ∷ cs) =
    (c.origin_node_id ≡ item.origin_node_id)
    × (c.stream_id ≡ item.stream_id)
    × (c.seq ≡ item.seq)
    × (c.chunk_index ≡ i)
    × (c.chunk_count ≡ chunk_count item.data_len)
    × (length c.payload ≤ video_udp_chunk_bytes)
    × Numbered item (i + 1) cs

length-chunk_payload :
    (item : VideoItem) (i : ℕ) → length (chunk_payload item i) ≤ video_udp_chunk_bytes
unfolding chunk_payload
length-chunk_payload item i =
    let offset = i * video_udp_chunk_bytes in
    let room = min video_udp_chunk_bytes (sub32 item.data_len offset) in
    omega (arith, length-take {0} room (drop offset item.data_buffer.bytes))

module _ (item : VideoItem) (fits : IsFrame item) where
  abbrev bytes : List ℕ
  bytes = item.data_buffer.bytes

  chunk_payload-slice :
      (i : ℕ)
      → i * video_udp_chunk_bytes ≤ item.data_len
      → chunk_payload item i ≡ take video_udp_chunk_bytes (drop (i * video_udp_chunk_bytes) bytes)
  unfolding chunk_payload
  chunk_payload-slice i h =
      let offset = i * video_udp_chunk_bytes in
      take-min video_udp_chunk_bytes (sub32 item.data_len offset) (drop offset bytes)
        (omega (arith, length-drop {0} offset bytes, fits.whole, fits.bounded))

  payloads-send_chunks :
      (rounds i : ℕ)
      → (i + rounds) * video_udp_chunk_bytes ≤ item.data_len + video_udp_chunk_bytes
      → payloads (send_chunks (λ _. true) item rounds i).0
        ≡ take (rounds * video_udp_chunk_bytes) (drop (i * video_udp_chunk_bytes) bytes)
  unfolding send_chunks
  payloads-send_chunks zero i h = refl
  payloads-send_chunks (suc rounds) i h =
      let from = drop (i * video_udp_chunk_bytes) bytes in
      let width : suc rounds * video_udp_chunk_bytes
          ≡ video_udp_chunk_bytes + rounds * video_udp_chunk_bytes =
        omega arith in
      let next : (i + 1) * video_udp_chunk_bytes
          ≡ i * video_udp_chunk_bytes + video_udp_chunk_bytes =
        omega arith in
      rw
        (
          chunk_payload-slice i (omega arith),
          payloads-send_chunks rounds (i + 1) (omega arith),
          width,
          next,
        )
        (rw (drop-add (i * video_udp_chunk_bytes) video_udp_chunk_bytes bytes)
          (sym (take-add video_udp_chunk_bytes (rounds * video_udp_chunk_bytes) from)))

  Numbered-send_chunks :
      (accepts : ℕ → Bool) (rounds i : ℕ) → Numbered item i (send_chunks accepts item rounds i).0
  unfolding send_chunks
  Numbered-send_chunks accepts zero i = tt
  Numbered-send_chunks accepts (suc rounds) i = elim (Bool-cases (accepts i)) [
    | inl e ↦
        rw (e, send_chunks)
          (
            refl,
            refl,
            refl,
            refl,
            refl,
            length-chunk_payload item i,
            Numbered-send_chunks accepts rounds (i + 1),
          )
    | inr e ↦ rw (e, send_chunks) tt
  ]

  all_sent :
      (rounds i : ℕ)
      → ((send_chunks (λ _. true) item rounds i).1 ≡ true)
        × (length (send_chunks (λ _. true) item rounds i).0 ≡ rounds)
  unfolding send_chunks
  all_sent zero i = (refl, refl)
  all_sent (suc rounds) i = let (done, count) = all_sent rounds (i + 1) in (done, ap suc count)

  chunk_count-bounds :
      (chunk_count item.data_len < 2 ^ 16)
      × (item.data_len ≤ chunk_count item.data_len * video_udp_chunk_bytes)
      × (chunk_count item.data_len * video_udp_chunk_bytes ≤ item.data_len + video_udp_chunk_bytes)
  unfolding chunk_count
  chunk_count-bounds = let b = fits.bounded in ground arith

  -- When no `send` fails, a frame of at most `kVideoMaxFrameBytes` bytes goes out whole: as many
  -- chunks as each one's header says, less than 2^16, numbered from 0, each at most one datagram
  -- long, and their payloads in order are the frame.
  pub send_frame-whole :
      let out = send_frame (λ _. true) item in
      (out.1 ≡ true)
      × (length out.0 ≡ chunk_count item.data_len)
      × (chunk_count item.data_len < 2 ^ 16)
      × Numbered item 0 out.0
      × (payloads out.0 ≡ bytes)
  unfolding send_frame
  send_frame-whole =
      let count = chunk_count item.data_len in
      let (done, sent) = all_sent count 0 in
      let (small, covers, fitting) = chunk_count-bounds in
      (
        done,
        sent,
        small,
        Numbered-send_chunks (λ _. true) count 0,
        payloads-send_chunks count 0 (omega arith)
            ∙ take_all (count * video_udp_chunk_bytes) bytes (omega (arith, fits.whole)),
      )
