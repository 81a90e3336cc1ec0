-- ===== src/VideoRelay/Server.antt =====
-- main/video_relay.cpp: `serverTask`, one connection of `prev` at a time.
use esp32_s3_rap.Base.{
  ℕ, zero, suc, ◌+◌, ◌-◌, Bool, true, false, ◌&&◌, ◌||◌, List, [], ◌∷◌, ◌++◌, Option, none, some,
  min, u32, ltb, ◌==◌, if◌then◌else◌,
}
use esp32_s3_rap.Base.Queue.{QueueApi}
use esp32_s3_rap.Base.Socket.{RecvApi}
use esp32_s3_rap.Config.{video_heartbeat_stream, video_max_frame_bytes}
use esp32_s3_rap.Uplink.State.{VideoItem}
use esp32_s3_rap.VideoRelay.State.{FrameHeader, Frame, decode_frame_header, sizeof_frame_header}
use esp32_s3_rap.VideoRelay.Socket.{recv_all}
use esp32_s3_rap.VideoRelay.Frames.{Globals, enqueue_or_drop}

-- What one round of the inner loop finds. `closed` and `cut` leave the loop.
pub data Reading : Type 0 where
  closed : Reading  -- no header, or a bad one
  keepalive : Reading
  skipped : Reading  -- no memory for the frame
  cut : (address : ℕ) → Reading  -- the connection ended in the payload
  framed : Frame → Reading

-- sizeof(scratch)
abbrev pub scratch_bytes : ℕ
scratch_bytes = 256

module _ {S : Type 0} (out : QueueApi Frame) (up : QueueApi VideoItem) where
  -- What is done about it: whether the loop goes on, the new globals, the blocks freed.
  unfoldable pub handle_reading : Reading → Globals out up S → Bool × Globals out up S × List ℕ
  unfolding enqueue_or_drop
  handle_reading closed w = (false, w, [])
  handle_reading keepalive w = (true, w, [])
  handle_reading skipped w =
      (true, record w { relay = record w.relay { v_drop = u32 (w.relay.v_drop + 1) } }, [])
  handle_reading (cut address) w = (false, w, address ∷ [])
  handle_reading (framed frame) w =
      let (w', freed) =
        enqueue_or_drop out up frame
          (record w { relay = record w.relay { v_in = u32 (w.relay.v_in + 1) } }) in
      (true, w', freed)

module _ (net : RecvApi) where
  open net use {Stream}

  -- Reads a payload away.
  unfoldable pub drain : ℕ → ℕ → Stream → Stream
  drain zero remaining s = s
  drain (suc fuel) remaining s = elim (ltb 0 remaining) [
    | true ↦
        let chunk = min remaining scratch_bytes in
        let (bytes, r) = recv_all net chunk s in
        elim bytes [ none ↦ r | some _ ↦ drain fuel (remaining - chunk) r ]
    | false ↦ s
  ]

  -- `memory` is the address that `allocFrameBuffer` gives.
  unfoldable pub read_payload : Option ℕ → FrameHeader → Stream → Reading × Stream
  read_payload none hdr s = (skipped, drain (suc hdr.data_len) hdr.data_len s)
  read_payload (some address) hdr s =
      let (bytes, r) = recv_all net hdr.data_len s in
      elim bytes [
        | none ↦ (cut address, r)
        | some payload ↦ (
          framed (record {
            header = hdr;
            data_buffer = record { address = address; bytes = payload };
          }),
          r,
        )
      ]

  unfoldable pub check_frame_header : Option ℕ → FrameHeader → Stream → Reading × Stream
  unfolding read_payload
  check_frame_header memory hdr s =
      if hdr.stream_id == video_heartbeat_stream && hdr.data_len == 0
      then (keepalive, s)
      else if hdr.data_len == 0 || ltb video_max_frame_bytes hdr.data_len
      then (closed, s)
      else read_payload memory hdr s

  unfoldable pub read_frame : Option ℕ → Stream → Reading × Stream
  unfolding check_frame_header
  read_frame memory s =
      let (bytes, r) = recv_all net sizeof_frame_header s in
      elim bytes [
        | none ↦ (closed, r)
        | some b ↦ check_frame_header memory (decode_frame_header b) r
      ]

  module _ {S : Type 0} (out : QueueApi Frame) (up : QueueApi VideoItem) where
    -- The inner loop, a round for each answer of the allocator: the new globals, the blocks freed,
    -- and the stream.
    unfoldable pub serve :
        List (Option ℕ) → Stream → Globals out up S → Globals out up S × List ℕ × Stream
    serve [] s w = (w, [], s)
    serve (memory ∷ rounds) s w =
        let (reading, r) = read_frame memory s in
        let (more, w', freed) = handle_reading out up reading w in
        elim more [
          | true ↦ let (w'', later, t) = serve rounds r w' in (w'', freed ++ later, t)
          | false ↦ (w', freed, r)
        ]

    -- Whether the inner loop has been left within these rounds.
    unfoldable pub leaves : List (Option ℕ) → Stream → Globals out up S → Bool
    leaves [] s w = false
    leaves (memory ∷ rounds) s w =
        let (reading, r) = read_frame memory s in
        let (more, w', freed) = handle_reading out up reading w in
        elim more [ true ↦ leaves rounds r w' | false ↦ true ]

    -- A connection from `accept` on, with `close` and what stands before it if the loop was left.
    unfoldable pub server_connection :
        List (Option ℕ) → Stream → Globals out up S → Globals out up S × List ℕ × Stream
    unfolding serve leaves
    server_connection rounds s w =
        let up_now = record w { relay = record w.relay { server_up = true } } in
        let (w', freed, t) = serve rounds s up_now in
        let closed_now = record w' {
          relay = record w'.relay {
            server_up = false;
            v_prev_drops = u32 (w'.relay.v_prev_drops + 1);
          };
        } in
        (if leaves rounds s up_now then closed_now else w', freed, t)
