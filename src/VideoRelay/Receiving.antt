-- ===== src/VideoRelay/Receiving.antt =====
-- main/video_relay.cpp: what the server makes of the bytes of frames and heartbeats.
use esp32_s3_rap.Base.{
  ℕ, zero, suc, ◌-◌, ◌<◌, ◌≡◌, refl, sym, ap, ◌∙◌, true, false, List, [], ◌∷◌, ◌++◌, Option, none,
  some, arith, length, min, take, drop, ltb, append_assoc, length-take, length-drop,
  take-append-drop,
}
use esp32_s3_rap.Base.Socket.{RecvApi}
use esp32_s3_rap.VideoRelay.State.{Frame, encode_frame_header, sizeof_frame_header}
use esp32_s3_rap.VideoRelay.Socket.{recv_all, recv_all-bytes}
use esp32_s3_rap.VideoRelay.Client.{heartbeat}
use esp32_s3_rap.VideoRelay.Server.{
  Reading, keepalive, skipped, framed, scratch_bytes, drain, read_payload, check_frame_header,
  read_frame,
}
use esp32_s3_rap.VideoRelay.Wire.{
  Item, beat, frame, wire, IsSound, IsItem, decode-encode_frame_header, length-encode_frame_header,
}

-- What one item comes to, with the answer of the allocator.
abbrev pub reading_of : Item → Option ℕ → Reading
reading_of beat memory = keepalive
reading_of (frame f) none = skipped
reading_of (frame f) (some address) = framed (record {
  header = f.header;
  data_buffer = record { address = address; bytes = f.data_buffer.bytes };
})

module _ (net : RecvApi) where
  open net use {Stream, remaining}

  pub drain_step :
      (fuel len : ℕ) (s : Stream) (bytes : List ℕ) (r : Stream)
      → 0 < len
      → recv_all net (min len scratch_bytes) s ≡ (some bytes, r)
      → drain net (suc fuel) len s ≡ drain net fuel (len - min len scratch_bytes) r
  unfolding drain
  drain_step fuel len s bytes r more e =
      let test : ltb 0 len ≡ true = ground arith in rw (drain, test, e, e) refl

  drain_done : (fuel len : ℕ) (s : Stream) → len ≡ 0 → drain net fuel len s ≡ s
  unfolding drain
  drain_done zero len s e = refl
  drain_done (suc fuel) len s e =
      let test : ltb 0 len ≡ false = ground arith in rw (drain, test) refl

  drain-bytes :
      (fuel : ℕ) (want rest : List ℕ) (len : ℕ) (s : Stream)
      → len ≡ length want
      → len < fuel
      → remaining s ≡ want ++ rest
      → remaining (drain net fuel len s) ≡ rest
  drain-bytes zero want rest len s size enough e = absurd (omega arith)
  drain-bytes (suc fuel) [] rest len s size enough e =
      ap remaining (drain_done (suc fuel) len s size) ∙ e
  drain-bytes (suc fuel) (w ∷ want) rest len s size enough e =
      let chunk = min len scratch_bytes in
      let now = take chunk (w ∷ want) in
      let later = drop chunk (w ∷ want) in
      let parts : remaining s ≡ now ++ (later ++ rest) =
        e
        ∙ ap (λ l. l ++ rest) (sym (take-append-drop chunk (w ∷ want)))
        ∙ append_assoc now later rest in
      let size_now = length-take chunk (w ∷ want) in
      let size_later = length-drop chunk (w ∷ want) in
      let (r, got, left) = recv_all-bytes net now (later ++ rest) chunk s (omega arith) parts in
      ap remaining (drain_step fuel len s now r (omega arith) got)
      ∙ drain-bytes fuel later rest (len - chunk) r (omega arith) (omega arith) left

  read_payload-frame :
      (f : Frame) (memory : Option ℕ) (rest : List ℕ) (s : Stream)
      → IsSound f
      → remaining s ≡ f.data_buffer.bytes ++ rest
      → (r : Stream) × (read_payload net memory f.header s ≡ (reading_of (frame f) memory, r))
        × (remaining r ≡ rest)
  unfolding read_payload
  read_payload-frame f none rest s sound e = (
    drain net (suc f.header.data_len) f.header.data_len s,
    refl,
    drain-bytes (suc f.header.data_len) f.data_buffer.bytes rest f.header.data_len s sound.whole
        (omega arith) e,
  )
  read_payload-frame f (some address) rest s sound e =
      let (r, got, left) =
        recv_all-bytes net f.data_buffer.bytes rest f.header.data_len s (sym sound.whole) e in
      (r, rw (read_payload, got, got) refl, left)

  pub check_frame_header-frame :
      (f : Frame) (memory : Option ℕ) (s : Stream)
      → IsSound f
      → check_frame_header net memory f.header s ≡ read_payload net memory f.header s
  unfolding check_frame_header
  check_frame_header-frame f memory s sound =
      let some_data = sound.nonempty in let fits = sound.bounded in ground arith

  keepalive_lem :
      (memory : Option ℕ) (s : Stream) → check_frame_header net memory heartbeat s ≡ (keepalive, s)
  unfolding check_frame_header
  keepalive_lem memory s = refl

  -- The bytes of one item, whatever follows them.
  pub read_frame-wire :
      (item : Item) (memory : Option ℕ) (rest : List ℕ) (s : Stream)
      → IsItem item
      → remaining s ≡ wire item ++ rest
      → (r : Stream) × (read_frame net memory s ≡ (reading_of item memory, r))
        × (remaining r ≡ rest)
  unfolding read_frame
  read_frame-wire beat memory rest s sound e =
      let (r, got, left) =
        recv_all-bytes net (encode_frame_header heartbeat) rest sizeof_frame_header s
          (length-encode_frame_header heartbeat) e in
      let header = decode-encode_frame_header heartbeat (omega arith) (omega arith) in
      (r, rw (read_frame, got, got, header) (keepalive_lem memory r), left)
  read_frame-wire (frame f) memory rest s sound e =
      let start = encode_frame_header f.header in
      let (r, got, left) =
        recv_all-bytes net start (f.data_buffer.bytes ++ rest) sizeof_frame_header s
          (length-encode_frame_header f.header) (e ∙ append_assoc start f.data_buffer.bytes rest) in
      let fits = sound.bounded in
      let header = decode-encode_frame_header f.header sound.seq_fits (omega arith) in
      let (t, payload, left') = read_payload-frame f memory rest r sound left in
      (
        t,
        rw (read_frame, got, got, header) (check_frame_header-frame f memory r sound ∙ payload),
        left',
      )
