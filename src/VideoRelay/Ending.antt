-- ===== src/VideoRelay/Ending.antt =====
-- main/video_relay.cpp: what the server finds where a connection ends within an item.
use native.Mathlib.Decide.{dec_le}
use esp32_s3_rap.Base.{
  ℕ, zero, suc, ◌-◌, ◌<◌, ◌≡◌, refl, sym, ap, ◌∙◌, ◌⊎◌, inl, inr, true, List, [], Option, none,
  some, arith, length, min, take, drop, ltb, length-take, length-drop, take-append-drop,
}
use esp32_s3_rap.Base.Socket.{RecvApi, IsFinal}
use esp32_s3_rap.VideoRelay.State.{Frame, encode_frame_header, sizeof_frame_header}
use esp32_s3_rap.VideoRelay.Socket.{recv_all, recv_all-bytes, recv_all-short}
use esp32_s3_rap.VideoRelay.Server.{
  Reading, closed, skipped, cut, scratch_bytes, drain, read_payload, read_frame,
}
use esp32_s3_rap.VideoRelay.Wire.{
  IsSound, IsPart, decode-encode_frame_header, length-encode_frame_header,
}
use esp32_s3_rap.VideoRelay.Receiving.{check_frame_header-frame, drain_step}

module _ (net : RecvApi) where
  open net use {Stream, remaining}

  drain_end :
      (fuel len : ℕ) (s r : Stream)
      → 0 < len
      → recv_all net (min len scratch_bytes) s ≡ (none, r)
      → drain net (suc fuel) len s ≡ r
  unfolding drain
  drain_end fuel len s r more e =
      let test : ltb 0 len ≡ true = ground arith in rw (drain, test, e, e) refl

  drain-short :
      (fuel len : ℕ) (s : Stream)
      → length (remaining s) < len
      → len < fuel
      → IsFinal net
      → remaining (drain net fuel len s) ≡ []
  drain-short zero len s short enough final = absurd (omega arith)
  drain-short (suc fuel) len s short enough final =
      let chunk = min len scratch_bytes in
      let now = take chunk (remaining s) in
      let later = drop chunk (remaining s) in
      elim (dec_le chunk (length (remaining s))) [
        | yes there ↦
            let size_now = length-take chunk (remaining s) in
            let size_later = length-drop chunk (remaining s) in
            let (r, got, left) =
              recv_all-bytes net now later chunk s (omega arith)
                (sym (take-append-drop chunk (remaining s))) in
            let size_left = ap length left in
            ap remaining (drain_step net fuel len s now r (omega arith) got)
            ∙ drain-short fuel (len - chunk) r (omega arith) (omega arith) final
        | no missing ↦
            let (r, got, left) = recv_all-short net chunk s (omega arith) in
            ap remaining (drain_end fuel len s r (omega arith) got) ∙ left final
      ]

  -- What the start of an item comes to: the loop ends, unless there is no memory for the payload.
  abbrev pub EndsAs : Option ℕ → Reading × Stream → Type 0
  EndsAs memory out =
      (out.0 ≡ closed)
      ⊎ ((address : ℕ) × (out.0 ≡ cut address))
      ⊎ ((out.0 ≡ skipped) × (IsFinal net → remaining out.1 ≡ []))

  read_payload-part :
      (f : Frame) (k : ℕ) (memory : Option ℕ) (s : Stream)
      → IsSound f
      → k < f.header.data_len
      → remaining s ≡ take k f.data_buffer.bytes
      → EndsAs memory (read_payload net memory f.header s)
  unfolding read_payload
  read_payload-part f k none s sound part e =
      let size = ap length e ∙ length-take k f.data_buffer.bytes in
      inr (
        inr (
          refl,
          λ final.
              drain-short (suc f.header.data_len) f.header.data_len s (omega arith) (omega arith)
                final,
        ))
  read_payload-part f k (some address) s sound part e =
      let size = ap length e ∙ length-take k f.data_buffer.bytes in
      let (r, got, left) = recv_all-short net f.header.data_len s (omega arith) in
      inr (inl (address, rw (read_payload, got) refl))

  pub read_frame-short :
      (memory : Option ℕ) (s : Stream)
      → length (remaining s) < sizeof_frame_header
      → (read_frame net memory s).0 ≡ closed
  unfolding read_frame
  read_frame-short memory s short =
      let (r, got, left) = recv_all-short net sizeof_frame_header s short in
      rw (read_frame, got) refl

  pub read_frame-part :
      (tail : List ℕ) (memory : Option ℕ) (s : Stream)
      → IsPart tail
      → remaining s ≡ tail
      → EndsAs memory (read_frame net memory s)
  unfolding read_frame
  read_frame-part tail memory s (inl short) e =
      inl (read_frame-short memory s (let size = ap length e in omega arith))
  read_frame-part tail memory s (inr (f, k, sound, part, starts)) e =
      let start = encode_frame_header f.header in
      let (r, got, left) =
        recv_all-bytes net start (take k f.data_buffer.bytes) sizeof_frame_header s
          (length-encode_frame_header f.header) (e ∙ starts) in
      let fits = sound.bounded in
      let header = decode-encode_frame_header f.header sound.seq_fits (omega arith) in
      rw (read_frame, got, got, header, check_frame_header-frame net f memory r sound)
        (read_payload-part f k memory r sound part left)
