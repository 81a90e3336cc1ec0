-- ===== src/Spi/Bounds.antt =====
-- main/luckfox_spi.cpp: no copy leaves its buffer, whatever is on the wire.
use esp32_s3_rap.Base.{
  ℕ, ◌+◌, ◌-◌, ◌<◌, ◌≤◌, ◌≡◌, ◌≢◌, List, [], ◌∷◌, some, arith, length, All, All-append, take, drop,
  min, length-append, length-take, length-drop, Bool, refl, Option-cases, inl, inr,
}
use esp32_s3_rap.Config.{luckfox_spi_chunk_bytes, video_max_frame_bytes, max_plate_len}
use esp32_s3_rap.Spi.Receiver.{
  Phase, hunting, reading_status, draining, collecting, Event, frame, status, pause, Receiver,
  Transaction, WireHeader, hunt, collect, drain, receive, fail, step, run, start, wire_plate,
  msg_status,
}

-- The scratch buffer is `kLuckfoxSpiChunkBytes` long.
abbrev pub IsTransaction : Transaction → Type 0
IsTransaction t =
    (scratch : List ℕ) → t.scratch ≡ some scratch → length scratch ≡ luckfox_spi_chunk_bytes

-- What is collected is shorter than the frame's buffer, and the buffer is of a legal size.
abbrev pub IsBounded : Phase → Type 0
IsBounded hunting = Unit {0}
IsBounded (reading_status _) = Unit {0}
IsBounded (draining remaining) = (0 < remaining) × (remaining ≤ video_max_frame_bytes)
IsBounded (collecting hdr collected) =
    (length collected < hdr.data_len)
    × (hdr.data_len ≤ video_max_frame_bytes)
    × (hdr.msg_type ≢ msg_status)

abbrev pub IsLegal : Event → Type 0
IsLegal (frame _ _ image) = (0 < length image) × (length image ≤ video_max_frame_bytes)
IsLegal (status _ _ plate) = length plate ≡ max_plate_len + 1
IsLegal (pause _) = Unit {0}

abbrev Keeps : Receiver × List Event → Type 0
Keeps out = IsBounded out.0.phase × All IsLegal out.1

length-wire_plate :
    (scratch : List ℕ)
    → length scratch ≡ luckfox_spi_chunk_bytes
    → length (wire_plate scratch) ≡ max_plate_len + 1
length-wire_plate scratch h = omega (
  arith,
  length-append (take max_plate_len (drop 1 scratch)) (0 ∷ []),
  length-take {0} max_plate_len (drop 1 scratch),
  length-drop {0} 1 scratch,
)

collect-Keeps :
    (hdr : WireHeader) (collected : List ℕ) (memory : Bool) (scratch : List ℕ) (r : Receiver)
    → length scratch ≡ luckfox_spi_chunk_bytes
    → IsBounded (collecting hdr collected)
    → Keeps (collect hdr collected scratch r)
unfolding collect
collect-Keeps hdr collected memory scratch r h b =
    let want = min (hdr.data_len - length collected) luckfox_spi_chunk_bytes in
    ground (arith, length-append collected (take want scratch), length-take {0} want scratch)

receive-Keeps :
    (p : Phase) (memory : Bool) (scratch : List ℕ) (r : Receiver)
    → length scratch ≡ luckfox_spi_chunk_bytes
    → r.phase ≡ p
    → IsBounded p
    → Keeps (receive p memory scratch r)
unfolding receive hunt drain
receive-Keeps hunting memory scratch r h e b = ground arith
receive-Keeps (reading_status hdr) memory scratch r h e b = (tt, (length-wire_plate scratch h, tt))
receive-Keeps (draining remaining) memory scratch r h e b = ground arith
receive-Keeps (collecting hdr collected) memory scratch r h e b =
    collect-Keeps hdr collected memory scratch r h b

fail-Keeps : (p : Phase) (r : Receiver) → r.phase ≡ p → IsBounded p → Keeps (fail p r)
unfolding fail
fail-Keeps hunting r e b = ground arith
fail-Keeps (reading_status _) r e b = (tt, tt)
fail-Keeps (draining _) r e b = (tt, tt)
fail-Keeps (collecting _ _) r e b = (tt, tt)

step-Keeps :
    (t : Transaction) (r : Receiver) → IsTransaction t → IsBounded r.phase → Keeps (step t r)
unfolding step
step-Keeps t r h b = elim (Option-cases t.scratch) [
  | inl e ↦ rw (e, step) (fail-Keeps r.phase r refl b)
  | inr (scratch, e) ↦ rw (e, step) (receive-Keeps r.phase t.memory scratch r (h scratch e) refl b)
]

run-Keeps :
    (ts : List Transaction) (r : Receiver)
    → All IsTransaction ts
    → IsBounded r.phase
    → Keeps (run ts r)
unfolding run
run-Keeps [] r h b = (b, tt)
run-Keeps (t ∷ ts) r h b =
    let first = step-Keeps t r h.0 b in
    let second = run-Keeps ts (step t r).0 h.1 first.0 in
    (second.0, All-append IsLegal _ _ first.1 second.1)

-- Whatever transactions follow the start of the task, garbage and failures included: a frame that
-- is being collected always has room for the next copy, its buffer and every frame delivered is at
-- least one byte and at most `kVideoMaxFrameBytes` long, and every plate delivered is a full array.
pub run-IsBounded :
    (ts : List Transaction)
    → All IsTransaction ts
    → IsBounded (run ts start).0.phase × All IsLegal (run ts start).1
run-IsBounded ts h = run-Keeps ts start h tt
