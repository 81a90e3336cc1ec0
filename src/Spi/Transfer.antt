-- ===== src/Spi/Transfer.antt =====
-- main/luckfox_spi.cpp: the receiver against the wire protocol that the file's header describes.
use native.Mathlib.Decide.{dec_le}
use esp32_s3_rap.Base.Slices.{take_all}
use esp32_s3_rap.Base.{
  ℕ, zero, suc, ◌+◌, ◌-◌, ◌*◌, ◌/◌, ◌<◌, ◌≤◌, ◌≡◌, refl, ◌∙◌, Bool, true, false, List, [], ◌∷◌,
  ◌++◌, some, arith, length, take, drop, min, ltb, ◌==◌, if◌then◌else◌, length-append, length-take,
  length-drop, take-append-drop, take-append_length, append_assoc, lt→ltb,
}
use esp32_s3_rap.Config.{luckfox_spi_chunk_bytes}
use esp32_s3_rap.Spi.Receiver.{
  Phase, hunting, draining, collecting, frame, Receiver, Transaction, WireHeader, collect, drain,
  receive, step, run,
}

-- A sender's payload chunks: `rounds` pieces of the image, each padded.
abbrev pub slices : ℕ → List ℕ → List ℕ → Bool → List Transaction
slices zero image padding memory = []
slices (suc rounds) image padding memory =
    record { scratch = some (take luckfox_spi_chunk_bytes image ++ padding); memory = memory }
    ∷ slices rounds (drop luckfox_spi_chunk_bytes image) padding memory

-- ceil(len / chunk)
abbrev pub chunks_of : ℕ → ℕ
chunks_of len = (len + luckfox_spi_chunk_bytes - 1) / luckfox_spi_chunk_bytes

take-slice :
    (image padding : List ℕ)
    → take
        (min (length image) luckfox_spi_chunk_bytes)
        (take luckfox_spi_chunk_bytes image ++ padding)
      ≡ take luckfox_spi_chunk_bytes image
take-slice image padding =
    take-append_length (take luckfox_spi_chunk_bytes image) padding _
      (length-take luckfox_spi_chunk_bytes image ∙ omega arith)

abbrev pub at_phase : Phase → ℕ → Receiver
at_phase p n = record { phase = p; no_sync_run = n }

collect-slice :
    (hdr : WireHeader) (collected image padding : List ℕ) (n : ℕ)
    → length collected + length image ≡ hdr.data_len
    → collect hdr collected
        (take luckfox_spi_chunk_bytes image ++ padding)
        (at_phase (collecting hdr collected) n)
      ≡ (if ltb (length (collected ++ take luckfox_spi_chunk_bytes image)) hdr.data_len
          then (at_phase (collecting hdr (collected ++ take luckfox_spi_chunk_bytes image)) n, [])
          else (
            at_phase hunting n,
            frame hdr.stream_id hdr.seq (collected ++ take luckfox_spi_chunk_bytes image) ∷ [],
          ))
unfolding collect
collect-slice hdr collected image padding n e =
    let w : hdr.data_len - length collected ≡ length image = omega arith in
    rw (w, take-slice image padding) refl

collect-last :
    (hdr : WireHeader) (collected image padding : List ℕ) (n : ℕ)
    → length collected + length image ≡ hdr.data_len
    → length image ≤ luckfox_spi_chunk_bytes
    → collect hdr collected
        (take luckfox_spi_chunk_bytes image ++ padding)
        (at_phase (collecting hdr collected) n)
      ≡ (at_phase hunting n, frame hdr.stream_id hdr.seq (collected ++ image) ∷ [])
collect-last hdr collected image padding n e short =
    let total : ltb (length (collected ++ image)) hdr.data_len ≡ false =
      (let l = length-append collected image in ground arith) in
    let slice = take_all luckfox_spi_chunk_bytes image short in
    collect-slice hdr collected image padding n e ∙ rw (slice, total) refl

collect-more :
    (hdr : WireHeader) (collected image padding : List ℕ) (n : ℕ)
    → length collected + length image ≡ hdr.data_len
    → luckfox_spi_chunk_bytes < length image
    → collect hdr collected
        (take luckfox_spi_chunk_bytes image ++ padding)
        (at_phase (collecting hdr collected) n)
      ≡ (at_phase (collecting hdr (collected ++ take luckfox_spi_chunk_bytes image)) n, [])
collect-more hdr collected image padding n e long =
    let l = length-append collected (take luckfox_spi_chunk_bytes image) in
    let t = length-take luckfox_spi_chunk_bytes image in
    let less : length (collected ++ take luckfox_spi_chunk_bytes image) < hdr.data_len =
      omega arith in
    let test : ltb (length (collected ++ take luckfox_spi_chunk_bytes image)) hdr.data_len ≡ true =
      lt→ltb _ _ less in
    collect-slice hdr collected image padding n e ∙ rw test refl

run-more :
    (hdr : WireHeader) (collected image padding : List ℕ) (memory : Bool) (n : ℕ)
    → length collected + length image ≡ hdr.data_len
    → luckfox_spi_chunk_bytes < length image
    → (rest : List Transaction)
    → run
        (record { scratch = some (take luckfox_spi_chunk_bytes image ++ padding); memory = memory }
          ∷ rest)
        (at_phase (collecting hdr collected) n)
      ≡ run rest (at_phase (collecting hdr (collected ++ take luckfox_spi_chunk_bytes image)) n)
unfolding run step receive
run-more hdr collected image padding memory n e long rest =
    rw (collect-more hdr collected image padding n e long) refl

run-last :
    (hdr : WireHeader) (collected image padding : List ℕ) (memory : Bool) (n : ℕ)
    → length collected + length image ≡ hdr.data_len
    → length image ≤ luckfox_spi_chunk_bytes
    → (rest : List Transaction)
    → run
        (record { scratch = some (take luckfox_spi_chunk_bytes image ++ padding); memory = memory }
          ∷ rest)
        (at_phase (collecting hdr collected) n)
      ≡ (
        (run rest (at_phase hunting n)).0,
        frame hdr.stream_id hdr.seq (collected ++ image) ∷ (run rest (at_phase hunting n)).1,
      )
unfolding run step receive
run-last hdr collected image padding memory n e short rest =
    rw (collect-last hdr collected image padding n e short) refl

pub run-slices :
    (rounds : ℕ) (hdr : WireHeader) (collected image padding : List ℕ) (memory : Bool) (n : ℕ)
    → length collected + length image ≡ hdr.data_len
    → 0 < length image
    → length image ≤ rounds * luckfox_spi_chunk_bytes
    → rounds * luckfox_spi_chunk_bytes < length image + luckfox_spi_chunk_bytes
    → run (slices rounds image padding memory) (at_phase (collecting hdr collected) n)
      ≡ (at_phase hunting n, frame hdr.stream_id hdr.seq (collected ++ image) ∷ [])
unfolding run
run-slices zero hdr collected image padding memory n e some_image enough few = absurd (omega arith)
run-slices (suc rounds) hdr collected image padding memory n e some_image enough few =
    elim (dec_le (length image) luckfox_spi_chunk_bytes) [
      | yes short ↦
          let done : rounds ≡ 0 = omega arith in
          run-last hdr collected image padding memory n e short
            (slices rounds (drop luckfox_spi_chunk_bytes image) padding memory)
          ∙ rw done refl
      | no long ↦
          let l = length-append collected (take luckfox_spi_chunk_bytes image) in
          let t = length-take luckfox_spi_chunk_bytes image in
          let d = length-drop luckfox_spi_chunk_bytes image in
          run-more hdr collected image padding memory n e (omega arith)
            (slices rounds (drop luckfox_spi_chunk_bytes image) padding memory)
          ∙ run-slices rounds hdr (collected ++ take luckfox_spi_chunk_bytes image)
              (drop luckfox_spi_chunk_bytes image) padding memory n (omega arith) (omega arith)
              (omega arith) (omega arith)
          ∙ rw
              (
                append_assoc collected (take luckfox_spi_chunk_bytes image)
                    (drop luckfox_spi_chunk_bytes image),
                take-append-drop luckfox_spi_chunk_bytes image,
              )
              refl
    ]

drain-last :
    (remaining : ℕ) (n : ℕ)
    → remaining ≤ luckfox_spi_chunk_bytes
    → drain remaining (at_phase (draining remaining) n) ≡ at_phase hunting n
unfolding drain
drain-last remaining n short =
    let nothing : remaining - min remaining luckfox_spi_chunk_bytes ≡ 0 = omega arith in
    rw nothing refl

drain-more :
    (remaining : ℕ) (n : ℕ)
    → luckfox_spi_chunk_bytes < remaining
    → drain remaining (at_phase (draining remaining) n)
      ≡ at_phase (draining (remaining - luckfox_spi_chunk_bytes)) n
unfolding drain
drain-more remaining n long =
    let less : min remaining luckfox_spi_chunk_bytes ≡ luckfox_spi_chunk_bytes = omega arith in
    let test : (remaining - luckfox_spi_chunk_bytes == 0) ≡ false = ground arith in
    rw (less, test) refl

pub run-drained :
    (rounds : ℕ) (remaining : ℕ) (image padding : List ℕ) (n : ℕ)
    → 0 < remaining
    → remaining ≤ rounds * luckfox_spi_chunk_bytes
    → rounds * luckfox_spi_chunk_bytes < remaining + luckfox_spi_chunk_bytes
    → run (slices rounds image padding false) (at_phase (draining remaining) n)
      ≡ (at_phase hunting n, [])
unfolding run step receive
run-drained zero remaining image padding n some_left enough few = absurd (omega arith)
run-drained (suc rounds) remaining image padding n some_left enough few =
    elim (dec_le remaining luckfox_spi_chunk_bytes) [
      | yes short ↦
          let done : rounds ≡ 0 = omega arith in rw (drain-last remaining n short, done) refl
      | no long ↦
          rw
            (
              drain-more remaining n (omega arith),
              run-drained rounds (remaining - luckfox_spi_chunk_bytes)
                  (drop luckfox_spi_chunk_bytes image) padding n (omega arith) (omega arith)
                  (omega arith),
            )
            refl
    ]
