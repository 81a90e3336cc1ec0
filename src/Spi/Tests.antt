-- ===== src/Spi/Tests.antt =====
-- main/luckfox_spi.cpp: the theorems about the receiver, applied to a small stream.
use esp32_s3_rap.Base.{
  ℕ, ◌≡◌, ◌≢◌, refl, sym, ap, true, false, List, [], ◌∷◌, none, some, arith, replicate, All,
}
use esp32_s3_rap.Spi.Receiver.{Transaction, hunting, run, start, magic, decode_header}
use esp32_s3_rap.Spi.Bounds.{IsTransaction, IsBounded, IsLegal, run-IsBounded}
use esp32_s3_rap.Spi.Stream.{Sent, IsNoise, IsSound, stream, frames, kept, stream-frames}

abbrev failed : Transaction
failed = record { scratch = none; memory = true }

abbrev garbage_bytes : List ℕ
garbage_bytes = replicate 4000 255

abbrev garbage : Transaction
garbage = record { scratch = some garbage_bytes; memory = true }

-- The header of a video frame of three bytes, from stream 2, with sequence number 7.
abbrev header : List ℕ
header = 0x46 ∷ 0x50 ∷ 0x41 ∷ 0x52 ∷ 0 ∷ 2 ∷ 7 ∷ 0 ∷ 3 ∷ 0 ∷ 0 ∷ 0 ∷ []

abbrev first_message : Sent
first_message = record {
  noise = failed ∷ garbage ∷ [];
  header = header;
  image = 1 ∷ 2 ∷ 3 ∷ [];
  padding = [];
  memory = true;
}

abbrev second_message : Sent
second_message = record {
  noise = [];
  header = header;
  image = 4 ∷ 5 ∷ 6 ∷ [];
  padding = [];
  memory = false;
}

abbrev messages : List Sent
messages = first_message ∷ second_message ∷ []

some_injective : {xs ys : List ℕ} → some xs ≡ some ys → xs ≡ ys
some_injective e = ap (λ o. elim o [ none ↦ [] | some x ↦ x ]) e

garbage_magic : (decode_header garbage_bytes).magic_word ≢ magic
unfolding decode_header
garbage_magic e = omega arith

garbage-IsNoise : IsNoise garbage
garbage-IsNoise scratch e = rw (sym (some_injective e)) garbage_magic

failed-IsNoise : IsNoise failed
failed-IsNoise scratch e = ground arith

header-IsSound_first : IsSound first_message
unfolding decode_header
header-IsSound_first = record {
  noisy = (failed-IsNoise, (garbage-IsNoise, tt));
  marked = refl;
  video = λ e. omega arith;
  sized = refl;
  nonempty = omega arith;
  fits = omega arith;
}

header-IsSound_second : IsSound second_message
unfolding decode_header
header-IsSound_second = record {
  noisy = tt;
  marked = refl;
  video = λ e. omega arith;
  sized = refl;
  nonempty = omega arith;
  fits = omega arith;
}

messages-IsSound : All IsSound messages
messages-IsSound = (header-IsSound_first, (header-IsSound_second, tt))

stream-frames_example :
    ((run (stream messages) start).0.phase ≡ hunting)
    × (frames (run (stream messages) start).1 ≡ kept messages)
stream-frames_example = stream-frames messages start refl messages-IsSound

failed-IsTransaction : IsTransaction failed
failed-IsTransaction scratch e = ground arith

garbage-IsTransaction : IsTransaction garbage
garbage-IsTransaction scratch e = rw (sym (some_injective e)) refl

garbage-All : All IsTransaction (failed ∷ garbage ∷ garbage ∷ [])
garbage-All = (failed-IsTransaction, (garbage-IsTransaction, (garbage-IsTransaction, tt)))

run-IsBounded_example :
    IsBounded (run (failed ∷ garbage ∷ garbage ∷ []) start).0.phase
    × All IsLegal (run (failed ∷ garbage ∷ garbage ∷ []) start).1
run-IsBounded_example = run-IsBounded (failed ∷ garbage ∷ garbage ∷ []) garbage-All
