-- ===== src/VideoRelay/SelfTest.antt =====
-- main/video_relay.cpp: the self-test's frames, from `selfTestProducerTask` to the check at the
-- Gateway.
use esp32_s3_rap.Base.{
  ℕ, zero, suc, ◌+◌, ◌-◌, ◌/◌, ◌%◌, ◌<◌, ◌≡◌, ◌≢◌, refl, ap, true, List, [], ◌∷◌, Option, none,
  some, arith, length, get_or, set, get_or-set_ne, u8, u16, u32,
}
use esp32_s3_rap.Base.Queue.{QueueApi}
use esp32_s3_rap.Config.{self_test_frame_bytes, video_streams_per_node}
use esp32_s3_rap.Uplink.State.{Buffer, VideoItem}
use esp32_s3_rap.VideoRelay.State.{Frame}
use esp32_s3_rap.VideoRelay.Frames.{
  Globals, self_test_byte, byte_ok, self_test_frame_ok, on_luckfox_frame, enqueue_or_drop,
}

-- The loop that fills the block, from index `i` on.
unfoldable pub fill : ℕ → ℕ → ℕ → ℕ → ℕ → List ℕ
fill origin stream seq zero i = []
fill origin stream seq (suc rounds) i =
    self_test_byte origin stream seq i ∷ fill origin stream seq rounds (i + 1)

-- The task's own variables: the next sequence number of each stream, and the stream whose turn it is.
pub record Producer : Type 0 where
  pub next_seq : List ℕ
  pub stream : ℕ

abbrev pub first_producer : Producer
first_producer = record { next_seq = 0 ∷ 0 ∷ 0 ∷ []; stream = 0 }

module _ {S : Type 0} (out : QueueApi Frame) (up : QueueApi VideoItem) where
  -- A round after its delay; `memory` is the address that `allocFrameBuffer` gives.
  unfoldable pub produce :
      Option ℕ → Producer → Globals out up S → Producer × Globals out up S × List ℕ
  unfolding on_luckfox_frame fill
  produce none p w =
      (p, record w { relay = record w.relay { v_drop = u32 (w.relay.v_drop + 1) } }, [])
  produce (some address) p w =
      let s = get_or p.next_seq p.stream 0 in
      let block : Buffer = record {
        address = address;
        bytes = fill w.relay.node_id p.stream s self_test_frame_bytes 0;
      } in
      let (w', freed) = on_luckfox_frame out up p.stream s block self_test_frame_bytes w in
      (
        record {
          next_seq = set p.next_seq p.stream (u16 (s + 1));
          stream = u8 ((p.stream + 1) % video_streams_per_node);
        },
        w',
        freed,
      )

-- The frame of a round.
abbrev pub produced_frame : ℕ → ℕ → ℕ → ℕ → Frame
produced_frame address origin stream seq = record {
  header = record {
    origin_node_id = origin;
    stream_id = stream;
    seq = seq;
    data_len = self_test_frame_bytes;
  };
  data_buffer = record {
    address = address;
    bytes = fill origin stream seq self_test_frame_bytes 0;
  };
}

get_or-fill :
    (origin stream seq rounds i k : ℕ)
    → k < rounds
    → get_or (fill origin stream seq rounds i) k 0 ≡ self_test_byte origin stream seq (i + k)
unfolding fill
get_or-fill origin stream seq zero i k h = absurd (omega arith)
get_or-fill origin stream seq (suc rounds) i zero h = let e : i + 0 ≡ i = omega arith in rw e
get_or-fill origin stream seq (suc rounds) i (suc k) h =
    let e : i + suc k ≡ i + 1 + k = omega arith in
    rw e (get_or-fill origin stream seq rounds (i + 1) k (omega arith))

length-fill : (origin stream seq rounds i : ℕ) → length (fill origin stream seq rounds i) ≡ rounds
unfolding fill
length-fill origin stream seq zero i = refl
length-fill origin stream seq (suc rounds) i = ap suc (length-fill origin stream seq rounds (i + 1))

byte_ok-fill :
    (address origin stream seq k : ℕ)
    → k < self_test_frame_bytes
    → byte_ok (produced_frame address origin stream seq) k ≡ true
byte_ok-fill address origin stream seq k h =
    let same = get_or-fill origin stream seq self_test_frame_bytes 0 k h in
    let from_zero : 0 + k ≡ k = omega arith in
    ground (arith, ap (λ n. self_test_byte origin stream seq n) from_zero)

produced_frame-ok :
    (address copy origin stream seq : ℕ)
    → let frame = produced_frame address origin stream seq in
      self_test_frame_ok
        (record frame { data_buffer = record frame.data_buffer { address = copy } })
      ≡ true
unfolding self_test_frame_ok
produced_frame-ok address copy origin stream seq = ground (
  arith,
  byte_ok-fill copy origin stream seq 0 (omega arith),
  byte_ok-fill copy origin stream seq 1 (omega arith),
  byte_ok-fill copy origin stream seq 4000 (omega arith),
  byte_ok-fill copy origin stream seq 7999 (omega arith),
)

-- A round of the producer that finds memory hands `enqueueOrDrop` one frame, of this node, with the
-- stream whose turn it is and that stream's next sequence number, after counting it as local. The frame
-- passes the Gateway's check, wherever relays have copied it to.
pub produce-self_test_frame_ok :
    {S : Type 0} (out : QueueApi Frame) (up : QueueApi VideoItem) (address copy : ℕ) (p : Producer)
    (w : Globals out up S)
    → (f : Frame) × (f.header ≡ record {
      origin_node_id = w.relay.node_id;
      stream_id = p.stream;
      seq = get_or p.next_seq p.stream 0;
      data_len = self_test_frame_bytes;
    })
      × (let (p', w', freed) = produce out up (some address) p w in
          (w', freed)
          ≡ enqueue_or_drop out up f
              (record w { relay = record w.relay { v_local = u32 (w.relay.v_local + 1) } }))
      × (self_test_frame_ok (record f { data_buffer = record f.data_buffer { address = copy } })
          ≡ true)
unfolding produce
produce-self_test_frame_ok out up address copy p w =
    let seq = get_or p.next_seq p.stream 0 in
    (
      produced_frame address w.relay.node_id p.stream seq,
      refl,
      refl,
      produced_frame-ok address copy w.relay.node_id p.stream seq,
    )

-- The check reads four bytes: a frame that differs at any other one gets the same verdict.
pub self_test_frame_ok-set :
    (frame : Frame) (i v : ℕ)
    → frame.header.data_len ≡ self_test_frame_bytes
    → i ≢ 0
    → i ≢ 1
    → i ≢ self_test_frame_bytes / 2
    → i ≢ self_test_frame_bytes - 1
    → self_test_frame_ok (record frame {
      data_buffer = record frame.data_buffer { bytes = set frame.data_buffer.bytes i v };
    })
      ≡ self_test_frame_ok frame
unfolding self_test_frame_ok
self_test_frame_ok-set frame i v size first second middle last =
    let bytes = frame.data_buffer.bytes in
    rw
      (
        size,
        get_or-set_ne bytes i 0 v 0 first,
        get_or-set_ne bytes i 1 v 0 second,
        get_or-set_ne bytes i 4000 v 0 middle,
        get_or-set_ne bytes i 7999 v 0 last,
      )
      refl
