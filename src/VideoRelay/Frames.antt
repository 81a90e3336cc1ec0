-- ===== src/VideoRelay/Frames.antt =====
-- main/video_relay.cpp: where a frame goes, `sinkFrame`, `enqueueOrDrop` and `onLuckfoxFrame`, and
-- the self-test's frames.
use esp32_s3_rap.Base.{
  ℕ, ◌+◌, ◌-◌, ◌*◌, ◌/◌, Bool, not, ◌&&◌, List, [], ◌∷◌, none, some, get_or, u8, u32, ◌==◌,
  if◌then◌else◌,
}
use esp32_s3_rap.Base.Queue.{QueueApi}
use esp32_s3_rap.Config.{chain_self_test, self_test_frame_bytes}
use esp32_s3_rap.Uplink.State.{Buffer, Uplink, VideoItem}
use esp32_s3_rap.Uplink.Video.{flush_video}
use esp32_s3_rap.VideoRelay.State.{FrameHeader, Frame, Relay}

unfoldable pub self_test_byte : ℕ → ℕ → ℕ → ℕ → ℕ
self_test_byte origin stream seq i = u8 (seq + stream * 17 + origin * 3 + i * 7)

-- Whether byte `i` of the frame is what the self-test put there.
abbrev pub byte_ok : Frame → ℕ → Bool
byte_ok frame i =
    let h = frame.header in
    get_or frame.data_buffer.bytes i 0 == self_test_byte h.origin_node_id h.stream_id h.seq i

unfoldable pub self_test_frame_ok : Frame → Bool
self_test_frame_ok frame =
    let len = frame.header.data_len in
    len == self_test_frame_bytes
    && (byte_ok frame 0
        && (byte_ok frame 1 && (byte_ok frame (len / 2) && byte_ok frame (len - 1))))

-- The relay's globals and those of the uplink that it hands frames to.
pub record World (Q S V : Type 0) : Type 0 where
  pub relay : Relay Q
  pub uplink : Uplink S V

-- With the relay's queue and the uplink's queue of frames.
abbrev pub Globals : QueueApi Frame → QueueApi VideoItem → Type 0 → Type 0
Globals out up S = World out.Queue S up.Queue

module _ {S : Type 0} (out : QueueApi Frame) (up : QueueApi VideoItem) where
  -- Each of these gives the new globals and the heap blocks that were freed.
  unfoldable pub sink_frame : Frame → Globals out up S → Globals out up S × List ℕ
  sink_frame frame w =
      let relay = record w.relay {
        v_sunk = u32 (w.relay.v_sunk + 1);
        v_bad =
            if chain_self_test && not (self_test_frame_ok frame)
            then u32 (w.relay.v_bad + 1)
            else w.relay.v_bad;
      } in
      let h = frame.header in
      let (uplink, freed) =
        flush_video up h.origin_node_id h.stream_id h.seq frame.data_buffer h.data_len w.uplink in
      (record { relay = relay; uplink = uplink }, freed)

  -- A relay's queue, when `xQueueSend` has waited its 50 ms; it asserts on a null handle.
  unfoldable pub enqueue_or_drop : Frame → Globals out up S → Globals out up S × List ℕ
  enqueue_or_drop frame w =
      if w.relay.is_gateway then sink_frame frame w else elim w.relay.out_queue [
        | none ↦ (w, [])
        | some q ↦ (elim (out.send q frame) [
          | none ↦ (
            record w { relay = record w.relay { v_drop = u32 (w.relay.v_drop + 1) } },
            frame.data_buffer.address ∷ [],
          )
          | some r ↦ (record w { relay = record w.relay { out_queue = some r } }, [])
        ])
      ]

  unfoldable pub on_luckfox_frame :
      ℕ → ℕ → Buffer → ℕ → Globals out up S → Globals out up S × List ℕ
  unfolding enqueue_or_drop
  on_luckfox_frame stream_id seq buffer len w =
      let header : FrameHeader = record {
        origin_node_id = w.relay.node_id;
        stream_id = stream_id;
        seq = seq;
        data_len = len;
      } in
      enqueue_or_drop (record { header = header; data_buffer = buffer })
        (record w { relay = record w.relay { v_local = u32 (w.relay.v_local + 1) } })
