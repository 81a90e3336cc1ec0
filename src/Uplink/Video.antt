-- ===== src/Uplink/Video.antt =====
-- main/gateway_uplink.cpp: `flushVideo` and `videoUplinkTask`.
use esp32_s3_rap.Base.{
  ℕ, zero, suc, ◌+◌, ◌-◌, ◌*◌, ◌/◌, Bool, true, false, List, [], ◌∷◌, ◌++◌, none, some, u16, u32,
  sub32, le16, min, ◌==◌, if◌then◌else◌, take, drop,
}
use esp32_s3_rap.Base.Queue.{QueueApi}
use esp32_s3_rap.Config.{video_udp_chunk_bytes}
use esp32_s3_rap.Uplink.State.{VideoItem, Buffer, Uplink}

-- The payload of one datagram, and its `VideoChunkHeader`.
pub record Chunk : Type 0 where
  pub origin_node_id : ℕ
  pub stream_id : ℕ
  pub seq : ℕ
  pub chunk_index : ℕ
  pub chunk_count : ℕ
  pub payload : List ℕ

unfoldable pub encode_chunk : Chunk → List ℕ
encode_chunk c =
    c.origin_node_id
    ∷ c.stream_id
    ∷ (le16 c.seq ++ (le16 c.chunk_index ++ (le16 c.chunk_count ++ c.payload)))

-- At least one chunk, also for an empty frame.
unfoldable pub chunk_count : ℕ → ℕ
chunk_count data_len =
    let count = u16 (u32 (data_len + video_udp_chunk_bytes - 1) / video_udp_chunk_bytes) in
    if count == 0 then 1 else count

unfoldable pub chunk_payload : VideoItem → ℕ → List ℕ
chunk_payload item i =
    let offset = i * video_udp_chunk_bytes in
    take (min video_udp_chunk_bytes (sub32 item.data_len offset))
      (drop offset item.data_buffer.bytes)

abbrev pub chunk : VideoItem → ℕ → Chunk
chunk item i = record {
  origin_node_id = item.origin_node_id;
  stream_id = item.stream_id;
  seq = item.seq;
  chunk_index = i;
  chunk_count = chunk_count item.data_len;
  payload = chunk_payload item i;
}

-- The loop over the chunks, with `rounds` left from `i` on. `accepts i` is whether `send` took the
-- datagram of chunk `i`; the first failure ends the loop. The result is the chunks that were sent,
-- and whether all were.
unfoldable pub send_chunks : (ℕ → Bool) → VideoItem → ℕ → ℕ → List Chunk × Bool
send_chunks accepts item zero i = ([], true)
send_chunks accepts item (suc rounds) i = elim (accepts i) [
  | true ↦
      let (rest, whole) = send_chunks accepts item rounds (i + 1) in (chunk item i ∷ rest, whole)
  | false ↦ ([], false)
]

-- The frame of one round of `videoUplinkTask`.
unfoldable pub send_frame : (ℕ → Bool) → VideoItem → List Chunk × Bool
unfolding send_chunks
send_frame accepts item = send_chunks accepts item (chunk_count item.data_len) 0

module _ {S : Type 0} (api : QueueApi VideoItem) where
  open api use {Queue}

  -- The new globals, and the heap blocks that were freed.
  unfoldable pub flush_video : ℕ → ℕ → ℕ → Buffer → ℕ → Uplink S Queue → Uplink S Queue × List ℕ
  flush_video origin_node_id stream_id seq buffer data_len u = elim u.video_queue [
    | none ↦ (record u { vid_dropped = u32 (u.vid_dropped + 1) }, buffer.address ∷ [])
    | some q ↦
        if u.link_up
        then (elim (api.send q (record {
          origin_node_id = origin_node_id;
          stream_id = stream_id;
          seq = seq;
          data_len = data_len;
          data_buffer = buffer;
        })) [
          | none ↦ (record u { vid_dropped = u32 (u.vid_dropped + 1) }, buffer.address ∷ [])
          | some r ↦ (record u { video_queue = some r; vid_queued = u32 (u.vid_queued + 1) }, [])
        ])
        else (record u { vid_dropped = u32 (u.vid_dropped + 1) }, buffer.address ∷ [])
  ]

  -- One round of `videoUplinkTask`: the new globals, the chunks sent, and the blocks freed.
  unfoldable pub video_round : (ℕ → Bool) → Uplink S Queue → Uplink S Queue × List Chunk × List ℕ
  video_round accepts u = elim u.video_queue [
    | none ↦ (u, [], [])
    | some q ↦ (elim (api.receive q) [
      | none ↦ (u, [], [])
      | some (item, r) ↦
          if u.link_up
          then (let (chunks, whole) = send_frame accepts item in
              (
                if whole
                    then record u { video_queue = some r; vid_sent = u32 (u.vid_sent + 1) }
                    else record u { video_queue = some r; vid_dropped = u32 (u.vid_dropped + 1) },
                chunks,
                item.data_buffer.address ∷ [],
              ))
          else (
            record u { video_queue = some r; vid_dropped = u32 (u.vid_dropped + 1) },
            [],
            item.data_buffer.address ∷ [],
          )
    ])
  ]
