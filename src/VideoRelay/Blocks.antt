-- ===== src/VideoRelay/Blocks.antt =====
-- main/video_relay.cpp and main/gateway_uplink.cpp: where the heap blocks of frames are on one node.
use mathlib.Core.List.Perm
use mathlib.Core.List.{Perm, map-append, perm_append_comm}
use esp32_s3_rap.Base.{
  ℕ, ◌≡◌, refl, sym, ap, ◌∙◌, ◌⊎◌, inl, inr, Bool, true, false, List, [], ◌∷◌, ◌++◌, Option, none,
  some, map, append_assoc, u32, ◌+◌,
}
use esp32_s3_rap.Base.Queue.{QueueApi, send_cases}
use esp32_s3_rap.Base.Socket.{SendApi}
use esp32_s3_rap.Uplink.State.{VideoItem, Buffer, EthEvent, eth_event_handler}
use esp32_s3_rap.Uplink.Video.{video_round}
use esp32_s3_rap.Uplink.Ownership.{held_by, flush_video-cases}
use esp32_s3_rap.VideoRelay.State.{Frame}
use esp32_s3_rap.VideoRelay.Frames.{Globals, sink_frame, enqueue_or_drop, on_luckfox_frame}
use esp32_s3_rap.VideoRelay.Server.{
  Reading, closed, keepalive, skipped, cut, framed, handle_reading,
}
use esp32_s3_rap.VideoRelay.Client.{client_round}

-- What happens to frames on a node: one comes from the LuckFox, the server has read something, the
-- client or the uplink's task makes a round, or the Ethernet link changes.
pub data Event (C : Type 0) : Type 0 where
  produced : (stream_id seq : ℕ) → Buffer → (len : ℕ) → Event C
  arrived : Reading → Event C
  sends : C → Event C
  uplinks : (ℕ → Bool) → Event C
  links : EthEvent → Event C

-- The block that an event brings: the LuckFox's, or the one that the server allocated.
abbrev pub brought : {C : Type 0} → Event C → List ℕ
brought (produced stream_id seq buffer len) = buffer.address ∷ []
brought (arrived closed) = []
brought (arrived keepalive) = []
brought (arrived skipped) = []
brought (arrived (cut address)) = address ∷ []
brought (arrived (framed frame)) = frame.data_buffer.address ∷ []
brought (sends c) = []
brought (uplinks accepts) = []
brought (links e) = []

abbrev pub all_brought : {C : Type 0} → List (Event C) → List ℕ
all_brought [] = []
all_brought (e ∷ es) = brought e ++ all_brought es

abbrev pub frame_address : Frame → ℕ
frame_address frame = frame.data_buffer.address

abbrev pub queued_by : (out : QueueApi Frame) → Option out.Queue → List ℕ
queued_by out none = []
queued_by out (some q) = map frame_address (out.contents q)

module _ {S : Type 0} (net : SendApi) (out : QueueApi Frame) (up : QueueApi VideoItem) where
  -- The new globals and the freed blocks.
  unfoldable pub step : Event net.Conn → Globals out up S → Globals out up S × List ℕ
  step (produced stream_id seq buffer len) w = on_luckfox_frame out up stream_id seq buffer len w
  step (arrived reading) w = let (more, w', freed) = handle_reading out up reading w in (w', freed)
  step (sends c) w =
      let (ok, d, relay, freed) = client_round net out c w.relay in
      (record w { relay = relay }, freed)
  step (uplinks accepts) w =
      let (uplink, chunks, freed) = video_round up accepts w.uplink in
      (record w { uplink = uplink }, freed)
  step (links e) w = (record w { uplink = eth_event_handler e w.uplink }, [])

  unfoldable pub run : List (Event net.Conn) → Globals out up S → Globals out up S × List ℕ
  unfolding step
  run [] w = (w, [])
  run (e ∷ es) w = let (w', freed) = step e w in let (w'', more) = run es w' in (w'', freed ++ more)

  abbrev pub held : Globals out up S → List ℕ
  held w = queued_by out w.relay.out_queue ++ held_by up w.uplink.video_queue

  -- The Gateway, or a relay with its queue.
  abbrev pub IsReady : Globals out up S → Type 0
  IsReady w =
      (w.relay.is_gateway ≡ true)
      ⊎ ((w.relay.is_gateway ≡ false) × (q : out.Queue) × (w.relay.out_queue ≡ some q))

  -- A frame's block is freed, or it joins the node's queue or the uplink's.
  abbrev pub Places : ℕ → Globals out up S → Globals out up S × List ℕ → Type 0
  Places address w result =
      ((result.1 ≡ address ∷ []) × (held result.0 ≡ held w))
      ⊎ ((result.1 ≡ [])
          × (held result.0
              ≡ (queued_by out w.relay.out_queue ++ address ∷ [])
                ++ held_by up w.uplink.video_queue))
      ⊎ ((result.1 ≡ []) × (held result.0 ≡ held w ++ address ∷ []))

  sink_frame-Places :
      (frame : Frame) (w : Globals out up S)
      → Places frame.data_buffer.address w (sink_frame out up frame w)
  unfolding sink_frame
  sink_frame-Places frame w =
      let h = frame.header in
      elim (flush_video-cases {S = S} up h.origin_node_id h.stream_id h.seq frame.data_buffer
        h.data_len w.uplink) [
          | inl (freed, same) ↦ inl (freed, ap (λ l. queued_by out w.relay.out_queue ++ l) same)
          | inr (kept, joined) ↦ inr (
              inr (
                kept,
                ap (λ l. queued_by out w.relay.out_queue ++ l) joined
                    ∙ sym (
                        append_assoc (queued_by out w.relay.out_queue)
                          (held_by up w.uplink.video_queue) (frame.data_buffer.address ∷ [])),
              ))
        ]

  pub enqueue_gateway :
      (frame : Frame) (w : Globals out up S)
      → w.relay.is_gateway ≡ true
      → enqueue_or_drop out up frame w ≡ sink_frame out up frame w
  unfolding enqueue_or_drop
  enqueue_gateway frame w gateway = simp gateway

  pub enqueue_relay :
      (frame : Frame) (q : out.Queue) (w : Globals out up S)
      → w.relay.is_gateway ≡ false
      → w.relay.out_queue ≡ some q
      → enqueue_or_drop out up frame w ≡ (elim (out.send q frame) [
        | none ↦ (
          record w { relay = record w.relay { v_drop = u32 (w.relay.v_drop + 1) } },
          frame.data_buffer.address ∷ [],
        )
        | some r ↦ (record w { relay = record w.relay { out_queue = some r } }, [])
      ])
  unfolding enqueue_or_drop
  enqueue_relay frame q w relay has = simp (relay, has)

  pub enqueue_or_drop-Places :
      (frame : Frame) (w : Globals out up S)
      → IsReady w
      → Places frame.data_buffer.address w (enqueue_or_drop out up frame w)
  enqueue_or_drop-Places frame w (inl gateway) =
      rw (enqueue_gateway frame w gateway) (sink_frame-Places frame w)
  enqueue_or_drop-Places frame w (inr (relay, q, has)) = elim (send_cases out q frame) [
    | inl (full, refused) ↦ rw (enqueue_relay frame q w relay has, refused) (inl (refl, refl))
    | inr (r, room, sent, now, same) ↦
        let joined =
          ap (map frame_address) now ∙ map-append frame_address (out.contents q) (frame ∷ []) in
        rw (enqueue_relay frame q w relay has, sent)
          (inr (inl (refl, ap (λ l. l ++ held_by up w.uplink.video_queue) (rw has joined))))
  ]

  pub Places-perm :
      (address : ℕ) (w : Globals out up S) (result : Globals out up S × List ℕ)
      → Places address w result
      → Perm (result.1 ++ held result.0) (held w ++ address ∷ [])
  Places-perm address w result (inl (freed, same)) =
      rw (freed, same) (perm_append_comm (address ∷ []) (held w))
  Places-perm address w result (inr (inl (kept, joined))) =
      let mine = queued_by out w.relay.out_queue in
      let theirs = held_by up w.uplink.video_queue in
      rw
        (
          kept,
          joined,
          append_assoc mine (address ∷ []) theirs,
          append_assoc mine theirs (address ∷ []),
        )
        (Perm.append_left mine (perm_append_comm (address ∷ []) theirs))
  Places-perm address w result (inr (inr (kept, joined))) = rw (kept, joined) (Perm.refl _)
