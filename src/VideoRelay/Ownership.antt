-- ===== src/VideoRelay/Ownership.antt =====
-- main/video_relay.cpp and main/gateway_uplink.cpp: no block of a frame is lost or freed twice.
use mathlib.Core.List.Perm
use mathlib.Core.List.{Perm, perm_append_comm}
use esp32_s3_rap.Base.{
  ℕ, ◌≡◌, refl, sym, ◌∙◌, inl, inr, List, [], ◌∷◌, ◌++◌, some, arith, append-nil, append_assoc,
  Option-cases, u32, ◌+◌,
}
use esp32_s3_rap.Base.Queue.{QueueApi, send_cases, receive_cases}
use esp32_s3_rap.Base.Socket.{SendApi}
use esp32_s3_rap.Uplink.State.{VideoItem, eth_event_handler, connected, disconnected, other}
use esp32_s3_rap.Uplink.Video.{video_round}
use esp32_s3_rap.Uplink.Ownership.{held_by, video_round-frees}
use esp32_s3_rap.VideoRelay.State.{Frame, Relay}
use esp32_s3_rap.VideoRelay.Frames.{Globals, sink_frame, enqueue_or_drop, on_luckfox_frame}
use esp32_s3_rap.VideoRelay.Server.{closed, keepalive, skipped, cut, framed, handle_reading}
use esp32_s3_rap.VideoRelay.Client.{client_round}
use esp32_s3_rap.VideoRelay.Blocks.{
  Event, produced, arrived, sends, uplinks, links, brought, all_brought, queued_by, step, run, held,
  IsReady, Places-perm, enqueue_or_drop-Places, enqueue_gateway, enqueue_relay,
}

-- A round of the client frees the block of the frame that leaves the queue.
pub client_round-frees :
    (net : SendApi) (out : QueueApi Frame) (c : net.Conn) (relay : Relay out.Queue)
    → (client_round net out c relay).3 ++ queued_by out (client_round net out c relay).2.out_queue
      ≡ queued_by out relay.out_queue
unfolding client_round
client_round-frees net out c relay = elim (Option-cases relay.out_queue) [
  | inl e ↦ ground arith
  | inr (q, e) ↦ ground (arith, receive_cases out q)
]

client_round_role :
    (net : SendApi) (out : QueueApi Frame) (c : net.Conn) (relay : Relay out.Queue)
    → (client_round net out c relay).2.is_gateway ≡ relay.is_gateway
unfolding client_round
client_round_role net out c relay = elim (Option-cases relay.out_queue) [
  | inl e ↦ ground arith
  | inr (q, e) ↦ ground (arith, receive_cases out q)
]

pub client_round_queue :
    (net : SendApi) (out : QueueApi Frame) (c : net.Conn) (q : out.Queue) (relay : Relay out.Queue)
    → relay.out_queue ≡ some q
    → (r : out.Queue) × ((client_round net out c relay).2.out_queue ≡ some r)
unfolding client_round
client_round_queue net out c q relay has = elim (receive_cases out q) [
  | inl (empty, nothing) ↦ (q, rw (client_round, has, nothing) has)
  | inr (frame, r, front, took, same) ↦ (r, ground arith)
]

uplinks-perm :
    (mine freed theirs before : List ℕ)
    → freed ++ theirs ≡ before
    → Perm (freed ++ (mine ++ theirs)) (mine ++ before)
uplinks-perm mine freed theirs before e =
    rw (sym e, sym (append_assoc freed mine theirs), sym (append_assoc mine freed theirs))
      (Perm.append_right theirs (perm_append_comm freed mine))

module _ {S : Type 0} (net : SendApi) (out : QueueApi Frame) (up : QueueApi VideoItem) where
  step-perm :
      (e : Event net.Conn) (w : Globals out up S)
      → IsReady net out up w
      → Perm
          ((step net out up e w).1 ++ held net out up (step net out up e w).0)
          (held net out up w ++ brought e)
  unfolding step on_luckfox_frame handle_reading eth_event_handler
  step-perm (produced stream_id seq buffer len) w ready =
      let counted = record w { relay = record w.relay { v_local = u32 (w.relay.v_local + 1) } } in
      let frame : Frame = record {
        header = record {
          origin_node_id = w.relay.node_id;
          stream_id = stream_id;
          seq = seq;
          data_len = len;
        };
        data_buffer = buffer;
      } in
      Places-perm net out up buffer.address counted (enqueue_or_drop out up frame counted)
        (enqueue_or_drop-Places net out up frame counted ready)
  step-perm (arrived closed) w ready = rw (append-nil (held net out up w)) (Perm.refl _)
  step-perm (arrived keepalive) w ready = rw (append-nil (held net out up w)) (Perm.refl _)
  step-perm (arrived skipped) w ready = rw (append-nil (held net out up w)) (Perm.refl _)
  step-perm (arrived (cut address)) w ready = perm_append_comm (address ∷ []) (held net out up w)
  step-perm (arrived (framed frame)) w ready =
      let counted = record w { relay = record w.relay { v_in = u32 (w.relay.v_in + 1) } } in
      Places-perm net out up frame.data_buffer.address counted
        (enqueue_or_drop out up frame counted)
        (enqueue_or_drop-Places net out up frame counted ready)
  step-perm (sends c) w ready =
      let theirs = held_by up w.uplink.video_queue in
      let r = client_round net out c w.relay in
      rw
        (
          append-nil (held net out up w),
          sym (append_assoc r.3 (queued_by out r.2.out_queue) theirs),
          client_round-frees net out c w.relay,
        )
        (Perm.refl _)
  step-perm (uplinks accepts) w ready =
      let r = video_round up accepts w.uplink in
      rw (append-nil (held net out up w)) (
        uplinks-perm (queued_by out w.relay.out_queue) r.2 (held_by up r.0.video_queue)
          (held_by up w.uplink.video_queue) (video_round-frees up accepts w.uplink))
  step-perm (links connected) w ready = rw (append-nil (held net out up w)) (Perm.refl _)
  step-perm (links disconnected) w ready = rw (append-nil (held net out up w)) (Perm.refl _)
  step-perm (links other) w ready = rw (append-nil (held net out up w)) (Perm.refl _)

  sink_frame_role :
      (frame : Frame) (w : Globals out up S)
      → (sink_frame out up frame w).0.relay.is_gateway ≡ w.relay.is_gateway
  unfolding sink_frame
  sink_frame_role frame w = refl

  enqueue_or_drop-IsReady :
      (frame : Frame) (w : Globals out up S)
      → IsReady net out up w
      → IsReady net out up (enqueue_or_drop out up frame w).0
  enqueue_or_drop-IsReady frame w (inl gateway) =
      rw (enqueue_gateway net out up frame w gateway) (inl (sink_frame_role frame w ∙ gateway))
  enqueue_or_drop-IsReady frame w (inr (relay, q, has)) = elim (send_cases out q frame) [
    | inl (full, refused) ↦
        rw (enqueue_relay net out up frame q w relay has, refused) (inr (relay, q, has))
    | inr (r, room, sent, now, same) ↦
        rw (enqueue_relay net out up frame q w relay has, sent) (inr (relay, r, refl))
  ]

  step-IsReady :
      (e : Event net.Conn) (w : Globals out up S)
      → IsReady net out up w
      → IsReady net out up (step net out up e w).0
  unfolding step on_luckfox_frame handle_reading
  step-IsReady (produced stream_id seq buffer len) w ready = enqueue_or_drop-IsReady _ _ ready
  step-IsReady (arrived closed) w ready = ready
  step-IsReady (arrived keepalive) w ready = ready
  step-IsReady (arrived skipped) w ready = ready
  step-IsReady (arrived (cut address)) w ready = ready
  step-IsReady (arrived (framed frame)) w ready = enqueue_or_drop-IsReady _ _ ready
  step-IsReady (sends c) w (inl gateway) = inl (client_round_role net out c w.relay ∙ gateway)
  step-IsReady (sends c) w (inr (relay, q, has)) =
      let (r, has') = client_round_queue net out c q w.relay has in
      inr (client_round_role net out c w.relay ∙ relay, r, has')
  step-IsReady (uplinks accepts) w ready = ready
  step-IsReady (links e) w ready = ready

  -- On the Gateway, or a relay with its queue: however frames from the LuckFox, readings of the
  -- server, rounds of the client and of the uplink's task, and link changes follow one another, the
  -- blocks freed and those still in a queue are, each as often, those queued before and those that
  -- were brought. No block is freed twice, and none is lost.
  pub run-brought :
      (events : List (Event net.Conn)) (w : Globals out up S)
      → IsReady net out up w
      → Perm
          ((run net out up events w).1 ++ held net out up (run net out up events w).0)
          (held net out up w ++ all_brought events)
  unfolding run
  run-brought [] w ready = rw (append-nil (held net out up w)) (Perm.refl _)
  run-brought (e ∷ es) w ready =
      let w' = (step net out up e w).0 in
      let freed = (step net out up e w).1 in
      let rest = run-brought es w' (step-IsReady e w ready) in
      let first = Perm.append_right (all_brought es) (step-perm e w ready) in
      rw (append_assoc freed (run net out up es w').1 (held net out up (run net out up es w').0)) (
        Perm.trans (Perm.append_left freed rest) (
          rw
            (
              append_assoc freed (held net out up w') (all_brought es),
              append_assoc (held net out up w) (brought e) (all_brought es),
            )
            at first))
