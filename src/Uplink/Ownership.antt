-- ===== src/Uplink/Ownership.antt =====
-- main/gateway_uplink.cpp: the heap blocks of video frames.
use mathlib.Core.List.Perm
use mathlib.Core.List.{Perm, map-append, perm_append_comm}
use esp32_s3_rap.Base.{
  ℕ, ◌≡◌, ◌⊎◌, inl, inr, Bool, List, [], ◌∷◌, ◌++◌, Option, none, some, map, arith, append-nil,
  append_assoc, Option-cases,
}
use esp32_s3_rap.Base.Queue.{QueueApi, send_cases, receive_cases}
use esp32_s3_rap.Uplink.State.{
  VideoItem, Buffer, Uplink, EthEvent, eth_event_handler, connected, disconnected, other,
}
use esp32_s3_rap.Uplink.Video.{flush_video, video_round}

pub data Event : Type 0 where
  frame : (origin_node_id stream_id seq : ℕ) → Buffer → (data_len : ℕ) → Event
  rounds : (ℕ → Bool) → Event
  links : EthEvent → Event

-- The block that an event hands over.
abbrev pub handed : Event → List ℕ
handed (frame _ _ _ buffer _) = buffer.address ∷ []
handed (rounds _) = []
handed (links _) = []

abbrev pub all_handed : List Event → List ℕ
all_handed [] = []
all_handed (e ∷ es) = handed e ++ all_handed es

abbrev pub address_of : VideoItem → ℕ
address_of item = item.data_buffer.address

abbrev pub held_by : (api : QueueApi VideoItem) → Option api.Queue → List ℕ
held_by api none = []
held_by api (some q) = map address_of (api.contents q)

module _ {S : Type 0} (api : QueueApi VideoItem) where
  open api use {Queue, contents}

  -- The new globals and the freed blocks.
  unfoldable pub step : Event → Uplink S Queue → Uplink S Queue × List ℕ
  step (frame origin_node_id stream_id seq buffer data_len) u =
      flush_video api origin_node_id stream_id seq buffer data_len u
  step (rounds accepts) u = let (u', chunks, freed) = video_round api accepts u in (u', freed)
  step (links e) u = (eth_event_handler e u, [])

  unfoldable pub run : List Event → Uplink S Queue → Uplink S Queue × List ℕ
  unfolding step
  run [] u = (u, [])
  run (e ∷ es) u = let (u', freed) = step e u in let (u'', more) = run es u' in (u'', freed ++ more)

  abbrev held : Uplink S Queue → List ℕ
  held u = held_by api u.video_queue

  -- A frame's block is freed at once, and the queue is as it was, or it joins the queue.
  pub flush_video-cases :
      (origin_node_id stream_id seq : ℕ) (buffer : Buffer) (data_len : ℕ) (u : Uplink S Queue)
      → let out = flush_video api origin_node_id stream_id seq buffer data_len u in
        ((out.1 ≡ buffer.address ∷ []) × (held out.0 ≡ held u))
        ⊎ ((out.1 ≡ []) × (held out.0 ≡ held u ++ buffer.address ∷ []))
  unfolding flush_video
  flush_video-cases origin_node_id stream_id seq buffer data_len u =
      elim (Option-cases u.video_queue) [
        | inl e ↦ inl (ground arith, ground arith)
        | inr (q, e) ↦
            let item : VideoItem = record {
              origin_node_id = origin_node_id;
              stream_id = stream_id;
              seq = seq;
              data_len = data_len;
              data_buffer = buffer;
            } in
            ground (arith, send_cases api q item, map-append address_of (contents q) (item ∷ []))
      ]

  -- A round frees the blocks that leave the queue.
  pub video_round-frees :
      (accepts : ℕ → Bool) (u : Uplink S Queue)
      → (video_round api accepts u).2 ++ held (video_round api accepts u).0 ≡ held u
  unfolding video_round
  video_round-frees accepts u = elim (Option-cases u.video_queue) [
    | inl e ↦ ground arith
    | inr (q, e) ↦ ground (arith, receive_cases api q)
  ]

  step-perm :
      (e : Event) (u : Uplink S Queue)
      → Perm ((step e u).1 ++ held (step e u).0) (held u ++ handed e)
  unfolding step eth_event_handler
  step-perm (frame origin_node_id stream_id seq buffer data_len) u =
      elim (flush_video-cases origin_node_id stream_id seq buffer data_len u) [
        | inl (f, h) ↦ rw (f, h) (perm_append_comm (buffer.address ∷ []) (held u))
        | inr (f, h) ↦ rw (f, h) (Perm.refl _)
      ]
  step-perm (rounds accepts) u = rw (video_round-frees accepts u, append-nil (held u)) (Perm.refl _)
  step-perm (links connected) u = rw (append-nil (held u)) (Perm.refl _)
  step-perm (links disconnected) u = rw (append-nil (held u)) (Perm.refl _)
  step-perm (links other) u = rw (append-nil (held u)) (Perm.refl _)

  -- Whatever frames, rounds of the video task and link changes follow one another, the blocks freed
  -- and those still queued are, each as often, those queued before and those handed over: no block
  -- is freed twice, and none is lost.
  pub run-perm :
      (events : List Event) (u : Uplink S Queue)
      → Perm
          ((run events u).1 ++ held_by api (run events u).0.video_queue)
          (held_by api u.video_queue ++ all_handed events)
  unfolding run
  run-perm [] u = rw (append-nil (held u)) (Perm.refl _)
  run-perm (e ∷ es) u =
      let u' = (step e u).0 in
      let freed = (step e u).1 in
      let rest = run-perm es u' in
      let first = Perm.append_right (all_handed es) (step-perm e u) in
      rw (append_assoc freed (run es u').1 (held (run es u').0)) (
        Perm.trans (Perm.append_left freed rest) (
          rw
            (
              append_assoc freed (held u') (all_handed es),
              append_assoc (held u) (handed e) (all_handed es),
            )
            at first))
