-- ===== src/AppMain/Accounting.antt =====
-- main/main.cpp: the readings of the whole chain, from the Gateway's `handleStatus` and its own lanes
-- to the counters of its uplink.
use esp32_s3_rap.Base.{
  ℕ, suc, ◌+◌, ◌%◌, ◌^◌, ◌≡◌, refl, sym, ◌∙◌, Bool, List, [], ◌∷◌, some, arith, if_cases, ◌==◌, leb,
  sub32,
}
use esp32_s3_rap.Base.Queue.{QueueApi}
use esp32_s3_rap.Config.{gateway_node_id, status_uplink_queue_depth, stats_log_interval_ms}
use esp32_s3_rap.Protocol.{StatusPacket}
use esp32_s3_rap.Chain.State.{configure}
use esp32_s3_rap.Chain.Effects.{Effect, send, broadcast, add_peer, flush, assert_failed}
use esp32_s3_rap.Chain.Handlers.{broadcast_hello}
use esp32_s3_rap.Chain.Hop.{count_flushes}
use esp32_s3_rap.Chain.Loop.{loop, init, set_lane_status}
use esp32_s3_rap.Uplink.State.{StatusItem, VideoItem, Buffer, Uplink}
use esp32_s3_rap.Uplink.Status
use esp32_s3_rap.Uplink.Video.{flush_video, video_round}
use esp32_s3_rap.Uplink.Queues.{create_queues}
use esp32_s3_rap.Uplink.Watchdog.{log_stats}
use esp32_s3_rap.Uplink.Counted.{
  IsCounted, waiting, flush-IsCounted, round-IsCounted, link-IsCounted,
}
use esp32_s3_rap.AppMain.{
  Firmware, Event, round, lane_reading, video, status_rounds, video_rounds, links, hand_over,
  start_up, stats_timer, main_round, step, run,
}
use esp32_s3_rap.AppMain.Sunk.{loop-Sinks}

module _ (out : QueueApi StatusPacket) (readings : QueueApi StatusItem)
    (frames : QueueApi VideoItem) where
  -- The uplink's counters account for the chain's.
  abbrev pub IsAccounted : Firmware out readings frames → Type 0
  IsAccounted d = IsCounted readings d.chain.stat_sunk d.uplink

  -- The count is one of `uint32_t`.
  recount :
      (k m : ℕ) (u : Uplink readings.Queue frames.Queue)
      → k % 2 ^ 32 ≡ m % 2 ^ 32
      → IsCounted readings k u
      → IsCounted readings m u
  recount k m u same (q, e, fits, count) = (q, e, fits, count ∙ same)

  hand_over-IsCounted :
      (k : ℕ) (calls : List Effect) (u : Uplink readings.Queue frames.Queue)
      → IsCounted readings k u
      → IsCounted readings (k + count_flushes calls) (hand_over out readings frames calls u)
  unfolding hand_over count_flushes
  hand_over-IsCounted k [] u c = let same : k + 0 ≡ k = omega arith in rw same c
  hand_over-IsCounted k (flush node_id stream_id occupied plate ∷ calls) u c =
      let sum : k + suc (count_flushes calls) ≡ suc k + count_flushes calls = omega arith in
      rw sum (
        hand_over-IsCounted (suc k) calls (Status.flush readings node_id stream_id occupied plate u)
          (flush-IsCounted readings k node_id stream_id occupied plate u c))
  hand_over-IsCounted k (send mac bytes ∷ calls) u c = hand_over-IsCounted k calls u c
  hand_over-IsCounted k (broadcast bytes ∷ calls) u c = hand_over-IsCounted k calls u c
  hand_over-IsCounted k (add_peer mac ∷ calls) u c = hand_over-IsCounted k calls u c
  hand_over-IsCounted k (assert_failed ∷ calls) u c = hand_over-IsCounted k calls u c

  log_stats-IsCounted :
      (k now : ℕ) (u : Uplink readings.Queue frames.Queue)
      → IsCounted readings k u
      → IsCounted readings k (log_stats now u).0
  unfolding log_stats
  log_stats-IsCounted k now u (q, e, fits, count) = (q, ground arith, fits, ground arith)

  stats_timer-IsAccounted :
      (now stats_now : ℕ) (d : Firmware out readings frames)
      → IsAccounted d
      → IsAccounted (stats_timer out readings frames now stats_now d)
  unfolding stats_timer
  stats_timer-IsAccounted now stats_now d c =
      if_cases IsAccounted (leb stats_log_interval_ms (sub32 now d.last_stats_ms))
        (λ due.
          if_cases {A = Uplink readings.Queue frames.Queue} (IsCounted readings d.chain.stat_sunk)
            (d.chain.node_id == gateway_node_id)
            (λ _. log_stats-IsCounted d.chain.stat_sunk stats_now d.uplink c) (λ _. c))
        (λ early. c)

  video-IsCounted :
      (k origin_node_id stream_id seq : ℕ) (buffer : Buffer) (data_len : ℕ)
      (u : Uplink readings.Queue frames.Queue)
      → IsCounted readings k u
      → IsCounted readings k (flush_video frames origin_node_id stream_id seq buffer data_len u).0
  unfolding flush_video
  video-IsCounted k origin_node_id stream_id seq buffer data_len u (q, e, fits, count) =
      (q, ground arith, fits, ground arith)

  video_round-IsCounted :
      (k : ℕ) (accepts : ℕ → Bool) (u : Uplink readings.Queue frames.Queue)
      → IsCounted readings k u
      → IsCounted readings k (video_round frames accepts u).0
  unfolding video_round
  video_round-IsCounted k accepts u (q, e, fits, count) = (q, ground arith, fits, ground arith)

  step-IsAccounted :
      (e : Event) (d : Firmware out readings frames)
      → IsAccounted d
      → IsAccounted (step out readings frames e d)
  unfolding step main_round set_lane_status
  step-IsAccounted (round t inbox now stats_now) d c =
      let (n, calls) = loop out t inbox d.chain in
      let counted = hand_over-IsCounted d.chain.stat_sunk calls d.uplink c in
      let u = hand_over out readings frames calls d.uplink in
      stats_timer-IsAccounted now stats_now (record d { chain = n; uplink = u })
        (recount (d.chain.stat_sunk + count_flushes calls) n.stat_sunk u
          (sym (loop-Sinks out t inbox d.chain)) counted)
  step-IsAccounted (lane_reading stream_id occupied plate) d c = ground arith
  step-IsAccounted (video origin_node_id stream_id seq buffer data_len) d c =
      video-IsCounted d.chain.stat_sunk origin_node_id stream_id seq buffer data_len d.uplink c
  step-IsAccounted (status_rounds attempt) d c =
      round-IsCounted readings d.chain.stat_sunk attempt d.uplink c
  step-IsAccounted (video_rounds accepts) d c =
      video_round-IsCounted d.chain.stat_sunk accepts d.uplink c
  step-IsAccounted (links e) d c = link-IsCounted readings d.chain.stat_sunk e d.uplink c

  run-IsAccounted :
      (events : List Event) (d : Firmware out readings frames)
      → IsAccounted d
      → IsAccounted (run out readings frames events d)
  unfolding run
  run-IsAccounted [] d c = c
  run-IsAccounted (e ∷ es) d c =
      run-IsAccounted es (step out readings frames e d) (step-IsAccounted e d c)

  start_up-IsAccounted :
      (ethernet : Bool) (now chain_size : ℕ) (q : readings.Queue)
      → readings.create status_uplink_queue_depth ≡ some q
      → IsAccounted (start_up out readings frames ethernet now gateway_node_id chain_size)
  unfolding start_up create_queues init broadcast_hello configure hand_over
  start_up-IsAccounted ethernet now chain_size q e =
      let (empty, deep) = readings.create_empty status_uplink_queue_depth q e in
      (q, e, rw empty tt, rw empty refl)

  -- If the queue of readings can be created when the Gateway starts: whatever rounds of the main loop,
  -- received bytes, lane readings, frames of video, rounds of the uplink's tasks and changes of the
  -- link follow, every reading that the chain counts as having reached the Gateway is counted by the
  -- uplink as sent or dropped, or waits in its queue, and nothing else is (modulo 2^32).
  pub run-accounts :
      (ethernet : Bool) (now chain_size : ℕ) (events : List Event) (q : readings.Queue)
      → readings.create status_uplink_queue_depth ≡ some q
      → let d =
          run out readings frames events
            (start_up out readings frames ethernet now gateway_node_id chain_size) in
        (d.uplink.st_sent + d.uplink.st_dropped + waiting readings d.uplink.status_queue) % 2 ^ 32
        ≡ d.chain.stat_sunk % 2 ^ 32
  run-accounts ethernet now chain_size events q e =
      let start = start_up out readings frames ethernet now gateway_node_id chain_size in
      let (r, has, fits, count) =
        run-IsAccounted events start (start_up-IsAccounted ethernet now chain_size q e) in
      rw has count
