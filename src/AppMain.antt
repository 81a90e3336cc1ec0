-- ===== src/AppMain.antt =====
-- main/main.cpp: `app_main`, which drives the chain and the statistics of a node, on the Gateway
-- with its uplink.
pub mod LaneReading
pub mod Boot
pub mod Parts
pub mod Ends
pub mod Booted
pub mod FromPower
pub mod Inbox
pub mod Sunk
pub mod Accounting
mod Tests
use esp32_s3_rap.Base.{
  ℕ, ◌≡◌, Bool, true, false, List, [], ◌∷◌, Option, sub32, leb, ◌==◌, if◌then◌else◌,
}
use esp32_s3_rap.Base.Queue.{QueueApi}
use esp32_s3_rap.Config.{gateway_node_id, stats_log_interval_ms}
use esp32_s3_rap.Protocol.{StatusPacket}
use esp32_s3_rap.Chain.State.{Node, boot}
use esp32_s3_rap.Chain.Effects.{Effect, send, broadcast, add_peer, flush, assert_failed}
use esp32_s3_rap.Chain.Loop.{Clock, loop, init, set_lane_status}
use esp32_s3_rap.Uplink.State.{
  StatusItem, VideoItem, Buffer, Uplink, power_off, EthEvent, eth_event_handler,
}
use esp32_s3_rap.Uplink.Status
use esp32_s3_rap.Uplink.Status.{Attempt, status_round}
use esp32_s3_rap.Uplink.Video.{flush_video, video_round}
use esp32_s3_rap.Uplink.Queues.{create_queues}
use esp32_s3_rap.Uplink.Watchdog.{log_stats}

-- The globals of the chain and of the uplink, and `lastStatsMs`.
pub record Device (Q S V : Type 0) : Type 0 where
  pub chain : Node Q
  pub uplink : Uplink S V
  pub last_stats_ms : ℕ

-- What happens on a node after start-up: a round of the main loop (`now` is its own reading of the
-- clock, `stats_now` that of `logStats`), a reading that the SPI task stores, a frame of video for
-- the uplink, a round of one of the uplink's tasks, a change of the Ethernet link.
pub data Event : Type 0 where
  round : Clock → List (List ℕ × List ℕ) → (now stats_now : ℕ) → Event
  lane_reading : (stream_id occupied : ℕ) (plate : List ℕ) → Event
  video : (origin_node_id stream_id seq : ℕ) → Buffer → (data_len : ℕ) → Event
  status_rounds : Attempt → Event
  video_rounds : (ℕ → Bool) → Event
  links : EthEvent → Event

module _ (out : QueueApi StatusPacket) (readings : QueueApi StatusItem)
    (frames : QueueApi VideoItem) where
  abbrev pub Firmware : Type 0
  Firmware = Device out.Queue readings.Queue frames.Queue

  -- The chain's calls of `gateway_uplink::flush`, in order.
  unfoldable pub hand_over :
      List Effect → Uplink readings.Queue frames.Queue → Uplink readings.Queue frames.Queue
  hand_over [] u = u
  hand_over (flush node_id stream_id occupied plate ∷ calls) u =
      hand_over calls (Status.flush readings node_id stream_id occupied plate u)
  hand_over (send mac bytes ∷ calls) u = hand_over calls u
  hand_over (broadcast bytes ∷ calls) u = hand_over calls u
  hand_over (add_peer mac ∷ calls) u = hand_over calls u
  hand_over (assert_failed ∷ calls) u = hand_over calls u

  -- From `loadOrProvision` to the main loop: the Gateway sets up its uplink, where `ethernet` is
  -- whether the driver was installed; then the chain starts.
  unfoldable pub start_up : (ethernet : Bool) (now node_id chain_size : ℕ) → Firmware
  start_up ethernet now node_id chain_size =
      let (n, calls) = init out now node_id chain_size boot in
      let off : Uplink readings.Queue frames.Queue =
        if node_id == gateway_node_id
        then record (create_queues readings frames power_off) { has_driver = ethernet }
        else power_off in
      record { chain = n; uplink = hand_over calls off; last_stats_ms = 0 }

  -- The `if` of the main loop.
  unfoldable pub stats_timer : (now stats_now : ℕ) → Firmware → Firmware
  stats_timer now stats_now d =
      if leb stats_log_interval_ms (sub32 now d.last_stats_ms)
      then record d {
        last_stats_ms = now;
        uplink =
            if d.chain.node_id == gateway_node_id
            then (log_stats stats_now d.uplink).0
            else d.uplink;
      }
      else d

  unfoldable pub main_round :
      Clock → List (List ℕ × List ℕ) → (now stats_now : ℕ) → Firmware → Firmware
  unfolding hand_over stats_timer
  main_round t inbox now stats_now d =
      let (n, calls) = loop out t inbox d.chain in
      stats_timer now stats_now (record d { chain = n; uplink = hand_over calls d.uplink })

  unfoldable pub step : Event → Firmware → Firmware
  unfolding main_round
  step (round t inbox now stats_now) d = main_round t inbox now stats_now d
  step (lane_reading stream_id occupied plate) d = record d {
    chain = set_lane_status stream_id occupied plate d.chain;
  }
  step (video origin_node_id stream_id seq buffer data_len) d = record d {
    uplink = (flush_video frames origin_node_id stream_id seq buffer data_len d.uplink).0;
  }
  step (status_rounds attempt) d = record d { uplink = status_round readings attempt d.uplink }
  step (video_rounds accepts) d = record d { uplink = (video_round frames accepts d.uplink).0 }
  step (links e) d = record d { uplink = eth_event_handler e d.uplink }

  unfoldable pub run : List Event → Firmware → Firmware
  unfolding step
  run [] d = d
  run (e ∷ es) d = run es (step e d)
