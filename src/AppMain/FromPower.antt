-- ===== src/AppMain/FromPower.antt =====
-- main/main.cpp: a Gateway from power-on to its main loop and on.
use esp32_s3_rap.Base.{
  ℕ, ◌+◌, ◌%◌, ◌^◌, ◌≡◌, refl, ◌∙◌, Bool, true, List, some, ◌&&◌, is_some, inl, inr,
}
use esp32_s3_rap.Base.Queue.{QueueApi}
use esp32_s3_rap.Config.{gateway_node_id, status_uplink_queue_depth}
use esp32_s3_rap.Protocol.{StatusPacket}
use esp32_s3_rap.Provisioning.{returned, load_or_provision}
use esp32_s3_rap.Drivers.Order.{Board}
use esp32_s3_rap.EspNow.{RxItem, rx_queue_depth}
use esp32_s3_rap.EspNow.Peers.{PeerApi}
use esp32_s3_rap.EspNow.Started.{esp_now_up}
use esp32_s3_rap.Uplink.State.{StatusItem, VideoItem}
use esp32_s3_rap.Uplink.Started.{driver_up}
use esp32_s3_rap.Uplink.Counted.{waiting}
use esp32_s3_rap.VideoRelay.State.{Frame}
use esp32_s3_rap.AppMain.{Event, start_up, run}
use esp32_s3_rap.AppMain.Accounting.{run-accounts}
use esp32_s3_rap.AppMain.Boot.{
  Answers, Console, System, Outcome, aborted, halted, waiting as waits, restarting, running,
  app_main,
}
use esp32_s3_rap.AppMain.Ends.{network_up, Ends}
use esp32_s3_rap.AppMain.Booted.{app_main-Reaches}

module _ (out : QueueApi StatusPacket) (readings : QueueApi StatusItem)
    (frames : QueueApi VideoItem) (heard : QueueApi RxItem) (relayed : QueueApi Frame)
    (radio : PeerApi) where
  -- All that start-up cannot do without.
  abbrev pub radio_ready : Answers → Bool
  radio_ready a = esp_now_up a.radio && is_some (heard.create rx_queue_depth)

  -- With that, the main loop starts.
  Ends-running :
      (a : Answers) (now node_id chain_size : ℕ) (peers : radio.Table)
      (outcome : Outcome out readings frames heard relayed radio) (b : Board)
      → network_up a ≡ true
      → radio_ready a ≡ true
      → Ends out readings frames heard relayed radio a
          (returned node_id chain_size)
          now
          peers
          outcome
          b
      → (s : System out readings frames heard relayed radio) × (outcome ≡ running s)
        × (s.device ≡ start_up out readings frames (driver_up a.ethernet) now node_id chain_size)
  Ends-running a now node_id chain_size peers aborted b up ready (inl down, none) = cc
  Ends-running a now node_id chain_size peers aborted b up ready (inr failed, none) = cc
  Ends-running a now node_id chain_size peers (restarting saved) b up ready ends = cc
  Ends-running a now node_id chain_size peers waits b up ready ends = cc
  Ends-running a now node_id chain_size peers halted b up ready ends = cc
  Ends-running a now node_id chain_size peers (running s) b up ready
        (net, ok, (n, k, (found, legal), board, system)) =
      (s, refl, system.device ∙ cc)

  -- A Gateway with a stored identity whose flash, network, ESP-NOW and queues come up reaches its main
  -- loop, whatever the Ethernet driver and the SPI link answer, and from then on, over any history,
  -- every reading that the chain counts as having reached it is counted by the uplink as sent or
  -- dropped or waits there, modulo 2^32.
  pub app_main-accounts :
      (a : Answers) (c : Console) (now chain_size : ℕ) (peers : radio.Table) (events : List Event)
      (q : readings.Queue)
      → load_or_provision c.scan c.flash c.lines c.nvs ≡ returned gateway_node_id chain_size
      → network_up a ≡ true
      → radio_ready a ≡ true
      → readings.create status_uplink_queue_depth ≡ some q
      → (s : System out readings frames heard relayed radio) × ((app_main out readings frames heard
            relayed radio a c now peers).0
          ≡ running s)
        × (let d = run out readings frames events s.device in
            (d.uplink.st_sent + d.uplink.st_dropped + waiting readings d.uplink.status_queue)
              % 2 ^ 32
            ≡ d.chain.stat_sunk % 2 ^ 32)
  app_main-accounts a c now chain_size peers events q stored up ready made =
      let (b, calls, ends) =
        app_main-Reaches out readings frames heard relayed radio a c now peers in
      let (s, reached, device) =
        Ends-running a now gateway_node_id chain_size peers
          (app_main out readings frames heard relayed radio a c now peers).0 b up ready
          (rw stored at ends) in
      (
        s,
        reached,
        rw device
            (run-accounts out readings frames (driver_up a.ethernet) now chain_size events q made),
      )
