-- ===== src/AppMain/Parts.antt =====
-- main/main.cpp: what `app_main` starts once ESP-NOW is up.
use esp32_s3_rap.Base.{
  ℕ, ◌≡◌, refl, ◌∙◌, ap, true, some, arith, ◌==◌, if◌then◌else◌, Bool-cases, inl, inr,
}
use esp32_s3_rap.Base.Queue.{QueueApi}
use esp32_s3_rap.Config.{gateway_node_id}
use esp32_s3_rap.Protocol.{StatusPacket}
use esp32_s3_rap.Drivers.Order.{Board, powered_up, perform_all, perform_all-append, and_then}
use esp32_s3_rap.EspNow.{RxItem}
use esp32_s3_rap.EspNow.Peers.{PeerApi}
use esp32_s3_rap.EspNow.Starting.{Transport, set_recv_handler}
use esp32_s3_rap.Uplink.State.{StatusItem, VideoItem, Uplink, power_off}
use esp32_s3_rap.Uplink.Queues.{create_queues}
use esp32_s3_rap.Uplink.Started as EthernetStarted
use esp32_s3_rap.Uplink.Started.{driver_up}
use esp32_s3_rap.Spi.Starting.{unlinked}
use esp32_s3_rap.Spi.Started.{slave_up, IsLinked}
use esp32_s3_rap.VideoRelay.State.{Frame, at_boot}
use esp32_s3_rap.VideoRelay.Setup.{set_up, create_out_queue}
use esp32_s3_rap.VideoRelay.Starting as Video
use esp32_s3_rap.VideoRelay.Started as VideoStarted
use esp32_s3_rap.AppMain.{start_up}
use esp32_s3_rap.AppMain.Boot.{Answers, start_uplink, start_video, start_parts}

abbrev pub networked : Board
networked = record powered_up {
  flash = true;
  netif = true;
  event_loop = true;
  ap_netif = true;
  sta_netif = true;
}

-- The board of a node whose ESP-NOW is up.
abbrev pub on_air : Board
on_air = record networked { wifi = true; apsta = true; radio = true; esp_now = true }

abbrev pub uplink_board : Answers → ℕ → Board → Board
uplink_board a node_id b =
    if node_id == gateway_node_id then EthernetStarted.board_after a.ethernet b else b

-- The board under the main loop of a node.
abbrev pub board_running : Answers → ℕ → Board
board_running a node_id =
    VideoStarted.board_after a.video (node_id == gateway_node_id) (uplink_board a node_id on_air)

module _ (out : QueueApi StatusPacket) (readings : QueueApi StatusItem)
    (frames : QueueApi VideoItem) (heard : QueueApi RxItem) (relayed : QueueApi Frame)
    (radio : PeerApi) where
  -- The Gateway's uplink, or none.
  uplink_at : Answers → ℕ → Uplink readings.Queue frames.Queue
  uplink_at a node_id =
      if node_id == gateway_node_id
      then (record (create_queues readings frames power_off) { has_driver = driver_up a.ethernet })
      else power_off

  start_uplink_lem :
      (a : Answers) (node_id : ℕ)
      → let r = start_uplink out readings frames heard relayed radio a node_id in
        (r.0 ≡ uplink_at a node_id)
        × (perform_all r.1 on_air ≡ some (uplink_board a node_id on_air))
  unfolding start_uplink uplink_at perform_all
  start_uplink_lem a node_id =
      let eth =
        EthernetStarted.init-board_after readings frames a.ethernet power_off on_air (record {
          netif = refl;
          event_loop = refl;
          mac = refl;
          phy = refl;
          driver = refl;
          attached = refl;
          eth_dhcp = refl;
          eth_events = refl;
          eth_up = refl;
          spi_bus = refl;
        }) in
      elim (Bool-cases (node_id == gateway_node_id)) [
        | inl gateway ↦ (rw gateway (eth.1 ∙ ground arith), rw gateway (eth.2))
        | inr relay ↦ (rw relay refl, rw relay refl)
      ]

  uplink_board-IsOnAir :
      (a : Answers) (node_id : ℕ) → VideoStarted.IsOnAir (uplink_board a node_id on_air)
  uplink_board-IsOnAir a node_id = record {
    radio = ground arith;
    netif = ground arith;
    event_loop = ground arith;
    ap_netif = ground arith;
    ap_dhcp = ground arith;
  }

  -- The calls after `espnow::init`, and the globals.
  pub start_parts_lem :
      (a : Answers) (now node_id chain_size : ℕ) (t : Transport heard.Queue radio.Table)
      → let r = start_parts out readings frames heard relayed radio a now node_id chain_size t in
        (perform_all r.1 on_air ≡ some (board_running a node_id))
        × (r.0.device ≡ start_up out readings frames (driver_up a.ethernet) now node_id chain_size)
        × (r.0.transport ≡ set_recv_handler t)
        × (r.0.relay
            ≡ create_out_queue relayed
                (set_up node_id chain_size (node_id == gateway_node_id) at_boot))
        × (slave_up a.video.spi ≡ true → IsLinked r.0.link)
  unfolding start_parts start_video
  start_parts_lem a now node_id chain_size t =
      let (uplink, calls) = start_uplink_lem a node_id in
      let video =
        VideoStarted.init_lem relayed a.video node_id chain_size (node_id == gateway_node_id)
          at_boot unlinked (uplink_board a node_id on_air) (uplink_board-IsOnAir a node_id) in
      let video_calls =
        (Video.init relayed a.video node_id chain_size (node_id == gateway_node_id) at_boot
          unlinked).1 in
      (
        perform_all-append (start_uplink out readings frames heard relayed radio a node_id).1
              video_calls on_air
            ∙ ap (λ r. and_then r (perform_all video_calls)) calls
            ∙ video.0,
        rw uplink (unfold start_up uplink_at in refl),
        refl,
        video.1,
        video.2,
      )
