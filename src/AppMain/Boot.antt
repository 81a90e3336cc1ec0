-- ===== src/AppMain/Boot.antt =====
-- main/main.cpp: `app_main` up to its main loop.
use esp32_s3_rap.Base.{ℕ, Bool, true, false, List, [], Option, ◌++◌, none, ◌==◌, if◌then◌else◌}
use esp32_s3_rap.Base.Queue.{QueueApi}
use esp32_s3_rap.Config.{gateway_node_id}
use esp32_s3_rap.Drivers.{
  NvsResult, no_free_pages, new_version_found, Call, nvs_flash_init, nvs_flash_erase,
  esp_netif_init, esp_event_loop_create_default, create_default_wifi_ap, create_default_wifi_sta,
  ◌▸◌,
}
use esp32_s3_rap.Drivers.Order.{is_initialised}
use esp32_s3_rap.Protocol.{StatusPacket}
use esp32_s3_rap.Chain.State.{boot}
use esp32_s3_rap.Chain.Effects.{Effect}
use esp32_s3_rap.Chain.Loop.{init}
use esp32_s3_rap.Provisioning
use esp32_s3_rap.Provisioning.{ℤ, Nvs, Flash, returned, restarted, prompting, load_or_provision}
use esp32_s3_rap.EspNow.{RxItem}
use esp32_s3_rap.EspNow.Peers.{PeerApi}
use esp32_s3_rap.EspNow.Starting as Radio
use esp32_s3_rap.EspNow.Starting.{Transport, set_recv_handler}
use esp32_s3_rap.Uplink.State.{StatusItem, VideoItem, Uplink, power_off}
use esp32_s3_rap.Uplink.Starting as Ethernet
use esp32_s3_rap.Spi.Starting.{Link, unlinked}
use esp32_s3_rap.VideoRelay.State.{Frame, Relay, at_boot}
use esp32_s3_rap.VideoRelay.Starting as Video
use esp32_s3_rap.AppMain.{Device, hand_over}

pub record Answers : Type 0 where
  pub nvs : NvsResult
  pub erase : Bool
  pub nvs_again : NvsResult
  pub netif : Bool
  pub event_loop : Bool
  pub radio : Radio.Answers
  pub ethernet : Ethernet.Answers
  pub video : Video.Answers

-- What `loadOrProvision` meets: the scanner behind `sscanf`, the console's lines, what the calls of
-- NVS answer and what it holds.
pub record Console : Type 0 where
  pub scan : List ℕ → List ℤ
  pub lines : List (Option (List ℕ))
  pub flash : Flash
  pub nvs : Nvs

abbrev pub must_erase : NvsResult → Bool
must_erase no_free_pages = true
must_erase new_version_found = true
must_erase _ = false

module _ (out : QueueApi StatusPacket) (readings : QueueApi StatusItem)
    (frames : QueueApi VideoItem) (heard : QueueApi RxItem) (relayed : QueueApi Frame)
    (radio : PeerApi) where
  -- The globals of all the modules, and the calls of the chain's `init`.
  pub record System : Type 0 where
    pub device : Device out.Queue readings.Queue frames.Queue
    pub transport : Transport heard.Queue radio.Table
    pub relay : Relay relayed.Queue
    pub link : Link
    pub greeting : List Effect

  -- A failed ESP_ERROR_CHECK, the endless wait without ESP-NOW, a restart with a new identity, the
  -- wait for one, or the start of the main loop.
  pub data Outcome : Type 0 where
    aborted halted waiting : Outcome
    restarting : Nvs → Outcome
    running : System → Outcome

  abbrev pub Boot : Type 0
  Boot = Outcome × List Call

  unfoldable pub open_flash : Answers → Boot → Boot
  open_flash a rest =
      nvs_flash_init a.nvs
      ▸ (if must_erase a.nvs
          then nvs_flash_erase a.erase
            ▸ (if a.erase
                then nvs_flash_init a.nvs_again
                  ▸ (if is_initialised a.nvs_again then rest else (aborted, []))
                else (aborted, []))
          else if is_initialised a.nvs
          then rest
          else (aborted, []))

  unfoldable pub open_network : Answers → Boot → Boot
  open_network a rest =
      esp_netif_init a.netif
      ▸ (if a.netif
          then esp_event_loop_create_default a.event_loop
            ▸ (if a.event_loop
                then create_default_wifi_ap ▸ create_default_wifi_sta ▸ rest
                else (aborted, []))
          else (aborted, []))

  -- `gateway_uplink::init`, on the Gateway; what it returns is only logged.
  unfoldable pub start_uplink : Answers → ℕ → Uplink readings.Queue frames.Queue × List Call
  start_uplink a node_id =
      let ((up, u), calls) = Ethernet.init readings frames a.ethernet power_off in
      if node_id == gateway_node_id then (u, calls) else (power_off, [])

  -- The globals after the rest of start-up, and the calls of `video_relay::init`.
  unfoldable pub start_video :
      Answers
      → (now node_id chain_size : ℕ) → Uplink readings.Queue frames.Queue
      → Transport heard.Queue radio.Table
      → System × List Call
  start_video a now node_id chain_size u t =
      let (n, greeting) = init out now node_id chain_size boot in
      let ((relay, link), calls) =
        Video.init relayed a.video node_id chain_size (node_id == gateway_node_id) at_boot
          unlinked in
      (
        record {
          device = record {
            chain = n;
            uplink = hand_over out readings frames greeting u;
            last_stats_ms = 0;
          };
          transport = set_recv_handler t;
          relay = relay;
          link = link;
          greeting = greeting;
        },
        calls,
      )

  -- After `espnow::init`.
  unfoldable pub start_parts :
      Answers
      → (now node_id chain_size : ℕ) → Transport heard.Queue radio.Table
      → System × List Call
  unfolding start_uplink start_video
  start_parts a now node_id chain_size t =
      let (u, uplink_calls) = start_uplink a node_id in
      let (s, video_calls) = start_video a now node_id chain_size u t in
      (s, uplink_calls ++ video_calls)

  unfoldable pub start_radio : Answers → (now node_id chain_size : ℕ) → radio.Table → Boot
  unfolding start_parts
  start_radio a now node_id chain_size peers =
      let ((up, t), calls) =
        Radio.init heard radio a.radio
          (record { rx_queue = none; has_handler = false; peers = peers }) in
      let (s, rest) = start_parts a now node_id chain_size t in
      if up then (running s, calls ++ rest) else (halted, calls)

  -- What follows `loadOrProvision`, if it returns.
  unfoldable pub provision : Provisioning.Outcome → (ℕ → ℕ → Boot) → Boot
  provision (returned node_id chain_size) rest = rest node_id chain_size
  provision (restarted saved) rest = (restarting saved, [])
  provision Provisioning.aborted rest = (aborted, [])
  provision prompting rest = (waiting, [])

  -- `peers` is ESP-NOW's own table.
  unfoldable pub app_main : Answers → Console → (now : ℕ) → radio.Table → Boot
  app_main a c now peers = open_flash a (
      open_network a (
        provision (load_or_provision c.scan c.flash c.lines c.nvs)
          (λ node_id chain_size. start_radio a now node_id chain_size peers)))
