-- ===== src/VideoRelay/Starting.antt =====
-- main/video_relay.cpp: `init`, `wifiEventHandler`, the listening socket of `serverTask`, and
-- `allocFrameBuffer`.
use esp32_s3_rap.Base.{
  ℕ, Bool, true, false, List, [], ◌∷◌, ◌++◌, Option, none, some, if◌then◌else◌, not, strncpy,
}
use esp32_s3_rap.Base.Queue.{QueueApi}
use esp32_s3_rap.Config.{esp_now_channel, video_port, video_ap_password, chain_self_test}
use esp32_s3_rap.Drivers.{
  ApConfig, video_client, video_server, video_selftest, Call, create_task, dhcps_stop,
  ap_set_ip_info, dhcps_start, set_ap_config, register_wifi_events, set_sta_config,
  esp_wifi_connect,
}
use esp32_s3_rap.Spi.Starting
use esp32_s3_rap.Spi.Starting.{Link}
use esp32_s3_rap.VideoRelay.State.{Frame, Relay}
use esp32_s3_rap.VideoRelay.Setup.{ap_address, set_up, create_out_queue}
use esp32_s3_rap.VideoRelay.Wifi.{WifiSetUp, wifi_set_up}

-- Whether the access point's interface was found, and the answers for the SPI link.
pub record Answers : Type 0 where
  pub ap_found : Bool
  pub spi : Starting.Answers

-- sizeof(password) in `wifi_config_t`
abbrev pub password_size : ℕ
password_size = 64

unfoldable pub set_address : Bool → ℕ → List Call
set_address true node_id =
    dhcps_stop
    ∷ ap_set_ip_info (ap_address node_id) (ap_address node_id) (255 ∷ 255 ∷ 255 ∷ 0 ∷ [])
    ∷ dhcps_start
    ∷ []
set_address false node_id = []

abbrev pub ap_config : WifiSetUp → ApConfig
ap_config w = record {
  ssid = w.ap_ssid;
  ssid_len = w.ap_ssid_len;
  password = strncpy video_ap_password password_size;
  channel = esp_now_channel;
  max_connection = 1;
}

-- A relay joins the access point of `next`, and has a client.
unfoldable pub join_next : Option (List ℕ) → List Call
join_next none = []
join_next (some name) =
    set_sta_config (record {
      ssid = name;
      password = strncpy video_ap_password password_size;
      channel = esp_now_channel;
    })
    ∷ esp_wifi_connect
    ∷ create_task video_client 4096 5
    ∷ []

-- The SPI link, which the self-test goes without.
unfoldable pub start_source : Bool → Starting.Answers → Link → Link × List Call
start_source true a link = (link, create_task video_selftest 4096 3 ∷ [])
start_source false a link = Starting.init a link

unfoldable pub init :
    (out : QueueApi Frame)
    → Answers
    → (node_id chain_size : ℕ) → Bool
    → Relay out.Queue
    → Link
    → (Relay out.Queue × Link) × List Call
unfolding set_address join_next start_source set_up create_out_queue wifi_set_up
init out a node_id chain_size is_gateway relay link =
    let w = wifi_set_up node_id chain_size is_gateway in
    let (link', source) = start_source chain_self_test a.spi link in
    let r = create_out_queue out (set_up node_id chain_size is_gateway relay) in
    (
      (r, link'),
      set_address a.ap_found node_id
          ++ (set_ap_config (ap_config w)
              ∷ register_wifi_events
              ∷ (join_next w.station ++ (create_task video_server 4096 5 ∷ source))),
    )

-- The events that the handler tells apart; `other_base` is one that is not WIFI_EVENT.
pub data WifiEvent : Type 0 where
  other_base sta_disconnected sta_connected ap_sta_connected other_id : WifiEvent

unfoldable pub wifi_event_handler : {Q : Type 0} → WifiEvent → Relay Q → List Call
wifi_event_handler sta_disconnected relay =
    if not relay.is_gateway then esp_wifi_connect ∷ [] else []
wifi_event_handler _ relay = []

-- What `serverTask` does before its loop: the port it listens on (`none` is a task that has ended),
-- and whether a socket stays open. The arguments are the answers of socket, bind and listen.
unfoldable pub listen_socket : (opened bound listening : Bool) → Option ℕ × Bool
listen_socket opened bound listening =
    if opened
    then (if bound
        then (if listening then (some video_port, true) else (none, false))
        else (none, false))
    else (none, false)

-- heap_caps_malloc's arguments of memory, and a block's address.
pub data Caps : Type 0 where
  spiram internal : Caps

unfoldable pub alloc_frame_buffer : (Caps → ℕ → Option ℕ) → ℕ → Option ℕ
alloc_frame_buffer malloc size = elim (malloc spiram size) [
  | none ↦ malloc internal size
  | some address ↦ some address
]
