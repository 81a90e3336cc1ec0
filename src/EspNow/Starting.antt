-- ===== src/EspNow/Starting.antt =====
-- main/espnow_transport.cpp: `init` and `setRecvHandler`.
use esp32_s3_rap.Base.{ℕ, Bool, true, false, List, [], Option, none, some, if◌then◌else◌}
use esp32_s3_rap.Base.Queue.{QueueApi}
use esp32_s3_rap.Config.{esp_now_channel}
use esp32_s3_rap.Drivers.{
  Call, esp_wifi_init, esp_wifi_set_storage_ram, esp_wifi_set_mode_apsta, esp_wifi_start,
  esp_wifi_set_channel, esp_now_init, esp_now_register_recv_cb, add_peer, ◌▸◌,
}
use esp32_s3_rap.EspNow.{RxItem, rx_queue_depth, poll}
use esp32_s3_rap.EspNow.Peers
use esp32_s3_rap.EspNow.Peers.{PeerApi, broadcast_mac}

-- Whether the calls that are looked at gave ESP_OK.
pub record Answers : Type 0 where
  pub wifi : Bool
  pub mode : Bool
  pub start : Bool
  pub esp_now : Bool

-- g_rxQueue, whether g_handler is set, and ESP-NOW's own peers.
pub record Transport (Q Table : Type 0) : Type 0 where
  pub rx_queue : Option Q
  pub has_handler : Bool
  pub peers : Table

unfoldable pub set_recv_handler : {Q Table : Type 0} → Transport Q Table → Transport Q Table
set_recv_handler t = record t { has_handler = true }

module _ (frames : QueueApi RxItem) (radio : PeerApi) where
  abbrev pub Started : Type 0
  Started = (Bool × Transport frames.Queue radio.Table) × List Call

  unfoldable pub open_queue : Transport frames.Queue radio.Table → Started
  open_queue t = elim (frames.create rx_queue_depth) [
    | none ↦ ((false, record t { rx_queue = none }), [])
    | some q ↦
        let peers = (Peers.add_peer radio broadcast_mac t.peers).1 in
        esp_now_register_recv_cb
        ▸ add_peer broadcast_mac
        ▸ ((true, record t { rx_queue = some q; peers = peers }), [])
  ]

  unfoldable pub start_esp_now : Answers → Transport frames.Queue radio.Table → Started
  start_esp_now a t =
      esp_wifi_set_channel esp_now_channel
      ▸ esp_now_init a.esp_now
      ▸ (if a.esp_now then open_queue t else ((false, t), []))

  unfoldable pub init : Answers → Transport frames.Queue radio.Table → Started
  init a t =
      esp_wifi_init a.wifi
      ▸ (if a.wifi
          then esp_wifi_set_storage_ram
            ▸ esp_wifi_set_mode_apsta a.mode
            ▸ (if a.mode
                then esp_wifi_start a.start
                  ▸ (if a.start then start_esp_now a t else ((false, t), []))
                else ((false, t), []))
          else ((false, t), []))

  -- `poll` with its guard; the loop is `EspNow.poll`, and `handler` is `g_handler`, if it is set.
  unfoldable pub poll_if_ready :
      {S : Type 0}
      → ℕ
      → (List ℕ → List ℕ → ℕ → S → S)
      → Transport frames.Queue radio.Table
      → S
      → Transport frames.Queue radio.Table × S
  poll_if_ready fuel handler t s = elim t.rx_queue [
    | none ↦ (t, s)
    | some q ↦
        let (r, after) = poll frames fuel handler q s in
        if t.has_handler then (record t { rx_queue = some r }, after) else (t, s)
  ]
