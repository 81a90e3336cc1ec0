-- ===== src/EspNow/Started.antt =====
-- main/espnow_transport.cpp: `init` on each of its paths.
use esp32_s3_rap.Base.{
  ℕ, List, ◌≡◌, Bool, true, false, some, arith, ◌&&◌, is_some, Option-cases, inl, inr,
}
use esp32_s3_rap.Base.Queue.{QueueApi}
use esp32_s3_rap.Drivers.Order.{Board, perform_all}
use esp32_s3_rap.EspNow.{RxItem, rx_queue_depth, poll}
use esp32_s3_rap.EspNow.Peers
use esp32_s3_rap.EspNow.Peers.{PeerApi, broadcast_mac}
use esp32_s3_rap.EspNow.Starting.{
  Answers, Transport, init, start_esp_now, open_queue, set_recv_handler, poll_if_ready,
}

abbrev pub radio_up : Answers → Bool
radio_up a = a.wifi && (a.mode && a.start)

abbrev pub esp_now_up : Answers → Bool
esp_now_up a = radio_up a && a.esp_now

-- A board with the flash, the event loop and both network interfaces of the WiFi driver.
pub record IsNetworked (b : Board) : Type 0 where
  pub flash : b.flash ≡ true
  pub event_loop : b.event_loop ≡ true
  pub ap_netif : b.ap_netif ≡ true
  pub sta_netif : b.sta_netif ≡ true
  pub wifi : b.wifi ≡ false
  pub apsta : b.apsta ≡ false
  pub radio : b.radio ≡ false
  pub esp_now : b.esp_now ≡ false

abbrev pub board_after : Answers → Board → Board
board_after a b = record b {
  wifi = a.wifi;
  apsta = a.wifi && a.mode;
  radio = radio_up a;
  esp_now = esp_now_up a;
}

module _ (frames : QueueApi RxItem) (radio : PeerApi) where
  -- The result says whether ESP-NOW is up with a queue for its frames. If so, the broadcast address
  -- was made a peer. Each call comes after those it needs, whatever fails.
  pub init_lem :
      (a : Answers) (t : Transport frames.Queue radio.Table) (b : Board)
      → IsNetworked b
      → let out = init frames radio a t in
        (perform_all out.1 b ≡ some (board_after a b))
        × (out.0.0 ≡ (esp_now_up a && is_some (frames.create rx_queue_depth)))
        × (out.0.0 ≡ true
            → (out.0.1.rx_queue ≡ frames.create rx_queue_depth)
              × (out.0.1.peers ≡ (Peers.add_peer radio broadcast_mac t.peers).1))
  unfolding init start_esp_now open_queue perform_all
  init_lem a t b ready = elim (Option-cases (frames.create rx_queue_depth)) [
    | inl no_queue ↦ (ground arith, ground arith, λ ok. ground arith)
    | inr (q, made) ↦ (ground arith, ground arith, λ ok. ground arith)
  ]

  -- After a start that succeeded and `setRecvHandler`, the guard of `poll` lets its loop run on the
  -- queue of `init`, and before `setRecvHandler` it does nothing.
  pub poll_if_ready-init :
      {S : Type 0} (a : Answers) (t : Transport frames.Queue radio.Table) (fuel : ℕ)
      (handler : List ℕ → List ℕ → ℕ → S → S) (s : S)
      → t.has_handler ≡ false
      → (init frames radio a t).0.0 ≡ true
      → (poll_if_ready frames radio fuel handler (init frames radio a t).0.1 s
          ≡ ((init frames radio a t).0.1, s))
        × ((q : frames.Queue) × (frames.create rx_queue_depth ≡ some q)
            × (let out =
                  poll_if_ready frames radio fuel handler
                    (set_recv_handler (init frames radio a t).0.1)
                    s in
                (out.0.rx_queue ≡ some (poll frames fuel handler q s).0)
                × (out.1 ≡ (poll frames fuel handler q s).1)))
  unfolding init start_esp_now open_queue poll_if_ready set_recv_handler
  poll_if_ready-init a t fuel handler s unset started =
      elim (Option-cases (frames.create rx_queue_depth)) [
        | inl no_queue ↦ ground arith
        | inr (q, made) ↦ (ground arith, (q, made, ground arith))
      ]
