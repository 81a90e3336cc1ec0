-- ===== src/VideoRelay/Joining.antt =====
-- main/video_relay.cpp: the attempts of a node's station to join the access point of `next`.
use esp32_s3_rap.Base.{ℕ, ◌+◌, ◌≡◌, Bool, List, [], ◌∷◌, ◌++◌, arith, if◌then◌else◌}
use esp32_s3_rap.Base.Queue.{QueueApi}
use esp32_s3_rap.Drivers.{Call, esp_wifi_connect}
use esp32_s3_rap.Spi.Starting
use esp32_s3_rap.Spi.Starting.{Link, start_slave}
use esp32_s3_rap.VideoRelay.State.{Frame, Relay}
use esp32_s3_rap.VideoRelay.Starting.{
  Answers, init, WifiEvent, sta_disconnected, wifi_event_handler,
}

abbrev pub attempts : List Call → ℕ
attempts [] = 0
attempts (esp_wifi_connect ∷ calls) = 1 + attempts calls
attempts (_ ∷ calls) = attempts calls

abbrev pub disconnections : List WifiEvent → ℕ
disconnections [] = 0
disconnections (sta_disconnected ∷ events) = 1 + disconnections events
disconnections (_ ∷ events) = disconnections events

-- The calls that the handler makes.
abbrev pub handle_all : {Q : Type 0} → List WifiEvent → Relay Q → List Call
handle_all [] relay = []
handle_all (e ∷ events) relay = wifi_event_handler e relay ++ handle_all events relay

module _ (out : QueueApi Frame) where
  attempts-handle_all :
      (events : List WifiEvent) (relay : Relay out.Queue)
      → attempts (handle_all events relay) ≡ (if relay.is_gateway then 0 else disconnections events)
  unfolding wifi_event_handler
  attempts-handle_all [] relay = ground arith
  attempts-handle_all (sta_disconnected ∷ events) relay =
      ground (arith, attempts-handle_all events relay)
  attempts-handle_all (e ∷ events) relay = ground (arith, attempts-handle_all events relay)

  -- A relay tries to join once at its start and once more after each disconnection, and the Gateway
  -- never does.
  pub init-attempts :
      (a : Answers) (node_id chain_size : ℕ) (is_gateway : Bool) (relay : Relay out.Queue)
      (link : Link) (events : List WifiEvent)
      → let r = init out a node_id chain_size is_gateway relay link in
        attempts r.1 + attempts (handle_all events r.0.0)
        ≡ (if is_gateway then 0 else (1 + disconnections events))
  unfolding init Starting.init
  init-attempts a node_id chain_size is_gateway relay link events =
      let later =
        attempts-handle_all events (init out a node_id chain_size is_gateway relay link).0.0 in
      ground (arith, later)
