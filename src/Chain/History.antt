-- ===== src/Chain/History.antt =====
-- main/main.cpp and main/chain_node.cpp: a node from power-on, as `app_main` drives it.
use esp32_s3_rap.Base.{ℕ, ◌^◌, ◌<◌, ◌≡◌, List, [], ◌∷◌, ◌++◌, some, All, All-append}
use esp32_s3_rap.Base.Queue.{QueueApi}
use esp32_s3_rap.Config.{status_queue_depth}
use esp32_s3_rap.Protocol.{StatusPacket}
use esp32_s3_rap.Chain.State.{Node, boot}
use esp32_s3_rap.Chain.Effects.{Effect}
use esp32_s3_rap.Chain.Loop.{Clock, loop, init, set_lane_status}
use esp32_s3_rap.Chain.Invariant.{
  IsValid, IsNotAssert, Keeps, init-Keeps, loop-Keeps, set_lane_status-IsValid,
}

-- What happens to the globals after `init`: a round of the main loop with the frames that it finds,
-- or a reading that the SPI task stores.
pub data Event : Type 0 where
  round : Clock → List (List ℕ × List ℕ) → Event
  lane_reading : (stream_id occupied : ℕ) (plate : List ℕ) → Event

-- Received bytes are bytes.
abbrev pub IsEvent : Event → Type 0
IsEvent (round t inbox) = All (λ item. All (λ b. b < 2 ^ 8) item.1) inbox
IsEvent (lane_reading _ _ _) = Unit {0}

module _ (api : QueueApi StatusPacket) where
  open api use {Queue}

  unfoldable pub step : Event → Node Queue → Node Queue × List Effect
  step (round t inbox) n = loop api t inbox n
  step (lane_reading stream_id occupied plate) n = (set_lane_status stream_id occupied plate n, [])

  unfoldable pub run : List Event → Node Queue → Node Queue × List Effect
  unfolding step
  run [] n = (n, [])
  run (e ∷ es) n = let (n', calls) = step e n in let (n'', more) = run es n' in (n'', calls ++ more)

  unfoldable pub power_on : ℕ → ℕ → ℕ → List Event → Node Queue × List Effect
  unfolding run
  power_on now node_id chain_size events =
      let (n, calls) = init api now node_id chain_size boot in
      let (n', more) = run events n in (n', calls ++ more)

  pub step-Keeps : (e : Event) (n : Node Queue) → IsEvent e → IsValid api n → Keeps api (step e n)
  unfolding step
  step-Keeps (round t inbox) n b v = loop-Keeps api t inbox n b v
  step-Keeps (lane_reading stream_id occupied plate) n b v =
      (set_lane_status-IsValid api stream_id occupied plate n v, tt)

  run-Keeps :
      (events : List Event) (n : Node Queue)
      → All IsEvent events
      → IsValid api n
      → Keeps api (run events n)
  unfolding run
  run-Keeps [] n b v = (v, tt)
  run-Keeps (e ∷ es) n b v =
      let first = step-Keeps e n b.0 v in
      let second = run-Keeps es (step e n).0 b.1 first.0 in
      (second.0, All-append IsNotAssert _ _ first.1 second.1)

  -- If the relay's queue can be created, then after `init` and any history of rounds, received
  -- bytes and lane readings the globals are valid (the role and the queue agree, the state and the
  -- known neighbours agree, every stored number and plate fits its C type), and no call was made on
  -- a null queue handle.
  pub power_on-Keeps :
      (now node_id chain_size : ℕ) (events : List Event) (q : Queue)
      → api.create status_queue_depth ≡ some q
      → All IsEvent events
      → Keeps api (power_on now node_id chain_size events)
  unfolding power_on
  power_on-Keeps now node_id chain_size events q e b =
      let first = init-Keeps api now node_id chain_size q e in
      let second = run-Keeps events (init api now node_id chain_size boot).0 b first.0 in
      (second.0, All-append IsNotAssert _ _ first.1 second.1)
