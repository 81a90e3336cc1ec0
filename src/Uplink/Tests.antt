-- ===== src/Uplink/Tests.antt =====
-- main/gateway_uplink.cpp: the theorems about the uplinks, applied to small inputs.
use mathlib.Core.List.{Perm}
use esp32_s3_rap.Base.{
  ℕ, ◌+◌, ◌^◌, ◌%◌, ◌<◌, ◌≤◌, ◌≡◌, ◌≢◌, refl, true, false, List, [], ◌∷◌, ◌++◌, some, arith, length,
}
use esp32_s3_rap.Base.ListQueue.{Bounded, list_queue}
use esp32_s3_rap.Uplink.State.{
  StatusItem, VideoItem, Buffer, Uplink, power_off, connected, disconnected,
}
use esp32_s3_rap.Uplink.Status.{status_item, status_line, line_text, no_socket}
use esp32_s3_rap.Uplink.Line.{status_line-whole}
use esp32_s3_rap.Uplink.Counted
use esp32_s3_rap.Uplink.Video.{chunk_count, send_frame}
use esp32_s3_rap.Uplink.Reassembly.{IsFrame, Numbered, payloads, send_frame-whole}
use esp32_s3_rap.Uplink.Ownership
use esp32_s3_rap.Drivers.{already_installed}
use esp32_s3_rap.Drivers.Order.{Board, powered_up, perform_all}
use esp32_s3_rap.Uplink.Queues.{create_queues}
use esp32_s3_rap.Uplink.Starting.{Answers, init}
use esp32_s3_rap.Uplink.Started.{IsReady, board_after, init-board_after}
use esp32_s3_rap.Uplink.Recovery.{Stuck, restarts-Stuck}
use esp32_s3_rap.Uplink.Watchdog.{Observation, restarts, Rising, Spaced, restarts-Spaced}

abbrev buffer : Buffer
buffer = record { address = 40; bytes = 1 ∷ 2 ∷ 3 ∷ [] }

abbrev item : VideoItem
item = record { origin_node_id = 2; stream_id = 1; seq = 9; data_len = 3; data_buffer = buffer }

item-IsFrame : IsFrame item
item-IsFrame = record { whole = refl; bounded = omega arith }

send_frame-whole_example :
    let out = send_frame (λ _. true) item in
    (out.1 ≡ true)
    × (length out.0 ≡ chunk_count 3)
    × (chunk_count 3 < 2 ^ 16)
    × Numbered item 0 out.0
    × (payloads out.0 ≡ 1 ∷ 2 ∷ 3 ∷ [])
send_frame-whole_example = send_frame-whole item item-IsFrame

status_line-whole_example :
    let item = status_item 3 1 1 (b'B' ∷ b'7' ∷ 0 ∷ []) in
    (status_line item ≡ some (line_text item ++ (b'\n' ∷ [])))
    × (length (line_text item ++ (b'\n' ∷ [])) ≤ 24)
status_line-whole_example = status_line-whole 3 1 1 (b'B' ∷ b'7' ∷ 0 ∷ [])

abbrev status_events : List Counted.Event
status_events =
    Counted.links connected
    ∷ Counted.flushes 1 0 1 (b'A' ∷ 0 ∷ [])
    ∷ Counted.flushes 1 1 0 []
    ∷ Counted.rounds no_socket
    ∷ []

abbrev no_items : Bounded StatusItem
no_items = record { items = []; depth = 32 }

flushed-eq-counted_example :
    let u =
      Counted.run {V = Unit {0}}
        (list_queue StatusItem)
        status_events
        (record power_off { status_queue = some no_items }) in
    (u.st_sent + u.st_dropped + Counted.waiting (list_queue StatusItem) u.status_queue) % 2 ^ 32
    ≡ Counted.count_flushed status_events % 2 ^ 32
flushed-eq-counted_example =
    Counted.flushed-eq-counted (Unit {0}) (list_queue StatusItem) no_items status_events refl

abbrev video_events : List Ownership.Event
video_events =
    Ownership.frame 1 0 7 buffer 3
    ∷ Ownership.links disconnected
    ∷ Ownership.frame 1 0 8 (record { address = 41; bytes = 4 ∷ [] }) 1
    ∷ Ownership.rounds (λ _. true)
    ∷ []

abbrev linked : Uplink (Unit {0}) (Bounded VideoItem)
linked = record power_off { link_up = true; video_queue = some (record { items = []; depth = 3 }) }

run-perm_example :
    let out = Ownership.run (list_queue VideoItem) video_events linked in
    Perm (out.1 ++ Ownership.held_by (list_queue VideoItem) out.0.video_queue) (40 ∷ 41 ∷ [])
run-perm_example = Ownership.run-perm (list_queue VideoItem) video_events linked

abbrev stuck : ℕ → ℕ → Observation
stuck t k = record {
  now = t;
  link = true;
  status_queued = k;
  status_sent = 0;
  video_queued = 0;
  video_sent = 0;
}

abbrev observations : List Observation
observations =
    stuck 10000 1
    ∷ stuck 20000 2
    ∷ stuck 30000 3
    ∷ stuck 40000 4
    ∷ stuck 50000 5
    ∷ stuck 60000 6
    ∷ stuck 70000 7
    ∷ []

observations-Rising : Rising 0 observations
observations-Rising = ground arith

restarts-Spaced_example : Spaced 0 (restarts observations (record linked { has_driver = true }))
restarts-Spaced_example =
    restarts-Spaced observations 0 (record linked { has_driver = true }) (omega arith)
      observations-Rising

-- A minute in which one more reading is queued every ten seconds.
abbrev silence : List Observation
silence =
    stuck 10000 1
    ∷ stuck 20000 2
    ∷ stuck 30000 3
    ∷ stuck 40000 4
    ∷ stuck 50000 5
    ∷ stuck 60000 6
    ∷ []

silence-Stuck : Stuck 0 0 0 silence
silence-Stuck = ground arith

restarts-Stuck_example : restarts silence (record linked { has_driver = true }) ≢ []
restarts-Stuck_example =
    restarts-Stuck silence (record linked { has_driver = true }) refl silence-Stuck (omega arith)
      (omega arith) (omega arith)

-- A board with the network up, and no chip on the bus.
abbrev networked : Board
networked = record powered_up { flash = true; netif = true; event_loop = true }

abbrev no_chip : Answers
no_chip = record {
  isr = already_installed;
  bus = true;
  mac = true;
  phy = true;
  driver = false;
  attach = true;
  start = true;
}

networked-IsReady : IsReady networked
networked-IsReady = record {
  netif = refl;
  event_loop = refl;
  mac = refl;
  phy = refl;
  driver = refl;
  attached = refl;
  eth_dhcp = refl;
  eth_events = refl;
  eth_up = refl;
  spi_bus = refl;
}

init-board_after_example :
    let out = init (list_queue StatusItem) (list_queue VideoItem) no_chip power_off in
    (out.0.0 ≡ false)
    × (out.0.1 ≡ record (create_queues (list_queue StatusItem) (list_queue VideoItem) power_off) {
      has_driver = false;
    })
    × (perform_all out.1 networked ≡ some (board_after no_chip networked))
init-board_after_example =
    init-board_after (list_queue StatusItem) (list_queue VideoItem) no_chip power_off networked
      networked-IsReady
