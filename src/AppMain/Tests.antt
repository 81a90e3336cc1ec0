-- ===== src/AppMain/Tests.antt =====
-- main/main.cpp: the theorems about a device, applied to short runs.
use esp32_s3_rap.Base.{
  ℕ, ◌+◌, ◌%◌, ◌^◌, ◌≡◌, refl, true, List, [], ◌∷◌, some, take, c_str, arith, false,
}
use esp32_s3_rap.Base.ListQueue.{Bounded, list_queue}
use esp32_s3_rap.Protocol.{StatusPacket, empty_status}
use esp32_s3_rap.Chain.Loop.{Clock, init}
use esp32_s3_rap.Chain.Loop
use esp32_s3_rap.Chain.State.{Node, configure}
use esp32_s3_rap.Chain.Handlers.{broadcast_hello}
use esp32_s3_rap.EspNow
use esp32_s3_rap.EspNow.{RxItem}
use esp32_s3_rap.EspNow.Delivery.{Frame, legal, reads, arrivals}
use esp32_s3_rap.Spi.Receiver
use esp32_s3_rap.Spi.Receiver.{wire_plate, start}
use esp32_s3_rap.Chain.Lanes.{HasLanes}
use esp32_s3_rap.AppMain.LaneReading.{IsReading, transfer, deliver, read_local_status-deliver}
use esp32_s3_rap.AppMain.Inbox.{answer, poll-answer}
use esp32_s3_rap.Uplink.State.{StatusItem, VideoItem, connected}
use esp32_s3_rap.Uplink.Status.{no_socket}
use esp32_s3_rap.Uplink.Counted.{waiting}
use esp32_s3_rap.AppMain.{Event, Firmware, round, lane_reading, status_rounds, links, start_up, run}
use esp32_s3_rap.Drivers.{no_free_pages, initialised, installed}
use esp32_s3_rap.Drivers.Order.{powered_up}
use esp32_s3_rap.EspNow.ListPeers.{list_peers}
use esp32_s3_rap.VideoRelay.State as Relayed
use esp32_s3_rap.Provisioning.{load_or_provision, returned}
use esp32_s3_rap.AppMain.Boot.{Answers, Console, System, running, app_main}
use esp32_s3_rap.AppMain.Ends.{Reaches}
use esp32_s3_rap.AppMain.Booted.{app_main-Reaches}
use esp32_s3_rap.AppMain.FromPower.{app_main-accounts}
use esp32_s3_rap.AppMain.Accounting.{run-accounts}

abbrev clock : ℕ → Clock
clock now = record {
  hello_test = now;
  hello_stamp = now;
  local_test = now;
  local_stamp = now;
  reading = now;
  ack_test = now;
  warn_test = now;
  warn_stamp = now;
  arm = now;
}

-- Node 2, the Gateway's `prev`, says HELLO and sends a reading; the Gateway makes one of its own.
abbrev day : List Event
day =
    links connected
    ∷ lane_reading 0 1 (b'A' ∷ 0 ∷ [])
    ∷ round (clock 20000)
        ((7 ∷ 7 ∷ 7 ∷ 7 ∷ 7 ∷ 7 ∷ [], 1 ∷ 2 ∷ 3 ∷ [])
          ∷ (
            7 ∷ 7 ∷ 7 ∷ 7 ∷ 7 ∷ 7 ∷ [],
            2 ∷ 2 ∷ 0 ∷ 5 ∷ 0 ∷ 1 ∷ 66 ∷ 0 ∷ 0 ∷ 0 ∷ 0 ∷ 0 ∷ 0 ∷ 0 ∷ 0 ∷ 0 ∷ 0 ∷ 0 ∷ [],
          )
          ∷ [])
        20000 20000
    ∷ status_rounds no_socket
    ∷ []

abbrev gateway : Firmware (list_queue StatusPacket) (list_queue StatusItem) (list_queue VideoItem)
gateway =
    run (list_queue StatusPacket) (list_queue StatusItem) (list_queue VideoItem) day
      (start_up (list_queue StatusPacket) (list_queue StatusItem) (list_queue VideoItem) true 0 0 3)

run-accounts_example :
    let u = gateway.uplink in
    (u.st_sent + u.st_dropped + waiting (list_queue StatusItem) u.status_queue) % 2 ^ 32
    ≡ gateway.chain.stat_sunk % 2 ^ 32
run-accounts_example =
    run-accounts (list_queue StatusPacket) (list_queue StatusItem) (list_queue VideoItem) true 0 3
      day (record { items = []; depth = 32 }) refl

abbrev rx_queue : Bounded RxItem
rx_queue = record { items = []; depth = 16 }

-- A HELLO, an empty frame, and a reading.
abbrev air : List Frame
air =
    (7 ∷ 7 ∷ 7 ∷ 7 ∷ 7 ∷ 7 ∷ [], 1 ∷ 2 ∷ 3 ∷ [])
    ∷ (9 ∷ 9 ∷ 9 ∷ 9 ∷ 9 ∷ 9 ∷ [], [])
    ∷ (
      7 ∷ 7 ∷ 7 ∷ 7 ∷ 7 ∷ 7 ∷ [],
      2 ∷ 2 ∷ 0 ∷ 5 ∷ 0 ∷ 1 ∷ 66 ∷ 0 ∷ 0 ∷ 0 ∷ 0 ∷ 0 ∷ 0 ∷ 0 ∷ 0 ∷ 0 ∷ 0 ∷ 0 ∷ [],
    )
    ∷ []

abbrev started : Node (Bounded StatusPacket)
started =
    (start_up (list_queue StatusPacket) (list_queue StatusItem) (list_queue VideoItem) true 0 0
      3).chain

poll-answer_example :
    (r : Bounded RxItem) × (arrivals (list_queue RxItem) air (some rx_queue) ≡ some r)
    × ((EspNow.poll
          (list_queue RxItem)
          16
          (reads (answer (list_queue StatusPacket)))
          r
          (started, [])).1
        ≡ Loop.poll (list_queue StatusPacket) (take 16 (legal air)) started)
poll-answer_example =
    poll-answer (list_queue StatusPacket) (list_queue RxItem) air rx_queue started refl

-- Lane 2, occupied, plate "B7".
abbrev reading_header : List ℕ
reading_header = 70 ∷ 80 ∷ 65 ∷ 82 ∷ 1 ∷ 2 ∷ 0 ∷ 0 ∷ 13 ∷ 0 ∷ 0 ∷ 0 ∷ []

abbrev reading_body : List ℕ
reading_body = 1 ∷ b'B' ∷ b'7' ∷ 0 ∷ 0 ∷ 0 ∷ 0 ∷ 0 ∷ 0 ∷ 0 ∷ 0 ∷ 0 ∷ 0 ∷ []

reading_header-IsReading : IsReading reading_header
unfolding Receiver.decode_header
reading_header-IsReading = record {
  magic_word = refl;
  msg_type = refl;
  data_len = refl;
  lane = omega arith;
}

started-HasLanes : HasLanes started
unfolding start_up init configure broadcast_hello
started-HasLanes = (refl, refl)

read_local_status-deliver_example :
    let (r, events) = Receiver.run (transfer reading_header reading_body false) start in
    let sent =
      Loop.read_local_status 30000
        (deliver events started)
        (Receiver.decode_header reading_header).stream_id
        empty_status in
    (r.phase ≡ Receiver.hunting)
    × (sent.occupied ≡ 1)
    × (c_str sent.plate ≡ c_str (wire_plate reading_body))
read_local_status-deliver_example =
    read_local_status-deliver reading_header reading_body false start 30000 started empty_status
      refl reading_header-IsReading started-HasLanes

-- A Gateway that erases its flash first, and finds no chip on the Ethernet bus.
abbrev answers : Answers
answers = record {
  nvs = no_free_pages;
  erase = true;
  nvs_again = initialised;
  netif = true;
  event_loop = true;
  radio = record { wifi = true; mode = true; start = true; esp_now = true };
  ethernet = record {
    isr = installed;
    bus = true;
    mac = true;
    phy = true;
    driver = false;
    attach = true;
    start = true;
  };
  video = record {
    ap_found = true;
    spi = record { rx_block = some []; tx_block = some []; slave = true };
  };
}

-- A node that is provisioned as the Gateway of three.
abbrev console : Console
console = record {
  scan = λ line. [];
  lines = [];
  flash = record { opened = true; node_id_set = true; chain_size_set = true; committed = true };
  nvs = record { node_id = some 0; chain_size = some 3 };
}

app_main-Reaches_example :
    Reaches
      (list_queue StatusPacket)
      (list_queue StatusItem)
      (list_queue VideoItem)
      (list_queue RxItem)
      (list_queue Relayed.Frame)
      list_peers
      answers
      (load_or_provision console.scan console.flash console.lines console.nvs)
      0
      []
      powered_up
      (app_main
        (list_queue StatusPacket)
        (list_queue StatusItem)
        (list_queue VideoItem)
        (list_queue RxItem)
        (list_queue Relayed.Frame)
        list_peers
        answers
        console
        0
        [])
app_main-Reaches_example =
    app_main-Reaches (list_queue StatusPacket) (list_queue StatusItem) (list_queue VideoItem)
      (list_queue RxItem) (list_queue Relayed.Frame) list_peers answers console 0 []

console-returned :
    load_or_provision console.scan console.flash console.lines console.nvs ≡ returned 0 3
unfolding load_or_provision
console-returned = refl

app_main-accounts_example :
    (s : System
      (list_queue StatusPacket)
      (list_queue StatusItem)
      (list_queue VideoItem)
      (list_queue RxItem)
      (list_queue Relayed.Frame)
      list_peers)
    × ((app_main
          (list_queue StatusPacket)
          (list_queue StatusItem)
          (list_queue VideoItem)
          (list_queue RxItem)
          (list_queue Relayed.Frame)
          list_peers
          answers
          console
          0
          []).0
        ≡ running s)
    × (let d =
          run
            (list_queue StatusPacket)
            (list_queue StatusItem)
            (list_queue VideoItem)
            day
            s.device in
        (d.uplink.st_sent
            + d.uplink.st_dropped
            + waiting (list_queue StatusItem) d.uplink.status_queue)
          % 2 ^ 32
        ≡ d.chain.stat_sunk % 2 ^ 32)
app_main-accounts_example =
    app_main-accounts (list_queue StatusPacket) (list_queue StatusItem) (list_queue VideoItem)
      (list_queue RxItem) (list_queue Relayed.Frame) list_peers answers console 0 3 [] day
      (record { items = []; depth = 32 }) console-returned refl refl refl
