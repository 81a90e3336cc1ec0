-- ===== src/VideoRelay/Tests.antt =====
-- main/video_relay.cpp: the theorems about the relay, applied to small inputs.
use mathlib.Core.List.{Perm}
use esp32_s3_rap.Base.{
  ℕ, ◌%◌, ◌+◌, ◌*◌, ◌<◌, ◌≤◌, ◌≡◌, ◌≢◌, ◌⊎◌, ◌↔◌, refl, inr, true, false, List, [], ◌∷◌, ◌++◌,
  Option, some, arith, take, map, set,
}
use esp32_s3_rap.Base.Queue.{QueueApi}
use esp32_s3_rap.Base.ListQueue.{Bounded, list_queue}
use esp32_s3_rap.Base.ListSocket.{list_stream, list_stream-IsFinal, list_conn}
use esp32_s3_rap.Base.Connect.{Answers, in_progress}
use esp32_s3_rap.Config.{self_test_frame_bytes}
use esp32_s3_rap.Uplink.Connect
use esp32_s3_rap.Uplink.State.{VideoItem, power_off, disconnected}
use esp32_s3_rap.VideoRelay.State.{FrameHeader, Frame, Relay, at_boot, encode_frame_header}
use esp32_s3_rap.VideoRelay.Socket.{
  recv_all, send_all, send_loop, Sent, recv_all-bytes, send_all-Sent,
}
use esp32_s3_rap.VideoRelay.Frames.{Globals, self_test_frame_ok, enqueue_or_drop}
use esp32_s3_rap.VideoRelay.Server.{serve, framed}
use esp32_s3_rap.VideoRelay.Client.{client_loop, client_connection}
use esp32_s3_rap.VideoRelay.Wire.{IsSound}
use esp32_s3_rap.VideoRelay.Serving.{handle_items, one_more_dropped}
use esp32_s3_rap.VideoRelay.Sending.{offered}
use esp32_s3_rap.VideoRelay.Hop.{hop-part}
use esp32_s3_rap.VideoRelay.Arrival.{HasQueue, content_of, hop-queue}
use esp32_s3_rap.VideoRelay.Blocks.{produced, arrived, sends, links, Event, held, run}
use esp32_s3_rap.VideoRelay.Ownership.{run-brought}
use esp32_s3_rap.Spi.Starting.{unlinked}
use esp32_s3_rap.VideoRelay.Starting
use esp32_s3_rap.VideoRelay.Starting.{sta_disconnected, sta_connected}
use esp32_s3_rap.VideoRelay.Joining.{attempts, handle_all, init-attempts}
use esp32_s3_rap.VideoRelay.SelfTest.{
  first_producer, produce, produced_frame, produce-self_test_frame_ok, self_test_frame_ok-set,
}
use esp32_s3_rap.VideoRelay.Setup.{set_up, create_out_queue, dotted, ap_address, set_up-next_ip}
use esp32_s3_rap.VideoRelay.Wifi.{Joins, wifi_set_up, wifi_set_up-Joins}
use esp32_s3_rap.VideoRelay.Accounting.{Accounted, client_connection-Accounted}
use esp32_s3_rap.VideoRelay.Connect.{connect_with_timeout}
use esp32_s3_rap.VideoRelay.Dialling.{IsConnected, connect_with_timeout_lem}

abbrev header : FrameHeader
header = record { origin_node_id = 2; stream_id = 1; seq = 700; data_len = 3 }

abbrev shot : Frame
shot = record { header = header; data_buffer = record { address = 40; bytes = 7 ∷ 8 ∷ 9 ∷ [] } }

abbrev other_shot : Frame
other_shot = record shot {
  header = record header { seq = 701; data_len = 1 };
  data_buffer = record { address = 41; bytes = 5 ∷ [] };
}

shot-IsSound : IsSound shot
shot-IsSound = record {
  seq_fits = omega arith;
  whole = refl;
  nonempty = omega arith;
  bounded = omega arith;
}

other_shot-IsSound : IsSound other_shot
other_shot-IsSound = record {
  seq_fits = omega arith;
  whole = refl;
  nonempty = omega arith;
  bounded = omega arith;
}

abbrev shots : Bounded Frame
shots = record { items = shot ∷ other_shot ∷ []; depth = 10 }

abbrev no_shots : Bounded Frame
no_shots = record { items = []; depth = 10 }

abbrev sender : Relay (Bounded Frame)
sender = record at_boot { node_id = 3; next_id = 2; out_queue = some shots }

abbrev out : QueueApi Frame
out = list_queue Frame

abbrev up : QueueApi VideoItem
up = list_queue VideoItem

abbrev receiver : Globals out up (Unit {0})
receiver = record {
  relay = record at_boot { node_id = 2; out_queue = some no_shots };
  uplink = power_off;
}

abbrev connection : List ℕ
connection = (client_loop list_conn out 3 [] sender).1

abbrev memory : List (Option ℕ)
memory = some 60 ∷ some 61 ∷ some 62 ∷ []

recv_all-bytes_example :
    (r : List ℕ) × (recv_all list_stream 4 (1 ∷ 2 ∷ 3 ∷ 4 ∷ 5 ∷ [])
      ≡ (some (1 ∷ 2 ∷ 3 ∷ 4 ∷ []), r))
    × (r ≡ 5 ∷ [])
recv_all-bytes_example =
    recv_all-bytes list_stream (1 ∷ 2 ∷ 3 ∷ 4 ∷ []) (5 ∷ []) 4 (1 ∷ 2 ∷ 3 ∷ 4 ∷ 5 ∷ []) refl refl

abbrev seven_bytes : List ℕ
seven_bytes = 1 ∷ 2 ∷ 3 ∷ 4 ∷ 5 ∷ 6 ∷ 7 ∷ []

send_all-Sent_example :
    Sent list_conn (9 ∷ []) seven_bytes (send_all list_conn seven_bytes (9 ∷ []))
send_all-Sent_example = send_all-Sent list_conn seven_bytes (9 ∷ [])

hop-part_example :
    (k : ℕ) × (k ≤ 3)
    × (((serve list_stream out up memory (take 13 connection) receiver).0
          ≡ handle_items out up (take k (offered 3 (shot ∷ other_shot ∷ []))) memory receiver)
        ⊎ ((serve list_stream out up memory (take 13 connection) receiver).0
            ≡ one_more_dropped out up (
                handle_items out up (take k (offered 3 (shot ∷ other_shot ∷ []))) memory receiver)))
hop-part_example =
    hop-part list_conn list_stream out out up 3 13 (shot ∷ other_shot ∷ []) shots sender []
      (take 13 connection) memory receiver (shot-IsSound, (other_shot-IsSound, tt)) refl refl
      list_stream-IsFinal refl refl

hop-queue_example :
    (r : Bounded Frame) × HasQueue out up (serve list_stream out up memory connection receiver).0 r
    × (map content_of r.items ≡ content_of shot ∷ content_of other_shot ∷ [])
unfolding client_loop send_all send_loop encode_frame_header
hop-queue_example =
    hop-queue list_conn list_stream out out up 3 (shot ∷ other_shot ∷ []) shots sender [] connection
      memory no_shots receiver (shot-IsSound, (other_shot-IsSound, tt)) refl refl (omega arith) refl
      refl refl (refl, refl) ((60, refl), ((61, refl), ((62, refl), tt))) (omega arith)
      (omega arith)

abbrev video_events : List (Event (List ℕ))
video_events =
    produced 1 8 (record { address = 50; bytes = 1 ∷ [] }) 1
    ∷ arrived (framed (record shot { data_buffer = record shot.data_buffer { address = 51 } }))
    ∷ sends []
    ∷ links disconnected
    ∷ []

run-brought_example :
    let (w, freed) = run list_conn out up video_events receiver in
    Perm (freed ++ held list_conn out up w) (50 ∷ 51 ∷ [])
run-brought_example =
    run-brought list_conn out up video_events receiver (inr (refl, no_shots, refl))

abbrev test_frame : Frame
test_frame = produced_frame 70 2 1 700

produce-self_test_frame_ok_example :
    (f : Frame) × (f.header
      ≡ record { origin_node_id = 2; stream_id = 0; seq = 0; data_len = self_test_frame_bytes })
    × (let (p', w', freed) = produce out up (some 70) first_producer receiver in
        (w', freed)
        ≡ enqueue_or_drop out up f
            (record receiver { relay = record receiver.relay { v_local = 1 } }))
    × (self_test_frame_ok (record f { data_buffer = record f.data_buffer { address = 80 } }) ≡ true)
produce-self_test_frame_ok_example = produce-self_test_frame_ok out up 70 80 first_producer receiver

self_test_frame_ok-set_example :
    self_test_frame_ok (record test_frame {
      data_buffer = record test_frame.data_buffer { bytes = set test_frame.data_buffer.bytes 2 0 };
    })
    ≡ self_test_frame_ok test_frame
self_test_frame_ok-set_example =
    self_test_frame_ok-set test_frame 2 0 refl (omega arith) (omega arith) (omega arith)
      (omega arith)

set_up-next_ip_example :
    let r = create_out_queue out (set_up 3 4 false at_boot) in
    (r.next_ip ≡ dotted (ap_address r.next_id)) × (r.next_ip ≢ dotted (ap_address 3))
set_up-next_ip_example =
    set_up-next_ip out 3 4 false at_boot (omega arith) (omega arith) (omega arith)

abbrev slow : Answers
slow = record { started = in_progress; selected = true; so_error = some 0 }

connect_with_timeout_lem_example :
    let out = connect_with_timeout slow 2500 (record { nonblocking = false; waits = [] }) in
    (out.1.nonblocking ≡ false)
    × ((out.1.waits ≡ [])
        ⊎ ((seconds micros : ℕ) × (out.1.waits ≡ (seconds, micros) ∷ [])
            × (seconds * 1000000 + micros ≡ 2500 * 1000)
            × (micros < 1000000)))
    × ((out.0 ≡ true) ↔ IsConnected slow)
    × (Connect.connect_with_timeout slow 2500 (record { nonblocking = false; waits = [] }) ≡ out)
connect_with_timeout_lem_example =
    connect_with_timeout_lem slow 2500 (record { nonblocking = false; waits = [] })

wifi_set_up-Joins_example : Joins (wifi_set_up 3 4 false) (wifi_set_up 0 4 true) ↔ (0 ≡ (3 + 1) % 4)
wifi_set_up-Joins_example = wifi_set_up-Joins 3 0 4 true (omega arith) (omega arith) (omega arith)

client_connection-Accounted_example :
    Accounted list_conn out sender (client_connection list_conn out (some slow) 3 [] sender)
client_connection-Accounted_example =
    client_connection-Accounted list_conn out (some slow) 3 [] shots sender refl

abbrev start_answers : Starting.Answers
start_answers = record {
  ap_found = true;
  spi = record { rx_block = some []; tx_block = some []; slave = true };
}

init-attempts_example :
    let r = Starting.init out start_answers 2 3 false at_boot unlinked in
    attempts r.1
      + attempts (handle_all (sta_disconnected ∷ sta_connected ∷ sta_disconnected ∷ []) r.0.0)
    ≡ 3
init-attempts_example =
    init-attempts out start_answers 2 3 false at_boot unlinked
      (sta_disconnected ∷ sta_connected ∷ sta_disconnected ∷ [])
