-- ===== src/VideoRelay/Client.antt =====
-- main/video_relay.cpp: `clientTask`, one connection to `next` at a time.
use esp32_s3_rap.Base.{
  Option, ℕ, zero, suc, ◌+◌, Bool, true, false, List, [], ◌∷◌, ◌++◌, none, some, u32, take,
  if◌then◌else◌,
}
use esp32_s3_rap.Base.Connect.{Answers, Socket}
use esp32_s3_rap.Base.Queue.{QueueApi}
use esp32_s3_rap.Base.Socket.{SendApi}
use esp32_s3_rap.Config.{video_heartbeat_stream}
use esp32_s3_rap.VideoRelay.State.{FrameHeader, Frame, Relay, encode_frame_header}
use esp32_s3_rap.VideoRelay.Connect.{connect_with_timeout}
use esp32_s3_rap.VideoRelay.Socket.{send_all}

abbrev pub heartbeat : FrameHeader
heartbeat = record { origin_node_id = 0; stream_id = video_heartbeat_stream; seq = 0; data_len = 0 }

-- A socket as `socket` gives it.
abbrev pub fresh_socket : Socket
fresh_socket = record { nonblocking = false; waits = [] }

module _ (net : SendApi) where
  open net use {Conn}

  -- The two calls of `sendAll`, joined by `&&`.
  unfoldable pub send_frame : Frame → Conn → Bool × Conn
  send_frame frame c =
      let (ok, d) = send_all net (encode_frame_header frame.header) c in
      if ok then send_all net (take frame.header.data_len frame.data_buffer.bytes) d else (false, d)

  module _ (out : QueueApi Frame) where
    open out use {Queue}

    -- A round of the inner loop: `linkOk`, the connection, the new globals, the blocks freed.
    unfoldable pub client_round : Conn → Relay Queue → Bool × Conn × Relay Queue × List ℕ
    unfolding send_frame
    client_round c relay = elim relay.out_queue [
      | none ↦ (false, c, relay, [])
      | some q ↦ (elim (out.receive q) [
        | none ↦ let (ok, d) = send_all net (encode_frame_header heartbeat) c in (ok, d, relay, [])
        | some (frame, r) ↦
            let (ok, d) = send_frame frame c in
            let len = frame.header.data_len in
            (
              ok,
              d,
              (if ok
                  then record relay {
                    out_queue = some r;
                    v_out = u32 (relay.v_out + 1);
                    v_out_bytes = u32 (relay.v_out_bytes + len);
                  }
                  else record relay { out_queue = some r; v_drop = u32 (relay.v_drop + 1) }),
              frame.data_buffer.address ∷ [],
            )
      ])
    ]

    -- The inner loop, for a number of rounds.
    unfoldable pub client_loop : ℕ → Conn → Relay Queue → Bool × Conn × Relay Queue × List ℕ
    unfolding client_round
    client_loop zero c relay = (true, c, relay, [])
    client_loop (suc rounds) c relay =
        let (ok, d, relay', freed) = client_round c relay in
        elim ok [
          | true ↦
              let (ok', e, relay'', later) = client_loop rounds d relay' in
              (ok', e, relay'', freed ++ later)
          | false ↦ (false, d, relay', freed)
        ]

    -- A pass of the outer loop: `none` if there is no socket, else what `connect` meets on it.
    unfoldable pub client_connection :
        Option Answers → ℕ → Conn → Relay Queue → Bool × Conn × Relay Queue × List ℕ
    unfolding client_loop
    client_connection none rounds c relay = (false, c, relay, [])
    client_connection (some answers) rounds c relay =
        let (up, sock) = connect_with_timeout answers 2000 fresh_socket in
        elim up [
          | true ↦
              let (ok, d, relay', freed) =
                client_loop rounds c (record relay {
                  client_up = true;
                  v_reconnects = u32 (relay.v_reconnects + 1);
                }) in
              (ok, d, record relay' { client_up = ok }, freed)
          | false ↦ (false, c, relay, [])
        ]
