-- ===== src/VideoRelay/Accounting.antt =====
-- main/video_relay.cpp: what the client's counters say of the frames that leave the queue.
use mathlib.Core.List.{List}
use esp32_s3_rap.Base.{
  ℕ, zero, suc, ◌+◌, ◌%◌, ◌^◌, ◌≡◌, refl, ap, ◌∙◌, ◌⊎◌, inl, inr, Bool, true, false, ◌++◌, Option,
  none, some, arith, length, u32, Bool-cases, append_assoc, length-append,
}
use esp32_s3_rap.Base.Connect.{Answers}
use esp32_s3_rap.Base.Queue.{QueueApi, receive_cases}
use esp32_s3_rap.Base.Socket.{SendApi}
use esp32_s3_rap.VideoRelay.State.{Frame, Relay}
use esp32_s3_rap.VideoRelay.Connect.{connect_with_timeout}
use esp32_s3_rap.VideoRelay.Client.{client_round, client_loop, client_connection, fresh_socket}
use esp32_s3_rap.VideoRelay.Blocks.{queued_by}
use esp32_s3_rap.VideoRelay.Ownership.{client_round-frees, client_round_queue}

module _ (net : SendApi) (out : QueueApi Frame) where
  open net use {Conn}

  -- Of a result: the blocks freed are those that left the queue, from its front; each counts as sent
  -- or as dropped; and no frame counts as dropped but the one on which the connection failed.
  abbrev pub Accounted : Relay out.Queue → Bool × Conn × Relay out.Queue × List ℕ → Type 0
  Accounted relay result =
      (result.3 ++ queued_by out result.2.out_queue ≡ queued_by out relay.out_queue)
      × ((result.2.v_out + result.2.v_drop) % 2 ^ 32
          ≡ (relay.v_out + relay.v_drop + length result.3) % 2 ^ 32)
      × ((result.2.v_drop ≡ relay.v_drop)
          ⊎ ((result.0 ≡ false) × (result.2.v_drop ≡ u32 (relay.v_drop + 1))))

  client_round_counters :
      (c : Conn) (q : out.Queue) (relay : Relay out.Queue)
      → relay.out_queue ≡ some q
      → let result = client_round net out c relay in
        ((result.2.v_out + result.2.v_drop) % 2 ^ 32
          ≡ (relay.v_out + relay.v_drop + length result.3) % 2 ^ 32)
        × ((result.2.v_drop ≡ relay.v_drop)
            ⊎ ((result.0 ≡ false) × (result.2.v_drop ≡ u32 (relay.v_drop + 1))))
  unfolding client_round
  client_round_counters c q relay has = ground (arith, receive_cases out q)

  client_loop-Accounted :
      (rounds : ℕ) (c : Conn) (q : out.Queue) (relay : Relay out.Queue)
      → relay.out_queue ≡ some q
      → Accounted relay (client_loop net out rounds c relay)
  unfolding client_loop
  client_loop-Accounted zero c q relay has = (refl, omega arith, inl refl)
  client_loop-Accounted (suc rounds) c q relay has =
      let (counted, drops) = client_round_counters c q relay has in
      let left = client_round-frees net out c relay in
      let result = client_round net out c relay in
      elim (Bool-cases result.0) [
        | inl ok ↦
            let (r, has') = client_round_queue net out c q relay has in
            let (left', counted', drops') = client_loop-Accounted rounds result.1 r result.2 has' in
            rw (client_loop, ok)
              (
                append_assoc result.3 _ _ ∙ ap (λ l. result.3 ++ l) left' ∙ left,
                ground (
                  arith,
                  length-append result.3 (client_loop net out rounds result.1 result.2).3,
                ),
                ground arith,
              )
        | inr failed ↦ rw (client_loop, failed) (left, counted, ground arith)
      ]

  -- A pass of the client, whatever becomes of the socket, on a relay with its queue: the frames that
  -- it frees are the first ones of the queue and the others stay there; each that it frees counts as
  -- sent or as dropped (modulo 2^32); and it drops none but the one on which the connection failed.
  pub client_connection-Accounted :
      (answers : Option Answers) (rounds : ℕ) (c : Conn) (q : out.Queue) (relay : Relay out.Queue)
      → relay.out_queue ≡ some q
      → Accounted relay (client_connection net out answers rounds c relay)
  unfolding client_connection
  client_connection-Accounted none rounds c q relay has = (refl, omega arith, inl refl)
  client_connection-Accounted (some answers) rounds c q relay has =
      elim (Bool-cases (connect_with_timeout answers 2000 fresh_socket).0) [
        | inl up ↦
            rw (client_connection, up)
              (client_loop-Accounted rounds c q
                (record relay { client_up = true; v_reconnects = u32 (relay.v_reconnects + 1) })
                has)
        | inr down ↦ rw (client_connection, down) (refl, omega arith, inl refl)
      ]
