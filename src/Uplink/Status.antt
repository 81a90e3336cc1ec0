-- ===== src/Uplink/Status.antt =====
-- main/gateway_uplink.cpp: `flush`, `flushOne` and `statusUplinkTask`.
use esp32_s3_rap.Base.{
  ℕ, ◌+◌, ◌-◌, List, [], ◌∷◌, ◌++◌, Option, none, some, u32, ltb, ◌==◌, if◌then◌else◌, length, take,
  decimal, c_str, strncpy,
}
use esp32_s3_rap.Base.Queue.{QueueApi}
use esp32_s3_rap.Config.{max_plate_len}
use esp32_s3_rap.Uplink.State.{StatusItem, Uplink}

-- `char line[20 + kMaxPlateLen]`
abbrev pub line_size : ℕ
line_size = 31

-- What `"%u:%u:%u:%s"` stands for.
unfoldable pub line_text : StatusItem → List ℕ
line_text item =
    decimal item.node_id
    ++ (b':'
        ∷ (decimal item.stream_id ++ (b':' ∷ (decimal item.occupied ++ (b':' ∷ c_str item.plate)))))

-- The bytes given to `send`: `snprintf` keeps at most `sizeof(line) - 1` of the text and a NUL, and
-- returns the length of the whole text. `none` is a `send` that would read past the buffer.
unfoldable pub status_line : StatusItem → Option (List ℕ)
status_line item =
    let text = line_text item in
    if ltb (length text) line_size
    then some (text ++ (b'\n' ∷ []))
    else if length text == line_size
    then some (take (line_size - 1) text ++ (0 ∷ []))
    else none

-- How a connection to the backend went.
pub data Attempt : Type 0 where
  no_socket : Attempt
  no_connection : Attempt
  sent : ℕ → Attempt  -- `send` took this many bytes
  send_failed : Attempt

unfoldable pub flush_one : {S V : Type 0} → Attempt → StatusItem → Uplink S V → Uplink S V
flush_one no_socket item u = record u { st_dropped = u32 (u.st_dropped + 1) }
flush_one no_connection item u = record u { st_dropped = u32 (u.st_dropped + 1) }
flush_one send_failed item u = record u { st_dropped = u32 (u.st_dropped + 1) }
flush_one (sent n) item u = elim (status_line item) [
  | none ↦ u
  | some line ↦
      if n == length line
      then record u { st_sent = u32 (u.st_sent + 1) }
      else record u { st_dropped = u32 (u.st_dropped + 1) }
]

unfoldable pub status_item : ℕ → ℕ → ℕ → List ℕ → StatusItem
status_item node_id stream_id occupied plate = record {
  node_id = node_id;
  stream_id = stream_id;
  occupied = occupied;
  plate = strncpy plate max_plate_len ++ (0 ∷ []);
}

module _ {V : Type 0} (api : QueueApi StatusItem) where
  open api use {Queue}

  unfoldable pub flush : ℕ → ℕ → ℕ → List ℕ → Uplink Queue V → Uplink Queue V
  flush node_id stream_id occupied plate u = elim u.status_queue [
    | none ↦ u
    | some q ↦ (elim (api.send q (status_item node_id stream_id occupied plate)) [
      | some r ↦ record u { status_queue = some r; st_queued = u32 (u.st_queued + 1) }
      | none ↦ record u { st_dropped = u32 (u.st_dropped + 1) }
    ])
  ]

  -- One round of `statusUplinkTask`; with nothing in the queue it waits on.
  unfoldable pub status_round : Attempt → Uplink Queue V → Uplink Queue V
  status_round attempt u = elim u.status_queue [
    | none ↦ u
    | some q ↦ (elim (api.receive q) [
      | none ↦ u
      | some (item, r) ↦
          if u.link_up
          then flush_one attempt item (record u { status_queue = some r })
          else record u { status_queue = some r; st_dropped = u32 (u.st_dropped + 1) }
    ])
  ]
