-- ===== src/Spi/Receiver.antt =====
-- main/luckfox_spi.cpp: `receiverTask`, one SPI transaction at a time.
use esp32_s3_rap.Base.{
  ℕ, ◌+◌, ◌-◌, Bool, List, [], ◌∷◌, ◌++◌, Option, none, some, u32, min, ltb, ◌==◌, ◌||◌,
  if◌then◌else◌, length, take, drop, get_or, read16, read32,
}
use esp32_s3_rap.Config.{luckfox_spi_chunk_bytes, video_max_frame_bytes, max_plate_len}

-- kMagic, "RAPF"
abbrev pub magic : ℕ
magic = 0x52415046

-- enum WireMsgType
abbrev pub msg_video : ℕ
msg_video = 0

abbrev pub msg_status : ℕ
msg_status = 1

pub record WireHeader : Type 0 where
  pub magic_word : ℕ
  pub msg_type : ℕ
  pub stream_id : ℕ
  pub seq : ℕ
  pub data_len : ℕ

-- sizeof(LaneStatusWire)
abbrev pub sizeof_lane_status : ℕ
sizeof_lane_status = 13

-- `memcpy(&hdr, g_rxScratch, sizeof(hdr))`
unfoldable pub decode_header : List ℕ → WireHeader
decode_header scratch = record {
  magic_word = read32 scratch 0;
  msg_type = get_or scratch 4 0;
  stream_id = get_or scratch 5 0;
  seq = read16 scratch 6;
  data_len = read32 scratch 8;
}

-- Where the task stands when it waits for a transaction.
pub data Phase : Type 0 where
  hunting : Phase  -- for a header
  reading_status : WireHeader → Phase
  draining : (remaining : ℕ) → Phase  -- the payload of a frame that found no memory
  collecting : WireHeader → (collected : List ℕ) → Phase

pub data Event : Type 0 where
  frame : (stream_id seq : ℕ) (image : List ℕ) → Event  -- g_onFrame
  status : (stream_id occupied : ℕ) (plate : List ℕ) → Event  -- g_onStatus
  pause : (ms : ℕ) → Event  -- vTaskDelay

-- `no_sync_run` is `noSyncRun`.
pub record Receiver : Type 0 where
  pub phase : Phase
  pub no_sync_run : ℕ

-- What `spi_slave_transmit` leaves in `g_rxScratch` (`none`: it failed), and whether memory for a
-- frame can be had then.
pub record Transaction : Type 0 where
  pub scratch : Option (List ℕ)
  pub memory : Bool

-- The phase that follows a header with the magic word.
unfoldable pub check_header : Bool → WireHeader → Phase
check_header memory hdr =
    if hdr.msg_type == msg_status
    then (if hdr.data_len == sizeof_lane_status then reading_status hdr else hunting)
    else if hdr.data_len == 0 || ltb video_max_frame_bytes hdr.data_len
    then hunting
    else if memory
    then collecting hdr []
    else draining hdr.data_len

-- A transaction while no header has been seen: a run of more than 100 without one slows down.
unfoldable pub hunt : Bool → List ℕ → Receiver → Receiver × List Event
unfolding check_header
hunt memory scratch r =
    let hdr = decode_header scratch in
    let run = u32 (r.no_sync_run + 1) in
    if hdr.magic_word == magic
    then (record { phase = check_header memory hdr; no_sync_run = 0 }, [])
    else (record r { no_sync_run = run }, if ltb 100 run then pause 5 ∷ [] else [])

-- `status.plate[kMaxPlateLen] = '\0'`
abbrev pub wire_plate : List ℕ → List ℕ
wire_plate scratch = take max_plate_len (drop 1 scratch) ++ (0 ∷ [])

unfoldable pub collect : WireHeader → List ℕ → List ℕ → Receiver → Receiver × List Event
collect hdr collected scratch r =
    let image =
      collected ++ take (min (hdr.data_len - length collected) luckfox_spi_chunk_bytes) scratch in
    if ltb (length image) hdr.data_len
    then (record r { phase = collecting hdr image }, [])
    else (record r { phase = hunting }, frame hdr.stream_id hdr.seq image ∷ [])

unfoldable pub drain : ℕ → Receiver → Receiver
drain remaining r =
    let rest = remaining - min remaining luckfox_spi_chunk_bytes in
    record r { phase = if rest == 0 then hunting else draining rest }

unfoldable pub receive : Phase → Bool → List ℕ → Receiver → Receiver × List Event
receive hunting memory scratch r = hunt memory scratch r
receive (reading_status hdr) memory scratch r = (
  record r { phase = hunting },
  status hdr.stream_id (get_or scratch 0 0) (wire_plate scratch) ∷ [],
)
receive (draining remaining) memory scratch r = (drain remaining r, [])
receive (collecting hdr collected) memory scratch r = collect hdr collected scratch r

-- A failed transaction ends what was under way.
unfoldable pub fail : Phase → Receiver → Receiver × List Event
fail hunting r = (r, pause 10 ∷ [])
fail (reading_status _) r = (record r { phase = hunting }, [])
fail (draining _) r = (record r { phase = hunting }, [])
fail (collecting _ _) r = (record r { phase = hunting }, [])

unfoldable pub step : Transaction → Receiver → Receiver × List Event
step t r = elim t.scratch [
  | none ↦ fail r.phase r
  | some scratch ↦ receive r.phase t.memory scratch r
]

unfoldable pub run : List Transaction → Receiver → Receiver × List Event
run [] r = (r, [])
run (t ∷ ts) r = let (r', events) = step t r in let (r'', more) = run ts r' in (r'', events ++ more)

-- When the task starts.
abbrev pub start : Receiver
start = record { phase = hunting; no_sync_run = 0 }
