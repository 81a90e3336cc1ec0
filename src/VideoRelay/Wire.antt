-- ===== src/VideoRelay/Wire.antt =====
-- main/video_relay.cpp: what a connection between two nodes carries.
use esp32_s3_rap.Base.{ℕ, ◌^◌, ◌<◌, ◌≤◌, ◌≡◌, refl, ◌⊎◌, List, [], ◌∷◌, ◌++◌, arith, length, take}
use esp32_s3_rap.Config.{video_max_frame_bytes}
use esp32_s3_rap.VideoRelay.State.{
  FrameHeader, Frame, encode_frame_header, decode_frame_header, sizeof_frame_header,
}
use esp32_s3_rap.VideoRelay.Client.{heartbeat}

pub data Item : Type 0 where
  beat : Item
  frame : Frame → Item

abbrev pub wire : Item → List ℕ
wire beat = encode_frame_header heartbeat
wire (frame f) = encode_frame_header f.header ++ f.data_buffer.bytes

abbrev pub wires : List Item → List ℕ
wires [] = []
wires (item ∷ items) = wire item ++ wires items

-- A frame whose fields fit their C types, with all its bytes, of a size that the server takes.
pub record IsSound (f : Frame) : Type 0 where
  pub seq_fits : f.header.seq < 2 ^ 16
  pub whole : f.header.data_len ≡ length f.data_buffer.bytes
  pub nonempty : 0 < f.header.data_len
  pub bounded : f.header.data_len ≤ video_max_frame_bytes

abbrev pub IsItem : Item → Type 0
IsItem beat = Unit {0}
IsItem (frame f) = IsSound f

pub length-encode_frame_header :
    (h : FrameHeader) → length (encode_frame_header h) ≡ sizeof_frame_header
unfolding encode_frame_header
length-encode_frame_header h = refl

-- A header whose sequence number is below 2^16 and whose length is below 2^32 reads back.
pub decode-encode_frame_header :
    (h : FrameHeader)
    → h.seq < 2 ^ 16
    → h.data_len < 2 ^ 32
    → decode_frame_header (encode_frame_header h) ≡ h
unfolding encode_frame_header decode_frame_header
decode-encode_frame_header h s d = ground arith

-- The start of an item whose rest is missing.
abbrev pub IsPart : List ℕ → Type 0
IsPart tail =
    (length tail < sizeof_frame_header)
    ⊎ ((f : Frame) × (k : ℕ) × IsSound f
        × (k < f.header.data_len)
        × (tail ≡ encode_frame_header f.header ++ take k f.data_buffer.bytes))
