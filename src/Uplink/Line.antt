-- ===== src/Uplink/Line.antt =====
-- main/gateway_uplink.cpp: the line of a reading.
use esp32_s3_rap.Base.{
  ℕ, zero, suc, ◌≤◌, ◌≡◌, List, [], ◌∷◌, ◌++◌, arith, some, length, decimal, length-decimal, c_str,
  strncpy, length-append,
}
use esp32_s3_rap.Config.{max_plate_len}
use esp32_s3_rap.Uplink.Status.{line_text, status_line, status_item}

length-c_str : (src : List ℕ) (n : ℕ) → length (c_str (strncpy src n ++ (0 ∷ []))) ≤ n
unfolding c_str strncpy
length-c_str [] zero = omega arith
length-c_str [] (suc n) = omega arith
length-c_str (c ∷ src) zero = omega arith
length-c_str (c ∷ src) (suc n) = ground (arith, length-c_str src n)

pub length-line_text :
    (node_id stream_id occupied : ℕ) (plate : List ℕ)
    → length (line_text (status_item node_id stream_id occupied plate)) ≤ 23
unfolding line_text status_item
length-line_text node_id stream_id occupied plate =
    let text = c_str (strncpy plate max_plate_len ++ (0 ∷ [])) in
    let second = decimal occupied ++ (b':' ∷ text) in
    let first = decimal stream_id ++ (b':' ∷ second) in
    omega (
      arith,
      length-append (decimal node_id) (b':' ∷ first),
      length-append (decimal stream_id) (b':' ∷ second),
      length-append (decimal occupied) (b':' ∷ text),
      length-decimal node_id,
      length-decimal stream_id,
      length-decimal occupied,
      length-c_str plate max_plate_len,
    )

-- Whatever `flush` was given, the whole text fits the buffer: the line is the text of all four
-- fields and a newline, at most 24 bytes long, and no byte past the buffer is read.
pub status_line-whole :
    (node_id stream_id occupied : ℕ) (plate : List ℕ)
    → let item = status_item node_id stream_id occupied plate in
      (status_line item ≡ some (line_text item ++ (b'\n' ∷ [])))
      × (length (line_text item ++ (b'\n' ∷ [])) ≤ 24)
unfolding status_line
status_line-whole node_id stream_id occupied plate =
    let item = status_item node_id stream_id occupied plate in
    ground (
      arith,
      length-line_text node_id stream_id occupied plate,
      length-append (line_text item) (b'\n' ∷ []),
    )
