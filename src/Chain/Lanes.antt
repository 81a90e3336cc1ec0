-- ===== src/Chain/Lanes.antt =====
-- main/chain_node.cpp: `setLaneStatus` and `readLocalStatus`.
use esp32_s3_rap.Base.{
  ℕ, zero, suc, ◌<◌, ◌≤◌, ◌≡◌, ◌≢◌, refl, ◌⊎◌, inl, inr, List, [], ◌∷◌, ◌++◌, arith, length,
  strncpy, c_str, take, get_or-set_self, get_or-set_ne, replicate,
}
use esp32_s3_rap.Config.{max_plate_len, video_streams_per_node}
use esp32_s3_rap.Protocol.{StatusPacket}
use esp32_s3_rap.Chain.State.{Node, no_plate}
use esp32_s3_rap.Chain.Loop.{set_lane_status, read_local_status}

-- The text that `strncpy` copies, read back up to its NUL.
pub c_str-strncpy : (src : List ℕ) (n : ℕ) → c_str (strncpy src n ++ (0 ∷ [])) ≡ take n (c_str src)
unfolding strncpy c_str
c_str-strncpy [] zero = refl
c_str-strncpy [] (suc n) = refl
c_str-strncpy (c ∷ src) zero = refl
c_str-strncpy (c ∷ src) (suc n) = ground (arith, c_str-strncpy src n)

strncpy-replicate : (n : ℕ) → strncpy (replicate n 0 ++ (0 ∷ [])) n ≡ replicate n 0
unfolding strncpy
strncpy-replicate zero = refl
strncpy-replicate (suc n) = refl

-- Copying a copied text gives the same bytes.
strncpy-append_zero : (src : List ℕ) (n : ℕ) → strncpy (strncpy src n ++ (0 ∷ [])) n ≡ strncpy src n
unfolding strncpy
strncpy-append_zero [] n = strncpy-replicate n
strncpy-append_zero (c ∷ src) zero = refl
strncpy-append_zero (c ∷ src) (suc n) = ground (arith, strncpy-append_zero src n)

abbrev pub HasLanes : {Q : Type 0} → Node Q → Type 0
HasLanes n =
    (length n.lane_occupied ≡ video_streams_per_node)
    × (length n.lane_plate ≡ video_streams_per_node)

-- On a node with its three lanes' arrays, a reading for one of the lanes is what the chain sends for
-- that lane next: its occupancy, and the first `kMaxPlateLen` characters of its plate.
pub read_local_status-set_lane_status :
    {Q : Type 0} (now stream_id occupied : ℕ) (plate : List ℕ) (n : Node Q) (packet : StatusPacket)
    → HasLanes n
    → stream_id < video_streams_per_node
    → let r = read_local_status now (set_lane_status stream_id occupied plate n) stream_id packet in
      (r.occupied ≡ occupied) × (c_str r.plate ≡ take max_plate_len (c_str plate))
unfolding read_local_status set_lane_status
read_local_status-set_lane_status now i occupied plate n packet lanes h = ground (
  arith,
  get_or-set_self n.lane_occupied i occupied 0,
  get_or-set_self n.lane_plate i (strncpy plate max_plate_len ++ (0 ∷ [])) no_plate,
  strncpy-append_zero plate max_plate_len,
  c_str-strncpy plate max_plate_len,
)

-- A reading for one lane leaves what the chain sends for every other lane as it was; a reading whose
-- stream id is no lane's leaves it for all lanes.
pub read_local_status-set_lane_status_ne :
    {Q : Type 0} (now i j occupied : ℕ) (plate : List ℕ) (n : Node Q) (packet : StatusPacket)
    → (i ≢ j) ⊎ (video_streams_per_node ≤ i)
    → read_local_status now (set_lane_status i occupied plate n) j packet
      ≡ read_local_status now n j packet
unfolding read_local_status set_lane_status
read_local_status-set_lane_status_ne now i j occupied plate n packet (inl h) = ground (
  arith,
  get_or-set_ne n.lane_occupied i j occupied 0 h,
  get_or-set_ne n.lane_plate i j (strncpy plate max_plate_len ++ (0 ∷ [])) no_plate h,
)
read_local_status-set_lane_status_ne now i j occupied plate n packet (inr h) = ground arith
