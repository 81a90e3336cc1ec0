-- ===== src/Provisioning.antt =====
-- main/provisioning.cpp: how a node gets its place in the chain.
pub mod Identity
mod Tests
use esp32_s3_rap.Base.{
  ℕ, Bool, true, false, List, [], ◌∷◌, Option, none, some, u8, ltb, leb, ◌==◌, ◌||◌, ◌&&◌, not,
  if◌then◌else◌,
}
use esp32_s3_rap.Config.{max_chain_nodes, unprovisioned}

-- An `int`; `negsuc n` is -(n + 1).
pub data ℤ : Type 0 where
  pos : ℕ → ℤ
  negsuc : ℕ → ℤ

-- The namespace "rap": each key's value, if it is there.
pub record Nvs : Type 0 where
  pub node_id : Option ℕ
  pub chain_size : Option ℕ

-- The condition on what was scanned, and the casts to `uint8_t`.
unfoldable pub check_ids : ℤ → ℤ → Option (ℕ × ℕ)
check_ids (pos id) (pos chain_size) =
    if chain_size == 0 || (leb chain_size id || ltb max_chain_nodes chain_size)
    then none
    else some (u8 id, u8 chain_size)
check_ids (pos _) (negsuc _) = none
check_ids (negsuc _) _ = none

-- `scan` gives the numbers that `sscanf(line, "SETID %d %d", ...)` stores.
unfoldable pub parse_set_id : (List ℕ → List ℤ) → List ℕ → Option (ℕ × ℕ)
parse_set_id scan line = elim (scan line) [
  | [] ↦ none
  | id ∷ rest ↦ (elim rest [
    | [] ↦ none
    | chain_size ∷ more ↦ (elim more [ [] ↦ check_ids id chain_size | _ ∷ _ ↦ none ])
  ])
]

-- `nvs_get_u8`, which leaves the initial value where the key is missing.
abbrev pub nvs_get : Option ℕ → ℕ
nvs_get none = unprovisioned
nvs_get (some v) = v

abbrev pub is_valid : ℕ → ℕ → Bool
is_valid id chain_size =
    not (id == unprovisioned)
    && (not (chain_size == unprovisioned) && (ltb id chain_size && leb chain_size max_chain_nodes))

-- Whether nvs_open, the two calls of nvs_set_u8 and nvs_commit give ESP_OK.
pub record Flash : Type 0 where
  pub opened : Bool
  pub node_id_set : Bool
  pub chain_size_set : Bool
  pub committed : Bool

pub data Outcome : Type 0 where
  returned : (node_id chain_size : ℕ) → Outcome
  aborted : Outcome  -- a failed ESP_ERROR_CHECK resets the chip
  restarted : Nvs → Outcome  -- esp_restart, with what NVS then holds
  prompting : Outcome  -- no line that is understood has come yet

-- The identity that a line asked for, stored.
unfoldable pub save : Flash → ℕ × ℕ → Outcome
save flash (id, chain_size) =
    if flash.node_id_set && (flash.chain_size_set && flash.committed)
    then restarted (record { node_id = some id; chain_size = some chain_size })
    else aborted

-- The endless loop, on the lines that `fgets` reads; `none` is a null result.
unfoldable pub prompt : (List ℕ → List ℤ) → Flash → List (Option (List ℕ)) → Outcome
prompt scan flash [] = prompting
prompt scan flash (none ∷ lines) = prompt scan flash lines
prompt scan flash (some line ∷ lines) =
    let rest = prompt scan flash lines in
    elim (parse_set_id scan line) [ none ↦ rest | some ids ↦ save flash ids ]

unfoldable pub load_or_provision :
    (List ℕ → List ℤ) → Flash → List (Option (List ℕ)) → Nvs → Outcome
load_or_provision scan flash lines nvs =
    let id = nvs_get nvs.node_id in
    let chain_size = nvs_get nvs.chain_size in
    if not flash.opened
    then aborted
    else if is_valid id chain_size
    then returned id chain_size
    else prompt scan flash lines
