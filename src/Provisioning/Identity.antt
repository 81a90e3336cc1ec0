-- ===== src/Provisioning/Identity.antt =====
-- main/provisioning.cpp: which identities `loadOrProvision` returns.
use esp32_s3_rap.Base.{
  ℕ, ◌<◌, ◌≤◌, ◌≡◌, true, false, List, [], ◌∷◌, Option, none, some, arith, ◌&&◌, if◌then◌else◌,
}
use esp32_s3_rap.Config.{max_chain_nodes}
use esp32_s3_rap.Provisioning.{
  ℤ, pos, negsuc, Nvs, check_ids, parse_set_id, nvs_get, is_valid, returned, restarted, aborted,
  prompt, Flash, save, load_or_provision,
}

-- A position in a chain of a legal size.
abbrev pub IsIdentity : ℕ → ℕ → Type 0
IsIdentity id chain_size = (id < chain_size) × (chain_size ≤ max_chain_nodes)

-- What the first line that is understood asks for.
abbrev pub first_understood : (List ℕ → List ℤ) → List (Option (List ℕ)) → Option (ℕ × ℕ)
first_understood scan [] = none
first_understood scan (none ∷ lines) = first_understood scan lines
first_understood scan (some line ∷ lines) =
    let rest = first_understood scan lines in
    elim (parse_set_id scan line) [ none ↦ rest | some ids ↦ some ids ]

check_ids-IsIdentity :
    (a b : ℤ) (id chain_size : ℕ) → check_ids a b ≡ some (id, chain_size) → IsIdentity id chain_size
unfolding check_ids
check_ids-IsIdentity (pos a) (pos b) id chain_size e = ground arith
check_ids-IsIdentity (pos a) (negsuc b) id chain_size e = ground arith
check_ids-IsIdentity (negsuc a) b id chain_size e = ground arith

scanned-IsIdentity :
    (numbers : List ℤ) (id chain_size : ℕ)
    → (elim numbers [
      | [] ↦ none
      | a ∷ rest ↦ (elim rest [
        | [] ↦ none
        | b ∷ more ↦ (elim more [ [] ↦ check_ids a b | _ ∷ _ ↦ none ])
      ])
    ])
      ≡ some (id, chain_size)
    → IsIdentity id chain_size
scanned-IsIdentity [] id chain_size e = ground arith
scanned-IsIdentity (a ∷ []) id chain_size e = ground arith
scanned-IsIdentity (a ∷ b ∷ []) id chain_size e = check_ids-IsIdentity a b id chain_size e
scanned-IsIdentity (a ∷ b ∷ c ∷ more) id chain_size e = ground arith

parse_set_id-IsIdentity :
    (scan : List ℕ → List ℤ) (line : List ℕ) (id chain_size : ℕ)
    → parse_set_id scan line ≡ some (id, chain_size)
    → IsIdentity id chain_size
unfolding parse_set_id
parse_set_id-IsIdentity scan line id chain_size e = scanned-IsIdentity (scan line) id chain_size e

prompt-never_returns :
    (scan : List ℕ → List ℤ) (flash : Flash) (lines : List (Option (List ℕ))) (id chain_size : ℕ)
    → prompt scan flash lines ≡ returned id chain_size
    → IsIdentity id chain_size
unfolding prompt save
prompt-never_returns scan flash [] id chain_size e = ground arith
prompt-never_returns scan flash (none ∷ lines) id chain_size e =
    prompt-never_returns scan flash lines id chain_size e
prompt-never_returns scan flash (some line ∷ lines) id chain_size e =
    ground (arith, prompt-never_returns scan flash lines id chain_size)

-- Whatever NVS holds and whatever lines come, an identity that `loadOrProvision` returns is a
-- position in a chain of at most `kMaxChainNodes` nodes.
pub load_or_provision-IsIdentity :
    (scan : List ℕ → List ℤ) (flash : Flash) (lines : List (Option (List ℕ))) (nvs : Nvs)
    (id chain_size : ℕ)
    → load_or_provision scan flash lines nvs ≡ returned id chain_size
    → IsIdentity id chain_size
unfolding load_or_provision
load_or_provision-IsIdentity scan flash lines nvs id chain_size e =
    ground (arith, prompt-never_returns scan flash lines id chain_size)

understood-IsIdentity :
    (scan : List ℕ → List ℤ) (lines : List (Option (List ℕ))) (id chain_size : ℕ)
    → first_understood scan lines ≡ some (id, chain_size)
    → IsIdentity id chain_size
understood-IsIdentity scan [] id chain_size e = ground arith
understood-IsIdentity scan (none ∷ lines) id chain_size e =
    understood-IsIdentity scan lines id chain_size e
understood-IsIdentity scan (some line ∷ lines) id chain_size e = ground (
  arith,
  understood-IsIdentity scan lines id chain_size,
  parse_set_id-IsIdentity scan line id chain_size,
)

prompt-understood :
    (scan : List ℕ → List ℤ) (flash : Flash) (lines : List (Option (List ℕ))) (id chain_size : ℕ)
    → first_understood scan lines ≡ some (id, chain_size)
    → prompt scan flash lines ≡ save flash (id, chain_size)
unfolding prompt
prompt-understood scan flash [] id chain_size e = ground arith
prompt-understood scan flash (none ∷ lines) id chain_size e =
    prompt-understood scan flash lines id chain_size e
prompt-understood scan flash (some line ∷ lines) id chain_size e =
    ground (arith, prompt-understood scan flash lines id chain_size)

-- On a node whose NVS opens and holds no valid identity, the first console line that is understood,
-- if one comes, is stored and restarts the device where the writes succeed, and aborts where one
-- fails. What it asked for is a legal identity, and once stored the next start returns it, whatever
-- the console says then.
pub provisioned-returned :
    (scan : List ℕ → List ℤ) (flash : Flash) (lines later : List (Option (List ℕ))) (nvs : Nvs)
    (id chain_size : ℕ)
    → flash.opened ≡ true
    → is_valid (nvs_get nvs.node_id) (nvs_get nvs.chain_size) ≡ false
    → first_understood scan lines ≡ some (id, chain_size)
    → (saved : Nvs) × (load_or_provision scan flash lines nvs ≡ (
        if flash.node_id_set && (flash.chain_size_set && flash.committed)
        then restarted saved
        else aborted))
      × (load_or_provision scan flash later saved ≡ returned id chain_size)
      × IsIdentity id chain_size
unfolding load_or_provision save
provisioned-returned scan flash lines later nvs id chain_size open_ok invalid e =
    let legal = understood-IsIdentity scan lines id chain_size e in
    let saves = prompt-understood scan flash lines id chain_size e in
    let valid : is_valid id chain_size ≡ true = ground arith in
    (
      record { node_id = some id; chain_size = some chain_size },
      simp (open_ok, invalid) (unfold save in saves),
      simp (open_ok, valid),
      legal,
    )
