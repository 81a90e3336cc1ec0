-- ===== src/Provisioning/Tests.antt =====
-- main/provisioning.cpp: the theorems about the identity, applied to a node that is set up.
use esp32_s3_rap.Base.{
  ◌-◌, ◌==◌, if◌then◌else◌, ℕ, ◌≡◌, refl, List, [], ◌∷◌, Option, none, some, true,
}
use esp32_s3_rap.Provisioning.{
  ℤ, pos, negsuc, Nvs, Flash, returned, restarted, load_or_provision, parse_set_id, check_ids,
}
use esp32_s3_rap.Provisioning.Identity.{IsIdentity, first_understood, provisioned-returned}

-- A scanner that reads one character per number, "~" for -1.
abbrev number : ℕ → ℤ
number c = if c == b'~' then negsuc 0 else pos (c - b'0')

abbrev scan : List ℕ → List ℤ
scan [] = []
scan (c ∷ line) = number c ∷ scan line

abbrev empty_nvs : Nvs
empty_nvs = record { node_id = none; chain_size = none }

-- Two lines that are not understood, then position 2 of 5.
abbrev console : List (Option (List ℕ))
console = some (b'5' ∷ b'5' ∷ []) ∷ none ∷ some (b'~' ∷ b'5' ∷ []) ∷ some (b'2' ∷ b'5' ∷ []) ∷ []

understood : first_understood scan console ≡ some (2, 5)
unfolding parse_set_id check_ids
understood = refl

abbrev writable : Flash
writable = record { opened = true; node_id_set = true; chain_size_set = true; committed = true }

provisioned-returned_example :
    (saved : Nvs) × (load_or_provision scan writable console empty_nvs ≡ restarted saved)
    × (load_or_provision scan writable [] saved ≡ returned 2 5)
    × IsIdentity 2 5
provisioned-returned_example =
    provisioned-returned scan writable console [] empty_nvs 2 5 refl refl understood

abbrev stored : Nvs
stored = record { node_id = some 3; chain_size = some 4 }

stored-returned : load_or_provision scan writable [] stored ≡ returned 3 4
unfolding load_or_provision
stored-returned = refl
