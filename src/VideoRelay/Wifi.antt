-- ===== src/VideoRelay/Wifi.antt =====
-- main/video_relay.cpp: the names of the access points, in `init`.
use esp32_s3_rap.Base.{
  ℕ, ◌+◌, ◌-◌, ◌%◌, ◌<◌, ◌≤◌, ◌≡◌, ◌↔◌, refl, sym, ap, ◌∙◌, Bool, false, List, ◌∷◌, Option, none,
  some, arith, length, take, drop, u8, decimal, strncpy, c_str, if◌then◌else◌, length-decimal,
}
use esp32_s3_rap.Base.Slices.{take_all}
use esp32_s3_rap.Base.Text.{IsText, c_str-strncpy, take-strncpy}
use esp32_s3_rap.Config.{max_chain_nodes}

-- sizeof(apSsid), and that of `ssid` in ESP-IDF's `wifi_config_t`
abbrev pub ssid_text_size : ℕ
ssid_text_size = 16

abbrev pub ssid_size : ℕ
ssid_size = 32

-- "RAP-%u" into a buffer, up to its NUL.
unfoldable pub print_ssid : ℕ → List ℕ
print_ssid n = take (ssid_text_size - 1) (b'R' ∷ b'A' ∷ b'P' ∷ b'-' ∷ decimal n)

-- The fields that say which networks a node is on; `station` is `none` on the Gateway, which joins
-- no access point.
pub record WifiSetUp : Type 0 where
  pub ap_ssid : List ℕ
  pub ap_ssid_len : ℕ
  pub station : Option (List ℕ)

unfoldable pub wifi_set_up : ℕ → ℕ → Bool → WifiSetUp
wifi_set_up node_id chain_size is_gateway =
    let next = u8 ((node_id + 1) % chain_size) in
    record {
      ap_ssid = strncpy (print_ssid node_id) ssid_size;
      ap_ssid_len = u8 (length (print_ssid node_id));
      station = if is_gateway then none else some (strncpy (print_ssid next) ssid_size);
    }

-- The name that a station looks for is the one that an access point announces.
abbrev pub Joins : WifiSetUp → WifiSetUp → Type 0
Joins mine theirs =
    (name : List ℕ) × (mine.station ≡ some name)
    × (c_str name ≡ take theirs.ap_ssid_len theirs.ap_ssid)

print_ssid_all : (n : ℕ) → print_ssid n ≡ b'R' ∷ b'A' ∷ b'P' ∷ b'-' ∷ decimal n
unfolding print_ssid
print_ssid_all n =
    let size = length-decimal n in
    ap (λ l. b'R' ∷ b'A' ∷ b'P' ∷ b'-' ∷ l) (take_all 11 (decimal n) (omega arith))

decimal-IsText : (n : ℕ) → IsText (decimal n)
unfolding decimal
decimal-IsText n = ground arith

print_ssid-IsText : (n : ℕ) → IsText (print_ssid n)
print_ssid-IsText n =
    rw (print_ssid_all n)
      (omega arith, (omega arith, (omega arith, (omega arith, decimal-IsText n))))

length-print_ssid : (n : ℕ) → length (print_ssid n) ≤ 7
length-print_ssid n = let size = length-decimal n in rw (print_ssid_all n) (omega arith)

decimal_injective :
    (m n : ℕ) → m < max_chain_nodes → n < max_chain_nodes → decimal m ≡ decimal n → m ≡ n
unfolding decimal
decimal_injective m n hm hn e = ground arith

print_ssid_injective :
    (m n : ℕ) → m < max_chain_nodes → n < max_chain_nodes → print_ssid m ≡ print_ssid n → m ≡ n
print_ssid_injective m n hm hn e =
    decimal_injective m n hm hn (ap (drop 4) (sym (print_ssid_all m) ∙ e ∙ print_ssid_all n))

-- The name behind an array and a length.
announced :
    (n : ℕ) → take (u8 (length (print_ssid n))) (strncpy (print_ssid n) ssid_size) ≡ print_ssid n
announced n =
    let size = length-print_ssid n in
    let same : u8 (length (print_ssid n)) ≡ length (print_ssid n) = omega arith in
    ap (λ k. take k (strncpy (print_ssid n) ssid_size)) same
    ∙ take-strncpy (print_ssid n) ssid_size (print_ssid-IsText n) (omega arith)

looked_for : (n : ℕ) → c_str (strncpy (print_ssid n) ssid_size) ≡ print_ssid n
looked_for n =
    let size = length-print_ssid n in
    c_str-strncpy (print_ssid n) ssid_size (print_ssid-IsText n) (omega arith)

-- In a chain of at most kMaxChainNodes nodes, the station of relay `a` looks for the access point of
-- node `b`, Gateway or relay, exactly when `b` is the node after `a`.
pub wifi_set_up-Joins :
    (a b chain_size : ℕ) (role : Bool)
    → a < chain_size
    → b < chain_size
    → chain_size ≤ max_chain_nodes
    → Joins (wifi_set_up a chain_size false) (wifi_set_up b chain_size role)
      ↔ (b ≡ (a + 1) % chain_size)
unfolding wifi_set_up
wifi_set_up-Joins a b chain_size role ha hb m =
    let next = u8 ((a + 1) % chain_size) in
    let small : next ≡ (a + 1) % chain_size = grind arith in
    let within : next < max_chain_nodes = grind arith in
    (
      λ (name, has, same).
          let named : name ≡ strncpy (print_ssid next) ssid_size = cc in
          print_ssid_injective b next (omega arith) within
            (sym (announced b) ∙ sym same ∙ ap c_str named ∙ looked_for next)
          ∙ small,
      λ e. (
        strncpy (print_ssid next) ssid_size,
        refl,
        looked_for next ∙ ap print_ssid (small ∙ sym e) ∙ sym (announced b),
      ),
    )
