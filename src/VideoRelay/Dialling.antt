-- ===== src/VideoRelay/Dialling.antt =====
-- main/video_relay.cpp and main/gateway_uplink.cpp: the two copies of `connectWithTimeout`.
use esp32_s3_rap.Base.{
  ℕ, ◌+◌, ◌*◌, ◌/◌, ◌%◌, ◌<◌, ◌≡◌, ◌↔◌, ◌⊎◌, refl, sym, inl, inr, Bool, true, false, [], ◌∷◌, ◌++◌,
  arith,
}
use esp32_s3_rap.Base.Connect.{Started, connected, in_progress, refused, Answers, Socket, sock_err}
use esp32_s3_rap.Uplink.Connect
use esp32_s3_rap.VideoRelay.Connect.{connect_with_timeout}

-- Connected at once, or when the wait was over, where `getsockopt` that fails counts as no error.
abbrev pub IsConnected : Answers → Type 0
IsConnected answers =
    (answers.started ≡ connected)
    ⊎ ((answers.started ≡ in_progress)
        × (answers.selected ≡ true)
        × (sock_err answers.so_error ≡ 0))

started_cases : (s : Started) → (s ≡ connected) ⊎ ((s ≡ refused) ⊎ (s ≡ in_progress))
started_cases connected = inl refl
started_cases refused = inr (inl refl)
started_cases in_progress = inr (inr refl)

bool_cases : (b : Bool) → (b ≡ true) ⊎ (b ≡ false)
bool_cases true = inl refl
bool_cases false = inr refl

unblocked :
    (answers : Answers) (timeout_ms : ℕ) (sock : Socket)
    → (connect_with_timeout answers timeout_ms sock).1.nonblocking ≡ sock.nonblocking
unfolding connect_with_timeout
unblocked answers timeout_ms sock = elim (started_cases answers.started) [
  | inl e ↦ rw e refl
  | inr (inl e) ↦ rw e refl
  | inr (inr e) ↦ elim (bool_cases answers.selected) [
    | inl s ↦ rw (e, s) refl
    | inr s ↦ rw (e, s) refl
  ]
]

waited :
    (answers : Answers) (timeout_ms : ℕ) (sock : Socket)
    → let out = connect_with_timeout answers timeout_ms sock in
      (out.1.waits ≡ sock.waits)
      ⊎ (out.1.waits ≡ sock.waits ++ (timeout_ms / 1000, timeout_ms % 1000 * 1000) ∷ [])
unfolding connect_with_timeout
waited answers timeout_ms sock = elim (started_cases answers.started) [
  | inl e ↦ inl (rw e refl)
  | inr (inl e) ↦ inl (rw e refl)
  | inr (inr e) ↦ elim (bool_cases answers.selected) [
    | inl s ↦ inr (rw (e, s) refl)
    | inr s ↦ inr (rw (e, s) refl)
  ]
]

connects :
    (answers : Answers) (timeout_ms : ℕ) (sock : Socket)
    → ((connect_with_timeout answers timeout_ms sock).0 ≡ true) ↔ IsConnected answers
unfolding connect_with_timeout
connects answers timeout_ms sock = elim (started_cases answers.started) [
  | inl e ↦ ground arith
  | inr (inl e) ↦ ground arith
  | inr (inr e) ↦ elim (bool_cases answers.selected) [ inl s ↦ ground arith | inr s ↦ ground arith ]
]

-- Both copies do the same.
connect_with_timeout_agree :
    (answers : Answers) (timeout_ms : ℕ) (sock : Socket)
    → connect_with_timeout answers timeout_ms sock
      ≡ Connect.connect_with_timeout answers timeout_ms sock
unfolding connect_with_timeout Connect.connect_with_timeout
connect_with_timeout_agree answers timeout_ms sock = refl

-- The two copies do the same. On every path the socket's blocking mode is what it was; it waited at
-- most once, and then for the timeout; and the result is `true` exactly when the connection was up at
-- once, or when `select` found the socket ready in time and `getsockopt` gave no error (where that
-- call itself fails it gives none).
pub connect_with_timeout_lem :
    (answers : Answers) (timeout_ms : ℕ) (sock : Socket)
    → let out = connect_with_timeout answers timeout_ms sock in
      (out.1.nonblocking ≡ sock.nonblocking)
      × ((out.1.waits ≡ sock.waits)
          ⊎ ((seconds micros : ℕ) × (out.1.waits ≡ sock.waits ++ (seconds, micros) ∷ [])
              × (seconds * 1000000 + micros ≡ timeout_ms * 1000)
              × (micros < 1000000)))
      × ((out.0 ≡ true) ↔ IsConnected answers)
      × (Connect.connect_with_timeout answers timeout_ms sock ≡ out)
connect_with_timeout_lem answers timeout_ms sock = (
  unblocked answers timeout_ms sock,
  elim (waited answers timeout_ms sock) [
    | inl same ↦ inl same
    | inr more ↦ inr (timeout_ms / 1000, timeout_ms % 1000 * 1000, more, omega arith, omega arith)
  ],
  connects answers timeout_ms sock,
  sym (connect_with_timeout_agree answers timeout_ms sock),
)
