-- ===== src/VideoRelay/Connect.antt =====
-- main/video_relay.cpp: its copy of `connectWithTimeout`.
use esp32_s3_rap.Base.{ℕ, ◌*◌, ◌/◌, ◌%◌, Bool, true, false, [], ◌∷◌, ◌++◌, ◌==◌, if◌then◌else◌}
use esp32_s3_rap.Base.Connect.{connected, in_progress, refused, Answers, Socket, sock_err}

-- `fcntl(sock, F_SETFL, flags)` with the flags that were read at first.
abbrev pub restore : Socket → Socket → Socket
restore first sock = record sock { nonblocking = first.nonblocking }

unfoldable pub connect_with_timeout : Answers → ℕ → Socket → Bool × Socket
connect_with_timeout answers timeout_ms sock =
    let armed : Socket = record sock { nonblocking = true } in
    let tv : ℕ × ℕ = (timeout_ms / 1000, timeout_ms % 1000 * 1000) in
    let waited : Socket = record armed { waits = armed.waits ++ tv ∷ [] } in
    elim answers.started [
      | connected ↦ (true, restore sock armed)
      | refused ↦ (false, restore sock armed)
      | in_progress ↦
          if answers.selected
          then (sock_err answers.so_error == 0, restore sock waited)
          else (false, restore sock waited)
    ]
