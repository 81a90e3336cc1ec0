-- ===== src/Base/Socket.antt =====
-- lwIP's stream sockets, as the source uses them: a connection delivers the peer's bytes in order,
-- as many at a time as it likes, until it ends or a call times out.
use Prim.Native.Nat.{ℕ, ◌<◌, ◌≤◌}
use mathlib.Core.Path.{◌≡◌}
use mathlib.Core.Logic.{◌≢◌}
use mathlib.Core.Option.{Option, none, some}
use mathlib.Core.List.{List, [], ◌++◌}
use esp32_s3_rap.Base.Lists.{length, take}

-- `recv` with a length; `none` is a result of 0 or less (closed, reset or timed out), after which more
-- may come if it was a time-out. `remaining` is what the connection delivers before such a result.
pub record RecvApi : Type 1 where
  pub Stream : Type 0
  pub recv : Stream → ℕ → Option (List ℕ) × Stream
  pub remaining : Stream → List ℕ
  pub recv_some :
      (s : Stream) (n : ℕ)
      → 0 < n
      → remaining s ≢ []
      → (bytes : List ℕ) × (r : Stream) × (recv s n ≡ (some bytes, r))
        × (0 < length bytes)
        × (length bytes ≤ n)
        × (remaining s ≡ bytes ++ remaining r)
  pub recv_end : (s : Stream) (n : ℕ) → remaining s ≡ [] → (r : Stream) × (recv s n ≡ (none, r))

-- A connection on which nothing comes after a result of 0 or less: no call times out before the end.
abbrev pub IsFinal : RecvApi → Type 0
IsFinal net =
    (s r : net.Stream) (n : ℕ)
    → net.remaining s ≡ []
    → net.recv s n ≡ (none, r)
    → net.remaining r ≡ []

-- `send` of some bytes; `none` is a result of 0 or less. `accepted` is what the connection has taken
-- so far.
pub record SendApi : Type 1 where
  pub Conn : Type 0
  pub send : Conn → List ℕ → Option (ℕ × Conn)
  pub accepted : Conn → List ℕ
  pub send_some :
      (c : Conn) (bytes : List ℕ) (n : ℕ) (d : Conn)
      → send c bytes ≡ some (n, d)
      → (0 < n) × (n ≤ length bytes) × (accepted d ≡ accepted c ++ take n bytes)
