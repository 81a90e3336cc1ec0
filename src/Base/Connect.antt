-- ===== src/Base/Connect.antt =====
-- What a TCP socket shows of a bounded `connect`: the answers of the socket calls, and what they
-- leave.
use Prim.Native.Nat.{ℕ}
use mathlib.Core.Bool.{Bool}
use mathlib.Core.List.{List}
use mathlib.Core.Option.{Option, none, some}

-- `connect` on a non-blocking socket: 0, EINPROGRESS, or another error.
pub data Started : Type 0 where
  connected in_progress refused : Started

-- `selected` is whether `select` returns more than 0; `so_error` is what
-- `getsockopt` then stores from SO_ERROR; `none` is a call that fails and stores nothing.
pub record Answers : Type 0 where
  pub started : Started
  pub selected : Bool
  pub so_error : Option ℕ

-- `sockErr`, which is 0 at first.
abbrev pub sock_err : Option ℕ → ℕ
sock_err none = 0
sock_err (some e) = e

-- O_NONBLOCK among the socket's flags, and the timeouts, in seconds and microseconds, of the calls
-- of `select`.
pub record Socket : Type 0 where
  pub nonblocking : Bool
  pub waits : List (ℕ × ℕ)
