-- ===== src/Base/ListSocket.antt =====
-- Sockets that meet the assumptions of `Socket`, for the witnesses.
use Prim.Native.Nat.{ℕ, ◌<◌, ◌≤◌, min}
use mathlib.Core.Path.{◌≡◌, refl, sym}
use mathlib.Core.Logic.{◌≢◌}
use mathlib.Core.Option.{Option, none, some}
use mathlib.Core.List.{List, [], ◌∷◌, ◌++◌}
use native.Mathlib.Omega.{arith}
use esp32_s3_rap.Base.Lists.{length, take, drop, length-take, take-append-drop}
use esp32_s3_rap.Base.Socket.{RecvApi, SendApi, IsFinal}

-- At most three bytes at a time.
abbrev pub list_recv : List ℕ → ℕ → Option (List ℕ) × List ℕ
list_recv [] n = (none, [])
list_recv (b ∷ bytes) n = (some (take (min n 3) (b ∷ bytes)), drop (min n 3) (b ∷ bytes))

pub list_recv-some :
    (s : List ℕ) (n : ℕ)
    → 0 < n
    → s ≢ []
    → (bytes : List ℕ) × (r : List ℕ) × (list_recv s n ≡ (some bytes, r))
      × (0 < length bytes)
      × (length bytes ≤ n)
      × (s ≡ bytes ++ r)
list_recv-some [] n h ne = absurd (ne refl)
list_recv-some (b ∷ bytes) n h ne =
    let size = length-take (min n 3) (b ∷ bytes) in
    (
      take (min n 3) (b ∷ bytes),
      drop (min n 3) (b ∷ bytes),
      refl,
      omega arith,
      omega arith,
      sym (take-append-drop (min n 3) (b ∷ bytes)),
    )

pub list_recv_end : (s : List ℕ) (n : ℕ) → s ≡ [] → (r : List ℕ) × (list_recv s n ≡ (none, r))
list_recv_end [] n e = ([], refl)
list_recv_end (b ∷ bytes) n e = cc

abbrev pub list_stream : RecvApi
list_stream = record {
  Stream = List ℕ;
  recv = list_recv;
  remaining = λ s. s;
  recv_some = list_recv-some;
  recv_end = list_recv_end;
}

pub list_stream-IsFinal : IsFinal list_stream
list_stream-IsFinal [] r n ended e = ground arith
list_stream-IsFinal (b ∷ bytes) r n ended e = cc

-- A connection that takes at most five bytes at a time.
abbrev pub list_send : List ℕ → List ℕ → Option (ℕ × List ℕ)
list_send c [] = none
list_send c (b ∷ bytes) =
    some (min (length (b ∷ bytes)) 5, c ++ take (min (length (b ∷ bytes)) 5) (b ∷ bytes))

pub list_send-some :
    (c bytes : List ℕ) (n : ℕ) (d : List ℕ)
    → list_send c bytes ≡ some (n, d)
    → (0 < n) × (n ≤ length bytes) × (d ≡ c ++ take n bytes)
list_send-some c [] n d e = ground arith
list_send-some c (b ∷ bytes) n d e = ground arith

abbrev pub list_conn : SendApi
list_conn = record {
  Conn = List ℕ;
  send = list_send;
  accepted = λ c. c;
  send_some = list_send-some;
}
