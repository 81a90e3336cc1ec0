-- ===== src/VideoRelay/Socket.antt =====
-- main/video_relay.cpp: `recvAll` and `sendAll`, whose loops end because every call moves a byte.
use esp32_s3_rap.Base.{
  ℕ, zero, suc, ◌+◌, ◌-◌, ◌<◌, ◌≤◌, ◌≡◌, refl, sym, ap, ◌∙◌, ◌⊎◌, inl, inr, Bool, true, false, List,
  [], ◌∷◌, ◌++◌, Option, none, some, arith, length, take, drop, ltb, length-append, length-drop,
  append-nil, ltb→lt, append_assoc, Bool-cases, Option-cases,
}
use esp32_s3_rap.Base.Slices.{append_split, take_all, take-add}
use esp32_s3_rap.Base.Socket.{RecvApi, SendApi, IsFinal}

module _ (api : RecvApi) where
  open api use {Stream, recv, remaining}

  -- The loop, `got` bytes in.
  unfoldable pub recv_loop : ℕ → List ℕ → ℕ → Stream → Option (List ℕ) × Stream
  recv_loop zero got len s = (none, s)
  recv_loop (suc fuel) got len s = elim (ltb (length got) len) [
    | true ↦
        let (bytes, r) = recv s (len - length got) in
        elim bytes [ none ↦ (none, r) | some b ↦ recv_loop fuel (got ++ b) len r ]
    | false ↦ (some got, s)
  ]

  -- The bytes, or `none` for `false`.
  unfoldable pub recv_all : ℕ → Stream → Option (List ℕ) × Stream
  recv_all len s = recv_loop (suc len) [] len s

  recv_loop_step :
      (fuel : ℕ) (got : List ℕ) (len : ℕ) (s : Stream) (bytes : List ℕ) (r : Stream)
      → length got < len
      → recv s (len - length got) ≡ (some bytes, r)
      → recv_loop (suc fuel) got len s ≡ recv_loop fuel (got ++ bytes) len r
  unfolding recv_loop
  recv_loop_step fuel got len s bytes r more e =
      let test : ltb (length got) len ≡ true = ground arith in rw (recv_loop, test, e, e) refl

  recv_loop_done :
      (fuel : ℕ) (got : List ℕ) (len : ℕ) (s : Stream)
      → length got ≡ len
      → recv_loop (suc fuel) got len s ≡ (some got, s)
  unfolding recv_loop
  recv_loop_done fuel got len s e =
      let test : ltb (length got) len ≡ false = ground arith in rw (recv_loop, test) refl

  abbrev Took : ℕ → List ℕ → List ℕ → List ℕ → ℕ → Stream → Type 0
  Took fuel got want rest len s =
      (r : Stream) × (recv_loop fuel got len s ≡ (some (got ++ want), r)) × (remaining r ≡ rest)

  -- One call of `recv`, and the loop after it.
  advance :
      {fuel : ℕ} (got want rest : List ℕ) (len : ℕ) (s : Stream) (bytes : List ℕ) (r : Stream)
      → length got + length want ≡ len
      → recv s (len - length got) ≡ (some bytes, r)
      → 0 < length bytes
      → length bytes ≤ len - length got
      → want ++ rest ≡ bytes ++ remaining r
      → ((more want' : List ℕ) (t : Stream)
          → length more + length want' ≡ len
          → length want' < fuel
          → remaining t ≡ want' ++ rest
          → Took fuel more want' rest len t)
      → length want < suc fuel
      → Took (suc fuel) got want rest len s
  advance {fuel} got want rest len s bytes r size took some_bytes fits moved later enough =
      let (want', left, after) = append_split want rest bytes (remaining r) moved (omega arith) in
      let whole = length-append got bytes in
      let parts = ap length left ∙ length-append bytes want' in
      let (r', done, rest') = later (got ++ bytes) want' r (omega arith) (omega arith) after in
      (
        r',
        recv_loop_step fuel got len s bytes r (omega arith) took
            ∙ done
            ∙ ap (λ l. (some l, r')) (append_assoc got bytes want' ∙ ap (λ l. got ++ l) (sym left)),
        rest',
      )

  -- What arrives starts with the bytes that are still wanted.
  recv_loop-bytes :
      (fuel : ℕ) (got want rest : List ℕ) (len : ℕ) (s : Stream)
      → length got + length want ≡ len
      → length want < fuel
      → remaining s ≡ want ++ rest
      → Took fuel got want rest len s
  recv_loop-bytes zero got want rest len s size enough e = absurd (omega arith)
  recv_loop-bytes (suc fuel) got [] rest len s size enough e =
      (s, recv_loop_done fuel got len s (omega arith) ∙ rw (append-nil got) refl, e)
  recv_loop-bytes (suc fuel) got (w ∷ want) rest len s size enough e =
      let took = api.recv_some s (len - length got) (omega arith) (λ none_left. cc) in
      advance got (w ∷ want) rest len s took.0 took.1 size took.2 took.3 took.4 (sym e ∙ took.5)
        (λ more want' r. recv_loop-bytes fuel more want' rest len r) (omega arith)

  recv_loop_end :
      (fuel : ℕ) (got : List ℕ) (len : ℕ) (s r : Stream)
      → length got < len
      → recv s (len - length got) ≡ (none, r)
      → recv_loop (suc fuel) got len s ≡ (none, r)
  unfolding recv_loop
  recv_loop_end fuel got len s r more e =
      let test : ltb (length got) len ≡ true = ground arith in rw (recv_loop, test, e, e) refl

  -- The connection ends before `len` bytes.
  recv_loop-short :
      (fuel : ℕ) (got left : List ℕ) (len : ℕ) (s : Stream)
      → remaining s ≡ left
      → length got + length left < len
      → length left < fuel
      → (r : Stream) × (recv_loop fuel got len s ≡ (none, r)) × (IsFinal api → remaining r ≡ [])
  recv_loop-short zero got left len s e short enough = absurd (omega arith)
  recv_loop-short (suc fuel) got [] len s e short enough =
      let (r, failed) = api.recv_end s (len - length got) e in
      (
        r,
        recv_loop_end fuel got len s r (omega arith) failed,
        λ final. final s r (len - length got) e failed,
      )
  recv_loop-short (suc fuel) got (b ∷ left) len s e short enough =
      let (bytes, r, took, some_bytes, fits, moved) =
        api.recv_some s (len - length got) (omega arith) (λ none_left. cc) in
      let whole = length-append got bytes in
      let parts = ap length (sym e ∙ moved) ∙ length-append bytes (remaining r) in
      let (r', done, rest') =
        recv_loop-short fuel (got ++ bytes) (remaining r) len r refl (omega arith) (omega arith) in
      (r', recv_loop_step fuel got len s bytes r (omega arith) took ∙ done, rest')

  -- However the bytes come in pieces: `recvAll` for the length of what comes next takes just that.
  pub recv_all-bytes :
      (want rest : List ℕ) (len : ℕ) (s : Stream)
      → length want ≡ len
      → remaining s ≡ want ++ rest
      → (r : Stream) × (recv_all len s ≡ (some want, r)) × (remaining r ≡ rest)
  unfolding recv_all
  recv_all-bytes want rest len s size e =
      recv_loop-bytes (suc len) [] want rest len s (omega arith) (omega arith) e

  -- It fails where the connection ends before the length is reached.
  pub recv_all-short :
      (len : ℕ) (s : Stream)
      → length (remaining s) < len
      → (r : Stream) × (recv_all len s ≡ (none, r)) × (IsFinal api → remaining r ≡ [])
  unfolding recv_all
  recv_all-short len s short =
      recv_loop-short (suc len) [] (remaining s) len s refl (omega arith) (omega arith)

module _ (api : SendApi) where
  open api use {Conn, send, accepted}

  -- The loop, `done` bytes in.
  unfoldable pub send_loop : ℕ → ℕ → List ℕ → Conn → Bool × Conn
  send_loop zero done bytes c = (false, c)
  send_loop (suc fuel) done bytes c = elim (ltb done (length bytes)) [
    | true ↦ (elim (send c (drop done bytes)) [
      | none ↦ (false, c)
      | some (n, d) ↦ send_loop fuel (done + n) bytes d
    ])
    | false ↦ (true, c)
  ]

  unfoldable pub send_all : List ℕ → Conn → Bool × Conn
  send_all bytes c = send_loop (suc (length bytes)) 0 bytes c

  -- All was taken; or a call of `send` failed after some of it.
  abbrev pub Sent : Conn → List ℕ → Bool × Conn → Type 0
  Sent c bytes out =
      ((out.0 ≡ true) × (accepted out.1 ≡ accepted c ++ bytes))
      ⊎ ((k : ℕ) × (out.0 ≡ false)
          × (k < length bytes)
          × (accepted out.1 ≡ accepted c ++ take k bytes)
          × (send out.1 (drop k bytes) ≡ none))

  send_loop-Sent :
      (fuel done : ℕ) (bytes : List ℕ) (c d : Conn)
      → done ≤ length bytes
      → length bytes - done < fuel
      → accepted d ≡ accepted c ++ take done bytes
      → Sent c bytes (send_loop fuel done bytes d)
  unfolding send_loop
  send_loop-Sent zero done bytes c d fits enough so_far = absurd (omega arith)
  send_loop-Sent (suc fuel) done bytes c d fits enough so_far =
      elim (Bool-cases (ltb done (length bytes))) [
        | inl more ↦ elim (Option-cases (send d (drop done bytes))) [
          | inl failed ↦
              rw (more, failed, send_loop)
                (inr (done, refl, ltb→lt done (length bytes) more, so_far, failed))
          | inr ((n, d'), took) ↦
              let (some_bytes, within, now) = api.send_some d (drop done bytes) n d' took in
              let size = length-drop done bytes in
              rw (more, took, send_loop)
                (send_loop-Sent fuel (done + n) bytes c d' (omega arith) (omega arith) (
                  now
                  ∙ ap (λ l. l ++ take n (drop done bytes)) so_far
                  ∙ append_assoc (accepted c) (take done bytes) (take n (drop done bytes))
                  ∙ ap (λ l. accepted c ++ l) (sym (take-add done n bytes))))
        ]
        | inr all ↦
            rw (all, send_loop)
              (inl (refl, so_far ∙ ap (λ l. accepted c ++ l) (take_all done bytes (ground arith))))
      ]

  -- Whatever pieces the connection takes: `sendAll` gets all the bytes across, or a call of `send`
  -- failed after a proper part of them.
  pub send_all-Sent : (bytes : List ℕ) (c : Conn) → Sent c bytes (send_all bytes c)
  unfolding send_all
  send_all-Sent bytes c =
      send_loop-Sent (suc (length bytes)) 0 bytes c c (omega arith) (omega arith)
        (sym (append-nil (accepted c)))
