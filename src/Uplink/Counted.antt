-- ===== src/Uplink/Counted.antt =====
-- main/gateway_uplink.cpp: every reading that is handed to `flush` is accounted for.
use esp32_s3_rap.Base.{
  ℕ, suc, ◌+◌, ◌%◌, ◌^◌, ◌≤◌, ◌≡◌, ◌∙◌, ap, refl, inl, inr, List, [], ◌∷◌, Option, none, some,
  arith, length, All, All-append, length-append,
}
use esp32_s3_rap.Base.Queue.{QueueApi, send_cases, receive_cases}
use esp32_s3_rap.Config.{status_uplink_queue_depth}
use esp32_s3_rap.Uplink.State.{
  StatusItem, Uplink, power_off, EthEvent, connected, disconnected, other, eth_event_handler,
}
use esp32_s3_rap.Uplink.Status.{
  Attempt, flush, status_round, flush_one, status_line, line_text, status_item,
}
use esp32_s3_rap.Uplink.Line.{length-line_text}

-- What happens to the status uplink: a reading is handed over, its task makes a round, or the link
-- changes.
pub data Event : Type 0 where
  flushes : (node_id stream_id occupied : ℕ) (plate : List ℕ) → Event
  rounds : Attempt → Event
  links : EthEvent → Event

abbrev pub count_flushed : List Event → ℕ
count_flushed [] = 0
count_flushed (flushes _ _ _ _ ∷ es) = suc (count_flushed es)
count_flushed (rounds _ ∷ es) = count_flushed es
count_flushed (links _ ∷ es) = count_flushed es

abbrev pub FitsLine : StatusItem → Type 0
FitsLine item = length (line_text item) ≤ 23

-- The readings that wait in the queue.
abbrev pub waiting : (api : QueueApi StatusItem) → Option api.Queue → ℕ
waiting api none = 0
waiting api (some q) = length (api.contents q)

module _ {V : Type 0} (api : QueueApi StatusItem) where
  open api use {Queue, contents}

  unfoldable pub step : Event → Uplink Queue V → Uplink Queue V
  step (flushes node_id stream_id occupied plate) u = flush api node_id stream_id occupied plate u
  step (rounds attempt) u = status_round api attempt u
  step (links e) u = eth_event_handler e u

  unfoldable pub run : List Event → Uplink Queue V → Uplink Queue V
  unfolding step
  run [] u = u
  run (e ∷ es) u = run es (step e u)

  abbrev pub IsCounted : ℕ → Uplink Queue V → Type 0
  IsCounted k u =
      (q : Queue) × (u.status_queue ≡ some q)
      × All FitsLine (contents q)
      × ((u.st_sent + u.st_dropped + length (contents q)) % 2 ^ 32 ≡ k % 2 ^ 32)

  flush_one-counts :
      (attempt : Attempt) (item : StatusItem) (u : Uplink Queue V)
      → FitsLine item
      → ((flush_one attempt item u).status_queue ≡ u.status_queue)
        × (((flush_one attempt item u).st_sent + (flush_one attempt item u).st_dropped) % 2 ^ 32
            ≡ (u.st_sent + u.st_dropped + 1) % 2 ^ 32)
  unfolding flush_one status_line
  flush_one-counts attempt item u h = ground arith

  pub flush-IsCounted :
      (k node_id stream_id occupied : ℕ) (plate : List ℕ) (u : Uplink Queue V)
      → IsCounted k u
      → IsCounted (suc k) (flush api node_id stream_id occupied plate u)
  unfolding flush
  flush-IsCounted k node_id stream_id occupied plate u (q, e, fits, count) =
      let item = status_item node_id stream_id occupied plate in
      elim (send_cases api q item) [
        | inl (_, none_sent) ↦ (q, ground arith, fits, ground arith)
        | inr (r, _, s, c, _) ↦ (
          r,
          ground arith,
          ground (
            arith,
            All-append FitsLine (contents q) (item ∷ []),
            length-line_text node_id stream_id occupied plate,
          ),
          ground (arith, length-append (contents q) (item ∷ [])),
        )
      ]

  pub round-IsCounted :
      (k : ℕ) (attempt : Attempt) (u : Uplink Queue V)
      → IsCounted k u
      → IsCounted k (status_round api attempt u)
  unfolding status_round
  round-IsCounted k attempt u (q, e, fits, count) = elim (receive_cases api q) [
    | inl (_, s) ↦ (q, ground arith, fits, ground arith)
    | inr (item, r, c, s, _) ↦
        let taken = record u { status_queue = some r } in
        (
          r,
          ground (arith, flush_one-counts attempt item taken),
          ground arith,
          ground (arith, flush_one-counts attempt item taken),
        )
  ]

  pub link-IsCounted :
      (k : ℕ) (e : EthEvent) (u : Uplink Queue V)
      → IsCounted k u
      → IsCounted k (eth_event_handler e u)
  unfolding eth_event_handler
  link-IsCounted k connected u c = c
  link-IsCounted k disconnected u c = c
  link-IsCounted k other u c = c

  step-IsCounted :
      (k : ℕ) (e : Event) (u : Uplink Queue V)
      → IsCounted k u
      → IsCounted (k + count_flushed (e ∷ [])) (step e u)
  unfolding step
  step-IsCounted k (flushes node_id stream_id occupied plate) u c =
      let one : k + 1 ≡ suc k = omega arith in
      rw one (flush-IsCounted k node_id stream_id occupied plate u c)
  step-IsCounted k (rounds attempt) u c =
      let same : k + 0 ≡ k = omega arith in rw same (round-IsCounted k attempt u c)
  step-IsCounted k (links e) u c =
      let same : k + 0 ≡ k = omega arith in rw same (link-IsCounted k e u c)

  run-IsCounted :
      (k : ℕ) (events : List Event) (u : Uplink Queue V)
      → IsCounted k u
      → IsCounted (k + count_flushed events) (run events u)
  unfolding run
  run-IsCounted k [] u c = let same : k + 0 ≡ k = omega arith in rw same c
  run-IsCounted k (e ∷ es) u c =
      let sum : k + count_flushed (e ∷ es) ≡ k + count_flushed (e ∷ []) + count_flushed es =
        split_count e in
      rw sum (run-IsCounted (k + count_flushed (e ∷ [])) es (step e u) (step-IsCounted k e u c))
    where
      split_count :
          (e : Event) → k + count_flushed (e ∷ es) ≡ k + count_flushed (e ∷ []) + count_flushed es
      split_count e = ground arith

module _ (V : Type 0) (api : QueueApi StatusItem) where
  open api use {Queue}

  -- If the queue of readings could be created, from counters at 0 and that queue, however readings,
  -- rounds of the task and link changes follow one another: the counters of sent and of dropped
  -- readings and the readings that wait add up, as `uint32_t`, to the readings that were handed over;
  -- none goes uncounted, none is counted twice.
  pub flushed-eq-counted :
      (q : Queue) (events : List Event)
      → api.create status_uplink_queue_depth ≡ some q
      → let u = run {V = V} api events (record power_off { status_queue = some q }) in
        (u.st_sent + u.st_dropped + waiting api u.status_queue) % 2 ^ 32
        ≡ count_flushed events % 2 ^ 32
  flushed-eq-counted q events e =
      let empty = (api.create_empty status_uplink_queue_depth q e).0 in
      let (r, same, _, count) =
        run-IsCounted {V = V} api 0 events (record power_off { status_queue = some q })
          (q, refl, rw empty tt, rw empty refl) in
      rw same (count ∙ ap (λ k. k % 2 ^ 32) (omega arith))
