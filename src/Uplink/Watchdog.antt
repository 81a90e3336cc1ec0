-- ===== src/Uplink/Watchdog.antt =====
-- main/gateway_uplink.cpp: the recovery in `logStats`.
use esp32_s3_rap.Base.{
  ℕ, ◌+◌, ◌*◌, ◌^◌, ◌<◌, ◌≤◌, ◌≡◌, ◌⊎◌, inl, inr, Bool, true, false, not, ◌&&◌, ◌||◌, List, [], ◌∷◌,
  arith, u32, sub32, leb, ◌==◌, if◌then◌else◌,
}
use esp32_s3_rap.Uplink.State.{Uplink}

abbrev pub eth_stuck_intervals : ℕ
eth_stuck_intervals = 6

abbrev pub eth_restart_min_interval_ms : ℕ
eth_restart_min_interval_ms = 5 * 60 * 1000

abbrev pub sent_total : {S V : Type 0} → Uplink S V → ℕ
sent_total u = u32 (u.st_sent + u.vid_sent)

abbrev pub queued_total : {S V : Type 0} → Uplink S V → ℕ
queued_total u = u32 (u.st_queued + u.vid_queued)

-- The test for a stuck uplink, and the totals kept for the next one.
unfoldable pub note_progress : {S V : Type 0} → Uplink S V → Uplink S V
note_progress u = record u {
  stuck_intervals =
      if not (queued_total u == u.last_queued_total) && sent_total u == u.last_sent_total
      then u32 (u.stuck_intervals + 1)
      else 0;
  last_sent_total = sent_total u;
  last_queued_total = queued_total u;
}

-- `logStats` at the time `now`: the new globals, and whether the driver was restarted.
unfoldable pub log_stats : {S V : Type 0} → ℕ → Uplink S V → Uplink S V × Bool
unfolding note_progress
log_stats now u =
    let noted = note_progress u in
    if not u.has_driver || not u.link_up
    then (record u { stuck_intervals = 0 }, false)
    else if leb eth_stuck_intervals noted.stuck_intervals
        && (u.last_restart_ms == 0 || leb eth_restart_min_interval_ms (sub32 now u.last_restart_ms))
    then (record noted { last_restart_ms = now; stuck_intervals = 0 }, true)
    else (noted, false)

-- What `logStats` finds: the time, the link and the counters.
pub record Observation : Type 0 where
  pub now : ℕ
  pub link : Bool
  pub status_queued : ℕ
  pub status_sent : ℕ
  pub video_queued : ℕ
  pub video_sent : ℕ

abbrev pub observed : {S V : Type 0} → Observation → Uplink S V → Uplink S V
observed o u = record u {
  link_up = o.link;
  st_queued = o.status_queued;
  st_sent = o.status_sent;
  vid_queued = o.video_queued;
  vid_sent = o.video_sent;
}

-- The times at which a sequence of calls of `logStats` restarts the driver.
unfoldable pub restarts : {S V : Type 0} → List Observation → Uplink S V → List ℕ
restarts [] u = []
restarts (o ∷ os) u =
    let (u', restarted) = log_stats o.now (observed o u) in
    let rest = restarts os u' in if restarted then o.now ∷ rest else rest

-- The clock of the calls does not go back, and does not wrap.
abbrev pub Rising : ℕ → List Observation → Type 0
Rising t [] = Unit {0}
Rising t (o ∷ os) = (t ≤ o.now) × (o.now < 2 ^ 32) × Rising o.now os

-- After a restart at `t`, if there was one, each comes five minutes later at least.
abbrev pub Spaced : ℕ → List ℕ → Type 0
Spaced t [] = Unit {0}
Spaced t (x ∷ xs) = ((t ≡ 0) ⊎ (t + eth_restart_min_interval_ms ≤ x)) × Spaced x xs

log_stats-restart :
    {S V : Type 0} (now : ℕ) (u : Uplink S V)
    → u.last_restart_ms ≤ now
    → now < 2 ^ 32
    → ((log_stats now u).1 ≡ true)
        × ((log_stats now u).0.last_restart_ms ≡ now)
        × ((u.last_restart_ms ≡ 0) ⊎ (u.last_restart_ms + eth_restart_min_interval_ms ≤ now))
      ⊎ ((log_stats now u).1 ≡ false) × ((log_stats now u).0.last_restart_ms ≡ u.last_restart_ms)
unfolding log_stats
log_stats-restart now u h w = ground arith

-- However the link and the counters change between the calls of `logStats`, and while the clock
-- neither goes back nor wraps, each restart of the driver comes at least five minutes after the one
-- before; a stored time of 0 stands for no restart before.
pub restarts-Spaced :
    {S V : Type 0} (os : List Observation) (t : ℕ) (u : Uplink S V)
    → u.last_restart_ms ≤ t
    → Rising t os
    → Spaced u.last_restart_ms (restarts os u)
unfolding restarts
restarts-Spaced [] t u h r = tt
restarts-Spaced (o ∷ os) t u h r =
    let next = (log_stats o.now (observed o u)).0 in
    elim (log_stats-restart o.now (observed o u) (omega arith) r.1) [
      | inl (fired, stamp, gap) ↦
          rw fired (gap, rw stamp at (restarts-Spaced os o.now next (omega arith) r.2))
      | inr (quiet, stamp) ↦
          rw quiet (rw stamp at (restarts-Spaced os o.now next (omega arith) r.2))
    ]
