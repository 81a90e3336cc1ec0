-- ===== src/Uplink/Recovery.antt =====
-- main/gateway_uplink.cpp: that `logStats` does restart the driver of a stuck link.
use esp32_s3_rap.Base.{
  ℕ, suc, ◌+◌, ◌<◌, ◌≤◌, ◌≡◌, ◌≢◌, ◌^◌, ◌⊎◌, inl, inr, true, false, List, [], ◌∷◌, arith, length,
  u32, sub32,
}
use esp32_s3_rap.Uplink.State.{Uplink}
use esp32_s3_rap.Uplink.Watchdog.{
  Observation, observed, log_stats, note_progress, restarts, eth_stuck_intervals,
  eth_restart_min_interval_ms,
}

-- At each call of `logStats` the link is up, nothing was sent since the totals were `sent`, something
-- was queued since the call before, and a restart is not too soon after the one at `last`, if any.
abbrev pub Stuck : (sent queued last : ℕ) → List Observation → Type 0
Stuck sent queued last [] = Unit {0}
Stuck sent queued last (o ∷ os) =
    (o.link ≡ true)
    × (u32 (o.status_sent + o.video_sent) ≡ sent)
    × (u32 (o.status_queued + o.video_queued) ≢ queued)
    × ((last ≡ 0) ⊎ (eth_restart_min_interval_ms ≤ sub32 o.now last))
    × Stuck sent (u32 (o.status_queued + o.video_queued)) last os

log_stats-stuck :
    {S V : Type 0} (o : Observation) (u : Uplink S V)
    → u.has_driver ≡ true
    → o.link ≡ true
    → u32 (o.status_sent + o.video_sent) ≡ u.last_sent_total
    → u32 (o.status_queued + o.video_queued) ≢ u.last_queued_total
    → (u.last_restart_ms ≡ 0) ⊎ (eth_restart_min_interval_ms ≤ sub32 o.now u.last_restart_ms)
    → suc u.stuck_intervals < 2 ^ 32
    → let (u', restarted) = log_stats o.now (observed o u) in
      (restarted ≡ true)
      ⊎ ((restarted ≡ false)
          × (suc u.stuck_intervals < eth_stuck_intervals)
          × (u'.stuck_intervals ≡ suc u.stuck_intervals)
          × (u'.has_driver ≡ true)
          × (u'.last_sent_total ≡ u.last_sent_total)
          × (u'.last_queued_total ≡ u32 (o.status_queued + o.video_queued))
          × (u'.last_restart_ms ≡ u.last_restart_ms))
unfolding log_stats note_progress
log_stats-stuck o u driver link sent queued spaced fits = ground arith

-- If the Gateway has its driver and readings or frames are queued between the calls of `logStats`
-- but none is sent, then by the sixth such call in a row (a stored count of earlier ones helps) the
-- driver is restarted, where the link stays up and no restart was made within five minutes.
pub restarts-Stuck :
    {S V : Type 0} (os : List Observation) (u : Uplink S V)
    → u.has_driver ≡ true
    → Stuck u.last_sent_total u.last_queued_total u.last_restart_ms os
    → 0 < length os
    → eth_stuck_intervals ≤ u.stuck_intervals + length os
    → u.stuck_intervals + length os < 2 ^ 32
    → restarts os u ≢ []
unfolding restarts
restarts-Stuck [] u driver stuck some_calls enough fits = absurd (omega arith)
restarts-Stuck (o ∷ os) u driver (link, sent, queued, spaced, later) some_calls enough fits =
    elim (log_stats-stuck o u driver link sent queued spaced (omega arith)) [
      | inl fired ↦ rw fired (λ e. cc)
      | inr (quiet, below, count, driver', sent', queued', last') ↦
          let u' = (log_stats o.now (observed o u)).0 in
          rw quiet (
            restarts-Stuck os u' driver' (rw (sent', queued', last') later) (omega arith)
              (omega arith) (omega arith))
    ]
