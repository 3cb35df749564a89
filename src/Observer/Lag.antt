-- ===== src/Observer/Lag.antt =====
-- The lag that `logMetrics` (internal/destination/observer.go) prints, and the alarm.
use pg_live_sync.Prelude.{◌≡◌, refl, Bool, true, false, ◌&&◌, arith}
use pg_live_sync.Prelude.Int.{ℤ, pos, negsuc, ◌-ℤ◌}
use mathlib.Core.Path.{subst}
use pg_live_sync.Errclass.{ok, ◌>>=◌, >>=-eq-ok, ok-injective}
use pg_live_sync.Observer.{
  OffsetAnswers, Metrics, offset_of, topic_retention, measured, log_metrics, distances,
  with_committed, retention_outran_consumption, kafka_lag_for_demo,
}

both_known :
    (start end committed : ℤ)
    → retention_outran_consumption committed start ≡ false
    → (distances (start, true) (end, true) committed).lag
      ≡ kafka_lag_for_demo
          (distances (start, true) (end, true) committed).produced
          (distances (start, true) (end, true) committed).consumed
unfolding retention_outran_consumption kafka_lag_for_demo distances with_committed ◌-ℤ◌
both_known (pos s) (pos e) (pos c) h = ground arith
both_known (pos s) (pos e) (negsuc c) h = ground arith
both_known (pos s) (negsuc e) (pos c) h = ground arith
both_known (pos s) (negsuc e) (negsuc c) h = ground arith
both_known (negsuc s) (pos e) (pos c) h = ground arith
both_known (negsuc s) (pos e) (negsuc c) h = ground arith
both_known (negsuc s) (negsuc e) (pos c) h = ground arith
both_known (negsuc s) (negsuc e) (negsuc c) h = ground arith

lag_of :
    (start end : ℤ × Bool) (committed : ℤ)
    → start.1 && retention_outran_consumption committed start.0 ≡ false
    → (distances start end committed).lag
      ≡ kafka_lag_for_demo
          (distances start end committed).produced
          (distances start end committed).consumed
unfolding distances kafka_lag_for_demo
lag_of (start, true) (end, true) committed h = both_known start end committed h
lag_of (start, true) (end, false) committed h = refl
lag_of (start, false) end committed h = refl

-- Unless the alarm of lost records is raised, the lag that `logMetrics` prints is what
-- `KafkaLagForDemo` makes of the printed numbers of produced and consumed records, also where it is
-- unknown.
pub log_metrics-kafka_lag_for_demo :
    (answers : OffsetAnswers) (metrics : Metrics)
    → log_metrics answers ≡ ok metrics
    → metrics.outran ≡ false
    → metrics.lag ≡ kafka_lag_for_demo metrics.produced metrics.consumed
unfolding log_metrics measured
log_metrics-kafka_lag_for_demo answers metrics h quiet =
    let (end, _, h1) =
      >>=-eq-ok answers.end_offsets
        (λ end. answers.start_offsets >>= λ start. answers.commits >>= λ commits. ok (
          measured (offset_of start) (offset_of end) (offset_of commits).0
            (topic_retention answers.configs)))
        h in
    let (start, _, h2) =
      >>=-eq-ok answers.start_offsets
        (λ start. answers.commits >>= λ commits. ok (
          measured (offset_of start) (offset_of end) (offset_of commits).0
            (topic_retention answers.configs)))
        h1 in
    let (commits, _, h3) =
      >>=-eq-ok answers.commits
        (λ commits. ok (
          measured (offset_of start) (offset_of end) (offset_of commits).0
            (topic_retention answers.configs)))
        h2 in
    let same = ok-injective h3 in
    subst (λ (m : Metrics). m.outran ≡ false → m.lag ≡ kafka_lag_for_demo m.produced m.consumed)
      same (lag_of (offset_of start) (offset_of end) (offset_of commits).0) quiet
