-- ===== src/Worker/Tests.antt =====
-- A heartbeat at the end of its lease.
use recruiting_os.Common.{◌≡◌, some, refl, ok, none, false, [], ℕ}
use recruiting_os.Queue.Rows.{Job}
use recruiting_os.Domain.{JobStatus}
use recruiting_os.Worker.Heartbeat.{stop_heartbeat, begin_renewal, Heartbeat, renew}
use recruiting_os.Worker.Held.{stop_heartbeat-IsHeld, IsHeld}

heartbeat_runs : Unit {0}
unfolding stop_heartbeat renew begin_renewal
heartbeat_runs = tt

abbrev leased_to : ℕ → Job
leased_to until = record {
  id = "j";
  tenant_id = "t1";
  type = "ingest.source";
  idempotency_key = "k";
  payload = [];
  status = JobStatus.running;
  attempt_count = 1;
  max_attempts = 5;
  available_at = 0;
  leased_by = some "w";
  leased_until = some until;
}

abbrev beating : Heartbeat
beating = record { current = leased_to 9000; lost = false }

renews_before_the_end :
    stop_heartbeat 60 (ok (some (leased_to 65000))) 5000 5001 beating ≡ some (leased_to 65000)
unfolding heartbeat_runs
renews_before_the_end = refl

gives_none_when_lost : stop_heartbeat 60 (ok none) 5000 5001 beating ≡ none
unfolding heartbeat_runs
gives_none_when_lost = refl

stop_heartbeat-IsHeld_example :
    IsHeld (ok (some (leased_to 65000))) 5000 5001 (leased_to 65000) × (beating.lost ≡ false)
stop_heartbeat-IsHeld_example =
    stop_heartbeat-IsHeld 60 (ok (some (leased_to 65000))) 5000 5001 beating (leased_to 65000)
      renews_before_the_end
