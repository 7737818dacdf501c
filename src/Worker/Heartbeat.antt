-- ===== src/Worker/Heartbeat.antt =====
-- `JobLeaseHeartbeat` of src/application/queue/job-lease-heartbeat.ts: what it knows of the lease,
-- and what it does with an answer of `renewLease`. The timer only decides when `beginRenewal` runs.
use recruiting_os.Common.{
  ◌&&◌, true, some, ok, none, leb, if◌then◌else◌, err, Result, Option, Bool, ℕ, ◌+◌, ◌*◌,
}
use recruiting_os.Queue.Rows.{Job}

pub record Heartbeat : Type 0 where
  pub current : Job
  pub lost : Bool

-- `!leasedUntil || new Date(leasedUntil).getTime() <= Date.now()`
abbrev pub has_ended : Option ℕ → ℕ → Bool
has_ended none now = true
has_ended (some until) now = leb until now

-- `renew`, by what `renewLease` answers or throws, and the time that is read if it throws
unfoldable pub renew : Result (Unit {0}) (Option Job) → ℕ → Heartbeat → Heartbeat
renew (ok (some job)) now h = record h { current = job }
renew (ok none) now h = record h { lost = true }
renew (err e) now h = if has_ended h.current.leased_until now then record h { lost = true } else h

-- `beginRenewal` while no renewal is running
unfoldable pub begin_renewal : Result (Unit {0}) (Option Job) → ℕ → Heartbeat → Heartbeat
begin_renewal answer now h = if h.lost then h else renew answer now h

-- `remainingMs <= Math.min(5_000, (leaseSeconds * 1_000) / 3)`, without the fractions
abbrev pub is_short : ℕ → ℕ → ℕ → Bool
is_short until lease_seconds now =
    leb until (now + 5000) && leb (until * 3) (now * 3 + lease_seconds * 1000)

abbrev pub held_job : Heartbeat → Option Job
held_job h = if h.lost then none else some h.current

-- `stop`, once a running renewal has ended: the answer of its own renewal, if it makes one, the time
-- at which it looks at the lease, and the time that its renewal reads.
abbrev pub stop_until :
    Option ℕ → ℕ → Result (Unit {0}) (Option Job) → ℕ → ℕ → Heartbeat → Option Job
stop_until none lease_seconds answer now later h = none
stop_until (some until) lease_seconds answer now later h =
    held_job (if is_short until lease_seconds now then renew answer later h else h)

unfoldable pub stop_heartbeat : ℕ → Result (Unit {0}) (Option Job) → ℕ → ℕ → Heartbeat → Option Job
stop_heartbeat lease_seconds answer now later h =
    if h.lost then none else stop_until h.current.leased_until lease_seconds answer now later h
