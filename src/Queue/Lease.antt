-- ===== src/Queue/Lease.antt =====
-- `leaseNext` and `renewLease` of src/infrastructure/queue/sqlite-job-queue.ts.
-- Where two rows agree in all that a query orders by, SQL leaves the choice open and the first
-- row in the table is taken.
use recruiting_os.Common.{
  ℕ, String, Bool, true, false, not, Option, none, some, List, [], ◌∷◌, ◌+◌, ◌*◌, ◌&&◌, ◌||◌, Clock,
  str_eq, ltb, leb, ◌==◌, before, any, least, select_where, update_where, count_where,
  if◌then◌else◌,
}
use recruiting_os.Domain.{JobStatus}
use recruiting_os.Queue.Rows.{JobRow, Queue, Job, to_job, is_pending, is_running, redact}

-- `status='running' and leased_until<? and attempt_count>=max_attempts`
abbrev pub is_exhausted : ℕ → JobRow → Bool
is_exhausted now r =
    is_running r.status && (before r.leased_until now && leb r.max_attempts r.attempt_count)

abbrev pub bury : ℕ → ℕ → JobRow → JobRow
bury redacted_at now r = record r {
  status = JobStatus.dead_letter;
  leased_by = none;
  leased_until = none;
  last_error = some "Worker lease expired after final attempt";
  payload = redact r redacted_at;
  updated_at = now;
}

-- The first statement of `leaseNext`.
unfoldable pub sweep : Clock → List JobRow → List JobRow
sweep clock rows = update_where (is_exhausted (clock 2)) (bury (clock 0) (clock 1)) rows

-- `leased_until is null or leased_until<?`
abbrev pub is_free : Option ℕ → ℕ → Bool
is_free none now = true
is_free (some t) now = ltb t now

-- The `where` of `ranked`; its three readings of the clock come one after another.
abbrev pub is_ready : Clock → JobRow → Bool
is_ready clock r =
    (is_pending r.status && (leb r.available_at (clock 3) && is_free r.leased_until (clock 4)))
    || (is_running r.status
        && (before r.leased_until (clock 5) && ltb r.attempt_count r.max_attempts))

-- `order by priority asc,created_at asc`
abbrev pub ranks_before : JobRow → JobRow → Bool
ranks_before a b =
    ltb a.priority b.priority || (a.priority == b.priority && ltb a.created_at b.created_at)

-- `tenant_rank=1`: no row of the tenant ranks before it.
abbrev pub is_first_of_tenant : List JobRow → JobRow → Bool
is_first_of_tenant ready r =
    not (any (λ s. str_eq s.tenant_id r.tenant_id && ranks_before s r) ready)

-- `coalesce(t.last_leased_at,'1970-01-01T00:00:00.000Z')` over the left join
unfoldable pub last_leased_at : List (String × ℕ) → String → ℕ
last_leased_at [] tenant = 0
last_leased_at ((t, at) ∷ rest) tenant = if str_eq t tenant then at else last_leased_at rest tenant

-- The `order by` of the outer query.
abbrev pub is_served_before : List (String × ℕ) → JobRow → JobRow → Bool
is_served_before last a b =
    let la = last_leased_at last a.tenant_id in
    let lb = last_leased_at last b.tenant_id in ltb la lb || (la == lb && ranks_before a b)

-- `insert into tenant_queue_state … on conflict(tenant_id) do update`
unfoldable pub set_last_leased : String → ℕ → List (String × ℕ) → List (String × ℕ)
set_last_leased tenant now [] = (tenant, now) ∷ []
set_last_leased tenant now ((t, at) ∷ rest) =
    if str_eq t tenant then (t, now) ∷ rest else (t, at) ∷ set_last_leased tenant now rest

-- The query: the rows that are ready, the first of each tenant, and of these the next to serve.
unfoldable pub next_row : Clock → List (String × ℕ) → List JobRow → Option JobRow
next_row clock last rows =
    let ready = select_where (is_ready clock) rows in
    least (is_served_before last) (select_where (is_first_of_tenant ready) ready)

abbrev pub take_lease : String → ℕ → ℕ → JobRow → JobRow
take_lease worker until now r = record r {
  status = JobStatus.running;
  attempt_count = r.attempt_count + 1;
  leased_by = some worker;
  leased_until = some until;
  updated_at = now;
}

-- The job as it is returned: the row that was read, with the columns that were set.
abbrev pub leased_job : String → ℕ → JobRow → Job
leased_job worker until r = to_job (record r {
  status = JobStatus.running;
  attempt_count = r.attempt_count + 1;
  leased_until = some until;
  leased_by = some worker;
})

unfoldable pub lease_next : String → ℕ → Clock → Queue → Option Job × Queue
lease_next worker lease_seconds clock q =
    let swept = sweep clock q.jobs in
    elim (next_row clock q.last_leased swept) [
      | none ↦ (none, record q { jobs = swept })
      | some r ↦
          let until = clock 6 + lease_seconds * 1000 in
          (
            some (leased_job worker until r),
            record q {
              jobs = update_where (λ s. str_eq s.id r.id) (take_lease worker until (clock 7)) swept;
              last_leased = set_last_leased r.tenant_id (clock 8) q.last_leased;
            },
          )
    ]

-- `leased_by=?` and `leased_until=? and leased_until>?`, which are not true of NULL
abbrev pub is_by : Option String → String → Bool
is_by none worker = false
is_by (some w) worker = str_eq w worker

abbrev pub is_until : Option ℕ → ℕ → ℕ → Bool
is_until none until now = false
is_until (some t) until now = t == until && ltb now t

-- `where id=? and status='running' and leased_by=? and leased_until=? and leased_until>?`
abbrev pub holds_lease : String → String → ℕ → ℕ → JobRow → Bool
holds_lease id worker until now r =
    str_eq r.id id
    && (is_running r.status && (is_by r.leased_by worker && is_until r.leased_until until now))

-- `!job.leasedBy || !job.leasedUntil` of a job, and else the two values
abbrev pub lease_values : Option String → Option ℕ → Option (String × ℕ)
lease_values none until = none
lease_values (some w) none = none
lease_values (some w) (some t) = if str_eq w "" then none else some (w, t)

abbrev pub lease_of : Job → Option (String × ℕ)
lease_of job = lease_values job.leased_by job.leased_until

abbrev pub extend_lease : ℕ → ℕ → JobRow → JobRow
extend_lease until now r = record r { leased_until = some until; updated_at = now }

unfoldable pub renew_lease : Job → ℕ → Clock → Queue → Option Job × Queue
renew_lease job lease_seconds clock q = elim (lease_of job) [
  | none ↦ (none, q)
  | some (worker, until) ↦
      let renewed = clock 0 + lease_seconds * 1000 in
      let holds = holds_lease job.id worker until (clock 2) in
      (
        if count_where holds q.jobs == 0
            then none
            else some (record job { leased_until = some renewed }),
        record q { jobs = update_where holds (extend_lease renewed (clock 1)) q.jobs },
      )
]
