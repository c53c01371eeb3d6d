-- ===== src/Executor/Kill/Safety.antt =====
-- executor.go: which processes kill_process signals.
use seagull_agent.Prelude.{
  if◌then◌else◌, ℤ, pos, eq_ℤ, leb_ℤ, String, ◌≡◌, Bool, true, false, not, ◌||◌, inl, inr, none,
  some, List, [], ◌∷◌, arith, All, Bool-cases, Option-cases, length, atoi,
}
use seagull_agent.Executor.Kill.{KillProcessPayload, KillTarget, DirEntry, Host}
use seagull_agent.Executor.Kill.Targets.{
  Attempt, KillReport, process_name_by_pid, process_matches_name, candidate_pid, matching_targets,
  pid_is_less, targets_by_pid, targets_by_name, resolve_kill_targets,
}
use seagull_agent.Executor.Outcome.{Outcome, Holds, Holds-ok, Holds-fail, Holds->>=}
use seagull_agent.Spool.Sort.{All-sort}

-- A process that may be signalled: not init, not the agent, and not the agent's parent.
pub record IsAllowed (host : Host) (t : KillTarget) : Type 0 where
  pub above_init : leb_ℤ t.pid (pos 1) ≡ false
  pub not_self : eq_ℤ t.pid host.self ≡ false
  pub not_parent : eq_ℤ t.pid host.parent_pid ≡ false

-- A payload that names a process by its pid names one above 1.
abbrev pub IsAimed : KillProcessPayload → Type 0
IsAimed p = p.by_name ≡ false → leb_ℤ p.pid (pos 1) ≡ false

candidate_pid-eq-some :
    (host : Host) (entry : DirEntry) (pid : ℤ)
    → candidate_pid host entry ≡ some pid
    → (leb_ℤ pid (pos 1) ≡ false) × (eq_ℤ pid host.self ≡ false)
unfolding candidate_pid
candidate_pid-eq-some host entry pid h = elim (Bool-cases (not entry.is_dir)) [
  | inl plain ↦ cc (rw (candidate_pid, plain) at h)
  | inr dir ↦ elim (Option-cases (atoi entry.name)) [
    | inl other ↦ cc (rw (candidate_pid, dir, other) at h)
    | inr (n, read) ↦ elim (Bool-cases (leb_ℤ n (pos 1) || eq_ℤ n host.self)) [
      | inl refused ↦ cc (rw (candidate_pid, dir, read, refused) at h)
      | inr taken ↦
          let there : some n ≡ some pid = rw (candidate_pid, dir, read, taken) at h in
          let same_pid : n ≡ pid = cc in
          neither (leb_ℤ pid (pos 1)) (eq_ℤ pid host.self) (rw same_pid at taken)
    ]
  ]
]
  where
    neither : (a b : Bool) → (a || b) ≡ false → (a ≡ false) × (b ≡ false)
    neither a b h = ground arith

matching_targets-IsAllowed :
    (host : Host) (want : String) (entries : List DirEntry)
    → Holds (All (IsAllowed host)) (matching_targets host want entries)
unfolding matching_targets
matching_targets-IsAllowed host want [] = Holds-ok tt
matching_targets-IsAllowed host want (entry ∷ l) =
    let rest = matching_targets-IsAllowed host want l in
    elim (Option-cases (candidate_pid host entry)) [
      | inl other ↦ rw (other, matching_targets) rest
      | inr (pid, found) ↦
          let (above, other) = candidate_pid-eq-some host entry pid found in
          let name = process_name_by_pid host pid in
          elim (Bool-cases (process_matches_name host pid name want)) [
            | inr differs ↦ rw (found, differs, matching_targets) rest
            | inl matches ↦ elim (Bool-cases (eq_ℤ pid host.parent_pid)) [
              | inl parent ↦ rw (found, matches, parent, matching_targets) Holds-fail
              | inr fine ↦
                  rw (found, matches, fine, matching_targets)
                    (Holds->>= _ _ λ targets taken. Holds-ok (
                      record { above_init = above; not_self = other; not_parent = fine },
                      rest.of_ok targets taken,
                    ))
            ]
          ]
    ]

targets_by_pid-IsAllowed :
    (host : Host) (pid : ℤ)
    → leb_ℤ pid (pos 1) ≡ false
    → Holds (All (IsAllowed host)) (targets_by_pid host pid)
unfolding targets_by_pid
targets_by_pid-IsAllowed host pid above = elim (Bool-cases (eq_ℤ pid host.self)) [
  | inl self ↦ rw (self, targets_by_pid) Holds-fail
  | inr other ↦ elim (Bool-cases (eq_ℤ pid host.parent_pid)) [
    | inl parent ↦ rw (other, parent, targets_by_pid) Holds-fail
    | inr fine ↦
        rw (other, fine, targets_by_pid)
          (Holds-ok (record { above_init = above; not_self = other; not_parent = fine }, tt))
  ]
]

pub resolve_kill_targets-IsAllowed :
    (host : Host) (p : KillProcessPayload)
    → IsAimed p
    → Holds (All (IsAllowed host)) (resolve_kill_targets host p)
unfolding resolve_kill_targets targets_by_name
resolve_kill_targets-IsAllowed host p aimed = elim (Bool-cases p.by_name) [
  | inr by_pid ↦
      rw (by_pid, resolve_kill_targets) (targets_by_pid-IsAllowed host p.pid (aimed by_pid))
  | inl by_name ↦
      rw (by_name, resolve_kill_targets)
        (Holds->>= _ _ λ entries listed. Holds->>= _ _ λ targets matched. Holds-ok (
          All-sort (IsAllowed host) pid_is_less targets
            ((matching_targets-IsAllowed host p.name entries).of_ok targets matched)))
]

-- The targets of the attempts are those that were resolved.
abbrev pub AllowedAttempt : Host → Attempt → Type 0
AllowedAttempt host a = IsAllowed host a.target

-- What a signal is sent with: only without a dry run, and only the signal that was parsed.
abbrev pub IsSent : KillProcessPayload → Attempt → Type 0
IsSent p a = a.signalled ≡ (if p.dry_run then none else some p.signal)

-- A report of kill_process: who was signalled, that a dry run signals nobody, and the count.
pub record IsSafeReport (host : Host) (r : KillReport) : Type 0 where
  pub allowed : All (AllowedAttempt host) r.killed
  pub dry : r.dry_run ≡ true → All (λ a. a.signalled ≡ none) r.killed
  pub counted : length r.killed ≡ r.matched
