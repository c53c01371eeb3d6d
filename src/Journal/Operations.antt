-- ===== src/Journal/Operations.antt =====
-- journal.go: the methods of `Journal`, `recover` and `NewJournal`. The nil receiver and the
-- creation of the directory are not modelled.
use seagull_agent.Prelude.{
  ℕ, zero, suc, ℤ, pos, negsuc, Bool, not, ◌&&◌, leb_ℤ, Option, none, some, List, [], ◌∷◌, map,
  length, ◌==◌, ◌⊎◌, inl, inr, if◌then◌else◌, trim_space, to_lower,
}
use seagull_agent.Assoc.{has, without}
use seagull_agent.Journal.Entries.{read, load, ensure_capacity, write}
use seagull_agent.Journal.State.{
  JournalRecord, Stored, ExecutionResult, Journal, Disk, Phase, accepted, executing, terminal,
  JournalError, entry_exists, temps_remain, not_inspected, not_removed, not_synced,
  unreadable_directory, wrong_phase, invalid_status, invalid_action, is_accepted, is_executing,
  is_terminal, is_final_status, bounded_result, journal_version,
}
use seagull_agent.Protocol.Incompatibility.{positive}
use seagull_agent.Protocol.Action.{ResponseAction, normalize}

-- The record that a write was for, if it succeeded.
abbrev pub answer :
    JournalRecord → Journal × Option JournalError → Journal × (JournalError ⊎ JournalRecord)
answer r (j, none) = (j, inr r)
answer r (j, some e) = (j, inl e)

abbrev pub time_or : ℕ → ℕ → ℕ
time_or now t = if t == 0 then now else t

unfoldable pub opening : ResponseAction → ℕ → JournalRecord
opening action started = record {
  version = journal_version;
  action = action;
  phase = accepted;
  result = none;
  started_at = started;
  updated_at = started;
}

-- `Begin` under the lock.
unfoldable pub begin_locked :
    Disk → JournalRecord → Journal → Journal × (JournalError ⊎ JournalRecord)
begin_locked d r j =
    if not d.can_inspect
    then (j, inl not_inspected)
    else if has r.action.id j.files
    then (j, inl entry_exists)
    else elim (ensure_capacity d r j) [ some e ↦ (j, inl e) | none ↦ answer r (write d r j) ]

-- `now` is time.Now, for a zero `started`.
unfoldable pub begin :
    Disk → ℕ → ResponseAction → ℕ → Journal → Journal × (JournalError ⊎ JournalRecord)
begin d now action started j = elim (normalize action) [
  | inl e ↦ (j, inl (invalid_action e))
  | inr a ↦ begin_locked d (opening a (time_or now started)) j
]

-- `now` is the time that is recorded: that of the caller, or time.Now in the place of a zero time.
unfoldable pub mark_executing : Disk → ℕ → ℤ → Journal → Journal × (JournalError ⊎ JournalRecord)
mark_executing d now id j = elim (read id j) [
  | inl e ↦ (j, inl e)
  | inr r ↦
      if is_accepted r.phase
      then (let r' = record r { phase = executing; updated_at = now } in answer r' (write d r' j))
      else (j, inl (wrong_phase r.phase))
]

-- The result that `Complete` keeps, before its payload is bounded.
unfoldable pub addressed : ℤ → JournalRecord → ExecutionResult → ExecutionResult
addressed id r result = record result {
  response_action_id = id;
  agent_id = r.action.agent_id;
  status = to_lower (trim_space result.status);
}

unfoldable pub complete :
    Disk → ℕ → ℤ → ExecutionResult → Journal → Journal × (JournalError ⊎ JournalRecord)
complete d now id result j = elim (read id j) [
  | inl e ↦ (j, inl e)
  | inr r ↦
      if is_executing r.phase
      then (if is_final_status (addressed id r result).status
          then (let r' = record r {
            phase = terminal;
            result = some (bounded_result d (addressed id r result));
            updated_at = now;
          } in
              answer r' (write d r' j))
          else (j, inl (invalid_status (addressed id r result).status)))
      else (j, inl (wrong_phase r.phase))
]

unfoldable pub delete : Disk → ℤ → Journal → Journal × Option JournalError
delete d id j =
    if has id j.files && not d.can_remove
    then (j, some not_removed)
    else (record j { files = without id j.files }, if d.can_sync then none else some not_synced)

-- The loop of `records`: at most `limit` records that pass, if `limit` is above 0. `found` counts
-- those taken.
unfoldable pub select : (Phase → Bool) → ℤ → ℕ → List JournalRecord → List JournalRecord
select passes limit found [] = []
select passes limit found (r ∷ l) =
    let more = select passes limit (suc found) l in
    let others = select passes limit found l in
    if passes r.phase
    then (if positive limit && leb_ℤ limit (pos (suc found)) then r ∷ [] else r ∷ more)
    else others

unfoldable pub records : (Phase → Bool) → Disk → ℤ → Journal → JournalError ⊎ List JournalRecord
records passes d limit j = elim (load d j) [
  | inl e ↦ inl e
  | inr (l, bytes) ↦ inr (select passes limit 0 l)
]

abbrev pub accepted_records : Disk → ℤ → Journal → JournalError ⊎ List JournalRecord
accepted_records d limit j = records is_accepted d limit j

abbrev pub terminal_records : Disk → ℤ → Journal → JournalError ⊎ List JournalRecord
terminal_records d limit j = records is_terminal d limit j

unfoldable pub ids : Disk → Journal → JournalError ⊎ List ℤ
ids d j = elim (load d j) [ inl e ↦ inl e | inr (l, bytes) ↦ inr (map (λ r. r.action.id) l) ]

unfoldable pub pending : Disk → Journal → JournalError ⊎ ℕ
pending d j = elim (load d j) [ inl e ↦ inl e | inr (l, bytes) ↦ inr (length l) ]

-- The record that `recover` writes over one that was executing.
unfoldable pub interrupted : ℕ → JournalRecord → JournalRecord
interrupted now r = record r {
  phase = terminal;
  result = some (record {
    response_action_id = r.action.id;
    agent_id = r.action.agent_id;
    status = "failed";
    result_payload = none;
    error = "agent restarted while action execution outcome was indeterminate";
    started_at = some r.started_at;
    finished_at = some now;
  });
  updated_at = now;
}

unfoldable pub recover_records :
    Disk → ℕ → List JournalRecord → Journal → Journal × Option JournalError
recover_records d now [] j = (j, none)
recover_records d now (r ∷ l) j =
    if is_executing r.phase
    then (let (j', failed) = write d (interrupted now r) j in
        elim failed [ some e ↦ (j', some e) | none ↦ recover_records d now l j' ])
    else recover_records d now l j

abbrev pub sync_after : Disk → Journal × Option JournalError → Journal × Option JournalError
sync_after d (j, some e) = (j, some e)
sync_after d (j, none) = (j, if d.can_sync then none else some not_synced)

unfoldable pub recover : Disk → ℕ → Journal → Journal × Option JournalError
recover d now j =
    if not d.can_list
    then (j, some unreadable_directory)
    else if not d.can_clear_temps
    then (j, some temps_remain)
    else elim (load d j) [
      | inl e ↦ (j, some e)
      | inr (l, bytes) ↦ sync_after d (recover_records d now l j)
    ]

abbrev pub or_default : ℕ → ℤ → ℕ
or_default default (pos zero) = default
or_default default (pos (suc n)) = suc n
or_default default (negsuc n) = default

-- `NewJournal`, over the directory as it is found.
unfoldable pub new_journal :
    Disk → ℕ → ℤ → ℤ → Bool → List (ℤ × Stored) → Journal × Option JournalError
new_journal d now max_records max_bytes stray files = recover d now (record {
  max_records = or_default 2048 max_records;
  max_bytes = or_default 67108864 max_bytes;
  stray = stray;
  files = files;
})
