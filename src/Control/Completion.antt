-- ===== src/Control/Completion.antt =====
-- journal.go: `Complete`, where its record fits, and `Delete`, where the disk works.
use seagull_agent.Prelude.{
  ℕ, ℤ, eq_ℤ, eq_ℤ_iff, String, str_eq, str_eq_iff, to_lower, trim_space, ◌≡◌, refl, sym, inl, inr,
  true, false, none, some, ltb, ◌==◌, Bool-cases, Option-cases,
}
use seagull_agent.Assoc.{has, without, find-without}
use seagull_agent.Journal.Entries.{read}
use seagull_agent.Journal.Loaded.{}
use seagull_agent.Journal.Operations.{addressed, complete, delete}
use seagull_agent.Journal.Phases.{phase_at, IsFiled}
use seagull_agent.Journal.State.{
  JournalRecord, ExecutionResult, Journal, Disk, executing, terminal, is_final_status, is_executing,
  validate_journal_record, bounded_result, max_result_payload_size,
}
use seagull_agent.Journal.Transitions.{read-eq-ok}
use seagull_agent.Protocol.Action.{}
use seagull_agent.Control.Delivery.{
  IsSound, Fits, Answered, validate-parts, validate-whole, read-valid, read_at, write_sound,
}

final_status :
    (s : String) → is_final_status s ≡ true → is_final_status (to_lower (trim_space s)) ≡ true
unfolding to_lower trim_space
final_status s h = elim (Bool-cases (str_eq s "success")) [
  | inl success ↦ (let e : s ≡ "success" = (str_eq_iff s "success").0 success in rw e refl)
  | inr other ↦
      let failed : str_eq s "failed" ≡ true = rw other at h in
      let e : s ≡ "failed" = (str_eq_iff s "failed").0 failed in rw e refl
]

-- The record that `Complete` writes.
abbrev pub ended : Disk → ℕ → ℤ → ExecutionResult → JournalRecord → JournalRecord
ended d now id x r = record r {
  phase = terminal;
  result = some (bounded_result d (addressed id r x));
  updated_at = now;
}

bounded-fields :
    (d : Disk) (x : ExecutionResult)
    → ((bounded_result d x).response_action_id ≡ x.response_action_id)
      × ((bounded_result d x).status ≡ x.status)
unfolding bounded_result
bounded-fields d x = elim (Option-cases x.result_payload) [
  | inl nothing ↦ simp (nothing, bounded_result) (refl, refl)
  | inr (m, there) ↦ elim (Option-cases (d.encode m)) [
    | inl bad ↦ simp (there, bad, bounded_result) (refl, refl)
    | inr (n, size) ↦ elim (Bool-cases (ltb max_result_payload_size n)) [
      | inl long ↦ simp (there, size, long, bounded_result) (refl, refl)
      | inr short ↦ simp (there, size, short, bounded_result) (refl, refl)
    ]
  ]
]

validate-ended :
    (d : Disk) (now : ℕ) (id : ℤ) (x : ExecutionResult) (r : JournalRecord)
    → validate_journal_record r ≡ none
    → (now == 0) ≡ false
    → r.action.id ≡ id
    → is_final_status x.status ≡ true
    → validate_journal_record (ended d now id x r) ≡ none
unfolding addressed
validate-ended d now id x r good ticking same_id final =
    let (checked, phase) = validate-parts r good in
    let (of_action, status) = bounded-fields d (addressed id r x) in
    let twice = final_status (to_lower (trim_space x.status)) (final_status x.status final) in
    let same : eq_ℤ id r.action.id ≡ true = (eq_ℤ_iff id r.action.id).1 (sym same_id) in
    validate-whole (ended d now id x r)
      (record {
        version_fits = checked.version_fits;
        cleaned = checked.cleaned;
        valid = checked.valid;
        stamped = checked.stamped;
      })
      ticking (rw (of_action, status, same, twice) refl)

pub complete_sound :
    (d : Disk) (now : ℕ) (id : ℤ) (x : ExecutionResult) (j : Journal) (r : JournalRecord)
    → IsSound d
    → Fits d (ended d now id x r)
    → (now == 0) ≡ false
    → IsFiled j
    → read id j ≡ inr r
    → r.phase ≡ executing
    → is_final_status x.status ≡ true
    → Answered id (ended d now id x r) (complete d now id x j)
unfolding complete addressed
complete_sound d now id x j r sound fits ticking v found running final =
    let same_id = (read-eq-ok id j r v found).1 in
    let good = validate-ended d now id x r (read-valid id j r found) ticking same_id final in
    let (j', done) = write_sound d (ended d now id x r) j sound fits good in
    let is_running : is_executing r.phase ≡ true = rw running refl in
    let is_final = final_status x.status final in
    let whole : complete d now id x j ≡ (j', inr (ended d now id x r)) =
      rw (found, is_running, complete, is_final, done.wrote) refl in
    rw whole (record {
      answered = refl;
      stands = read_at r.action.id id j' (ended d now id x r) same_id done.reads;
    })

pub delete_sound :
    (d : Disk) (id : ℤ) (j : Journal)
    → IsSound d
    → ((delete d id j).1 ≡ none) × (phase_at id (delete d id j).0 ≡ none)
unfolding delete
delete_sound d id j sound = elim (Bool-cases (has id j.files)) [
  | inl there ↦ rw (there, sound.removes, sound.syncs, delete) (refl, gone)
  | inr empty ↦ rw (empty, sound.syncs, delete) (refl, gone)
]
  where
    gone : phase_at id (record j { files = without id j.files }) ≡ none
    gone = rw (find-without id id j.files, (eq_ℤ_iff id id).1 refl) refl
