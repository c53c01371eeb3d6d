-- ===== src/Journal/Transitions.antt =====
-- The transitions of one action: accepted, then executing, then terminal.
use seagull_agent.Prelude.{
  ℕ, ℤ, eq_ℤ, ◌≡◌, refl, ap, ◌∙◌, ◌⊎◌, inl, inr, true, not, Option, none, some, if◌then◌else◌,
  Bool-cases, Option-cases,
}
use seagull_agent.Assoc.{has, find}
use seagull_agent.Journal.Entries.{read, ensure_capacity, write}
use seagull_agent.Journal.Operations.{
  answer, opening, time_or, begin_locked, begin, mark_executing, addressed, complete,
}
use seagull_agent.Journal.Phases.{phase_at, IsFiled, find-IsNamed, Wrote, write-Wrote}
use seagull_agent.Journal.Loaded.{read_file-content, absent}
use seagull_agent.Journal.State.{
  JournalRecord, ExecutionResult, Journal, Disk, JournalError, Phase, accepted, executing, terminal,
  other_phase, is_accepted, is_executing, is_final_status, bounded_result,
}
use seagull_agent.Protocol.Action.{ResponseAction, normalize}

pub Result-cases : {A B : Type 0} (x : A ⊎ B) → ((a : A) × (x ≡ inl a)) ⊎ ((b : B) × (x ≡ inr b))
Result-cases (inl a) = inl (a, refl)
Result-cases (inr b) = inr (b, refl)

pub is_accepted-eq : (p : Phase) → is_accepted p ≡ true → p ≡ accepted
is_accepted-eq accepted h = refl
is_accepted-eq executing h = cc
is_accepted-eq terminal h = cc
is_accepted-eq (other_phase q) h = cc

pub is_executing-eq : (p : Phase) → is_executing p ≡ true → p ≡ executing
is_executing-eq accepted h = cc
is_executing-eq executing h = refl
is_executing-eq terminal h = cc
is_executing-eq (other_phase q) h = cc

pub read-eq-ok :
    (id : ℤ) (j : Journal) (r : JournalRecord)
    → IsFiled j
    → read id j ≡ inr r
    → (phase_at id j ≡ some r.phase) × (r.action.id ≡ id)
unfolding read
read-eq-ok id j r v h = elim (Option-cases (find id j.files)) [
  | inl nothing ↦ cc (rw (nothing, read) at h)
  | inr (f, there) ↦
      let held : f.content ≡ some r = read_file-content f r (rw (there, read) at h) in
      (rw (there, held), find-IsNamed id j.files f v.named there r held)
]

pub answer-eq-ok :
    (r s : JournalRecord) (w : Journal × Option JournalError) (j : Journal)
    → answer r w ≡ (j, inr s)
    → (w.0 ≡ j) × (w.1 ≡ none)
answer-eq-ok r s (i, none) j h = (ap (λ x. x.0) h, refl)
answer-eq-ok r s (i, some e) j h = absurd (cc (ap (λ x. x.1) h))

-- A write that is answered with the record has put its phase under its id, and nothing else.
answered_write :
    (d : Disk) (r s : JournalRecord) (j j' : Journal) (k : ℤ)
    → answer r (write d r j) ≡ (j', inr s)
    → phase_at k j' ≡ (if eq_ℤ r.action.id k then some r.phase else phase_at k j)
answered_write d r s j j' k h =
    let (same, good) = answer-eq-ok r s (write d r j) j' h in
    let wrote : Wrote r j (write d r j) = write-Wrote d r j in
    elim (wrote.phases k) [ inl put ↦ rw (← same) put | inr (bad, kept) ↦ absurd (bad good) ]

-- If MarkExecuting succeeds in a journal whose entries stand under their ids, the action was accepted and now executes, and no other action changes
-- its phase.
pub mark_executing-eq-ok :
    (d : Disk) (now : ℕ) (id : ℤ) (j j' : Journal) (s : JournalRecord) (k : ℤ)
    → IsFiled j
    → mark_executing d now id j ≡ (j', inr s)
    → (phase_at id j ≡ some accepted)
      × (phase_at k j' ≡ (if eq_ℤ id k then some executing else phase_at k j))
unfolding mark_executing
mark_executing-eq-ok d now id j j' s k v h = elim (Result-cases (read id j)) [
  | inl (e, bad) ↦ absurd (cc (ap (λ x. x.1) (rw (bad, mark_executing) at h)))
  | inr (r, found) ↦
      let (here, same_id) = read-eq-ok id j r v found in
      elim (Bool-cases (is_accepted r.phase)) [
        | inr wrong ↦ absurd (cc (ap (λ x. x.1) (rw (found, wrong, mark_executing) at h)))
        | inl waiting ↦
            let wrote =
              answered_write d (record r { phase = executing; updated_at = now }) s j j' k
                (rw (found, waiting, mark_executing) at h) in
            (here ∙ ap some (is_accepted-eq r.phase waiting), rw (← same_id) wrote)
      ]
]

-- If Complete succeeds in a journal whose entries stand under their ids, the action was executing and is now terminal, and no other action changes
-- its phase.
pub complete-eq-ok :
    (d : Disk) (now : ℕ) (id : ℤ) (result : ExecutionResult) (j j' : Journal) (s : JournalRecord)
    (k : ℤ)
    → IsFiled j
    → complete d now id result j ≡ (j', inr s)
    → (phase_at id j ≡ some executing)
      × (phase_at k j' ≡ (if eq_ℤ id k then some terminal else phase_at k j))
unfolding complete
complete-eq-ok d now id result j j' s k v h = elim (Result-cases (read id j)) [
  | inl (e, bad) ↦ absurd (cc (ap (λ x. x.1) (rw (bad, complete) at h)))
  | inr (r, found) ↦
      let (here, same_id) = read-eq-ok id j r v found in
      elim (Bool-cases (is_executing r.phase)) [
        | inr wrong ↦ absurd (cc (ap (λ x. x.1) (rw (found, wrong, complete) at h)))
        | inl running ↦ elim (Bool-cases (is_final_status (addressed id r result).status)) [
          | inr bad ↦ absurd (cc (ap (λ x. x.1) (rw (found, running, bad, complete) at h)))
          | inl final ↦
              let ended : JournalRecord = record r {
                phase = terminal;
                result = some (bounded_result d (addressed id r result));
                updated_at = now;
              } in
              let wrote =
                answered_write d ended s j j' k (rw (found, running, final, complete) at h) in
              (here ∙ ap some (is_executing-eq r.phase running), rw (← same_id) wrote)
        ]
      ]
]

-- If Begin succeeds, the journal had no entry for the action, which is now accepted, and no other
-- action changes its phase.
pub begin-eq-ok :
    (d : Disk) (now : ℕ) (action a : ResponseAction) (started : ℕ) (j j' : Journal)
    (s : JournalRecord) (k : ℤ)
    → normalize action ≡ inr a
    → begin d now action started j ≡ (j', inr s)
    → (phase_at a.id j ≡ none)
      × (phase_at k j' ≡ (if eq_ℤ a.id k then some accepted else phase_at k j))
unfolding begin begin_locked opening
begin-eq-ok d now action a started j j' s k good h =
    let r = opening a (time_or now started) in
    let locked : begin_locked d r j ≡ (j', inr s) = rw (good, begin) at h in
    elim (Bool-cases (not d.can_inspect)) [
      | inl bad ↦ absurd (cc (ap (λ x. x.1) (rw (begin_locked, bad) at locked)))
      | inr seen ↦ elim (Bool-cases (has a.id j.files)) [
        | inl there ↦ absurd (cc (ap (λ x. x.1) (rw (begin_locked, seen, there) at locked)))
        | inr free ↦ elim (Option-cases (ensure_capacity d r j)) [
          | inr (e, full) ↦
              absurd (cc (ap (λ x. x.1) (rw (begin_locked, seen, free, full) at locked)))
          | inl room ↦ (
            rw (absent a.id j.files free),
            answered_write d r s j j' k (rw (begin_locked, seen, free, room) at locked),
          )
        ]
      ]
    ]
