-- ===== src/Journal/Forward.antt =====
-- Each operation of the journal, and the phase of one action.
use seagull_agent.Prelude.{
  ℕ, ◌≤◌, ℤ, eq_ℤ, eq_ℤ_iff, ◌≡◌, refl, inl, inr, false, not, ◌&&◌, Option, none, some, List, [],
  ◌∷◌, arith, Bool-cases, Option-cases,
}
use seagull_agent.Assoc.{has, find-without, without-IsMap}
use seagull_agent.Journal.Entries.{read, load, ensure_capacity, write}
use seagull_agent.Journal.Operations.{
  answer, opening, time_or, begin_locked, begin, mark_executing, addressed, complete, delete,
  interrupted, recover_records, sync_after, recover,
}
use seagull_agent.Journal.Phases.{phase_at, IsFiled, All-without, Wrote, write-Wrote}
use seagull_agent.Journal.Loaded.{absent}
use seagull_agent.Journal.State.{
  JournalRecord, ExecutionResult, Journal, Disk, JournalError, Phase, accepted, executing, terminal,
  other_phase, is_accepted, is_executing, is_final_status, bounded_result,
}
use seagull_agent.Journal.Transitions.{Result-cases, read-eq-ok, is_accepted-eq}
use seagull_agent.Protocol.Action.{ResponseAction, normalize}

-- How far an action has come.
abbrev pub rank : Option Phase → ℕ
rank none = 0
rank (some accepted) = 1
rank (some executing) = 2
rank (some terminal) = 3
rank (some (other_phase p)) = 0

rank_at_most : (p : Option Phase) → rank p ≤ 3
rank_at_most none = omega arith
rank_at_most (some accepted) = omega arith
rank_at_most (some executing) = omega arith
rank_at_most (some terminal) = omega arith
rank_at_most (some (other_phase p)) = omega arith

-- A change of the journal that keeps its files in place and lets the action `k` only go forward.
pub record Forward (k : ℤ) (j j' : Journal) : Type 0 where
  pub filed : IsFiled j'
  pub further : rank (phase_at k j) ≤ rank (phase_at k j')

pub stays : (k : ℤ) (j : Journal) → IsFiled j → Forward k j j
stays k j v = record { filed = v; further = omega arith }

write-Forward :
    (d : Disk) (r : JournalRecord) (j : Journal) (k : ℤ)
    → IsFiled j
    → rank (phase_at r.action.id j) ≤ rank (some r.phase)
    → Forward k j (write d r j).0
write-Forward d r j k v up =
    let wrote : Wrote r j (write d r j) = write-Wrote d r j in
    record {
      filed = wrote.keeps v;
      further = elim (wrote.phases k) [
        | inr (bad, same) ↦ rw same (omega arith)
        | inl put ↦ elim (Bool-cases (eq_ℤ r.action.id k)) [
          | inr other ↦ rw (put, other) (omega arith)
          | inl this ↦
              let e : r.action.id ≡ k = (eq_ℤ_iff r.action.id k).0 this in
              rw (put, this) (rw e at up)
        ]
      ];
    }

answer-state : (r : JournalRecord) (w : Journal × Option JournalError) → (answer r w).0 ≡ w.0
answer-state r (j, none) = refl
answer-state r (j, some e) = refl

pub begin-Forward :
    (d : Disk) (now : ℕ) (action : ResponseAction) (started : ℕ) (j : Journal) (k : ℤ)
    → IsFiled j
    → Forward k j (begin d now action started j).0
unfolding begin begin_locked opening
begin-Forward d now action started j k v = elim (Result-cases (normalize action)) [
  | inl (e, bad) ↦ rw (bad, begin) (stays k j v)
  | inr (a, good) ↦
      let r = opening a (time_or now started) in
      elim (Bool-cases (not d.can_inspect)) [
        | inl bad ↦ rw (good, begin, begin_locked, bad) (stays k j v)
        | inr seen ↦ elim (Bool-cases (has a.id j.files)) [
          | inl there ↦ rw (good, begin, begin_locked, seen, there) (stays k j v)
          | inr free ↦ elim (Option-cases (ensure_capacity d r j)) [
            | inr (e, full) ↦ rw (good, begin, begin_locked, seen, free, full) (stays k j v)
            | inl room ↦
                rw (good, begin, begin_locked, seen, free, room, answer-state)
                  (write-Forward d r j k v (rw (absent a.id j.files free) (omega arith)))
          ]
        ]
      ]
]

pub mark_executing-Forward :
    (d : Disk) (now : ℕ) (id : ℤ) (j : Journal) (k : ℤ)
    → IsFiled j
    → Forward k j (mark_executing d now id j).0
unfolding mark_executing
mark_executing-Forward d now id j k v = elim (Result-cases (read id j)) [
  | inl (e, bad) ↦ rw (bad, mark_executing) (stays k j v)
  | inr (r, found) ↦
      let (here, same_id) = read-eq-ok id j r v found in
      elim (Bool-cases (is_accepted r.phase)) [
        | inr wrong ↦ rw (found, wrong, mark_executing) (stays k j v)
        | inl waiting ↦
            rw (found, waiting, mark_executing, answer-state)
              (write-Forward d (record r { phase = executing; updated_at = now }) j k v
                (rw (same_id, here, is_accepted-eq r.phase waiting) (omega arith)))
      ]
]

pub complete-Forward :
    (d : Disk) (now : ℕ) (id : ℤ) (result : ExecutionResult) (j : Journal) (k : ℤ)
    → IsFiled j
    → Forward k j (complete d now id result j).0
unfolding complete
complete-Forward d now id result j k v = elim (Result-cases (read id j)) [
  | inl (e, bad) ↦ rw (bad, complete) (stays k j v)
  | inr (r, found) ↦ elim (Bool-cases (is_executing r.phase)) [
    | inr wrong ↦ rw (found, wrong, complete) (stays k j v)
    | inl running ↦ elim (Bool-cases (is_final_status (addressed id r result).status)) [
      | inr bad ↦ rw (found, running, bad, complete) (stays k j v)
      | inl final ↦
          let ended : JournalRecord = record r {
            phase = terminal;
            result = some (bounded_result d (addressed id r result));
            updated_at = now;
          } in
          rw (found, running, final, complete, answer-state)
            (write-Forward d ended j k v (rank_at_most (phase_at r.action.id j)))
    ]
  ]
]

recover_records-Forward :
    (d : Disk) (now : ℕ) (l : List JournalRecord) (j : Journal) (k : ℤ)
    → IsFiled j
    → Forward k j (recover_records d now l j).0
unfolding recover_records interrupted
recover_records-Forward d now [] j k v = stays k j v
recover_records-Forward d now (r ∷ l) j k v = elim (Bool-cases (is_executing r.phase)) [
  | inr idle ↦ rw idle (recover_records-Forward d now l j k v)
  | inl active ↦
      let w = write d (interrupted now r) j in
      let first : Forward k j w.0 =
        write-Forward d (interrupted now r) j k v (rank_at_most (phase_at r.action.id j)) in
      elim (Option-cases w.1) [
        | inr (e, bad) ↦ rw (active, recover_records, bad) first
        | inl good ↦
            let rest = recover_records-Forward d now l w.0 k first.filed in
            rw (active, recover_records, good)
              (record { filed = rest.filed; further = omega (arith, first.further, rest.further) })
      ]
]

sync_after-state : (d : Disk) (w : Journal × Option JournalError) → (sync_after d w).0 ≡ w.0
sync_after-state d (j, none) = refl
sync_after-state d (j, some e) = refl

pub recover-Forward :
    (d : Disk) (now : ℕ) (j : Journal) (k : ℤ) → IsFiled j → Forward k j (recover d now j).0
unfolding recover
recover-Forward d now j k v = elim (Bool-cases (not d.can_list)) [
  | inl bad ↦ rw (bad, recover) (stays k j v)
  | inr listing ↦ elim (Bool-cases (not d.can_clear_temps)) [
    | inl bad ↦ rw (listing, bad, recover) (stays k j v)
    | inr clear ↦ elim (Result-cases (load d j)) [
      | inl (e, bad) ↦ rw (listing, clear, bad, recover) (stays k j v)
      | inr ((l, bytes), found) ↦
          rw (listing, clear, found, recover, sync_after-state)
            (recover_records-Forward d now l j k v)
    ]
  ]
]

pub delete-Forward :
    (d : Disk) (id : ℤ) (j : Journal) (k : ℤ)
    → eq_ℤ id k ≡ false
    → IsFiled j
    → Forward k j (delete d id j).0
unfolding delete
delete-Forward d id j k other v = elim (Bool-cases (has id j.files && not d.can_remove)) [
  | inl stuck ↦ rw (stuck, delete) (stays k j v)
  | inr gone ↦
      rw (gone, delete)
        (record {
          filed = record {
            one_each = without-IsMap id j.files v.one_each;
            named = All-without id j.files v.named;
          };
          further = rw (find-without k id j.files, other) (omega arith);
        })
]
