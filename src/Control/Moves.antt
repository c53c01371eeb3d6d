-- ===== src/Control/Moves.antt =====
-- The operations of the journal as moves of the life of an action.
use seagull_agent.Prelude.{
  ℕ, ℤ, eq_ℤ, eq_ℤ_iff, ◌≡◌, refl, ap, sym, ◌∙◌, ◌⊎◌, inl, inr, not, ◌&&◌, Option, none, some,
  if◌then◌else◌, Bool-cases, Option-cases,
}
use seagull_agent.Assoc.{has, find-without, without-IsMap}
use seagull_agent.Control.Lifecycle.{◌⟶*◌, here, further, begins, marks, completes, delivers}
use seagull_agent.Journal.Entries.{read, ensure_capacity, write}
use seagull_agent.Journal.Forward.{begin-Forward, mark_executing-Forward, complete-Forward}
use seagull_agent.Journal.Loaded.{absent}
use seagull_agent.Journal.Operations.{
  answer, opening, time_or, begin_locked, begin, mark_executing, addressed, complete, delete,
}
use seagull_agent.Journal.Phases.{phase_at, IsFiled, All-without, Wrote, write-Wrote}
use seagull_agent.Journal.State.{
  JournalRecord, ExecutionResult, Journal, Disk, JournalError, executing, terminal, is_accepted,
  is_executing, is_final_status, bounded_result,
}
use seagull_agent.Journal.Transitions.{Result-cases, read-eq-ok, is_accepted-eq, is_executing-eq}
use seagull_agent.Protocol.Action.{ResponseAction, normalize}

-- What a change of the journal does to the life of the action `k`, at any count of executions.
pub record Moves (k : ℤ) (j j' : Journal) : Type 0 where
  pub filed : IsFiled j'
  pub path : (n : ℕ) → (phase_at k j, n) ⟶* (phase_at k j', n)

pub stays : (k : ℤ) (j : Journal) → IsFiled j → Moves k j j
stays k j v = record { filed = v; path = λ n. here (phase_at k j, n) }

-- The write of a record whose phase the entry may take.
write-path :
    (d : Disk) (r : JournalRecord) (j : Journal) (k : ℤ) (n : ℕ)
    → ((m : ℕ) → (phase_at r.action.id j, m) ⟶* (some r.phase, m))
    → (phase_at k j, n) ⟶* (phase_at k (write d r j).0, n)
write-path d r j k n up =
    let wrote : Wrote r j (write d r j) = write-Wrote d r j in
    elim (wrote.phases k) [
      | inr (bad, same) ↦ rw same (here (phase_at k j, n))
      | inl put ↦ elim (Bool-cases (eq_ℤ r.action.id k)) [
        | inr other ↦ rw (put, other) (here (phase_at k j, n))
        | inl this ↦
            let e : r.action.id ≡ k = (eq_ℤ_iff r.action.id k).0 this in
            rw (put, this) (rw e at up n)
      ]
    ]

answer-state : (r : JournalRecord) (w : Journal × Option JournalError) → (answer r w).0 ≡ w.0
answer-state r (j, none) = refl
answer-state r (j, some e) = refl

begin-path :
    (d : Disk) (now : ℕ) (action : ResponseAction) (started : ℕ) (j : Journal) (k : ℤ) (n : ℕ)
    → (phase_at k j, n) ⟶* (phase_at k (begin d now action started j).0, n)
unfolding begin begin_locked opening
begin-path d now action started j k n = elim (Result-cases (normalize action)) [
  | inl (e, bad) ↦ rw (bad, begin) (here (phase_at k j, n))
  | inr (a, good) ↦
      let r = opening a (time_or now started) in
      elim (Bool-cases (not d.can_inspect)) [
        | inl bad ↦ rw (good, begin, begin_locked, bad) (here (phase_at k j, n))
        | inr seen ↦ elim (Bool-cases (has a.id j.files)) [
          | inl there ↦ rw (good, begin, begin_locked, seen, there) (here (phase_at k j, n))
          | inr free ↦ elim (Option-cases (ensure_capacity d r j)) [
            | inr (e, full) ↦
                rw (good, begin, begin_locked, seen, free, full) (here (phase_at k j, n))
            | inl room ↦
                rw (good, begin, begin_locked, seen, free, room, answer-state)
                  (write-path d r j k n
                    (λ m. rw (absent a.id j.files free) (further (begins m) (here _))))
          ]
        ]
      ]
]

pub begin-Moves :
    (d : Disk) (now : ℕ) (action : ResponseAction) (started : ℕ) (j : Journal) (k : ℤ)
    → IsFiled j
    → Moves k j (begin d now action started j).0
begin-Moves d now action started j k v = record {
  filed = (begin-Forward d now action started j k v).filed;
  path = begin-path d now action started j k;
}

mark_executing-path :
    (d : Disk) (now : ℕ) (id : ℤ) (j : Journal) (k : ℤ) (n : ℕ)
    → IsFiled j
    → (phase_at k j, n) ⟶* (phase_at k (mark_executing d now id j).0, n)
unfolding mark_executing
mark_executing-path d now id j k n v = elim (Result-cases (read id j)) [
  | inl (e, bad) ↦ rw (bad, mark_executing) (here (phase_at k j, n))
  | inr (r, found) ↦
      let (there, same_id) = read-eq-ok id j r v found in
      elim (Bool-cases (is_accepted r.phase)) [
        | inr wrong ↦ rw (found, wrong, mark_executing) (here (phase_at k j, n))
        | inl waiting ↦
            rw (found, waiting, mark_executing, answer-state)
              (write-path d (record r { phase = executing; updated_at = now }) j k n
                (λ m.
                  rw (same_id, there, is_accepted-eq r.phase waiting) (further (marks m) (here _))))
      ]
]

pub mark_executing-Moves :
    (d : Disk) (now : ℕ) (id : ℤ) (j : Journal) (k : ℤ)
    → IsFiled j
    → Moves k j (mark_executing d now id j).0
mark_executing-Moves d now id j k v = record {
  filed = (mark_executing-Forward d now id j k v).filed;
  path = λ n. mark_executing-path d now id j k n v;
}

complete-path :
    (d : Disk) (now : ℕ) (id : ℤ) (result : ExecutionResult) (j : Journal) (k : ℤ) (n : ℕ)
    → IsFiled j
    → (phase_at k j, n) ⟶* (phase_at k (complete d now id result j).0, n)
unfolding complete
complete-path d now id result j k n v = elim (Result-cases (read id j)) [
  | inl (e, bad) ↦ rw (bad, complete) (here (phase_at k j, n))
  | inr (r, found) ↦
      let (there, same_id) = read-eq-ok id j r v found in
      elim (Bool-cases (is_executing r.phase)) [
        | inr wrong ↦ rw (found, wrong, complete) (here (phase_at k j, n))
        | inl running ↦ elim (Bool-cases (is_final_status (addressed id r result).status)) [
          | inr bad ↦ rw (found, running, bad, complete) (here (phase_at k j, n))
          | inl final ↦
              let ended : JournalRecord = record r {
                phase = terminal;
                result = some (bounded_result d (addressed id r result));
                updated_at = now;
              } in
              rw (found, running, final, complete, answer-state)
                (write-path d ended j k n (λ m.
                  rw (same_id, there, is_executing-eq r.phase running)
                    (further (completes m) (here _))))
        ]
      ]
]

pub complete-Moves :
    (d : Disk) (now : ℕ) (id : ℤ) (result : ExecutionResult) (j : Journal) (k : ℤ)
    → IsFiled j
    → Moves k j (complete d now id result j).0
complete-Moves d now id result j k v = record {
  filed = (complete-Forward d now id result j k v).filed;
  path = λ n. complete-path d now id result j k n v;
}

-- The entry may be deleted: it is terminal, or there is none.
abbrev pub IsDeletable : ℤ → Journal → Type 0
IsDeletable id j = (phase_at id j ≡ some terminal) ⊎ (phase_at id j ≡ none)

-- A deletion takes the entry away or leaves the journal as it is.
pub delete-phase :
    (d : Disk) (id : ℤ) (j : Journal) (k : ℤ)
    → (phase_at k (delete d id j).0 ≡ (if eq_ℤ id k then none else phase_at k j))
      ⊎ ((delete d id j).0 ≡ j)
unfolding delete
delete-phase d id j k = elim (Bool-cases (has id j.files && not d.can_remove)) [
  | inl stuck ↦ inr (rw (stuck, delete) refl)
  | inr gone ↦ inl (elim (Bool-cases (eq_ℤ id k)) [
    | inl same ↦ rw (gone, delete, same, find-without k id j.files) (rw same refl)
    | inr other ↦ rw (gone, delete, other, find-without k id j.files) (rw other refl)
  ])
]

delete-IsFiled : (d : Disk) (id : ℤ) (j : Journal) → IsFiled j → IsFiled (delete d id j).0
unfolding delete
delete-IsFiled d id j v = elim (Bool-cases (has id j.files && not d.can_remove)) [
  | inl stuck ↦ rw (stuck, delete) v
  | inr gone ↦
      rw (gone, delete)
        (record {
          one_each = without-IsMap id j.files v.one_each;
          named = All-without id j.files v.named;
        })
]

pub delete-Moves :
    (d : Disk) (id : ℤ) (j : Journal) (k : ℤ)
    → IsFiled j
    → IsDeletable id j
    → Moves k j (delete d id j).0
delete-Moves d id j k v may = record {
  filed = delete-IsFiled d id j v;
  path = λ n. elim (delete-phase d id j k) [
    | inr same ↦ rw same (here (phase_at k j, n))
    | inl gone ↦ elim (Bool-cases (eq_ℤ id k)) [
      | inr other ↦ rw (gone, other) (here (phase_at k j, n))
      | inl this ↦
          let e : id ≡ k = (eq_ℤ_iff id k).0 this in
          elim may [
            | inl done ↦ rw (gone, this, ← e, done) (further (delivers n) (here _))
            | inr empty ↦ rw (gone, this, ← e, empty) (here _)
          ]
    ]
  ];
}

answer-eq-record :
    (r s : JournalRecord) (w : Journal × Option JournalError) (j : Journal)
    → answer r w ≡ (j, inr s)
    → r ≡ s
answer-eq-record r s (i, none) j h =
    let same : ◌≡◌ {A = JournalError ⊎ JournalRecord} (inr r) (inr s) = ap (λ x. x.1) h in cc same
answer-eq-record r s (i, some e) j h = absurd (cc (ap (λ x. x.1) h))

-- The record that `Complete` answers with is that of the action.
pub complete-eq-record :
    (d : Disk) (now : ℕ) (id : ℤ) (result : ExecutionResult) (j j' : Journal) (s : JournalRecord)
    → IsFiled j
    → complete d now id result j ≡ (j', inr s)
    → s.action.id ≡ id
unfolding complete
complete-eq-record d now id result j j' s v h = elim (Result-cases (read id j)) [
  | inl (e, bad) ↦ absurd (cc (ap (λ x. x.1) (rw (bad, complete) at h)))
  | inr (r, found) ↦
      let (there, same_id) = read-eq-ok id j r v found in
      elim (Bool-cases (is_executing r.phase)) [
        | inr wrong ↦ absurd (cc (ap (λ x. x.1) (rw (found, wrong, complete) at h)))
        | inl running ↦ elim (Bool-cases (is_final_status (addressed id r result).status)) [
          | inr bad ↦ absurd (cc (ap (λ x. x.1) (rw (found, running, bad, complete) at h)))
          | inl final ↦
              let ended : JournalRecord = record r {
                phase = terminal;
                result = some (bounded_result d (addressed id r result));
                updated_at = now;
              } in
              let same_record : ended ≡ s =
                answer-eq-record ended s (write d ended j) j'
                  (rw (found, running, final, complete) at h) in
              ap (λ x. x.action.id) (sym same_record) ∙ same_id
        ]
      ]
]
