-- ===== src/Journal/Phases.antt =====
-- The phase of an action in the journal, and what a write does to it.
use seagull_agent.Prelude.{
  ℕ, ℤ, eq_ℤ, eq_ℤ_iff, ◌≡◌, ◌≢◌, refl, ◌⊎◌, inl, inr, Option, none, some, List, [], ◌∷◌, arith,
  if◌then◌else◌, Bool-cases, Option-cases, ltb, All,
}
use seagull_agent.Assoc.{find, without, IsMap, find-without, without-IsMap, has-without}
use seagull_agent.Journal.Entries.{write, put, stored, finish_write}
use seagull_agent.Journal.State.{
  JournalRecord, Stored, Journal, Disk, Writing, written, failed, unsynced, JournalError, Phase,
  max_journal_record_size, validate_journal_record,
}

abbrev pub phase_of : Option Stored → Option Phase
phase_of none = none
phase_of (some f) = elim f.content [ none ↦ none | some r ↦ some r.phase ]

-- The phase of the record under an id, if there is one.
abbrev pub phase_at : ℤ → Journal → Option Phase
phase_at id j = phase_of (find id j.files)

-- Each file is kept under the id of its record, and no id has two files.
abbrev IsNamed : ℤ × Stored → Type 0
IsNamed (id, f) = (r : JournalRecord) → f.content ≡ some r → r.action.id ≡ id

pub record IsFiled (j : Journal) : Type 0 where
  pub one_each : IsMap j.files
  pub named : All IsNamed j.files

pub All-without : (k : ℤ) (l : List (ℤ × Stored)) → All IsNamed l → All IsNamed (without k l)
unfolding without
All-without k [] h = tt
All-without k ((i, f) ∷ l) h = elim (Bool-cases (eq_ℤ i k)) [
  | inl same ↦ rw same (All-without k l h.1)
  | inr other ↦ rw other (h.0, All-without k l h.1)
]

pub find-IsNamed :
    (k : ℤ) (l : List (ℤ × Stored)) (f : Stored)
    → All IsNamed l
    → find k l ≡ some f
    → IsNamed (k, f)
unfolding find
find-IsNamed k [] f h e = cc
find-IsNamed k ((i, g) ∷ l) f h e = elim (Bool-cases (eq_ℤ i k)) [
  | inl same ↦
      let there : some g ≡ some f = rw same at e in
      let same_file : g ≡ f = cc in
      let same_id : i ≡ k = (eq_ℤ_iff i k).0 same in rw (← same_file, ← same_id) (h.0)
  | inr other ↦ find-IsNamed k l f (h.1) (rw other at e)
]

put-IsFiled :
    (id : ℤ) (f : Stored) (j : Journal) → IsNamed (id, f) → IsFiled j → IsFiled (put id f j)
put-IsFiled id f j n v = record {
  one_each = (
    rw (has-without id id j.files) (ground (arith, eq_ℤ_iff id id)),
    without-IsMap id j.files v.one_each,
  );
  named = (n, All-without id j.files v.named);
}

phase_at-put :
    (k id : ℤ) (f : Stored) (j : Journal)
    → phase_at k (put id f j) ≡ (if eq_ℤ id k then phase_of (some f) else phase_at k j)
unfolding find
phase_at-put k id f j = elim (Bool-cases (eq_ℤ id k)) [
  | inl same ↦ rw same
  | inr other ↦ rw (other, find-without k id j.files) (rw other)
]

-- The answers of a write: nothing was written, or the record was, with or without an error.
pub record Wrote (r : JournalRecord) (j : Journal) (w : Journal × Option JournalError)
    : Type 0 where
  pub keeps : IsFiled j → IsFiled w.0
  pub phases :
      (k : ℤ)
      → (phase_at k w.0 ≡ (if eq_ℤ r.action.id k then some r.phase else phase_at k j))
        ⊎ ((w.1 ≢ none) × (phase_at k w.0 ≡ phase_at k j))

IsNamed-stored : (n : ℕ) (r : JournalRecord) → IsNamed (r.action.id, stored n r)
IsNamed-stored n r s e = cc

refused_write : (r : JournalRecord) (j : Journal) (e : JournalError) → Wrote r j (j, some e)
refused_write r j e = record { keeps = λ v. v; phases = λ k. inr (λ h. cc, refl) }

finished_write :
    (d : Disk) (n : ℕ) (r : JournalRecord) (j : Journal) (o : Writing)
    → Wrote r j (finish_write d n r j o)
finished_write d n r j written = record {
  keeps = λ v. put-IsFiled r.action.id (stored n r) j (IsNamed-stored n r) v;
  phases = λ k. inl (phase_at-put k r.action.id (stored n r) j);
}
finished_write d n r j unsynced = record {
  keeps = λ v. put-IsFiled r.action.id (stored n r) j (IsNamed-stored n r) v;
  phases = λ k. inl (phase_at-put k r.action.id (stored n r) j);
}
finished_write d n r j failed = record { keeps = λ v. v; phases = λ k. inr (λ h. cc, refl) }

pub write-Wrote : (d : Disk) (r : JournalRecord) (j : Journal) → Wrote r j (write d r j)
unfolding write
write-Wrote d r j = elim (Option-cases (validate_journal_record r)) [
  | inr (e, bad) ↦ rw (bad, write) (refused_write r j e)
  | inl good ↦ elim (Option-cases (d.marshal r)) [
    | inl opaque ↦ rw (good, opaque, write) (refused_write r j _)
    | inr (n, encoded) ↦ elim (Bool-cases (ltb max_journal_record_size n)) [
      | inl long ↦ rw (good, encoded, long, write) (refused_write r j _)
      | inr fits ↦ rw (good, encoded, fits, write) (finished_write d n r j (d.write r.action.id))
    ]
  ]
]
