-- ===== src/Journal/Limits.antt =====
-- The limits of the journal: `ensureCapacityLocked` and the size of a record.
use seagull_agent.Prelude.{
  ℕ, ◌<◌, ℤ, ◌≡◌, refl, ap, sym, ◌⊎◌, inl, inr, Bool, true, false, not, ◌||◌, none, some, List,
  arith, Bool-cases, Option-cases, ltb, ◌==◌,
}
use seagull_agent.Assoc.{}
use seagull_agent.Journal.Entries.{load_file, load_files, load, stored, put, finish_write, write}
use seagull_agent.Journal.State.{
  JournalRecord, Stored, Journal, Disk, Writing, written, failed, unsynced, JournalError,
  max_journal_record_size, validate_journal_record,
}
use seagull_agent.Spool.Sort.{}

-- A write that succeeds has put the record under its id, in a file with one byte more than the
-- encoded record.
pub write-eq-ok :
    (d : Disk) (r : JournalRecord) (n : ℕ) (j j' : Journal)
    → d.marshal r ≡ some n
    → write d r j ≡ (j', none)
    → j' ≡ put r.action.id (stored n r) j
unfolding write
write-eq-ok d r n j j' encoded h = elim (Option-cases (validate_journal_record r)) [
  | inr (e, bad) ↦ absurd (cc (ap (λ x. x.1) (rw (bad, write) at h)))
  | inl good ↦ elim (Bool-cases (ltb max_journal_record_size n)) [
    | inl long ↦ absurd (cc (ap (λ x. x.1) (rw (good, encoded, long, write) at h)))
    | inr fits ↦ finished d n r j j' (d.write r.action.id) (rw (good, encoded, fits, write) at h)
  ]
]
  where
    finished :
        (d : Disk) (n : ℕ) (r : JournalRecord) (j j' : Journal) (o : Writing)
        → finish_write d n r j o ≡ (j', none)
        → j' ≡ put r.action.id (stored n r) j
    finished d n r j j' written h = sym (ap (λ x. x.0) h)
    finished d n r j j' unsynced h = absurd (cc (ap (λ x. x.1) h))
    finished d n r j j' failed h = absurd (cc (ap (λ x. x.1) h))

abbrev pub is_loaded : JournalError ⊎ (List JournalRecord × ℕ) → Bool
is_loaded (inl e) = false
is_loaded (inr x) = true

load_too_large :
    (e : Disk) (id : ℤ) (f : Stored) (j : Journal)
    → max_journal_record_size < f.size
    → is_loaded (load e (put id f j)) ≡ false
unfolding load load_files load_file
load_too_large e id f j big =
    let refused : (f.size == 0 || ltb max_journal_record_size f.size) ≡ true = ground arith in
    elim (Bool-cases (not e.can_list)) [
      | inl bad ↦ rw (bad, load)
      | inr listing ↦ elim (Bool-cases j.stray) [
        | inl stray ↦ rw (listing, stray, load)
        | inr clean ↦ rw (listing, clean, load, load_files, load_file, refused)
      ]
    ]

write-at_limit :
    (d : Disk) (r : JournalRecord) (j : Journal)
    → validate_journal_record r ≡ none
    → d.marshal r ≡ some max_journal_record_size
    → d.write r.action.id ≡ written
    → write d r j ≡ (put r.action.id (stored max_journal_record_size r) j, none)
unfolding write
write-at_limit d r j good encoded works = rw (good, encoded, works, write) refl

-- The write of a valid record whose encoding has exactly the maximal size succeeds where the disk
-- writes the file, but the newline makes the file too large for loadLocked: from then on the journal
-- cannot be loaded, whatever the disk answers.
pub write_largest :
    (d e : Disk) (r : JournalRecord) (j : Journal)
    → validate_journal_record r ≡ none
    → d.marshal r ≡ some max_journal_record_size
    → d.write r.action.id ≡ written
    → let w = write d r j in (w.1 ≡ none) × (is_loaded (load e w.0) ≡ false)
write_largest d e r j good encoded works =
    let whole = write-at_limit d r j good encoded works in
    (
      ap (λ x. x.1) whole,
      rw whole (load_too_large e r.action.id (stored max_journal_record_size r) j (omega arith)),
    )
