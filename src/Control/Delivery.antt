-- ===== src/Control/Delivery.antt =====
-- journal.go: the write of an entry and `MarkExecuting` where the disk works and the record fits.
use seagull_agent.Prelude.{
  ℕ, ℤ, eq_ℤ, eq_ℤ_iff, ◌≡◌, refl, ◌⊎◌, inl, inr, Bool, true, false, ◌||◌, none, some, ltb, ◌==◌,
  Bool-cases, Option-cases, arith,
}
use seagull_agent.Assoc.{find}
use seagull_agent.Journal.Entries.{read, read_file, write, put, stored}
use seagull_agent.Journal.Loaded.{}
use seagull_agent.Journal.Operations.{mark_executing}
use seagull_agent.Journal.Phases.{IsFiled}
use seagull_agent.Journal.State.{
  JournalRecord, Stored, Journal, Disk, JournalError, written, accepted, executing, is_accepted,
  validate_journal_record, validate_phase, journal_version, max_journal_record_size,
}
use seagull_agent.Journal.Transitions.{Result-cases, read-eq-ok}
use seagull_agent.Protocol.Action.{ResponseAction, normalize}

-- A disk on which every write, removal and sync succeeds.
pub record IsSound (d : Disk) : Type 0 where
  pub writes : (id : ℤ) → d.write id ≡ written
  pub removes : d.can_remove ≡ true
  pub syncs : d.can_sync ≡ true

-- The encoding of the record is at most as large as a record may be.
abbrev pub Fits : Disk → JournalRecord → Type 0
Fits d r = (n : ℕ) × (d.marshal r ≡ some n) × (ltb max_journal_record_size n ≡ false)

-- The journal after the write of a record.
pub record StoredAs (d : Disk) (r : JournalRecord) (j j' : Journal) : Type 0 where
  pub wrote : write d r j ≡ (j', none)
  pub reads : read r.action.id j' ≡ inr r

find-put : (id : ℤ) (f : Stored) (j : Journal) → find id (put id f j).files ≡ some f
unfolding find
find-put id f j = rw ((eq_ℤ_iff id id).1 refl) refl

read-put :
    (n : ℕ) (r : JournalRecord) (j : Journal)
    → validate_journal_record r ≡ none
    → read r.action.id (put r.action.id (stored n r) j) ≡ inr r
unfolding read read_file
read-put n r j good = rw (find-put r.action.id (stored n r) j, good, read, read_file) refl

pub write_sound :
    (d : Disk) (r : JournalRecord) (j : Journal)
    → IsSound d
    → Fits d r
    → validate_journal_record r ≡ none
    → (j' : Journal) × StoredAs d r j j'
unfolding write
write_sound d r j h (n, encoded, fits) good = (
  put r.action.id (stored n r) j,
  record {
    wrote = rw (good, encoded, fits, h.writes r.action.id, write) refl;
    reads = read-put n r j good;
  },
)

-- The tests of a record up to its phase.
pub record IsChecked (r : JournalRecord) : Type 0 where
  pub version_fits : eq_ℤ r.version journal_version ≡ true
  pub cleaned : ResponseAction
  pub valid : normalize r.action ≡ inr cleaned
  pub stamped : (r.started_at == 0) ≡ false

neither : (a b : Bool) → (a || b) ≡ false → a ≡ false
neither a b h = ground arith

pub validate-parts :
    (r : JournalRecord)
    → validate_journal_record r ≡ none
    → IsChecked r × (validate_phase r.phase r.action.id r.result ≡ none)
unfolding validate_journal_record
validate-parts r good = elim (Bool-cases (eq_ℤ r.version journal_version)) [
  | inr other ↦ absurd (cc (rw (validate_journal_record, other) at good))
  | inl fits ↦ elim (Result-cases (normalize r.action)) [
    | inl (e, bad) ↦ absurd (cc (rw (validate_journal_record, fits, bad) at good))
    | inr (a, valid) ↦ elim (Bool-cases (r.started_at == 0 || r.updated_at == 0)) [
      | inl unstamped ↦ absurd (cc (rw (validate_journal_record, fits, valid, unstamped) at good))
      | inr stamped ↦ (
        record {
          version_fits = fits;
          cleaned = a;
          valid = valid;
          stamped = neither (r.started_at == 0) (r.updated_at == 0) stamped;
        },
        rw (validate_journal_record, fits, valid, stamped) at good,
      )
    ]
  ]
]

pub validate-whole :
    (r : JournalRecord)
    → IsChecked r
    → (r.updated_at == 0) ≡ false
    → validate_phase r.phase r.action.id r.result ≡ none
    → validate_journal_record r ≡ none
unfolding validate_journal_record
validate-whole r h updated phase =
    rw (h.version_fits, h.valid, h.stamped, updated, phase, validate_journal_record) refl

abbrev pub marked : ℕ → JournalRecord → JournalRecord
marked now r = record r { phase = executing; updated_at = now }

validate-marked :
    (r : JournalRecord) (now : ℕ)
    → validate_journal_record r ≡ none
    → r.phase ≡ accepted
    → (now == 0) ≡ false
    → validate_journal_record (marked now r) ≡ none
validate-marked r now good waiting ticking =
    let (checked, phase) = validate-parts r good in
    validate-whole (marked now r)
      (record {
        version_fits = checked.version_fits;
        cleaned = checked.cleaned;
        valid = checked.valid;
        stamped = checked.stamped;
      })
      ticking (rw waiting at phase)

read_file-valid :
    (f : Stored) (r : JournalRecord) → read_file f ≡ inr r → validate_journal_record r ≡ none
unfolding read_file
read_file-valid f r h = elim (Option-cases f.content) [
  | inl nothing ↦ absurd (cc (rw (nothing, read_file) at h))
  | inr (s, there) ↦ elim (Option-cases (validate_journal_record s)) [
    | inr (e, bad) ↦ absurd (cc (rw (there, read_file, bad) at h))
    | inl good ↦
        let found : ◌≡◌ {A = JournalError ⊎ JournalRecord} (inr s) (inr r) =
          rw (there, read_file, good) at h in
        let same : s ≡ r = cc found in rw same at good
  ]
]

pub read-valid :
    (id : ℤ) (j : Journal) (r : JournalRecord)
    → read id j ≡ inr r
    → validate_journal_record r ≡ none
unfolding read
read-valid id j r h = elim (Option-cases (find id j.files)) [
  | inl nothing ↦ absurd (cc (rw (nothing, read) at h))
  | inr (f, there) ↦ read_file-valid f r (rw (there, read) at h)
]

-- The answer of an operation that has written a record under its id.
pub record Answered (id : ℤ) (r : JournalRecord) (w : Journal × (JournalError ⊎ JournalRecord))
    : Type 0 where
  pub answered : w.1 ≡ inr r
  pub stands : read id w.0 ≡ inr r

pub read_at :
    (i id : ℤ) (j : Journal) (r : JournalRecord) → i ≡ id → read i j ≡ inr r → read id j ≡ inr r
read_at i id j r e h = rw e at h

pub mark_sound :
    (d : Disk) (now : ℕ) (id : ℤ) (j : Journal) (r : JournalRecord)
    → IsSound d
    → Fits d (marked now r)
    → (now == 0) ≡ false
    → IsFiled j
    → read id j ≡ inr r
    → r.phase ≡ accepted
    → Answered id (marked now r) (mark_executing d now id j)
unfolding mark_executing
mark_sound d now id j r sound fits ticking v found waiting =
    let same_id = (read-eq-ok id j r v found).1 in
    let good = validate-marked r now (read-valid id j r found) waiting ticking in
    let (j', done) = write_sound d (marked now r) j sound fits good in
    let is_waiting : is_accepted r.phase ≡ true = rw waiting refl in
    let whole : mark_executing d now id j ≡ (j', inr (marked now r)) =
      rw (found, is_waiting, mark_executing, done.wrote) refl in
    rw whole (record {
      answered = refl;
      stands = read_at r.action.id id j' (marked now r) same_id done.reads;
    })
