-- ===== src/Journal/Loaded.antt =====
-- `loadLocked` of journal.go and the executing records.
use seagull_agent.Prelude.{
  ℕ, ◌+◌, ℤ, eq_ℤ, eq_ℤ_iff, ◌≡◌, refl, ap, ◌∙◌, ◌⊎◌, inl, inr, Bool, true, false, not, ◌&&◌, ◌||◌,
  Option, none, some, List, [], ◌∷◌, arith, if◌then◌else◌, Bool-cases, Option-cases, ltb, ◌==◌,
}
use seagull_agent.Assoc.{has, find, IsMap}
use seagull_agent.Journal.Entries.{read_file, load_file, load_files, load, in_order, is_older}
use seagull_agent.Journal.Operations.{}
use seagull_agent.Journal.Phases.{phase_of, phase_at}
use seagull_agent.Journal.State.{
  JournalRecord, Stored, Journal, Disk, JournalError, misnamed, Phase, is_executing,
  max_journal_record_size, validate_journal_record,
}
use seagull_agent.Spool.Sort.{insert, sort}

-- The list has an executing record of the id.
unfoldable pub listed : ℤ → List JournalRecord → Bool
listed k [] = false
listed k (r ∷ l) = (is_executing r.phase && eq_ℤ r.action.id k) || listed k l

listed-insert :
    (k : ℤ) (r : JournalRecord) (l : List JournalRecord)
    → listed k (insert is_older r l) ≡ listed k (r ∷ l)
unfolding insert listed
listed-insert k r [] = refl
listed-insert k r (s ∷ l) = elim (Bool-cases (is_older s r)) [
  | inl older ↦ rw older (ground (arith, listed-insert k r l))
  | inr not_older ↦ rw not_older
]

listed-sort : (k : ℤ) (l : List JournalRecord) → listed k (sort is_older l) ≡ listed k l
unfolding sort listed
listed-sort k [] = refl
listed-sort k (r ∷ l) =
    listed-insert k r (sort is_older l)
    ∙ ap (λ b. (is_executing r.phase && eq_ℤ r.action.id k) || b) (listed-sort k l)

-- Whether the file holds an executing record.
abbrev pub is_running : Option Phase → Bool
is_running none = false
is_running (some p) = is_executing p

pub read_file-content : (f : Stored) (r : JournalRecord) → read_file f ≡ inr r → f.content ≡ some r
unfolding read_file
read_file-content f r h = elim (Option-cases f.content) [
  | inl nothing ↦ cc (rw (nothing, read_file) at h)
  | inr (s, there) ↦ elim (Option-cases (validate_journal_record s)) [
    | inl good ↦ cc (there, rw (there, read_file, good) at h)
    | inr (e, bad) ↦ cc (rw (there, read_file, bad) at h)
  ]
]

pub load_file-eq-ok :
    (id : ℤ) (f : Stored) (r : JournalRecord)
    → load_file id f ≡ inr r
    → (f.content ≡ some r) × (r.action.id ≡ id)
unfolding load_file
load_file-eq-ok id f r h = elim (Bool-cases (f.size == 0 || ltb max_journal_record_size f.size)) [
  | inl bad ↦ cc (rw (bad, load_file) at h)
  | inr sized ↦ opened id f r (read_file f) refl (rw (sized, load_file) at h)
]
  where
    opened :
        (id : ℤ) (f : Stored) (r : JournalRecord) (read : JournalError ⊎ JournalRecord)
        → read_file f ≡ read
        → (elim read as (λ x. JournalError ⊎ JournalRecord) [
          | inl e ↦ inl e
          | inr s ↦ if eq_ℤ s.action.id id then inr s else inl misnamed
        ])
          ≡ inr r
        → (f.content ≡ some r) × (r.action.id ≡ id)
    opened id f r (inl e) known h = cc
    opened id f r (inr s) known h = elim (Bool-cases (eq_ℤ s.action.id id)) [
      | inr other ↦ cc (rw other at h)
      | inl same ↦
          let found : inr s ≡ inr r = rw same at h in
          let one : s ≡ r = cc in
          rw (← one) (read_file-content f s known, (eq_ℤ_iff s.action.id id).0 same)
    ]

pub absent : (k : ℤ) (l : List (ℤ × Stored)) → has k l ≡ false → find k l ≡ none
unfolding has find
absent k [] h = refl
absent k ((i, f) ∷ l) h = ground (arith, absent k l)

alone : (b : Bool) → (b && true || false) ≡ b
alone true = refl
alone false = refl

skipped : (b c : Bool) → (b && false || c) ≡ c
skipped true c = refl
skipped false c = refl

listed-first :
    (k id : ℤ) (f : Stored) (r : JournalRecord) (fs : List (ℤ × Stored)) (l : List JournalRecord)
    → f.content ≡ some r
    → r.action.id ≡ id
    → has id fs ≡ false
    → listed k l ≡ is_running (phase_of (find k fs))
    → listed k (r ∷ l) ≡ is_running (phase_of (find k ((id, f) ∷ fs)))
unfolding listed find
listed-first k id f r fs l there same_id single rest = elim (Bool-cases (eq_ℤ id k)) [
  | inr other ↦ rw (same_id, other) (skipped (is_executing r.phase) (listed k l) ∙ rest)
  | inl same ↦
      let e : id ≡ k = (eq_ℤ_iff id k).0 same in
      let empty : find k fs ≡ none = absent k fs (rw (← e) single) in
      let none_left : listed k l ≡ false = rw empty at rest in
      rw (same_id, same, there, none_left) (alone (is_executing r.phase))
]

load_files-listed :
    (k : ℤ) (fs : List (ℤ × Stored)) (l : List JournalRecord) (bytes : ℕ)
    → IsMap fs
    → load_files fs ≡ inr (l, bytes)
    → listed k l ≡ is_running (phase_of (find k fs))
unfolding load_files
load_files-listed k [] l bytes m h =
    let nothing : [] ≡ l = cc in rw (← nothing) (unfold listed in unfold find in refl)
load_files-listed k ((id, f) ∷ fs) l bytes m h =
    loaded k id f fs l bytes m (load_file id f) refl (load_files fs)
      (λ records n g. load_files-listed k fs records n (m.1) g) refl h
  where
    loaded :
        (k id : ℤ) (f : Stored) (fs : List (ℤ × Stored)) (l : List JournalRecord) (bytes : ℕ)
        → IsMap ((id, f) ∷ fs)
        → (first : JournalError ⊎ JournalRecord) → load_file id f ≡ first
        → (others : JournalError ⊎ (List JournalRecord × ℕ))
        → ((records : List JournalRecord) (n : ℕ)
            → load_files fs ≡ inr (records, n)
            → listed k records ≡ is_running (phase_of (find k fs)))
        → load_files fs ≡ others
        → (elim first as (λ x. JournalError ⊎ (List JournalRecord × ℕ)) [
          | inl e ↦ inl e
          | inr r ↦ elim others as (λ x. JournalError ⊎ (List JournalRecord × ℕ)) [
            | inl e ↦ inl e
            | inr (records, n) ↦ inr (r ∷ records, f.size + n)
          ]
        ])
          ≡ inr (l, bytes)
        → listed k l ≡ is_running (phase_of (find k ((id, f) ∷ fs)))
    loaded k id f fs l bytes m (inl e) h others rest g q = cc
    loaded k id f fs l bytes m (inr r) h (inl e) rest g q = cc
    loaded k id f fs l bytes m (inr r) h (inr (records, n)) rest g q =
        let (there, same_id) = load_file-eq-ok id f r h in
        let whole : r ∷ records ≡ l = cc in
        rw (← whole) (listed-first k id f r fs records there same_id (m.0) (rest records n g))

pub load-listed :
    (d : Disk) (k : ℤ) (j : Journal) (l : List JournalRecord) (bytes : ℕ)
    → IsMap j.files
    → load d j ≡ inr (l, bytes)
    → listed k l ≡ is_running (phase_at k j)
unfolding load
load-listed d k j l bytes m h = elim (Bool-cases (not d.can_list)) [
  | inl bad ↦ cc (rw (bad, load) at h)
  | inr listing ↦ elim (Bool-cases j.stray) [
    | inl bad ↦ cc (rw (listing, bad, load) at h)
    | inr clean ↦ sorted k j l bytes m (load_files j.files) refl (rw (listing, clean, load) at h)
  ]
]
  where
    sorted :
        (k : ℤ) (j : Journal) (l : List JournalRecord) (bytes : ℕ)
        → IsMap j.files
        → (loaded : JournalError ⊎ (List JournalRecord × ℕ)) → load_files j.files ≡ loaded
        → in_order loaded ≡ inr (l, bytes)
        → listed k l ≡ is_running (phase_at k j)
    sorted k j l bytes m (inl e) g h = cc
    sorted k j l bytes m (inr (records, n)) g h =
        let same : sort is_older records ≡ l = cc in
        rw (← same) (listed-sort k records ∙ load_files-listed k j.files records n m g)
