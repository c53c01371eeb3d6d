-- ===== src/Journal/Entries.antt =====
-- journal.go: `readPathLocked`, `loadLocked`, `ensureCapacityLocked` and `writeLocked`.
use seagull_agent.Prelude.{
  ℕ, suc, ◌+◌, ℤ, eq_ℤ, ltb_ℤ, Bool, not, ◌||◌, Option, none, some, List, [], ◌∷◌, ltb, leb, ◌==◌,
  ◌⊎◌, inl, inr, if◌then◌else◌, length,
}
use seagull_agent.Assoc.{find, without}
use seagull_agent.Journal.State.{
  JournalRecord, Stored, Journal, Disk, Writing, written, failed, unsynced, JournalError,
  capacity_exceeded, unreadable_directory, unexpected_entry, not_encoded, too_large, not_written,
  not_synced, missing, bad_size, undecodable, misnamed, is_terminal, max_journal_record_size,
  terminal_growth_reserve, validate_journal_record,
}
use seagull_agent.Spool.Sort.{sort}

-- `readPathLocked`, for a file that can be opened.
unfoldable pub read_file : Stored → JournalError ⊎ JournalRecord
read_file f = elim f.content [
  | none ↦ inl undecodable
  | some r ↦ elim (validate_journal_record r) [ none ↦ inr r | some e ↦ inl e ]
]

unfoldable pub read : ℤ → Journal → JournalError ⊎ JournalRecord
read id j = elim (find id j.files) [ none ↦ inl missing | some f ↦ read_file f ]

-- One round of the loop of `loadLocked`.
unfoldable pub load_file : ℤ → Stored → JournalError ⊎ JournalRecord
load_file id f =
    if f.size == 0 || ltb max_journal_record_size f.size then inl bad_size else elim (read_file f) [
      | inl e ↦ inl e
      | inr r ↦ if eq_ℤ r.action.id id then inr r else inl misnamed
    ]

unfoldable pub load_files : List (ℤ × Stored) → JournalError ⊎ (List JournalRecord × ℕ)
load_files [] = inr ([], 0)
load_files ((id, f) ∷ l) = elim (load_file id f) [
  | inl e ↦ inl e
  | inr r ↦ elim (load_files l) [
    | inl e ↦ inl e
    | inr (records, bytes) ↦ inr (r ∷ records, f.size + bytes)
  ]
]

abbrev pub is_older : JournalRecord → JournalRecord → Bool
is_older a b =
    if a.started_at == b.started_at
    then ltb_ℤ a.action.id b.action.id
    else ltb a.started_at b.started_at

abbrev pub in_order :
    JournalError ⊎ (List JournalRecord × ℕ) → JournalError ⊎ (List JournalRecord × ℕ)
in_order (inl e) = inl e
in_order (inr (records, bytes)) = inr (sort is_older records, bytes)

unfoldable pub load : Disk → Journal → JournalError ⊎ (List JournalRecord × ℕ)
load d j =
    if not d.can_list
    then inl unreadable_directory
    else if j.stray
    then inl unexpected_entry
    else in_order (load_files j.files)

-- The bytes that the entries may still grow by.
unfoldable pub reserved : List JournalRecord → ℕ
reserved [] = 0
reserved (r ∷ l) = (if is_terminal r.phase then 0 else terminal_growth_reserve) + reserved l

abbrev pub check_capacity :
    Disk → Journal → JournalRecord → List JournalRecord × ℕ → Option JournalError
check_capacity d j r (records, bytes) =
    if leb j.max_records (length records) then some capacity_exceeded else elim (d.marshal r) [
      | none ↦ some not_encoded
      | some n ↦
          if ltb max_journal_record_size n
            || ltb j.max_bytes (bytes + reserved records + n + terminal_growth_reserve)
          then some capacity_exceeded
          else none
    ]

unfoldable pub ensure_capacity : Disk → JournalRecord → Journal → Option JournalError
ensure_capacity d r j = elim (load d j) [
  | inl e ↦ some e
  | inr loaded ↦ check_capacity d j r loaded
]

-- The file of a record that is encoded in `n` bytes, with the newline after it.
abbrev pub stored : ℕ → JournalRecord → Stored
stored n r = record { size = suc n; content = some r }

abbrev pub put : ℤ → Stored → Journal → Journal
put id f j = record j { files = (id, f) ∷ without id j.files }

abbrev pub finish_write :
    Disk → ℕ → JournalRecord → Journal → Writing → Journal × Option JournalError
finish_write d n r j written = (put r.action.id (stored n r) j, none)
finish_write d n r j unsynced = (put r.action.id (stored n r) j, some not_synced)
finish_write d n r j failed = (j, some not_written)

unfoldable pub write : Disk → JournalRecord → Journal → Journal × Option JournalError
write d r j = elim (validate_journal_record r) [
  | some e ↦ (j, some e)
  | none ↦ elim (d.marshal r) [
    | none ↦ (j, some not_encoded)
    | some n ↦
        if ltb max_journal_record_size n
        then (j, some too_large)
        else finish_write d n r j (d.write r.action.id)
  ]
]
