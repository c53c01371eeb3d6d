-- ===== src/Journal/Capacity.antt =====
-- `Begin` and the limits of the journal: the number of records, and the bytes with those that the
-- open records may still grow by.
use seagull_agent.Prelude.{
  ℕ, suc, ◌+◌, ◌≤◌, ◌<◌, ℤ, ◌≡◌, refl, ap, sym, ◌∙◌, ◌⊎◌, inl, inr, false, not, ◌||◌, Option, none,
  some, List, [], ◌∷◌, arith, Bool-cases, Option-cases, ltb, leb, length,
}
use seagull_agent.Assoc.{has, without_absent}
use seagull_agent.Journal.Entries.{
  load_file, load_files, load, in_order, is_older, reserved, ensure_capacity, stored, put, write,
}
use seagull_agent.Journal.Limits.{write-eq-ok}
use seagull_agent.Journal.Loaded.{load_file-eq-ok}
use seagull_agent.Journal.Operations.{begin_locked}
use seagull_agent.Journal.State.{
  JournalRecord, Stored, Journal, Disk, JournalError, max_journal_record_size,
  terminal_growth_reserve,
}
use seagull_agent.Journal.Transitions.{Result-cases, answer-eq-ok}
use seagull_agent.Spool.Sort.{insert, sort, length-sort}

reserved-insert :
    (r : JournalRecord) (l : List JournalRecord) → reserved (insert is_older r l) ≡ reserved (r ∷ l)
unfolding insert reserved
reserved-insert r [] = refl
reserved-insert r (s ∷ l) = elim (Bool-cases (is_older s r)) [
  | inl older ↦ rw older (omega (arith, reserved-insert r l))
  | inr not_older ↦ rw not_older
]

reserved-sort : (l : List JournalRecord) → reserved (sort is_older l) ≡ reserved l
unfolding sort reserved
reserved-sort [] = refl
reserved-sort (r ∷ l) = omega (arith, reserved-insert r (sort is_older l), reserved-sort l)

reserved_first :
    (r : JournalRecord) (l : List JournalRecord)
    → reserved (r ∷ l) ≤ terminal_growth_reserve + reserved l
unfolding reserved
reserved_first r l = ground arith

pair-eq :
    (w : Journal × Option JournalError) (j : Journal) (e : Option JournalError)
    → w.0 ≡ j
    → w.1 ≡ e
    → w ≡ (j, e)
pair-eq (i, f) j e h g = cc

abbrev Loads : Journal → List JournalRecord → ℕ → Type 0
Loads j l bytes =
    (files : List JournalRecord) × (load_files j.files ≡ inr (files, bytes))
    × (l ≡ sort is_older files)

load-eq-ok :
    (d : Disk) (j : Journal) (l : List JournalRecord) (bytes : ℕ)
    → load d j ≡ inr (l, bytes)
    → Loads j l bytes
unfolding load
load-eq-ok d j l bytes h = elim (Bool-cases (not d.can_list)) [
  | inl bad ↦ cc (rw (bad, load) at h)
  | inr listing ↦ elim (Bool-cases j.stray) [
    | inl bad ↦ cc (rw (listing, bad, load) at h)
    | inr clean ↦ sorted j l bytes (load_files j.files) refl (rw (listing, clean, load) at h)
  ]
]
  where
    sorted :
        (j : Journal) (l : List JournalRecord) (bytes : ℕ)
        → (loaded : JournalError ⊎ (List JournalRecord × ℕ)) → load_files j.files ≡ loaded
        → in_order loaded ≡ inr (l, bytes)
        → Loads j l bytes
    sorted j l bytes (inl e) g h = cc
    sorted j l bytes (inr (files, n)) g h =
        let same : sort is_older files ≡ l = cc in
        let count : n ≡ bytes = cc in (files, rw (← count) g, sym same)

first_loaded :
    (n : ℕ) (r : JournalRecord) (fs : List (ℤ × Stored)) (files : List JournalRecord) (bytes : ℕ)
    → load_files ((r.action.id, stored n r) ∷ fs) ≡ inr (files, bytes)
    → (rest : List JournalRecord) × ((before : ℕ) × (load_files fs ≡ inr (rest, before))
        × (files ≡ r ∷ rest)
        × (bytes ≡ suc n + before))
unfolding load_files
first_loaded n r fs files bytes h = elim (Result-cases (load_file r.action.id (stored n r))) [
  | inl (e, bad) ↦ cc (rw (load_files, bad) at h)
  | inr (s, good) ↦ elim (Result-cases (load_files fs)) [
    | inl (e, bad) ↦ cc (rw (load_files, good, bad) at h)
    | inr ((rest, before), others) ↦
        let held : some r ≡ some s = (load_file-eq-ok r.action.id (stored n r) s good).0 in
        let got : JournalError ⊎ (List JournalRecord × ℕ) = inr (s ∷ rest, suc n + before) in
        let whole : got ≡ inr (files, bytes) = rw (load_files, good, others) at h in
        let same : r ≡ s = cc in
        let all : s ∷ rest ≡ files = cc in
        let count : suc n + before ≡ bytes = cc in
        (rest, (before, others, rw same (sym all), sym count))
  ]
]

-- What ensureCapacityLocked promises.
Room : Disk → JournalRecord → Journal → Type 0
Room d r j =
    (l : List JournalRecord) × ((bytes : ℕ) × ((n : ℕ) × (load d j ≡ inr (l, bytes))
        × (d.marshal r ≡ some n)
        × (length l < j.max_records)
        × (bytes + reserved l + n + terminal_growth_reserve ≤ j.max_bytes)))

ensure_capacity-Room :
    (d : Disk) (r : JournalRecord) (j : Journal) → ensure_capacity d r j ≡ none → Room d r j
unfolding Room ensure_capacity
ensure_capacity-Room d r j h = elim (Result-cases (load d j)) [
  | inl (e, bad) ↦ cc (rw (bad, ensure_capacity) at h)
  | inr ((l, bytes), loaded) ↦ elim (Bool-cases (leb j.max_records (length l))) [
    | inl full ↦ cc (rw (loaded, ensure_capacity, full) at h)
    | inr free ↦ elim (Option-cases (d.marshal r)) [
      | inl opaque ↦ cc (rw (loaded, ensure_capacity, free, opaque) at h)
      | inr (n, encoded) ↦
          elim (Bool-cases (
            ltb max_journal_record_size n
            || ltb j.max_bytes (bytes + reserved l + n + terminal_growth_reserve))) [
              | inl large ↦ cc (rw (loaded, ensure_capacity, free, encoded, large) at h)
              | inr fits ↦ (l, (bytes, (n, loaded, encoded, ground arith, ground arith)))
            ]
    ]
  ]
]

within :
    (d e : Disk) (r : JournalRecord) (j j' : Journal) (l : List JournalRecord) (bytes : ℕ)
    → has r.action.id j.files ≡ false
    → Room d r j
    → write d r j ≡ (j', none)
    → load e j' ≡ inr (l, bytes)
    → (length l ≤ j.max_records) × (bytes + reserved l ≤ suc j.max_bytes)
unfolding Room
within d e r j j' l bytes free (l0, (b0, (n, loaded, encoded, few, small))) wrote again =
    let now_there : j' ≡ put r.action.id (stored n r) j = write-eq-ok d r n j j' encoded wrote in
    let (files, listing, sorted) = load-eq-ok e j' l bytes again in
    let (files0, listing0, sorted0) = load-eq-ok d j l0 b0 loaded in
    let there : j'.files ≡ (r.action.id, stored n r) ∷ j.files =
      ap (λ i. i.files) now_there
      ∙ ap (λ l. (r.action.id, stored n r) ∷ l) (without_absent r.action.id j.files free) in
    let (rest, (before, others, whole, count)) =
      first_loaded n r j.files files bytes (ap load_files (sym there) ∙ listing) in
    let at_once : JournalError ⊎ (List JournalRecord × ℕ) = inr (rest, before) in
    let agree : at_once ≡ inr (files0, b0) = sym others ∙ listing0 in
    let one : rest ≡ files0 = cc in
    let two : before ≡ b0 = cc in
    let len0 : length l0 ≡ length rest =
      ap length sorted0 ∙ length-sort is_older files0 ∙ ap length (sym one) in
    let len : length l ≡ suc (length rest) =
      ap length sorted ∙ length-sort is_older files ∙ ap length whole in
    let res0 : reserved l0 ≡ reserved rest =
      ap reserved sorted0 ∙ reserved-sort files0 ∙ ap reserved (sym one) in
    let res : reserved l ≡ reserved (r ∷ rest) =
      ap reserved sorted ∙ reserved-sort files ∙ ap reserved whole in
    (
      omega (arith, len0, len, few),
      omega (arith, res0, res, reserved_first r rest, small, count, two),
    )

-- After a Begin that succeeds, the journal holds at most as many records as it may, and its bytes,
-- with the growth reserved for every open record, are at most one (the newline) over its limit.
pub begin_locked-within_limits :
    (d e : Disk) (r s : JournalRecord) (j j' : Journal) (l : List JournalRecord) (bytes : ℕ)
    → begin_locked d r j ≡ (j', inr s)
    → load e j' ≡ inr (l, bytes)
    → (length l ≤ j.max_records) × (bytes + reserved l ≤ suc j.max_bytes)
unfolding begin_locked
begin_locked-within_limits d e r s j j' l bytes h again = elim (Bool-cases (not d.can_inspect)) [
  | inl bad ↦ absurd (cc (ap (λ x. x.1) (rw (begin_locked, bad) at h)))
  | inr seen ↦ elim (Bool-cases (has r.action.id j.files)) [
    | inl there ↦ absurd (cc (ap (λ x. x.1) (rw (begin_locked, seen, there) at h)))
    | inr free ↦ elim (Option-cases (ensure_capacity d r j)) [
      | inr (err, full) ↦ absurd (cc (ap (λ x. x.1) (rw (begin_locked, seen, free, full) at h)))
      | inl room ↦
          let (same, good) =
            answer-eq-ok r s (write d r j) j' (rw (begin_locked, seen, free, room) at h) in
          within d e r j j' l bytes free (ensure_capacity-Room d r j room)
            (pair-eq (write d r j) j' none same good) again
    ]
  ]
]
