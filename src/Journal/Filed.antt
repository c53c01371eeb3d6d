-- ===== src/Journal/Filed.antt =====
-- journal.go: the records that `records` gives, and the entries they stand for.
use seagull_agent.Prelude.{
  ℕ, suc, ◌+◌, ℤ, pos, eq_ℤ, eq_ℤ_iff, leb_ℤ, ◌≡◌, refl, ◌⊎◌, inl, inr, Bool, true, false, not,
  ◌&&◌, none, some, List, [], ◌∷◌, All, All-imp, Bool-cases,
}
use seagull_agent.Assoc.{has, find, IsMap}
use seagull_agent.Journal.Entries.{load_file, load_files, load, in_order, is_older}
use seagull_agent.Journal.Loaded.{load_file-eq-ok, absent}
use seagull_agent.Journal.Operations.{select, records}
use seagull_agent.Journal.Phases.{phase_of, phase_at, IsFiled}
use seagull_agent.Journal.State.{JournalRecord, Stored, Journal, Disk, JournalError, Phase}
use seagull_agent.Journal.Transitions.{Result-cases}
use seagull_agent.Protocol.Incompatibility.{positive}
use seagull_agent.Spool.Sort.{sort, All-sort}

-- The entry of a record, among some files.
abbrev StandsIn : List (ℤ × Stored) → JournalRecord → Type 0
StandsIn fs r = phase_of (find r.action.id fs) ≡ some r.phase

-- The entry of a record in a journal.
abbrev pub Stands : Journal → JournalRecord → Type 0
Stands j r = phase_at r.action.id j ≡ some r.phase

not_first :
    (id : ℤ) (f : Stored) (fs : List (ℤ × Stored)) (r : JournalRecord)
    → has id fs ≡ false
    → StandsIn fs r
    → StandsIn ((id, f) ∷ fs) r
unfolding find
not_first id f fs r single there = elim (Bool-cases (eq_ℤ id r.action.id)) [
  | inr other ↦ rw other there
  | inl same ↦
      let e : id ≡ r.action.id = (eq_ℤ_iff id r.action.id).0 same in
      let gone : find r.action.id fs ≡ none = absent r.action.id fs (rw e at single) in
      absurd (cc (rw gone at there))
]

first_stands :
    (id : ℤ) (f : Stored) (fs : List (ℤ × Stored)) (r : JournalRecord)
    → load_file id f ≡ inr r
    → StandsIn ((id, f) ∷ fs) r
unfolding find
first_stands id f fs r h =
    let (there, same_id) = load_file-eq-ok id f r h in
    rw (same_id, (eq_ℤ_iff id id).1 refl) (rw there refl)

load_files-StandsIn :
    (fs : List (ℤ × Stored)) (l : List JournalRecord) (bytes : ℕ)
    → IsMap fs
    → load_files fs ≡ inr (l, bytes)
    → All (StandsIn fs) l
unfolding load_files
load_files-StandsIn [] l bytes m h = (let nothing : [] ≡ l = cc in rw (← nothing) tt)
load_files-StandsIn ((id, f) ∷ fs) l bytes m h = elim (Result-cases (load_file id f)) [
  | inl (e, bad) ↦ absurd (cc (rw (load_files, bad) at h))
  | inr (r, good) ↦ elim (Result-cases (load_files fs)) [
    | inl (e, bad) ↦ absurd (cc (rw (load_files, good, bad) at h))
    | inr ((rest, n), loaded) ↦
        let whole : ◌≡◌ {A = JournalError ⊎ (List JournalRecord × ℕ)} (inr (r ∷ rest, f.size + n))
            (inr (l, bytes)) =
          rw (load_files, good, loaded) at h in
        let same : r ∷ rest ≡ l = cc in
        rw (← same) (
          first_stands id f fs r good,
          All-imp (StandsIn fs) (StandsIn ((id, f) ∷ fs)) rest (λ s. not_first id f fs s m.0)
              (load_files-StandsIn fs rest n m.1 loaded),
        )
  ]
]

in_order-All :
    (P : JournalRecord → Type 0) (loaded : JournalError ⊎ (List JournalRecord × ℕ))
    (l : List JournalRecord) (bytes : ℕ)
    → ((records : List JournalRecord) (n : ℕ) → loaded ≡ inr (records, n) → All P records)
    → in_order loaded ≡ inr (l, bytes)
    → All P l
in_order-All P (inl e) l bytes f h = absurd (cc h)
in_order-All P (inr (records, n)) l bytes f h =
    let same : sort is_older records ≡ l = cc in
    rw (← same) (All-sort P is_older records (f records n refl))

load-Stands :
    (d : Disk) (j : Journal) (l : List JournalRecord) (bytes : ℕ)
    → IsFiled j
    → load d j ≡ inr (l, bytes)
    → All (Stands j) l
unfolding load
load-Stands d j l bytes v h = elim (Bool-cases (not d.can_list)) [
  | inl bad ↦ absurd (cc (rw (load, bad) at h))
  | inr listing ↦ elim (Bool-cases j.stray) [
    | inl bad ↦ absurd (cc (rw (load, listing, bad) at h))
    | inr clean ↦
        in_order-All (Stands j) (load_files j.files) l bytes
          (λ records n e. load_files-StandsIn j.files records n v.one_each e)
          (rw (load, listing, clean) at h)
  ]
]

-- What `select` keeps, passes.
select-All :
    (P : JournalRecord → Type 0) (passes : Phase → Bool) (limit : ℤ) (found : ℕ)
    (l : List JournalRecord)
    → All P l
    → All (λ r. P r × (passes r.phase ≡ true)) (select passes limit found l)
unfolding select
select-All P passes limit found [] h = tt
select-All P passes limit found (r ∷ l) h =
    let more = select-All P passes limit (suc found) l h.1 in
    let others = select-All P passes limit found l h.1 in
    elim (Bool-cases (passes r.phase)) [
      | inr not_it ↦ rw (not_it, select) others
      | inl passing ↦ elim (Bool-cases (positive limit && leb_ℤ limit (pos (suc found)))) [
        | inl full ↦ rw (passing, full, select) ((h.0, passing), tt)
        | inr room ↦ rw (passing, room, select) ((h.0, passing), more)
      ]
    ]

-- The records that `records` gives stand in the journal with a phase that passes.
pub records-Stands :
    (passes : Phase → Bool) (d : Disk) (limit : ℤ) (j : Journal) (l : List JournalRecord)
    → IsFiled j
    → records passes d limit j ≡ inr l
    → All (λ r. Stands j r × (passes r.phase ≡ true)) l
unfolding records
records-Stands passes d limit j l v h = elim (Result-cases (load d j)) [
  | inl (e, bad) ↦ absurd (cc (rw (records, bad) at h))
  | inr ((all, bytes), loaded) ↦
      let there : inr (select passes limit 0 all) ≡ inr l = rw (records, loaded) at h in
      let same : select passes limit 0 all ≡ l = cc in
      rw (← same) (select-All (Stands j) passes limit 0 all (load-Stands d j all bytes v loaded))
]
