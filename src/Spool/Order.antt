-- ===== src/Spool/Order.antt =====
-- The orders of the two sorts of internal/spool/spool.go: that of `snapshot`, and that of the
-- eviction.
use seagull_agent.Prelude.{
  ltb_ℤ, leb_ℤ, eq_ℤ, ◌≡◌, Bool, true, false, ◌&&◌, ◌||◌, List, [], ◌∷◌, some, String, length, suc,
  refl, ap, sym, ◌∙◌, inl, inr, Bool-cases, arith, if◌then◌else◌, leb,
}
use seagull_agent.Spool.Drain.{
  Queued, queued_record, queued_records, delivered_before, drained_before, names, snapshot,
}
use seagull_agent.Spool.Files.{File}
use seagull_agent.Spool.Retention.{Candidate, by_priority, readable}
use seagull_agent.Spool.Sort.{sort, IsSortedBy, sort-IsSortedBy, length-sort}
use seagull_agent.Spool.State.{Disk, Spool}

-- A higher priority, or the same and no later a creation.
no_later : Queued → Queued → Bool
no_later a b =
    ltb_ℤ b.priority a.priority || (eq_ℤ a.priority b.priority && leb a.created_at b.created_at)

-- What cannot be read goes before what can; else `no_later`.
pub drains_first : Queued → Queued → Bool
drains_first a b = if a.valid then b.valid && no_later a b else b.valid || no_later a b

abbrev pub DrainsFirst : Queued → Queued → Type 0
DrainsFirst a b = drains_first a b ≡ true

no_later_trans : (a b c : Queued) → no_later a b ≡ true → no_later b c ≡ true → no_later a c ≡ true
unfolding no_later
no_later_trans a b c h k = ground arith

DrainsFirst-trans : (a b c : Queued) → DrainsFirst a b → DrainsFirst b c → DrainsFirst a c
unfolding drains_first
DrainsFirst-trans a b c h k = ground (arith, no_later_trans a b c)

of_drained_before : (a b : Queued) → drained_before a b ≡ true → DrainsFirst a b
unfolding drained_before delivered_before drains_first no_later
of_drained_before a b h = ground arith

of_not_drained_before : (a b : Queued) → drained_before a b ≡ false → DrainsFirst b a
unfolding drained_before delivered_before drains_first no_later
of_not_drained_before a b h = ground arith

length-queued_records : (d : Disk) (l : List File) → length (queued_records d l) ≡ length l
unfolding queued_records
length-queued_records d [] = refl
length-queued_records d (f ∷ l) = ap suc (length-queued_records d l)

-- Drain takes as many entries as there are files, what it cannot read first, then the highest
-- priority, and within a priority what was created first.
pub snapshot-IsSortedBy :
    (d : Disk) (s : Spool) (l : List String)
    → snapshot d s ≡ some l
    → (qs : List Queued) × (l ≡ names qs) × (length qs ≡ length s.files) × IsSortedBy DrainsFirst qs
unfolding snapshot queued_records queued_record readable
snapshot-IsSortedBy d s l h = elim (Bool-cases d.can_list) [
  | inr bad ↦ cc (rw (bad, snapshot) at h)
  | inl listing ↦
      let qs = sort drained_before (queued_records d s.files) in
      let taken : some (names qs) ≡ some l = rw (listing, snapshot) at h in
      let same : names qs ≡ l = cc in
      (
        qs,
        sym same,
        length-sort drained_before (queued_records d s.files) ∙ length-queued_records d s.files,
        sort-IsSortedBy DrainsFirst drained_before DrainsFirst-trans of_drained_before
            of_not_drained_before (queued_records d s.files),
      )
]

abbrev pub NoHigher : Candidate → Candidate → Type 0
NoHigher a b = leb_ℤ a.priority b.priority ≡ true

NoHigher-trans : (a b c : Candidate) → NoHigher a b → NoHigher b c → NoHigher a c
NoHigher-trans a b c h k = ground arith

of_by_priority : (a b : Candidate) → by_priority a b ≡ true → NoHigher a b
unfolding by_priority
of_by_priority a b h = ground arith

of_not_by_priority : (a b : Candidate) → by_priority a b ≡ false → NoHigher b a
unfolding by_priority
of_not_by_priority a b h = ground arith

pub by_priority-IsSortedBy : (cs : List Candidate) → IsSortedBy NoHigher (sort by_priority cs)
by_priority-IsSortedBy cs =
    sort-IsSortedBy NoHigher by_priority NoHigher-trans of_by_priority of_not_by_priority cs
