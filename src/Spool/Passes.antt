-- ===== src/Spool/Passes.antt =====
-- The two passes of `enforceRetentionLocked`, one at a time, and the entries in flight.
use seagull_agent.Prelude.{
  ℕ, ◌-◌, ◌≡◌, refl, ◌∙◌, true, false, some, inl, inr, List, [], ◌∷◌, arith, String, str_eq_iff,
  All, Bool-cases, Option-cases, All-imp,
}
use seagull_agent.Spool.Files.{
  File, find_file, member, find-without_file, find_file_present, name-find_file,
}
use seagull_agent.Spool.Retention.{
  Candidate, candidate, too_old, remove_counted, or_same, expire_pass, within_budget, evict_pass,
  readable,
}
use seagull_agent.Spool.Sort.{}
use seagull_agent.Spool.State.{Disk, Spool, Reason, expired, capacity, remove, record_removal}
use seagull_agent.Spool.Valid.{
  IsValid, removed, removed-IsValid, files-remove, has-remove, removed_keeps,
}

-- The sizes that were read still hold.
abbrev pub Names : List File → Candidate → Type 0
Names l c = (f : File) → find_file c.name l ≡ some f → f.size ≡ c.size

-- `t` is `s` after some removals, none of an entry in flight.
pub record Pruned (s t : Spool) : Type 0 where
  pub valid : IsValid t
  pub opts : t.opts ≡ s.opts
  pub inflight : t.inflight ≡ s.inflight
  pub from_before :
      (k : String) (f : File) → find_file k t.files ≡ some f → find_file k s.files ≡ some f
  pub held : (k : String) → member k s.inflight ≡ true → find_file k t.files ≡ find_file k s.files

pub Pruned-refl : (s : Spool) → IsValid s → Pruned s s
Pruned-refl s v = record {
  valid = v;
  opts = refl;
  inflight = refl;
  from_before = λ k f h. h;
  held = λ k h. refl;
}

pub Pruned-trans : (s t u : Spool) → Pruned s t → Pruned t u → Pruned s u
Pruned-trans s t u p q = record {
  valid = q.valid;
  opts = q.opts ∙ p.opts;
  inflight = q.inflight ∙ p.inflight;
  from_before = λ k f h. p.from_before k f (q.from_before k f h);
  held = λ k h. q.held k (rw p.inflight h) ∙ p.held k h;
}

-- A counted removal that succeeded is the removal of the file that has the name.
pub remove_counted-some :
    (d : Disk) (c : Candidate) (reason : Reason) (s t : Spool)
    → Names s.files c
    → remove_counted d c reason s ≡ some t
    → (f : File) × (f.name ≡ c.name)
      × (find_file f.name s.files ≡ some f)
      × (t ≡ removed f reason s)
unfolding remove_counted
remove_counted-some d c reason s t n h = elim (Option-cases (remove d c.name s)) [
  | inl stays ↦ cc (rw (stays, remove_counted) at h)
  | inr (u, gone) ↦
      let (f, found) = find_file_present c.name s.files (has-remove d c.name s u gone) in
      let same : f.name ≡ c.name = name-find_file c.name s.files f found in
      let e : some (record_removal c.size reason u) ≡ some t = rw (gone, remove_counted) at h in
      (f, same, rw same found, rw (same, n f found) (cc (files-remove d c.name s u gone)))
]

pub remove_counted-Pruned :
    (d : Disk) (c : Candidate) (reason : Reason) (s t : Spool)
    → IsValid s
    → Names s.files c
    → member c.name s.inflight ≡ false
    → remove_counted d c reason s ≡ some t
    → Pruned s t
remove_counted-Pruned d c reason s t v n idle h =
    let (f, same, found, e) = remove_counted-some d c reason s t n h in
    let (files, opts, inflight) = removed_keeps f reason s in
    rw e (record {
      valid = removed-IsValid f s v found reason;
      opts = opts;
      inflight = inflight;
      from_before = λ k g p. ground (arith, find-without_file k f.name s.files, rw files at p);
      held = λ k p.
          rw files (
            ground (arith, find-without_file k f.name s.files, str_eq_iff f.name k, same, idle, p));
    })

pub Names-Pruned :
    (s t : Spool) (cs : List Candidate)
    → Pruned s t
    → All (Names s.files) cs
    → All (Names t.files) cs
Names-Pruned s t cs p =
    All-imp (Names s.files) (Names t.files) cs (λ c n f h. n f (p.from_before c.name f h))

pub or_same-Pruned :
    (d : Disk) (c : Candidate) (reason : Reason) (s : Spool)
    → IsValid s
    → Names s.files c
    → member c.name s.inflight ≡ false
    → Pruned s (or_same (remove_counted d c reason s) s)
or_same-Pruned d c reason s v n idle = elim (Option-cases (remove_counted d c reason s)) [
  | inl stays ↦ rw stays (Pruned-refl s v)
  | inr (t, gone) ↦ rw gone (remove_counted-Pruned d c reason s t v n idle gone)
]

module _ (d : Disk) (now : ℕ) where
  pub expire_pass-Pruned :
      (cs : List Candidate) (s : Spool)
      → IsValid s
      → All (Names s.files) cs
      → Pruned s (expire_pass d now cs s).0
  unfolding expire_pass
  expire_pass-Pruned [] s v n = Pruned-refl s v
  expire_pass-Pruned (c ∷ cs) s v n = elim (Bool-cases (member c.name s.inflight)) [
    | inl busy ↦ rw busy (expire_pass-Pruned cs s v n.1)
    | inr idle ↦ elim (Bool-cases (too_old s.opts now c)) [
      | inr young ↦ rw (idle, young) (expire_pass-Pruned cs s v n.1)
      | inl old ↦
          let t = or_same (remove_counted d c expired s) s in
          let p : Pruned s t = or_same-Pruned d c expired s v n.0 idle in
          rw (idle, old)
            (Pruned-trans s t (expire_pass d now cs t).0 p
              (expire_pass-Pruned cs t p.valid (Names-Pruned s t cs p n.1)))
    ]
  ]

  -- What is kept is among the candidates.
  pub All-expire_pass {κ} :
      (P : Candidate → Type κ) (cs : List Candidate) (s : Spool)
      → All P cs
      → All P (expire_pass d now cs s).1
  unfolding expire_pass
  All-expire_pass P [] s h = tt
  All-expire_pass P (c ∷ cs) s h = elim (Bool-cases (member c.name s.inflight)) [
    | inl busy ↦ rw busy (h.0, All-expire_pass P cs s h.1)
    | inr idle ↦ elim (Bool-cases (too_old s.opts now c)) [
      | inr young ↦ rw (idle, young) (h.0, All-expire_pass P cs s h.1)
      | inl old ↦
          rw (idle, old) (All-expire_pass P cs (or_same (remove_counted d c expired s) s) h.1)
    ]
  ]

pub evict_pass-Pruned :
    (d : Disk) (cs : List Candidate) (remaining : ℕ) (s : Spool)
    → IsValid s
    → All (Names s.files) cs
    → Pruned s (evict_pass d cs remaining s).0
unfolding evict_pass
evict_pass-Pruned d [] remaining s v n = Pruned-refl s v
evict_pass-Pruned d (c ∷ cs) remaining s v n = elim (Bool-cases (within_budget remaining s)) [
  | inl fits ↦ rw fits (Pruned-refl s v)
  | inr over ↦ elim (Bool-cases (member c.name s.inflight)) [
    | inl busy ↦ rw (over, busy) (evict_pass-Pruned d cs remaining s v n.1)
    | inr idle ↦ elim (Option-cases (remove_counted d c capacity s)) [
      | inl stays ↦ rw (over, idle, stays, evict_pass) (evict_pass-Pruned d cs remaining s v n.1)
      | inr (t, gone) ↦
          let p : Pruned s t = remove_counted-Pruned d c capacity s t v n.0 idle gone in
          rw (over, idle, gone, evict_pass)
            (Pruned-trans s t (evict_pass d cs (remaining - 1) t).0 p
              (evict_pass-Pruned d cs (remaining - 1) t p.valid (Names-Pruned s t cs p n.1)))
    ]
  ]
]

-- A candidate was read off a file of the list.
abbrev pub Listed : List File → Candidate → Type 0
Listed l c = (f : File) × (find_file c.name l ≡ some f) × (f.size ≡ c.size)

pub Listed-Names : (l : List File) (c : Candidate) → Listed l c → Names l c
Listed-Names l c (f, found, size) g h =
    let e : some f ≡ some g = cc in let same : f ≡ g = cc in rw (← same) size

pub name-candidate : (d : Disk) (f : File) → (candidate d f).name ≡ f.name
unfolding candidate readable
name-candidate d f = ground arith

pub size-candidate : (d : Disk) (f : File) → (candidate d f).size ≡ f.size
unfolding candidate readable
size-candidate d f = ground arith
