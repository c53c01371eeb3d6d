-- ===== src/Spool/Retain.antt =====
-- `enforceRetentionLocked` of internal/spool/spool.go as a whole.
use seagull_agent.Prelude.{
  ℕ, ◌≡◌, sym, false, inl, inr, List, [], ◌∷◌, arith, length, str_eq_iff, All, All-imp, Bool-cases,
}
use seagull_agent.Spool.Files.{File, has_file, find_file, Distinct, has-find_file}
use seagull_agent.Spool.Passes.{
  Names, Pruned, Pruned-refl, Pruned-trans, expire_pass-Pruned, All-expire_pass, evict_pass-Pruned,
  Listed, Listed-Names, name-candidate, size-candidate, Names-Pruned,
}
use seagull_agent.Spool.Retention.{
  Candidate, candidates, by_name, by_priority, expire_pass, evict_pass, retain, enforce_retention,
}
use seagull_agent.Spool.Sort.{sort, All-sort}
use seagull_agent.Spool.State.{Disk, Spool, clamp}
use seagull_agent.Spool.Valid.{IsValid}

Listed-there :
    (f : File) (l : List File) (c : Candidate)
    → has_file f.name l ≡ false
    → Listed l c
    → Listed (f ∷ l) c
unfolding find_file
Listed-there f l c h (g, found, size) =
    (g, ground (arith, has-find_file c.name l g found, str_eq_iff f.name c.name), size)

candidates-Listed : (d : Disk) (l : List File) → Distinct l → All (Listed l) (candidates d l)
unfolding candidates find_file
candidates-Listed d [] h = tt
candidates-Listed d (f ∷ l) h =
    let rest : All (Listed (f ∷ l)) (candidates d l) =
      All-imp (Listed l) (Listed (f ∷ l)) (candidates d l) (λ c. Listed-there f l c h.0)
        (candidates-Listed d l h.1) in
    elim (Bool-cases (d.can_stat f.name)) [
      | inl seen ↦ rw seen (
        (f, rw name-candidate (ground (arith, str_eq_iff f.name f.name)), sym (size-candidate d f)),
        rest,
      )
      | inr hidden ↦ rw hidden rest
    ]

-- The candidates in the order of the first pass.
pub first_pass-Names :
    (d : Disk) (s : Spool) → IsValid s → All (Names s.files) (sort by_name (candidates d s.files))
first_pass-Names d s v = All-sort (Names s.files) by_name (candidates d s.files) (
    All-imp (Listed s.files) (Names s.files) (candidates d s.files) (Listed-Names s.files)
      (candidates-Listed d s.files v.distinct))

clamp-Pruned : (s t : Spool) → Pruned s t → Pruned s (record t { bytes = clamp t.bytes })
clamp-Pruned s t p = record {
  valid = record {
    distinct = p.valid.distinct;
    counted = p.valid.counted;
    sized = rw p.valid.sized;
    balanced = p.valid.balanced;
    itemised = p.valid.itemised;
  };
  opts = p.opts;
  inflight = p.inflight;
  from_before = p.from_before;
  held = p.held;
}

pub retain-Pruned : (d : Disk) (now : ℕ) (s : Spool) → IsValid s → Pruned s (retain d now s)
unfolding retain
retain-Pruned d now s v =
    let cs = sort by_name (candidates d s.files) in
    let n : All (Names s.files) cs = first_pass-Names d s v in
    let t = (expire_pass d now cs s).0 in
    let kept = (expire_pass d now cs s).1 in
    let p : Pruned s t = expire_pass-Pruned d now cs s v n in
    let m : All (Names t.files) (sort by_priority kept) =
      All-sort (Names t.files) by_priority kept
        (All-expire_pass d now (Names t.files) cs s (Names-Pruned s t cs p n)) in
    clamp-Pruned s (evict_pass d (sort by_priority kept) (length kept) t).0 (
      Pruned-trans s t (evict_pass d (sort by_priority kept) (length kept) t).0 p
        (evict_pass-Pruned d (sort by_priority kept) (length kept) t p.valid m))

-- The retention keeps every counter in step with the directory, adds nothing to it, and leaves
-- every entry in flight as it is.
pub enforce_retention-Pruned :
    (d : Disk) (now : ℕ) (s : Spool) → IsValid s → Pruned s (enforce_retention d now s)
unfolding enforce_retention
enforce_retention-Pruned d now s v = elim (Bool-cases d.can_list) [
  | inl listed ↦ simp listed (retain-Pruned d now s v)
  | inr broken ↦ simp broken (Pruned-refl s v)
]
