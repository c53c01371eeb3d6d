-- ===== src/Spool/Budget.antt =====
-- The budget of the spool (internal/spool/spool.go) after `enforceRetentionLocked`.
use seagull_agent.Prelude.{
  ℕ, suc, ◌+◌, ◌-◌, ◌≤◌, pos, leb_ℤ, ◌≡◌, refl, ◌⊎◌, inl, inr, Bool, true, false, ◌||◌, none, some,
  List, [], ◌∷◌, arith, if◌then◌else◌, length, String, str_eq, str_eq_iff, Bool-cases, Option-cases,
  All,
}
use seagull_agent.Spool.Files.{
  File, has_file, without_file, Distinct, member, has-without_file, find_file_present,
  has-find_file, length-without_file,
}
use seagull_agent.Spool.Passes.{
  Pruned, remove_counted-some, remove_counted-Pruned, Names, Names-Pruned, expire_pass-Pruned,
  or_same-Pruned, All-expire_pass, evict_pass-Pruned, name-candidate,
}
use seagull_agent.Spool.Retain.{first_pass-Names}
use seagull_agent.Spool.Retention.{
  Candidate, candidates, by_name, by_priority, too_old, remove_counted, or_same, expire_pass,
  within_budget, evict_pass, retain, enforce_retention,
}
use seagull_agent.Spool.Sort.{sort, insert, All-sort}
use seagull_agent.Spool.State.{Disk, Spool, Reason, expired, capacity, remove, clamp}
use seagull_agent.Spool.Valid.{IsValid, removed_keeps}

pub listed : String → List Candidate → Bool
listed k [] = false
listed k (c ∷ cs) = str_eq c.name k || listed k cs

drop_name : String → List Candidate → List Candidate
drop_name k [] = []
drop_name k (c ∷ cs) = let rest = drop_name k cs in if str_eq c.name k then rest else c ∷ rest

listed-drop_name :
    (j k : String) (cs : List Candidate)
    → listed j (drop_name k cs) ≡ (if str_eq k j then false else listed j cs)
unfolding listed drop_name
listed-drop_name j k [] = ground arith
listed-drop_name j k (c ∷ cs) =
    ground
      (arith, listed-drop_name j k cs, str_eq_iff c.name k, str_eq_iff c.name j, str_eq_iff k j)

length-drop_name-le : (k : String) (cs : List Candidate) → length (drop_name k cs) ≤ length cs
unfolding drop_name
length-drop_name-le k [] = omega arith
length-drop_name-le k (c ∷ cs) = ground (arith, length-drop_name-le k cs)

length-drop_name-lt :
    (k : String) (cs : List Candidate)
    → listed k cs ≡ true
    → suc (length (drop_name k cs)) ≤ length cs
unfolding drop_name listed
length-drop_name-lt k [] h = cc
length-drop_name-lt k (c ∷ cs) h =
    ground (arith, length-drop_name-lt k cs, length-drop_name-le k cs)

-- Files with distinct names, all of them listed, are no more than the list is long.
length-le_of_listed :
    (l : List File) (cs : List Candidate)
    → Distinct l
    → ((k : String) → has_file k l ≡ true → listed k cs ≡ true)
    → length l ≤ length cs
unfolding has_file
length-le_of_listed [] cs d h = omega arith
length-le_of_listed (f ∷ l) cs d h =
    let rest : length l ≤ length (drop_name f.name cs) =
      length-le_of_listed l (drop_name f.name cs) d.1
        (λ k p. ground (arith, listed-drop_name k f.name cs, str_eq_iff f.name k, h k, p, d.0)) in
    omega (
      arith,
      rest,
      length-drop_name-lt f.name cs (ground (arith, h f.name, str_eq_iff f.name f.name)),
    )

listed-insert :
    (less : Candidate → Candidate → Bool) (k : String) (c : Candidate) (cs : List Candidate)
    → listed k (insert less c cs) ≡ listed k (c ∷ cs)
unfolding listed insert
listed-insert less k c [] = refl
listed-insert less k c (e ∷ cs) = ground (arith, listed-insert less k c cs)

listed-sort :
    (less : Candidate → Candidate → Bool) (k : String) (cs : List Candidate)
    → listed k (sort less cs) ≡ listed k cs
unfolding listed sort
listed-sort less k [] = refl
listed-sort less k (c ∷ cs) =
    ground (arith, listed-insert less k c (sort less cs), listed-sort less k cs)

has-Pruned :
    (s t : Spool)
    → Pruned s t
    → (k : String) → has_file k t.files ≡ true
    → has_file k s.files ≡ true
has-Pruned s t p k h =
    let (f, found) = find_file_present k t.files h in
    has-find_file k s.files f (p.from_before k f found)

-- A file that is idle and still there waits in the list.
abbrev Covers : List Candidate → Spool → Type 0
Covers cs s = (k : String) → has_file k s.files ≡ true → (member k s.inflight || listed k cs) ≡ true

abbrev pub AllInFlight : Spool → Type 0
AllInFlight s = (k : String) → has_file k s.files ≡ true → member k s.inflight ≡ true

abbrev pub FitsBudget : Spool → Type 0
FitsBudget s = (leb_ℤ s.bytes (pos s.opts.max_bytes) ≡ true) × (length s.files ≤ s.opts.max_items)

within_budget-FitsBudget :
    (remaining : ℕ) (s : Spool)
    → within_budget remaining s ≡ true
    → length s.files ≤ remaining
    → FitsBudget s
unfolding within_budget
within_budget-FitsBudget remaining s h m = ground arith

module _ (d : Disk) (removable : (k : String) → d.can_remove k ≡ true) where
  -- With a file system that removes, only a missing file is not removed.
  absent_of_stays :
      (c : Candidate) (reason : Reason) (s : Spool)
      → remove_counted d c reason s ≡ none
      → has_file c.name s.files ≡ false
  unfolding remove_counted remove
  absent_of_stays c reason s h = ground (arith, removable c.name)

  Covers-gone :
      (c : Candidate) (cs : List Candidate) (reason : Reason) (s t : Spool)
      → Names s.files c
      → Covers (c ∷ cs) s
      → remove_counted d c reason s ≡ some t
      → Covers cs t
  unfolding listed
  Covers-gone c cs reason s t n h gone k p =
      let (f, same, found, e) = remove_counted-some d c reason s t n gone in
      let (files, opts, inflight) = removed_keeps f reason s in
      let q : has_file k (without_file f.name s.files) ≡ true = rw files at (rw e at p) in
      rw (e, inflight)
        (ground (arith, h k, has-without_file k f.name s.files, str_eq_iff c.name k, same, q))

  length_gone :
      (c : Candidate) (reason : Reason) (s t : Spool)
      → IsValid s
      → Names s.files c
      → remove_counted d c reason s ≡ some t
      → length t.files + 1 ≡ length s.files
  length_gone c reason s t v n gone =
      let (f, same, found, e) = remove_counted-some d c reason s t n gone in
      let (files, opts, inflight) = removed_keeps f reason s in
      rw (e, files)
        (length-without_file f.name s.files v.distinct (has-find_file f.name s.files f found))

  evict_pass-budget :
      (cs : List Candidate) (remaining : ℕ) (s : Spool)
      → IsValid s
      → All (Names s.files) cs
      → Covers cs s
      → length s.files ≤ remaining
      → FitsBudget (evict_pass d cs remaining s).0 ⊎ AllInFlight (evict_pass d cs remaining s).0
  unfolding evict_pass listed
  evict_pass-budget [] remaining s v n h m = inr (λ k p. ground (arith, h k p))
  evict_pass-budget (c ∷ cs) remaining s v n h m = elim (Bool-cases (within_budget remaining s)) [
    | inl fits ↦ rw fits (inl (within_budget-FitsBudget remaining s fits m))
    | inr over ↦ elim (Bool-cases (member c.name s.inflight)) [
      | inl busy ↦
          rw (over, busy)
            (evict_pass-budget cs remaining s v n.1
              (λ k p. ground (arith, h k p, str_eq_iff c.name k)) m)
      | inr idle ↦ elim (Option-cases (remove_counted d c capacity s)) [
        | inl stays ↦
            rw (over, idle, stays, evict_pass)
              (evict_pass-budget cs remaining s v n.1
                (λ k p.
                  ground (arith, h k p, str_eq_iff c.name k, absent_of_stays c capacity s stays))
                m)
        | inr (t, gone) ↦
            let p : Pruned s t = remove_counted-Pruned d c capacity s t v n.0 idle gone in
            rw (over, idle, gone, evict_pass)
              (evict_pass-budget cs (remaining - 1) t p.valid (Names-Pruned s t cs p n.1)
                (Covers-gone c cs capacity s t n.0 h gone)
                (omega (arith, length_gone c capacity s t v n.0 gone)))
      ]
    ]
  ]

  absent-or_same :
      (c : Candidate) (reason : Reason) (s : Spool)
      → Names s.files c
      → has_file c.name (or_same (remove_counted d c reason s) s).files ≡ false
  absent-or_same c reason s n = elim (Option-cases (remove_counted d c reason s)) [
    | inl stays ↦ rw stays (absent_of_stays c reason s stays)
    | inr (t, gone) ↦
        let (f, same, found, e) = remove_counted-some d c reason s t n gone in
        let (files, opts, inflight) = removed_keeps f reason s in
        rw (gone, e, files)
          (ground (arith, has-without_file c.name f.name s.files, str_eq_iff f.name c.name))
  ]

  -- After the first pass what is still there is in the list of what is kept.
  listed-expire_pass :
      (now : ℕ) (cs : List Candidate) (s : Spool)
      → IsValid s
      → All (Names s.files) cs
      → (k : String) → has_file k (expire_pass d now cs s).0.files ≡ true
      → listed k cs ≡ true
      → listed k (expire_pass d now cs s).1 ≡ true
  unfolding expire_pass listed
  listed-expire_pass now [] s v n k p q = q
  listed-expire_pass now (c ∷ cs) s v n k p q = elim (Bool-cases (member c.name s.inflight)) [
    | inl busy ↦ rw busy (ground (arith, listed-expire_pass now cs s v n.1 k (rw busy at p)))
    | inr idle ↦ elim (Bool-cases (too_old s.opts now c)) [
      | inr young ↦
          rw (idle, young)
            (ground (arith, listed-expire_pass now cs s v n.1 k (rw (idle, young) at p)))
      | inl old ↦
          let t = or_same (remove_counted d c expired s) s in
          let r : Pruned s t = or_same-Pruned d c expired s v n.0 idle in
          let m : All (Names t.files) cs = Names-Pruned s t cs r n.1 in
          let u : has_file k (expire_pass d now cs t).0.files ≡ true = rw (idle, old) at p in
          let there =
            has-Pruned t (expire_pass d now cs t).0 (expire_pass-Pruned d now cs t r.valid m) k u in
          rw (idle, old)
            (listed-expire_pass now cs t r.valid m k u
              (ground (arith, q, there, absent-or_same c expired s n.0, str_eq_iff c.name k)))
    ]
  ]

listed-candidates :
    (d : Disk) (l : List File)
    → ((k : String) → d.can_stat k ≡ true)
    → (k : String) → has_file k l ≡ true
    → listed k (candidates d l) ≡ true
unfolding candidates listed has_file
listed-candidates d [] seen k h = cc
listed-candidates d (f ∷ l) seen k h =
    ground (arith, listed-candidates d l seen k, seen f.name, name-candidate d f)

-- A file system on which a listing, every stat and every removal succeed.
pub record IsHealthy (d : Disk) : Type 0 where
  pub lists : d.can_list ≡ true
  pub stats : (k : String) → d.can_stat k ≡ true
  pub removes : (k : String) → d.can_remove k ≡ true

clamp-budget :
    (t : Spool)
    → IsValid t
    → FitsBudget t ⊎ AllInFlight t
    → FitsBudget (record t { bytes = clamp t.bytes }) ⊎ AllInFlight t
clamp-budget t v (inl fits) = inl (rw v.sized (rw v.sized at fits))
clamp-budget t v (inr busy) = inr busy

retain-budget :
    (d : Disk) (now : ℕ) (s : Spool)
    → IsValid s
    → IsHealthy d
    → FitsBudget (retain d now s) ⊎ AllInFlight (retain d now s)
unfolding retain
retain-budget d now s v h =
    let cs = sort by_name (candidates d s.files) in
    let n : All (Names s.files) cs = first_pass-Names d s v in
    let t = (expire_pass d now cs s).0 in
    let kept = (expire_pass d now cs s).1 in
    let p : Pruned s t = expire_pass-Pruned d now cs s v n in
    let waits : (k : String) → has_file k t.files ≡ true → listed k kept ≡ true = λ k q.
      listed-expire_pass d h.removes now cs s v n k q
        (rw listed-sort (listed-candidates d s.files h.stats k (has-Pruned s t p k q))) in
    let m : All (Names t.files) (sort by_priority kept) =
      All-sort (Names t.files) by_priority kept
        (All-expire_pass d now (Names t.files) cs s (Names-Pruned s t cs p n)) in
    let u = (evict_pass d (sort by_priority kept) (length kept) t).0 in
    clamp-budget u (evict_pass-Pruned d (sort by_priority kept) (length kept) t p.valid m).valid (
      evict_pass-budget d h.removes (sort by_priority kept) (length kept) t p.valid m
        (λ k q. ground (arith, listed-sort by_priority k kept, waits k q))
        (length-le_of_listed t.files kept p.valid.distinct waits))

-- After the retention on a well-formed spool the bytes and the items are within the limits, or every entry that is left
-- is being delivered, on a file system that lists, stats and removes.
pub enforce_retention-budget :
    (d : Disk) (now : ℕ) (s : Spool)
    → IsValid s
    → IsHealthy d
    → FitsBudget (enforce_retention d now s) ⊎ AllInFlight (enforce_retention d now s)
unfolding enforce_retention
enforce_retention-budget d now s v h = simp h.lists (retain-budget d now s v h)
