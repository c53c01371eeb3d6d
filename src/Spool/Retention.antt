-- ===== src/Spool/Retention.antt =====
-- `enforceRetentionLocked`: age first, then the byte and item budgets, lowest priority first.
use Prim.Native.Nat.{Ordering}
use Prim.Native.String.{compare}
use seagull_agent.Prelude.{
  ℕ, ◌+◌, ◌-◌, ℤ, pos, ltb_ℤ, leb_ℤ, eq_ℤ, Bool, true, false, ◌&&◌, Option, none, some, List, [],
  ◌∷◌, String, ltb, leb, ◌==◌, if◌then◌else◌, length,
}
use seagull_agent.Spool.Files.{File, Envelope, member}
use seagull_agent.Spool.Sort.{sort}
use seagull_agent.Spool.State.{
  Disk, Options, Spool, Reason, expired, capacity, remove, record_removal, clamp,
}

-- Go's `<` on strings.
unfoldable pub text_lt : String → String → Bool
text_lt a b = elim (compare a b) [ Ordering.lt ↦ true | _ ↦ false ]

pub record Candidate : Type 0 where
  pub name : String
  pub size : ℕ
  pub created : ℕ
  pub priority : ℤ

-- The file's envelope, if it can be read and decoded.
unfoldable pub readable : Disk → File → Option Envelope
readable d f = if d.can_read f.name then f.content else none

unfoldable pub candidate : Disk → File → Candidate
unfolding readable
candidate d f = elim (readable d f) [
  | none ↦ record { name = f.name; size = f.size; created = f.mod_time; priority = pos 0 }
  | some env ↦ record {
    name = f.name;
    size = f.size;
    created = if env.created_at == 0 then f.mod_time else env.created_at;
    priority = env.priority;
  }
]

-- The loop over the directory: an entry whose Info fails is passed over.
unfoldable pub candidates : Disk → List File → List Candidate
candidates d [] = []
candidates d (f ∷ l) =
    let rest = candidates d l in if d.can_stat f.name then candidate d f ∷ rest else rest

unfoldable pub by_name : Candidate → Candidate → Bool
by_name a b = text_lt a.name b.name

-- The lowest priority first, then the oldest name.
unfoldable pub by_priority : Candidate → Candidate → Bool
by_priority a b =
    if eq_ℤ a.priority b.priority then text_lt a.name b.name else ltb_ℤ a.priority b.priority

unfoldable pub too_old : Options → ℕ → Candidate → Bool
too_old o now c = ltb 0 o.max_age && ltb (c.created + o.max_age) now

-- `os.Remove` and, if it succeeds, the bookkeeping; `none` if the file stays.
unfoldable pub remove_counted : Disk → Candidate → Reason → Spool → Option Spool
remove_counted d c reason s = elim (remove d c.name s) [
  | none ↦ none
  | some s' ↦ some (record_removal c.size reason s')
]

abbrev pub or_same : Option Spool → Spool → Spool
or_same none s = s
or_same (some s') s = s'

-- The first pass: what is kept, and the spool without what has expired.
unfoldable pub expire_pass : Disk → ℕ → List Candidate → Spool → Spool × List Candidate
expire_pass d now [] s = (s, [])
expire_pass d now (c ∷ cs) s =
    let kept = expire_pass d now cs s in
    let gone = expire_pass d now cs (or_same (remove_counted d c expired s) s) in
    if member c.name s.inflight
    then (kept.0, c ∷ kept.1)
    else if too_old s.opts now c
    then gone
    else (kept.0, c ∷ kept.1)

unfoldable pub within_budget : ℕ → Spool → Bool
within_budget remaining s = leb_ℤ s.bytes (pos s.opts.max_bytes) && leb remaining s.opts.max_items

-- The second pass, over what is kept, with the count of what remains.
unfoldable pub evict_pass : Disk → List Candidate → ℕ → Spool → Spool × ℕ
evict_pass d [] remaining s = (s, remaining)
evict_pass d (c ∷ cs) remaining s =
    let passed = evict_pass d cs remaining s in
    if within_budget remaining s
    then (s, remaining)
    else if member c.name s.inflight
    then passed
    else elim (remove_counted d c capacity s) [
      | none ↦ passed
      | some s' ↦ evict_pass d cs (remaining - 1) s'
    ]

-- The body of `enforceRetentionLocked`, once the directory is listed.
unfoldable pub retain : Disk → ℕ → Spool → Spool
retain d now s =
    let (s', kept) = expire_pass d now (sort by_name (candidates d s.files)) s in
    let (s'', remaining) = evict_pass d (sort by_priority kept) (length kept) s' in
    record s'' { bytes = clamp s''.bytes }

unfoldable pub enforce_retention : Disk → ℕ → Spool → Spool
enforce_retention d now s = if d.can_list then retain d now s else s
