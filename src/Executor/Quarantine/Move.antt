-- ===== src/Executor/Quarantine/Move.antt =====
-- executor.go: `openQuarantineTarget`, `prepareQuarantineDirectory`, `copyQuarantineTarget` and
-- `runQuarantineFile`. Other processes may change what stands at the path, and write to the opened
-- file, at any time: `Looks` says what each call finds, and what the system answers. `Places` is what
-- the action itself does: what it takes off the path, and what stands at the destination, which is
-- another path, in a directory that no other process writes to.
use seagull_agent.Prelude.{
  ℕ, String, str_append, Bool, true, false, not, ◌||◌, Option, none, some, List, ◌==◌,
  if◌then◌else◌, length,
}
use seagull_agent.Executor.Outcome.{Outcome, ok, fail}
use seagull_agent.Executor.Quarantine.{
  QuarantineFilePayload, QuarantineRequest, parse_quarantine_file_payload, validate_quarantine_path,
  quarantine_dir,
}

-- What a path leads to; os.SameFile compares the identities.
pub record Entry : Type 0 where
  pub identity : ℕ
  pub is_regular : Bool
  pub permissions : ℕ
  pub content : List ℕ

pub record Places : Type 0 where
  pub removed : Option Entry
  pub dest : Option Entry

pub record Looks : Type 0 where
  pub at_lstat : Option Entry
  pub at_open : Option Entry
  pub at_revalidation : Option Entry
  pub at_removal : Option Entry
  pub can_open : Bool
  pub can_stat : Bool
  pub hash : List ℕ → Option String
  pub hashed_bytes : List ℕ
  pub can_prepare : Bool
  pub prepared_is_dir : Bool
  pub can_seek : Bool
  pub can_create : Bool
  pub can_copy : Bool
  pub partly_copied : List ℕ
  pub copied : List ℕ
  pub can_sync_output : Bool
  pub can_chmod : Bool
  pub can_close : Bool
  pub can_sync_dest : Bool
  pub can_clean : Bool
  pub can_remove : Bool
  pub can_sync_source : Bool
  pub identity_of_dest : ℕ

pub record QuarantineReport : Type 0 where
  pub original_path : String
  pub quarantine_path : String
  pub size_bytes : ℕ
  pub permissions_before : ℕ
  pub sha256 : Option String
  pub quarantined : Bool
  pub dry_run : Bool

-- The entry that a file is opened as: a regular one, and the same as was looked at.
unfoldable pub open_quarantine_target : Looks → Outcome Entry
open_quarantine_target k = elim k.at_lstat [
  | none ↦ fail "no such file"
  | some initial ↦
      if not initial.is_regular then fail "payload.path is not a regular file" else elim k.at_open [
        | none ↦ fail "no such file"
        | some opened ↦
            if not k.can_open || not k.can_stat
            then fail "open failed"
            else if not opened.is_regular || not (initial.identity == opened.identity)
            then fail "quarantine target changed during validation"
            else ok opened
      ]
]

unfoldable pub remove_dest : Looks → Places → Places
remove_dest k w = if k.can_clean then record w { dest = none } else w

abbrev pub dest_entry : Looks → ℕ → List ℕ → Entry
dest_entry k permissions content = record {
  identity = k.identity_of_dest;
  is_regular = true;
  permissions = permissions;
  content = content;
}

-- The destination when the copy stops, when it has read the opened file to its end, and without
-- permissions.
abbrev pub partial_copy : Looks → Places → Places
partial_copy k w = record w { dest = some (dest_entry k 384 k.partly_copied) }

abbrev pub open_copy : Looks → Places → Places
open_copy k w = record w { dest = some (dest_entry k 384 k.copied) }

abbrev pub full_copy : Looks → Places → Places
full_copy k w = record w { dest = some (dest_entry k 0 k.copied) }

-- From the creation of the destination on: a step that fails after it removes the file again.
unfoldable pub fill_dest : Looks → Places → Places × Option String
fill_dest k w =
    if not k.can_create
    then (w, some "create failed")
    else if not k.can_copy
    then (remove_dest k (partial_copy k w), some "copy failed")
    else if not k.can_sync_output || not k.can_chmod
    then (remove_dest k (open_copy k w), some "sync failed")
    else if not k.can_close || not k.can_sync_dest
    then (remove_dest k (full_copy k w), some "close failed")
    else (full_copy k w, none)

-- O_EXCL: nothing is written over an entry.
unfoldable pub copy_quarantine_target : Looks → Places → Places × Option String
copy_quarantine_target k w =
    if not k.can_seek
    then (w, some "seek failed")
    else elim w.dest [ some e ↦ (w, some "file exists") | none ↦ fill_dest k w ]

abbrev pub same_file : Entry → Option Entry → Bool
same_file target none = false
same_file target (some e) = target.identity == e.identity

abbrev pub report : QuarantineFilePayload → String → Entry → Option String → QuarantineReport
report p dest target sum = record {
  original_path = p.path;
  quarantine_path = dest;
  size_bytes = length target.content;
  permissions_before = target.permissions;
  sha256 = sum;
  quarantined = false;
  dry_run = p.dry_run;
}

-- os.Remove takes what stands at the path when it runs.
abbrev pub taken : Looks → Option Entry
taken k = if k.can_remove then k.at_removal else none

-- From the second look at the path on.
unfoldable pub finish_quarantine :
    Looks → Entry → QuarantineReport → Places → Places × Outcome QuarantineReport
finish_quarantine k target r w =
    if not (same_file target k.at_revalidation)
    then (remove_dest k w, fail "quarantine target changed during execution")
    else elim (taken k) [
      | none ↦ (remove_dest k w, fail "remove quarantine target failed")
      | some e ↦
          if not k.can_sync_source
          then (record w { removed = some e }, fail "persist quarantine target removal failed")
          else (record w { removed = some e }, ok (record r { quarantined = true }))
    ]

-- Once the file is open and hashed. The hash reads the file by itself, before the copy does.
unfoldable pub move_target :
    Looks → Entry → QuarantineReport → Places → Places × Outcome QuarantineReport
move_target k target r w =
    let (w', error) = copy_quarantine_target k w in
    let finished = finish_quarantine k target r w' in
    if r.dry_run
    then (w, ok r)
    else if not k.can_prepare || not k.prepared_is_dir
    then (w, fail "create quarantine dir failed")
    else elim error [
      | some e ↦ (w', fail (str_append "quarantine move failed: " e))
      | none ↦ finished
    ]

abbrev pub hashed : Looks → QuarantineFilePayload → Outcome (Option String)
hashed k p =
    if p.compute_hash
    then elim (k.hash k.hashed_bytes) [ none ↦ fail "hash target failed" | some s ↦ ok (some s) ]
    else ok none

-- `name` is the destination of the action in a directory.
unfoldable pub run_parsed :
    Looks
    → (String → String)
    → String
    → QuarantineFilePayload
    → Places
    → Places × Outcome QuarantineReport
run_parsed k name configured p w = elim (validate_quarantine_path p.path) [
  | fail e ↦ (w, fail e)
  | ok u ↦ elim (open_quarantine_target k) [
    | fail e ↦ (w, fail (str_append "stat target failed: " e))
    | ok target ↦ elim (quarantine_dir configured) [
      | fail e ↦ (w, fail e)
      | ok dir ↦ elim (hashed k p) [
        | fail e ↦ (w, fail e)
        | ok sum ↦ move_target k target (report p (name dir) target sum) w
      ]
    ]
  ]
]

unfoldable pub run_quarantine_file :
    (String → Outcome QuarantineRequest)
    → Looks
    → (String → String)
    → String
    → String
    → Places
    → Places × Outcome QuarantineReport
run_quarantine_file decode k name configured raw w =
    elim (parse_quarantine_file_payload decode raw) [
      | fail e ↦ (w, fail e)
      | ok p ↦ run_parsed k name configured p w
    ]
