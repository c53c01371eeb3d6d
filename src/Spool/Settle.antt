-- ===== src/Spool/Settle.antt =====
-- `Acknowledge` and `Reject` of internal/spool/spool.go, on success and on error.
use seagull_agent.Prelude.{
  suc, ◌≡◌, ◌≢◌, ◌⊎◌, refl, Bool, true, false, Option, none, some, inl, inr, arith, if◌then◌else◌,
  String, str_eq, str_eq_iff, trim_space, Bool-cases, Option-cases,
}
use seagull_agent.Spool.Files.{
  File, Envelope, has_file, find_file, has-without_file, find-without_file, name-find_file,
}
use seagull_agent.Spool.Queue.{
  RemoveError, remove_error, sync_error, is_receipt, settle, stored_file, remove_envelope,
  acknowledge,
}
use seagull_agent.Spool.State.{Disk, Spool, Reason, delivered, remove, persist_stats}
use seagull_agent.Spool.Valid.{
  IsValid, removed, removed-IsValid, removed_keeps, files-remove, persist_stats-IsValid,
  persist_stats-SameCounts, delivered-removed,
}

-- The three outcomes of a removal: nothing happened, or the file is gone, with the statistics
-- saved or not.
abbrev Settled : Disk → File → Reason → Spool → Spool × Option RemoveError → Type 0
Settled d f reason s r =
    ((r.0 ≡ s) × (r.1 ≡ some remove_error))
    ⊎ (((r.0 ≡ persist_stats d (removed f reason s)) × (r.1 ≡ none))
        ⊎ ((r.0 ≡ removed f reason s) × (r.1 ≡ some sync_error)))

Settled-synced :
    (d : Disk) (f : File) (reason : Reason) (s : Spool) (synced : Bool)
    → Settled d f reason s (
        if synced
        then (persist_stats d (removed f reason s), none)
        else (removed f reason s, some sync_error))
Settled-synced d f reason s true = inr (inl (refl, refl))
Settled-synced d f reason s false = inr (inr (refl, refl))

settle_cases :
    (d : Disk) (f : File) (reason : Reason) (s : Spool) → Settled d f reason s (settle d f reason s)
unfolding settle
settle_cases d f reason s = elim (Option-cases (remove d f.name s)) [
  | inl stays ↦ rw (stays, settle) (inl (refl, refl))
  | inr (t, gone) ↦
      rw (gone, files-remove d f.name s t gone, settle) (Settled-synced d f reason s d.can_sync)
]

-- The two ways through `removeEnvelope`: an error with nothing changed, or the removal of the file
-- that the receipt names, if it holds an envelope with the id of the caller's.
abbrev Outcome : Disk → Envelope → Reason → Spool → Spool × Option RemoveError → Type 0
Outcome d env reason s r =
    ((r.0 ≡ s) × (r.1 ≢ none))
    ⊎ ((f : File) × (find_file (trim_space env.receipt) s.files ≡ some f)
        × ((stored : Envelope) × (f.content ≡ some stored)
            × (str_eq (trim_space stored.id) (trim_space env.id) ≡ true))
        × Settled d f reason s r)

remove_envelope_cases :
    (d : Disk) (env : Envelope) (reason : Reason) (s : Spool)
    → Outcome d env reason s (remove_envelope d env reason s)
unfolding remove_envelope stored_file
remove_envelope_cases d env reason s =
    let name = trim_space env.receipt in
    elim (Bool-cases (is_receipt name)) [
      | inr bad ↦ rw bad (inl (refl, λ e. cc))
      | inl good ↦ elim (Option-cases (stored_file d name s)) [
        | inl unread ↦ rw (good, unread, remove_envelope) (inl (refl, λ e. cc))
        | inr (f, raw) ↦ elim (Option-cases f.content) [
          | inl garbled ↦ rw (good, raw, garbled, remove_envelope) (inl (refl, λ e. cc))
          | inr (stored, decoded) ↦
              elim (Bool-cases (str_eq (trim_space stored.id) (trim_space env.id))) [
                | inr other ↦ rw (good, raw, decoded, other, remove_envelope) (inl (refl, λ e. cc))
                | inl same ↦
                    rw (good, raw, decoded, same, remove_envelope)
                      (inr (f, ground arith, (stored, decoded, same), settle_cases d f reason s))
              ]
        ]
      ]
    ]

Settled-IsValid :
    (d : Disk) (f : File) (reason : Reason) (s : Spool) (r : Spool × Option RemoveError)
    → IsValid s
    → find_file f.name s.files ≡ some f
    → Settled d f reason s r
    → IsValid r.0
Settled-IsValid d f reason s r v found (inl (same, _)) = rw same v
Settled-IsValid d f reason s r v found (inr (inl (done, _))) =
    rw done (persist_stats-IsValid d (removed f reason s) (removed-IsValid f s v found reason))
Settled-IsValid d f reason s r v found (inr (inr (torn, _))) =
    rw torn (removed-IsValid f s v found reason)

found_by_name :
    (k : String) (s : Spool) (f : File)
    → find_file k s.files ≡ some f
    → find_file f.name s.files ≡ some f
found_by_name k s f h = cc (name-find_file k s.files f h)

-- Acknowledge and Reject keep a spool well formed, on success and on every error.
pub remove_envelope-IsValid :
    (d : Disk) (env : Envelope) (reason : Reason) (s : Spool)
    → IsValid s
    → IsValid (remove_envelope d env reason s).0
remove_envelope-IsValid d env reason s v = elim (remove_envelope_cases d env reason s) [
  | inl (same, _) ↦ rw same v
  | inr (f, found, _, settled) ↦
      Settled-IsValid d f reason s (remove_envelope d env reason s) v
        (found_by_name (trim_space env.receipt) s f found) settled
]

-- An error other than that of the final sync leaves the spool as it was.
pub remove_envelope_error :
    (d : Disk) (env : Envelope) (reason : Reason) (s : Spool) (e : RemoveError)
    → (remove_envelope d env reason s).1 ≡ some e
    → e ≢ sync_error
    → (remove_envelope d env reason s).0 ≡ s
remove_envelope_error d env reason s e h other = elim (remove_envelope_cases d env reason s) [
  | inl (same, _) ↦ same
  | inr (f, found, _, inl (same, _)) ↦ same
  | inr (f, found, _, inr (inl (_, good))) ↦ cc (h, good)
  | inr (f, found, _, inr (inr (_, torn))) ↦ absurd (other (cc (h, torn)))
]

-- Acknowledge that succeeds takes the entry of the receipt out, whose stored id is that of the
-- caller's envelope, counts one delivery, and leaves the entry of every other name `k`.
pub acknowledge-eq-none :
    (d : Disk) (env : Envelope) (s : Spool) (k : String)
    → (acknowledge d env s).1 ≡ none
    → (has_file (trim_space env.receipt) (acknowledge d env s).0.files ≡ false)
      × ((f : File) × (find_file (trim_space env.receipt) s.files ≡ some f)
          × ((stored : Envelope) × (f.content ≡ some stored)
              × (str_eq (trim_space stored.id) (trim_space env.id) ≡ true)))
      × ((acknowledge d env s).0.delivered ≡ suc s.delivered)
      × (find_file k (acknowledge d env s).0.files
          ≡ (if str_eq (trim_space env.receipt) k then none else find_file k s.files))
unfolding acknowledge
acknowledge-eq-none d env s k h = elim (remove_envelope_cases d env delivered s) [
  | inl (_, bad) ↦ absurd (bad h)
  | inr (f, found, _, inl (_, bad)) ↦ cc (h, bad)
  | inr (f, found, _, inr (inr (_, bad))) ↦ cc (h, bad)
  | inr (f, found, stored, inr (inl (done, _))) ↦
      let name = trim_space env.receipt in
      let kept = persist_stats-SameCounts d (removed f delivered s) in
      let (files, _, _) = removed_keeps f delivered s in
      let same = name-find_file name s.files f found in
      (
        rw (done, kept.0, files)
            (ground (arith, has-without_file name f.name s.files, same, str_eq_iff f.name name)),
        (f, found, stored),
        rw (done, kept.4) (delivered-removed f s),
        rw (done, kept.0, files, ← same) (find-without_file k f.name s.files),
      )
]
