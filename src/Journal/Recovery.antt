-- ===== src/Journal/Recovery.antt =====
-- `recover`: what a restart makes of the entries that it finds.
use seagull_agent.Prelude.{
  ℕ, ℤ, eq_ℤ, ◌≡◌, refl, ap, ◌∙◌, ◌⊎◌, inl, inr, Bool, true, false, not, ◌||◌, Option, none, some,
  List, [], ◌∷◌, if◌then◌else◌, Bool-cases, Option-cases,
}
use seagull_agent.Assoc.{IsMap}
use seagull_agent.Journal.Entries.{load, write}
use seagull_agent.Journal.Operations.{interrupted, recover_records, sync_after, recover}
use seagull_agent.Journal.Phases.{phase_at, Wrote, write-Wrote}
use seagull_agent.Journal.State.{
  JournalRecord, Journal, Disk, JournalError, Phase, accepted, executing, terminal, other_phase,
  is_executing,
}
use seagull_agent.Spool.Sort.{}
use seagull_agent.Journal.Loaded.{listed, is_running, load-listed}

-- Two tests one after the other.
merged :
    (b c : Bool) (t x y z : Option Phase)
    → y ≡ (if b then t else z)
    → x ≡ (if c then t else y)
    → x ≡ (if b || c then t else z)
merged true true t x y z e f = f
merged true false t x y z e f = f ∙ e
merged false true t x y z e f = f
merged false false t x y z e f = f ∙ e

recover_records-phase :
    (d : Disk) (now : ℕ) (l : List JournalRecord) (j j' : Journal) (k : ℤ)
    → recover_records d now l j ≡ (j', none)
    → phase_at k j' ≡ (if listed k l then some terminal else phase_at k j)
unfolding recover_records listed interrupted
recover_records-phase d now [] j j' k h = let same : j ≡ j' = ap (λ w. w.0) h in rw (← same)
recover_records-phase d now (r ∷ l) j j' k h = elim (Bool-cases (is_executing r.phase)) [
  | inr idle ↦ rw idle (recover_records-phase d now l j j' k (rw (idle, recover_records) at h))
  | inl active ↦
      let w = write d (interrupted now r) j in
      let wrote : Wrote (interrupted now r) j w = write-Wrote d (interrupted now r) j in
      elim (Option-cases w.1) [
        | inr (e, bad) ↦
            let stopped : (w.0, some e) ≡ (j', none) = rw (active, recover_records, bad) at h in
            absurd (cc (ap (λ x. x.1) stopped))
        | inl good ↦
            let rest : recover_records d now l w.0 ≡ (j', none) =
              rw (active, recover_records, good) at h in
            let after = recover_records-phase d now l w.0 j' k rest in
            elim (wrote.phases k) [
              | inr (bad, same) ↦ absurd (bad good)
              | inl here ↦ rw active (
                  merged (eq_ℤ r.action.id k) (listed k l) (some terminal) (phase_at k j')
                    (phase_at k w.0) (phase_at k j) here after)
            ]
      ]
]

-- What a restart makes of a phase.
abbrev pub after_restart : Option Phase → Option Phase
after_restart none = none
after_restart (some p) = some (if is_executing p then terminal else p)

settled_phase :
    (p x : Option Phase) → x ≡ (if is_running p then some terminal else p) → x ≡ after_restart p
settled_phase none x h = h
settled_phase (some accepted) x h = h
settled_phase (some executing) x h = h
settled_phase (some terminal) x h = h
settled_phase (some (other_phase q)) x h = h

synced :
    (d : Disk) (w : Journal × Option JournalError) (j : Journal)
    → sync_after d w ≡ (j, none)
    → w ≡ (j, none)
synced d (i, some e) j h = absurd (cc (ap (λ x. x.1) h))
synced d (i, none) j h = cc (ap (λ x. x.0) h)

-- After a restart that succeeds, on a directory with one entry at most for an id, an action that
-- was executing is terminal, and every other action has the phase that it had.
pub recover-phases :
    (d : Disk) (now : ℕ) (j j' : Journal) (k : ℤ)
    → IsMap j.files
    → recover d now j ≡ (j', none)
    → phase_at k j' ≡ after_restart (phase_at k j)
unfolding recover
recover-phases d now j j' k m h = elim (Bool-cases (not d.can_list)) [
  | inl bad ↦ absurd (cc (ap (λ x. x.1) (rw (bad, recover) at h)))
  | inr listing ↦ elim (Bool-cases (not d.can_clear_temps)) [
    | inl bad ↦ absurd (cc (ap (λ x. x.1) (rw (listing, bad, recover) at h)))
    | inr clear ↦ settled d now j j' k m (load d j) refl (rw (listing, clear, recover) at h)
  ]
]
  where
    settled :
        (d : Disk) (now : ℕ) (j j' : Journal) (k : ℤ)
        → IsMap j.files
        → (loaded : JournalError ⊎ (List JournalRecord × ℕ)) → load d j ≡ loaded
        → (elim loaded as (λ x. Journal × Option JournalError) [
          | inl e ↦ (j, some e)
          | inr (l, bytes) ↦ sync_after d (recover_records d now l j)
        ])
          ≡ (j', none)
        → phase_at k j' ≡ after_restart (phase_at k j)
    settled d now j j' k m (inl e) g h = absurd (cc (ap (λ x. x.1) h))
    settled d now j j' k m (inr (l, bytes)) g h =
        let phases =
          recover_records-phase d now l j j' k (synced d (recover_records d now l j) j' h) in
        settled_phase (phase_at k j) (phase_at k j') (rw (load-listed d k j l bytes m g) at phases)
