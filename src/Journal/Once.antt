-- ===== src/Journal/Once.antt =====
-- Runs of the operations of the journal, restarts included, and the phase of one action.
use seagull_agent.Prelude.{
  ℕ, ◌≤◌, ℤ, eq_ℤ, eq_ℤ_iff, ◌≡◌, ◌≢◌, refl, ap, ◌∙◌, inr, false, some, arith,
}
use seagull_agent.Assoc.{}
use seagull_agent.Journal.Entries.{}
use seagull_agent.Journal.Operations.{begin, mark_executing, complete, delete, recover}
use seagull_agent.Journal.Phases.{phase_at, IsFiled}
use seagull_agent.Journal.State.{JournalRecord, ExecutionResult, Journal, Disk, accepted, executing}
use seagull_agent.Journal.Transitions.{mark_executing-eq-ok}
use seagull_agent.Protocol.Action.{ResponseAction}
use seagull_agent.Journal.Forward.{
  Forward, stays, begin-Forward, mark_executing-Forward, complete-Forward, recover-Forward,
  delete-Forward,
}

-- One operation of the journal, with any answers of the disk, that does not delete the entry of
-- the action `k`.
pub data Step (k : ℤ) : Journal → Journal → Type 0 where
  began :
      (d : Disk) (now : ℕ) (action : ResponseAction) (started : ℕ) (j : Journal)
      → Step k j (begin d now action started j).0
  marked : (d : Disk) (now : ℕ) (id : ℤ) (j : Journal) → Step k j (mark_executing d now id j).0
  completed :
      (d : Disk) (now : ℕ) (id : ℤ) (result : ExecutionResult) (j : Journal)
      → Step k j (complete d now id result j).0
  restarted : (d : Disk) (now : ℕ) (j : Journal) → Step k j (recover d now j).0
  deleted_other : (d : Disk) (id : ℤ) (j : Journal) → eq_ℤ id k ≡ false → Step k j (delete d id j).0

pub data Run (k : ℤ) : Journal → Journal → Type 0 where
  done : (j : Journal) → Run k j j
  step : (i j l : Journal) → Step k i j → Run k j l → Run k i l

Step-Forward : (k : ℤ) (j j' : Journal) → Step k j j' → IsFiled j → Forward k j j'
Step-Forward k _ _ (began d now action started j) v = begin-Forward d now action started j k v
Step-Forward k _ _ (marked d now id j) v = mark_executing-Forward d now id j k v
Step-Forward k _ _ (completed d now id result j) v = complete-Forward d now id result j k v
Step-Forward k _ _ (restarted d now j) v = recover-Forward d now j k v
Step-Forward k _ _ (deleted_other d id j other) v = delete-Forward d id j k other v

Run-Forward : (k : ℤ) (j j' : Journal) → Run k j j' → IsFiled j → Forward k j j'
Run-Forward k _ _ (done j) v = stays k j v
Run-Forward k _ _ (step i j l s r) v =
    let first = Step-Forward k i j s v in
    let rest = Run-Forward k j l r first.filed in
    record { filed = rest.filed; further = omega (arith, first.further, rest.further) }

-- Once MarkExecuting has succeeded for an action, it never succeeds for it again, after any
-- operations and restarts that do not delete the entry of the action, in a journal whose entries
-- stand under their ids.
pub mark_executing_once :
    (d e : Disk) (now later : ℕ) (k : ℤ) (i j l m : Journal) (r s : JournalRecord)
    → IsFiled i
    → mark_executing d now k i ≡ (j, inr r)
    → Run k j l
    → mark_executing e later k l ≢ (m, inr s)
mark_executing_once d e now later k i j l m r s v first run again =
    let at_first = mark_executing-eq-ok d now k i j r k v first in
    let kept : IsFiled j =
      rw (ap (λ x. x.0) first) at (mark_executing-Forward d now k i k v).filed in
    let forward = Run-Forward k j l run kept in
    let before : phase_at k l ≡ some accepted =
      (mark_executing-eq-ok e later k l m s k forward.filed again).0 in
    let now_executing : phase_at k j ≡ some executing = at_first.1 ∙ rw ((eq_ℤ_iff k k).1 refl) in
    let far : 2 ≤ 1 = rw (now_executing, before) at forward.further in absurd (omega (arith, far))
