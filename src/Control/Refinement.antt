-- ===== src/Control/Refinement.antt =====
-- controlplane.go: `processResponseActions` against the transition system of `Lifecycle`.
use seagull_agent.Prelude.{
  ℕ, zero, suc, ℤ, pos, ◌≡◌, refl, ap, ◌∙◌, ◌⊎◌, inl, inr, true, Option, some, List, [], ◌∷◌, All,
  All-imp, Bool-cases, Option-cases,
}
use seagull_agent.Control.{
  Env, Config, Service, ControlError, Flow, go_on, return, is_entry_exists, is_capacity,
  report_terminal, execute_accepted, report_all, execute_all, begin_staged, staged_rounds,
  process_accepted, process_response_actions, handled,
}
use seagull_agent.Control.Lifecycle.{here, ⟶*-trans, life, count}
use seagull_agent.Control.Moves.{Moves, begin-Moves, IsDeletable}
use seagull_agent.Executor.Execute.{}
use seagull_agent.Journal.Filed.{Stands, records-Stands}
use seagull_agent.Journal.Operations.{begin, terminal_records, accepted_records}
use seagull_agent.Journal.Phases.{IsFiled}
use seagull_agent.Journal.State.{
  JournalRecord, Journal, Phase, accepted, executing, terminal, other_phase, is_terminal,
}
use seagull_agent.Journal.Transitions.{Result-cases}
use seagull_agent.Protocol.Action.{ResponseAction}
use seagull_agent.Stage.{next}
use seagull_agent.Control.Executing.{execute_accepted-Lives}
use seagull_agent.Control.Reporting.{
  Lives, Lives-refl, Lives-trans, Reported, report_terminal-Reported,
}

Flow-cases : (f : Flow) → (f ≡ go_on) ⊎ ((e : Option ControlError) × (f ≡ return e))
Flow-cases go_on = inl refl
Flow-cases (return e) = inr (e, refl)

is_terminal-eq : (p : Phase) → is_terminal p ≡ true → p ≡ terminal
is_terminal-eq accepted h = cc
is_terminal-eq executing h = cc
is_terminal-eq terminal h = refl
is_terminal-eq (other_phase q) h = cc

module _ {W R : Type 0} (c : Config) (env : Env W R) (k : ℤ) where
  report_all-Lives :
      (l : List JournalRecord) (s : Service W)
      → IsFiled s.journal
      → All (λ r. IsDeletable r.action.id s.journal) l
      → Lives k s (report_all c env l s).0
  unfolding report_all
  report_all-Lives [] s v h = Lives-refl k s v
  report_all-Lives (r ∷ l) s v h =
      let done = report_terminal c env r s in
      let first : Reported c env k s done.0 = report_terminal-Reported c env k r s v h.0 in
      let kept =
        All-imp (λ q. IsDeletable q.action.id s.journal)
          (λ q. IsDeletable q.action.id done.0.journal) l (λ q. first.keeps q.action.id) h.1 in
      let rest = report_all-Lives l done.0 first.lives.filed kept in
      elim (Result-cases done.1) [
        | inl (e, bad) ↦ simp (bad, report_all) first.lives
        | inr (delivered, good) ↦ elim (Bool-cases delivered) [
          | inl all ↦
              simp (good, all, report_all)
                (Lives-trans k s done.0 (report_all c env l done.0).0 first.lives rest)
          | inr stuck ↦ simp (good, stuck, report_all) first.lives
        ]
      ]

  execute_all-Lives :
      (l : List JournalRecord) (s : Service W)
      → IsFiled s.journal
      → Lives k s (execute_all c env l s).0
  unfolding execute_all
  execute_all-Lives [] s v = Lives-refl k s v
  execute_all-Lives (r ∷ l) s v =
      let done = execute_accepted c env r s in
      let first : Lives k s done.0 = execute_accepted-Lives c env k r s v in
      let rest = execute_all-Lives l done.0 first.filed in
      elim (Option-cases done.1) [
        | inr (e, bad) ↦ simp (bad, execute_all) first
        | inl fine ↦
            simp (fine, execute_all)
              (Lives-trans k s done.0 (execute_all c env l done.0).0 first rest)
      ]

  begin_staged-Lives :
      (a : ResponseAction) (s : Service W)
      → IsFiled s.journal
      → Lives k s (begin_staged c env a s).0
  unfolding begin_staged
  begin_staged-Lives a s v =
      let d = env.disk s.tick in
      let now = env.now s.tick in
      let begun = begin d now a now s.journal in
      let m : Moves k s.journal begun.0 = begin-Moves d now a now s.journal k v in
      let path = m.path (count k s.executed) in
      let s' : Service W = record s { journal = begun.0; tick = suc s.tick } in
      elim (Result-cases begun.1) [
        | inl (e, bad) ↦ elim (Bool-cases (is_entry_exists e)) [
          | inl there ↦ simp (bad, there, begin_staged) (record { filed = m.filed; path = path })
          | inr new ↦ elim (Bool-cases (is_capacity e)) [
            | inl full ↦
                simp (bad, new, full, begin_staged) (record { filed = m.filed; path = path })
            | inr other ↦
                simp (bad, new, other, begin_staged) (record { filed = m.filed; path = path })
          ]
        ]
        | inr (r, good) ↦
            let ready = handled c env a.id s' in
            let done = execute_accepted c env r ready in
            let ran : Lives k ready done.0 = execute_accepted-Lives c env k r ready m.filed in
            let whole : Lives k s done.0 = record {
              filed = ran.filed;
              path = ⟶*-trans path ran.path;
            } in
            elim (Option-cases done.1) [
              | inr (e, bad) ↦ simp (good, bad, begin_staged) whole
              | inl fine ↦ simp (good, fine, begin_staged) whole
            ]
      ]

  staged_rounds-Lives :
      (n : ℕ) (s : Service W) → IsFiled s.journal → Lives k s (staged_rounds c env n s).0
  unfolding staged_rounds
  staged_rounds-Lives zero s v = Lives-refl k s v
  staged_rounds-Lives (suc n) s v =
      let given = next (env.now s.tick) c.agent_id s.stage in
      let s' : Service W = record s { stage = given.0; tick = suc s.tick } in
      elim (Option-cases given.1) [
        | inl nothing ↦ simp (nothing, staged_rounds) (record { filed = v; path = here (life k s) })
        | inr (item, found) ↦
            let done = begin_staged c env item.action s' in
            let ran : Lives k s' done.0 = begin_staged-Lives item.action s' v in
            let first : Lives k s done.0 = record { filed = ran.filed; path = ran.path } in
            let rest = staged_rounds-Lives n done.0 first.filed in
            elim (Flow-cases done.1) [
              | inl goes ↦
                  simp (found, goes, staged_rounds)
                    (Lives-trans k s done.0 (staged_rounds c env n done.0).0 first rest)
              | inr (e, stops) ↦ simp (found, stops, staged_rounds) first
            ]
      ]

  process_accepted-Lives :
      (s : Service W) → IsFiled s.journal → Lives k s (process_accepted c env s).0
  unfolding process_accepted
  process_accepted-Lives s v =
      elim (Result-cases (accepted_records (env.disk s.tick) (pos 8) s.journal)) [
        | inl (e, bad) ↦ simp (bad, process_accepted) (Lives-refl k s v)
        | inr (l, loaded) ↦
            let done = execute_all c env l s in
            let first : Lives k s done.0 = execute_all-Lives l s v in
            let rest = staged_rounds-Lives 8 done.0 first.filed in
            elim (Flow-cases done.1) [
              | inl goes ↦
                  simp (loaded, goes, process_accepted)
                    (Lives-trans k s done.0 (staged_rounds c env 8 done.0).0 first rest)
              | inr (e, stops) ↦ simp (loaded, stops, process_accepted) first
            ]
      ]

  -- A terminal record that is listed may be deleted.
  listed-IsDeletable :
      (j : Journal) (r : JournalRecord)
      → Stands j r × (is_terminal r.phase ≡ true)
      → IsDeletable r.action.id j
  listed-IsDeletable j r h = inl (h.0 ∙ ap some (is_terminal-eq r.phase h.1))

  -- Whatever the control plane, the disk, the clock and the handlers answer: in a journal whose
  -- entries stand under their ids, one call of `processResponseActions` takes every action along a
  -- path of its life: its entry is begun, marked as executing, completed and deleted in this order,
  -- it is deleted only once it is terminal, and each execution of the action is at one such mark.
  pub process_response_actions-Lives :
      (s : Service W) → IsFiled s.journal → Lives k s (process_response_actions c env s).0
  unfolding process_response_actions
  process_response_actions-Lives s v =
      elim (Result-cases (terminal_records (env.disk s.tick) (pos 8) s.journal)) [
        | inl (e, bad) ↦ simp (bad, process_response_actions) (Lives-refl k s v)
        | inr (l, loaded) ↦
            let listed =
              records-Stands is_terminal (env.disk s.tick) (pos 8) s.journal l v loaded in
            let may =
              All-imp (λ r. Stands s.journal r × (is_terminal r.phase ≡ true))
                (λ r. IsDeletable r.action.id s.journal) l (listed-IsDeletable s.journal) listed in
            let done = report_all c env l s in
            let first : Lives k s done.0 = report_all-Lives l s v may in
            let rest = process_accepted-Lives done.0 first.filed in
            elim (Flow-cases done.1) [
              | inl goes ↦
                  simp (loaded, goes, process_response_actions)
                    (Lives-trans k s done.0 (process_accepted c env done.0).0 first rest)
              | inr (e, stops) ↦ simp (loaded, stops, process_response_actions) first
            ]
      ]
