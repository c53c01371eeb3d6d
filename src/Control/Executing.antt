-- ===== src/Control/Executing.antt =====
-- controlplane.go: `executeAcceptedResponseAction` and the life of an action.
use seagull_agent.Prelude.{
  suc, ℤ, eq_ℤ, eq_ℤ_iff, ◌≡◌, refl, ap, ◌∙◌, inl, inr, some, ◌∷◌, Bool-cases,
}
use seagull_agent.Control.{
  Env, Config, Service, running_result, execution_result, options_of, run_marked, mark_and_run,
  execute_accepted,
}
use seagull_agent.Control.Lifecycle.{◌⟶*◌, here, further, executes, ⟶*-trans, life, count}
use seagull_agent.Control.Moves.{
  Moves, mark_executing-Moves, complete-Moves, complete-eq-record, IsDeletable,
}
use seagull_agent.Executor.Execute.{execute}
use seagull_agent.Journal.Filed.{}
use seagull_agent.Journal.Operations.{mark_executing, complete}
use seagull_agent.Journal.Phases.{phase_at, IsFiled}
use seagull_agent.Journal.State.{JournalRecord, accepted, terminal}
use seagull_agent.Journal.Transitions.{Result-cases, mark_executing-eq-ok, complete-eq-ok}
use seagull_agent.Protocol.Action.{}
use seagull_agent.Stage.{}
use seagull_agent.Control.Reporting.{Lives, report_terminal-Reported}

module _ {W R : Type 0} (c : Config) (env : Env W R) (k : ℤ) where
  -- From a marked entry on: the action is executed once more.
  run_marked-path :
      (r : JournalRecord) (s : Service W)
      → IsFiled s.journal
      → IsFiled (run_marked c env r s).0.journal
        × ((phase_at k s.journal, count k (r.action.id ∷ s.executed))
            ⟶* life k (run_marked c env r s).0)
  unfolding run_marked
  run_marked-path r s v =
      let d = env.disk s.tick in
      let now = env.now s.tick in
      let ran = execute (env.handlers s.tick) (options_of c env r) r.action s.world in
      let result = execution_result c env r now ran.1 in
      let done = complete d now r.action.id result s.journal in
      let m : Moves k s.journal done.0 = complete-Moves d now r.action.id result s.journal k v in
      let first = m.path (count k (r.action.id ∷ s.executed)) in
      let s' : Service W = record s {
        journal = done.0;
        world = ran.0;
        tick = suc s.tick;
        executed = r.action.id ∷ s.executed;
      } in
      elim (Result-cases done.1) [
        | inl (e, bad) ↦ simp (bad, run_marked) (m.filed, first)
        | inr (ended, good) ↦
            let whole : done ≡ (done.0, inr ended) = ap (λ x. (done.0, x)) good in
            let same_id =
              complete-eq-record d now r.action.id result s.journal done.0 ended v whole in
            let at_end =
              complete-eq-ok d now r.action.id result s.journal done.0 ended r.action.id v whole in
            let finished : phase_at r.action.id done.0 ≡ some terminal =
              at_end.1 ∙ rw ((eq_ℤ_iff r.action.id r.action.id).1 refl) refl in
            let may : IsDeletable ended.action.id done.0 = inl (rw same_id finished) in
            let counted : Service W = record s' { executed_total = suc s.executed_total } in
            let after = report_terminal-Reported c env k ended counted m.filed may in
            simp (good, run_marked) (after.lives.filed, ⟶*-trans first after.lives.path)
      ]

  mark_and_run-Lives :
      (r : JournalRecord) (s : Service W) → IsFiled s.journal → Lives k s (mark_and_run c env r s).0
  unfolding mark_and_run
  mark_and_run-Lives r s v =
      let d = env.disk s.tick in
      let now = env.now s.tick in
      let id = r.action.id in
      let marked = mark_executing d now id s.journal in
      let m : Moves k s.journal marked.0 = mark_executing-Moves d now id s.journal k v in
      let s' : Service W = record s { journal = marked.0; tick = suc s.tick } in
      elim (Result-cases marked.1) [
        | inl (e, bad) ↦
            simp (bad, mark_and_run)
              (record { filed = m.filed; path = m.path (count k s.executed) })
        | inr (entry, good) ↦
            let whole : marked ≡ (marked.0, inr entry) = ap (λ x. (marked.0, x)) good in
            let (before, now_marked) =
              mark_executing-eq-ok d now id s.journal marked.0 entry k v whole in
            let rest = run_marked-path r s' m.filed in
            let start : life k s ⟶* (phase_at k marked.0, count k (id ∷ s.executed)) =
              elim (Bool-cases (eq_ℤ id k)) [
                | inr other ↦ rw (now_marked, other) (here (life k s))
                | inl this ↦
                    let same_id : id ≡ k = (eq_ℤ_iff id k).0 this in
                    let waiting : phase_at k s.journal ≡ some accepted = rw same_id at before in
                    rw (now_marked, this, waiting)
                      (further (executes (count k s.executed)) (here _))
              ] in
            simp (good, mark_and_run) (record { filed = rest.0; path = ⟶*-trans start rest.1 })
      ]

  pub execute_accepted-Lives :
      (r : JournalRecord) (s : Service W)
      → IsFiled s.journal
      → Lives k s (execute_accepted c env r s).0
  unfolding execute_accepted
  execute_accepted-Lives r s v = elim (Bool-cases (env.accepts s.tick (running_result c env r))) [
    | inl told ↦ simp (told, execute_accepted) (mark_and_run-Lives r s v)
    | inr refused ↦ simp (refused, execute_accepted) (record { filed = v; path = here (life k s) })
  ]
