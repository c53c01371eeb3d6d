-- ===== src/Control/Reporting.antt =====
-- controlplane.go: `reportTerminalResponseAction` and the life of an action.
use seagull_agent.Prelude.{ℤ, eq_ℤ, refl, ◌∙◌, inl, inr, Bool-cases, Option-cases}
use seagull_agent.Control.{Env, Config, Service, delete_delivered, report_terminal}
use seagull_agent.Control.Lifecycle.{◌⟶*◌, here, ⟶*-trans, life, count}
use seagull_agent.Control.Moves.{Moves, delete-Moves, delete-phase, IsDeletable}
use seagull_agent.Executor.Execute.{}
use seagull_agent.Journal.Filed.{}
use seagull_agent.Journal.Operations.{delete}
use seagull_agent.Journal.Phases.{IsFiled}
use seagull_agent.Journal.State.{JournalRecord, Journal, Disk}
use seagull_agent.Journal.Transitions.{}
use seagull_agent.Protocol.Action.{}
use seagull_agent.Stage.{}

-- A run of the service keeps the journal's files in place, and moves the action `k` along its life.
pub record Lives {W : Type 0} (k : ℤ) (s s' : Service W) : Type 0 where
  pub filed : IsFiled s'.journal
  pub path : life k s ⟶* life k s'

pub Lives-refl : {W : Type 0} (k : ℤ) (s : Service W) → IsFiled s.journal → Lives k s s
Lives-refl k s v = record { filed = v; path = here (life k s) }

pub Lives-trans : {W : Type 0} (k : ℤ) (s t u : Service W) → Lives k s t → Lives k t u → Lives k s u
Lives-trans k s t u a b = record { filed = b.filed; path = ⟶*-trans a.path b.path }

-- What may be deleted stays so.
abbrev pub KeepsDeletable : Journal → Journal → Type 0
KeepsDeletable j j' = (id : ℤ) → IsDeletable id j → IsDeletable id j'

delete-KeepsDeletable : (d : Disk) (id : ℤ) (j : Journal) → KeepsDeletable j (delete d id j).0
delete-KeepsDeletable d id j k may = elim (delete-phase d id j k) [
  | inr same ↦ rw same may
  | inl gone ↦ elim (Bool-cases (eq_ℤ id k)) [
    | inl this ↦ inr (gone ∙ rw this refl)
    | inr other ↦ elim may [
      | inl done ↦ inl (gone ∙ rw other done)
      | inr empty ↦ inr (gone ∙ rw other empty)
    ]
  ]
]

module _ {W R : Type 0} (c : Config) (env : Env W R) (k : ℤ) where
  pub record Reported (s s' : Service W) : Type 0 where
    pub lives : Lives k s s'
    pub keeps : KeepsDeletable s.journal s'.journal

  unreported : (s : Service W) → IsFiled s.journal → Reported s s
  unreported s v = record { lives = Lives-refl k s v; keeps = λ id may. may }

  delete_delivered-Reported :
      (id : ℤ) (s : Service W)
      → IsFiled s.journal
      → IsDeletable id s.journal
      → Reported s (delete_delivered c env id s).0
  unfolding delete_delivered
  delete_delivered-Reported id s v may =
      let d = env.disk s.tick in
      let m : Moves k s.journal (delete d id s.journal).0 = delete-Moves d id s.journal k v may in
      let lives = m.path (count k s.executed) in
      let keeps = delete-KeepsDeletable d id s.journal in
      elim (Option-cases (delete d id s.journal).1) [
        | inr (e, bad) ↦
            simp (bad, delete_delivered)
              (record { lives = record { filed = m.filed; path = lives }; keeps = keeps })
        | inl fine ↦
            simp (fine, delete_delivered)
              (record { lives = record { filed = m.filed; path = lives }; keeps = keeps })
      ]

  pub report_terminal-Reported :
      (r : JournalRecord) (s : Service W)
      → IsFiled s.journal
      → IsDeletable r.action.id s.journal
      → Reported s (report_terminal c env r s).0
  unfolding report_terminal
  report_terminal-Reported r s v may = elim (Option-cases r.result) [
    | inl nothing ↦ simp (nothing, report_terminal) (unreported s v)
    | inr (result, there) ↦ elim (Bool-cases (env.accepts s.tick result)) [
      | inl taken ↦
          simp (there, taken, report_terminal) (delete_delivered-Reported r.action.id s v may)
      | inr refused ↦
          simp (there, refused, report_terminal)
            (record { lives = record { filed = v; path = here (life k s) }; keeps = λ id h. h })
    ]
  ]
