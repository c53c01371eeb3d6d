-- ===== src/Renewal/Steps.antt =====
-- certrenew.go: the steps that change the files. Each ends in one of four ways, and a crash stops
-- the program before the step.
use seagull_agent.Prelude.{ℕ, suc, String, Option}

pub record Files : Type 0 where
  pub cert : Option String
  pub key : Option String
  pub cert_next : Option String
  pub key_next : Option String
  pub cert_previous : Option String
  pub key_previous : Option String
  pub transaction : Option String

-- `unsynced` has changed the files and gives an error.
pub data Fate : Type 0 where
  works fails unsynced crashes : Fate

pub record State : Type 0 where
  pub files : Files
  pub clock : ℕ

pub data Answer : Type 0 where
  good bad stopped : Answer

abbrev pub after : Fate → (Files → Files) → State → State × Answer
after works f s = (record { files = f s.files; clock = suc s.clock }, good)
after fails f s = (record s { clock = suc s.clock }, bad)
after unsynced f s = (record { files = f s.files; clock = suc s.clock }, bad)
after crashes f s = (record s { clock = suc s.clock }, stopped)

unfoldable pub op : (ℕ → Fate) → (Files → Files) → State → State × Answer
op fates f s = after (fates s.clock) f s

-- `if err := …; err != nil { return err }`
unfoldable pub and_then : State × Answer → (State → State × Answer) → State × Answer
and_then (s, good) k = k s
and_then (s, bad) k = (s, bad)
and_then (s, stopped) k = (s, stopped)

abbrev pub with_error : State × Answer → State × Answer
with_error (s, good) = (s, bad)
with_error (s, bad) = (s, bad)
with_error (s, stopped) = (s, stopped)

-- `if err := …; err != nil { …; return err }`
unfoldable pub on_error : State × Answer → (State → State × Answer) → State × Answer
on_error (s, good) k = (s, good)
on_error (s, bad) k = with_error (k s)
on_error (s, stopped) k = (s, stopped)

-- An error is kept, and what follows is done all the same.
unfoldable pub and_also : State × Answer → (State → State × Answer) → State × Answer
and_also (s, good) k = k s
and_also (s, bad) k = with_error (k s)
and_also (s, stopped) k = (s, stopped)
