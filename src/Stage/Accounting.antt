-- ===== src/Stage/Accounting.antt =====
-- The counters that `Stage` reports.
use seagull_agent.Stage.Evict.{evict-count}
use seagull_agent.Stage.Invariant.{IsValid, stage_one-IsValid}
use seagull_agent.Stage.{Stage, StageResult, admit, stage_one, stage_all, stage, no_result}
use seagull_agent.Protocol.Action.{ResponseAction}
use seagull_agent.Prelude.{ℕ, ◌+◌, ◌≡◌, refl, ◌⊎◌, String, inl, inr, List, [], ◌∷◌, arith, length}

-- `out'` accounts for `n` more actions than `out`, given the queues before and after them.
abbrev pub Accounts : ℕ → Stage → StageResult → Stage → StageResult → Type 0
Accounts n s out s' out' =
    (out'.added + out'.ignored ≡ out.added + out.ignored + n)
    × (length s'.items + out'.dropped + out.added ≡ length s.items + out.dropped + out'.added)

module _ (now : ℕ) (expected : String) where
  stage_one-Accounts :
      (s : Stage) (out : StageResult) (a : ResponseAction)
      → IsValid s
      → Accounts 1 s out (stage_one now expected s out a).0 (stage_one now expected s out a).1
  unfolding stage_one admit
  stage_one-Accounts s out a v = ground (arith, evict-count s.max s.order s.items 0 v.distinct)

  stage_all-Accounts :
      (s : Stage) (out : StageResult) (actions : List ResponseAction)
      → IsValid s
      → Accounts
          (length actions)
          s
          out
          (stage_all now expected s out actions).0
          (stage_all now expected s out actions).1
  unfolding stage_all
  stage_all-Accounts s out [] v = omega arith
  stage_all-Accounts s out (a ∷ actions) v =
      let s' = (stage_one now expected s out a).0 in
      let out' = (stage_one now expected s out a).1 in
      omega (
        arith,
        stage_one-Accounts s out a v,
        stage_all-Accounts s' out' actions (stage_one-IsValid now expected s out a v),
      )

  stage_all-pending :
      (s : Stage) (out : StageResult) (actions : List ResponseAction)
      → (stage_all now expected s out actions).1.pending
        ≡ length (stage_all now expected s out actions).0.items
  unfolding stage_all
  stage_all-pending s out [] = refl
  stage_all-pending s out (a ∷ actions) =
      stage_all-pending (stage_one now expected s out a).0 (stage_one now expected s out a).1
        actions

  -- Every action of a call of Stage is added or ignored, none is counted twice, and the queue
  -- grows by what was added less what was dropped, on a well-formed queue; the pending count that
  -- a non-empty call reports is the length of the queue.
  pub stage_accounts :
      (s : Stage) (actions : List ResponseAction)
      → IsValid s
      → ((stage now actions expected s).1.added + (stage now actions expected s).1.ignored
          ≡ length actions)
        × (length (stage now actions expected s).0.items + (stage now actions expected s).1.dropped
            ≡ length s.items + (stage now actions expected s).1.added)
        × ((actions ≡ [])
            ⊎ ((stage now actions expected s).1.pending
                ≡ length (stage now actions expected s).0.items))
  unfolding stage
  stage_accounts s [] v = (refl, refl, inl refl)
  stage_accounts s (a ∷ actions) v =
      let both = stage_all-Accounts s no_result (a ∷ actions) v in
      (omega (arith, both), omega (arith, both), inr (stage_all-pending s no_result (a ∷ actions)))
