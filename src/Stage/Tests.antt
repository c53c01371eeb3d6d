-- ===== src/Stage/Tests.antt =====
-- Runs of the staging queue at concrete inputs.
use seagull_agent.Assoc.{has, find, without, member, remove_all}
use seagull_agent.Prelude.{◌+◌, ℤ, pos, ◌≡◌, refl, ◌⊎◌, false, none, some, List, [], ◌∷◌, length}
use seagull_agent.Protocol.Action.{ResponseAction}
use seagull_agent.Stage.{
  Stage, StagedAction, new_stage, stage, next, mark_handled, foreign, expired, handled_capacity,
  stage_capacity, stage_all, stage_one, admit, is_ignored, next_from, evict,
}
use seagull_agent.Stage.Accounting.{stage_accounts}
use seagull_agent.Stage.Delivery.{next-eq-some, stage-mark_handled}
use seagull_agent.Stage.Invariant.{IsValid, new_stage-IsValid, stage-IsValid}

abbrev action : ResponseAction
action = record {
  id = pos 7;
  action_type = "kill_process";
  agent_id = "agent";
  status = "pending";
  payload = "{}";
  requested_at = 5;
  expires_at = none;
}

abbrev empty : Stage
empty = new_stage (pos 2)

abbrev two : List ResponseAction
two = action ∷ (record action { id = pos 8 }) ∷ []

abbrev filled : Stage
filled = (stage 6 two "agent" empty).0

filled-IsValid : IsValid filled
filled-IsValid = stage-IsValid 6 "agent" empty two (new_stage-IsValid (pos 2))

stage_accounts_example :
    ((stage 6 two "agent" empty).1.added + (stage 6 two "agent" empty).1.ignored ≡ 2)
    × (length filled.items + (stage 6 two "agent" empty).1.dropped
        ≡ length empty.items + (stage 6 two "agent" empty).1.added)
    × ((two ≡ []) ⊎ ((stage 6 two "agent" empty).1.pending ≡ length filled.items))
stage_accounts_example = stage_accounts 6 "agent" empty two (new_stage-IsValid (pos 2))

abbrev first : StagedAction
first = record { action = action; staged_at = 6 }

first_out : (next 9 "agent" filled).1 ≡ some first
unfolding next stage new_stage handled_capacity stage_capacity stage_all stage_one admit is_ignored
    next_from foreign expired has find without member remove_all evict
first_out = refl

next-eq-some_example :
    (id : ℤ) × (find id filled.items ≡ some first)
    × (foreign "agent" action ≡ false)
    × (expired 9 action ≡ false)
    × (member id filled.handled_set ≡ false)
next-eq-some_example = next-eq-some 9 "agent" filled first filled-IsValid first_out

nothing_out : (next 9 "agent" empty).1 ≡ none
unfolding next new_stage handled_capacity stage_capacity next_from
nothing_out = refl

stage-mark_handled_example :
    has (pos 7) (stage 9 two "agent" (mark_handled (pos 7) filled)).0.items ≡ false
stage-mark_handled_example = stage-mark_handled 9 "agent" (pos 7) filled two filled-IsValid refl
