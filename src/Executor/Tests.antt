-- ===== src/Executor/Tests.antt =====
-- Runs of the executor at concrete inputs.
use seagull_agent.Prelude.{
  ℕ, zero, suc, ◌<◌, pos, eq_ℤ, String, ◌≡◌, ◌≢◌, refl, true, false, Option, none, some, List, [],
  ◌∷◌, arith, byte_length, to_lower, contains, has_prefix, rune_bytes, if◌then◌else◌,
}
use seagull_agent.Executor.Execute.{ExecuteOptions, execute}
use seagull_agent.Executor.Execute.Actions.{Setting, World, handlers}
use seagull_agent.Executor.Execute.Gates.{IsExecution, execute-IsExecution}
use seagull_agent.Executor.Firewall.{
  FirewallPayload, FirewallRequest, IpAddress, parse_firewall_payload, build_iptables_rule,
}
use seagull_agent.Executor.Firewall.Block.{}
use seagull_agent.Executor.Firewall.Commands.{
  Runner, Answer, is_no_matching_rule, iptables_delete_comment,
}
use seagull_agent.Executor.Firewall.Parsed.{IsRule, parse_firewall_payload-IsRule}
use seagull_agent.Executor.Firewall.Removal.{Deletes, iptables_delete_comment-removed}
use seagull_agent.Executor.Kill.{KillRequest, Host}
use seagull_agent.Executor.Outcome.{Outcome, ok, Holds}
use seagull_agent.Executor.Quarantine.{QuarantineFilePayload, QuarantineRequest}
use seagull_agent.Executor.Quarantine.Kept.{IsKept, run_quarantine_file-IsKept}
use seagull_agent.Executor.Quarantine.Move.{
  Entry, report, move_target, copy_quarantine_target, fill_dest, finish_quarantine, Places, Looks,
  run_quarantine_file,
}
use seagull_agent.Executor.Quarantine.Protected.{}
use seagull_agent.Executor.Shell.{ShellRequest}
use seagull_agent.Executor.Shell.Allowed.{IsGuarded, run_shell_command-IsGuarded}
use seagull_agent.Executor.Shell.Bounded.{
  bounded, write_all, empty_output, concat, write_all-bounded,
}
use seagull_agent.Executor.Shell.Run.{finished, ShellHost, ShellPolicy, run_shell_command}
use seagull_agent.Protocol.Action.{ResponseAction}

-- Two processes besides the agent, 40, and its parent, 1; the name of 12 is `miner`.
abbrev host : Host
host = record {
  self = pos 40;
  parent_pid = pos 30;
  proc = ok (record { is_dir = true; name = "12" } ∷ record { is_dir = true; name = "40" } ∷ []);
  comm = λ pid. if eq_ℤ pid (pos 12) then some "miner\n" else none;
  cmdline = λ pid. none;
  kill = λ pid signal. none;
}

abbrev kill_by_name : String → Outcome KillRequest
kill_by_name raw =
    ok (record { pid = none; name = some "miner"; signal = some "kill"; dry_run = none })

write_all-bounded_example :
    write_all ((104 ∷ 105 ∷ []) ∷ (10 ∷ []) ∷ []) empty_output
    ≡ bounded 1048576 (concat ((104 ∷ 105 ∷ []) ∷ (10 ∷ []) ∷ []))
write_all-bounded_example = write_all-bounded ((104 ∷ 105 ∷ []) ∷ (10 ∷ []) ∷ [])

abbrev shell_host : ShellHost
shell_host = record {
  look_path = λ s. ok "/usr/bin/id";
  absolute = λ s. ok s;
  eval_symlinks = λ s. ok s;
  stat = λ s. ok (record { is_regular = true; permissions = 493 });
  quote = λ s. s;
  run = λ c. record {
    stdout = (117 ∷ []) ∷ [];
    stderr = [];
    ending = finished;
    timed_out = false;
    duration_ms = 3;
  };
}

abbrev shell_policy : ShellPolicy
shell_policy = record { allow_shell_exec = true; shell_exec_allowlist = "/usr/bin/id" ∷ [] }

abbrev run_id : String → Outcome ShellRequest
run_id raw = ok (record {
  command = some "id -u";
  arguments = none;
  timeout_seconds = none;
  working_dir = none;
})

abbrev encode : List String → Outcome String
encode l = ok "[\"id\",\"-u\"]"

run_shell_command-IsGuarded_example :
    IsGuarded shell_host shell_policy
      (run_shell_command run_id encode shell_host shell_policy "{\"command\":\"id -u\"}")
run_shell_command-IsGuarded_example =
    run_shell_command-IsGuarded run_id encode shell_host shell_policy "{\"command\":\"id -u\"}"

abbrev looks : Looks
looks = record {
  at_lstat = some (record { identity = 5; is_regular = true; permissions = 420; content = 1 ∷ [] });
  at_open = some (record { identity = 5; is_regular = true; permissions = 420; content = 1 ∷ [] });
  at_revalidation =
      some (record { identity = 5; is_regular = true; permissions = 420; content = 1 ∷ [] });
  can_open = true;
  can_stat = true;
  at_removal =
      some (record { identity = 5; is_regular = true; permissions = 420; content = 1 ∷ 2 ∷ [] });
  hash = λ l. some "4bf5";
  hashed_bytes = 1 ∷ [];
  can_prepare = true;
  prepared_is_dir = true;
  can_seek = true;
  can_create = true;
  can_copy = true;
  partly_copied = [];
  copied = 1 ∷ 2 ∷ [];
  can_sync_output = true;
  can_chmod = true;
  can_close = true;
  can_sync_dest = true;
  can_clean = true;
  can_remove = true;
  can_sync_source = true;
  identity_of_dest = 6;
}

abbrev places : Places
places = record { removed = none; dest = none }

abbrev quarantine_tmp : String → Outcome QuarantineRequest
quarantine_tmp raw =
    ok (record { path = some "/tmp/x/../bad"; compute_hash = none; dry_run = none })

abbrev in_dir : String → String
in_dir dir = "/var/lib/seagull/quarantine/action-00000000000000000007.quar"

run_quarantine_file-IsKept_example :
    IsKept looks places (run_quarantine_file quarantine_tmp looks in_dir "" "{}" places)
run_quarantine_file-IsKept_example =
    run_quarantine_file-IsKept quarantine_tmp looks in_dir "" "{}" places

-- Another file comes to the path after the last look at it: it is taken, and the destination holds
-- the bytes of the first.
abbrev swapped : Looks
swapped = record looks {
  at_removal =
      some (record { identity = 9; is_regular = true; permissions = 420; content = 3 ∷ [] });
}

abbrev quarantine_payload : QuarantineFilePayload
quarantine_payload = record { path = "/tmp/bad"; compute_hash = true; dry_run = false }

abbrev opened : Entry
opened = record { identity = 5; is_regular = true; permissions = 420; content = 1 ∷ [] }

swap-taken :
    let r = move_target swapped opened (report quarantine_payload "d" opened none) places in
    (r.0.removed ≡ swapped.at_removal)
    × (r.0.dest
        ≡ some (record { identity = 6; is_regular = true; permissions = 0; content = 1 ∷ 2 ∷ [] }))
unfolding move_target copy_quarantine_target fill_dest finish_quarantine
swap-taken = (refl, refl)

abbrev block_dns : String → Outcome FirewallRequest
block_dns raw = ok (record {
  ip = some "192.0.2.7";
  port = some (pos 53);
  protocol = some "UDP";
  comment = some "case 12";
  dry_run = none;
})

abbrev parse_ip : String → Option IpAddress
parse_ip s = some (record { text = s; is_v6 = false })

abbrev digest : String → String
digest s = "0123456789ab"

twelve : (s : String) → byte_length (digest s) ≡ 12
unfolding byte_length rune_bytes
twelve s = refl

parse_firewall_payload-IsRule_example :
    Holds IsRule (parse_firewall_payload block_dns parse_ip digest "{\"port\":53}")
parse_firewall_payload-IsRule_example =
    parse_firewall_payload-IsRule block_dns parse_ip digest "{\"port\":53}" twelve

-- A firewall that only counts the copies of one rule.
abbrev delete_one : ℕ → ℕ × Answer
delete_one zero = (
  0,
  record {
    output = "iptables: Bad rule (does a matching rule exist in that chain?).";
    error = some "exit status 1";
  },
)
delete_one (suc n) = (n, record { output = ""; error = none })

abbrev counting : Runner ℕ
counting bin args n = delete_one n

abbrev rule : FirewallPayload
rule = record {
  ip = "192.0.2.7";
  is_v6 = false;
  port = 53;
  protocol = "udp";
  comment = "case12_0123456789ab";
  legacy_comment = "case12";
  dry_run = false;
}

abbrev binary : String
binary = (build_iptables_rule rule "-D").0

abbrev delete_rule : List String
delete_rule = (build_iptables_rule rule "-D").1

tells : is_no_matching_rule "iptables: Bad rule (does a matching rule exist in that chain?)." ≡ true
unfolding is_no_matching_rule to_lower contains has_prefix
tells = refl

counting-removes :
    (n : ℕ)
    → 0 < n
    → ((counting binary delete_rule n).1.error ≡ none) × (n ≡ suc (counting binary delete_rule n).0)
counting-removes zero h = absurd (omega (arith, h))
counting-removes (suc n) h = (refl, refl)

counting-reports :
    (n : ℕ)
    → n ≡ 0
    → ((counting binary delete_rule n).1.error ≢ none)
      × (is_no_matching_rule (counting binary delete_rule n).1.output ≡ true)
      × ((counting binary delete_rule n).0 ≡ 0)
counting-reports zero h = ((λ e. cc e), tells, refl)
counting-reports (suc n) h = absurd (omega (arith, h))

counting-Deletes : Deletes counting binary delete_rule (λ n. n)
counting-Deletes = record { removes = counting-removes; reports = counting-reports }

iptables_delete_comment-removed_example :
    ((iptables_delete_comment counting rule "case12_0123456789ab" 3).1 ≡ 3)
    × ((iptables_delete_comment counting rule "case12_0123456789ab" 3).0 ≡ 0)
    × ((iptables_delete_comment counting rule "case12_0123456789ab" 3).2 ≡ none)
iptables_delete_comment-removed_example =
    iptables_delete_comment-removed counting (λ n. n) rule "case12_0123456789ab" 3 counting-Deletes
      (omega arith)

abbrev dry_rule : FirewallPayload
dry_rule = record rule { dry_run = true }

abbrev setting : Setting ℕ
setting = record {
  decode_kill = kill_by_name;
  decode_firewall = block_dns;
  decode_quarantine = quarantine_tmp;
  decode_shell = run_id;
  encode_arguments = encode;
  parse_ip = parse_ip;
  digest = digest;
  host = host;
  run = counting;
  installed = λ name. true;
  firewall_tool = "iptables";
  looks = looks;
  destination = λ a dir. in_dir dir;
  quarantine_dir = "";
  shell_host = shell_host;
  shell_policy = shell_policy;
  collect = λ k a. ok "{}";
}

abbrev world : World ℕ
world = record { firewall = 1; places = places }

abbrev action : ResponseAction
action = record {
  id = pos 7;
  action_type = " Unblock_Outbound_IP ";
  agent_id = "agent";
  status = "pending";
  payload = "{\"port\":53}";
  requested_at = 5;
  expires_at = none;
}

abbrev options : ExecuteOptions
options = record { expected_agent_id = "agent"; profile = "managed"; now = 9 }

execute-IsExecution_example :
    IsExecution options action world (execute (handlers setting) options action world)
execute-IsExecution_example = execute-IsExecution (handlers setting) options action world
