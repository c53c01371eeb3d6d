-- ===== src/Executor/Execute/Actions.antt =====
-- executor.go: the handlers that `Execute` calls for the privileged actions, as the switch calls
-- them. The other four collect or call back, and are parameters.
use seagull_agent.Prelude.{String, Bool, Option, none, some, List}
use seagull_agent.Executor.Execute.{
  Kind, kill_process, block_outbound_ip, unblock_outbound_ip, quarantine_file, run_shell_command,
  Handled, Handlers,
}
use seagull_agent.Executor.Firewall.{FirewallRequest, IpAddress}
use seagull_agent.Executor.Firewall.Block.{
  FirewallReport, run_block_outbound_ip, run_unblock_outbound_ip,
}
use seagull_agent.Executor.Firewall.Commands.{Runner}
use seagull_agent.Executor.Kill.{KillRequest, Host}
use seagull_agent.Executor.Kill.Targets.{KillReport, run_kill_process}
use seagull_agent.Executor.Outcome.{Outcome, ok, fail}
use seagull_agent.Executor.Quarantine.{QuarantineRequest}
use seagull_agent.Executor.Quarantine.Move.{
  Places, Looks, QuarantineReport, run_quarantine_file as run_quarantine,
}
use seagull_agent.Executor.Shell.{ShellRequest}
use seagull_agent.Executor.Shell.Run.{
  ShellHost, ShellPolicy, ShellReport, run_shell_command as run_shell,
}
use seagull_agent.Protocol.Action.{ResponseAction}

pub data Report : Type 0 where
  killed : KillReport → Report
  firewalled : FirewallReport → Report
  quarantined : QuarantineReport → Report
  shell : ShellReport → Report
  collected : String → Report

-- What the handlers change: the rules of the firewall, and what stands at the paths.
pub record World (F : Type 0) : Type 0 where
  pub firewall : F
  pub places : Places

-- The decoders, what the system answers, and what the agent's configuration says.
pub record Setting (F : Type 0) : Type 0 where
  pub decode_kill : String → Outcome KillRequest
  pub decode_firewall : String → Outcome FirewallRequest
  pub decode_quarantine : String → Outcome QuarantineRequest
  pub decode_shell : String → Outcome ShellRequest
  pub encode_arguments : List String → Outcome String
  pub parse_ip : String → Option IpAddress
  pub digest : String → String
  pub host : Host
  pub run : Runner F
  pub installed : String → Bool
  pub firewall_tool : String
  pub looks : Looks
  pub destination : ResponseAction → String → String
  pub quarantine_dir : String
  pub shell_host : ShellHost
  pub shell_policy : ShellPolicy
  pub collect : Kind → ResponseAction → Outcome String

abbrev pub handled : {A : Type 0} → (A → Report) → Outcome A → Handled Report
handled f (ok a) = record { result = some (f a); error = none }
handled f (fail e) = record { result = none; error = some e }

abbrev pub shell_result : Option ShellReport → Option Report
shell_result none = none
shell_result (some r) = some (shell r)

module _ {F : Type 0} (s : Setting F) where
  unfoldable pub collect_handled : Kind → ResponseAction → World F → World F × Handled Report
  collect_handled k a w = (w, handled collected (s.collect k a))

  unfoldable pub handle : Kind → ResponseAction → World F → World F × Handled Report
  handle kill_process a w = (w, handled killed (run_kill_process s.decode_kill s.host a.payload))
  handle block_outbound_ip a w =
      let (f, r) =
        run_block_outbound_ip s.run s.decode_firewall s.parse_ip s.digest s.installed
          s.firewall_tool a.payload w.firewall in
      (record w { firewall = f }, handled firewalled r)
  handle unblock_outbound_ip a w =
      let (f, r) =
        run_unblock_outbound_ip s.run s.decode_firewall s.parse_ip s.digest s.installed
          s.firewall_tool a.payload w.firewall in
      (record w { firewall = f }, handled firewalled r)
  handle quarantine_file a w =
      let (p, r) =
        run_quarantine s.decode_quarantine s.looks (s.destination a) s.quarantine_dir a.payload
          w.places in
      (record w { places = p }, handled quarantined r)
  handle run_shell_command a w =
      let r = run_shell s.decode_shell s.encode_arguments s.shell_host s.shell_policy a.payload in
      (w, record { result = shell_result r.result; error = r.error })
  handle k a w = collect_handled k a w

  abbrev pub handlers : Handlers (World F) Report
  handlers = record { handle = handle }
