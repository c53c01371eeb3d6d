-- ===== src/Executor/Firewall/Block.antt =====
-- executor.go: `DetectFirewallTool`, `resolveFirewallTool`, `runBlockOutboundIP` and
-- `runUnblockOutboundIP`.
use seagull_agent.Prelude.{
  ℕ, String, str_eq, str_append, trim_space, to_lower, Bool, true, false, not, ◌||◌, ◌&&◌, Option,
  none, some, List, [], ◌∷◌, if◌then◌else◌,
}
use seagull_agent.Executor.Firewall.{
  FirewallPayload, FirewallRequest, IpAddress, parse_firewall_payload, build_iptables_rule,
  build_nft_add_rule, quoted,
}
use seagull_agent.Executor.Firewall.Commands.{
  Runner, failed, iptables_delete_loop, nft_delete_by_comment, ensure_nft_chain,
}
use seagull_agent.Executor.Outcome.{Outcome, ok, fail}

-- `installed` is exec.LookPath.
unfoldable pub first_installed : (String → Bool) → List String → String
first_installed installed [] = ""
first_installed installed (name ∷ l) = if installed name then name else first_installed installed l

unfoldable pub detect_firewall_tool : (String → Bool) → String
unfolding first_installed
detect_firewall_tool installed = first_installed installed ("iptables" ∷ "nft" ∷ [])

unfoldable pub resolve_firewall_tool : (String → Bool) → String → String
unfolding detect_firewall_tool
resolve_firewall_tool installed configured =
    let tool = to_lower (trim_space configured) in
    if str_eq tool "iptables" || str_eq tool "nft" then tool else detect_firewall_tool installed

pub record FirewallReport : Type 0 where
  pub firewall_tool : String
  pub rule_text : String
  pub rule_id : String
  pub comment : String
  pub rule_added : Bool
  pub rules_removed : ℕ
  pub dry_run : Bool

-- `previewTool`
unfoldable pub preview_tool : String → String
preview_tool tool = if str_eq tool "" then "iptables" else tool

abbrev pub no_tool : String
no_tool = "no firewall tool available (tried iptables, nft)"

unfoldable pub block_rule : String → FirewallPayload → String × List String × String
block_rule tool p = if str_eq tool "nft" then build_nft_add_rule p else build_iptables_rule p "-A"

unfoldable pub block_report : String → FirewallPayload → Bool → FirewallReport
block_report tool p added = record {
  firewall_tool = tool;
  rule_text = (block_rule tool p).2;
  rule_id = p.comment;
  comment = p.legacy_comment;
  rule_added = added;
  rules_removed = 0;
  dry_run = p.dry_run;
}

-- fmt.Sprintf("nft delete rule inet %s %s handle <match comment %q>", …)
unfoldable pub delete_preview : String → FirewallPayload → String
delete_preview tool p =
    if str_eq tool "nft"
    then str_append "nft delete rule inet seagull output handle <match comment "
        (str_append (quoted p.comment) ">")
    else (build_iptables_rule p "-D").2

-- A dry run has a text for its rule, and a real one the number of rules it removed.
unfoldable pub unblock_report : String → FirewallPayload → String → ℕ → FirewallReport
unblock_report tool p text removed = record {
  firewall_tool = tool;
  rule_text = text;
  rule_id = p.comment;
  comment = p.legacy_comment;
  rule_added = false;
  rules_removed = removed;
  dry_run = p.dry_run;
}

module _ {W : Type 0} (run : Runner W) where
  -- The command that adds the rule.
  unfoldable pub add_rule : String → FirewallPayload → W → W × Outcome FirewallReport
  add_rule tool p w =
      let (bin, args, text) = block_rule tool p in
      let (w', answer) = run bin args w in
      elim answer.error [
        | some e ↦ (w', fail (failed bin answer.output e))
        | none ↦ (w', ok (block_report tool p true))
      ]

  unfoldable pub block_with : String → FirewallPayload → W → W × Outcome FirewallReport
  block_with tool p w =
      let (w', error) = ensure_nft_chain run w in
      let after_chain = add_rule tool p w' in
      let at_once = add_rule tool p w in
      if str_eq tool "nft"
      then elim error [ some e ↦ (w', fail e) | none ↦ after_chain ]
      else at_once

  -- Once the payload is parsed and the tool is known, which is empty if there is none.
  unfoldable pub block_parsed : String → FirewallPayload → W → W × Outcome FirewallReport
  block_parsed tool p w =
      let real = block_with (preview_tool tool) p w in
      if str_eq tool "" && not p.dry_run
      then (w, fail no_tool)
      else if p.dry_run
      then (w, ok (block_report (preview_tool tool) p false))
      else real

  unfoldable pub unblock_with : String → FirewallPayload → W → W × ℕ × Option String
  unblock_with tool p w =
      let by_handle = nft_delete_by_comment run p w in
      let by_rule = iptables_delete_loop run p w in if str_eq tool "nft" then by_handle else by_rule

  unfoldable pub unblock_parsed : String → FirewallPayload → W → W × Outcome FirewallReport
  unblock_parsed tool p w =
      let preview = preview_tool tool in
      let (w', removed, error) = unblock_with preview p w in
      if str_eq tool "" && not p.dry_run
      then (w, fail no_tool)
      else if p.dry_run
      then (w, ok (unblock_report preview p (delete_preview preview p) 0))
      else elim error [
        | some e ↦ (w', fail e)
        | none ↦ (w', ok (unblock_report preview p "" removed))
      ]

  module _ (decode : String → Outcome FirewallRequest) (parse_ip : String → Option IpAddress)
      (digest : String → String) (installed : String → Bool) (configured : String) where
    unfoldable pub run_block_outbound_ip : String → W → W × Outcome FirewallReport
    run_block_outbound_ip raw w = elim (parse_firewall_payload decode parse_ip digest raw) [
      | fail e ↦ (w, fail e)
      | ok p ↦ block_parsed (resolve_firewall_tool installed configured) p w
    ]

    unfoldable pub run_unblock_outbound_ip : String → W → W × Outcome FirewallReport
    run_unblock_outbound_ip raw w = elim (parse_firewall_payload decode parse_ip digest raw) [
      | fail e ↦ (w, fail e)
      | ok p ↦ unblock_parsed (resolve_firewall_tool installed configured) p w
    ]
