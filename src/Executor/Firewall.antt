-- ===== src/Executor/Firewall.antt =====
-- executor.go: the payload of block_outbound_ip and unblock_outbound_ip, and the rules that are made
-- of it. `parse_ip` is net.ParseIP, and `digest` the first six bytes of the SHA-256 sum in
-- hexadecimal.
pub mod Parsed
pub mod Commands
pub mod Block
pub mod Removal
use Prim.Native.Char.{code}
use Prim.Native.String.{[] as no_text, ◌∷◌ as cons_char}
use seagull_agent.Prelude.{
  ℕ, ◌-◌, ℤ, pos, pos_part, ltb_ℤ, String, str_eq, str_append, trim_space, to_lower, is_blank, join,
  itoa, take_bytes, byte_length, Bool, true, false, not, ◌||◌, ◌&&◌, Option, none, some, List, [],
  ◌∷◌, ◌++◌, ltb, leb, ◌==◌, if◌then◌else◌,
}
use seagull_agent.Executor.Outcome.{
  Outcome, ok, fail, ◌>>=◌, ◌>>◌, refuse, require, or_else, no_payload,
}

pub record FirewallPayload : Type 0 where
  pub ip : String
  pub is_v6 : Bool
  pub port : ℕ
  pub protocol : String
  pub comment : String
  pub legacy_comment : String
  pub dry_run : Bool

-- The struct that the payload is decoded into.
pub record FirewallRequest : Type 0 where
  pub ip : Option String
  pub port : Option ℤ
  pub protocol : Option String
  pub comment : Option String
  pub dry_run : Option Bool

-- A parsed address: how it is printed, and whether it has no four-byte form.
pub record IpAddress : Type 0 where
  pub text : String
  pub is_v6 : Bool

unfoldable pub checked_protocol : Option String → Outcome String
checked_protocol none = ok ""
checked_protocol (some raw) =
    let protocol = to_lower (trim_space raw) in
    if not (str_eq protocol "") && not (str_eq protocol "tcp") && not (str_eq protocol "udp")
    then fail "payload.protocol must be tcp or udp"
    else ok protocol

-- The port, and the protocol with its default.
unfoldable pub checked_port : String → Option ℤ → Outcome (ℕ × String)
checked_port protocol none = ok (0, protocol)
checked_port protocol (some port) =
    if ltb_ℤ port (pos 1) || ltb_ℤ (pos 65535) port
    then fail "payload.port must be between 1 and 65535"
    else ok (pos_part port, if str_eq protocol "" then "tcp" else protocol)

-- a-z, A-Z, 0-9, and `_`, `.`, `:`, `-`
unfoldable pub is_comment_code : ℕ → Bool
is_comment_code c =
    (leb 97 c && leb c 122)
    || (leb 65 c && leb c 90)
    || (leb 48 c && leb c 57)
    || c == 95
    || c == 46
    || c == 58
    || c == 45

unfoldable pub comment_part : String → String
comment_part no_text = no_text
comment_part (cons_char c s) =
    let rest = comment_part s in if is_comment_code (code c) then cons_char c rest else rest

abbrev pub default_comment : String
default_comment = "seagull_block"

unfoldable pub sanitize_firewall_comment : Option String → String
sanitize_firewall_comment none = default_comment
sanitize_firewall_comment (some raw) =
    let kept = comment_part (trim_space raw) in
    if str_eq kept ""
    then default_comment
    else if ltb 64 (byte_length kept)
    then take_bytes 64 kept
    else kept

-- fmt.Sprintf("%s|%s|%s|%d", …)
abbrev pub scope_text : String → String → String → ℕ → String
scope_text label ip protocol port = join "|" (label ∷ ip ∷ protocol ∷ itoa port ∷ [])

unfoldable pub with_suffix : String → String → String
with_suffix label suffix =
    let max_label = 64 - byte_length suffix - 1 in
    str_append (if ltb max_label (byte_length label) then take_bytes max_label label else label)
      (str_append "_" suffix)

unfoldable pub scoped_firewall_comment : (String → String) → String → String → String → ℕ → String
unfolding with_suffix
scoped_firewall_comment digest label ip protocol port =
    with_suffix label (digest (scope_text label ip protocol port))

abbrev pub is_given : Option String → Bool
is_given none = false
is_given (some s) = not (is_blank s)

unfoldable pub parse_firewall_payload :
    (String → Outcome FirewallRequest)
    → (String → Option IpAddress)
    → (String → String)
    → String
    → Outcome FirewallPayload
parse_firewall_payload decode parse_ip digest raw = do
  refuse (no_payload raw) "payload.ip is required"
  let request = (← decode raw)
  refuse (not (is_given request.ip)) "payload.ip is required"
  let ip =
      (← require (parse_ip (trim_space (or_else "" request.ip)))
        "payload.ip is not a valid IP address")
  let named = (← checked_protocol request.protocol)
  let (port, protocol) = (← checked_port named request.port)
  refuse (not (str_eq protocol "") && port == 0) "payload.protocol requires payload.port"
  let label = sanitize_firewall_comment request.comment
  ok (record {
    ip = ip.text;
    is_v6 = ip.is_v6;
    port = port;
    protocol = protocol;
    comment = scoped_firewall_comment digest label ip.text protocol port;
    legacy_comment = label;
    dry_run = or_else false request.dry_run;
  })

abbrev pub iptables_binary : Bool → String
iptables_binary is_v6 = if is_v6 then "ip6tables" else "iptables"

abbrev pub space : String
space = " "

-- A command: the binary, its arguments, and both in one line.
abbrev pub command_line : String → List String → String × List String × String
command_line binary args = (binary, args, join space (binary ∷ args))

unfoldable pub port_match : FirewallPayload → List String
port_match p = if ltb 0 p.port then "--dport" ∷ itoa p.port ∷ [] else []

unfoldable pub protocol_match : FirewallPayload → List String
protocol_match p = if str_eq p.protocol "" then [] else "-p" ∷ p.protocol ∷ port_match p

unfoldable pub build_iptables_rule : FirewallPayload → String → String × List String × String
build_iptables_rule p op = command_line (iptables_binary p.is_v6) (
    (op ∷ "OUTPUT" ∷ "-d" ∷ p.ip ∷ [])
    ++ protocol_match p
    ++ ("-j" ∷ "DROP" ∷ "-m" ∷ "comment" ∷ "--comment" ∷ p.comment ∷ []))

abbrev pub nft_table_name : String
nft_table_name = "seagull"

abbrev pub nft_chain_name : String
nft_chain_name = "output"

abbrev pub nft_family_expr : Bool → String
nft_family_expr is_v6 = if is_v6 then "ip6" else "ip"

-- %q, of a comment: its characters stand for themselves.
abbrev pub quoted : String → String
quoted s = str_append "\"" (str_append s "\"")

unfoldable pub build_nft_add_rule : FirewallPayload → String × List String × String
build_nft_add_rule p = command_line "nft" (
    ("add"
      ∷ "rule"
      ∷ "inet"
      ∷ nft_table_name
      ∷ nft_chain_name
      ∷ nft_family_expr p.is_v6
      ∷ "daddr"
      ∷ p.ip
      ∷ [])
    ++ (if not (str_eq p.protocol "") && ltb 0 p.port
        then p.protocol ∷ "dport" ∷ itoa p.port ∷ []
        else [])
    ++ ("drop" ∷ "comment" ∷ quoted p.comment ∷ []))
