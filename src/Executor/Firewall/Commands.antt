-- ===== src/Executor/Firewall/Commands.antt =====
-- executor.go: the commands of block_outbound_ip and unblock_outbound_ip. A command changes the
-- world `W` of the firewall and answers with its output and its error, if it has one. The text of an
-- error is cut to 512 characters, which are bytes for the tools' ASCII output.
use Prim.Native.String.{[] as no_text, ◌∷◌ as cons_char}
use seagull_agent.Prelude.{
  ℕ, zero, suc, ◌+◌, ℤ, String, str_eq, str_append, trim_space, to_lower, split_on, fields,
  contains, has_prefix, atoi, itoa, take_bytes, byte_length, Bool, not, ◌||◌, ◌&&◌, Option, none,
  some, List, [], ◌∷◌, ◌++◌, ltb, if◌then◌else◌, pos, negsuc,
}
use seagull_agent.Assoc.{member}
use seagull_agent.Executor.Firewall.{
  FirewallPayload, build_iptables_rule, quoted, nft_family_expr, nft_table_name, nft_chain_name,
}
use seagull_agent.Executor.Outcome.{}

pub record Answer : Type 0 where
  pub output : String
  pub error : Option String

abbrev pub Runner : Type 0 → Type 0
Runner W = String → List String → W → W × Answer

unfoldable pub is_no_matching_rule : String → Bool
is_no_matching_rule output =
    contains "matching rule" (to_lower output)
    || contains "bad rule" (to_lower output)
    || contains "no chain" (to_lower output)

unfoldable pub firewall_err : String → String → String
firewall_err output error =
    let out = trim_space output in
    if str_eq out ""
    then error
    else str_append error
        (str_append ": " (if ltb 512 (byte_length out) then take_bytes 512 out else out))

abbrev pub failed : String → String → String → String
failed what output error = str_append what (str_append " failed: " (firewall_err output error))

abbrev pub decimal_ℤ : ℤ → String
decimal_ℤ (pos n) = itoa n
decimal_ℤ (negsuc n) = str_append "-" (itoa (suc n))

-- The text after the last "handle ".
unfoldable pub after_handle : String → Option String
after_handle no_text = none
after_handle (cons_char c s) =
    let later = after_handle s in
    let here = if has_prefix "handle " (cons_char c s) then some (skip 6 s) else none in
    elim later [ some t ↦ some t | none ↦ here ]
  where
    skip : ℕ → String → String
    skip zero t = t
    skip (suc n) no_text = no_text
    skip (suc n) (cons_char d t) = skip n t

abbrev pub first_handle : List String → Option ℤ
first_handle [] = none
first_handle (w ∷ l) = atoi w

unfoldable pub parse_nft_handle : String → Option ℤ
parse_nft_handle line = elim (after_handle line) [
  | none ↦ none
  | some rest ↦ first_handle (fields (trim_space rest))
]

-- The handles of the lines that pass.
unfoldable pub handles_of : (String → Bool) → List String → List ℤ
handles_of passes [] = []
handles_of passes (line ∷ l) =
    let rest = handles_of passes l in
    if passes line then elim (parse_nft_handle line) [ none ↦ rest | some h ↦ h ∷ rest ] else rest

abbrev pub comment_needle : String → String
comment_needle comment = str_append "comment " (quoted comment)

unfoldable pub parse_nft_handles : String → String → List ℤ
parse_nft_handles output comment =
    handles_of (λ line. contains (comment_needle comment) line) (split_on 10 output)

unfoldable pub address_needle : FirewallPayload → String
address_needle p = str_append (nft_family_expr p.is_v6) (str_append " daddr " p.ip)

unfoldable pub port_needle : FirewallPayload → String
port_needle p =
    if ltb 0 p.port then str_append p.protocol (str_append " dport " (itoa p.port)) else ""

unfoldable pub is_legacy_line : FirewallPayload → String → Bool
is_legacy_line p line =
    contains (comment_needle p.legacy_comment) line
    && contains (address_needle p) line
    && (str_eq (port_needle p) "" || contains (port_needle p) line)

abbrev pub has_legacy : FirewallPayload → Bool
has_legacy p = not (str_eq p.legacy_comment "") && not (str_eq p.legacy_comment p.comment)

unfoldable pub parse_legacy_nft_handles : String → FirewallPayload → List ℤ
parse_legacy_nft_handles output p =
    if has_legacy p then handles_of (is_legacy_line p) (split_on 10 output) else []

-- The loop of `uniqueInts`, with the values that were seen.
unfoldable pub unique_from : List ℤ → List ℤ → List ℤ
unique_from seen [] = []
unique_from seen (v ∷ l) =
    let skipped = unique_from seen l in
    let kept = v ∷ unique_from (v ∷ seen) l in if member v seen then skipped else kept

unfoldable pub unique_ints : List ℤ → List ℤ
unique_ints l = unique_from [] l

module _ {W : Type 0} (run : Runner W) where
  -- The loop of `iptablesDeleteComment`, with the rounds that are left and the rules removed so far.
  unfoldable pub delete_rounds : String → List String → ℕ → ℕ → W → W × ℕ × Option String
  delete_rounds bin args zero removed w = (w, removed, none)
  delete_rounds bin args (suc n) removed w =
      let (w', answer) = run bin args w in
      let more = delete_rounds bin args n (suc removed) w' in
      elim answer.error [
        | none ↦ more
        | some e ↦
            if is_no_matching_rule answer.output
            then (w', removed, none)
            else (w', removed, some (failed bin answer.output e))
      ]

  unfoldable pub iptables_delete_comment : FirewallPayload → String → W → W × ℕ × Option String
  iptables_delete_comment p comment w =
      let (bin, args, text) = build_iptables_rule (record p { comment = comment }) "-D" in
      delete_rounds bin args 128 0 w

  unfoldable pub iptables_delete_loop : FirewallPayload → W → W × ℕ × Option String
  iptables_delete_loop p w =
      let (w', removed, error) = iptables_delete_comment p p.comment w in
      let (w'', legacy, legacy_error) = iptables_delete_comment p p.legacy_comment w' in
      elim error [
        | some e ↦ (w', removed, some e)
        | none ↦ if has_legacy p then (w'', removed + legacy, legacy_error) else (w', removed, none)
      ]

  -- The loop over the handles: the deletes that succeed.
  unfoldable pub delete_handles : List ℤ → ℕ → W → W × ℕ
  delete_handles [] removed w = (w, removed)
  delete_handles (h ∷ l) removed w =
      let (w', answer) =
        run "nft"
          ("delete"
            ∷ "rule"
            ∷ "inet"
            ∷ nft_table_name
            ∷ nft_chain_name
            ∷ "handle"
            ∷ decimal_ℤ h
            ∷ [])
          w in
      delete_handles l (elim answer.error [ none ↦ suc removed | some e ↦ removed ]) w'

  unfoldable pub nft_delete_by_comment : FirewallPayload → W → W × ℕ × Option String
  nft_delete_by_comment p w =
      let (w', answer) =
        run "nft" ("-a" ∷ "list" ∷ "chain" ∷ "inet" ∷ nft_table_name ∷ nft_chain_name ∷ []) w in
      let lower = to_lower answer.output in
      let (w'', removed) =
        delete_handles
          (unique_ints
            (parse_nft_handles answer.output p.comment ++ parse_legacy_nft_handles answer.output p))
          0 w' in
      elim answer.error [
        | none ↦ (w'', removed, none)
        | some e ↦
            if is_no_matching_rule answer.output
              || contains "does not exist" lower
              || contains "no such file" lower
            then (w', 0, none)
            else (w', 0, some (failed "nft list" answer.output e))
      ]

  unfoldable pub ensure_nft_chain : W → W × Option String
  ensure_nft_chain w =
      let (w1, listed) =
        run "nft" ("list" ∷ "chain" ∷ "inet" ∷ nft_table_name ∷ nft_chain_name ∷ []) w in
      let (w2, table) = run "nft" ("add" ∷ "table" ∷ "inet" ∷ nft_table_name ∷ []) w1 in
      let (w3, chain) =
        run "nft"
          ("add" ∷ "chain" ∷ "inet" ∷ nft_table_name ∷ nft_chain_name ∷ "{" ∷ "type" ∷ "filter"
            ∷ "hook" ∷ "output" ∷ "priority" ∷ "0" ∷ ";" ∷ "policy" ∷ "accept" ∷ ";" ∷ "}" ∷ [])
          w2 in
      elim listed.error [
        | none ↦ (w1, none)
        | some e ↦ elim table.error [
          | some f ↦ (w2, some (failed "nft add table" table.output f))
          | none ↦ elim chain.error [
            | some g ↦ (w3, some (failed "nft add chain" chain.output g))
            | none ↦ (w3, none)
          ]
        ]
      ]
