-- ===== src/Executor/Firewall/Removal.antt =====
-- executor.go: what the loops of unblock_outbound_ip remove.
use seagull_agent.Prelude.{
  ℕ, zero, suc, ◌+◌, ◌-◌, ◌≤◌, ◌<◌, ℤ, eq_ℤ_iff, String, str_eq, ◌≡◌, ◌≢◌, refl, ap, ◌∙◌, inl, inr,
  Bool, true, false, not, ◌&&◌, none, List, [], ◌∷◌, arith, Bool-cases, Option-cases, if◌then◌else◌,
  leb,
}
use seagull_agent.Assoc.{member}
use seagull_agent.Executor.Firewall.{FirewallPayload, build_iptables_rule}
use seagull_agent.Executor.Firewall.Block.{
  FirewallReport, block_parsed, unblock_parsed, preview_tool, block_report, unblock_report,
  delete_preview,
}
use seagull_agent.Executor.Firewall.Commands.{
  Runner, is_no_matching_rule, delete_rounds, iptables_delete_comment, unique_from, unique_ints,
}
use seagull_agent.Executor.Outcome.{ok}
use seagull_agent.Stage.Handled.{Distinct, SameMembers}

-- Every value stands once.
unique_from-fresh :
    (l seen : List ℤ) (v : ℤ) → member v (unique_from seen l) ≡ (member v l && not (member v seen))
unfolding unique_from member
unique_from-fresh [] seen v = refl
unique_from-fresh (x ∷ l) seen v =
    ground (arith, unique_from-fresh l seen v, unique_from-fresh l (x ∷ seen) v, eq_ℤ_iff x v)

unique_from-Distinct : (l seen : List ℤ) → Distinct (unique_from seen l)
unfolding unique_from member
unique_from-Distinct [] seen = tt
unique_from-Distinct (x ∷ l) seen = elim (Bool-cases (member x seen)) [
  | inl old ↦ rw old (unique_from-Distinct l seen)
  | inr new ↦ rw new (
    ground (arith, unique_from-fresh l (x ∷ seen) x, eq_ℤ_iff x x),
    unique_from-Distinct l (x ∷ seen),
  )
]

abbrev min : ℕ → ℕ → ℕ
min a b = if leb a b then a else b

-- What iptables documents of `-D`: with a rule that matches it removes one and succeeds; without
-- one it changes nothing and fails, with an output that says so.
pub record Deletes {W : Type 0} (run : Runner W) (bin : String) (args : List String)
    (copies : W → ℕ) : Type 0 where
  pub removes :
      (w : W)
      → 0 < copies w
      → ((run bin args w).1.error ≡ none) × (copies w ≡ suc (copies (run bin args w).0))
  pub reports :
      (w : W)
      → copies w ≡ 0
      → ((run bin args w).1.error ≢ none)
        × (is_no_matching_rule (run bin args w).1.output ≡ true)
        × (copies (run bin args w).0 ≡ 0)

module _ {W : Type 0} (run : Runner W) (bin : String) (args : List String) (copies : W → ℕ)
    (d : Deletes run bin args copies) where
  delete_rounds-removed :
      (n removed : ℕ) (w : W)
      → let r = delete_rounds run bin args n removed w in
        (r.1 ≡ removed + min n (copies w)) × (copies r.0 ≡ copies w - n) × (r.2 ≡ none)
  unfolding delete_rounds
  delete_rounds-removed zero removed w = ground arith
  delete_rounds-removed (suc n) removed w = elim (Bool-cases (leb 1 (copies w))) [
    | inr nothing ↦
        let (refused, told, left) = d.reports w (ground arith) in
        elim (Option-cases (run bin args w).1.error) [
          | inl fine ↦ absurd (refused fine)
          | inr (e, bad) ↦ rw (bad, told, delete_rounds) (ground arith)
        ]
    | inl some_left ↦
        let (fine, fewer) = d.removes w (ground arith) in
        let rest = delete_rounds-removed n (suc removed) (run bin args w).0 in
        rw (fine, delete_rounds) (ground (arith, rest, fewer))
  ]

-- `uniqueInts` keeps the values of its list and each of them once.
pub unique_ints-Distinct : (l : List ℤ) → Distinct (unique_ints l) × SameMembers l (unique_ints l)
unfolding unique_ints member
unique_ints-Distinct l = (unique_from-Distinct l [], λ v. unique_from-fresh l [] v ∙ ground arith)

-- The command that deletes the rule of a payload under a comment, and the one that adds it.
abbrev delete_binary : FirewallPayload → String → String
delete_binary p comment = (build_iptables_rule (record p { comment = comment }) "-D").0

abbrev delete_args : FirewallPayload → String → List String
delete_args p comment = (build_iptables_rule (record p { comment = comment }) "-D").1

-- Where `-D` does what iptables documents, and the firewall has at most 128 copies of the rule of a
-- payload under a comment, deleting that comment removes all of them, counts them, and gives no
-- error.
pub iptables_delete_comment-removed :
    {W : Type 0} (run : Runner W) (copies : W → ℕ) (p : FirewallPayload) (comment : String) (w : W)
    → Deletes run (delete_binary p comment) (delete_args p comment) copies
    → copies w ≤ 128
    → let r = iptables_delete_comment run p comment w in
      (r.1 ≡ copies w) × (copies r.0 ≡ 0) × (r.2 ≡ none)
unfolding iptables_delete_comment
iptables_delete_comment-removed run copies p comment w d h =
    let (count, left, fine) =
      delete_rounds-removed run (delete_binary p comment) (delete_args p comment) copies d 128 0
        w in
    (ground (arith, count), omega (arith, left, h), fine)

only_preview :
    {A : Type 0} (absent dry : Bool) (x y z : A)
    → dry ≡ true
    → (if absent && not dry then x else if dry then y else z) ≡ y
only_preview true dry x y z h = rw h refl
only_preview false dry x y z h = rw h refl

block_parsed_dry :
    {W : Type 0} (run : Runner W) (tool : String) (p : FirewallPayload) (w : W)
    → p.dry_run ≡ true
    → block_parsed run tool p w ≡ (w, ok (block_report (preview_tool tool) p false))
unfolding block_parsed
block_parsed_dry run tool p w h = only_preview (str_eq tool "") p.dry_run _ _ _ h

unblock_parsed_dry :
    {W : Type 0} (run : Runner W) (tool : String) (p : FirewallPayload) (w : W)
    → p.dry_run ≡ true
    → let preview = preview_tool tool in
      unblock_parsed run tool p w ≡ (w, ok (unblock_report preview p (delete_preview preview p) 0))
unfolding unblock_parsed
unblock_parsed_dry run tool p w h = only_preview (str_eq tool "") p.dry_run _ _ _ h

-- A dry run of block_outbound_ip or unblock_outbound_ip runs no command: the firewall stays as it
-- is, and the answer is a report in which no rule is added and none removed.
pub dry_run-unchanged :
    {W : Type 0} (run : Runner W) (tool : String) (p : FirewallPayload) (w : W)
    → p.dry_run ≡ true
    → let block = block_parsed run tool p w in
      let unblock = unblock_parsed run tool p w in
      (block.0 ≡ w)
      × (unblock.0 ≡ w)
      × ((r : FirewallReport) × (block.1 ≡ ok r) × (r.rule_added ≡ false))
      × ((r : FirewallReport) × (unblock.1 ≡ ok r) × (r.rules_removed ≡ 0))
unfolding block_report unblock_report
dry_run-unchanged run tool p w h =
    let block = block_parsed_dry run tool p w h in
    let unblock = unblock_parsed_dry run tool p w h in
    (
      ap (λ r. r.0) block,
      ap (λ r. r.0) unblock,
      (block_report (preview_tool tool) p false, ap (λ r. r.1) block, refl),
      (_, ap (λ r. r.1) unblock, refl),
    )
