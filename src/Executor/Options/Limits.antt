-- ===== src/Executor/Options/Limits.antt =====
-- executor.go: the limits of the two collections.
use seagull_agent.Prelude.{
  ℤ, pos, leb_ℤ, String, ◌≡◌, refl, inl, inr, true, Option, none, some, Bool-cases,
}
use seagull_agent.Executor.Options.{
  TriageBundleOptions, TriageRequest, InventoryLimits, InventoryRequest, limit, triage_options,
  parse_triage_bundle_options, inventory_limits, parse_inventory_snapshot_options,
}
use seagull_agent.Executor.Outcome.{Outcome, Holds, Holds-ok, Holds->>=, no_payload, clamp-bounds}

abbrev pub IsWithin : ℤ → ℤ → Type 0
IsWithin high n = (leb_ℤ (pos 10) n ≡ true) × (leb_ℤ n high ≡ true)

limit-IsWithin :
    (default high : ℤ) (o : Option ℤ)
    → IsWithin high default
    → leb_ℤ (pos 10) high ≡ true
    → IsWithin high (limit default high o)
unfolding limit
limit-IsWithin default high none h k = h
limit-IsWithin default high (some n) h k = clamp-bounds n (pos 10) high k

-- The limits of a triage bundle.
pub record IsLimited (o : TriageBundleOptions) : Type 0 where
  pub lines : IsWithin (pos 5000) o.limits.max_auth_log_lines
  pub processes : IsWithin (pos 2000) o.limits.max_processes
  pub connections : IsWithin (pos 2000) o.limits.max_connections
  pub events : IsWithin (pos 5000) o.limits.max_event_count

triage_options-IsLimited : (q : TriageRequest) → IsLimited (triage_options q)
unfolding triage_options
triage_options-IsLimited q = record {
  lines = limit-IsWithin (pos 500) (pos 5000) q.max_auth_log_lines (refl, refl) refl;
  processes = limit-IsWithin (pos 200) (pos 2000) q.max_processes (refl, refl) refl;
  connections = limit-IsWithin (pos 200) (pos 2000) q.max_connections (refl, refl) refl;
  events = limit-IsWithin (pos 300) (pos 5000) q.max_event_count (refl, refl) refl;
}

pub parse_triage_bundle_options-IsLimited :
    (decode : String → Outcome TriageRequest) (raw : String)
    → Holds IsLimited (parse_triage_bundle_options decode raw)
unfolding parse_triage_bundle_options
parse_triage_bundle_options-IsLimited decode raw = elim (Bool-cases (no_payload raw)) [
  | inl nothing ↦
      rw (nothing, parse_triage_bundle_options)
        (Holds-ok (record {
          lines = (refl, refl);
          processes = (refl, refl);
          connections = (refl, refl);
          events = (refl, refl);
        }))
  | inr given ↦
      rw (given, parse_triage_bundle_options)
        (Holds->>= _ _ λ q decoded. Holds-ok (triage_options-IsLimited q))
]

abbrev pub AreLimited : InventoryLimits → Type 0
AreLimited l = IsWithin (pos 2000) l.max_processes × IsWithin (pos 2000) l.max_connections

-- Whatever the payloads ask for, a triage bundle is limited to between 10 and 5000 log lines and
-- events and between 10 and 2000 processes and connections, and an inventory snapshot to between
-- 10 and 2000 processes and connections.
pub limits-bounded :
    (decode : String → Outcome TriageRequest) (decode' : String → Outcome InventoryRequest)
    (raw : String)
    → Holds IsLimited (parse_triage_bundle_options decode raw)
      × Holds AreLimited (parse_inventory_snapshot_options decode' raw)
unfolding parse_inventory_snapshot_options inventory_limits
limits-bounded decode decode' raw = (
  parse_triage_bundle_options-IsLimited decode raw,
  elim (Bool-cases (no_payload raw)) [
    | inl nothing ↦
        rw (nothing, parse_inventory_snapshot_options) (Holds-ok ((refl, refl), (refl, refl)))
    | inr given ↦
        rw (given, parse_inventory_snapshot_options)
          (Holds->>= _ _ λ q decoded. Holds-ok (
            limit-IsWithin (pos 200) (pos 2000) q.max_processes (refl, refl) refl,
            limit-IsWithin (pos 200) (pos 2000) q.max_connections (refl, refl) refl,
          ))
  ],
)
