-- ===== src/Spool/Reopen.antt =====
-- A restart: `New` over the directory and the statistics that a well-formed spool left.
use Prim.Native.Nat.{}
use seagull_agent.Prelude.{
  ℕ, ◌≡◌, refl, sym, ap, ◌∙◌, true, false, Option, some, List, [], ◌∷◌, arith, String, is_blank,
}
use seagull_agent.Spool.Files.{File}
use seagull_agent.Spool.Passes.{Pruned}
use seagull_agent.Spool.Queue.{
  Request, options, blank_spool, restore, load_stats, visible, recount, rescan, ready, new,
}
use seagull_agent.Spool.Retain.{enforce_retention-Pruned}
use seagull_agent.Spool.Retention.{enforce_retention}
use seagull_agent.Spool.State.{Disk, Saved, Spool, stats, stats_file, stats_version, persist_stats}
use seagull_agent.Spool.Valid.{IsValid, SameCounts, SameCounts-IsValid, persist_stats-IsValid}

visible_all : (d : Disk) (l : List File) → ((k : String) → d.can_stat k ≡ true) → visible d l ≡ l
unfolding visible
visible_all d [] h = refl
visible_all d (f ∷ l) h = rw h (ap (◌∷◌ f) (visible_all d l h))

-- What a spool saves of itself.
abbrev pub saved_of : Spool → Option Saved
saved_of s = some (record { version = stats_version; stats = stats s })

rescan_listed :
    (d : Disk) (now : ℕ) (s : Spool)
    → d.can_list ≡ true
    → rescan d now s ≡ persist_stats d (enforce_retention d now (recount d s))
unfolding rescan
rescan_listed d now s h = simp h

new_named :
    (d : Disk) (now : ℕ) (r : Request) (files : List File) (saved : Option Saved)
    → is_blank r.dir ≡ false
    → new d now true r files saved
      ≡ ready (rescan d now (load_stats d (blank_spool (options r) files saved)))
unfolding new
new_named d now r files saved h = simp h

opts-persist_stats : (d : Disk) (s : Spool) → (persist_stats d s).opts ≡ s.opts
unfolding persist_stats
opts-persist_stats d s = ground arith

opts-restore :
    (r : Request) (s : Spool)
    → (restore
        (record { version = stats_version; stats = stats s })
        (blank_spool (options r) s.files (saved_of s))).opts
      ≡ options r
opts-restore r s = refl

module _ (d : Disk) (now : ℕ) (r : Request) (s : Spool) (v : IsValid s) (lists : d.can_list ≡ true)
    (stats_of : (k : String) → d.can_stat k ≡ true) (reads : d.can_read stats_file ≡ true) where
  -- The spool of `New` before its first retention.
  abbrev reloaded : Spool
  reloaded = recount d (load_stats d (blank_spool (options r) s.files (saved_of s)))

  loaded :
      load_stats d (blank_spool (options r) s.files (saved_of s))
      ≡ restore
          (record { version = stats_version; stats = stats s })
          (blank_spool (options r) s.files (saved_of s))
  unfolding load_stats
  loaded = rw (reads, load_stats)

  reloaded-SameCounts : SameCounts s reloaded
  unfolding stats
  reloaded-SameCounts =
      let seen = visible_all d s.files stats_of in
      rw loaded (
        refl,
        rw seen (omega (arith, v.counted)),
        rw seen (sym v.sized),
        rw seen (omega (arith, v.counted, v.balanced)),
        refl,
        refl,
        refl,
        refl,
        refl,
        refl,
      )

  -- After a restart on a file system that lists and reads its directory, the spool is well formed
  -- again, under the limits of the new configuration, if the statistics were saved.
  pub new-IsValid :
      (t : Spool)
      → is_blank r.dir ≡ false
      → new d now true r s.files (saved_of s) ≡ ready t
      → IsValid t × (t.opts ≡ options r)
  new-IsValid t named h =
      let w : IsValid reloaded = SameCounts-IsValid s reloaded reloaded-SameCounts v in
      let p : Pruned reloaded (enforce_retention d now reloaded) =
        enforce_retention-Pruned d now reloaded w in
      let same : persist_stats d (enforce_retention d now reloaded) ≡ t = cc (
        rescan_listed d now (load_stats d (blank_spool (options r) s.files (saved_of s))) lists,
        new_named d now r s.files (saved_of s) named,
        h,
      ) in
      rw (← same) (
        persist_stats-IsValid d _ p.valid,
        opts-persist_stats d (enforce_retention d now reloaded)
            ∙ p.opts
            ∙ ap (λ (x : Spool). x.opts) loaded
            ∙ opts-restore r s,
      )
