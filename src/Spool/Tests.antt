-- ===== src/Spool/Tests.antt =====
-- Runs of the spool at concrete inputs.
use seagull_agent.Prelude.{
  ℕ, ◌+◌, pos, ◌≡◌, ◌≢◌, refl, ◌⊎◌, true, false, Option, none, some, [], ◌∷◌, String, trim_space,
  is_blank, has_suffix, contains_code, length,
}
use seagull_agent.Spool.Budget.{IsHealthy, FitsBudget, AllInFlight, enforce_retention-budget}
use seagull_agent.Spool.Delivered.{}
use seagull_agent.Spool.Drain.{
  Delivery, accepted, deferred, drain, finish, names, snapshot, queued_record, queued_records,
}
use seagull_agent.Spool.Draining.{drain-IsValid}
use seagull_agent.Spool.Enqueue.{IsStored, enqueue-eq-queued, enqueue-unsynced}
use seagull_agent.Spool.Files.{
  Envelope, File, has_file, find_file, without_file, write_file, total, member,
}
use seagull_agent.Spool.Interleaving.{
  World, Reach, here, next, enqueue_step, begin_step, finish_step, IsSafe, Reach-IsSafe,
}
use seagull_agent.Spool.Order.{}
use seagull_agent.Spool.Passes.{}
use seagull_agent.Spool.Queue.{
  Request, Entry, envelope, new_file, queued, refused, write_error, mismatch, options, ready, new,
  enqueue, enqueue_write, enqueue_written, enqueue_answer, is_receipt, settle, stored_file,
  remove_envelope, acknowledge,
}
use seagull_agent.Spool.Reopen.{saved_of, new-IsValid}
use seagull_agent.Spool.Retain.{}
use seagull_agent.Spool.Retention.{
  enforce_retention, retain, evict_pass, expire_pass, candidates, by_name, text_lt, candidate,
  too_old, by_priority, within_budget, readable, remove_counted,
}
use seagull_agent.Spool.Settle.{}
use seagull_agent.Spool.Sort.{insert, sort}
use seagull_agent.Spool.State.{
  Disk, written, unsynced, Spool, permanent, persist_stats, remove, record_removal,
}
use seagull_agent.Spool.Valid.{IsValid}

abbrev disk : Disk
disk = record {
  can_list = true;
  can_stat = λ k. true;
  can_read = λ k. true;
  can_remove = λ k. true;
  can_sync = true;
  write = λ k. written;
}

disk-synced : (k : String) → disk.write k ≢ unsynced
disk-synced k h = cc

disk-IsHealthy : IsHealthy disk
disk-IsHealthy = record { lists = refl; stats = λ k. refl; removes = λ k. refl }

abbrev torn_disk : Disk
torn_disk = record disk { write = λ k. unsynced }

abbrev marshal : Envelope → Option ℕ
marshal env = some 40

abbrev first_envelope : Envelope
first_envelope = record {
  id = "b1";
  kind = "events";
  priority = pos 50;
  created_at = 10;
  attempts = 0;
  payload = "[1]";
  receipt = "";
}

abbrev first_file : File
first_file = record {
  name = "1.spool.json";
  size = 40;
  mod_time = 10;
  content = some first_envelope;
}

-- A spool that holds one entry.
abbrev one_entry : Spool
one_entry = record {
  opts = record { max_bytes = 100; max_age = 1000; max_items = 5 };
  files = first_file ∷ [];
  saved = none;
  inflight = [];
  pending = 1;
  bytes = pos 40;
  enqueued = 1;
  delivered = 0;
  dropped = 0;
  expired = 0;
  capacity = 0;
  corrupt = 0;
  permanent = 0;
  retries = 0;
  enqueue_errors = 0;
}

one_entry-IsValid : IsValid one_entry
unfolding has_file total
one_entry-IsValid = record {
  distinct = (refl, tt);
  counted = refl;
  sized = refl;
  balanced = refl;
  itemised = refl;
}

abbrev entry : Entry
entry = record {
  id = "b2";
  kind = "events";
  priority = pos 50;
  payload = "[2]";
  now = 20;
  fresh_id = "f";
  name = "2.spool.json";
}

entry_is_new : has_file "2.spool.json" one_entry.files ≡ false
unfolding has_file
entry_is_new = refl

enqueue-unsynced_example :
    ((enqueue torn_disk marshal entry one_entry).1 ≡ refused write_error)
    × (has_file "2.spool.json" (enqueue torn_disk marshal entry one_entry).0.files ≡ true)
    × (length (enqueue torn_disk marshal entry one_entry).0.files
        ≡ (enqueue torn_disk marshal entry one_entry).0.pending + 1)
enqueue-unsynced_example =
    enqueue-unsynced torn_disk marshal entry 40 one_entry one_entry-IsValid entry_is_new refl refl
      refl

enforce_retention-budget_example :
    FitsBudget (enforce_retention disk 2000 one_entry)
    ⊎ AllInFlight (enforce_retention disk 2000 one_entry)
enforce_retention-budget_example =
    enforce_retention-budget disk 2000 one_entry one_entry-IsValid disk-IsHealthy

abbrev deliver : Envelope → Delivery
deliver env = accepted

abbrev defer : Envelope → Delivery
defer env = deferred

drain-IsValid_example :
    IsValid (drain disk marshal deliver (λ i. 30) (λ i. false) (pos 8) one_entry).0
drain-IsValid_example =
    drain-IsValid disk marshal deliver disk-synced (λ i. 30) (λ i. false) (pos 8) one_entry
      one_entry-IsValid

first_present : has_file "1.spool.json" one_entry.files ≡ true
unfolding has_file
first_present = refl

abbrev receipt : Envelope
receipt = record first_envelope { receipt = "1.spool.json" }

abbrev wrong_receipt : Envelope
wrong_receipt = record receipt { id = "b9" }

mismatched : (remove_envelope disk wrong_receipt permanent one_entry).1 ≡ some mismatch
unfolding remove_envelope is_receipt stored_file find_file has_suffix contains_code trim_space
mismatched = refl

acknowledged : (acknowledge disk receipt one_entry).1 ≡ none
unfolding acknowledge remove_envelope is_receipt stored_file find_file has_suffix contains_code
    trim_space settle remove has_file
acknowledged = refl

snapshot_taken : snapshot disk one_entry ≡ some ("1.spool.json" ∷ [])
unfolding snapshot names sort insert queued_records queued_record readable
snapshot_taken = refl

abbrev world : World
world = record { spool = one_entry; active = none }

world-IsSafe : IsSafe world
world-IsSafe = record { valid = one_entry-IsValid; in_hand = λ f p. cc }

first_found : find_file "1.spool.json" one_entry.files ≡ some first_file
unfolding find_file
first_found = refl

abbrev delivering : World
delivering = record {
  spool = record one_entry { inflight = "1.spool.json" ∷ [] };
  active = some first_file;
}

abbrev beside : World
beside = record delivering { spool = (enqueue disk marshal entry delivering.spool).0 }

abbrev settled : World
settled = record {
  spool = (finish disk marshal deliver 30 first_file beside.spool).0;
  active = none;
}

-- An Enqueue comes between the two halves of a delivery.
run : Reach marshal deliver world settled
run =
    next
      (next (next here (begin_step "1.spool.json" first_file refl first_found))
        (enqueue_step disk entry entry_is_new disk-synced))
      (finish_step disk 30 first_file refl disk-synced)

Reach-IsSafe_example : IsSafe settled
Reach-IsSafe_example = Reach-IsSafe marshal deliver world-IsSafe run

abbrev queued_envelope : Envelope
queued_envelope = record (envelope entry) { receipt = "2.spool.json" }

enqueued : (enqueue disk marshal entry one_entry).1 ≡ queued queued_envelope
unfolding enqueue enqueue_write enqueue_written enqueue_answer has_file persist_stats
    enforce_retention retain evict_pass sort expire_pass candidates write_file new_file by_name
    text_lt candidate member too_old by_priority within_budget is_blank trim_space without_file
    envelope readable remove_counted insert record_removal remove
enqueued = refl

enqueue-eq-queued_example : IsStored entry (enqueue disk marshal entry one_entry).0 queued_envelope
enqueue-eq-queued_example =
    enqueue-eq-queued disk marshal entry one_entry queued_envelope one_entry-IsValid entry_is_new
      enqueued

abbrev request : Request
request = record { dir = "spool"; max_bytes = pos 100; max_age = pos 0; max_items = pos 5 }

named : is_blank request.dir ≡ false
unfolding is_blank trim_space
named = refl

-- The spool after a restart.
abbrev reopened : Spool
reopened = (elim (new disk 30 true request one_entry.files (saved_of one_entry)) [
  | ready t ↦ t
  | _ ↦ one_entry
])

reopens : new disk 30 true request one_entry.files (saved_of one_entry) ≡ ready reopened
unfolding new is_blank trim_space
reopens = refl

new-IsValid_example : IsValid reopened × (reopened.opts ≡ options request)
new-IsValid_example =
    new-IsValid disk 30 request one_entry one_entry-IsValid refl (λ k. refl) refl reopened named
      reopens
