-- ===== src/Batcher/Queue/Startup.antt =====
-- When `startup` of src/icepick/batcher/daemon.py refuses to start.
use icepick.Prelude.{ℕ, ◌≡◌, String, true, false, some, List, arith, Option-cases, inl, inr}
use icepick.Batcher.Disk.{saved, Batches, max_batch_number}
use icepick.Batcher.Disk.Numbers.{IsBelow, max_batch_number-put_dir, max_batch_number-lt}
use icepick.Batcher.Slicer.{SliceConfig}
use icepick.Batcher.World.{World, Plan, prepare}
use icepick.Batcher.Recover.Crash.{crashed, prepared}
use icepick.Batcher.Queue.{
  QueueState, Event, numbering_mismatch, queue_loaded, check_identity, load_or_create, refused,
  startup,
}

-- A saved queue state with the configuration's identity is loaded as it is, when all the batch
-- directories are below its next number.
load_or_create-IsBelow :
    (config : SliceConfig) (now : String) (q : QueueState) (bs : Batches)
    → check_identity config q ≡ true
    → IsBelow q.next_batch_number bs
    → load_or_create config now (saved q) bs ≡ queue_loaded q
unfolding load_or_create
load_or_create-IsBelow config now q bs same h = elim (Option-cases (max_batch_number bs)) [
  | inl empty ↦ ground arith
  | inr (n, largest) ↦ ground (arith, max_batch_number-lt q.next_batch_number n bs h largest)
]

-- A daemon that dies in a commit after the manifest, and before the queue state has the next number,
-- does not start again: whatever part of the ledger rows is written, `startup` raises the numbering
-- mismatch, and the recovery of the slice is not reached.
pub startup-crashed :
    (config : SliceConfig) (now : String) (q : QueueState) (events : List Event) (m : ℕ) (p : Plan)
    (w : World)
    → check_identity config q ≡ true
    → p.batch_no ≡ q.next_batch_number
    → IsBelow p.batch_no w.batches
    → startup config now false (saved q) events (crashed m p w) ≡ refused numbering_mismatch
unfolding startup load_or_create crashed
startup-crashed config now q events m p w same number below =
    let (d, put, _) = prepared p w in
    let largest : max_batch_number (prepare p w).batches ≡ some p.batch_no =
      rw put (max_batch_number-put_dir p.batch_no d w.batches below) in
    ground (arith, largest)
