-- ===== src/Batcher/Tick/Numbered.antt =====
-- The numbers of the batches over the ticks of src/icepick/batcher/daemon.py.
use icepick.Prelude.{
  ℕ, ◌&&◌, ◌+◌, ◌<◌, ◌≡◌, inl, inr, refl, String, Option, none, some, [], ◌∷◌, arith, ltb,
  Bool-cases,
}
use icepick.Batcher.Identity.{Row, Primitives}
use icepick.Batcher.Journal.{Bytes, read_new}
use icepick.Batcher.Disk.{StateName, BatchDir, Batches, dir?, batch_label}
use icepick.Batcher.Disk.Numbers.{IsBelow, put_dir-IsBelow}
use icepick.Batcher.State.{Transitioned, moved, refused, transition}
use icepick.Batcher.Slicer.{SliceConfig}
use icepick.Batcher.World.{World, Plan, commit, dir_or_new}
use icepick.Batcher.Cut
use icepick.Batcher.Cut.{SliceOutcome, cut_slice}
use icepick.Batcher.Cut.Sliced.{cut_slice-sliced}
use icepick.Batcher.Cut.Forget.{cut_slice-idle}
use icepick.Batcher.Recover.Crash.{prepared, commit-parts}
use icepick.Batcher.Queue.{Daemon, Event, Halt, emit, set_halt, inc_batch_number, save_queue}
use icepick.Batcher.Watch.Batches.{ingest_watch_journals-batches}
use icepick.Batcher.Dispatch.{Tag, acted, with_dir, move}
use icepick.Batcher.Tick.InFlight.{
  acted-injective, find_in_flight-lt, OnlyTouches, advance_batch-OnlyTouches,
}
use icepick.Batcher.Tick.{
  Moment, find_in_flight, add_counts, after_cut, try_slice, work, ingest, unless_halted, tick,
}

IsBelow-suc : (b : ℕ) (bs : Batches) → IsBelow b bs → IsBelow (b + 1) bs
IsBelow-suc b [] h = tt
IsBelow-suc b ((n, d) ∷ bs) h = (omega (arith, h.0), IsBelow-suc b bs h.1)

-- Every batch directory has a number below the next one.
abbrev pub IsNumbered : Daemon → Type 0
IsNumbered d = IsBelow d.queue.next_batch_number d.world.batches

OnlyTouches-IsBelow :
    (n b : ℕ) (bs bs' : Batches) → n < b → IsBelow b bs → OnlyTouches n bs bs' → IsBelow b bs'
OnlyTouches-IsBelow n b bs bs' l h (inl same) = rw same h
OnlyTouches-IsBelow n b bs bs' l h (inr (d, put)) = rw put (put_dir-IsBelow b n d bs l h)

move-acted :
    (n : ℕ) (now : String) (to : StateName) (note : String) (d d' : Daemon) (t t' : Tag)
    → move n now to note [] d (acted t) ≡ acted t' d'
    → (b : BatchDir) × (d' ≡ with_dir n b d)
unfolding move
move-acted n now to note d d' t t' e =
    step (transition (batch_label n) to note now [] (dir_or_new (dir? n d.world.batches))) refl
  where
    step :
        (r : Transitioned)
        → transition (batch_label n) to note now [] (dir_or_new (dir? n d.world.batches)) ≡ r
        → (b : BatchDir) × (d' ≡ with_dir n b d)
    step (refused x) same = ground arith
    step (moved s b) same = (b, ground arith)

commit-IsBelow :
    (p : Plan) (w : World) (b : ℕ)
    → p.batch_no < b
    → IsBelow b w.batches
    → IsBelow b (commit p w).batches
commit-IsBelow p w b l h =
    let (d, put, _) = prepared p w in
    rw ((commit-parts p w).2, put) (put_dir-IsBelow b p.batch_no d w.batches l h)

module _ (config : SliceConfig) (m : Moment) (prims : Primitives) (loads : Bytes → Option Row)
    (path : String) where
  after_cut-IsNumbered :
      (o : SliceOutcome) (d d' : Daemon) (t : Tag) (w : World)
      → IsNumbered d
      → cut_slice prims loads config path d.queue.next_batch_number m.now m.journal d.world ≡ (w, o)
      → after_cut config m d.queue.next_batch_number o (record d { world = w }) ≡ acted t d'
      → IsNumbered d'
  unfolding after_cut set_halt emit add_counts inc_batch_number save_queue
  after_cut-IsNumbered (Cut.corrupted line) d d' t w h cut e =
      let idle =
        cut_slice-idle prims loads config path d.queue.next_batch_number m.now m.journal d.world w _
          cut tt in
      rw (← acted-injective _ t _ d' e, idle) h
  after_cut-IsNumbered Cut.index_error d d' t w h cut e = cc
  after_cut-IsNumbered (Cut.sliced c) d d' t w h cut e =
      let (p, done, number, _, _) =
        cut_slice-sliced prims loads config path d.queue.next_batch_number m.now m.journal d.world w
          c cut in
      let (b, moved_to) =
        move-acted d.queue.next_batch_number m.now StateName.sliced "slice committed" _ d'
          Tag.sliced t e in
      let w0 : World = record d.world {
        cursor = (read_new loads path none m.journal d.world.cursor).cursor;
      } in
      let next = d.queue.next_batch_number in
      rw (moved_to, done)
        (put_dir-IsBelow (next + 1) next b (commit p w0).batches (omega arith) (
          commit-IsBelow p w0 (next + 1) (omega (arith, number))
            (IsBelow-suc next d.world.batches h)))
  after_cut-IsNumbered (Cut.insufficient k c) d d' t w h cut e =
      let idle =
        cut_slice-idle prims loads config path d.queue.next_batch_number m.now m.journal d.world w _
          cut tt in
      let d2 = add_counts c (record d { world = w }) in
      elim (Bool-cases (m.run_concluded && ltb 0 k)) [
        | inl held ↦
            rw
              (
                ← acted-injective Tag.held_remainder t (emit (Event.held_remainder k) d2) d'
                    (ground (arith, held, e)),
                idle,
              )
              h
        | inr waiting ↦
            rw (← acted-injective Tag.waiting_journal t d2 d' (ground (arith, waiting, e)), idle) h
      ]
  after_cut-IsNumbered (Cut.aborted a) d d' t w h cut e =
      let idle =
        cut_slice-idle prims loads config path d.queue.next_batch_number m.now m.journal d.world w _
          cut tt in
      rw (← acted-injective _ t _ d' e, idle) h

  work-IsNumbered :
      (o : Option ℕ) (d d' : Daemon) (t : Tag)
      → IsNumbered d
      → find_in_flight d.world.batches ≡ o
      → work config m prims loads path o d ≡ acted t d'
      → IsNumbered d'
  unfolding work try_slice
  work-IsNumbered (some n) d d' t h f e =
      let (touches, number) = advance_batch-OnlyTouches n m.now m.stages d d' t e in
      rw number (
        OnlyTouches-IsBelow n d.queue.next_batch_number d.world.batches d'.world.batches
          (find_in_flight-lt d.queue.next_batch_number n d.world.batches h f) h touches)
  work-IsNumbered none d d' t h f e =
      let r = cut_slice prims loads config path d.queue.next_batch_number m.now m.journal d.world in
      after_cut-IsNumbered r.1 d d' t r.0 h refl e

  ingest-IsNumbered : (d : Daemon) → IsNumbered d → IsNumbered (ingest config m prims loads path d)
  unfolding ingest
  ingest-IsNumbered d h =
      rw (ingest_watch_journals-batches prims loads m.now m.watched (d.world, d.watch_counters)) h

  unless_halted-IsNumbered :
      (o : Option Halt) (d d' : Daemon) (t : Tag)
      → IsNumbered d
      → unless_halted config m prims loads path o d ≡ acted t d'
      → IsNumbered d'
  unfolding unless_halted
  unless_halted-IsNumbered (some x) d d' t h e = rw (← acted-injective Tag.halted t d d' e) h
  unless_halted-IsNumbered none d d' t h e =
      work-IsNumbered (find_in_flight d.world.batches) d d' t h refl e

  -- A tick that returns keeps every batch directory below the next number, whatever the world outside
  -- does: the number of a slice is used up in the same tick, and a stage makes no directory of its own.
  pub tick-IsNumbered :
      (d d' : Daemon) (t : Tag)
      → IsNumbered d
      → tick config m prims loads path d ≡ acted t d'
      → IsNumbered d'
  unfolding tick
  tick-IsNumbered d d' t h e = elim (Bool-cases m.armed) [
    | inl armed ↦
        let d2 = ingest config m prims loads path d in
        unless_halted-IsNumbered d2.queue.halt d2 d' t (ingest-IsNumbered d h)
          (ground (arith, armed, e))
    | inr off ↦ rw (← acted-injective Tag.disarmed t d d' (ground (arith, off, e))) h
  ]
