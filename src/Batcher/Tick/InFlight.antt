-- ===== src/Batcher/Tick/InFlight.antt =====
-- A tick of src/icepick/batcher/daemon.py while a batch is in flight.
use mathlib.Core.Path.{subst}
use icepick.Prelude.{
  ◌⊎◌, sym, ap, ◌∙◌, true, ℕ, ◌<◌, ◌≡◌, inl, inr, refl, String, false, Option, none, some, [], ◌∷◌,
  arith, Bool-cases, Option-cases,
}
use icepick.Batcher.Identity.{Row, Primitives}
use icepick.Batcher.Journal.{Bytes}
use icepick.Batcher.Disk.{put_dir, dir?, StateName, BatchDir, Batches}
use icepick.Batcher.Disk.Numbers.{IsBelow}
use icepick.Batcher.Slicer.{SliceConfig}
use icepick.Batcher.World.{dir_or_new}
use icepick.Batcher.Queue.{Daemon}
use icepick.Batcher.Watch.Batches.{ingest_watch_journals-batches}
use icepick.Batcher.Dispatch.{Tag, acted, Outside, dispatch, advance_batch}
use icepick.Batcher.Dispatch.Moves.{
  state_in, IsDispatched, mounts, cascades, passes, ends, freezes, waits_for_cascade,
  waits_for_qwen, dir_of,
}
use icepick.Batcher.Dispatch.Forward.{is_working, advance_batch-Goes}
use icepick.Batcher.Tick.Lowest.{IsLowestOpen, IsLowestOpen-find_in_flight}
use icepick.Batcher.Tick.{Moment, find_in_flight, work, ingest, unless_halted, tick}

-- The lowest open batch is there.
pub find_in_flight-lt : (b n : ℕ) (bs : Batches) → IsBelow b bs → find_in_flight bs ≡ some n → n < b
unfolding find_in_flight
find_in_flight-lt b n [] h e = cc
find_in_flight-lt b n ((k, d) ∷ bs) h e = elim (Option-cases (find_in_flight bs)) [
  | inl only ↦ ground arith
  | inr (l, lowest) ↦ ground (arith, find_in_flight-lt b l bs h.1 lowest)
]

pub acted-injective : (t t' : Tag) (d d' : Daemon) → acted t d ≡ acted t' d' → d ≡ d'
acted-injective t t' d d' e = cc

-- No directory but that of batch `n` is written.
abbrev pub OnlyTouches : ℕ → Batches → Batches → Type 0
OnlyTouches n bs bs' = (bs' ≡ bs) ⊎ ((b : BatchDir) × (bs' ≡ put_dir n b bs))

IsDispatched-OnlyTouches :
    (n : ℕ) (bs bs' : Batches) (s : StateName) (t : Tag)
    → IsDispatched n bs s t bs'
    → OnlyTouches n bs bs'
IsDispatched-OnlyTouches n bs _ _ _ (mounts d e) = inr (d, refl)
IsDispatched-OnlyTouches n bs _ _ _ (cascades d e) = inr (d, refl)
IsDispatched-OnlyTouches n bs _ _ _ (passes d e) = inr (d, refl)
IsDispatched-OnlyTouches n bs _ _ _ (ends d e) = inr (d, refl)
IsDispatched-OnlyTouches n bs _ _ _ (freezes d e) = inr (d, refl)
IsDispatched-OnlyTouches n bs _ _ _ waits_for_cascade = inl refl
IsDispatched-OnlyTouches n bs _ _ _ waits_for_qwen = inl refl

module _ (n : ℕ) (now : String) (out : Outside) where
  idle_dispatch :
      (o : Option StateName) (b : BatchDir) (d d' : Daemon) (t : Tag)
      → ((s : StateName) → o ≡ some s → is_working n now out s ≡ false)
      → dispatch n now out o b d ≡ acted t d'
      → d ≡ d'
  unfolding dispatch
  idle_dispatch none b d d' t h e = cc
  idle_dispatch (some StateName.sliced) b d d' t h e =
      absurd (ground (arith, h StateName.sliced refl))
  idle_dispatch (some StateName.mounted) b d d' t h e =
      absurd (ground (arith, h StateName.mounted refl))
  idle_dispatch (some StateName.cascade_done) b d d' t h e =
      absurd (ground (arith, h StateName.cascade_done refl))
  idle_dispatch (some StateName.passk_done) b d d' t h e =
      absurd (ground (arith, h StateName.passk_done refl))
  idle_dispatch (some _) b d d' t h e = cc

  -- Only the two waits and the other states leave the daemon as it is.
  advance_batch-idle :
      (d d' : Daemon) (t : Tag)
      → ((s : StateName) → state_in (dir_of n now d) ≡ some s → is_working n now out s ≡ false)
      → advance_batch n now out d ≡ acted t d'
      → d ≡ d'
  unfolding advance_batch
  advance_batch-idle d d' t h e =
      idle_dispatch (state_in (dir_of n now d)) (dir_of n now d) d d' t h e

  pub advance_batch-OnlyTouches :
      (d d' : Daemon) (t : Tag)
      → advance_batch n now out d ≡ acted t d'
      → OnlyTouches n d.world.batches d'.world.batches
        × (d'.queue.next_batch_number ≡ d.queue.next_batch_number)
  advance_batch-OnlyTouches d d' t e = step (state_in (dir_of n now d)) refl
    where
      step :
          (o : Option StateName)
          → state_in (dir_of n now d) ≡ o
          → OnlyTouches n d.world.batches d'.world.batches
            × (d'.queue.next_batch_number ≡ d.queue.next_batch_number)
      step none same = rw (← advance_batch-idle d d' t (λ s x. cc (same, x)) e) (inl refl, refl)
      step (some s) same = elim (Bool-cases (is_working n now out s)) [
        | inl working ↦
            let (t2, d2, goes, moves, keeps) = advance_batch-Goes n now out s d same working in
            let there : d2 ≡ d' = acted-injective t2 t d2 d' (cc (goes, e)) in
            rw (← there)
              (IsDispatched-OnlyTouches n d.world.batches d2.world.batches s t2 moves, keeps.next)
        | inr other ↦
            rw (← advance_batch-idle d d' t (λ u x. ground (arith, other, same, x)) e)
              (inl refl, refl)
      ]

module _ (config : SliceConfig) (m : Moment) (prims : Primitives) (loads : Bytes → Option Row)
    (path : String) where
  tick-work :
      (d : Daemon)
      → m.armed ≡ true
      → d.queue.halt ≡ none
      → tick config m prims loads path d
        ≡ work config m prims loads path
            (find_in_flight d.world.batches)
            (ingest config m prims loads path d)
  unfolding tick unless_halted ingest
  tick-work d armed free =
      rw
        (
          armed,
          free,
          ingest_watch_journals-batches prims loads m.now m.watched (d.world, d.watch_counters),
        )
        refl

  -- Batches are worked on one at a time: while a batch is in flight, an armed tick that is not halted
  -- and returns writes no directory but that of the open batch with the lowest number, and takes no
  -- new number.
  pub tick-in_flight :
      (n : ℕ) (d d' : Daemon) (t : Tag)
      → m.armed ≡ true
      → d.queue.halt ≡ none
      → IsLowestOpen n d.world.batches
      → tick config m prims loads path d ≡ acted t d'
      → OnlyTouches n d.world.batches d'.world.batches
        × (d'.queue.next_batch_number ≡ d.queue.next_batch_number)
  unfolding work ingest
  tick-in_flight n d d' t armed free lowest e =
      let found = IsLowestOpen-find_in_flight n d.world.batches lowest in
      let d2 = ingest config m prims loads path d in
      let same =
        ingest_watch_journals-batches prims loads m.now m.watched (d.world, d.watch_counters) in
      let goes : advance_batch n m.now m.stages d2 ≡ acted t d' =
        ap (λ o. work config m prims loads path o d2) (sym found)
        ∙ sym (tick-work d armed free)
        ∙ e in
      let (touches, number) = advance_batch-OnlyTouches n m.now m.stages d2 d' t goes in
      (subst (λ bs. OnlyTouches n bs d'.world.batches) same touches, number)

  -- When the open batch with the lowest number has no state in state.json, it stays so: an armed tick
  -- that is not halted returns that its state is unknown, and changes neither the queue state nor any
  -- directory.
  pub tick-stuck :
      (n : ℕ) (d : Daemon)
      → m.armed ≡ true
      → d.queue.halt ≡ none
      → IsLowestOpen n d.world.batches
      → state_in (dir_of n m.now d) ≡ none
      → (d' : Daemon) × (tick config m prims loads path d ≡ acted (Tag.unknown_state none) d')
        × (d'.world.batches ≡ d.world.batches)
        × (d'.queue ≡ d.queue)
        × (d'.queue_file ≡ d.queue_file)
  unfolding work ingest advance_batch dispatch
  tick-stuck n d armed free lowest lost =
      let found = IsLowestOpen-find_in_flight n d.world.batches lowest in
      let d2 = ingest config m prims loads path d in
      let same =
        ingest_watch_journals-batches prims loads m.now m.watched (d.world, d.watch_counters) in
      let lost2 : state_in (dir_of n m.now d2) ≡ none =
        subst (λ bs. state_in (dir_or_new (dir? n bs)) ≡ none) (sym same) lost in
      (
        d2,
        tick-work d armed free
            ∙ ap (λ o. work config m prims loads path o d2) found
            ∙ rw lost2 refl,
        same,
        refl,
        refl,
      )
