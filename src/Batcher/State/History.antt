-- ===== src/Batcher/State/History.antt =====
-- The history in state.json and the flag READY_TO_FOLD: src/icepick/batcher/state.py, `transition`.
use icepick.Prelude.{
  ℕ, ◌+◌, ◌∙◌, ◌≡◌, ◌≢◌, ◌⊎◌, inl, inr, refl, ap, String, true, Option, none, some, List, [], ◌∷◌,
  ◌++◌, All, arith, length, Bool-cases, Option-cases,
}
use icepick.Prelude.Dict.{Dict}
use icepick.Batcher.Disk.{
  saved, StateName, ready, frozen, unknown, HistoryEntry, BatchState, BatchDir,
}
use icepick.Batcher.State.{
  read_state, TransitionError, unknown_state, freeze_ready, index_error, Transitioned, moved,
  refused, state_index, is_known, is_state, check_transition, next_state, write_files, transition,
}
use icepick.Batcher.State.Machine.{
  Step, slice, mount, cascade, passk, finish, freeze, release, restart, check_transition-Step,
}

-- The entries lead from one state to another, each by a move of the machine from where the one before
-- it ended.
abbrev pub IsChain : Option StateName → List HistoryEntry → Option StateName → Type 0
IsChain a [] b = a ≡ b
IsChain a (h ∷ hs) b = (h.from ≡ a) × Step h.from h.to × IsChain (some h.to) hs b

-- The history tells how the batch came to its state.
abbrev pub IsTrace : BatchState → Type 0
IsTrace s = IsChain none s.history s.state

IsChain-append :
    (a b c : Option StateName) (hs ks : List HistoryEntry)
    → IsChain a hs b
    → IsChain b ks c
    → IsChain a (hs ++ ks) c
IsChain-append a b c [] ks h k = rw h k
IsChain-append a b c (x ∷ hs) ks h k = (h.0, h.1, IsChain-append (some x.to) b c hs ks h.2 k)

-- A batch in READY has its flag file.
abbrev pub IsFlagged : BatchDir → Type 0
IsFlagged d = ((read_state d.state).state ≢ some ready) ⊎ (d.ready_flag ≢ none)

write_files-IsFlagged :
    (name : String) (to : StateName) (note now : String) (extra : Dict String) (s : BatchState)
    (d : BatchDir)
    → s.state ≡ some to
    → IsFlagged (write_files name to note now extra s d)
unfolding write_files read_state
write_files-IsFlagged name ready note now extra s d e = inr (λ no_flag. cc)
write_files-IsFlagged name _ note now extra s d e = inl (λ is_ready. cc)

module _ (name : String) (to : StateName) (note now : String) (extra : Dict String)
    (d : BatchDir) where
  abbrev pub run : Transitioned
  run = transition name to note now extra d

  -- A call that does not raise finds the batch in the target state and changes nothing, or it makes a
  -- move of the machine and writes the new state.
  pub transition-cases :
      {s' : BatchState} {d' : BatchDir}
      → run ≡ moved s' d'
      → ((s' ≡ read_state d.state) × (d' ≡ d))
        ⊎ (Step (read_state d.state).state to
            × (s' ≡ next_state name to note now extra (read_state d.state))
            × (d' ≡ write_files name to note now extra s' d))
  unfolding transition
  transition-cases {s'} {d'} e =
      let s = read_state d.state in
      elim (Bool-cases (is_known to)) [
        | inr other ↦ ground arith
        | inl known ↦ elim (Bool-cases (is_state s.state to)) [
          | inl there ↦ inl (ground arith, ground arith)
          | inr away ↦ elim (Option-cases (check_transition s.state to)) [
            | inr (err, bad) ↦ ground arith
            | inl good ↦
                let same : moved (next_state name to note now extra s)
                      (write_files name to note now extra (next_state name to note now extra s) d)
                    ≡ moved s' d' =
                  ground arith in
                inr ((check_transition-Step s.state to known).0 good, cc, cc)
          ]
        ]
      ]

  state-write_files : (s : BatchState) → (write_files name to note now extra s d).state ≡ saved s
  unfolding write_files
  state-write_files s = ground arith

  -- A transition that does not raise returns what it leaves in state.json, and keeps the history a
  -- chain of the machine's moves that ends in the present state.
  pub transition-IsTrace :
      {s' : BatchState} {d' : BatchDir}
      → run ≡ moved s' d'
      → IsTrace (read_state d.state)
      → IsTrace s' × (read_state d'.state ≡ s')
  unfolding next_state
  transition-IsTrace {s'} {d'} e h = elim (transition-cases e) [
    | inl (same, still) ↦ rw (same, still) (h, refl)
    | inr (step, new, files) ↦ (
      rw new (
          IsChain-append none (read_state d.state).state (some to) (read_state d.state).history _ h
            (refl, step, refl)),
      rw (files, state-write_files s') (unfold read_state in refl),
    )
  ]

  -- A transition that does not raise keeps it true that a batch in READY has its flag file.
  transition-IsFlagged :
      {s' : BatchState} {d' : BatchDir} → run ≡ moved s' d' → IsFlagged d → IsFlagged d'
  transition-IsFlagged {s'} {d'} e h = elim (transition-cases e) [
    | inl (same, still) ↦ rw still h
    | inr (step, new, files) ↦
        rw files
          (write_files-IsFlagged name to note now extra s' d (rw new (unfold next_state in refl)))
  ]

-- How a transition out of READY fails, by its target.
abbrev why : StateName → TransitionError
why frozen = freeze_ready
why (unknown _) = unknown_state
why _ = index_error

-- READY is final: a transition of a batch in READY to any other state raises, with a `ValueError` for
-- FROZEN and for a text that is no state, and with an `IndexError` for the stages of the batch.
pub transition-ready :
    (name : String) (to : StateName) (note now : String) (extra : Dict String) (d : BatchDir)
    → (read_state d.state).state ≡ some ready
    → to ≢ ready
    → transition name to note now extra d ≡ refused (why to)
unfolding transition check_transition
transition-ready name ready note now extra d e n = absurd (n refl)
transition-ready name (unknown u) note now extra d e n = refl
transition-ready name _ note now extra d e n = ground arith

-- No entry of the history names FROZEN or a text that is no state.
abbrev pub IsPlain : List HistoryEntry → Type 0
IsPlain = All (λ h. (h.to ≢ frozen) × (is_known h.to ≡ true))

abbrev pub stage : Option StateName → Option ℕ
stage none = some 0
stage (some s) = elim (state_index s) [ none ↦ none | some i ↦ some (i + 1) ]

step-stage :
    (a : Option StateName) (t : StateName) (k : ℕ)
    → Step a t
    → stage a ≡ some k
    → t ≢ frozen
    → is_known t ≡ true
    → stage (some t) ≡ some (k + 1)
step-stage _ _ k slice e n i = ground arith
step-stage _ _ k mount e n i = ground arith
step-stage _ _ k cascade e n i = ground arith
step-stage _ _ k passk e n i = ground arith
step-stage _ _ k finish e n i = ground arith
step-stage s _ k (freeze u) e n i = absurd (n refl)
step-stage _ t k (release u v) e n i = cc
step-stage _ _ k restart e n i = cc

chain-stage :
    (hs : List HistoryEntry) (a b : Option StateName) (k : ℕ)
    → IsChain a hs b
    → IsPlain hs
    → stage a ≡ some k
    → stage b ≡ some (k + length hs)
chain-stage [] a b k c p e = rw (← c, e) (ap some (omega arith))
chain-stage (h ∷ hs) a b k c p e =
    chain-stage hs (some h.to) b (k + 1) c.2 p.1 (step-stage a h.to k (rw c.0 at c.1) e p.0.0 p.0.1)
    ∙ ap some (omega arith)

-- A batch that has come to READY and was never frozen on the way has gone through exactly the five
-- stages, one history entry for each.
ready_in_five :
    (s : BatchState) → IsTrace s → IsPlain s.history → s.state ≡ some ready → length s.history ≡ 5
ready_in_five s t p e =
    let five = chain-stage s.history none s.state 0 t p refl in ground (arith, five, e)
