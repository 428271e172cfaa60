-- ===== src/Batcher/State/Machine.antt =====
-- The transitions of src/icepick/batcher/state.py as a relation, and the history that they write.
use icepick.Prelude.{◌≡◌, ◌≢◌, ◌↔◌, refl, String, true, Option, none, some}
use icepick.Batcher.Disk.{
  StateName, sliced, mounted, cascade_done, passk_done, ready, frozen, unknown,
}
use icepick.Batcher.State.{is_known, check_transition}

-- The moves of a batch. Only the five stages in their order are a move forward; freezing is open to
-- all but READY; a frozen batch may go to any stage; a state that no stage has restarts the batch.
pub data Step : Option StateName → StateName → Type 0 where
  slice : Step none sliced
  mount : Step (some sliced) mounted
  cascade : Step (some mounted) cascade_done
  passk : Step (some cascade_done) passk_done
  finish : Step (some passk_done) ready
  freeze : {s : Option StateName} → s ≢ some ready → Step s frozen
  release : {t : StateName} → t ≢ frozen → is_known t ≡ true → Step (some frozen) t
  restart : {u : String} → Step (some (unknown u)) sliced

-- The check lets a known target pass exactly when the move is one of these.
pub check_transition-Step :
    (s : Option StateName) (t : StateName)
    → is_known t ≡ true
    → (check_transition s t ≡ none) ↔ Step s t
unfolding check_transition
check_transition-Step s t h = (sound s t h, complete s t)
  where
    sound :
        (s : Option StateName) (t : StateName)
        → is_known t ≡ true
        → check_transition s t ≡ none
        → Step s t
    sound none sliced h e = slice
    sound none frozen h e = freeze (cc)
    sound none _ h e = cc
    sound (some sliced) mounted h e = mount
    sound (some sliced) frozen h e = freeze (cc)
    sound (some sliced) _ h e = cc
    sound (some mounted) cascade_done h e = cascade
    sound (some mounted) frozen h e = freeze (cc)
    sound (some mounted) _ h e = cc
    sound (some cascade_done) passk_done h e = passk
    sound (some cascade_done) frozen h e = freeze (cc)
    sound (some cascade_done) _ h e = cc
    sound (some passk_done) ready h e = finish
    sound (some passk_done) frozen h e = freeze (cc)
    sound (some passk_done) _ h e = cc
    sound (some ready) sliced h e = cc
    sound (some ready) _ h e = cc
    sound (some frozen) frozen h e = freeze (cc)
    sound (some frozen) sliced h e = release (cc) refl
    sound (some frozen) mounted h e = release (cc) refl
    sound (some frozen) cascade_done h e = release (cc) refl
    sound (some frozen) passk_done h e = release (cc) refl
    sound (some frozen) ready h e = release (cc) refl
    sound (some frozen) (unknown u) h e = cc
    sound (some (unknown u)) sliced h e = restart
    sound (some (unknown u)) frozen h e = freeze (cc)
    sound (some (unknown u)) _ h e = cc

    frozen_ok : (s : Option StateName) → s ≢ some ready → check_transition s frozen ≡ none
    frozen_ok none n = refl
    frozen_ok (some ready) n = absurd (n refl)
    frozen_ok (some _) n = refl

    released : (t : StateName) → t ≢ frozen → check_transition (some frozen) t ≡ none
    released frozen n = absurd (n refl)
    released _ n = refl

    complete : (s : Option StateName) (t : StateName) → Step s t → check_transition s t ≡ none
    complete _ _ slice = refl
    complete _ _ mount = refl
    complete _ _ cascade = refl
    complete _ _ passk = refl
    complete _ _ finish = refl
    complete s _ (freeze n) = frozen_ok s n
    complete _ t (release n k) = released t n
    complete _ _ restart = refl
