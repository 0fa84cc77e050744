-- ===== src/Metadata/Locked/Tests.antt =====
-- Two scripts that each add to a number in the file.
use kiemchung_ibex_v.Base.{ℕ, ◌+◌, true, [], ◌∷◌, ◌≡◌, refl}
use kiemchung_ibex_v.Metadata.Locked.{
  State, Phase, goto, lock_file, load, export, unlock, Step, Steps, Reachable, start_of, holds,
}
use kiemchung_ibex_v.Metadata.Locked.Serial.{Serial, Locked-Serial}
use kiemchung_ibex_v.Metadata.Locked.Progress.{CanEnter, Reachable-CanEnter}

-- Script 0 adds one and commits, while script 1 waits.
abbrev one_waits : State ℕ
one_waits =
    goto 1 Phase.waiting
      (goto 0 (Phase.inside 7 8) (load 0 (lock_file 0 (goto 0 Phase.waiting (start_of 7)))))

abbrev one_waits_reached : Reachable 7 one_waits
one_waits_reached =
    Steps.next
      (Steps.next
        (Steps.next
          (Steps.next (Steps.next Steps.done (Step.enter 0 refl)) (Step.acquire 0 refl refl))
          (Step.read 0 refl))
        (Step.modify 0 (λ n. n + 1) refl))
      (Step.enter 1 refl)

abbrev committed : State ℕ
committed = load 1 (lock_file 1 (unlock 0 (export 0 7 8 one_waits)))

abbrev committed_reached : Reachable 7 committed
committed_reached =
    Steps.next
      (Steps.next
        (Steps.next (Steps.next one_waits_reached (Step.commit 0 refl)) (Step.release 0 refl))
        (Step.acquire 1 refl refl))
      (Step.read 1 refl)

Locked-Serial_example :
    ((p q : ℕ) → holds (committed.phase p) ≡ true → holds (committed.phase q) ≡ true → p ≡ q)
    × ((p : ℕ) (loaded md : ℕ) → committed.phase p ≡ Phase.inside loaded md → loaded ≡ 8)
    × Serial {M = ℕ} 7 ((7, 8) ∷ []) 8
Locked-Serial_example = Locked-Serial 7 committed committed_reached

Reachable-CanEnter_example : CanEnter 1 one_waits
Reachable-CanEnter_example = Reachable-CanEnter 7 one_waits 1 one_waits_reached refl
