-- ===== src/Metadata/Locked.antt =====
-- `LockedMetadata` of metadata.py: several scripts that run at once read and write the file of the
-- metadata, each between `__enter__` and `__exit__`. A step is what one of them does next; the
-- scripts are numbered. The file holds one value, of any type `M`; the alarm may go off at any time
-- before it is switched off, and then the script ends, and its lock with it. Scripts that read the
-- file without the lock change nothing, so they are left out.
pub mod Serial
pub mod Progress
mod Tests
use kiemchung_ibex_v.Base.{
  ℕ, Bool, true, false, List, [], ◌∷◌, Option, none, some, ◌≡◌, if◌then◌else◌, ◌==◌,
}

-- Where a script is. One that is inside has the metadata that it read, and those that it holds now.
pub data Phase (M : Type 0) : Type 0 where
  outside waiting locked : Phase M
  inside : (loaded md : M) → Phase M
  exported left gave_up : Phase M

-- The file, who holds its lock, and where each script is; besides, what each section that was
-- committed had read and has written, last first.
pub record State (M : Type 0) : Type 0 where
  pub file : M
  pub holder : Option ℕ
  pub phase : ℕ → Phase M
  pub history : List (M × M)

module _ {M : Type 0} where
  -- Script `p` goes on to a phase.
  abbrev pub put : ℕ → Phase M → (ℕ → Phase M) → ℕ → Phase M
  put p there phase q = if q == p then there else phase q

  abbrev pub goto : ℕ → Phase M → State M → State M
  goto p there s = record s { phase = put p there s.phase }

  -- `portalocker.lock(self.handle, EXCLUSIVE)`
  abbrev pub lock_file : ℕ → State M → State M
  lock_file p s = record s { phase = put p Phase.locked s.phase; holder = some p }

  -- `self.md = pickle.load(self.handle)`
  abbrev pub load : ℕ → State M → State M
  load p s = goto p (Phase.inside s.file s.file) s

  -- `self.md.export(write_yaml=True)`
  abbrev pub export : ℕ → M → M → State M → State M
  export p loaded md s = record s {
    phase = put p Phase.exported s.phase;
    file = md;
    history = (loaded, md) ∷ s.history;
  }

  -- `portalocker.unlock(self.handle)`
  abbrev pub unlock : ℕ → State M → State M
  unlock p s = record s { phase = put p Phase.left s.phase; holder = none }

  -- The script ends, and its lock with it.
  abbrev pub abandon : ℕ → State M → State M
  abandon p s = record s { phase = put p Phase.gave_up s.phase; holder = none }

  pub data Step (s : State M) : State M → Type 0 where
    enter : (p : ℕ) → s.phase p ≡ Phase.outside → Step s (goto p Phase.waiting s)
    acquire : (p : ℕ) → s.phase p ≡ Phase.waiting → s.holder ≡ none → Step s (lock_file p s)
    read : (p : ℕ) → s.phase p ≡ Phase.locked → Step s (load p s)
    modify :
        (p : ℕ) (f : M → M) {loaded md : M}
        → s.phase p ≡ Phase.inside loaded md
        → Step s (goto p (Phase.inside loaded (f md)) s)
    commit :
        (p : ℕ) {loaded md : M} → s.phase p ≡ Phase.inside loaded md → Step s (export p loaded md s)
    release : (p : ℕ) → s.phase p ≡ Phase.exported → Step s (unlock p s)
    alarm_waiting : (p : ℕ) → s.phase p ≡ Phase.waiting → Step s (goto p Phase.gave_up s)
    alarm_locked : (p : ℕ) → s.phase p ≡ Phase.locked → Step s (abandon p s)

  -- No script has begun.
  abbrev pub start_of : M → State M
  start_of m = record { file = m; holder = none; phase = λ _. Phase.outside; history = [] }

  -- Some steps, the last one last
  pub data Steps (s : State M) : State M → Type 0 where
    done : Steps s s
    next : {t u : State M} → Steps s t → Step t u → Steps s u

  abbrev pub Reachable : M → State M → Type 0
  Reachable m s = Steps (start_of m) s

  -- Whether a script has the lock
  abbrev pub holds : Phase M → Bool
  holds Phase.locked = true
  holds (Phase.inside _ _) = true
  holds Phase.exported = true
  holds _ = false
