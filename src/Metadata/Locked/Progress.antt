-- ===== src/Metadata/Locked/Progress.antt =====
-- The lock of the metadata: a script that waits can always get in.
use kiemchung_ibex_v.Base.{
  ℕ, true, false, none, ◌≡◌, refl, sym, ap, ◌∙◌, arith, if◌then◌else◌, ◌==◌, ==_iff, Bool-cases,
  Option-cases, inl, inr,
}
use kiemchung_ibex_v.Metadata.Locked.{
  State, Phase, put, lock_file, load, export, unlock, Step, Steps, Reachable, holds,
}
use kiemchung_ibex_v.Metadata.Locked.Serial.{Invariant-reachable}

same_number : (p : ℕ) → (p == p) ≡ true
same_number p = ground arith

absurd : false ≡ true → ⊥
absurd h = cc

module _ {M : Type 0} where
  put-same : (p : ℕ) (there : Phase M) (phase : ℕ → Phase M) → put p there phase p ≡ there
  put-same p there phase = ap (λ b. if b then there else phase p) (same_number p)

  put-other :
      (p q : ℕ) (there : Phase M) (phase : ℕ → Phase M)
      → (p == q) ≡ false
      → put q there phase p ≡ phase p
  put-other p q there phase other = ap (λ b. if b then there else phase p) other

  -- A script that waits is not the one that has the lock.
  apart :
      (phase : ℕ → Phase M) (p q : ℕ) (at : Phase M)
      → phase p ≡ Phase.waiting
      → phase q ≡ at
      → holds at ≡ true
      → (p == q) ≡ false
  apart phase p q at e f h = elim (Bool-cases (p == q)) [
    | inr other ↦ other
    | inl same ↦
        elim (absurd
          (sym (ap holds e) ∙ ap (λ r. holds (phase r)) ((==_iff p q).0 same) ∙ ap holds f ∙ h)) [ ]
  ]

  after : {s t u : State M} → Step s t → Steps t u → Steps s u
  after step Steps.done = Steps.next Steps.done step
  after step (Steps.next steps last) = Steps.next (after step steps) last

  -- Some steps take script `p` into its section, with what the file then holds.
  abbrev pub CanEnter : ℕ → State M → Type 0
  CanEnter p s = (t : State M) × Steps s t × (t.phase p ≡ Phase.inside t.file t.file)

  CanEnter-after : (p : ℕ) {s t : State M} → Step s t → CanEnter p t → CanEnter p s
  CanEnter-after p step (u, steps, e) = (u, after step steps, e)

  CanEnter-free : (p : ℕ) (s : State M) → s.phase p ≡ Phase.waiting → s.holder ≡ none → CanEnter p s
  CanEnter-free p s e free =
      let taken = lock_file p s in
      (
        load p taken,
        Steps.next (Steps.next Steps.done (Step.acquire p e free))
            (Step.read p (put-same p Phase.locked s.phase)),
        put-same p (Phase.inside s.file s.file) taken.phase,
      )

  CanEnter-exported :
      (p q : ℕ) (s : State M)
      → s.phase p ≡ Phase.waiting
      → s.phase q ≡ Phase.exported
      → CanEnter p s
  CanEnter-exported p q s e f = CanEnter-after p (Step.release q f) (
      CanEnter-free p (unlock q s)
        (put-other p q Phase.left s.phase (apart s.phase p q Phase.exported e f refl) ∙ e) refl)

  CanEnter-inside :
      (p q : ℕ) (s : State M) (loaded md : M)
      → s.phase p ≡ Phase.waiting
      → s.phase q ≡ Phase.inside loaded md
      → CanEnter p s
  CanEnter-inside p q s loaded md e f = CanEnter-after p (Step.commit q f) (
      CanEnter-exported p q (export q loaded md s)
        (put-other p q Phase.exported s.phase (apart s.phase p q (Phase.inside loaded md) e f refl)
          ∙ e)
        (put-same q Phase.exported s.phase))

  CanEnter-locked :
      (p q : ℕ) (s : State M) → s.phase p ≡ Phase.waiting → s.phase q ≡ Phase.locked → CanEnter p s
  CanEnter-locked p q s e f = CanEnter-after p (Step.read q f) (
      CanEnter-inside p q (load q s) s.file s.file
        (put-other p q (Phase.inside s.file s.file) s.phase
            (apart s.phase p q Phase.locked e f refl)
          ∙ e)
        (put-same q (Phase.inside s.file s.file) s.phase))

  CanEnter-held :
      (p q : ℕ) (s : State M) (at : Phase M)
      → s.phase p ≡ Phase.waiting
      → s.phase q ≡ at
      → holds at ≡ true
      → CanEnter p s
  CanEnter-held p q s Phase.outside e f h = cc
  CanEnter-held p q s Phase.waiting e f h = cc
  CanEnter-held p q s Phase.locked e f h = CanEnter-locked p q s e f
  CanEnter-held p q s (Phase.inside loaded md) e f h = CanEnter-inside p q s loaded md e f
  CanEnter-held p q s Phase.exported e f h = CanEnter-exported p q s e f
  CanEnter-held p q s Phase.left e f h = cc
  CanEnter-held p q s Phase.gave_up e f h = cc

-- Whatever has happened, there are steps that take a script that waits for the lock into its
-- section, where it has what the file then holds: no state is a deadlock.
pub Reachable-CanEnter :
    {M : Type 0} (m : M) (s : State M) (p : ℕ)
    → Reachable m s
    → s.phase p ≡ Phase.waiting
    → CanEnter p s
Reachable-CanEnter m s p r e = elim (Option-cases s.holder) [
  | inl free ↦ CanEnter-free p s e free
  | inr (q, taken) ↦
      CanEnter-held p q s (s.phase q) e refl ((Invariant-reachable m s r).held q taken)
]
