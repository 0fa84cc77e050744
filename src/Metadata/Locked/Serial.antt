-- ===== src/Metadata/Locked/Serial.antt =====
-- The lock of the metadata: no change is lost.
use kiemchung_ibex_v.Base.{
  ℕ, Bool, true, false, List, [], ◌∷◌, Option, none, some, ◌≡◌, refl, sym, ap, subst, ◌∙◌, arith,
  if◌then◌else◌, ◌==◌, ==_iff, Bool-cases, inl, inr,
}
use kiemchung_ibex_v.Metadata.Locked.{
  State, Phase, put, goto, Step, Steps, Reachable, start_of, holds,
}

cc_bool : true ≡ false → ⊥
cc_bool h = cc

another : (p q : ℕ) → some p ≡ some q → (q == p) ≡ false → ⊥
another p q h other = ground (arith, h, other)

same_holder : {o : Option ℕ} {p q : ℕ} → o ≡ some p → o ≡ some q → p ≡ q
same_holder h k = cc

module _ {M : Type 0} where
  -- The sections that were committed follow one another: each has read what the one before it has
  -- written, the first one what the file held at first, and the file holds what the last one wrote.
  abbrev pub Serial : M → List (M × M) → M → Type 0
  Serial m [] file = file ≡ m
  Serial m ((loaded, written) ∷ history) file = (file ≡ written) × Serial m history loaded

  -- What holds of one script: if it has the lock, it is the one that the lock names, and what it has
  -- read is what the file holds.
  abbrev Fits : Option ℕ → M → ℕ → Phase M → Type 0
  Fits holder file p (Phase.inside loaded md) = (holder ≡ some p) × (loaded ≡ file)
  Fits holder file p Phase.locked = holder ≡ some p
  Fits holder file p Phase.exported = holder ≡ some p
  Fits holder file p _ = Unit {0}

  pub record Invariant (m : M) (s : State M) : Type 0 where
    pub fits : (p : ℕ) → Fits s.holder s.file p (s.phase p)
    pub held : (p : ℕ) → s.holder ≡ some p → holds (s.phase p) ≡ true
    pub serial : Serial m s.history s.file

  Invariant-start : (m : M) → Invariant m (start_of m)
  Invariant-start m = record { fits = λ p. tt; held = λ p h. cc; serial = refl }

  -- A phase that does not have the lock fits everywhere.
  Fits-other :
      (holder holder' : Option ℕ) (file file' : M) (q : ℕ) (there : Phase M)
      → (holder ≡ some q → ⊥)
      → Fits holder file q there
      → Fits holder' file' q there
  Fits-other holder holder' file file' q Phase.outside absent h = tt
  Fits-other holder holder' file file' q Phase.waiting absent h = tt
  Fits-other holder holder' file file' q Phase.locked absent h = elim (absent h) [ ]
  Fits-other holder holder' file file' q (Phase.inside loaded md) absent h = elim (absent h.0) [ ]
  Fits-other holder holder' file file' q Phase.exported absent h = elim (absent h) [ ]
  Fits-other holder holder' file file' q Phase.left absent h = tt
  Fits-other holder holder' file file' q Phase.gave_up absent h = tt

  -- What holds of a script that moves, and of each other one, holds of all.
  put-all :
      (P : ℕ → Phase M → Type 0) (p : ℕ) (there : Phase M) (phase : ℕ → Phase M)
      → P p there
      → ((q : ℕ) → (q == p) ≡ false → P q (phase q))
      → (q : ℕ) → P q (put p there phase q)
  put-all P p there phase new old q = elim (Bool-cases (q == p)) [
    | inl same ↦
        subst (λ (b : Bool). P q (if b then there else phase q)) (sym same)
          (subst (λ r. P r there) (sym ((==_iff q p).0 same)) new)
    | inr other ↦ subst (λ (b : Bool). P q (if b then there else phase q)) (sym other) (old q other)
  ]

  abbrev Held : Option ℕ → ℕ → Phase M → Type 0
  Held holder q there = holder ≡ some q → holds there ≡ true

  -- A script goes on, and neither the lock nor the file changes.
  Invariant-goto :
      (m : M) (s : State M) (p : ℕ) (there : Phase M)
      → Invariant m s
      → Fits s.holder s.file p there
      → Held s.holder p there
      → Invariant m (goto p there s)
  Invariant-goto m s p there i fits held = record {
    fits = put-all (Fits s.holder s.file) p there s.phase fits (λ q other. i.fits q);
    held = put-all (Held s.holder) p there s.phase held (λ q other. i.held q);
    serial = i.serial;
  }

  -- Who does not hold the lock is not in a section, and who holds it is.
  not_held :
      (m : M) (s : State M) (p : ℕ) (at : Phase M)
      → Invariant m s
      → s.phase p ≡ at
      → holds at ≡ false
      → s.holder ≡ some p
      → ⊥
  not_held m s p at i e off h = cc_bool (sym (i.held p h) ∙ ap holds e ∙ off)

  fits_at :
      (m : M) (s : State M) (p : ℕ) (at : Phase M)
      → Invariant m s
      → s.phase p ≡ at
      → Fits s.holder s.file p at
  fits_at m s p at i e = subst (Fits s.holder s.file p) e (i.fits p)

  -- The holder of the lock releases it.
  Invariant-release :
      (m : M) (s : State M) (p : ℕ) (there : Phase M)
      → Invariant m s
      → s.holder ≡ some p
      → Fits none s.file p there
      → Invariant m (record s { phase = put p there s.phase; holder = none })
  Invariant-release m s p there i h fits = record {
    fits = put-all (Fits none s.file) p there s.phase fits (λ q other.
        Fits-other s.holder none s.file s.file q (s.phase q) (λ k. another p q (sym h ∙ k) other)
          (i.fits q));
    held = λ q k. cc;
    serial = i.serial;
  }

  Invariant-Step : (m : M) (s t : State M) → Invariant m s → Step s t → Invariant m t
  Invariant-Step m s _ i (Step.enter p e) =
      Invariant-goto m s p Phase.waiting i tt
        (λ h. elim (not_held m s p Phase.outside i e refl h) [ ])
  Invariant-Step m s _ i (Step.acquire p e free) = record {
    fits =
        put-all (Fits (some p) s.file) p Phase.locked s.phase refl (λ q other.
          Fits-other s.holder (some p) s.file s.file q (s.phase q) (λ k. cc) (i.fits q));
    held =
        put-all (Held (some p)) p Phase.locked s.phase (λ h. refl)
          (λ q other h. elim (another p q h other) [ ]);
    serial = i.serial;
  }
  Invariant-Step m s _ i (Step.read p e) =
      Invariant-goto m s p (Phase.inside s.file s.file) i (fits_at m s p Phase.locked i e, refl)
        (λ h. refl)
  Invariant-Step m s _ i (Step.modify p f {loaded} {md} e) =
      Invariant-goto m s p (Phase.inside loaded (f md)) i
        (fits_at m s p (Phase.inside loaded md) i e) (λ h. refl)
  Invariant-Step m s _ i (Step.commit p {loaded} {md} e) =
      let (mine, current) = fits_at m s p (Phase.inside loaded md) i e in
      record {
        fits = put-all (Fits s.holder md) p Phase.exported s.phase mine (λ q other.
            Fits-other s.holder s.holder s.file md q (s.phase q)
              (λ k. another p q (sym mine ∙ k) other) (i.fits q));
        held = put-all (Held s.holder) p Phase.exported s.phase (λ h. refl) (λ q other. i.held q);
        serial = (refl, subst (Serial m s.history) (sym current) i.serial);
      }
  Invariant-Step m s _ i (Step.release p e) =
      Invariant-release m s p Phase.left i (fits_at m s p Phase.exported i e) tt
  Invariant-Step m s _ i (Step.alarm_waiting p e) =
      Invariant-goto m s p Phase.gave_up i tt
        (λ h. elim (not_held m s p Phase.waiting i e refl h) [ ])
  Invariant-Step m s _ i (Step.alarm_locked p e) =
      Invariant-release m s p Phase.gave_up i (fits_at m s p Phase.locked i e) tt

  pub holder_is :
      (holder : Option ℕ) (file : M) (p : ℕ) (at : Phase M)
      → Fits holder file p at
      → holds at ≡ true
      → holder ≡ some p
  holder_is holder file p Phase.outside f h = cc
  holder_is holder file p Phase.waiting f h = cc
  holder_is holder file p Phase.locked f h = f
  holder_is holder file p (Phase.inside loaded md) f h = f.0
  holder_is holder file p Phase.exported f h = f
  holder_is holder file p Phase.left f h = cc
  holder_is holder file p Phase.gave_up f h = cc

  pub Invariant-reachable : (m : M) (s : State M) → Reachable m s → Invariant m s
  Invariant-reachable m _ Steps.done = Invariant-start m
  Invariant-reachable m s (Steps.next {t} so_far step) =
      Invariant-Step m t s (Invariant-reachable m t so_far) step

-- However the scripts interleave: at most one script has the lock, what the one inside has read is
-- what the file holds, and the sections that were committed follow one another, so that none
-- overwrites a change that it has not read.
pub Locked-Serial :
    {M : Type 0} (m : M) (s : State M)
    → Reachable m s
    → ((p q : ℕ) → holds (s.phase p) ≡ true → holds (s.phase q) ≡ true → p ≡ q)
      × ((p : ℕ) (loaded md : M) → s.phase p ≡ Phase.inside loaded md → loaded ≡ s.file)
      × Serial m s.history s.file
Locked-Serial m s r =
    let i = Invariant-reachable m s r in
    (
      (λ p q h k.
          same_holder (holder_is s.holder s.file p (s.phase p) (i.fits p) h)
            (holder_is s.holder s.file q (s.phase q) (i.fits q) k)),
      (λ p loaded md e. (fits_at m s p (Phase.inside loaded md) i e).1),
      i.serial,
    )
