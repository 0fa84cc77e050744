-- ===== src/Base/Lists.antt =====
-- Lists measured by native numbers, with Boolean searches that run, and predicates on all items.
use Prim.Native.Nat.{ℕ, zero, suc, ◌+◌}
use mathlib.Core.Path.{◌≡◌, refl, ap, sym, ◌∙◌}
use mathlib.Core.Logic.{◌≢◌, inl, inr}
use mathlib.Core.Bool.{Bool, true, false, ◌&&◌, ◌||◌}
use mathlib.Core.List.{List, [], ◌∷◌, ◌++◌, map, append_assoc}
use mathlib.Core.Option.{Option, none, some}
use native.Mathlib.Omega.{arith}
use package.kiemchung_ibex_v.Base.Tests.{if◌then◌else◌, Bool-cases}

module _ {ℓ} {A : Type ℓ} where
  abbrev pub length : List A → ℕ
  length [] = 0
  length (x ∷ xs) = suc (length xs)

  abbrev pub replicate : ℕ → A → List A
  replicate zero a = []
  replicate (suc n) a = a ∷ replicate n a

  abbrev pub any : (A → Bool) → List A → Bool
  any p [] = false
  any p (x ∷ xs) = p x || any p xs

  abbrev pub all : (A → Bool) → List A → Bool
  all p [] = true
  all p (x ∷ xs) = p x && all p xs

  abbrev pub get_elem? : List A → ℕ → Option A
  get_elem? [] i = none
  get_elem? (x ∷ xs) zero = some x
  get_elem? (x ∷ xs) (suc i) = get_elem? xs i

  -- `[x for x in xs if p(x)]`
  abbrev pub keep : (A → Bool) → List A → List A
  keep p [] = []
  keep p (x ∷ xs) = let rest = keep p xs in if p x then x ∷ rest else rest

  -- `next(filter(p, xs), None)`
  abbrev pub first : (A → Bool) → List A → Option A
  first p [] = none
  first p (x ∷ xs) = if p x then some x else first p xs

  -- `enumerate(xs, n)`
  abbrev pub enumerate : ℕ → List A → List (ℕ × A)
  enumerate n [] = []
  enumerate n (x ∷ xs) = (n, x) ∷ enumerate (suc n) xs

  pub length-append : (xs ys : List A) → length (xs ++ ys) ≡ length xs + length ys
  length-append [] ys = omega arith
  length-append (x ∷ xs) ys = omega (arith, length-append xs ys)

  pub keep-append : (p : A → Bool) (xs ys : List A) → keep p (xs ++ ys) ≡ keep p xs ++ keep p ys
  keep-append p [] ys = refl
  keep-append p (x ∷ xs) ys = elim (Bool-cases (p x)) [
    | inl yes_p ↦ rw (yes_p) (ap (λ (zs : List A). x ∷ zs) (keep-append p xs ys))
    | inr no_p ↦ rw (no_p) (keep-append p xs ys)
  ]

module _ {ℓ κ} {A : Type ℓ} {B : Type κ} where
  -- `[y for x in xs for y in f(x)]`
  abbrev pub concat_map : (A → List B) → List A → List B
  concat_map f [] = []
  concat_map f (x ∷ xs) = f x ++ concat_map f xs

module _ {ℓ κ} {A : Type ℓ} {B : Type κ} where
  pub concat_map-append :
      (f : A → List B) (xs ys : List A)
      → concat_map f (xs ++ ys) ≡ concat_map f xs ++ concat_map f ys
  concat_map-append f [] ys = refl
  concat_map-append f (x ∷ xs) ys =
      ap (λ (zs : List B). f x ++ zs) (concat_map-append f xs ys)
      ∙ sym (append_assoc (f x) (concat_map f xs) (concat_map f ys))

  pub map-append : (f : A → B) (xs ys : List A) → map f (xs ++ ys) ≡ map f xs ++ map f ys
  map-append f [] ys = refl
  map-append f (x ∷ xs) ys = ap (λ (zs : List B). f x ∷ zs) (map-append f xs ys)

  pub keep-map :
      (p : B → Bool) (f : A → B) (xs : List A) → keep p (map f xs) ≡ map f (keep (λ x. p (f x)) xs)
  keep-map p f [] = refl
  keep-map p f (x ∷ xs) = elim (Bool-cases (p (f x))) [
    | inl yes_p ↦ rw (yes_p) (ap (λ (zs : List B). f x ∷ zs) (keep-map p f xs))
    | inr no_p ↦ rw (no_p) (keep-map p f xs)
  ]

module _ {ℓ κ} {A : Type ℓ} (P : A → Type κ) where
  abbrev pub All : List A → Type κ
  All [] = Unit
  All (x ∷ xs) = P x × All xs

  pub All-every : (xs : List A) → ((x : A) → P x) → All xs
  All-every [] f = tt
  All-every (x ∷ xs) f = (f x, All-every xs f)

  pub All-append : (xs ys : List A) → All xs → All ys → All (xs ++ ys)
  All-append [] ys _ k = k
  All-append (x ∷ xs) ys (p, h) k = (p, All-append xs ys h k)

  -- What a test finds of every item
  pub All-of_all :
      (p : A → Bool) (xs : List A) → ((x : A) → p x ≡ true → P x) → all p xs ≡ true → All xs
  All-of_all p [] sound h = tt
  All-of_all p (x ∷ xs) sound h =
      (sound x (ground (arith, h)), All-of_all p xs sound (ground (arith, h)))

module _ {ℓ κ μ ν} {A : Type ℓ} (P : A → Type κ) (Q : A → Type μ) (R : A → Type ν) where
  pub All-and : (xs : List A) → ((x : A) → P x → Q x → R x) → All P xs → All Q xs → All R xs
  All-and [] both h k = tt
  All-and (x ∷ xs) both (p, h) (q, k) = (both x p q, All-and xs both h k)

module _ {ℓ κ μ} {A : Type ℓ} {P : A → Type κ} {Q : A → Type μ} where
  pub All-mono : (xs : List A) → ((x : A) → P x → Q x) → All P xs → All Q xs
  All-mono [] weaker h = tt
  All-mono (x ∷ xs) weaker (p, h) = (weaker x p, All-mono xs weaker h)

module _ {ℓ} {A : Type ℓ} where
  -- No item occurs twice.
  abbrev pub Distinct : List A → Type ℓ
  Distinct [] = Unit
  Distinct (x ∷ xs) = All (λ y. x ≢ y) xs × Distinct xs

  pub Distinct-append :
      (xs ys : List A)
      → Distinct xs
      → Distinct ys
      → All (λ x. All (λ y. x ≢ y) ys) xs
      → Distinct (xs ++ ys)
  Distinct-append [] ys h k apart = k
  Distinct-append (x ∷ xs) ys (p, h) k (q, apart) =
      (All-append (λ y. x ≢ y) xs ys p q, Distinct-append xs ys h k apart)

module _ {ℓ κ μ} {A : Type ℓ} {B : Type κ} (f : A → B) (Q : B → Type μ) where
  pub All-map : (xs : List A) → All (λ x. Q (f x)) xs → All Q (map f xs)
  All-map [] h = tt
  All-map (x ∷ xs) (q, h) = (q, All-map xs h)

  pub All-of-map : (xs : List A) → All Q (map f xs) → All (λ x. Q (f x)) xs
  All-of-map [] h = tt
  All-of-map (x ∷ xs) (q, h) = (q, All-of-map xs h)

module _ {ℓ κ μ} {A : Type ℓ} {B : Type κ} (P : A → Type μ) (f : A → B) where
  -- A function that is injective where `P` holds keeps items distinct.
  pub Distinct-map :
      (xs : List A)
      → ((x y : A) → P x → P y → f x ≡ f y → x ≡ y)
      → All P xs
      → Distinct xs
      → Distinct (map f xs)
  Distinct-map [] inj h d = tt
  Distinct-map (x ∷ xs) inj (p, h) (apart, d) = (
    All-map f (λ y. f x ≢ y) xs
        (All-and P (λ y. x ≢ y) (λ y. f x ≢ f y) xs (λ y q differ same. differ (inj x y p q same)) h
          apart),
    Distinct-map xs inj h d,
  )
