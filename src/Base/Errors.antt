-- ===== src/Base/Errors.antt =====
-- Python's exceptions as values: a function that may raise returns a `Result`.
use Prim.Native.Nat.{suc}
use Prim.Native.String.{String}
use mathlib.Core.Path.{◌≡◌, refl, subst, ap, ap₂, sym, ◌∙◌}
use mathlib.Core.Logic.{◌⊎◌, inl, inr}
use mathlib.Core.Bool.{Bool, true, false}
use mathlib.Core.List.{List, [], ◌∷◌, map}
use package.kiemchung_ibex_v.Base.Lists.{All, length}

-- The classes of exceptions that the scripts raise or that their expressions raise.
pub data ErrorKind : Type 0 where
  value_error type_error key_error index_error assertion_error : ErrorKind
  runtime_error os_error attribute_error zero_division_error unbound_local_error : ErrorKind
  config_exception gen_error argument_type_error req_err timeout_expired : ErrorKind
  module_not_found system_exit called_process_error unpickling_error : ErrorKind

-- What a call gives: an exception of a class with its message, or a result.
pub data Result {ℓ} (A : Type ℓ) : Type ℓ where
  err : (kind : ErrorKind) → (message : String) → Result A
  ok : (result : A) → Result A

-- `if not b: raise kind(message)`
abbrev pub guard : Bool → ErrorKind → String → Result (Unit {0})
guard b kind message = elim b [ false ↦ err kind message | true ↦ ok tt ]

module _ {ℓ κ} {A : Type ℓ} {B : Type κ} where
  infixl 5 ◌>>=◌
  abbrev pub ◌>>=◌ : Result A → (A → Result B) → Result B
  call >>= rest = elim call [ err kind message ↦ err kind message | ok a ↦ rest a ]

  -- A loop that appends `f(x)` for each `x`, and ends at the first exception.
  abbrev pub traverse : (A → Result B) → List A → Result (List B)
  traverse f [] = ok []
  traverse f (x ∷ xs) = elim (f x) [
    | err kind message ↦ err kind message
    | ok y ↦ elim (traverse f xs) [ err kind message ↦ err kind message | ok ys ↦ ok (y ∷ ys) ]
  ]

  pub >>=-eq-ok :
      (call : Result A) (rest : A → Result B) {result : B}
      → (call >>= rest) ≡ ok result
      → (a : A) × (call ≡ ok a) × (rest a ≡ ok result)
  >>=-eq-ok (err kind message) rest done = cc
  >>=-eq-ok (ok a) rest done = (a, refl, done)

pub Result-cases {ℓ} :
    {A : Type ℓ} (r : Result A)
    → ((kind : ErrorKind) × (message : String) × (r ≡ err kind message)) ⊎ ((a : A) × (r ≡ ok a))
Result-cases (err kind message) = inl (kind, message, refl)
Result-cases (ok a) = inr (a, refl)

infixl 5 ◌>>◌
abbrev pub ◌>>◌ {ℓ} : {B : Type ℓ} → Result (Unit {0}) → Result B → Result B
call >> next = call >>= λ _. next

abbrev pub is_ok {ℓ} : {A : Type ℓ} → Result A → Bool
is_ok (ok _) = true
is_ok (err _ _) = false

pub ok_value {ℓ} : {A : Type ℓ} (r : Result A) → is_ok r ≡ true → (a : A) × (r ≡ ok a)
ok_value (ok a) h = (a, refl)
ok_value (err kind message) h = cc

pub ok-injective {ℓ} : {A : Type ℓ} {a b : A} → ok a ≡ ok b → a ≡ b
ok-injective h = cc

module _ {ℓ κ μ} {A : Type ℓ} {B : Type κ} (P : B → Type μ) where
  -- What each result satisfies, all do.
  pub All-traverse :
      (f : A → Result B) (xs : List A) {ys : List B}
      → ((x : A) (y : B) → f x ≡ ok y → P y)
      → traverse f xs ≡ ok ys
      → All P ys
  All-traverse f [] each h = subst (All P) (ok-injective h) tt
  All-traverse f (x ∷ xs) each h =
      let (y, y_made, h1) = >>=-eq-ok (f x) (λ y. traverse f xs >>= λ ys. ok (y ∷ ys)) h in
      let (ys, ys_made, done) = >>=-eq-ok (traverse f xs) (λ ys. ok (y ∷ ys)) h1 in
      subst (All P) (ok-injective done) (each x y y_made, All-traverse f xs each ys_made)

module _ {ℓ κ μ ν} {A : Type ℓ} {B : Type κ} (Q : A → Type ν) (P : B → Type μ) where
  -- The same where the items that are read satisfy something.
  pub All-traverse_of :
      (f : A → Result B) (xs : List A) {ys : List B}
      → ((x : A) (y : B) → Q x → f x ≡ ok y → P y)
      → All Q xs
      → traverse f xs ≡ ok ys
      → All P ys
  All-traverse_of f [] each all_q h = subst (All P) (ok-injective h) tt
  All-traverse_of f (x ∷ xs) each (q, all_q) h =
      let (y, y_made, h1) = >>=-eq-ok (f x) (λ y. traverse f xs >>= λ ys. ok (y ∷ ys)) h in
      let (ys, ys_made, done) = >>=-eq-ok (traverse f xs) (λ ys. ok (y ∷ ys)) h1 in
      subst (All P) (ok-injective done) (each x y q y_made, All-traverse_of f xs each all_q ys_made)

module _ {ℓ κ μ} {A : Type ℓ} {B : Type κ} {C : Type μ} (g : A → C) (h : B → C) where
  -- What each step keeps, the loop keeps item by item.
  pub map-traverse :
      (f : A → Result B) (xs : List A) {ys : List B}
      → ((x : A) (y : B) → f x ≡ ok y → h y ≡ g x)
      → traverse f xs ≡ ok ys
      → map h ys ≡ map g xs
  map-traverse f [] each e = ap (map h) (sym (ok-injective e))
  map-traverse f (x ∷ xs) each e =
      let (y, y_made, e1) = >>=-eq-ok (f x) (λ y. traverse f xs >>= λ ys. ok (y ∷ ys)) e in
      let (ys, ys_made, done) = >>=-eq-ok (traverse f xs) (λ ys. ok (y ∷ ys)) e1 in
      ap (map h) (sym (ok-injective done))
      ∙ ap₂ ◌∷◌ (each x y y_made) (map-traverse f xs each ys_made)

module _ {ℓ κ} {A : Type ℓ} {B : Type κ} where
  pub length-traverse :
      (f : A → Result B) (xs : List A) {ys : List B} → traverse f xs ≡ ok ys → length ys ≡ length xs
  length-traverse f [] h = ap length (sym (ok-injective h))
  length-traverse f (x ∷ xs) h =
      let (y, _, h1) = >>=-eq-ok (f x) (λ y. traverse f xs >>= λ ys. ok (y ∷ ys)) h in
      let (ys, made, done) = >>=-eq-ok (traverse f xs) (λ ys. ok (y ∷ ys)) h1 in
      ap length (sym (ok-injective done)) ∙ ap suc (length-traverse f xs made)
