-- ===== src/IbexCmd/Isa.antt =====
-- The ISA strings, and that the options asked for are ones that util/ibex_config.py knows.
use kiemchung_ibex_v.Base.{String, ◌<>◌, Bool, true, false, List, [], ◌∷◌, Option, none, some, ◌≡◌}
use kiemchung_ibex_v.Base.{arith, Result, ok, err, ErrorKind, any, if◌then◌else◌, str_eq, eq_iff}
use kiemchung_ibex_v.Base.{ℕ, refl, ap, ◌∙◌, leb, not, map, keep}
use kiemchung_ibex_v.Base.{inl, inr, ◌⊎◌}
use kiemchung_ibex_v.Base.Dict.{lookup}
use kiemchung_ibex_v.Base.Text.{join, split}
use kiemchung_ibex_v.IbexConfig.{Config}
use kiemchung_ibex_v.IbexConfig.Outputs.{output_types}
use kiemchung_ibex_v.IbexCmd.{
  sim_cfgs, needs_opts, output_type_name, bitmanip_mapping, base_isa, get_isas_for_config,
}

abbrev pub is_empty : List String → Bool
is_empty [] = true
is_empty (x ∷ xs) = false

-- The two ISA strings, by the list of extensions alone
abbrev pub isas : String → String → Option (List String) → Result (String × String)
isas rv32b base none =
    err ErrorKind.value_error ("Unknown RV32B value (" <> rv32b <> ") in config YAML")
isas rv32b base (some exts) =
    ok (base <> (if is_empty exts then "" else "b"), join "_" (base ∷ exts))

isas_lem :
    (cfg : Config)
    → get_isas_for_config cfg ≡ isas cfg.rv32b (base_isa cfg) (lookup cfg.rv32b bitmanip_mapping)
unfolding get_isas_for_config lookup
isas_lem cfg = ground (
  arith,
  eq_iff "ibex_pkg::RV32BNone" cfg.rv32b,
  eq_iff cfg.rv32b "ibex_pkg::RV32BNone",
  eq_iff "ibex_pkg::RV32BBalanced" cfg.rv32b,
  eq_iff "ibex_pkg::RV32BOTEarlGrey" cfg.rv32b,
  eq_iff "ibex_pkg::RV32BFull" cfg.rv32b,
)

-- The bit manipulation of a core, from none to all of it
pub data Level : Type 0 where
  no_bitmanip balanced otearlgrey full : Level

abbrev pub level : String → Option Level
level rv32b =
    if str_eq rv32b "ibex_pkg::RV32BNone"
    then some no_bitmanip
    else if str_eq rv32b "ibex_pkg::RV32BBalanced"
    then some balanced
    else if str_eq rv32b "ibex_pkg::RV32BOTEarlGrey"
    then some otearlgrey
    else if str_eq rv32b "ibex_pkg::RV32BFull"
    then some full
    else none

-- The lowest level that has an extension, as a number
abbrev pub rank : Level → ℕ
rank no_bitmanip = 0
rank balanced = 1
rank otearlgrey = 2
rank full = 3

abbrev pub extensions : Level → List String
extensions l =
    map (λ (e : String × ℕ). e.0)
      (keep (λ (e : String × ℕ). leb e.1 (rank l))
        (("Zba", 1)
          ∷ ("Zbb", 1)
          ∷ ("Zbc", 2)
          ∷ ("Zbs", 1)
          ∷ ("XZbe", 3)
          ∷ ("XZbf", 1)
          ∷ ("XZbp", 2)
          ∷ ("XZbr", 2)
          ∷ ("XZbt", 1)
          ∷ []))

-- The base ISA of a core with the embedded register file or not, and with a multiplier or not
abbrev pub base_of : Bool → Bool → String
base_of true true = "rv32emc"
base_of true false = "rv32ec"
base_of false true = "rv32imc"
base_of false false = "rv32ic"

abbrev pub base : Config → String
base cfg = base_of cfg.rv32e (not (str_eq cfg.rv32m "ibex_pkg::RV32MNone"))

base_lem :
    (e m : Bool)
    → "rv32" <> (if e then "e" else "i") <> (if m then "m" else "") <> "c" ≡ base_of e m
base_lem true true = refl
base_lem true false = refl
base_lem false true = refl
base_lem false false = refl

base_isa-base : (cfg : Config) → base_isa cfg ≡ base cfg
unfolding base_isa
base_isa-base cfg = base_lem cfg.rv32e (not (str_eq cfg.rv32m "ibex_pkg::RV32MNone"))

abbrev extensions_at : Option Level → Option (List String)
extensions_at none = none
extensions_at (some l) = some (extensions l)

mapping_lem : (rv32b : String) → lookup rv32b bitmanip_mapping ≡ extensions_at (level rv32b)
unfolding lookup
mapping_lem rv32b = ground (
  arith,
  eq_iff "ibex_pkg::RV32BNone" rv32b,
  eq_iff rv32b "ibex_pkg::RV32BNone",
  eq_iff "ibex_pkg::RV32BBalanced" rv32b,
  eq_iff rv32b "ibex_pkg::RV32BBalanced",
  eq_iff "ibex_pkg::RV32BOTEarlGrey" rv32b,
  eq_iff rv32b "ibex_pkg::RV32BOTEarlGrey",
  eq_iff "ibex_pkg::RV32BFull" rv32b,
  eq_iff rv32b "ibex_pkg::RV32BFull",
)

split_lem :
    (e m : Bool) (l : Level)
    → split b'_' (join "_" (base_of e m ∷ extensions l)) ≡ base_of e m ∷ extensions l
unfolding split join
split_lem true true no_bitmanip = refl
split_lem true true balanced = refl
split_lem true true otearlgrey = refl
split_lem true true full = refl
split_lem true false no_bitmanip = refl
split_lem true false balanced = refl
split_lem true false otearlgrey = refl
split_lem true false full = refl
split_lem false true no_bitmanip = refl
split_lem false true balanced = refl
split_lem false true otearlgrey = refl
split_lem false true full = refl
split_lem false false no_bitmanip = refl
split_lem false false balanced = refl
split_lem false false otearlgrey = refl
split_lem false false full = refl

-- What the strings are for a level: an error, or the toolchain's and one that lists the extensions
abbrev pub Described : Config → Option Level → Type 0
Described cfg none =
    get_isas_for_config cfg
    ≡ err ErrorKind.value_error ("Unknown RV32B value (" <> cfg.rv32b <> ") in config YAML")
Described cfg (some l) =
    (toolchain_isa iss_isa : String) × (get_isas_for_config cfg ≡ ok (toolchain_isa, iss_isa))
    × (toolchain_isa ≡ base cfg <> (if leb 1 (rank l) then "b" else ""))
    × (split b'_' iss_isa ≡ base cfg ∷ extensions l)

abbrev b_if : Bool → String
b_if has_bitmanip = if has_bitmanip then "b" else ""

toolchain_lem : (l : Level) → (if is_empty (extensions l) then "" else "b") ≡ b_if (leb 1 (rank l))
toolchain_lem no_bitmanip = refl
toolchain_lem balanced = refl
toolchain_lem otearlgrey = refl
toolchain_lem full = refl

described_lem :
    (cfg : Config) (found : Option Level)
    → get_isas_for_config cfg ≡ isas cfg.rv32b (base cfg) (extensions_at found)
    → Described cfg found
described_lem cfg none h = h
described_lem cfg (some l) h = (
  base cfg <> (if is_empty (extensions l) then "" else "b"),
  join "_" (base cfg ∷ extensions l),
  h,
  ap (λ b. base cfg <> b) (toolchain_lem l),
  split_lem cfg.rv32e (not (str_eq cfg.rv32m "ibex_pkg::RV32MNone")) l,
)

-- The strings fail exactly for an `RV32B` value of no level. Else the ISS gets a string that, split at
-- its underscores, is the base ISA and the extensions of the level; and the toolchain gets the base
-- ISA, with a `b` exactly if there are extensions. The base ISA tells whether the core is embedded and
-- whether it has a multiplier.
pub get_isas_for_config-isas : (cfg : Config) → Described cfg (level cfg.rv32b)
get_isas_for_config-isas cfg = described_lem cfg (level cfg.rv32b) (
    isas_lem cfg
    ∙ ap (λ b. isas cfg.rv32b b (lookup cfg.rv32b bitmanip_mapping)) (base_isa-base cfg)
    ∙ ap (isas cfg.rv32b (base cfg)) (mapping_lem cfg.rv32b))

simulator_cases :
    (simulator : String) (needs : Bool × Bool)
    → lookup simulator sim_cfgs ≡ some needs
    → ((needs ≡ (true, true)) × ((simulator ≡ "riviera") ⊎ (simulator ≡ "questa")))
      ⊎ ((needs ≡ (true, false))
          × ((simulator ≡ "vcs") ⊎ (simulator ≡ "xlm") ⊎ (simulator ≡ "dsim")))
unfolding lookup
simulator_cases simulator needs h = ground (
  arith,
  eq_iff "vcs" simulator,
  eq_iff "riviera" simulator,
  eq_iff "questa" simulator,
  eq_iff "xlm" simulator,
  eq_iff "dsim" simulator,
)

stage_cases :
    (stage : String) (needs : Bool × Bool)
    → needs_opts stage needs ≡ ok true
    → (stage ≡ "compile") ⊎ (stage ≡ "sim")
unfolding needs_opts
stage_cases stage (c, s) h = ground (arith, eq_iff stage "compile", eq_iff stage "sim")

abbrev Offered : String → String → Bool × Bool → Type 0
Offered simulator stage needs =
    any (str_eq (output_type_name simulator stage needs)) output_types ≡ true

two_phase :
    (simulator stage : String)
    → (simulator ≡ "riviera") ⊎ (simulator ≡ "questa")
    → (stage ≡ "compile") ⊎ (stage ≡ "sim")
    → Offered simulator stage (true, true)
unfolding output_type_name
two_phase simulator stage (inl p) (inl q) = rw (p, q)
two_phase simulator stage (inl p) (inr q) = rw (p, q)
two_phase simulator stage (inr p) (inl q) = rw (p, q)
two_phase simulator stage (inr p) (inr q) = rw (p, q)

one_phase :
    (simulator stage : String)
    → (simulator ≡ "vcs") ⊎ (simulator ≡ "xlm") ⊎ (simulator ≡ "dsim")
    → Offered simulator stage (true, false)
unfolding output_type_name
one_phase simulator stage (inl p) = rw p
one_phase simulator stage (inr (inl p)) = rw p
one_phase simulator stage (inr (inr p)) = rw p

-- Whenever options are needed for a known simulator and stage, the output type that is asked for
-- is one that the command line of util/ibex_config.py offers.
pub output_type_name-offered :
    (simulator stage : String) (needs : Bool × Bool)
    → lookup simulator sim_cfgs ≡ some needs
    → needs_opts stage needs ≡ ok true
    → any (str_eq (output_type_name simulator stage needs)) output_types ≡ true
output_type_name-offered simulator stage needs known needed =
    elim (simulator_cases simulator needs known) [
      | inl (e, which) ↦ rw e (two_phase simulator stage which (stage_cases stage needs needed))
      | inr (e, which) ↦ rw e (one_phase simulator stage which)
    ]
