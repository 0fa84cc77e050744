-- ===== src/TestData/Placed.antt =====
-- Where the runs that are created have their files, and that these files are different ones.
use kiemchung_ibex_v.Base.{
  String, ◌<>◌, Bool, true, false, not, Option, some, ok, ◌≡◌, ◌≢◌, refl, sym, ap, ◌∙◌, arith,
  str_eq, starts_with, Bool-cases, inl, inr, ok-injective, ◌||◌,
}
use kiemchung_ibex_v.Base.Int.{ℤ}
use kiemchung_ibex_v.Metadata.{RegressionMetadata}
use kiemchung_ibex_v.Metadata.Create.{Opts, make_trr, new_trr, set_opts, tds_str}
use kiemchung_ibex_v.Metadata.Create.Labels.{riscvdv_fields_keep}
use kiemchung_ibex_v.Metadata.TestList.{Counted}
use kiemchung_ibex_v.TestRunResult.{FilePath, TestRunResult, riscvdv, directed, path_join}
use Prim.Native.String
use Prim.Native.String.{count}
use kiemchung_ibex_v.Base.Regex.{all_chars}
use kiemchung_ibex_v.Base.Text.{str_int}
use kiemchung_ibex_v.TestEntry.{no_dot}
use text.Mathlib.TextLemmas

abbrev pub pickle_of : FilePath → String → FilePath
pickle_of dir_metadata tds = path_join dir_metadata (tds <> ".pickle")

abbrev pub yaml_of : FilePath → String → FilePath
yaml_of dir_tests tds = path_join (path_join dir_tests tds) "trr.yaml"

-- The files of a run lie where its name and the directories say.
abbrev pub Placed : FilePath → FilePath → TestRunResult → Type 0
Placed dir_metadata dir_tests trr =
    (tds : String) × (trr.testdotseed ≡ some tds)
    × (trr.pickle_file ≡ some (pickle_of dir_metadata tds))
    × (trr.yaml_file ≡ some (yaml_of dir_tests tds))
    × (all_chars no_dot tds ≡ false)

all_chars_dot : (a s : String) → all_chars no_dot (a <> ("." <> s)) ≡ false
all_chars_dot Prim.Native.String.[] s =
    rw (TextLemmas.nil-append ("." <> s), TextLemmas.cons-append "." "" s) refl
all_chars_dot (Prim.Native.String.◌∷◌ c a) s =
    rw (TextLemmas.cons-append c a ("." <> s)) (ground (arith, all_chars_dot a s))

abbrev Names : Type 0
Names = Option String × Option FilePath × Option FilePath

abbrev names : TestRunResult → Names
names trr = (trr.testdotseed, trr.pickle_file, trr.yaml_file)

names-set_opts : (trr : TestRunResult) (opts : Opts) → names (set_opts trr opts) ≡ names trr
unfolding set_opts
names-set_opts trr (gen_test, gen_opts, rtl_test, sim_opts, found) = refl

make_trr-names :
    (md : RegressionMetadata) (t : Counted) (s : ℤ) (y : TestRunResult)
    → make_trr md t s ≡ ok y
    → names y ≡ (
      some (tds_str t.0.0 s),
      some (pickle_of md.dir_metadata (tds_str t.0.0 s)),
      some (yaml_of md.dir_tests (tds_str t.0.0 s)),
    )
unfolding make_trr new_trr
make_trr-names md ((test, count, riscvdv), obj) s y h =
    riscvdv_fields_keep names obj (new_trr md test riscvdv s) y
      (names-set_opts (new_trr md test riscvdv s)) h
make_trr-names md ((test, count, directed), obj) s y h = ap names (sym (ok-injective h))

pub make_trr-Placed :
    (md : RegressionMetadata) (t : Counted) (s : ℤ) (y : TestRunResult)
    → make_trr md t s ≡ ok y
    → Placed md.dir_metadata md.dir_tests y
make_trr-Placed md t s y h =
    let e = make_trr-names md t s y h in
    (
      tds_str t.0.0 s,
      ap (λ (n : Names). n.0) e,
      ap (λ (n : Names). n.1) e,
      ap (λ (n : Names). n.2) e,
      all_chars_dot t.0.0 (str_int s),
    )

-- A name whose pickle lies below the directory
abbrev pub is_relative : String → Bool
is_relative tds = not (starts_with (tds <> ".pickle") "/")

path_join-injective :
    (dir a b : String)
    → starts_with a "/" ≡ false
    → starts_with b "/" ≡ false
    → path_join dir a ≡ path_join dir b
    → a ≡ b
unfolding path_join
path_join-injective dir a b h k same = elim (Bool-cases (str_eq dir "" || str_eq dir ".")) [
  | inl here ↦ rw (h, k, here) at same
  | inr below ↦
      let joined : dir <> "/" <> a ≡ dir <> "/" <> b = rw (h, k, below) at same in
      TextLemmas.append_cancel_left "/" a b
        (TextLemmas.append_cancel_left dir ("/" <> a) ("/" <> b) joined)
]

pub pickle_of-injective :
    (dir a b : String)
    → is_relative a ≡ true
    → is_relative b ≡ true
    → pickle_of dir a ≡ pickle_of dir b
    → a ≡ b
pickle_of-injective dir a b h k same = TextLemmas.append_cancel_right a b ".pickle" (
    path_join-injective dir (a <> ".pickle") (b <> ".pickle") (ground (arith, h))
      (ground (arith, k)) same)

-- A path ends as the last name in it does.
path_join-ends : (dir a last : String) → (u : String) × (path_join dir (a <> last) ≡ u <> last)
unfolding path_join
path_join-ends dir a last = elim (Bool-cases (starts_with (a <> last) "/")) [
  | inl root ↦ (a, rw (root) refl)
  | inr relative ↦ elim (Bool-cases (str_eq dir "" || str_eq dir ".")) [
    | inl here ↦ (a, rw (relative, here) refl)
    | inr below ↦ (
      dir <> ("/" <> a),
      rw (relative, below)
          (ap (λ t. dir <> t) (sym (TextLemmas.append_assoc "/" a last))
            ∙ sym (TextLemmas.append_assoc dir ("/" <> a) last)),
    )
  ]
]

ends_differ : (u v : String) → u <> "yaml" ≢ v <> "ckle"
ends_differ u v same =
    let counts : count u ≡ count v = omega (
      arith,
      ap count same,
      TextLemmas.length-append u "yaml",
      TextLemmas.length-append v "ckle",
    ) in
    let last : ◌≡◌ {A = String} "yaml" "ckle" = (TextLemmas.append_inj same counts).1 in
    let differ : str_eq "yaml" "ckle" ≡ true = ap (λ t. str_eq "yaml" t) (sym last) in cc

-- A path to a YAML file is no path to a pickle.
pub yaml-pickle : (d a e b : String) → path_join d (a <> "yaml") ≢ path_join e (b <> "ckle")
yaml-pickle d a e b same =
    let (u, at_u) = path_join-ends d a "yaml" in
    let (v, at_v) = path_join-ends e b "ckle" in ends_differ u v (sym at_u ∙ same ∙ at_v)

pub yaml_of-pickle_of :
    (dir dir_tests tds tds' : String) → yaml_of dir_tests tds ≢ pickle_of dir tds'
yaml_of-pickle_of dir dir_tests tds tds' same =
    yaml-pickle (path_join dir_tests tds) "trr." dir (tds' <> ".pi")
      (same ∙ ap (path_join dir) (sym (TextLemmas.append_assoc tds' ".pi" "ckle")))

-- The text of the metadata is in no pickle of a run.
pub md_yaml-pickle_of : (dir tds : String) → path_join dir "metadata.yaml" ≢ pickle_of dir tds
md_yaml-pickle_of dir tds same =
    yaml-pickle dir "metadata." dir (tds <> ".pi")
      (same ∙ ap (path_join dir) (sym (TextLemmas.append_assoc tds ".pi" "ckle")))
