-- ===== src/RunInstrGen.antt =====
-- run_instr_gen.py (dv/uvm/core_ibex/scripts): the commands of the instruction generator, moved from
-- the placeholder directory that they were written for to the directories of one test. The
-- current directory, which `os.path.abspath` reads, is a parameter.
pub mod Relocated
pub mod Copies
pub mod Exported
pub mod Generate
mod GenerateTests
mod Tests
use kiemchung_ibex_v.Base.{
  String, ◌<>◌, Bool, true, false, not, ◌&&◌, ◌||◌, List, [], ◌∷◌, ◌++◌, Option, none, some, Result,
  ok, err, ErrorKind, ◌>>=◌, ◌>>◌, guard, traverse, if◌then◌else◌, str_eq, ◌==◌, leb, starts_with,
}
use kiemchung_ibex_v.Base.Dict.{Dict, lookup}
use kiemchung_ibex_v.Base.Regex.{any_char, literal, many, some_of}
use kiemchung_ibex_v.Base.Shlex.{shlex_split}
use kiemchung_ibex_v.Base.Text.{ends_with, has, is_digit, join, split, strip}
use Prim.Native.Char.{Char, code}

-- `os.path.join(p, q)`
unfoldable pub os_join : String → String → String
os_join p q =
    if starts_with q "/"
    then q
    else if str_eq p "" || ends_with p "/"
    then p <> q
    else p <> "/" <> q

-- The parts of an absolute path, last first, without empty ones and dots; `..` drops the one before.
normal_parts : List String → List String → List String
normal_parts done [] = done
normal_parts done (part ∷ parts) =
    if str_eq part "" || str_eq part "."
    then normal_parts done parts
    else if str_eq part ".."
    then normal_parts (elim done [ [] ↦ [] | _ ∷ rest ↦ rest ]) parts
    else normal_parts (part ∷ done) parts

abbrev reverse_onto : List String → List String → List String
reverse_onto [] acc = acc
reverse_onto (x ∷ xs) acc = reverse_onto xs (x ∷ acc)

-- `os.path.abspath(p)` in the directory `cwd`; two slashes at the start, and not three, are kept.
pub abs_path : String → String → String
unfolding os_join normal_parts
abs_path cwd p =
    let full = os_join cwd p in
    let two = starts_with full "//" && not (starts_with full "///") in
    (if two then "//" else "/") <> join "/" (reverse_onto (normal_parts [] (split b'/' full)) [])

-- `sim_relocs`, each the path that is replaced and the path that replaces it
sim_relocs : String → String → Dict (List (String × String))
unfolding os_join
sim_relocs placeholder_dir build_dir =
    ("vcs", (os_join placeholder_dir "vcs_simv", os_join build_dir "vcs_simv") ∷ [])
    ∷ ("xlm", (placeholder_dir, build_dir) ∷ [])
    ∷ ("dsim", (os_join placeholder_dir "dsim", os_join build_dir "dsim") ∷ [])
    ∷ (
      "questa",
      (placeholder_dir, build_dir)
          ∷ (os_join placeholder_dir "questa_sim.tcl", os_join build_dir "questa_sim.tcl")
          ∷ (os_join placeholder_dir "modelsim.ini", os_join build_dir "modelsim.ini")
          ∷ (os_join placeholder_dir "work", os_join build_dir "work")
          ∷ [],
    )
    ∷ []

always_relocs : String → String → String → List (String × String)
unfolding os_join
always_relocs placeholder_dir scratch_dir testname =
    (os_join (os_join placeholder_dir "asm_test") testname, os_join scratch_dir "test")
    ∷ (os_join placeholder_dir "asm_test", scratch_dir)
    ∷ (os_join placeholder_dir ("sim_" <> testname <> "_0.log"), os_join scratch_dir "gen.log")
    ∷ []

abbrev is_arg_char : Char → Bool
is_arg_char c =
    is_digit c
    || leb b'a' (code c) && leb (code c) b'z'
    || leb b'A' (code c) && leb (code c) b'Z'
    || code c == b'_'

-- `re.match(r'(\+[A-Za-z0-9_]+=)(.*)', word)`: the two groups, or no first part
pub split_plusarg : String → String × String
split_plusarg word =
    elim (literal {R = String × String} "+"
      (some_of is_arg_char
        (λ name. literal "=" (many any_char "" (λ post _. some ("+" <> name <> "=", post)))))
      word) [ some groups ↦ groups | none ↦ ("", word) ]

module _ (cwd : String) where
  -- The loop over the relocations: the first whose path is the same is taken.
  relocate : List (String × String) → String → String
  unfolding abs_path
  relocate [] post = post
  relocate ((orig, reloc) ∷ relocs) post =
      if str_eq (abs_path cwd orig) (abs_path cwd post) then reloc else relocate relocs post

  pub reloc_word : String → String → String → String → String → String → Result String
  unfolding sim_relocs always_relocs split_plusarg relocate
  reloc_word simulator placeholder_dir build_dir scratch_dir testname word =
      elim (lookup simulator (sim_relocs placeholder_dir build_dir)) [
        | none ↦ err ErrorKind.key_error simulator
        | some relocs ↦
            let (pre, post) = split_plusarg word in
            let all_relocs = relocs ++ always_relocs placeholder_dir scratch_dir testname in
            let reloc = pre <> relocate all_relocs post in
            if has placeholder_dir reloc
            then err ErrorKind.runtime_error (
                "Failed to replace an occurrence of the placeholder in " <> word <> " (got "
                <> reloc <> ")")
            else ok reloc
      ]

  reloc_line : String → String → String → String → String → String → Result (List String)
  unfolding reloc_word
  reloc_line placeholder_dir build_dir scratch_dir simulator testname line = do
    words ← shlex_split line
    traverse (reloc_word simulator placeholder_dir build_dir scratch_dir testname) words

  -- The commands of the lines of a file that are not blank
  pub reloc_commands :
      String → String → String → String → String → List String → Result (List (List String))
  unfolding reloc_line
  reloc_commands placeholder_dir build_dir scratch_dir simulator testname [] = ok []
  reloc_commands placeholder_dir build_dir scratch_dir simulator testname (line ∷ src) =
      let rest = reloc_commands placeholder_dir build_dir scratch_dir simulator testname src in
      if str_eq (strip line) "" then rest else do
        cmd ← reloc_line placeholder_dir build_dir scratch_dir simulator testname (strip line)
        cmds ← rest
        ok (cmd ∷ cmds)
