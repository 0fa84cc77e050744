-- ===== src/RunInstrGen/Tests.antt =====
-- Two lines of the commands for VCS.
use kiemchung_ibex_v.Base.{String, true, List, [], ◌∷◌, ok, ◌≡◌, refl, all, keep, length}
use kiemchung_ibex_v.Base.Dict.{lookup}
use kiemchung_ibex_v.Base.Regex.{literal, many, some_of}
use kiemchung_ibex_v.Base.Shlex.{shlex_split}
use kiemchung_ibex_v.Base.Text.{has, join, split, strip, ends_with}
use kiemchung_ibex_v.RunInstrGen.{abs_path, reloc_commands, os_join, split_plusarg}
use kiemchung_ibex_v.RunInstrGen.Relocated.{free_of, is_command, reloc_commands-free_of}

abbrev src : List String
src =
    "DIR/vcs_simv +asm_file_name=./DIR//asm_test/arith -l DIR/sim_arith_0.log\n" ∷ "  \n"
    ∷ "mv DIR/x/../asm_test done\n" ∷ []

abbrev cmds : List (List String)
cmds =
    ("/build/vcs_simv" ∷ "+asm_file_name=/run/test" ∷ "-l" ∷ "/run/gen.log" ∷ [])
    ∷ ("mv" ∷ "/run" ∷ "done" ∷ [])
    ∷ []

src_relocated : reloc_commands "/home" "DIR" "/build" "/run" "vcs" "arith" src ≡ ok cmds
unfolding reloc_commands shlex_split strip has lookup split_plusarg literal some_of many os_join
    abs_path join split ends_with
src_relocated = refl

src_free : (all (free_of "DIR") cmds ≡ true) × (length cmds ≡ length (keep is_command src))
src_free = reloc_commands-free_of "/home" "vcs" "DIR" "/build" "/run" "arith" src cmds src_relocated
