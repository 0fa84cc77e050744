-- ===== src/GenTestlist/Listed.antt =====
-- What the new list names, as a whole.
use kiemchung_ibex_v.Base.{
  String, [], ◌∷◌, ◌++◌, some, ok, concat_map, concat_map-append, append-nil, ◌≡◌, ap, ◌∙◌,
}
use kiemchung_ibex_v.Base.Regex.{literal}
use kiemchung_ibex_v.Base.Text.Lines.{unlines, split-unlines}
use kiemchung_ibex_v.GenTestlist.{main, riscv_tests, riscv_arch_tests, epmp_tests}
use kiemchung_ibex_v.GenTestlist.Free.{all_free-all_lines}
use kiemchung_ibex_v.GenTestlist.Handwritten.{handwritten_names}
use kiemchung_ibex_v.GenTestlist.Names.{
  all_lines, listed_tests, main-unlines, names-all_lines, names_in_line, suite_tests,
}

-- Where an old list exists, the script returns, and a reader of the new list finds the tests that are
-- written by hand and then those of each suite that is wanted, in order: one for each file that was
-- listed, whatever the directories and the old list hold.
pub main-listed_tests :
    (popen : String → String) (add_tests old : String)
    → (text : String) × (main popen add_tests (some old) ≡ ok text)
      × (listed_tests text
          ≡ ((handwritten_names ++ suite_tests popen add_tests riscv_tests)
              ++ suite_tests popen add_tests riscv_arch_tests)
            ++ suite_tests popen add_tests epmp_tests)
unfolding listed_tests names_in_line literal
main-listed_tests popen add_tests old =
    let ls = all_lines popen add_tests in
    (
      unlines ls,
      main-unlines popen add_tests old,
      ap (concat_map names_in_line) (split-unlines ls (all_free-all_lines popen add_tests))
          ∙ concat_map-append names_in_line ls ("" ∷ [])
          ∙ append-nil (concat_map names_in_line ls)
          ∙ names-all_lines popen add_tests,
    )
