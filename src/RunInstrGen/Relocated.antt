-- ===== src/RunInstrGen/Relocated.antt =====
-- What holds of relocated commands.
use kiemchung_ibex_v.Base.{
  String, Bool, true, false, not, List, [], ◌∷◌, ok, ◌≡◌, arith, length, keep, all, traverse, ◌>>=◌,
  >>=-eq-ok, str_eq, Result-cases, inl, inr,
}
use kiemchung_ibex_v.Base.Shlex.{shlex_split}
use kiemchung_ibex_v.Base.Text.{has, strip}
use kiemchung_ibex_v.RunInstrGen.{reloc_word, reloc_line, reloc_commands}

-- A line that holds a command
abbrev pub is_command : String → Bool
is_command line = not (str_eq (strip line) "")

-- No word of a command mentions a directory.
abbrev pub free_of : String → List String → Bool
free_of dir = all (λ word. not (has dir word))

module _ (cwd simulator placeholder_dir build_dir scratch_dir testname : String) where
  reloc_word_lem :
      (word reloc : String)
      → reloc_word cwd simulator placeholder_dir build_dir scratch_dir testname word ≡ ok reloc
      → has placeholder_dir reloc ≡ false
  unfolding reloc_word
  reloc_word_lem word reloc h = ground (arith, h)

  words_lem :
      (words cmd : List String)
      → traverse (reloc_word cwd simulator placeholder_dir build_dir scratch_dir testname) words
        ≡ ok cmd
      → (free_of placeholder_dir cmd ≡ true) × (length cmd ≡ length words)
  words_lem [] cmd h = ground (arith, h)
  words_lem (w ∷ ws) cmd h =
      let f = reloc_word cwd simulator placeholder_dir build_dir scratch_dir testname in
      let (y, y_made, h1) = >>=-eq-ok (f w) (λ y. traverse f ws >>= λ ys. ok (y ∷ ys)) h in
      let (ys, ys_made, done) = >>=-eq-ok (traverse f ws) (λ ys. ok (y ∷ ys)) h1 in
      ground (arith, done, reloc_word_lem w y y_made, words_lem ws ys ys_made)

  line_lem :
      (line : String) (cmd : List String)
      → reloc_line cwd placeholder_dir build_dir scratch_dir simulator testname line ≡ ok cmd
      → free_of placeholder_dir cmd ≡ true
  unfolding reloc_line
  line_lem line cmd h =
      let f = reloc_word cwd simulator placeholder_dir build_dir scratch_dir testname in
      let (words, _, h1) = >>=-eq-ok (shlex_split line) (traverse f) h in (words_lem words cmd h1).0

  -- If the commands of a file are relocated, there is one for each line that is not blank, and none
  -- mentions the placeholder directory any more.
  pub reloc_commands-free_of :
      (src : List String) (cmds : List (List String))
      → reloc_commands cwd placeholder_dir build_dir scratch_dir simulator testname src ≡ ok cmds
      → (all (free_of placeholder_dir) cmds ≡ true) × (length cmds ≡ length (keep is_command src))
  unfolding reloc_commands
  reloc_commands-free_of [] cmds h = ground (arith, h)
  reloc_commands-free_of (line ∷ src) cmds h =
      let first =
        reloc_line cwd placeholder_dir build_dir scratch_dir simulator testname (strip line) in
      let rest = reloc_commands cwd placeholder_dir build_dir scratch_dir simulator testname src in
      elim (Result-cases first) [
        | inl (k, m, e) ↦ ground (arith, h, e, reloc_commands-free_of src cmds)
        | inr (cmd, e) ↦ elim (Result-cases rest) [
          | inl (k, m, f) ↦ ground (arith, h, e, f)
          | inr (cmds', f) ↦
              ground
                (arith, h, e, f, line_lem (strip line) cmd e, reloc_commands-free_of src cmds' f)
        ]
      ]
