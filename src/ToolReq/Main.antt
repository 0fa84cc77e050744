-- ===== src/ToolReq/Main.antt =====
-- `main` of util/check_tool_requirements.py: the tools that are checked and the exit code.
use kiemchung_ibex_v.Base.{
  ℕ, String, Bool, true, false, not, ◌&&◌, ◌||◌, List, [], ◌∷◌, ◌++◌, Option, Result, ok, err,
  ErrorKind, ◌>>=◌, any, all, keep, if◌then◌else◌, str_eq, ◌≡◌, refl, arith, ◌==◌, eq_iff,
}
use kiemchung_ibex_v.Base.Dict.{Dict, keys}
use kiemchung_ibex_v.ToolReq.{ToolReq, Installation, check}
use kiemchung_ibex_v.ToolReq.Reading.{Requirements, read_tool_requirements}

-- `tool in tools`
abbrev pub mem : String → List String → Bool
mem tool tools = any (λ t. str_eq t tool) tools

abbrev pub is_nil : List String → Bool
is_nil [] = true
is_nil (_ ∷ _) = false

-- `pending_tools.discard(tool)`
abbrev discard : String → List String → List String
discard tool = keep (λ t. not (str_eq t tool))

-- A check that passes.
abbrev pub passes : Result (Bool × String) → Bool
passes (ok (good, msg)) = good
passes (err kind m) = false

abbrev pub distinct : Dict ToolReq → Bool
distinct [] = true
distinct ((tool, req) ∷ reqs) = not (mem tool (keys reqs)) && distinct reqs

abbrev pub all_known : List String → Dict ToolReq → Bool
all_known tools reqs = all (λ t. mem t (keys reqs)) tools

abbrev pub succeeds : Result ℕ → Bool
succeeds (ok code) = code == 0
succeeds (err kind m) = false

abbrev clean : Result (List String × List String) → Bool
clean (ok (missing, pending)) = is_nil missing && is_nil pending
clean (err kind m) = false

mem-discard :
    (t tool : String) (tools : List String)
    → mem t (discard tool tools) ≡ not (str_eq t tool) && mem t tools
mem-discard t tool [] = ground arith
mem-discard t tool (s ∷ ss) =
    ground (arith, mem-discard t tool ss, eq_iff s t, eq_iff s tool, eq_iff t tool)

all_known-discard :
    (tool : String) (req : ToolReq) (tools : List String) (reqs : Dict ToolReq)
    → all_known (discard tool tools) reqs ≡ all_known tools ((tool, req) ∷ reqs)
all_known-discard tool req [] reqs = refl
all_known-discard tool req (t ∷ ts) reqs =
    ground (arith, all_known-discard tool req ts reqs, eq_iff t tool, eq_iff tool t)

all_known-skip :
    (tool : String) (req : ToolReq) (tools : List String) (reqs : Dict ToolReq)
    → mem tool tools ≡ false
    → all_known tools reqs ≡ all_known tools ((tool, req) ∷ reqs)
all_known-skip tool req [] reqs h = refl
all_known-skip tool req (t ∷ ts) reqs h =
    ground (arith, all_known-skip tool req ts reqs, eq_iff t tool, eq_iff tool t)

all_known-nil : (tools : List String) → is_nil tools ≡ all_known tools []
all_known-nil [] = refl
all_known-nil (t ∷ ts) = refl

module _ {Version : Type 0} (parse : String → Option Version) (older : Version → Version → Bool)
    (env : Installation) where
  -- The loop over the requirements: the missing tools and the pending ones, when it ends.
  check_tools : Dict ToolReq → List String → List String → Result (List String × List String)
  check_tools [] pending_tools missing_tools = ok (missing_tools, pending_tools)
  check_tools ((tool, req) ∷ reqs) pending_tools missing_tools =
      let skipped = check_tools reqs pending_tools missing_tools in
      let present = check_tools reqs (discard tool pending_tools) missing_tools in
      let missing = check_tools reqs (discard tool pending_tools) (missing_tools ++ tool ∷ []) in
      if req.as_needed && not (mem tool pending_tools)
      then skipped
      else do (good, msg) ← check parse older env req; if good then present else missing

  -- `main` of the named tools, with what running tool_requirements.py defined
  pub main : List String → Requirements → Result ℕ
  unfolding check_tools
  main tools raw = elim (read_tool_requirements raw) [
    | err ErrorKind.req_err m ↦ ok 1
    | err kind m ↦ err kind m
    | ok reqs ↦ do
      (missing_tools, pending_tools) ← check_tools reqs tools []
      ok (if is_nil missing_tools && is_nil pending_tools then 0 else 1)
  ]

  -- A tool that has to be there is there.
  abbrev pub fulfilled : List String → Dict ToolReq → Bool
  fulfilled tools [] = true
  fulfilled tools ((tool, req) ∷ reqs) =
      (req.as_needed && not (mem tool tools) || passes (check parse older env req))
      && fulfilled tools reqs

  -- Other tools are not touched by discarding one that is not required below.
  fulfilled-discard :
      (tool : String) (tools : List String) (reqs : Dict ToolReq)
      → mem tool (keys reqs) ≡ false
      → fulfilled (discard tool tools) reqs ≡ fulfilled tools reqs
  fulfilled-discard tool tools [] h = refl
  fulfilled-discard tool tools ((t, req) ∷ reqs) h =
      ground (arith, mem-discard t tool tools, fulfilled-discard tool tools reqs, h)

  check_tools_lem :
      (reqs : Dict ToolReq) (pending missing : List String)
      → distinct reqs ≡ true
      → clean (check_tools reqs pending missing)
        ≡ is_nil missing && fulfilled pending reqs && all_known pending reqs
  unfolding check_tools
  check_tools_lem [] pending missing h = ground (arith, all_known-nil pending)
  check_tools_lem ((tool, req) ∷ reqs) pending missing h = ground (
    arith,
    check_tools_lem reqs pending missing,
    check_tools_lem reqs (discard tool pending) missing,
    check_tools_lem reqs (discard tool pending) (missing ++ tool ∷ []),
    fulfilled-discard tool pending reqs,
    all_known-discard tool req pending reqs,
    all_known-skip tool req pending reqs,
  )

  -- With requirements that can be read, and name each tool once, `main` returns 0 exactly if every
  -- tool that is required, or is named on the command line and in the requirements, passes its
  -- check, and every tool named on the command line is in the requirements.
  pub main-succeeds :
      (tools : List String) (raw : Requirements) (reqs : Dict ToolReq)
      → read_tool_requirements raw ≡ ok reqs
      → distinct reqs ≡ true
      → succeeds (main tools raw) ≡ fulfilled tools reqs && all_known tools reqs
  unfolding main
  main-succeeds tools raw reqs found h = ground (arith, check_tools_lem reqs tools [], found, h)
