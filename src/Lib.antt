-- ===== src/Lib.antt =====
-- The verification flow of the Ibex core: the Python scripts that configure the core, choose the tests
-- that a configuration can run, convert its sources in place and run and judge its tests.
--
-- How the parts interact. util/ibex_config.py reads one named configuration of ibex_configs.yaml and
-- prints it as options for a tool. dv/uvm/core_ibex/scripts/ibex_cmd.py runs that script to get the
-- options of the testbench, and uses its `Config` to name the ISA and to drop the tests that the
-- configuration does not support. Each test that is run has a `TestRunResult`
-- (dv/uvm/core_ibex/scripts/test_run_result.py). dv/uvm/core_ibex/scripts/check_logs.py fills it from
-- the simulation log, which `check_ibex_uvm_log` of
-- dv/uvm/core_ibex/riscv_dv_extension/ibex_log_to_trace_csv.py reads, after run_rtl.py ran the
-- simulator and noted whether it was killed. collect_results.py counts and prints the records.
-- dv/uvm/core_ibex/scripts/metadata.py makes the metadata of a regression and the records of its runs,
-- exports both to files, and prints the names by which the other scripts load the records;
-- dv/uvm/core_ibex/directed_tests/gen_testlist.py makes the list of the directed tests.
--
-- Files.
-- - Base.antt and Base/: lists, text, dictionaries, exceptions as the type `Result`, `shlex`, YAML
--   values. `err kind message` is a raised exception of the class `kind`.
-- - IbexConfig.antt, IbexConfig/: util/ibex_config.py. `FieldType`, `known_fields`, `read_bool`,
--   `read_int`, `read_str`, `make_config` (`Config.__init__`), `make_configs` (`Configs.__init__`),
--   `parse_config`; in IbexConfig/Outputs.antt `fusesoc_output`, `query_output` and `sim_output` (the
--   `output` methods) and the table of simulators.
-- - IbexCmd.antt, IbexCmd/: dv/uvm/core_ibex/scripts/ibex_cmd.py, function by function.
-- - CheckLogs.antt, CheckLogs/: `compare_test_run` of dv/uvm/core_ibex/scripts/check_logs.py and
--   `check_ibex_uvm_log`; the variables of its loop are the record `Scan`. CheckLogs/Main.antt is `_main`
--   of check_logs.py on the files of the records.
-- - TestRunResult.antt: the dataclass of test_run_result.py, all its fields.
-- - Sv2v.antt, Sv2v/: util/sv2v_in_place.py. The file system is a function from paths to texts; the
--   run of sv2v is a parameter that reads it.
-- - ToolReq.antt, ToolReq/: util/check_tool_requirements.py. `ToolReq` and its subclasses are the record
--   `ToolReq` with its class; ToolReq/Reading.antt reads the requirements and ToolReq/Main.antt is
--   `main`. `packaging.version.Version` is a parameter: which texts are versions, and their order.
-- - SimCommands.antt, SimCommands/: `subst_opt`, `subst_dict` and `subst_env_vars` of
--   dv/uvm/core_ibex/scripts/scripts_lib.py, `get_tool_cmds` and `_get_yaml_for_simulator` of
--   dv/uvm/core_ibex/scripts/riscvdv_interface.py; run_rtl.py takes its command lines from there.
-- - DirectedTests.antt, DirectedTests/: dv/uvm/core_ibex/scripts/directed_test_schema.py. The pydantic
--   models are `DConfig`, `DTest` and `Model`, made by `validate_config`, `validate_test` and
--   `validate_model`; what pydantic coerces to a plain type is a parameter.
-- - Metadata.antt, Metadata/: dv/uvm/core_ibex/scripts/metadata.py. Metadata/Args.antt is
--   `arg_list_initializer`, Metadata/TestList.antt `get_tests_and_counts` and what it calls,
--   Metadata/Create.antt the two operations of `_main`, and Metadata/Locked.antt `LockedMetadata` as a
--   step relation. riscv-dv's `process_regression_list` is a parameter.
-- - Builds.antt, Builds/: compile_tb.py, compile_test.py, merge_cov.py, get_fcov.py and
--   build_instr_gen.py of dv/uvm/core_ibex/scripts,
--   from the metadata that they read to the commands that they run. What a program does or prints is a
--   parameter. Where a script raises, what its lock exports on the way out is left out.
-- - Regression.antt, Regression/: the logs of all tests are checked, and then collect_results.py loads the
--   records and reports on them.
-- - SetupImports.antt, SetupImports/: dv/uvm/core_ibex/scripts/setup_imports.py.
-- - TestData.antt, TestData/: `testdata_cls`, `format_to_str`, `format_to_cmd` and
--   `format_dict_to_printable_dict` of dv/uvm/core_ibex/scripts/scripts_lib.py, and what
--   test_run_result.py and metadata.py add to them; TestData/PrintField.antt is `--op print_field`.
--   TestData/Files.antt is the files: the state is which file holds which pickle or text; which files
--   can be opened is a parameter.
-- - RunOne.antt: `run_one` of dv/uvm/core_ibex/scripts/scripts_lib.py; what a command does within
--   the time that it is given is the parameter `Spawn`, so a command without a limit is taken to end.
-- - RunRtl.antt, RunRtl/: `_main` of dv/uvm/core_ibex/scripts/run_rtl.py, in three parts: `prepare`,
--   `set_fields` and `simulate`. RunRtl/Timeout.antt joins it to the log check, by the record of the
--   test.
-- - TraceCsv.antt, TraceCsv/: the conversion of a trace to CSV in
--   dv/uvm/core_ibex/riscv_dv_extension/ibex_log_to_trace_csv.py: `convert_operands_to_abi` and
--   `process_imm`, and in TraceCsv/Log.antt the loop over the lines. The functions of riscv-dv are
--   parameters.
-- - GenTestlist.antt, GenTestlist/: dv/uvm/core_ibex/directed_tests/gen_testlist.py. A file is its text,
--   and the commands that list directories are a parameter; GenTestlist/Handwritten.antt is the text that
--   the script holds, as lines.
-- - TestEntry.antt, TestEntry/: `read_test_dot_seed` of dv/uvm/core_ibex/scripts/test_entry.py, whose
--   `get_test_entry` is in RunRtl.antt.
-- - RunInstrGen.antt, RunInstrGen/: dv/uvm/core_ibex/scripts/run_instr_gen.py: `reloc_word` and
--   `reloc_commands`; RunInstrGen/Copies.antt is `do_file_copies` and RunInstrGen/Generate.antt is
--   `_main`. The files, the commands that are run and the current directory are parameters. Hexadecimal
--   digits are written on fuel, the successor of the number, which has no more digits.
-- - Reports.antt, Reports/: dv/uvm/core_ibex/scripts/collect_results.py and report_lib/ beside it.
--   Reports.antt is the summaries, report_lib/text.py, the loop over the tests, and `pprint_dict` of
--   scripts_lib.py; Reports/Main.antt is `main`. Reports/Coverage.antt is the coverage summary of
--   report_lib/util.py, with its regular expressions; Reports/Junit.antt, Reports/Dvsim.antt,
--   Reports/Html.antt (with regression_report.tpl.html) and Reports/Svg.antt are the other reports, up to
--   what the libraries junit_xml, json, mako and svg write. Floating-point numbers are parameters.
--
-- Bounds. Numbers that the scripts count with are natural or whole numbers without a bound, as in
-- Python. All loops run over lists or texts and are structural recursions, so no fuel is used, but for
-- the printing of a number, whose fuel is the number itself and one more.
--
-- What is abridged. The message of an exception is kept, but for values that Python would print into
-- it. Log output and the parsing of command lines are left out. A `pathlib.Path` is its text. Programs
-- that are run, regular expressions given by the user and what reading a file gives are parameters. YAML
-- values are null, booleans, whole numbers, text, lists and dictionaries with text keys: the files read
-- hold nothing else.
--
-- What is not modelled. The SystemVerilog sources and the C++ co-simulation are not the scripts' code;
-- vendor/ holds copies of other projects. A pickle is the record that it holds; what a write that fails
-- leaves of a file, and what is exported where a later run cannot be made, are left out. Copying a file
-- with `shutil.copy` in sv2v_in_place.py does not fail; the load and the export of `LockedMetadata` are one
-- step each; and the timeout of the simulations is a natural number, where the script takes any whole one.
pub mod Base
pub mod Builds
pub mod CheckLogs
pub mod DirectedTests
pub mod GenTestlist
pub mod IbexCmd
pub mod IbexConfig
pub mod Metadata
pub mod Regression
pub mod Reports
pub mod RunInstrGen
pub mod RunOne
pub mod RunRtl
pub mod SetupImports
pub mod SimCommands
pub mod Sv2v
pub mod TestData
pub mod TestEntry
pub mod TestRunResult
pub mod ToolReq
pub mod TraceCsv
