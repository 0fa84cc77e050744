-- ===== src/Metadata/Args/Fresh.antt =====
-- What the arguments of a regression cannot set: no run is recorded in new metadata, and their own
-- files lie in their directory.
use kiemchung_ibex_v.Base.{
  String, List, [], Result, ok, ◌>>=◌, traverse, ◌≡◌, refl, subst, >>=-eq-ok, ok-injective,
}
use kiemchung_ibex_v.Base.Shlex.{shlex_split}
use kiemchung_ibex_v.TestRunResult.{FilePath, path_join}
use kiemchung_ibex_v.Metadata.{RegressionMetadata, post_init}
use kiemchung_ibex_v.Metadata.Args.{
  Given, Field, Arg, Settings, default_settings, set_fields, make_md, key_value, raw_dict,
  lower_dict, cast_fields, dataclass_fields, arg_list_initializer,
}

pub arg_list_initializer_lem :
    (g : Given) (dir_metadata dir_out : FilePath) (args_list : String) (md : RegressionMetadata)
    → arg_list_initializer g dir_metadata dir_out args_list ≡ ok md
    → (md.tests_pickle_files ≡ [])
      × (md.pickle_file ≡ path_join md.dir_metadata "metadata.pickle")
      × (md.yaml_file ≡ path_join md.dir_metadata "metadata.yaml")
unfolding arg_list_initializer make_md post_init
arg_list_initializer_lem g dir_metadata dir_out args_list md h =
    let finish = λ (key_values : List (String × String)) (kw : Settings).
      Result.ok (
        post_init g.roots g.environ (make_md g dir_metadata dir_out (raw_dict [] key_values) kw)) in
    let set = λ (key_values : List (String × String)) (args : List (Field × Arg)).
      set_fields (default_settings args_list) args >>= finish key_values in
    let cast = λ (key_values : List (String × String)).
      cast_fields (lower_dict [] key_values) dataclass_fields >>= set key_values in
    let (pairs, _, h1) =
      >>=-eq-ok (shlex_split args_list) (λ pairs. traverse key_value pairs >>= cast) h in
    let (key_values, _, h2) = >>=-eq-ok (traverse key_value pairs) cast h1 in
    let (args, _, h3) =
      >>=-eq-ok (cast_fields (lower_dict [] key_values) dataclass_fields) (set key_values) h2 in
    let (kw, _, done) =
      >>=-eq-ok (set_fields (default_settings args_list) args) (finish key_values) h3 in
    subst
      (λ (md : RegressionMetadata).
        (md.tests_pickle_files ≡ [])
        × (md.pickle_file ≡ path_join md.dir_metadata "metadata.pickle")
        × (md.yaml_file ≡ path_join md.dir_metadata "metadata.yaml"))
      (ok-injective done) (refl, refl, refl)
