-- ===== src/IbexConfig/Accepts.antt =====
-- Which configurations are accepted, and what an accepted one holds.
use kiemchung_ibex_v.Base.{
  is_ok, String, Bool, true, false, ◌&&◌, ◌||◌, List, [], ◌∷◌, none, some, ◌≡◌, refl,
}
use kiemchung_ibex_v.Base.{arith, Result, ok, err, ◌>>=◌, all, map}
use kiemchung_ibex_v.Base.Dict.{Dict, keys, lookup, has_key}
use kiemchung_ibex_v.Base.Int.{pos, int_eq}
use kiemchung_ibex_v.Base.Value.{Value, bool, int, str, dict, null, list, fields}
use kiemchung_ibex_v.IbexConfig.{
  FieldType, bool_type, str_type, int_type, known_fields, is_known, read_bool, read_int, read_str,
  read_fields, make_config,
}

-- A value that a field of the type may have.
abbrev pub fits : FieldType → Value → Bool
fits bool_type (bool b) = true
fits bool_type (int z) = int_eq z (pos 0) || int_eq z (pos 1)
fits str_type (str s) = true
fits int_type (int z) = true
fits int_type (bool b) = true
fits typ v = false

-- The key is there, with such a value.
unfoldable pub holds : Dict Value → String × FieldType → Bool
holds yml (fld, typ) = elim (lookup fld yml) [ none ↦ false | some v ↦ fits typ v ]

read_bool-holds :
    (fld : String) (yml : Dict Value) → is_ok (read_bool fld yml) ≡ holds yml (fld, bool_type)
unfolding read_bool holds
read_bool-holds fld yml = ground arith

read_int-holds :
    (fld : String) (yml : Dict Value) → is_ok (read_int fld yml) ≡ holds yml (fld, int_type)
unfolding read_int holds
read_int-holds fld yml = ground arith

read_str-holds :
    (fld : String) (yml : Dict Value) → is_ok (read_str fld yml) ≡ holds yml (fld, str_type)
unfolding read_str holds
read_str-holds fld yml = ground arith

-- One read, and the rest of the block.
module _ {ℓ} {B : Type ℓ} (fld : String) (yml : Dict Value) (rest : Bool) where
  bind_holds {κ} :
      {A : Type κ} (m : Result A) (f : A → Result B) (h : Bool)
      → is_ok m ≡ h
      → ((a : A) → is_ok (f a) ≡ rest)
      → is_ok (m >>= f) ≡ (h && rest)
  bind_holds (ok a) f h e k = rw (← e) (k a)
  bind_holds (err kind m) f h e k = rw (← e) refl

  bool_then :
      (f : Bool → Result B)
      → ((a : Bool) → is_ok (f a) ≡ rest)
      → is_ok (read_bool fld yml >>= f) ≡ (holds yml (fld, bool_type) && rest)
  bool_then f = bind_holds (read_bool fld yml) f _ (read_bool-holds fld yml)

  int_then :
      (f : Value → Result B)
      → ((a : Value) → is_ok (f a) ≡ rest)
      → is_ok (read_int fld yml >>= f) ≡ (holds yml (fld, int_type) && rest)
  int_then f = bind_holds (read_int fld yml) f _ (read_int-holds fld yml)

  str_then :
      (f : String → Result B)
      → ((a : String) → is_ok (f a) ≡ rest)
      → is_ok (read_str fld yml >>= f) ≡ (holds yml (fld, str_type) && rest)
  str_then f = bind_holds (read_str fld yml) f _ (read_str-holds fld yml)

read_fields-holds : (yml : Dict Value) → is_ok (read_fields yml) ≡ all (holds yml) known_fields
unfolding read_fields
read_fields-holds y = bool_then "RV32E" y _ _ λ _. str_then "RV32M" y _ _ λ _.
    str_then "RV32B" y _ _ λ _. str_then "RV32ZC" y _ _ λ _. str_then "RegFile" y _ _ λ _.
      bool_then "BranchTargetALU" y _ _ λ _. bool_then "WritebackStage" y _ _ λ _.
        bool_then "ICache" y _ _ λ _. bool_then "ICacheECC" y _ _ λ _.
          bool_then "ICacheScramble" y _ _ λ _. bool_then "BranchPredictor" y _ _ λ _.
            bool_then "DbgTriggerEn" y _ _ λ _. bool_then "SecureIbex" y _ _ λ _.
              bool_then "PMPEnable" y _ _ λ _. int_then "PMPGranularity" y _ _ λ _.
                int_then "PMPNumRegions" y _ _ λ _.
                  int_then "MHPMCounterNum" y _ _ λ _. int_then "MHPMCounterWidth" y _ _ λ _. refl

-- What the source asks of a configuration: a dictionary that has each known key, with a value of
-- the key's type, and no other key.
abbrev pub well_formed : Value → Bool
well_formed (dict fs) = all is_known (keys (fields fs)) && all (holds (fields fs)) known_fields
well_formed v = false

has_known_keys :
    (yml : Dict Value) (fs : List (String × FieldType))
    → all (holds yml) fs ≡ true
    → all (λ k. has_key k yml) (map (λ (fld, typ). fld) fs) ≡ true
unfolding holds
has_known_keys yml [] h = refl
has_known_keys yml ((fld, typ) ∷ fs) h = ground (arith, has_known_keys yml fs)

-- `Config(yml)` succeeds exactly on the well-formed values.
pub make_config-well_formed : (yml : Value) → is_ok (make_config yml) ≡ well_formed yml
unfolding make_config
make_config-well_formed (dict fs) =
    ground (arith, read_fields-holds (fields fs), has_known_keys (fields fs) known_fields)
make_config-well_formed null = refl
make_config-well_formed (bool b) = refl
make_config-well_formed (int z) = refl
make_config-well_formed (str s) = refl
make_config-well_formed (list vs) = refl
