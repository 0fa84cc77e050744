-- ===== src/Base/Value.antt =====
-- The Python values that the scripts read from YAML files: null, booleans, integers, text, lists
-- and dictionaries with text keys. Floats, dates and other keys do not occur in the files read.
use Prim.Native.String.{String}
use mathlib.Core.Path.{◌≡◌, refl, ap}
use mathlib.Core.Bool.{Bool, true, false}
use mathlib.Core.List.{List, [], ◌∷◌}
use text.Mathlib.Text.{◌==◌ as str_eq}
use package.kiemchung_ibex_v.Base.Tests.{if◌then◌else◌}
use package.kiemchung_ibex_v.Base.Int.{ℤ, pos, int_eq, is_nonzero}
use package.kiemchung_ibex_v.Base.Dict.{Dict}

mutual
  pub data Value : Type 0 where
    null : Value
    bool : Bool → Value
    int : ℤ → Value
    str : String → Value
    list : Items → Value
    dict : Fields → Value

  pub data Items : Type 0 where
    nil : Items
    item : Value → Items → Items

  pub data Fields : Type 0 where
    end : Fields
    field : String → Value → Fields → Fields

abbrev pub items : Items → List Value
items nil = []
items (item v vs) = v ∷ items vs

abbrev pub fields : Fields → Dict Value
fields end = []
fields (field k v fs) = (k, v) ∷ fields fs

abbrev pub to_items : List Value → Items
to_items [] = nil
to_items (v ∷ vs) = item v (to_items vs)

abbrev pub to_fields : Dict Value → Fields
to_fields [] = end
to_fields ((k, v) ∷ fs) = field k v (to_fields fs)

-- A boolean as the integer that Python takes it for.
abbrev pub of_bool : Bool → ℤ
of_bool true = pos 1
of_bool false = pos 0

-- `v == w` between scalars: `True == 1`. Two lists or two dictionaries are not compared here.
abbrev pub scalar_eq : Value → Value → Bool
scalar_eq null null = true
scalar_eq (bool a) (bool b) = int_eq (of_bool a) (of_bool b)
scalar_eq (bool a) (int b) = int_eq (of_bool a) b
scalar_eq (int a) (bool b) = int_eq a (of_bool b)
scalar_eq (int a) (int b) = int_eq a b
scalar_eq (str a) (str b) = str_eq a b
scalar_eq _ _ = false

-- `bool(v)`
abbrev pub truthy : Value → Bool
truthy null = false
truthy (bool b) = b
truthy (int z) = is_nonzero z
truthy (str s) = if str_eq s "" then false else true
truthy (list nil) = false
truthy (list (item v vs)) = true
truthy (dict end) = false
truthy (dict (field k v fs)) = true

pub fields-to_fields : (d : Dict Value) → fields (to_fields d) ≡ d
fields-to_fields [] = refl
fields-to_fields ((k, v) ∷ d) = ap (λ (e : Dict Value). (k, v) ∷ e) (fields-to_fields d)
