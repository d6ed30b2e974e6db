-- ===== src/Json.antt =====
-- The JSON values that `json.dumps` and `json.loads` exchange with the program
-- (minichain/serialization.py and the `to_dict` methods).
pub mod Equal
use mini_chain.Base.{String, Bool, true, false, Option, none, some, List, [], ◌∷◌, str_dec}
use mini_chain.Base.Int.{ℤ, pos, negsuc}
use Prim.Native.Nat.{zero, suc}
use mathlib.Core.Logic.{ite}

mutual
  pub data Json : Type 0 where
    null : Json
    bool : Bool → Json
    num : ℤ → Json
    str : String → Json
    arr : Items → Json
    obj : Fields → Json

  pub data Items : Type 0 where
    nil : Items
    cons : Json → Items → Items

  pub data Fields : Type 0 where
    end : Fields
    field : String → Json → Fields → Fields

-- The text, or `null` where Python has `None`.
abbrev pub opt_str : Option String → Json
opt_str none = null
opt_str (some s) = str s

abbrev pub items : List Json → Items
items [] = nil
items (x ∷ xs) = cons x (items xs)

-- Python's truth of a value.
unfoldable pub is_truthy : Json → Bool
is_truthy null = false
is_truthy (bool b) = b
is_truthy (num (pos zero)) = false
is_truthy (num (pos (suc n))) = true
is_truthy (num (negsuc n)) = true
is_truthy (str s) = ite (str_dec s "") false true
is_truthy (arr nil) = false
is_truthy (arr (cons x xs)) = true
is_truthy (obj end) = false
is_truthy (obj (field k v fs)) = true
