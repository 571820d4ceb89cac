-- ===== src/Json.antt =====
-- JSON values, and what the programs use of encoding/json: `Decode` into a struct of texts and
-- flags, and the values that `Encode` makes of structs. Bytes are not modelled: a body is the first
-- JSON value that can be read from it, or `none`.
use Prim.Native.Char.{code}
use distributed_locking.Base.{
  ℕ, ◌-◌, String, Bool, true, false, ◌&&◌, ◌||◌, Option, none, some, List, [], ◌∷◌, map, nat_eq,
  leb, if◌then◌else◌, ◌==◌,
}

mutual
  pub data Json : Type 0 where
    null : Json
    bool : Bool → Json
    num : String → Json  -- the literal as it stands
    str : String → Json
    arr : Items → Json
    obj : Fields → Json

  pub data Items : Type 0 where
    nil : Items
    cons : Json → Items → Items

  pub data Fields : Type 0 where
    end : Fields
    field : String → Json → Fields → Fields

abbrev codes : String → List ℕ
codes String.[] = []
codes (String.◌∷◌ c s) = code c ∷ codes s

-- A letter in upper case, as names of fields are compared. The Kelvin sign folds to K, and the long s
-- to S; no other character outside ASCII folds to a letter in it.
fold_char : ℕ → ℕ
fold_char c =
    if leb b'a' c && leb c b'z'
    then c - 32
    else if nat_eq c 0x212a
    then b'K'
    else if nat_eq c 0x17f
    then b'S'
    else c

same_codes : List ℕ → List ℕ → Bool
same_codes [] [] = true
same_codes (c ∷ cs) (d ∷ ds) = nat_eq c d && same_codes cs ds
same_codes _ _ = false

-- the field of a struct that a member of an object names
unfoldable pub names : String → String → Bool
unfolding fold_char same_codes
names member tag =
    member == tag || same_codes (map fold_char (codes member)) (map fold_char (codes tag))

-- A value for a field of type string or bool. `null` leaves the field; another type is an error.
unfoldable pub decode_string : Json → String → Option String
decode_string null old = some old
decode_string (str s) old = some s
decode_string _ old = none

unfoldable pub decode_bool : Json → Bool → Option Bool
decode_bool null old = some old
decode_bool (bool b) old = some b
decode_bool _ old = none
