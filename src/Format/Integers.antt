-- ===== src/Format/Integers.antt =====
-- What the programs use of `int`, a 64-bit integer: the verb %d, and `strconv.Atoi`.
use Prim.Native.String.{◌++◌}
use Prim.Native.Char.{code}
use distributed_locking.Base.{
  ℕ, suc, ◌+◌, ◌-◌, ◌*◌, ◌^◌, String, Option, none, some, List, [], ◌∷◌, nat_eq, ltb, leb, ◌&&◌,
  if◌then◌else◌,
}
use distributed_locking.Format.{decimal}

pub data ℤ : Type 0 where
  pos : ℕ → ℤ
  negsuc : ℕ → ℤ  -- `negsuc n` is -(n + 1)

unfoldable pub print_int : ℤ → String
print_int (pos n) = decimal n
print_int (negsuc n) = "-" ++ decimal (suc n)

codes : String → List ℕ
codes String.[] = []
codes (String.◌∷◌ c s) = code c ∷ codes s

-- decimal digits only, from the number that the digits before stand for
read_digits : ℕ → List ℕ → Option ℕ
read_digits n [] = some n
read_digits n (c ∷ cs) =
    let rest = read_digits (n * 10 + (c - b'0')) cs in
    if leb b'0' c && leb c b'9' then rest else none

-- at least one digit
read_magnitude : List ℕ → Option ℕ
unfolding read_digits
read_magnitude [] = none
read_magnitude cs = read_digits 0 cs

positive : Option ℕ → Option ℤ
positive none = none
positive (some n) = if ltb n (2 ^ 63) then some (pos n) else none

negative : Option ℕ → Option ℤ
negative none = none
negative (some n) =
    if nat_eq n 0 then some (pos 0) else if leb n (2 ^ 63) then some (negsuc (n - 1)) else none

unfoldable signed : List ℕ → Option ℤ
unfolding read_magnitude positive negative
signed [] = none
signed (c ∷ cs) =
    if nat_eq c b'-'
    then negative (read_magnitude cs)
    else if nat_eq c b'+'
    then positive (read_magnitude cs)
    else positive (read_magnitude (c ∷ cs))

-- `strconv.Atoi`; `none` is an error
unfoldable pub atoi : String → Option ℤ
unfolding signed codes
atoi s = signed (codes s)
