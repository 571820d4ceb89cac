-- ===== src/Format.antt =====
-- What the programs use of the packages fmt and time: the verb %d, and `Format(time.RFC3339)` of a
-- time in UTC.
pub mod Injective
pub mod Integers
use Prim.Native.String.{◌++◌}
use distributed_locking.Base.{
  ℕ, zero, suc, ◌+◌, ◌-◌, ◌*◌, ◌/◌, ◌%◌, String, nat_eq, ltb, leb, if◌then◌else◌,
}
use distributed_locking.Lock.{Time}

-- one decimal digit
unfoldable pub digit : ℕ → String
digit n =
    if nat_eq n 0
    then "0"
    else if nat_eq n 1
    then "1"
    else if nat_eq n 2
    then "2"
    else if nat_eq n 3
    then "3"
    else if nat_eq n 4
    then "4"
    else if nat_eq n 5
    then "5"
    else if nat_eq n 6
    then "6"
    else if nat_eq n 7
    then "7"
    else if nat_eq n 8
    then "8"
    else "9"

-- the digits of `n`, by a fuel above the number of digits
unfoldable pub digits : ℕ → ℕ → String
unfolding digit
digits zero n = ""
digits (suc fuel) n =
    let front = digits fuel (n / 10) in if ltb n 10 then digit n else front ++ digit (n % 10)

-- `fmt.Sprintf("%d", n)`
unfoldable pub decimal : ℕ → String
unfolding digits
decimal n = digits (suc n) n

-- two digits, as in months and hours
unfoldable pub two : ℕ → String
unfolding digit
two n = digit (n / 10 % 10) ++ digit (n % 10)

-- four digits, or more for a year past 9999
unfoldable pub four : ℕ → String
unfolding two decimal
four n = if leb 10000 n then decimal n else two (n / 100) ++ two (n % 100)

pub record Date : Type 0 where
  pub year : ℕ
  pub month : ℕ
  pub day : ℕ

-- The date of a day counted from 1970-01-01, by eras of 400 years that begin on 1 March.
unfoldable pub date_of : ℕ → Date
date_of days =
    let z = days + 719468 in
    let doe = z % 146097 in
    let yoe = (doe - doe / 1460 + doe / 36524 - doe / 146096) / 365 in
    let doy = doe - (365 * yoe + yoe / 4 - yoe / 100) in
    let mp = (5 * doy + 2) / 153 in
    let y = yoe + z / 146097 * 400 in
    record {
      year = if ltb mp 10 then y else y + 1;
      month = if ltb mp 10 then mp + 3 else mp - 9;
      day = doy - (153 * mp + 2) / 5 + 1;
    }

unfoldable pub rfc3339 : Time → String
unfolding date_of four two
rfc3339 t =
    let seconds = t / 1000000000 in
    let date = date_of (seconds / 86400) in
    let clock = seconds % 86400 in
    four date.year
    ++ ("-"
        ++ (two date.month
            ++ ("-"
                ++ (two date.day
                    ++ ("T"
                        ++ (two (clock / 3600)
                            ++ (":"
                                ++ (two (clock / 60 % 60)
                                    ++ (":" ++ (two (clock % 60) ++ "Z"))))))))))
