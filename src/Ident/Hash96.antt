-- ===== src/Ident/Hash96.antt =====
-- labfunctions/hashes.py, class `Hash96`: ids of 96 bits that begin with the time. The clock and
-- the bytes of `os.urandom`, read as a number, are arguments. The low 55 bits of `ts << 55` are
-- zero and the random number has 55 bits, so their bitwise or is the sum.
pub mod Order
use labfunctions.Prelude.{
  ℕ, zero, suc, ◌+◌, ◌-◌, ◌*◌, ◌/◌, ◌%◌, ◌^◌, List, [], ◌∷◌, ◌++◌, Option, none, some, ltb,
  if◌then◌else◌,
}
use labfunctions.Text.{Text}

pub record Hash96 : Type 0 where
  pub id_int : ℕ
  pub id_hex : Text

unfoldable pub id_of : ℕ → ℕ → ℕ
id_of ts random = ts * 2 ^ 55 + random % 2 ^ 55

-- `n.to_bytes(k, "big")`, below the size test.
unfoldable pub big_endian : ℕ → ℕ → List ℕ
big_endian zero n = []
big_endian (suc k) n = big_endian k (n / 256) ++ n % 256 ∷ []

-- The size test: `OverflowError` is `none`.
unfoldable pub to_bytes : ℕ → ℕ → Option (List ℕ)
to_bytes k n = if ltb n (256 ^ k) then some (big_endian k n) else none

unfoldable pub hex_digit : ℕ → ℕ
hex_digit d = if ltb d 10 then b'0' + d else b'a' + d - 10

unfoldable pub hexlify : List ℕ → Text
unfolding hex_digit
hexlify [] = []
hexlify (b ∷ bytes) = hex_digit (b / 16) ∷ hex_digit (b % 16) ∷ hexlify bytes

abbrev with_hex : ℕ → Option (List ℕ) → Option Hash96
with_hex id none = none
with_hex id (some bytes) = some (record { id_int = id; id_hex = hexlify bytes })

unfoldable pub time_random_string : ℕ → ℕ → Option Hash96
time_random_string ts random = with_hex (id_of ts random) (to_bytes 12 (id_of ts random))
