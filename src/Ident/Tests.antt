-- ===== src/Ident/Tests.antt =====
-- Runs of the ids.
use labfunctions.Prelude.{◌*◌, ◌+◌, ◌≡◌, ◌<◌, ◌^◌, refl, true, none, some, arith}
use labfunctions.Text.{codes, length}
use labfunctions.Ident.ExecId.{build, exec_id, firm_by_type}
use labfunctions.Ident.Hash96.{
  Hash96, id_of, time_random_string, to_bytes, big_endian, hexlify, hex_digit,
}
use labfunctions.Ident.Hash96.Order.{lex_lt, time_random_string-ordered}

built : firm_by_type build (exec_id (codes "x") none (some (codes "p"))) ≡ codes "bld.px"
unfolding firm_by_type exec_id
built = refl

abbrev early : Hash96
early = record { id_int = 3 * 2 ^ 55 + 17; id_hex = codes "000000000180000000000011" }

abbrev late : Hash96
late = record { id_int = 4 * 2 ^ 55 + 5; id_hex = codes "000000000200000000000005" }

early_made : time_random_string 3 17 ≡ some early
unfolding time_random_string id_of to_bytes big_endian hexlify hex_digit
early_made = refl

late_made : time_random_string 4 5 ≡ some late
unfolding time_random_string id_of to_bytes big_endian hexlify hex_digit
late_made = refl

time_random_string-ordered_example :
    (early.id_int < late.id_int)
    × (lex_lt early.id_hex late.id_hex ≡ true)
    × (length early.id_hex ≡ 24)
    × (length late.id_hex ≡ 24)
time_random_string-ordered_example =
    time_random_string-ordered 3 4 17 5 early late (omega arith) early_made late_made
