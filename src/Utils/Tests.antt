-- ===== src/Utils/Tests.antt =====
-- Runs of the helpers.
use labfunctions.Prelude.{◌≡◌, ◌*◌, ◌^◌, refl, false, arith}
use labfunctions.Text.{select, is_space, decimal, Text, codes, length, has_char}
use labfunctions.Text.Strip.{strip}
use labfunctions.Utils.Filename.{secure_filename}
use labfunctions.Utils.Filename.Safe.{IsSecure, secure_filename-IsSecure}
use labfunctions.Utils.FormatBytes.{scaled, two_places, half_even, to_double, ulp, format_bytes}
use labfunctions.Utils.FormatBytes.Width.{format_bytes-eleven}

-- The normalisation of a name that has only ASCII characters.
abbrev plain : Text → Text
plain t = t

secured : secure_filename plain (codes "../../etc/passwd") ≡ codes "etc_passwd"
unfolding secure_filename strip select is_space
secured = refl

secure_filename-IsSecure_example :
    IsSecure (secure_filename plain (codes "../../etc/passwd"))
    × (has_char b'/' (secure_filename plain (codes "../../etc/passwd")) ≡ false)
secure_filename-IsSecure_example = secure_filename-IsSecure plain (codes "../../etc/passwd")

capital : IsSecure (codes "Lab")
capital = record { safe = refl; left = refl; right = refl }

shown : format_bytes 1234 ≡ codes "1.21 kiB"
unfolding format_bytes scaled two_places decimal half_even to_double ulp
shown = refl

format_bytes-eleven_example : length (format_bytes (1001 * 2 ^ 50)) ≡ 11
format_bytes-eleven_example = format_bytes-eleven (1001 * 2 ^ 50) (omega arith) (omega arith)
