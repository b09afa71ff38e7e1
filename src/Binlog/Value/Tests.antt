-- ===== src/Binlog/Value/Tests.antt =====
-- Concrete cells for crates/canal-binlog/src/column_serde.rs.
use canal_rust.Prelude.{ℕ, ◌≡◌, refl, some, true, false, List, [], ◌∷◌, arith}
use canal_rust.Prelude.Bytes.{Text, bytes, decimal}
use canal_rust.Prelude.Bytes.Utf8.{is_utf8}
use canal_rust.Binlog.Value.{
  Date, DateTime, blob, date, bit, hex, hex_digit, bit_text, padded, dated, mysql_value_to_string,
}
use canal_rust.Binlog.Value.Texts.{unhex, unhex-mysql_value_to_string}

-- Floats that are all 1.5
abbrev one_and_half : Unit {0} → Text
one_and_half x = bytes "1.5"

one_and_half-utf8 : (x : Unit {0}) → is_utf8 (one_and_half x) ≡ true
unfolding bytes is_utf8
one_and_half-utf8 x = refl

abbrev binary : List ℕ
binary = 0xff ∷ 0x00 ∷ 0xab ∷ []

abbrev day : Date
day = record { year = 2024; month = 3; day = 7 }

runs :
    (mysql_value_to_string one_and_half (blob binary) ≡ bytes "ff00ab")
    × (mysql_value_to_string one_and_half (date day) ≡ bytes "2024-03-07")
    × (mysql_value_to_string one_and_half (bit (true ∷ false ∷ true ∷ [])) ≡ bytes "101")
    × (is_utf8 (bytes "é€😀") ≡ true)
    × (is_utf8 (0xed ∷ 0xa0 ∷ 0x80 ∷ []) ≡ false)
unfolding mysql_value_to_string bytes is_utf8 hex hex_digit bit_text padded dated decimal
runs = (refl, refl, refl, refl, refl)

binary_utf8 : is_utf8 binary ≡ false
unfolding is_utf8
binary_utf8 = refl

unhex-mysql_value_to_string_example :
    unhex (mysql_value_to_string one_and_half (blob binary)) ≡ some binary
unhex-mysql_value_to_string_example =
    unhex-mysql_value_to_string one_and_half binary (omega arith, (omega arith, (omega arith, tt)))
      binary_utf8

abbrev moment : DateTime
moment = record { year = 987; month = 3; day = 7; hour = 10; minute = 20; second = 0 }
