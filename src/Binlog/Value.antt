-- ===== src/Binlog/Value.antt =====
-- crates/canal-binlog/src/column_serde.rs, `mysql_value_to_string`: the text of a cell.
pub mod Texts
pub mod Dates
mod Tests
use canal_rust.Prelude.{
  ℕ, zero, suc, ◌+◌, ◌-◌, ◌/◌, ◌%◌, Bool, true, false, List, [], ◌∷◌, ◌++◌, length, ltb,
  if◌then◌else◌,
}
use canal_rust.Prelude.Bytes.{Text, bytes, decimal}
use canal_rust.Prelude.Bytes.Utf8.{is_utf8}

-- `mysql_cdc`'s `Date`, `Time` and `DateTime`, the fields that the program reads
pub record Date : Type 0 where
  pub year : ℕ
  pub month : ℕ
  pub day : ℕ

pub record Time : Type 0 where
  pub hour : ℕ
  pub minute : ℕ
  pub second : ℕ

pub record DateTime : Type 0 where
  pub year : ℕ
  pub month : ℕ
  pub day : ℕ
  pub hour : ℕ
  pub minute : ℕ
  pub second : ℕ

-- `mysql_cdc`'s `MySqlValue`; its integers are unsigned, and `F` is the type of its floats.
pub data MySqlValue (F : Type 0) : Type 0 where
  tiny_int small_int medium_int int big_int : ℕ → MySqlValue F
  float double : F → MySqlValue F
  decimal_ string : Text → MySqlValue F
  blob : List ℕ → MySqlValue F
  bit : List Bool → MySqlValue F
  enum set year : ℕ → MySqlValue F
  date : Date → MySqlValue F
  time : Time → MySqlValue F
  date_time : DateTime → MySqlValue F
  timestamp : ℕ → MySqlValue F

-- A digit of `{:x}`
unfoldable pub hex_digit : ℕ → ℕ
hex_digit d = if ltb d 10 then b'0' + d else b'a' + (d - 10)

-- `write!(s, "{:02x}", byte)` for each byte
unfoldable pub hex : List ℕ → Text
hex [] = []
hex (byte ∷ b) = hex_digit (byte / 16) ∷ hex_digit (byte % 16) ∷ hex b

unfoldable pub bit_text : List Bool → Text
bit_text [] = []
bit_text (b ∷ bits) = (if b then b'1' else b'0') ∷ bit_text bits

zeros : ℕ → Text
zeros zero = []
zeros (suc n) = b'0' ∷ zeros n

-- `{:0w}`
unfoldable pub padded : ℕ → ℕ → Text
unfolding zeros
padded w n = zeros (w - length (decimal n)) ++ decimal n

unfoldable pub dated : ℕ → ℕ → ℕ → Text
dated y m d = padded 4 y ++ (bytes "-" ++ (padded 2 m ++ (bytes "-" ++ padded 2 d)))

unfoldable pub timed : ℕ → ℕ → ℕ → Text
timed h m s = padded 2 h ++ (bytes ":" ++ (padded 2 m ++ (bytes ":" ++ padded 2 s)))

module _ {F : Type 0} (float_text : F → Text) where
  -- `float_text` is `to_string` of `f32` and `f64`.
  unfoldable pub mysql_value_to_string : MySqlValue F → Text
  mysql_value_to_string (tiny_int n) = decimal n
  mysql_value_to_string (small_int n) = decimal n
  mysql_value_to_string (medium_int n) = decimal n
  mysql_value_to_string (int n) = decimal n
  mysql_value_to_string (big_int n) = decimal n
  mysql_value_to_string (float x) = float_text x
  mysql_value_to_string (double x) = float_text x
  mysql_value_to_string (decimal_ s) = s
  mysql_value_to_string (string s) = s
  mysql_value_to_string (blob b) = if is_utf8 b then b else hex b
  mysql_value_to_string (bit bits) = bit_text bits
  mysql_value_to_string (enum n) = decimal n
  mysql_value_to_string (set n) = decimal n
  mysql_value_to_string (year n) = decimal n
  mysql_value_to_string (date d) = dated d.year d.month d.day
  mysql_value_to_string (time t) = timed t.hour t.minute t.second
  mysql_value_to_string (date_time dt) =
      dated dt.year dt.month dt.day ++ (bytes " " ++ timed dt.hour dt.minute dt.second)
  mysql_value_to_string (timestamp ts) = decimal ts
