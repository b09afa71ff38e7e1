-- ===== src/Binlog/Value/Dates.antt =====
-- Reading back the dates and times that `mysql_value_to_string` of
-- crates/canal-binlog/src/column_serde.rs writes.
use canal_rust.Prelude.{ℕ, ◌+◌, ◌/◌, ◌%◌, ◌<◌, ◌≡◌, [], ◌∷◌, ◌++◌, length, take, drop}
use canal_rust.Prelude.Bytes.{Text, bytes}
use canal_rust.Common.LogPosition.Suffix.{digits_value}
use canal_rust.Binlog.Value.{DateTime}

-- Two digits, which stand for a number below 100, and four
abbrev two : ℕ → Text
two n = (48 + n / 10) ∷ (48 + n % 10) ∷ []

abbrev four : ℕ → Text
four n = (48 + n / 10 / 10 / 10) ∷ (48 + n / 10 / 10 % 10) ∷ (48 + n / 10 % 10) ∷ (48 + n % 10) ∷ []

-- The number that `w` characters from the place `p` on stand for
abbrev pub field : ℕ → ℕ → Text → ℕ
field p w text = digits_value 0 (take w (drop p text))

-- The characters in front of the place `p`
abbrev pub mark : ℕ → Text → Text
mark p text = take 1 (drop p text)

-- The six numbers where `2024-03-07 10:20:30` has them, and what stands between them
pub record Reads (dt : DateTime) (text : Text) : Type 0 where
  pub whole : length text ≡ 19
  pub year : field 0 4 text ≡ dt.year
  pub month : field 5 2 text ≡ dt.month
  pub day : field 8 2 text ≡ dt.day
  pub hour : field 11 2 text ≡ dt.hour
  pub minute : field 14 2 text ≡ dt.minute
  pub second : field 17 2 text ≡ dt.second
  pub dashes : mark 4 text ++ mark 7 text ≡ bytes "--"
  pub space : mark 10 text ≡ bytes " "
  pub colons : mark 13 text ++ mark 16 text ≡ bytes "::"

-- The fields fit into their places.
pub record IsInRange (dt : DateTime) : Type 0 where
  pub year : dt.year < 10000
  pub month : dt.month < 100
  pub day : dt.day < 100
  pub hour : dt.hour < 100
  pub minute : dt.minute < 100
  pub second : dt.second < 100
