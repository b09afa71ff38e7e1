-- ===== src/Binlog/Value/Texts.antt =====
-- The texts that `mysql_value_to_string` of crates/canal-binlog/src/column_serde.rs makes.
use canal_rust.Prelude.{
  ℕ, zero, suc, ◌+◌, ◌-◌, ◌*◌, ◌/◌, ◌%◌, ◌<◌, ◌≡◌, refl, ap, ◌∙◌, Option, none, some, Bool, true,
  false, List, [], ◌∷◌, ◌++◌, arith, ltb, if◌then◌else◌, All, All-append, if-cases,
}
use mathlib.Core.Option
use canal_rust.Prelude.Bytes.{Text, bytes, decimal}
use canal_rust.Prelude.Bytes.Utf8.{is_utf8, IsAscii, is_utf8-ascii, decimal-IsAscii}
use canal_rust.Binlog.Value.{
  MySqlValue, tiny_int, small_int, medium_int, int, big_int, float, double, decimal_, string, blob,
  bit, enum, set, year, date, time, date_time, timestamp, hex_digit, hex, bit_text, zeros, padded,
  dated, timed, mysql_value_to_string,
}

IsAscii-append : (a b : Text) → IsAscii a → IsAscii b → IsAscii (a ++ b)
IsAscii-append a b = All-append (λ c. c < 0x80) a b

hex_digit-ascii : (d : ℕ) → d < 16 → hex_digit d < 0x80
unfolding hex_digit
hex_digit-ascii d h = ground arith

abbrev IsByte : ℕ → Type 0
IsByte b = b < 256

hex-IsAscii : (b : List ℕ) → All IsByte b → IsAscii (hex b)
unfolding hex
hex-IsAscii [] h = tt
hex-IsAscii (byte ∷ b) h = (
  hex_digit-ascii (byte / 16) (omega (arith, h.0)),
  (hex_digit-ascii (byte % 16) (omega arith), hex-IsAscii b h.1),
)

bit_text-IsAscii : (bits : List Bool) → IsAscii (bit_text bits)
unfolding bit_text
bit_text-IsAscii [] = tt
bit_text-IsAscii (true ∷ bits) = (omega arith, bit_text-IsAscii bits)
bit_text-IsAscii (false ∷ bits) = (omega arith, bit_text-IsAscii bits)

zeros-IsAscii : (n : ℕ) → IsAscii (zeros n)
unfolding zeros
zeros-IsAscii zero = tt
zeros-IsAscii (suc n) = (omega arith, zeros-IsAscii n)

padded-IsAscii : (w n : ℕ) → IsAscii (padded w n)
unfolding padded
padded-IsAscii w n = IsAscii-append (zeros _) (decimal n) (zeros-IsAscii _) (decimal-IsAscii n)

-- Three numbers with an ASCII mark between them
three :
    (mark : Text) (w a b c : ℕ)
    → IsAscii mark
    → IsAscii (padded w a ++ (mark ++ (padded 2 b ++ (mark ++ padded 2 c))))
three mark w a b c h = IsAscii-append (padded w a) _ (padded-IsAscii w a) (
    IsAscii-append mark _ h (
      IsAscii-append (padded 2 b) _ (padded-IsAscii 2 b)
        (IsAscii-append mark _ h (padded-IsAscii 2 c))))

dated-IsAscii : (y m d : ℕ) → IsAscii (dated y m d)
unfolding dated bytes
dated-IsAscii y m d = three (bytes "-") 4 y m d (omega arith, tt)

timed-IsAscii : (h m s : ℕ) → IsAscii (timed h m s)
unfolding timed bytes
timed-IsAscii h m s = three (bytes ":") 2 h m s (omega arith, tt)

date_time-IsAscii : (y m d h n s : ℕ) → IsAscii (dated y m d ++ (bytes " " ++ timed h n s))
unfolding bytes
date_time-IsAscii y m d h n s =
    IsAscii-append (dated y m d) _ (dated-IsAscii y m d) (omega arith, timed-IsAscii h n s)

-- Hexadecimal digits read back, two for a byte
unfoldable pub digit_value : ℕ → ℕ
digit_value c = if ltb c 0x61 then c - 48 else c - 87

unfoldable pub unhex : Text → Option (List ℕ)
unhex [] = some []
unhex (c ∷ []) = none
unhex (c ∷ (d ∷ cs)) = Option.map (λ b. (digit_value c * 16 + digit_value d) ∷ b) (unhex cs)

digit_value-hex_digit : (d : ℕ) → d < 16 → digit_value (hex_digit d) ≡ d
unfolding digit_value hex_digit
digit_value-hex_digit d h = ground arith

byte_back :
    (byte : ℕ)
    → byte < 256
    → digit_value (hex_digit (byte / 16)) * 16 + digit_value (hex_digit (byte % 16)) ≡ byte
byte_back byte h = omega (
  arith,
  digit_value-hex_digit (byte / 16) (omega arith),
  digit_value-hex_digit (byte % 16) (omega arith),
)

unhex-hex : (b : List ℕ) → All IsByte b → unhex (hex b) ≡ some b
unfolding hex unhex
unhex-hex [] h = refl
unhex-hex (byte ∷ b) h =
    ap (Option.map _) (unhex-hex b h.1) ∙ ap (λ n. some (n ∷ b)) (byte_back byte h.0)

-- What Rust's types say of a value: a `String` is UTF-8, and a blob consists of bytes.
abbrev pub IsTyped : {F : Type 0} → MySqlValue F → Type 0
IsTyped (decimal_ s) = is_utf8 s ≡ true
IsTyped (string s) = is_utf8 s ≡ true
IsTyped (blob b) = All IsByte b
IsTyped other = Unit

module _ {F : Type 0} (float_text : F → Text) where
  -- Where the texts of floats are UTF-8, so is the text of every typed value: a blob that is not
  -- UTF-8 itself is written in hexadecimal digits.
  pub is_utf8-mysql_value_to_string :
      (v : MySqlValue F)
      → ((x : F) → is_utf8 (float_text x) ≡ true)
      → IsTyped v
      → is_utf8 (mysql_value_to_string float_text v) ≡ true
  unfolding mysql_value_to_string
  is_utf8-mysql_value_to_string (tiny_int n) f t = is_utf8-ascii _ (decimal-IsAscii n)
  is_utf8-mysql_value_to_string (small_int n) f t = is_utf8-ascii _ (decimal-IsAscii n)
  is_utf8-mysql_value_to_string (medium_int n) f t = is_utf8-ascii _ (decimal-IsAscii n)
  is_utf8-mysql_value_to_string (int n) f t = is_utf8-ascii _ (decimal-IsAscii n)
  is_utf8-mysql_value_to_string (big_int n) f t = is_utf8-ascii _ (decimal-IsAscii n)
  is_utf8-mysql_value_to_string (float x) f t = f x
  is_utf8-mysql_value_to_string (double x) f t = f x
  is_utf8-mysql_value_to_string (decimal_ s) f t = t
  is_utf8-mysql_value_to_string (string s) f t = t
  is_utf8-mysql_value_to_string (blob b) f t =
      if-cases (λ s. is_utf8 s ≡ true) (is_utf8 b) (λ e. e)
        (λ e. is_utf8-ascii (hex b) (hex-IsAscii b t))
  is_utf8-mysql_value_to_string (bit bits) f t = is_utf8-ascii _ (bit_text-IsAscii bits)
  is_utf8-mysql_value_to_string (enum n) f t = is_utf8-ascii _ (decimal-IsAscii n)
  is_utf8-mysql_value_to_string (set n) f t = is_utf8-ascii _ (decimal-IsAscii n)
  is_utf8-mysql_value_to_string (year n) f t = is_utf8-ascii _ (decimal-IsAscii n)
  is_utf8-mysql_value_to_string (date d) f t = is_utf8-ascii _ (dated-IsAscii d.year d.month d.day)
  is_utf8-mysql_value_to_string (time t0) f t =
      is_utf8-ascii _ (timed-IsAscii t0.hour t0.minute t0.second)
  is_utf8-mysql_value_to_string (date_time dt) f t =
      is_utf8-ascii _ (date_time-IsAscii dt.year dt.month dt.day dt.hour dt.minute dt.second)
  is_utf8-mysql_value_to_string (timestamp ts) f t = is_utf8-ascii _ (decimal-IsAscii ts)

  -- A blob of bytes that is not UTF-8 loses nothing: its text has two digits for a byte, and reading
  -- these back gives the blob.
  pub unhex-mysql_value_to_string :
      (b : List ℕ)
      → All IsByte b
      → is_utf8 b ≡ false
      → unhex (mysql_value_to_string float_text (blob b)) ≡ some b
  unfolding mysql_value_to_string
  unhex-mysql_value_to_string b h not_text =
      ap (λ o. unhex (if o then b else hex b)) not_text ∙ unhex-hex b h
