-- ===== src/Filter.antt =====
-- crates/canal-filter/src/lib.rs: `EventFilter`.
use canal_rust.Prelude.{
  ℕ, Option, none, some, Bool, false, ◌++◌, length, is_empty, ltb, if◌then◌else◌,
}
use canal_rust.Prelude.Bytes.{Text, bytes, decimal}
use canal_rust.Common.CanalError.{Result, ok, err, ◌>>=◌}
use canal_rust.Common.Event.{CanalEvent}
use canal_rust.Common.Regex.{RegexLib}

abbrev pub max_filter_len : ℕ
max_filter_len = 256

abbrev pub max_regex_size : ℕ
max_regex_size = 1048576

pub record EventFilter (Regex : Type 0) : Type 0 where
  pub include : Regex
  pub exclude : Option Regex

pub exceeds : Text → Text → Text
exceeds what pattern =
    what ++ (bytes " too long: " ++ (decimal (length pattern) ++ bytes " exceeds max 256"))

module _ (lib : RegexLib) where
  open lib use {Regex, Error, build, is_match, syntax}

  -- The test of the length, and `RegexBuilder::new(pattern).size_limit(MAX_REGEX_SIZE).build()`
  unfoldable pub bounded : Text → Text → Result Regex Error
  bounded what pattern =
      if ltb max_filter_len (length pattern)
      then err (syntax (exceeds what pattern))
      else build max_regex_size pattern

  unfoldable pub new : Text → Result (EventFilter Regex) Error
  new pattern = do
    include ← bounded (bytes "pattern") pattern
    ok (record { include = include; exclude = none })

  unfoldable pub exclude_of : Text → Result (Option Regex) Error
  exclude_of black_list =
      if is_empty black_list
      then ok none
      else do exclude ← bounded (bytes "blacklist") black_list; ok (some exclude)

  unfoldable pub with_blacklist : Text → Text → Result (EventFilter Regex) Error
  with_blacklist pattern black_list = do
    include ← bounded (bytes "pattern") pattern
    exclude ← exclude_of black_list
    ok (record { include = include; exclude = exclude })

  abbrev pub excluded : Option Regex → Text → Bool
  excluded none full_name = false
  excluded (some exclude) full_name = is_match exclude full_name

  unfoldable pub matches : EventFilter Regex → CanalEvent → Bool
  matches f event =
      let full_name = event.schema_name ++ (bytes "." ++ event.table_name) in
      if excluded f.exclude full_name then false else is_match f.include full_name
