-- ===== src/Common/Regex.antt =====
-- The `regex` crate as the program calls it, and `FilterPattern` of
-- crates/canal-common/src/types.rs, lines 247 to 277.
use canal_rust.Prelude.{ℕ, Option, Bool, [], ◌++◌, is_empty, if◌then◌else◌}
use canal_rust.Prelude.Bytes.{Text, bytes}
use canal_rust.Common.CanalError.{Result, ok, ◌>>◌, map_err}

pub record RegexLib : Type 1 where
  pub Regex : Type 0
  pub Error : Type 0
  -- `RegexBuilder::new(pattern).size_limit(limit).build()`
  pub build : ℕ → Text → Result Regex Error
  -- `Regex::new(pattern).ok()`
  pub compile : Text → Option Regex
  -- `Regex::is_match`
  pub is_match : Regex → Text → Bool
  -- `Error::Syntax(message)`, and `Display for Error`
  pub syntax : Text → Error
  pub display : Error → Text

pub record FilterPattern : Type 0 where
  pub pattern : Text
  pub black_list : Text

unfoldable pub default : FilterPattern
default = record { pattern = bytes ".*\\..*"; black_list = [] }

module _ (lib : RegexLib) where
  open lib use {build, display}

  unfoldable pub validate : FilterPattern → Result (Unit {0}) Text
  validate f = do
    map_err (λ e. bytes "invalid pattern: " ++ display e) (build 1048576 f.pattern)
    if is_empty f.black_list then ok tt else do
      map_err (λ e. bytes "invalid blacklist: " ++ display e) (build 1048576 f.black_list)
      ok tt
