-- ===== src/Admin.antt =====
-- The tests of the Authorization header: `check_auth` of crates/canal-admin/src/lib.rs and
-- `check_metrics_auth` of crates/canal-prometheus/src/metrics_server.rs. The header is an argument,
-- none where it is missing or no text.
pub mod Tokens
pub mod Handlers
pub mod Commands
mod Tests
use canal_rust.Prelude.{
  ℕ, ◌%◌, Option, none, some, Bool, true, false, not, List, [], ◌∷◌, ◌++◌, ◌&&◌, ◌||◌, length,
  is_empty, ◌==◌, if◌then◌else◌,
}
use canal_rust.Prelude.Bytes.{Text, bytes}
use canal_rust.Common.CanalError.{Result, ok, err}

-- The loop over the greater length, which reads 0 behind the end of a string: whether every XOR is 0
unfoldable pub padded_eq : Text → Text → Bool
padded_eq [] [] = true
padded_eq [] (y ∷ b) = 0 == y && padded_eq [] b
padded_eq (x ∷ a) [] = x == 0 && padded_eq a []
padded_eq (x ∷ a) (y ∷ b) = x == y && padded_eq a b

-- The lengths are compared in their low 16 bits: `(a.len() ^ b.len()) as u16`.
unfoldable pub constant_time_eq : Text → Text → Bool
constant_time_eq a b = length a % 65536 == length b % 65536 && padded_eq a b

abbrev pub header_text : Option Text → Text
header_text none = []
header_text (some text) = text

abbrev pub bearer : Text → Text
bearer token = bytes "Bearer " ++ token

-- `StatusCode::UNAUTHORIZED`
abbrev pub unauthorized : ℕ
unauthorized = 401

unfoldable pub check_auth : Option Text → Option Text → Result (Unit {0}) ℕ
check_auth header none = ok tt
check_auth header (some token) =
    if is_empty token
    then err unauthorized
    else if constant_time_eq (header_text header) (bearer token)
        || constant_time_eq (header_text header) token
    then ok tt
    else err unauthorized

-- The fold over the zipped bytes
unfoldable pub zip_eq : Text → Text → Bool
zip_eq [] b = true
zip_eq (x ∷ a) [] = true
zip_eq (x ∷ a) (y ∷ b) = x == y && zip_eq a b

unfoldable pub check_metrics_auth : Option Text → Option Text → Bool
check_metrics_auth header none = true
check_metrics_auth header (some token) =
    if is_empty token
    then false
    else length (header_text header) == length (bearer token)
        && zip_eq (header_text header) (bearer token)
      || length (header_text header) == length token && zip_eq (header_text header) token
