-- ===== src/Common/CanalError.antt =====
-- crates/canal-common/src/error.rs: the error type and `CanalResult`.
use canal_rust.Prelude.{ℕ, ◌++◌}
use canal_rust.Prelude.Bytes.{Text, bytes, decimal}

pub data CanalError : Type 0 where
  binlog_connection : Text → CanalError
  position_not_found : Text → ℕ → CanalError
  protocol : Text → CanalError
  auth_failed : Text → CanalError
  -- the wrapped `std::io::Error`, by its message
  io : Text → CanalError
  store : Text → CanalError
  config : Text → CanalError
  not_found : Text → CanalError
  internal : Text → CanalError

-- `Display for CanalError`
unfoldable pub to_string : CanalError → Text
to_string (binlog_connection m) = bytes "binlog connection: " ++ m
to_string (position_not_found name p) =
    bytes "position " ++ (name ++ (bytes ":" ++ (decimal p ++ bytes " not found")))
to_string (protocol m) = bytes "protocol: " ++ m
to_string (auth_failed m) = bytes "authentication failed for client " ++ m
to_string (io m) = bytes "io: " ++ m
to_string (store m) = bytes "store: " ++ m
to_string (config m) = bytes "configuration: " ++ m
to_string (not_found m) = bytes "not found: " ++ m
to_string (internal m) = bytes "internal: " ++ m

-- Rust's `Result<A, E>`
pub data Result {ℓ} (A E : Type ℓ) : Type ℓ where
  ok : A → Result A E
  err : E → Result A E

abbrev pub CanalResult : Type 0 → Type 0
CanalResult A = Result A CanalError

infixl 5 ◌>>=◌ ◌>>◌
-- the operator `?`
abbrev pub ◌>>=◌ {ℓ} : {A B E : Type ℓ} → Result A E → (A → Result B E) → Result B E
ok a >>= f = f a
err e >>= f = err e

abbrev pub ◌>>◌ {ℓ} : {A B E : Type ℓ} → Result A E → Result B E → Result B E
m >> k = m >>= λ _. k

abbrev pub map_err {ℓ} : {A E F : Type ℓ} → (E → F) → Result A E → Result A F
map_err f (ok a) = ok a
map_err f (err e) = err (f e)
