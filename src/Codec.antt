-- ===== src/Codec.antt =====
-- crates/canal-server/src/codec.rs: `CanalCodec`, packets behind a 4-byte big-endian length. A call
-- of `decode` returns the result, the bytes left in the buffer and what it asked `reserve` for; the
-- `reserve` of `encode`, which changes no byte, is left out.
pub mod RoundTrip
pub mod Stream
mod Tests
use canal_rust.Prelude.{
  ℕ, ◌+◌, ◌-◌, ◌*◌, ◌/◌, ◌%◌, Option, none, some, List, [], ◌∷◌, ◌++◌, length, take, drop, min, ltb,
  ◌==◌, if◌then◌else◌,
}
use canal_rust.Prelude.Bytes.{Text, bytes, decimal}
use canal_rust.Common.CanalError.{CanalError, CanalResult, ok, err, protocol}

-- `u32::to_be_bytes` and `u32::from_be_bytes`
abbrev pub to_be_bytes : ℕ → Text
to_be_bytes n = (n / 16777216 % 256) ∷ (n / 65536 % 256) ∷ (n / 256 % 256) ∷ (n % 256) ∷ []

abbrev pub from_be_bytes : Text → ℕ
from_be_bytes (a ∷ b ∷ c ∷ d ∷ rest) = a * 16777216 + b * 65536 + c * 256 + d
from_be_bytes other = 0

abbrev pub max_packet_size : ℕ
max_packet_size = 8388608

pub packet_too_large : ℕ → CanalError
packet_too_large len = protocol (bytes "packet too large: " ++ (decimal len ++ bytes " bytes"))

pub record Decoded : Type 0 where
  pub result : CanalResult (Option Text)
  pub src : Text
  pub reserved : ℕ

-- `decode` once the length is read
unfoldable pub decode_frame : ℕ → Text → Decoded
decode_frame len src =
    if len == 0
    then record { result = ok (some []); src = drop 4 src; reserved = 0 }
    else if ltb max_packet_size len
    then record { result = err (packet_too_large len); src = src; reserved = 0 }
    else if ltb (length src) (4 + len)
    then record { result = ok none; src = src; reserved = min (4 + len - length src) 65536 }
    else record {
      result = ok (some (take len (drop 4 src)));
      src = drop len (drop 4 src);
      reserved = 0;
    }

unfoldable pub decode : Text → Decoded
unfolding decode_frame
decode src =
    if ltb (length src) 4
    then record { result = ok none; src = src; reserved = 0 }
    else decode_frame (from_be_bytes (take 4 src)) src

unfoldable pub encode : Text → Text → Text
encode item dst = dst ++ (to_be_bytes (length item % 4294967296) ++ item)
