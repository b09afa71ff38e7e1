-- ===== src/Codec/RoundTrip.antt =====
-- What `CanalCodec` of crates/canal-server/src/codec.rs decodes of what it encodes.
use canal_rust.Prelude.{
  ℕ, suc, ◌+◌, ◌-◌, ◌/◌, ◌%◌, ◌≤◌, ◌<◌, ◌≡◌, refl, ap, ◌∙◌, false, none, some, List, [], ◌∷◌, ◌++◌,
  arith, length, take, drop, min, ltb, ◌==◌, if◌then◌else◌, length-append,
}
use canal_rust.Prelude.Bytes.{Text}
use canal_rust.Common.CanalError.{ok, err}
use mathlib.Core.Path.{ap₂}
use canal_rust.Codec.{
  Decoded, to_be_bytes, from_be_bytes, max_packet_size, packet_too_large, decode_frame, decode,
  encode,
}

from_be_bytes-to_be_bytes : (n : ℕ) → n < 4294967296 → from_be_bytes (to_be_bytes n) ≡ n
from_be_bytes-to_be_bytes n h = omega arith

pub take-append_self {ℓ} : {A : Type ℓ} (xs ys : List A) → take (length xs) (xs ++ ys) ≡ xs
take-append_self [] ys = refl
take-append_self (x ∷ xs) ys = ap (◌∷◌ x) (take-append_self xs ys)

pub drop-append_self {ℓ} : {A : Type ℓ} (xs ys : List A) → drop (length xs) (xs ++ ys) ≡ ys
drop-append_self [] ys = refl
drop-append_self (x ∷ xs) ys = drop-append_self xs ys

-- A whole frame in front of other bytes.
abbrev pub frame : Text → Text
frame payload = to_be_bytes (length payload) ++ payload

abbrev pub waiting : ℕ → Text → Decoded
waiting len src = record {
  result = ok none;
  src = src;
  reserved = min (4 + len - length src) 65536;
}

-- `decode_frame` behind a header, for a length that is neither zero nor too large.
pub decode_frame-body :
    (len a b c d : ℕ) (body : Text)
    → 0 < len
    → len ≤ max_packet_size
    → decode_frame len (a ∷ b ∷ c ∷ d ∷ body) ≡ (
        if ltb (length body) len
        then waiting len (a ∷ b ∷ c ∷ d ∷ body)
        else record { result = ok (some (take len body)); src = drop len body; reserved = 0 })
unfolding decode_frame
decode_frame-body len a b c d body h k =
    let e : (len == 0) ≡ false = ground arith in
    let f : ltb max_packet_size len ≡ false = ground arith in
    let g : ltb (suc (suc (suc (suc (length body))))) (4 + len) ≡ ltb (length body) len =
      ground arith in
    rw e (rw f (rw g refl))

pub decode-header :
    (a b c d : ℕ) (body : Text)
    → decode (a ∷ b ∷ c ∷ d ∷ body)
      ≡ decode_frame (from_be_bytes (a ∷ b ∷ c ∷ d ∷ [])) (a ∷ b ∷ c ∷ d ∷ body)
unfolding decode
decode-header a b c d body =
    let e : ltb (suc (suc (suc (suc (length body))))) 4 ≡ false = ground arith in rw e refl

decode_frame-append :
    (payload rest : Text)
    → length payload ≤ max_packet_size
    → decode_frame (length payload) (frame payload ++ rest)
      ≡ record { result = ok (some payload); src = rest; reserved = 0 }
unfolding decode_frame
decode_frame-append [] rest h = refl
decode_frame-append (c ∷ cs) rest h =
    let p = c ∷ cs in
    let n = length p in
    let e : ltb (length (p ++ rest)) n ≡ false = ground (arith, length-append p rest) in
    decode_frame-body n (n / 16777216 % 256) (n / 65536 % 256) (n / 256 % 256) (n % 256) (p ++ rest)
      (omega arith) h
    ∙ rw e (
        ap₂ (λ t u. record { result = ok (some t); src = u; reserved = 0 })
          (take-append_self p rest) (drop-append_self p rest))

pub decode-frame :
    (payload rest : Text)
    → length payload ≤ max_packet_size
    → decode (frame payload ++ rest)
      ≡ record { result = ok (some payload); src = rest; reserved = 0 }
decode-frame payload rest h =
    let n = length payload in
    decode-header (n / 16777216 % 256) (n / 65536 % 256) (n / 256 % 256) (n % 256) (payload ++ rest)
    ∙ (ap (λ k. decode_frame k (frame payload ++ rest)) (from_be_bytes-to_be_bytes n (omega arith))
        ∙ decode_frame-append payload rest h)

pub encode-eq-frame :
    (payload dst : Text) → length payload < 4294967296 → encode payload dst ≡ dst ++ frame payload
unfolding encode
encode-eq-frame payload dst h =
    let e : length payload % 4294967296 ≡ length payload = omega arith in
    ap (λ n. dst ++ (to_be_bytes n ++ payload)) e

-- Every packet of at most 8 MB, the empty one included, is decoded from its encoding, whatever the
-- buffer holds behind it: exactly the frame is consumed, and nothing is reserved.
pub decode-encode :
    (payload rest : Text)
    → length payload ≤ max_packet_size
    → decode (encode payload [] ++ rest)
      ≡ record { result = ok (some payload); src = rest; reserved = 0 }
decode-encode payload rest h =
    rw (encode-eq-frame payload [] (omega arith)) (decode-frame payload rest h)

-- A packet above 8 MB and below 4 GB is encoded, and its encoding is refused: the error names the
-- length, and the bytes stay in the buffer.
pub decode-encode_oversize :
    (payload rest : Text)
    → max_packet_size < length payload
    → length payload < 4294967296
    → decode (encode payload [] ++ rest) ≡ record {
      result = err (packet_too_large (length payload));
      src = encode payload [] ++ rest;
      reserved = 0;
    }
decode-encode_oversize payload rest big fits = rw (encode-eq-frame payload [] fits) (
    let n = length payload in
    decode-header (n / 16777216 % 256) (n / 65536 % 256) (n / 256 % 256) (n % 256) (payload ++ rest)
    ∙ (ap (λ k. decode_frame k (frame payload ++ rest)) (from_be_bytes-to_be_bytes n fits)
        ∙ refused n (frame payload ++ rest) big))
  where
    refused :
        (n : ℕ) (src : Text)
        → max_packet_size < n
        → decode_frame n src ≡ record { result = err (packet_too_large n); src = src; reserved = 0 }
    refused n src h = unfold decode_frame in ground arith
