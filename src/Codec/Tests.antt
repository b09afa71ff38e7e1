-- ===== src/Codec/Tests.antt =====
-- Concrete packets for crates/canal-server/src/codec.rs.
use canal_rust.Prelude.{ℕ, zero, suc, ◌<◌, ◌≡◌, refl, List, [], ◌∷◌, ◌++◌, arith, length}
use canal_rust.Prelude.Bytes.{Text}
use canal_rust.Common.CanalError.{err}
use canal_rust.Codec.{decode, encode, max_packet_size, packet_too_large}
use canal_rust.Codec.RoundTrip.{decode-encode_oversize}
use canal_rust.Codec.Stream.{receive, concat, encode_all, receive-encode_all}

unfoldable zeros : ℕ → Text
zeros zero = []
zeros (suc n) = 0 ∷ zeros n

length-zeros : (n : ℕ) → length (zeros n) ≡ n
unfolding zeros
length-zeros zero = refl
length-zeros (suc n) = omega (arith, length-zeros n)

big : (max_packet_size < length (zeros 8388609)) × (length (zeros 8388609) < 4294967296)
big = rw (length-zeros 8388609) (omega arith, omega arith)

decode-encode_oversize_example : decode (encode (zeros 8388609) [] ++ []) ≡ record {
  result = err (packet_too_large (length (zeros 8388609)));
  src = encode (zeros 8388609) [] ++ [];
  reserved = 0;
}
decode-encode_oversize_example = decode-encode_oversize (zeros 8388609) [] big.0 big.1

abbrev packets : List Text
packets = (7 ∷ 8 ∷ []) ∷ [] ∷ []

-- The header of the first packet arrives in two pieces.
abbrev pieces : List Text
pieces = (0 ∷ 0 ∷ []) ∷ [] ∷ (0 ∷ 2 ∷ 7 ∷ 8 ∷ 0 ∷ []) ∷ (0 ∷ 0 ∷ 0 ∷ []) ∷ []

pieces-packets : concat pieces ≡ encode_all packets []
unfolding encode_all encode
pieces-packets = refl

receive-encode_all_example : receive 3 [] pieces ≡ (packets, [])
receive-encode_all_example =
    receive-encode_all pieces packets (omega arith, (omega arith, tt)) pieces-packets
