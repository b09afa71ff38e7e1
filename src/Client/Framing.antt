-- ===== src/Client/Framing.antt =====
-- `send_packet` and `read_packet` of crates/canal-client/src/lib.rs on the bytes of the stream.
use canal_rust.Prelude.{
  ℕ, ◌+◌, ◌%◌, ◌≤◌, ◌<◌, ◌≡◌, refl, sym, true, false, inl, inr, Bool-cases, length-take,
  length-drop, none, some, [], ◌∷◌, ◌++◌, arith, length, take, drop, ltb, ◌==◌, if◌then◌else◌,
}
use canal_rust.Prelude.Bytes.{Text, bytes, decimal}
use canal_rust.Common.CanalError.{
  CanalError, CanalResult, Result, ok, err, protocol, ◌>>=◌, map_err,
}
use canal_rust.Codec.{from_be_bytes, to_be_bytes, max_packet_size, Decoded, decode, decode_frame}
use canal_rust.Server.Connection.{Packet}

-- The buffer that `send_packet` writes
unfoldable pub written : Text → Text
written body = to_be_bytes (length body % 4294967296) ++ body

pub zero_length : CanalError
zero_length = protocol (bytes "received zero-length packet")

pub too_large : ℕ → CanalError
too_large len = protocol (bytes "packet too large: " ++ (decimal len ++ bytes " bytes (max 8MB)"))

-- `eof` is the error of a stream that ends inside a `read_exact`.
module _ (eof : CanalError) where
  unfoldable pub read_exact : ℕ → Text → CanalResult (Text × Text)
  read_exact n input = if ltb (length input) n then err eof else ok (take n input, drop n input)

  unfoldable pub read_body : ℕ → Text → CanalResult (Text × Text)
  read_body len input =
      if len == 0
      then err zero_length
      else if ltb max_packet_size len
      then err (too_large len)
      else read_exact len input

  -- `read_packet` up to `Packet::decode`: the bytes of the packet and the rest of the stream
  unfoldable pub read_frame : Text → CanalResult (Text × Text)
  read_frame input = do header ← read_exact 4 input; read_body (from_be_bytes header.0) header.1

  unfoldable pub read_packet : (Text → Result Packet Text) → Text → CanalResult (Packet × Text)
  read_packet decode_packet input = do
    body ← read_frame input
    packet ← map_err (λ e. protocol (bytes "decode Packet: " ++ e)) (decode_packet body.0)
    ok (packet, body.1)

  -- What the answer of the server's codec says to a reader of the whole stream
  unfoldable pub as_read : ℕ → Decoded → CanalResult (Text × Text)
  as_read len d = elim d.result [
    | err e ↦ err (too_large len)
    | ok none ↦ err eof
    | ok (some []) ↦ err zero_length
    | ok (some (c ∷ cs)) ↦ ok (c ∷ cs, d.src)
  ]

  as_read-payload :
      (len : ℕ) (xs rest : Text)
      → 0 < length xs
      → as_read len (record { result = ok (some xs); src = rest; reserved = 0 }) ≡ ok (xs, rest)
  unfolding as_read
  as_read-payload len [] rest h = absurd (omega (arith, h))
  as_read-payload len (x ∷ xs) rest h = refl

  read_body-decode_frame :
      (len : ℕ) (src : Text)
      → 4 ≤ length src
      → read_body len (drop 4 src) ≡ as_read len (decode_frame len src)
  unfolding read_body decode_frame read_exact as_read
  read_body-decode_frame len src h = elim (Bool-cases (len == 0)) [
    | inl zero_len ↦ rw zero_len refl
    | inr some_len ↦ elim (Bool-cases (ltb max_packet_size len)) [
      | inl large ↦ rw (some_len, large) refl
      | inr small ↦ elim (Bool-cases (ltb (length src) (4 + len))) [
        | inl short ↦
            let e : ltb (length (drop 4 src)) len ≡ true =
              ground (arith, length-drop 4 src, short) in
            rw (some_len, small, short, e) refl
        | inr whole ↦
            let e : ltb (length (drop 4 src)) len ≡ false =
              ground (arith, length-drop 4 src, whole) in
            let n = length-take len (drop 4 src) in
            rw (some_len, small, whole, e)
              (sym (
                as_read-payload len (take len (drop 4 src)) (drop len (drop 4 src))
                  (ground (arith, length-drop 4 src))))
      ]
    ]
  ]

  -- On every stream the client reads what the codec of the server decodes: the same payload and the
  -- same rest where there is a whole frame, the same refusal of a frame of more than 8 MB; only an
  -- empty frame is an error here, and what is not complete when the stream ends is its error.
  pub read_frame-decode :
      (input : Text) → read_frame input ≡ as_read (from_be_bytes (take 4 input)) (decode input)
  unfolding read_frame read_exact read_body as_read decode decode_frame
  read_frame-decode input = elim (Bool-cases (ltb (length input) 4)) [
    | inl short ↦ rw short refl
    | inr whole ↦
        rw whole (read_body-decode_frame (from_be_bytes (take 4 input)) input (ground arith))
  ]
