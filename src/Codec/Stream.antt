-- ===== src/Codec/Stream.antt =====
-- `CanalCodec` of crates/canal-server/src/codec.rs over a stream that arrives in pieces.
use canal_rust.Prelude.{
  ℕ, zero, suc, ◌+◌, ◌≤◌, ◌<◌, ◌≡◌, refl, sym, ap, ◌∙◌, inl, inr, ◌⊎◌, none, some, List, [], ◌∷◌,
  ◌++◌, arith, length, take, drop, ltb, length-append, Bool-cases, All,
}
use mathlib.Core.List.{append-nil, append_assoc}
use mathlib.Core.Path.{subst}
use canal_rust.Prelude.Bytes.{Text}
use canal_rust.Common.CanalError.{ok, err}
use canal_rust.Codec.{Decoded, from_be_bytes, max_packet_size, decode, encode}
use canal_rust.Codec.RoundTrip.{frame, decode-frame, encode-eq-frame}

-- A buffer that holds less than the frame it starts with waits: no packet, no error, no byte lost,
-- and at most 64 KiB more are reserved, whatever length the header claims.
pub decode_incomplete :
    (src : Text)
    → (length src < 4)
      ⊎ ((0 < from_be_bytes (take 4 src))
          × (from_be_bytes (take 4 src) ≤ max_packet_size)
          × (length src < 4 + from_be_bytes (take 4 src)))
    → ((decode src).result ≡ ok none) × ((decode src).src ≡ src) × ((decode src).reserved ≤ 65536)
unfolding decode
decode_incomplete src h = ground arith

-- `Framed`: decode until nothing more is complete. An error ends the stream.
drain_on : (Text → List Text × Text) → Decoded → List Text × Text
drain_on next d = elim d.result [
  | ok found ↦ elim found [
    | some packet ↦ (packet ∷ (next d.src).0, (next d.src).1)
    | none ↦ ([], d.src)
  ]
  | err e ↦ ([], d.src)
]

unfoldable pub drain : ℕ → Text → List Text × Text
unfolding drain_on
drain zero src = ([], src)
drain (suc fuel) src = drain_on (drain fuel) (decode src)

-- The bytes that arrive in pieces: each piece goes behind what the buffer holds.
unfoldable pub receive : ℕ → Text → List Text → List Text × Text
receive fuel buf [] = ([], buf)
receive fuel buf (piece ∷ pieces) =
    let got = drain fuel (buf ++ piece) in
    let more = receive fuel got.1 pieces in (got.0 ++ more.0, more.1)

abbrev pub frames : List Text → Text
frames [] = []
frames (p ∷ ps) = frame p ++ frames ps

abbrev pub concat : List Text → Text
concat [] = []
concat (piece ∷ pieces) = piece ++ concat pieces

split-front :
    (front back xs ys : Text)
    → length front ≤ length xs
    → xs ++ ys ≡ front ++ back
    → (xs ≡ front ++ drop (length front) xs) × (drop (length front) xs ++ ys ≡ back)
split-front [] back xs ys h e = (refl, e)
split-front (c ∷ front) back [] ys h e = absurd (omega arith)
split-front (c ∷ front) back (x ∷ xs) ys h e =
    let tails : xs ++ ys ≡ front ++ back = ground arith in
    let rest = split-front front back xs ys (omega arith) tails in (ground arith, rest.1)

-- A proper prefix of a frame is not complete.
prefix-waits :
    (payload back xs ys : Text)
    → length payload ≤ max_packet_size
    → length xs < 4 + length payload
    → xs ++ ys ≡ frame payload ++ back
    → ((decode xs).result ≡ ok none) × ((decode xs).src ≡ xs)
prefix-waits payload back (a ∷ b ∷ c ∷ d ∷ xs) ys h short e =
    let n = length payload in
    let len : from_be_bytes (a ∷ b ∷ c ∷ d ∷ []) ≡ n = grind arith in
    let w = decode_incomplete (a ∷ b ∷ c ∷ d ∷ xs) (inr (omega arith, omega arith, omega arith)) in
    (w.0, w.1)
prefix-waits payload back [] ys h short e =
    let w = decode_incomplete [] (inl (omega arith)) in (w.0, w.1)
prefix-waits payload back (a ∷ []) ys h short e =
    let w = decode_incomplete (a ∷ []) (inl (omega arith)) in (w.0, w.1)
prefix-waits payload back (a ∷ b ∷ []) ys h short e =
    let w = decode_incomplete (a ∷ b ∷ []) (inl (omega arith)) in (w.0, w.1)
prefix-waits payload back (a ∷ b ∷ c ∷ []) ys h short e =
    let w = decode_incomplete (a ∷ b ∷ c ∷ []) (inl (omega arith)) in (w.0, w.1)

-- What one call of the decoder makes of the front of a stream of frames: whole packets, and bytes
-- that start the rest.
abbrev Split : ℕ → List Text → Text → Text → Type 0
Split fuel ps xs ys =
    (found rest : List Text) × (left : Text) × (ps ≡ found ++ rest)
    × (drain fuel xs ≡ (found, left))
    × (left ++ ys ≡ frames rest)
    × (ys ≡ [] → (left ≡ []) × (rest ≡ []))

drain-waiting :
    (fuel : ℕ) (xs : Text)
    → (decode xs).result ≡ ok none
    → (decode xs).src ≡ xs
    → drain (suc fuel) xs ≡ ([], xs)
unfolding drain
drain-waiting fuel xs waits kept = ground arith

drain-packet :
    (fuel : ℕ) (p xs : Text)
    → length p ≤ max_packet_size
    → drain (suc fuel) (frame p ++ xs) ≡ (p ∷ (drain fuel xs).0, (drain fuel xs).1)
unfolding drain
drain-packet fuel p xs h = ap (drain_on (drain fuel)) (decode-frame p xs h)

drain-Split :
    (fuel : ℕ) (ps : List Text) (xs ys : Text)
    → All (λ p. length p ≤ max_packet_size) ps
    → length ps < fuel
    → xs ++ ys ≡ frames ps
    → Split fuel ps xs ys
drain-Split zero ps xs ys small enough e = absurd (omega arith)
drain-Split (suc fuel) [] [] ys small enough e =
    let w = decode_incomplete [] (inl (omega arith)) in
    ([], [], [], refl, drain-waiting fuel [] w.0 w.1, e, λ _. (refl, refl))
drain-Split (suc fuel) [] (x ∷ xs) ys small enough e = cc
drain-Split (suc fuel) (p ∷ ps) xs ys small enough e =
    elim (Bool-cases (ltb (length xs) (4 + length p))) [
      | inl short ↦
          let w = prefix-waits p (frames ps) xs ys small.0 (ground arith) e in
          (
            [],
            p ∷ ps,
            xs,
            refl,
            drain-waiting fuel xs w.0 w.1,
            e,
            λ none_left. absurd (lost none_left (ground arith)),
          )
      | inr whole ↦
          let (front, back) = split-front (frame p) (frames ps) xs ys (ground arith) e in
          let xs' = drop (length (frame p)) xs in
          let (found, rest, left, parts, drained, joined, end) =
            drain-Split fuel ps xs' ys small.1 (omega arith) back in
          (
            p ∷ found,
            rest,
            left,
            ap (◌∷◌ p) parts,
            ap (drain (suc fuel)) front
                ∙ (drain-packet fuel p xs' small.0 ∙ ap (λ d. (p ∷ d.0, d.1)) drained),
            joined,
            end,
          )
    ]
  where
    lost : ys ≡ [] → length xs < 4 + length p → ⊥
    lost none_left short = omega (
      arith,
      ap length e,
      length-append xs ys,
      ap length none_left,
      length-append (frame p) (frames ps),
    )

All-rest :
    (found rest : List Text)
    → All (λ p. length p ≤ max_packet_size) (found ++ rest)
    → All (λ p. length p ≤ max_packet_size) rest
All-rest [] rest h = h
All-rest (p ∷ found) rest h = All-rest found rest h.1

receive-frames_from :
    (fuel : ℕ) (pieces : List Text) (buf : Text) (ps : List Text)
    → All (λ p. length p ≤ max_packet_size) ps
    → length ps < fuel
    → buf ++ concat pieces ≡ frames ps
    → (pieces ≡ [] → (buf ≡ []) × (ps ≡ []))
    → receive fuel buf pieces ≡ (ps, [])
unfolding receive
receive-frames_from fuel [] buf ps small enough e end =
    let (no_bytes, no_packets) = end refl in rw no_bytes (rw no_packets refl)
receive-frames_from fuel (piece ∷ pieces) buf ps small enough e end =
    let (found, rest, left, parts, drained, joined, last) =
      drain-Split fuel ps (buf ++ piece) (concat pieces) small enough
        (append_assoc buf piece (concat pieces) ∙ e) in
    let later = subst (All (λ p. length p ≤ max_packet_size)) parts small in
    let fewer : length rest < fuel = omega (arith, ap length parts, length-append found rest) in
    let ih =
      receive-frames_from fuel pieces left rest (All-rest found rest later) fewer joined
        (λ none_left. last (ap concat none_left)) in
    rw drained (rw ih (rw parts refl))

-- The sender's buffer after one packet after the other.
unfoldable pub encode_all : List Text → Text → Text
encode_all [] dst = dst
encode_all (p ∷ ps) dst = encode_all ps (encode p dst)

encode_all-frames :
    (ps : List Text) (dst : Text)
    → All (λ p. length p ≤ max_packet_size) ps
    → encode_all ps dst ≡ dst ++ frames ps
unfolding encode_all
encode_all-frames [] dst small = sym (append-nil dst)
encode_all-frames (p ∷ ps) dst small =
    ap (encode_all ps) (encode-eq-frame p dst (omega arith))
    ∙ (encode_all-frames ps (dst ++ frame p) small.1 ∙ append_assoc dst (frame p) (frames ps))

-- Whatever the pieces in which a stream of encoded packets of at most 8 MB arrives, empty pieces and
-- pieces that cut a header included, the decoder returns exactly these packets in their order and
-- ends with an empty buffer.
pub receive-encode_all :
    (pieces ps : List Text)
    → All (λ p. length p ≤ max_packet_size) ps
    → concat pieces ≡ encode_all ps []
    → receive (suc (length ps)) [] pieces ≡ (ps, [])
receive-encode_all pieces ps small e = go pieces (e ∙ encode_all-frames ps [] small)
  where
    nothing : (qs : List Text) → [] ≡ frames qs → qs ≡ []
    nothing [] e = refl
    nothing (q ∷ qs) e = cc

    go : (cs : List Text) → concat cs ≡ frames ps → receive (suc (length ps)) [] cs ≡ (ps, [])
    go [] e =
        receive-frames_from (suc (length ps)) [] [] ps small (omega arith) e
          (λ _. (refl, nothing ps e))
    go (c ∷ cs) e =
        receive-frames_from (suc (length ps)) (c ∷ cs) [] ps small (omega arith) e (λ h. cc)
