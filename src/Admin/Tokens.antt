-- ===== src/Admin/Tokens.antt =====
-- Which headers the tests of crates/canal-admin/src/lib.rs and
-- crates/canal-prometheus/src/metrics_server.rs accept.
use canal_rust.Prelude.{
  ℕ, ◌+◌, ◌%◌, ◌<◌, ◌≡◌, ◌↔◌, ◌⊎◌, refl, ap, Option, none, some, Bool, true, false, [], ◌∷◌, ◌&&◌,
  ◌||◌, arith, inl, inr, length, Bool-cases, is_empty, ◌==◌, if◌then◌else◌,
}
use canal_rust.Prelude.Bytes.{Text, bytes}
use canal_rust.Common.CanalError.{ok, err}
use canal_rust.Admin.{
  unauthorized, padded_eq, constant_time_eq, header_text, bearer, check_auth, zip_eq,
  check_metrics_auth,
}

padded_eq_iff : (a b : Text) → length a ≡ length b → (padded_eq a b ≡ true) ↔ (a ≡ b)
unfolding padded_eq
padded_eq_iff [] [] h = ground arith
padded_eq_iff [] (y ∷ b) h = absurd (omega arith)
padded_eq_iff (x ∷ a) [] h = absurd (omega arith)
padded_eq_iff (x ∷ a) (y ∷ b) h = ground (arith, padded_eq_iff a b (omega arith))

zip_eq_iff : (a b : Text) → length a ≡ length b → (zip_eq a b ≡ true) ↔ (a ≡ b)
unfolding zip_eq
zip_eq_iff [] [] h = ground arith
zip_eq_iff [] (y ∷ b) h = absurd (omega arith)
zip_eq_iff (x ∷ a) [] h = absurd (omega arith)
zip_eq_iff (x ∷ a) (y ∷ b) h = ground (arith, zip_eq_iff a b (omega arith))

-- Below 64 KiB the comparison is equality.
pub constant_time_eq_iff :
    (a b : Text) → length a < 65536 → length b < 65536 → (constant_time_eq a b ≡ true) ↔ (a ≡ b)
unfolding constant_time_eq
constant_time_eq_iff a b h k = elim (Bool-cases (length a == length b)) [
  | inl same ↦
      let e : length a ≡ length b = ground arith in
      let m : (length a % 65536 == length b % 65536) ≡ true = ground arith in
      ground (arith, padded_eq_iff a b e)
  | inr other ↦
      let m : (length a % 65536 == length b % 65536) ≡ false = ground arith in
      ground (arith, ap (length {A = ℕ}))
]

same_length_iff : (a b : Text) → ((length a == length b && zip_eq a b) ≡ true) ↔ (a ≡ b)
same_length_iff a b = elim (Bool-cases (length a == length b)) [
  | inl same ↦ ground (arith, zip_eq_iff a b (ground arith))
  | inr other ↦ ground (arith, ap (length {A = ℕ}))
]

-- The header of an accepted request: the token itself, or the token as a bearer token.
abbrev pub Names : Text → Text → Type 0
Names text token = (text ≡ bearer token) ⊎ (text ≡ token)

length-bearer : (token : Text) → length (bearer token) ≡ 7 + length token
unfolding bytes
length-bearer token = omega arith

token_iff :
    (header : Option Text) (token : Text)
    → length (header_text header) < 65536
    → length token + 7 < 65536
    → (check_auth header (some token) ≡ ok tt)
      ↔ ((is_empty token ≡ false) × Names (header_text header) token)
unfolding check_auth
token_iff header token h k =
    let whole =
      constant_time_eq_iff (header_text header) (bearer token) h
        (omega (arith, length-bearer token)) in
    let bare = constant_time_eq_iff (header_text header) token h (omega arith) in
    accepted (is_empty token) (constant_time_eq (header_text header) (bearer token))
      (constant_time_eq (header_text header) token) whole bare
  where
    accepted :
        (empty a b : Bool) {P Q : Type 0}
        → (a ≡ true) ↔ P
        → (b ≡ true) ↔ Q
        → ((if empty then err unauthorized else if a || b then ok tt else err unauthorized) ≡ ok tt)
          ↔ ((empty ≡ false) × (P ⊎ Q))
    accepted true a b p q = (λ e. absurd cc, λ f. absurd cc)
    accepted false true b p q = (λ e. (refl, inl (p.0 refl)), λ f. refl)
    accepted false false true p q = (λ e. (refl, inr (q.0 refl)), λ f. refl)
    accepted false false false p q = (
      λ e. absurd cc,
      λ f. elim f.1 [ inl x ↦ let t = p.1 x in cc | inr y ↦ let t = q.1 y in cc ],
    )

-- The configured token, if any, leaves the compared texts shorter than 64 KiB.
abbrev pub IsShort : Option Text → Type 0
IsShort none = Unit
IsShort (some token) = length token + 7 < 65536

-- Which headers pass: all of them without a configured token
abbrev pub Passes : Option Text → Text → Type 0
Passes none text = Unit
Passes (some token) text = (is_empty token ≡ false) × Names text token

-- The admin server, for a header and a configured token of less than 64 KiB, with the word Bearer.
-- Where no token is configured it accepts every request. Where one is, it accepts exactly those whose
-- header is that token, alone or as a bearer token, and none if the token is empty: a missing header
-- is refused.
pub check_auth_iff :
    (header configured : Option Text)
    → length (header_text header) < 65536
    → IsShort configured
    → (check_auth header configured ≡ ok tt) ↔ Passes configured (header_text header)
unfolding check_auth
check_auth_iff header none h k = (λ e. tt, λ t. refl)
check_auth_iff header (some token) h k = token_iff header token h k

-- The metrics server accepts a header exactly when a token that is not empty is configured and the
-- header is that token, alone or as a bearer token.
pub check_metrics_auth_iff :
    (header : Option Text) (token : Text)
    → (check_metrics_auth header (some token) ≡ true)
      ↔ ((is_empty token ≡ false) × Names (header_text header) token)
unfolding check_metrics_auth
check_metrics_auth_iff header token = elim (Bool-cases (is_empty token)) [
  | inl none_given ↦ ground arith
  | inr given ↦ ground (
    arith,
    same_length_iff (header_text header) (bearer token),
    same_length_iff (header_text header) token,
  )
]
