-- ===== src/Admin/Token/Bearer.antt =====
-- The token of a login, sent back in the `Authorization` header, gives the user.
use virt_db.Prelude.{ℕ, ◌+◌, ◌≤◌, ◌≡◌, false, [], ◌∷◌, ◌++◌, Text, codes, arith, refl, ◌∙◌, ap}
use virt_db.Text.{trim, trim_start, starts_with, contains, is_whitespace}
use virt_db.Admin.Error.{ok}
use virt_db.Admin.Token.{
  CurrentUser, Claims, audience, Jwt, JwtLaws, encode_token, verify_and_parse_token,
  parse_current_user, remove_all, bearer, value, from_request,
}

remove_all-absent :
    (p : ℕ) (ps s : Text) → contains (p ∷ ps) s ≡ false → remove_all (p ∷ ps) 0 s ≡ s
unfolding remove_all contains
remove_all-absent p ps [] h = refl
remove_all-absent p ps (c ∷ s) h = ground (arith, remove_all-absent p ps s)

remove_all-bearer :
    (token : Text)
    → contains bearer token ≡ false
    → remove_all bearer 0 (codes "Bearer " ++ token) ≡ 0x20 ∷ token
unfolding remove_all starts_with
remove_all-bearer token h = ap (λ s. 0x20 ∷ s) (remove_all-absent b'B' (codes "earer") token h)

trim-space : (s : Text) → trim (0x20 ∷ s) ≡ trim s
unfolding trim trim_start is_whitespace
trim-space s = refl

module _ (jwt : Jwt) (laws : JwtLaws jwt) (jwt_secret : Text) where
  parse_current_user-decoded :
      (now : ℕ) (token : Text) (claims : Claims)
      → jwt.decode jwt_secret audience now token ≡ ok claims
      → parse_current_user jwt jwt_secret now token ≡ ok claims.subject
  unfolding parse_current_user verify_and_parse_token
  parse_current_user-decoded now token claims h = ground (arith, h)

  -- A request with the header "Bearer " and a token that was made for a user is that user's until the
  -- token's time is over, if the token has no white space at its ends and not the word "Bearer" inside.
  pub from_request-encode_token :
      (now : ℕ) (v : CurrentUser) (duration_in_seconds later : ℕ) (token : Text)
      → encode_token jwt jwt_secret now v duration_in_seconds ≡ ok token
      → contains bearer token ≡ false
      → trim token ≡ token
      → later ≤ now + duration_in_seconds
      → from_request jwt jwt_secret later (value (codes "Bearer " ++ token)) ≡ ok v
  unfolding encode_token from_request parse_current_user verify_and_parse_token
  from_request-encode_token now v duration later token e b t h =
      let claims : Claims = record { aud = audience; subject = v; exp = now + duration; iat = 0 } in
      let bare = trim-space token ∙ t in
      let d = laws.decode-encode jwt_secret claims token later e h in
      ap (λ t. parse_current_user jwt jwt_secret later (trim t)) (remove_all-bearer token b)
      ∙ ap (parse_current_user jwt jwt_secret later) bare
      ∙ parse_current_user-decoded later token claims d
