-- ===== src/Credentials/Grants.antt =====
-- internal/credentials/oauth.go: the checks on a grant, and what refreshGrant makes of an answer.
--
-- What the JSON decoder makes of the answer of a token endpoint is a TokenAnswer.
use Prim.Native.Char.{code}
use Prim.Native.String.{String}
use clash_of_tokens.Base.{
  ℕ, ◌+◌, ◌*◌, Bool, true, false, not, ◌&&◌, ◌||◌, List, [], ◌∷◌, Option, none, some, if◌then◌else◌,
  ltb, eqb, ◌==◌,
}
use clash_of_tokens.Base.Int.{ℤ, pos, negsuc, ltb_ℤ, leb_ℤ}
use clash_of_tokens.Config.Text.{byte_len, between}
use clash_of_tokens.Config.Profiles.{Net, Url, is_loopback_ip}
use clash_of_tokens.Credentials.{OauthGrant}

unfoldable pub has_code : List ℕ → ℕ → Bool
has_code [] x = false
has_code (y ∷ ys) x = eqb y x || has_code ys x

-- strings.ContainsAny, with the codes of the characters.
unfoldable pub contains_any : List ℕ → String → Bool
unfolding has_code
contains_any codes String.[] = false
contains_any codes (String.◌∷◌ c s) = has_code codes (code c) || contains_any codes s

-- "\r\n\x00".
abbrev pub control_codes : List ℕ
control_codes = 13 ∷ 10 ∷ 0 ∷ []

module _ ⦃net : Net⦄ where
  abbrev pub token_endpoint : Option Url → Bool
  token_endpoint none = false
  token_endpoint (some u) =
      not (u.hostname == "" || (u.user || (not (u.raw_query == "") || not (u.fragment == ""))))
      && (u.scheme == "https" || u.scheme == "http" && is_loopback_ip u.hostname)

  unfoldable pub valid_token_url : String → Bool
  valid_token_url endpoint = token_endpoint (net.parse_url endpoint)

  abbrev pub bad_grant_size : OauthGrant → Bool
  bad_grant_size g =
      g.access_token == ""
      || (ltb 65536 (byte_len g.access_token)
          || (ltb 65536 (byte_len g.refresh_token)
              || (ltb 65536 (byte_len g.client_secret)
                  || (ltb 1024 (byte_len g.client_id)
                      || (ltb 2048 (byte_len g.scope)
                          || (ltb 256 (byte_len g.account_id)
                              || contains_any control_codes g.access_token))))))

  unfoldable pub valid_grant : OauthGrant → Bool
  unfolding byte_len contains_any valid_token_url
  valid_grant g =
      not (bad_grant_size g)
      && (not (not (g.token_url == "") && not (valid_token_url g.token_url))
          && not (not (g.refresh_token == "") && (g.token_url == "" || g.client_id == "")))

pub record TokenAnswer : Type 0 where
  pub access_token : String
  pub refresh_token : String
  pub expires_in : ℤ
  pub scope : String
  pub token_type : String

abbrev pub lower_code : ℕ → ℕ
lower_code c = if between 65 90 c then c + 32 else c

-- strings.EqualFold with a text in lower-case letters that only ASCII letters fold to.
unfoldable pub equal_fold : String → String → Bool
equal_fold String.[] String.[] = true
equal_fold String.[] (String.◌∷◌ d t) = false
equal_fold (String.◌∷◌ c s) String.[] = false
equal_fold (String.◌∷◌ c s) (String.◌∷◌ d t) = eqb (lower_code (code c)) (code d) && equal_fold s t

abbrev pub seconds : ℤ → ℕ
seconds (pos n) = n
seconds (negsuc n) = 0

abbrev pub year : ℤ
year = pos 31536000

unfoldable pub bad_answer : TokenAnswer → Bool
unfolding equal_fold
bad_answer w =
    w.access_token == ""
    || (leb_ℤ w.expires_in (pos 0)
        || (ltb_ℤ year w.expires_in
            || not (w.token_type == "") && not (equal_fold w.token_type "bearer")))

abbrev pub text_or : String → String → String
text_or t other = if t == "" then other else t

abbrev pub answered_grant : ℕ → TokenAnswer → OauthGrant → OauthGrant
answered_grant now w g = record g {
  access_token = w.access_token;
  refresh_token = text_or w.refresh_token g.refresh_token;
  scope = text_or w.scope g.scope;
  expires_at = now + seconds w.expires_in * 1000000000;
}

-- refreshGrant from the answer on; `none` is an error.
unfoldable pub refresh_grant : ⦃net : Net⦄ → ℕ → Option TokenAnswer → OauthGrant → Option OauthGrant
unfolding bad_answer valid_grant
refresh_grant now none g = none
refresh_grant now (some w) g =
    if bad_answer w
    then none
    else if valid_grant (answered_grant now w g)
    then some (answered_grant now w g)
    else none
