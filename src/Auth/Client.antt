-- ===== src/Auth/Client.antt =====
-- `request` of frontend/src/api/client.ts: what a request does when the server answers 401.
use blend_posv.Prelude.{
  ℕ, zero, suc, Bool, true, false, not, ◌&&◌, ◌||◌, Option, none, some, List, [], ◌∷◌, ◌++◌, ◌==◌,
  if◌then◌else◌, leb, or_else,
}
use blend_posv.Text.{Text, has_text}
use blend_posv.Answer.{Answer}
use blend_posv.Auth.{
  Session, Jwt, RefreshResult, clear_tokens, cancel_proactive_refresh, refresh_access_token,
}

-- What `fetch` gives: a reply with its status and body, or an error.
pub data Http : Type 0 where
  reply : ℕ → Text → Http
  unreachable : Http
  crashed : Text → Http

pub data Outcome : Type 0 where
  offline expired no_content : Outcome
  crash : Text → Outcome
  bad_status : ℕ → Text → Outcome
  body : Text → Outcome
  -- The fuel of the model is spent.
  unfinished : Outcome

abbrev pub is_unauthorized : Http → Bool
is_unauthorized (reply status text) = status == 401
is_unauthorized unreachable = false
is_unauthorized (crashed m) = false

-- The outcome where the status is not 401.
abbrev pub outcome_of : Http → Outcome
outcome_of unreachable = offline
outcome_of (crashed m) = crash m
outcome_of (reply status text) =
    if leb 200 status && leb status 299
    then (if status == 204 then no_content else body text)
    else bad_status status text

-- The end of the 401 branch, with whether there was a token.
unfoldable pub expire : Bool → Session → Session
unfolding clear_tokens cancel_proactive_refresh
expire had_token s =
    if had_token
    then record (clear_tokens (cancel_proactive_refresh s)) {
      user = none;
      is_authenticated = false;
      tenant_id = none;
      must_change_password = false;
    }
    else s

abbrev pub has_token : Session → Bool
has_token s = has_text s.access || has_text s.refresh

-- A call of `fetch`: one of the request itself, with the token that it carries, or the one of
-- `refreshAccessToken`.
pub data Sent : Type 0 where
  own : Option Text → Sent
  renewal : Text → Sent

-- What a request ends with, the session after it, and the calls of `fetch` on the way.
pub record Requested : Type 0 where
  pub outcome : Outcome
  pub session : Session
  pub sent : List Sent

-- The call of `fetch` in `refreshAccessToken`, which throws first if there is no refresh token.
abbrev pub renewals : Session → List Sent
renewals s = if has_text s.refresh then renewal (or_else s.refresh []) ∷ [] else []

-- `fetch` answers the calls of the request in their order, and `server` the one that renews the
-- tokens. The recursion is on fuel.
unfoldable pub request :
    ℕ → Bool → Jwt → (Text → Answer RefreshResult) → (ℕ → Option Text → Http) → Session → Requested
unfolding refresh_access_token expire
request zero is_retry jwt server fetch s = record { outcome = unfinished; session = s; sent = [] }
request (suc fuel) is_retry jwt server fetch s =
    let r = fetch 0 s.access in
    if is_unauthorized r
    then (let (s', answer) = refresh_access_token jwt server s in
        let renews = not is_retry && has_token s in
        let sent = own s.access ∷ (if renews then renewals s else []) in
        elim (if renews then answer else none) [
          | some result ↦
              let again = request fuel true jwt server (λ k. fetch (suc k)) s' in
              record again { sent = sent ++ again.sent }
          | none ↦ record { outcome = expired; session = expire (has_token s) s; sent = sent }
        ])
    else record { outcome = outcome_of r; session = s; sent = own s.access ∷ [] }
