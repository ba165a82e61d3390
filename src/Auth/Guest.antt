-- ===== src/Auth/Guest.antt =====
-- Nobody is signed in: what is left of the last user.
use blend_posv.Prelude.{
  ℕ, zero, suc, ◌&&◌, ◌≡◌, refl, ap, if◌then◌else◌, inl, inr, Bool, true, false, not, ◌||◌, Option,
  none, some, List, [], ◌∷◌, Bool-cases, Option-cases, if_intro, or_else,
}
use blend_posv.Text.{Text, has_text}
use blend_posv.Answer.{Answer, ok, thrown}
use blend_posv.Auth.{
  Session, Jwt, LoginResponse, LoginAnswer, welcome, refused, RefreshResult, login, signed,
  set_tokens, clear_tokens, logout, refresh_access_token, renewed, forget, after_refresh, refresh,
  init_auth, clear_must_change_password, schedule,
}
use blend_posv.Auth.Client.{Http, expire, request, has_token, is_unauthorized}

-- Calls of the stores and of the client, each with its answers.
pub data Call : Type 0 where
  logs_in : Text → Text → LoginAnswer → Call
  logs_out changes_password : Call
  refreshes starts : Text → (Text → Answer RefreshResult) → Call
  requests : (Text → Answer RefreshResult) → (ℕ → Option Text → Http) → Call

module _ (jwt : Jwt) where
  unfoldable pub call : Call → Session → Session
  unfolding login logout refresh init_auth clear_must_change_password request
  call (logs_in now name a) s = (login jwt now name a s).0
  call logs_out s = logout s
  call changes_password s = clear_must_change_password s
  call (refreshes now server) s = (refresh jwt now server s).0
  call (starts now server) s = init_auth jwt now server s
  call (requests server fetch) s = (request 2 false jwt server fetch s).session

  unfoldable pub calls : List Call → Session → Session
  unfolding call
  calls [] s = s
  calls (c ∷ cs) s = calls cs (call c s)

  -- While nobody is signed in there are no tokens, no user and no tenant.
  pub record IsClean (s : Session) : Type 0 where
    pub no_access : s.is_authenticated ≡ false → s.access ≡ none
    pub no_refresh : s.is_authenticated ≡ false → s.refresh ≡ none
    pub no_user : s.is_authenticated ≡ false → s.user ≡ none
    pub no_tenant : s.is_authenticated ≡ false → s.tenant_id ≡ none

  signed_in-IsClean : (s : Session) → s.is_authenticated ≡ true → IsClean s
  signed_in-IsClean s e = record {
    no_access = λ f. cc;
    no_refresh = λ f. cc;
    no_user = λ f. cc;
    no_tenant = λ f. cc;
  }

  signed-IsClean :
      (now name : Text) (r : LoginResponse) (s : Session) → IsClean (signed jwt now name r s)
  unfolding signed
  signed-IsClean now name r s =
      if_intro IsClean (has_text r.user.sucursal_id) _ _ (signed_in-IsClean _ refl)
        (signed_in-IsClean _ refl)

  renewed-IsClean : (now : Text) (r : RefreshResult) (s : Session) → IsClean (renewed jwt now r s)
  unfolding renewed
  renewed-IsClean now r s = elim (Option-cases r.user) [
    | inl e ↦ rw (e, renewed) (signed_in-IsClean _ refl)
    | inr (u, e) ↦
        rw (e, renewed)
          (if_intro IsClean (has_text u.sucursal_id) _ _ (signed_in-IsClean _ refl)
            (signed_in-IsClean _ refl))
  ]

  forget-IsClean : (s : Session) → IsClean (forget s)
  unfolding forget clear_tokens
  forget-IsClean s = record {
    no_access = λ e. refl;
    no_refresh = λ e. refl;
    no_user = λ e. refl;
    no_tenant = λ e. refl;
  }

  refresh-IsClean :
      (now : Text) (server : Text → Answer RefreshResult) (s : Session)
      → IsClean s
      → IsClean (refresh jwt now server s).0
  unfolding refresh
  refresh-IsClean now server s h =
      if_intro (λ (p : Session × Bool). IsClean p.0) (has_text s.refresh) _ (s, false)
        (ended (refresh_access_token jwt server s)) h
    where
      ended : (p : Session × Option RefreshResult) → IsClean (after_refresh jwt now p).0
      ended (s', some r) = renewed-IsClean now r s'
      ended (s', none) = forget-IsClean s'

  expire-IsClean : (b : Bool) (s : Session) → IsClean s → IsClean (expire b s)
  unfolding expire clear_tokens
  expire-IsClean b s h =
      if_intro IsClean b _ _
        (record {
          no_access = λ e. refl;
          no_refresh = λ e. refl;
          no_user = λ e. refl;
          no_tenant = λ e. refl;
        })
        h

  -- Only a session that is signed in has a refresh token.
  signed_in-refresh :
      (s : Session) → IsClean s → has_text s.refresh ≡ true → s.is_authenticated ≡ true
  signed_in-refresh s h e = elim (Bool-cases s.is_authenticated) [
    | inl e' ↦ e'
    | inr e' ↦ cc (ap has_text (h.no_refresh e'), e)
  ]

  refresh_access_token-IsClean :
      (server : Text → Answer RefreshResult) (s : Session)
      → IsClean s
      → IsClean (refresh_access_token jwt server s).0
  unfolding refresh_access_token set_tokens
  refresh_access_token-IsClean server s h = elim (Bool-cases (has_text s.refresh)) [
    | inr gone ↦ rw gone h
    | inl there ↦
        rw there
          (elim (server (or_else s.refresh []))
            as (λ a.
              IsClean
                (elim a as (λ _. Session × Option RefreshResult) [
                  | ok r ↦ (
                    schedule jwt r.access_token (set_tokens r.access_token r.refresh_token s),
                    some r,
                  )
                  | thrown m ↦ (s, none)
                ]).0) [ ok r ↦ signed_in-IsClean _ (signed_in-refresh s h there) | thrown m ↦ h ])
  ]

  request-IsClean :
      (fuel : ℕ) (is_retry : Bool) (server : Text → Answer RefreshResult)
      (fetch : ℕ → Option Text → Http) (s : Session)
      → IsClean s
      → IsClean (request fuel is_retry jwt server fetch s).session
  unfolding request
  request-IsClean zero is_retry server fetch s h = h
  request-IsClean (suc fuel) is_retry server fetch s h =
      elim (Bool-cases (is_unauthorized (fetch 0 s.access))) [
        | inr e ↦ rw (e, request) h
        | inl e ↦
            rw (e, request)
              (elim (Option-cases (
                if not is_retry && has_token s
                then (refresh_access_token jwt server s).1
                else none)) [
                  | inl gone ↦ rw gone (expire-IsClean (has_token s) s h)
                  | inr (r, there) ↦ rw there (
                      request-IsClean fuel true server (λ k. fetch (suc k)) _
                        (refresh_access_token-IsClean server s h))
                ])
      ]

  init_auth-IsClean :
      (now : Text) (server : Text → Answer RefreshResult) (s : Session)
      → IsClean s
      → IsClean (init_auth jwt now server s)
  unfolding init_auth clear_tokens
  init_auth-IsClean now server s h =
      if_intro IsClean (not s.is_authenticated || has_text s.access) s _ h (
        if_intro IsClean (refresh jwt now server s).1 (refresh jwt now server s).0 _
          (refresh-IsClean now server s h)
          (record {
            no_access = λ e. refl;
            no_refresh = λ e. refl;
            no_user = λ e. refl;
            no_tenant = λ e. refl;
          }))

  call-IsClean : (c : Call) (s : Session) → IsClean s → IsClean (call c s)
  unfolding call login logout clear_must_change_password clear_tokens
  call-IsClean (logs_in now name (welcome r)) s h = signed-IsClean now name r s
  call-IsClean (logs_in now name (refused e)) s h = h
  call-IsClean logs_out s h = record {
    no_access = λ e. refl;
    no_refresh = λ e. refl;
    no_user = λ e. refl;
    no_tenant = λ e. refl;
  }
  call-IsClean changes_password s h = record {
    no_access = h.no_access;
    no_refresh = h.no_refresh;
    no_user = h.no_user;
    no_tenant = h.no_tenant;
  }
  call-IsClean (refreshes now server) s h = refresh-IsClean now server s h
  call-IsClean (starts now server) s h = init_auth-IsClean now server s h
  call-IsClean (requests server fetch) s h = request-IsClean 2 false server fetch s h

  -- Whatever the server answers to calls that do not overlap, they keep that while nobody is signed
  -- in, there is no access token, no refresh token, no user and no tenant.
  pub calls-IsClean : (cs : List Call) (s : Session) → IsClean s → IsClean (calls cs s)
  unfolding calls
  calls-IsClean [] s h = h
  calls-IsClean (c ∷ cs) s h = calls-IsClean cs (call c s) (call-IsClean c s h)
