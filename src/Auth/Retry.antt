-- ===== src/Auth/Retry.antt =====
-- A request whose token has run out.
use blend_posv.Prelude.{
  ℕ, zero, suc, ◌≤◌, ◌≡◌, ◌≢◌, refl, inl, inr, Bool, true, false, Option, none, List, [], ◌∷◌, ◌+◌,
  ◌++◌, arith, Bool-cases, Option-cases, if◌then◌else◌,
}
use blend_posv.Text.{Text, has_text}
use blend_posv.Answer.{Answer}
use blend_posv.Auth.{Session, Jwt, RefreshResult, refresh_access_token, clear_tokens}
use blend_posv.Auth.Client.{
  Http, expired, unfinished, expire, has_token, is_unauthorized, request, renewals, Requested, Sent,
  own, renewal, outcome_of, reply, unreachable, crashed,
}

is_not_expired : (h : Http) → is_unauthorized h ≡ false → outcome_of h ≢ expired
is_not_expired (reply status text) h e = ground arith
is_not_expired unreachable h e = cc
is_not_expired (crashed m) h e = cc

is_finished : (h : Http) → outcome_of h ≢ unfinished
is_finished (reply status text) e = ground arith
is_finished unreachable e = cc
is_finished (crashed m) e = cc

abbrev count_own : List Sent → ℕ
count_own [] = 0
count_own (own t ∷ xs) = suc (count_own xs)
count_own (renewal t ∷ xs) = count_own xs

abbrev count_renewals : List Sent → ℕ
count_renewals [] = 0
count_renewals (own t ∷ xs) = count_renewals xs
count_renewals (renewal t ∷ xs) = suc (count_renewals xs)

-- The recursion has ended; so many calls of `fetch` at most were the request's own and so many were
-- to renew the tokens; and an expired session is left without tokens.
pub record IsSafe (k j : ℕ) (r : Requested) : Type 0 where
  pub finished : r.outcome ≢ unfinished
  pub short : count_own r.sent ≤ k
  pub renewed : count_renewals r.sent ≤ j
  pub locked : r.outcome ≡ expired → has_token r.session ≡ false

expire-has_token : (s : Session) → has_token (expire (has_token s) s) ≡ false
unfolding expire clear_tokens
expire-has_token s = elim (Bool-cases (has_token s)) [ inl e ↦ rw e refl | inr e ↦ rw e e ]

expired-IsSafe :
    (j : ℕ) (s : Session) (sent : List Sent)
    → count_own sent ≤ 1
    → count_renewals sent ≤ j
    → IsSafe 1 j (record { outcome = expired; session = expire (has_token s) s; sent = sent })
expired-IsSafe j s sent h h' = record {
  finished = λ e. cc;
  short = h;
  renewed = h';
  locked = λ _. expire-has_token s;
}

answered-IsSafe :
    (h : Http) (s : Session)
    → is_unauthorized h ≡ false
    → IsSafe 1 0 (record { outcome = outcome_of h; session = s; sent = own s.access ∷ [] })
answered-IsSafe h s e = record {
  finished = is_finished h;
  short = omega arith;
  renewed = omega arith;
  locked = λ x. absurd (is_not_expired h e x);
}

weaker-IsSafe : {k k' j j' : ℕ} (r : Requested) → k ≤ k' → j ≤ j' → IsSafe k j r → IsSafe k' j' r
weaker-IsSafe r a b h = record {
  finished = h.finished;
  short = omega (arith, h.short);
  renewed = omega (arith, h.renewed);
  locked = h.locked;
}

-- What a first attempt has sent before its retry.
abbrev first_sent : Bool → Session → List Sent
first_sent renews s = own s.access ∷ (if renews then renewals s else [])

first_sent-counts :
    (b : Bool) (s : Session)
    → (count_own (first_sent b s) ≤ 1) × (count_renewals (first_sent b s) ≤ 1)
first_sent-counts false s = (omega arith, omega arith)
first_sent-counts true s = elim (Bool-cases (has_text s.refresh)) [
  | inl e ↦ rw e (omega arith, omega arith)
  | inr e ↦ rw e (omega arith, omega arith)
]

count_own-++ : (xs ys : List Sent) → count_own (xs ++ ys) ≡ count_own xs + count_own ys
count_own-++ [] ys = omega arith
count_own-++ (own t ∷ xs) ys = omega (arith, count_own-++ xs ys)
count_own-++ (renewal t ∷ xs) ys = count_own-++ xs ys

count_renewals-++ :
    (xs ys : List Sent) → count_renewals (xs ++ ys) ≡ count_renewals xs + count_renewals ys
count_renewals-++ [] ys = omega arith
count_renewals-++ (own t ∷ xs) ys = count_renewals-++ xs ys
count_renewals-++ (renewal t ∷ xs) ys = omega (arith, count_renewals-++ xs ys)

-- A retry calls `fetch` once and renews nothing.
retry-IsSafe :
    (fuel : ℕ) (jwt : Jwt) (server : Text → Answer RefreshResult) (fetch : ℕ → Option Text → Http)
    (s : Session)
    → IsSafe 1 0 (request (suc fuel) true jwt server fetch s)
unfolding request
retry-IsSafe fuel jwt server fetch s = elim (Bool-cases (is_unauthorized (fetch 0 s.access))) [
  | inl e ↦ rw (e, request) (expired-IsSafe 0 s (own s.access ∷ []) (omega arith) (omega arith))
  | inr e ↦ rw (e, request) (answered-IsSafe (fetch 0 s.access) s e)
]

-- After the renewal the request goes on with a retry.
renewed-IsSafe :
    (sent : List Sent) (again : Requested)
    → (count_own sent ≤ 1) × (count_renewals sent ≤ 1)
    → IsSafe 1 0 again
    → IsSafe 2 1 (record again { sent = sent ++ again.sent })
renewed-IsSafe sent again (one, new) h =
    let owns = count_own-++ sent again.sent in
    let news = count_renewals-++ sent again.sent in
    record {
      finished = h.finished;
      short = omega (arith, h.short);
      renewed = omega (arith, h.renewed);
      locked = h.locked;
    }

-- Whatever the server answers, two steps of the recursion are enough for a request to end, with at
-- most two calls of `fetch` of its own and at most one to renew the tokens; and if it ends because
-- the session has expired, neither token is left.
pub request-IsSafe :
    (fuel : ℕ) (jwt : Jwt) (server : Text → Answer RefreshResult) (fetch : ℕ → Option Text → Http)
    (s : Session)
    → 2 ≤ fuel
    → IsSafe 2 1 (request fuel false jwt server fetch s)
unfolding request
request-IsSafe zero jwt server fetch s h = absurd (omega arith)
request-IsSafe (suc zero) jwt server fetch s h = absurd (omega arith)
request-IsSafe (suc (suc fuel)) jwt server fetch s h =
    elim (Bool-cases (is_unauthorized (fetch 0 s.access))) [
      | inr e ↦
          rw (e, request)
            (weaker-IsSafe _ (omega arith) (omega arith) (answered-IsSafe (fetch 0 s.access) s e))
      | inl e ↦
          let sent = first_sent-counts (has_token s) s in
          rw (e, request)
            (elim (Option-cases
              (if has_token s then (refresh_access_token jwt server s).1 else none)) [
                | inl gone ↦ rw gone (
                    weaker-IsSafe _ (omega arith) (omega arith)
                      (expired-IsSafe 1 s (first_sent (has_token s) s) sent.0 sent.1))
                | inr (r, there) ↦ rw there (
                    renewed-IsSafe (first_sent (has_token s) s) _ sent
                      (retry-IsSafe fuel jwt server (λ k. fetch (suc k)) _))
              ])
    ]
