-- ===== src/Features/Granted.antt =====
-- What the cache of features shows, and the answers of the server.
use mathlib.Core.Option.{some-injective}
use blend_posv.Prelude.{
  ◌≡◌, refl, sym, ap, ◌∙◌, subst, inl, inr, Bool, true, false, not, ◌&&◌, ◌||◌, Option, none, some,
  List, [], ◌∷◌, In, is_some, or_else, Bool-cases, Option-cases, if_intro, if◌then◌else◌,
}
use blend_posv.Text.{Text, text_eq, text_eq_iff, has_text}
use blend_posv.Dict.{Dict, lookup}
use blend_posv.Features.{
  Cache, empty_cache, is_for, ensure_features, answered, invalidate_feature_cache, snapshot,
}

-- The runs of the cache, in any order of calls and ends of requests, with the answers so far.
pub data Run : List (Text × Dict Bool) → Cache → Type 0 where
  start : Run [] empty_cache
  asks :
      {h : List (Text × Dict Bool)} {c : Cache}
      → Run h c
      → (id : Option Text) → Run h (ensure_features id c).0
  gets :
      {h : List (Text × Dict Bool)} {c : Cache}
      → Run h c
      → (id : Text) (features : Option (Dict Bool))
      → Run ((id, or_else features []) ∷ h) (answered id features c)
  clears : {h : List (Text × Dict Bool)} {c : Cache} → Run h c → Run h (invalidate_feature_cache c)

-- What the cache holds is an answer for the tenant that it is kept for.
pub record IsSourced (h : List (Text × Dict Bool)) (c : Cache) : Type 0 where
  pub source :
      (fs : Dict Bool) → c.features ≡ some fs → (id : Text) × (c.tenant ≡ some id) × In (id, fs) h

ensure_features-IsSourced :
    (h : List (Text × Dict Bool)) (id : Option Text) (c : Cache)
    → IsSourced h c
    → IsSourced h (ensure_features id c).0
unfolding ensure_features
ensure_features-IsSourced h none c s = s
ensure_features-IsSourced h (some id) c s =
    let Sourced = λ (r : Cache × Bool). IsSourced h r.0 in
    if_intro Sourced (not (has_text (some id))) (c, false) _ s
      (if_intro Sourced (is_some c.features && is_for id c) (c, false) _ s
        (if_intro Sourced (c.pending && is_for id c) (c, false) _ s asked))
  where
    same : is_for id c ≡ true → c.tenant ≡ some id
    same e = elim (Option-cases c.tenant) [
      | inl t ↦ cc (rw t at e)
      | inr (k, t) ↦ t ∙ ap some ((text_eq_iff k id).0 (rw t at e))
    ]

    asked : IsSourced h (record c {
      features = if is_for id c then c.features else none;
      tenant = some id;
      pending = true;
    })
    asked = elim (Bool-cases (is_for id c)) [
      | inl e ↦
          rw e
            (record { source = λ fs f. let (k, t, m) = s.source fs f in (k, sym (same e) ∙ t, m) })
      | inr e ↦ rw e (record { source = λ fs f. cc })
    ]

Run-IsSourced : {h : List (Text × Dict Bool)} {c : Cache} → Run h c → IsSourced h c
unfolding answered invalidate_feature_cache
Run-IsSourced start = record { source = λ fs f. cc }
Run-IsSourced (asks {h = h} {c = c} r id) = ensure_features-IsSourced h id c (Run-IsSourced r)
Run-IsSourced (gets {h = h} r id features) = record {
  source = λ fs f. (id, refl, inl (ap (λ (x : Dict Bool). (id, x)) (sym (some-injective _ _ f))));
}
Run-IsSourced (clears r) = record { source = λ fs f. cc }

-- However calls and answers follow each other, tenants change and the cache is cleared, a feature
-- that is shown as enabled to a tenant is in an answer that the server gave for that tenant.
pub Run-enabled :
    {h : List (Text × Dict Bool)} {c : Cache} (feature id : Text) (authenticated : Bool)
    → Run h c
    → (snapshot feature authenticated (some id) c).enabled ≡ true
    → (fs : Dict Bool) × In (id, fs) h × (or_else (lookup feature fs) false ≡ true)
unfolding snapshot
Run-enabled {h = h} {c = c} feature id authenticated r e =
    elim (Bool-cases (not authenticated || not (has_text (some id)))) [
      | inl off ↦ cc (rw off at e)
      | inr on ↦ elim (Bool-cases (is_some c.features && is_for id c)) [
        | inr other ↦ cc (rw (on, other) at e)
        | inl mine ↦ elim (Option-cases c.features) [
          | inl gone ↦ cc (rw gone at mine)
          | inr (fs, found) ↦
              let (k, t, m) = (Run-IsSourced r).source fs found in
              let is : text_eq k id ≡ true = rw (found, t) at mine in
              (
                fs,
                subst (λ (x : Text). In (x, fs) h) ((text_eq_iff k id).0 is) m,
                rw (on, mine, found) at e,
              )
        ]
      ]
    ]
