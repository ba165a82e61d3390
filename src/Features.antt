-- ===== src/Features.antt =====
-- frontend/src/hooks/useFeature.ts: the cache of the features of a tenant's plan, which all uses of
-- the hook share. A request ends later, in a step of its own.
pub mod Granted
mod Tests
use blend_posv.Prelude.{
  ℕ, ◌+◌, Bool, true, false, not, ◌&&◌, ◌||◌, Option, none, some, List, [], ◌∷◌, is_some, or_else,
  if◌then◌else◌,
}
use blend_posv.Text.{Text, text_eq, has_text}
use blend_posv.Dict.{Dict, lookup}

-- `pending` says that there is a `fetchPromise`.
pub record Cache : Type 0 where
  pub features : Option (Dict Bool)
  pub tenant : Option Text
  pub pending : Bool
  pub revision : ℕ

pub record Snapshot : Type 0 where
  pub enabled : Bool
  pub loading : Bool

abbrev pub empty_cache : Cache
empty_cache = record { features = none; tenant = none; pending = false; revision = 0 }

-- `cachedForTenant === tenantId`
abbrev pub is_for : Text → Cache → Bool
is_for id c = elim c.tenant [ none ↦ false | some t ↦ text_eq t id ]

-- `notify`
abbrev pub notify : Cache → Cache
notify c = record c { revision = c.revision + 1 }

-- The cache after the call, and whether a request was sent.
unfoldable pub ensure_features : Option Text → Cache → Cache × Bool
ensure_features none c = (c, false)
ensure_features (some id) c =
    if not (has_text (some id))
    then (c, false)
    else if is_some c.features && is_for id c
    then (c, false)
    else if c.pending && is_for id c
    then (c, false)
    else (
      record c {
        features = if is_for id c then c.features else none;
        tenant = some id;
        pending = true;
      },
      true,
    )

-- The end of a request for a tenant: the features of the answer, `none` where it has none or the
-- request failed.
unfoldable pub answered : Text → Option (Dict Bool) → Cache → Cache
answered id features c =
    notify (record c { features = some (or_else features []); tenant = some id; pending = false })

unfoldable pub invalidate_feature_cache : Cache → Cache
invalidate_feature_cache c = notify (record c { features = none; tenant = none; pending = false })

-- What `useFeature` shows.
unfoldable pub snapshot : Text → Bool → Option Text → Cache → Snapshot
snapshot feature authenticated none c = record { enabled = false; loading = false }
snapshot feature authenticated (some id) c =
    if not authenticated || not (has_text (some id))
    then record { enabled = false; loading = false }
    else if is_some c.features && is_for id c
    then record {
      enabled = or_else (lookup feature (or_else c.features [])) false;
      loading = false;
    }
    else record { enabled = false; loading = true }
