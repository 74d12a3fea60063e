-- ===== src/OneSync.antt =====
-- permission-sync/src/onesync: the client of the OneSync service and what it is asked to sync.
use fabric_unified_permissio.Base.{ℕ, String, ◌<>◌, Bool, not, ◌&&◌, ◌||◌, none, some}
use fabric_unified_permissio.Base.{
  List, [], ◌∷◌, ◌++◌, leb, ◌==◌, string_eq, if◌then◌else◌, keep, map,
}
use fabric_unified_permissio.Base.Json.{
  Json, bool, num, str, arr, obj, Fields, end, field, get_field,
}
use fabric_unified_permissio.Base.Json.{elements, text_of, text?, array_of, get}
use fabric_unified_permissio.Base.Outcome.{Outcome, ok, raised, ◌>>=◌}
use fabric_unified_permissio.Base.Http.{Services, post, Response, reply, failed}
use fabric_unified_permissio.Base.Text.{rstrip_slash, is_empty}

pub record CatalogDescriptor : Type 0 where
  pub id : String
  pub name : String
  pub platform : String

pub record SyncResult : Type 0 where
  pub source_catalog_id : String
  pub target_catalog_ids : List String
  pub applied : ℕ
  pub skipped : ℕ
  pub errors : List Json

pub record OneSyncClient : Type 0 where
  pub endpoint : String
  pub api_key : String

abbrev pub enabled : OneSyncClient → Bool
enabled c = not (is_empty c.endpoint) && not (is_empty c.api_key)

-- `r.raise_for_status()`, which lets 2xx pass, and `r.json()`.
abbrev pub ok_body : Response → Outcome Json
ok_body (reply status text body) = if leb 200 status && leb status 299 then ok body else raised text
ok_body (failed e) = raised e

-- `cfg[key]`
abbrev pub required : String → Fields → Outcome String
required k fs = elim (text? (get_field k fs)) [ none ↦ raised k | some s ↦ ok s ]

-- `[CatalogDescriptor(id=c["id"], ...) for c in ...]`: one entry with no id fails the list.
pub descriptors : List Json → Outcome (List CatalogDescriptor)
descriptors [] = ok []
descriptors (c ∷ cs) =
    let rest = descriptors cs in
    elim (text? (get c "id")) [
      | none ↦ raised "id"
      | some id ↦ (do
        more ← rest
        ok (
            record { id = id; name = text_of (get c "name"); platform = text_of (get c "platform") }
            ∷ more))
    ]

abbrev pub or_empty {ℓ} : {A : Type ℓ} → Outcome (List A) → List A
or_empty (ok xs) = xs
or_empty (raised e) = []

-- `int(body.get(key, 0))`
abbrev pub int_of : Json → ℕ
int_of (num n) = n
int_of _ = 0

abbrev failure : String → List String → String → String → SyncResult
failure src tgts key why = record {
  source_catalog_id = src;
  target_catalog_ids = tgts;
  applied = 0;
  skipped = 0;
  errors = obj (field key (str why) end) ∷ [];
}

abbrev sync_result : String → List String → Outcome Json → SyncResult
sync_result src tgts (raised e) = failure src tgts "exception" e
sync_result src tgts (ok body) = record {
  source_catalog_id = src;
  target_catalog_ids = tgts;
  applied = int_of (get body "applied");
  skipped = int_of (get body "skipped");
  errors = elements (get body "errors");
}

-- The ids of some catalogs.
abbrev pub ids : List CatalogDescriptor → List String
ids = map (λ c. c.id)

abbrev pub is_fabric : CatalogDescriptor → Bool
is_fabric c = c.platform == "fabric"

module _ (S : Services) where
  -- `OneSyncClient(identity, config)`: a missing key or secret leaves both empty, or the key alone.
  pub onesync_client : Fields → S.State → OneSyncClient
  onesync_client cfg s = elim (do name ← required "api_endpoint_secret" cfg; S.secret name s) [
    | raised e ↦ record { endpoint = ""; api_key = "" }
    | ok endpoint ↦ elim (do name ← required "api_key_secret" cfg; S.secret name s) [
      | raised e ↦ record { endpoint = endpoint; api_key = "" }
      | ok api_key ↦ record { endpoint = endpoint; api_key = api_key }
    ]
  ]

  pub discover_catalogs : OneSyncClient → S.State → List CatalogDescriptor
  discover_catalogs c s =
      if not (enabled c)
      then []
      else or_empty (do
        body ← ok_body (S.fetch (rstrip_slash c.endpoint <> "/catalogs") end s)
        descriptors (elements (get body "value")))

  pub sync_permissions :
      OneSyncClient → String → List String → Bool → S.State → SyncResult × S.State
  sync_permissions c src tgts dry_run s =
      let payload = field "source_catalog_id" (str src) (
        field "target_catalog_ids" (arr (array_of (map str tgts)))
          (field "dry_run" (bool dry_run) end)) in
      let (r, t) =
        S.send
          (record { method = post; url = rstrip_slash c.endpoint <> "/sync"; body = obj payload })
          s in
      if not (enabled c)
      then (failure src tgts "reason" "onesync not configured", s)
      else (sync_result src tgts (ok_body r), t)

  -- `for src in sources: sync(src, targets)`, with the results so far.
  pub sync_each :
      OneSyncClient
      → Bool
      → List CatalogDescriptor
      → List CatalogDescriptor
      → List SyncResult
      → S.State
      → List SyncResult × S.State
  sync_each c dry_run [] tgts results s = (results, s)
  sync_each c dry_run (src ∷ srcs) [] results s = sync_each c dry_run srcs [] results s
  sync_each c dry_run (src ∷ srcs) (t ∷ ts) results s =
      let (r, s') = sync_permissions c src.id (ids (t ∷ ts)) dry_run s in
      sync_each c dry_run srcs (t ∷ ts) (results ++ (r ∷ [])) s'

  sync_if :
      Bool
      → OneSyncClient
      → Bool
      → List CatalogDescriptor
      → List CatalogDescriptor
      → List SyncResult × S.State
      → List SyncResult × S.State
  sync_if go c dry_run srcs tgts (results, s) =
      let done = sync_each c dry_run srcs tgts results s in if go then done else (results, s)

  -- `OneSyncOrchestrator.run`
  pub run_onesync : OneSyncClient → Bool → String → S.State → List SyncResult × S.State
  unfolding sync_if
  run_onesync c dry_run direction s =
      let catalogs = discover_catalogs c s in
      let fabric = keep is_fabric catalogs in
      let others = keep (λ x. not (is_fabric x)) catalogs in
      sync_if (direction == "fabric_to_source" || direction == "bidirectional") c dry_run fabric
        others
        (sync_if (direction == "source_to_fabric" || direction == "bidirectional") c dry_run others
          fabric ([], s))
