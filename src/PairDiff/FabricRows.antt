-- ===== src/PairDiff/FabricRows.antt =====
-- `collect_fabric_rows` of app/services/pair_diff.py: the role assignments of the workspace and the data
-- access roles of the mirrored catalog item.
pub mod Pairing
use fabric_unified_permissio.Base.{
  String, ◌<>◌, Bool, ◌&&◌, List, [], ◌∷◌, ◌++◌, Option, none, some, map, keep, ◌==◌, string_eq,
  if◌then◌else◌,
}
use fabric_unified_permissio.Base.Dict.{Dict, lookup, values}
use fabric_unified_permissio.Base.Http.{Services}
use fabric_unified_permissio.Base.Json.{Json, get, text_of, elements, or_else}
use fabric_unified_permissio.Base.Outcome.{Outcome, ok, raised, ◌>>=◌}
use fabric_unified_permissio.Base.Text.{is_empty, lower}
use fabric_unified_permissio.FabricRest.{
  list_items, list_role_assignments, list_data_access_policies,
}
use fabric_unified_permissio.FineGrained.Scope.{Hashing}
use fabric_unified_permissio.PairDiff.{DiffRow, Rows, Principal, record_fabric, record_assignments}
use fabric_unified_permissio.PairDiff.Constraints.{scopes_from_dar_paths, record_fabric_constraints}

abbrev pub dar_action_to_access : Dict String String
dar_action_to_access =
    ("Read", "DATA_READ")
    ∷ ("ReadAll", "DATA_READ")
    ∷ ("Write", "DATA_WRITE")
    ∷ ("Reshare", "DATA_ADMIN")
    ∷ ("Execute", "OBJECT_USE")
    ∷ ("Explore", "OBJECT_USE")
    ∷ ("Microsoft.Fabric/OneLake/Read", "DATA_READ")
    ∷ ("Microsoft.Fabric/OneLake/Write", "DATA_WRITE")
    ∷ []

-- `_mirrored_item_for`, on the items that the workspace lists.
unfoldable pub mirrored_item_for : List Json → String → Option Json
mirrored_item_for [] catalog = none
mirrored_item_for (it ∷ items) catalog =
    let rest = mirrored_item_for items catalog in
    if text_of (get it "type") == "MirroredAzureDatabricksCatalog"
      && lower (text_of (get it "displayName")) == lower catalog
    then some it
    else rest

-- `_dar_members`
abbrev pub members_of : Json → List Json
members_of dar =
    let members = get dar "members" in
    elements (
      or_else (get members "microsoftEntraMembers")
        (or_else (get members "entraMembers") (get members "microsoftEntraUsers")))

-- `values.extend(...)` for the attributes of one container.
abbrev values_in : String → List Json → List String
values_in name [] = []
values_in name (a ∷ attrs) =
    let rest = values_in name attrs in
    if text_of (get a "attributeName") == name
    then map text_of (elements (get a "attributeValueIncludedIn")) ++ rest
    else rest

-- `_dar_rule_values`
abbrev pub rule_values : Json → String → List String
rule_values rule name =
    values_in name (elements (get rule "permission"))
    ++ values_in name (elements (get rule "attributes"))

abbrev or_user : String → String
or_user kind = if is_empty kind then "User" else kind

abbrev member_principal : Json → Principal
member_principal m = record {
  key = lower (text_of (get m "objectId"));
  display = text_of (get m "objectId");
  kind = or_user (text_of (get m "objectType"));
}

-- `for sc in scopes`
unfoldable pub record_on_scopes : Principal → String → String → List String → Rows → Rows
record_on_scopes p action access [] rows = rows
record_on_scopes p action access (sc ∷ scopes) rows =
    record_on_scopes p action access scopes (record_fabric rows p sc action access)

-- `for m in members`
unfoldable pub record_members : String → String → List String → List Json → Rows → Rows
unfolding record_on_scopes
record_members action access scopes [] rows = rows
record_members action access scopes (m ∷ members) rows =
    record_members action access scopes members (
      if is_empty (lower (text_of (get m "objectId")))
      then rows
      else record_on_scopes (member_principal m) action access scopes rows)

abbrev record_action : String → Option String → List String → List Json → Rows → Rows
record_action action none scopes members rows = rows
record_action action (some access) scopes members rows =
    record_members action access scopes members rows

-- `for action in _dar_rule_values(rule, "Action")`
unfoldable pub record_rule_actions : List String → List String → List Json → Rows → Rows
unfolding record_members
record_rule_actions [] scopes members rows = rows
record_rule_actions (action ∷ actions) scopes members rows =
    record_rule_actions actions scopes members
      (record_action action (lookup action dar_action_to_access) scopes members rows)

module _ (H : Hashing) (uc_catalog : String) where
  -- `for rule in dar.get("decisionRules") or []`
  unfoldable pub record_rules : List Json → List Json → Rows → Rows
  unfolding record_rule_actions
  record_rules members [] rows = rows
  record_rules members (rule ∷ rules) rows = record_rules members rules (
      record_rule_actions (rule_values rule "Action")
        (scopes_from_dar_paths uc_catalog (rule_values rule "Path")) members
        (record_fabric_constraints H uc_catalog members rule rows))

  -- `for dar in dars or []`
  unfoldable pub record_dars : List Json → Rows → Rows
  unfolding record_rules
  record_dars [] rows = rows
  record_dars (dar ∷ dars) rows =
      record_dars dars (record_rules (members_of dar) (elements (get dar "decisionRules")) rows)

module _ (S : Services) (H : Hashing) (workspace_id uc_catalog : String) (s : S.State) where
  abbrev auth_failed : Outcome (List Json) → Outcome (List Json)
  auth_failed (ok assignments) = ok assignments
  auth_failed (raised e) = raised (
      "Fabric auth failed – ensure your managed identity / az login has Fabric API access. "
      <> "Underlying error: " <> e)

  -- The roles of the mirrored item, if there is one with an id.
  of_item : Option Json → Rows → Outcome Rows
  unfolding record_dars
  of_item none rows = ok rows
  of_item (some item) rows = if is_empty (text_of (get item "id")) then ok rows else (do
    dars ← list_data_access_policies S s workspace_id (text_of (get item "id"))
    ok (record_dars H uc_catalog dars rows))

  of_mirror : Rows → Outcome Rows
  unfolding of_item mirrored_item_for
  of_mirror rows = if is_empty uc_catalog then ok rows else (do
    items ← list_items S s workspace_id
    of_item (mirrored_item_for items uc_catalog) rows)

  unfoldable pub collect_fabric_rows : Outcome (List DiffRow)
  unfolding of_mirror
  collect_fabric_rows = do
    assignments ← auth_failed (list_role_assignments S s workspace_id)
    rows ← of_mirror (record_assignments [] workspace_id uc_catalog assignments)
    ok (values rows)
