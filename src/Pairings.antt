-- ===== src/Pairings.antt =====
-- app/services/pairings.py: the table of pairings in the order in which they were added. The
-- identifier drawn is an argument.
use fabric_unified_permissio.Base.{String, ◌<>◌, Bool, List, [], ◌∷◌, ◌++◌, Option, none, some}
use fabric_unified_permissio.Base.{◌==◌, string_eq, if◌then◌else◌, any_of, keep, not}
use fabric_unified_permissio.Base.Text.{is_empty, strip, rstrip_slash, first}
use fabric_unified_permissio.PairApply.Clients.{Pairing}

pub record Stored : Type 0 where
  pub id : String
  pub label : String
  pub dbx_workspace_url : String
  pub uc_catalog : String
  pub fabric_workspace_id : String
  pub notes : String

abbrev pub pairing_of : Stored → Pairing
pairing_of p = record {
  id = some p.id;
  label = p.label;
  dbx_workspace_url = p.dbx_workspace_url;
  uc_catalog = p.uc_catalog;
  fabric_workspace_id = p.fabric_workspace_id;
}

unfoldable pub get_pairing : String → List Stored → Option Stored
get_pairing id [] = none
get_pairing id (p ∷ ps) = let rest = get_pairing id ps in if p.id == id then some p else rest

-- What `add_pairing` is called with.
pub record Added : Type 0 where
  pub label : String
  pub dbx_workspace_url : String
  pub uc_catalog : String
  pub fabric_workspace_id : String
  pub notes : String

abbrev label_of : Added → String
label_of a =
    if is_empty (strip a.label)
    then a.uc_catalog <> " → " <> first 8 a.fabric_workspace_id
    else strip a.label

abbrev entry_of : String → Added → Stored
entry_of id a = record {
  id = id;
  label = label_of a;
  dbx_workspace_url = rstrip_slash a.dbx_workspace_url;
  uc_catalog = strip a.uc_catalog;
  fabric_workspace_id = strip a.fabric_workspace_id;
  notes = strip a.notes;
}

pub add_pairing : String → Added → List Stored → Stored × List Stored
add_pairing id a table = (entry_of id a, table ++ (entry_of id a ∷ []))

-- `cur.rowcount > 0`, and the table.
pub delete_pairing : String → List Stored → Bool × List Stored
delete_pairing id table = (any_of (λ p. p.id == id) table, keep (λ p. not (p.id == id)) table)

abbrev only_one : List Stored → String
only_one (p ∷ []) = p.dbx_workspace_url
only_one _ = ""

abbrev fallback : String → List Stored → String
fallback setting table = if is_empty setting then only_one table else setting

abbrev url_of : Option Stored → String → List Stored → String
url_of (some p) setting table = p.dbx_workspace_url
url_of none setting table = fallback setting table

-- `setting` is DBX_WORKSPACE_URL.
pub resolve_dbx_url : Option String → String → List Stored → String
unfolding get_pairing
resolve_dbx_url none setting table = fallback setting table
resolve_dbx_url (some id) setting table =
    url_of (if is_empty id then none else get_pairing id table) setting table
