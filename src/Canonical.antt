-- ===== src/Canonical.antt =====
-- permission-sync/src/model/canonical_permission.py: the one intermediate representation.
use fabric_unified_permissio.Base.{ℕ, String, Bool, List, [], ◌∷◌, Eq}
use fabric_unified_permissio.Base.{string_discrete}
use fabric_unified_permissio.Base.Json.{Fields}

abbrev pub data_read : String
data_read = "DATA_READ"

abbrev pub data_write : String
data_write = "DATA_WRITE"

abbrev pub data_admin : String
data_admin = "DATA_ADMIN"

abbrev pub object_use : String
object_use = "OBJECT_USE"

abbrev pub workspace_view : String
workspace_view = "WORKSPACE_VIEW"

abbrev pub workspace_edit : String
workspace_edit = "WORKSPACE_EDIT"

abbrev pub workspace_admin : String
workspace_admin = "WORKSPACE_ADMIN"

abbrev pub access_classes : List String
access_classes =
    data_read ∷ data_write ∷ data_admin ∷ object_use ∷ workspace_view ∷ workspace_edit
    ∷ workspace_admin ∷ []

-- `discovered_at` counts in the clock's own unit.
pub record CanonicalPermission : Type 0 where
  pub principal_entra_id : String
  pub principal_type : String
  pub principal_display_name : String
  pub access_class : String
  pub securable_type : String
  pub securable_fqn : String
  pub workspace_id : String
  pub source_platform : String
  pub source_raw_privilege : String
  pub source_raw_object : Fields
  pub sync_run_id : String
  pub discovered_at : ℕ
  pub is_inherited : Bool

-- The tuple that `key` returns.
pub record Key : Type 0 where
  pub principal : String
  pub access : String
  pub fqn : String
  pub kind : String

pub Key-discrete : Discrete Key
Key-discrete = hlevel string_discrete

instance abbrev pub key_eq : Eq Key
key_eq = record { dec = Key-discrete }

abbrev pub key : CanonicalPermission → Key
key p = record {
  principal = p.principal_entra_id;
  access = p.access_class;
  fqn = p.securable_fqn;
  kind = p.securable_type;
}
