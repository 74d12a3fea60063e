-- ===== src/Tests/Web.antt =====
-- The theorems about the apply route at concrete data.
use fabric_unified_permissio.Base.{String, ◌≡◌, refl, true, string_eq, [], ◌∷◌, All, none}
use fabric_unified_permissio.Base.Outcome.{ok}
use fabric_unified_permissio.Base.Dict.{lookup, insert}
use fabric_unified_permissio.Base.Json.{get_field}
use fabric_unified_permissio.Base.Text.{
  starts_with, starts_with, lower, has_char, strip, first, split, join,
}
use fabric_unified_permissio.PairApply.Layers.{plan_fabric_layer, is_dbx_internal_principal}
use fabric_unified_permissio.PairApply.Graph.{find_mirrored_catalog_item, resolve_entra}
use fabric_unified_permissio.PairApply.ToFabric.{apply_to_fabric, apply_onelake_dar}
use fabric_unified_permissio.PairApply.Rows.{apply_rows, apply_row}
use fabric_unified_permissio.Approvals.{decide, create_request, get}
use fabric_unified_permissio.Web.Apply.{
  apply_view, after_compare, after_start, run_rows, after_apply, finish, rows_to_apply, pick,
  by_selection_key, compared, gate_open, live_diff,
}
use fabric_unified_permissio.Web.Apply.Gate.{apply_view-Untouched}
use fabric_unified_permissio.Web.Apply.Replay.{
  reported, one_apply_per_approval, approved_gate_opens, failed_side-Untouched,
}
use fabric_unified_permissio.PairApply.Layers.{is_guid}
use fabric_unified_permissio.PairDiff.Compare.{compare_sides, both_sides}
use fabric_unified_permissio.PairDiff.Compare.Sound.{OnlyDbx, OnlyFabric, compare_sides_sound}
use fabric_unified_permissio.Pairings.{Stored}
use fabric_unified_permissio.PairDiff.{selection_key}
use fabric_unified_permissio.Web.Route.{Form, apply_route}
use fabric_unified_permissio.Web.Route.Laws.{apply_route-Untouched}
use fabric_unified_permissio.Cache.{Store}
use fabric_unified_permissio.Tests.Data.{recorder}
use fabric_unified_permissio.Tests.HubData.{identity, clients, hub}
use fabric_unified_permissio.Web.Apply.{Env}
use fabric_unified_permissio.Base.{some}
use fabric_unified_permissio.Tests.WebData.{row, env, call, live, site, collectors}

apply_view-Untouched_example :
    (apply_view recorder identity clients env (call "a2") live site).1.hub ≡ site.hub
unfolding get string_eq
apply_view-Untouched_example =
    apply_view-Untouched recorder identity clients env (call "a2") live site refl

failed_side-Untouched_example :
    (apply_view recorder identity clients env
      (call "a1")
      (ok (live_diff recorder collectors (call "a1").pairing hub.services))
      site).1.hub
    ≡ site.hub
failed_side-Untouched_example =
    failed_side-Untouched recorder identity clients env collectors (call "a1") site refl

approved_gate_opens_example :
    gate_open
      (call "r2")
      (decide "r2" true "eve" 9
        (apply_view recorder identity clients env (call "a2") live site).1.approvals).1
    ≡ true
unfolding get string_eq
approved_gate_opens_example =
    approved_gate_opens recorder identity clients env (call "a2") (call "r2") live site "eve" 9 refl
      refl refl refl refl

one_apply_run : reported (apply_view recorder identity clients env (call "a1") live site).0 ≡ true
unfolding apply_view after_compare after_start run_rows after_apply finish rows_to_apply pick
    by_selection_key compared get create_request string_eq join insert lookup lower strip first
    get_field starts_with has_char split apply_rows apply_row apply_to_fabric plan_fabric_layer
    apply_onelake_dar find_mirrored_catalog_item is_dbx_internal_principal resolve_entra is_guid
one_apply_run = refl

one_apply_per_approval_example :
    (apply_view recorder identity clients env
      (call "a1")
      live
      (apply_view recorder identity clients env (call "a1") live site).1).1.hub
    ≡ (apply_view recorder identity clients env (call "a1") live site).1.hub
one_apply_per_approval_example =
    one_apply_per_approval recorder identity clients env (call "a1") (call "a1") live live site refl
      refl one_apply_run refl

compare_sides_sound_example :
    let b = compare_sides (λ p. none) (ok (row ∷ [])) (ok []) in
    All (OnlyDbx (both_sides (λ p. none) (ok (row ∷ [])) (ok []))) b.dbx_only
    × All (OnlyFabric (both_sides (λ p. none) (ok (row ∷ [])) (ok []))) b.fabric_only
compare_sides_sound_example = compare_sides_sound (λ p. none) (ok (row ∷ [])) (ok [])

abbrev form : Form
form = record {
  pairing_id = "00aa11bb22";
  direction = "dbx_to_fabric";
  dry_run = "False?";
  row = selection_key row ∷ [];
  approval_id = "a1";
  client_host = "";
}

abbrev stored : Stored
stored = record {
  id = "00aa11bb22";
  label = "main";
  dbx_workspace_url = "https://dbx";
  uc_catalog = "main";
  fabric_workspace_id = "w1";
  notes = "";
}

apply_route-Untouched_example :
    (apply_route recorder identity clients collectors env (λ l. l) form (stored ∷ []) site).1.hub
    ≡ site.hub
unfolding strip lower string_eq
apply_route-Untouched_example =
    apply_route-Untouched recorder identity clients collectors env (λ l. l) form (stored ∷ []) site
      refl

abbrev comparisons : Store String
comparisons = ("diff::a", (9, "old")) ∷ ("fabric_ws::b", (9, "kept")) ∷ []

-- The database is locked when the approval is to be marked.
abbrev locked_env : Env
locked_env = record env { mark_failure = some "database is locked" }
