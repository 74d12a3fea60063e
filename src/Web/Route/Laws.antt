-- ===== src/Web/Route/Laws.antt =====
-- Which posted forms can change anything (app/routers/pairings.py, app/validation.py).
use fabric_unified_permissio.Base.{
  String, Bool, true, false, ◌≡◌, refl, List, [], ◌∷◌, Option, none, some, ◌==◌, string_eq, arith,
  contains,
}
use fabric_unified_permissio.Base.Http.{Services}
use fabric_unified_permissio.Base.Outcome.{Outcome, ok, raised, Ensures, Ensures-bind, Ensures-last}
use fabric_unified_permissio.Base.Text.{strip, lower}
use fabric_unified_permissio.PairApply.Clients.{Clients}
use fabric_unified_permissio.PairApply.DataRoles.Write.{Identity}
use fabric_unified_permissio.Pairings.{Stored, get_pairing, pairing_of}
use fabric_unified_permissio.Web.Apply.{Env, Site, Collectors, live_diff}
use fabric_unified_permissio.Web.Apply.Gate.{apply_view-Untouched}
use fabric_unified_permissio.Web.Route.{
  Form, Valid, validated, call_of, with_pairing, with_valid, apply_route,
}
use fabric_unified_permissio.Web.Validation.{require_pairing_id, require_choice, accept}

accepted :
    (b : Bool) (v detail : String)
    → (b ≡ true → (v == "true") ≡ true)
    → Ensures (λ s. (s == "true") ≡ true) (accept b v detail)
accepted true v detail h = h refl
accepted false v detail h = tt

abbrev pub IsDry : Valid → Type 0
IsDry v = (v.dry_run == "true") ≡ true

dry_choice :
    (value : String)
    → (strip value == "false") ≡ false
    → Ensures (λ s. (s == "true") ≡ true) (require_choice value ("true" ∷ "false" ∷ []) "dry_run")
unfolding require_choice
dry_choice value h =
    accepted (contains ("true" ∷ "false" ∷ []) (strip value)) (strip value) _ (λ k. ground arith)

validated-IsDry :
    (f : Form) → (strip (lower f.dry_run) == "false") ≡ false → Ensures IsDry (validated f)
unfolding validated
validated-IsDry f h = Ensures-last IsDry (require_pairing_id f.pairing_id) _ (λ id.
    Ensures-last IsDry
      (require_choice f.direction ("dbx_to_fabric" ∷ "fabric_to_dbx" ∷ []) "direction") _
      (λ direction.
        Ensures-bind (λ s. (s == "true") ≡ true) IsDry
          (require_choice (lower f.dry_run) ("true" ∷ "false" ∷ []) "dry_run") _
          (dry_choice (lower f.dry_run) h) (λ dry_run hd. hd)))

module _ (S : Services) (i : Identity) (C : Clients S) (K : Collectors S) (e : Env)
    (walk : List String → List String) (f : Form) where
  pairing-Untouched :
      (v : Valid) (o : Option Stored) (t : Site S)
      → IsDry v
      → (with_pairing S i C K e walk f v o t).1.hub ≡ t.hub
  unfolding with_pairing
  pairing-Untouched v none t h = refl
  pairing-Untouched v (some p) t h =
      apply_view-Untouched S i C e (call_of walk f v p)
        (ok (live_diff S K (pairing_of p) t.hub.services)) t (rw h refl)

  valid-Untouched :
      (pairings : List Stored) (o : Outcome Valid) (t : Site S)
      → Ensures IsDry o
      → (with_valid S i C K e walk f pairings o t).1.hub ≡ t.hub
  unfolding with_valid
  valid-Untouched pairings (raised d) t h = refl
  valid-Untouched pairings (ok v) t h = pairing-Untouched v (get_pairing v.pairing_id pairings) t h

  -- A form changes neither the services nor the identity queue unless its field dry_run says false,
  -- but for case and blanks around it: every other text is refused or runs dry.
  pub apply_route-Untouched :
      (pairings : List Stored) (t : Site S)
      → (strip (lower f.dry_run) == "false") ≡ false
      → (apply_route S i C K e walk f pairings t).1.hub ≡ t.hub
  unfolding apply_route
  apply_route-Untouched pairings t h =
      valid-Untouched pairings (validated f) t (validated-IsDry f h)
