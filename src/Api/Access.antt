-- ===== src/Api/Access.antt =====
-- Who may reach a run, and which runs a request touches.
use stack_migrate.Base.{
  ◌≡◌, ◌≢◌, refl, sym, ap, ◌∙◌, Bool, true, false, List, [], ◌∷◌, Option, none, some, Text, codes,
  lookup, text_discrete, lookup-set_item, if_neg, if◌then◌else◌,
}
use stack_migrate.Graph.Build.Machine.{Env, Machine}
use stack_migrate.Api.{Answer}
use stack_migrate.Api.Auth.{loaded, load_api_key, require_api_key, with_key, is_opted_out}
use stack_migrate.Api.Routes.{
  Request, healthz, submit_migration, get_status, approve_migration, reject_migration, unauthorized,
  App, find_run, store_run, route, is_open, handle,
}

loaded_key :
    (o : Option Text) (opted_out : Bool) (key : Option Text)
    → with_key o opted_out ≡ loaded key
    → opted_out ≡ false
    → (k : Text) × (key ≡ some k) × (k ≢ [])
loaded_key none opted_out key e h = absurd (cc (e, h))
loaded_key (some []) opted_out key e h = absurd (cc (e, h))
loaded_key (some (c ∷ k)) opted_out key e h = (c ∷ k, cc e, λ n. cc n)

opted_out_of : (o : Option Text) → o ≢ some (codes "1") → is_opted_out o ≡ false
opted_out_of none h = refl
opted_out_of (some v) h = if_neg (text_discrete v (codes "1")) (λ e. h (ap some e)) _ _

refused :
    (k : Text) (header : Option Text) → header ≢ some k → require_api_key (some k) header ≡ false
unfolding require_api_key
refused k none h = refl
refused k (some header) h = if_neg (text_discrete header k) (λ e. h (ap some e)) _ _

-- The run that a request may change.
abbrev pub touched : Request → Option Text
touched (approve_migration run_id feedback) = some run_id
touched (reject_migration run_id feedback) = some run_id
touched _ = none

module _ (env : Text → Env) (fresh_id : Text) where
  -- Where the environment does not set `STACKMIGRATE_ALLOW_NO_AUTH` to `1` and a key is loaded from it,
  -- every request but `healthz` that does not carry this key is answered with 401 and changes nothing;
  -- and the key is not empty.
  pub startup_fails_closed :
      (environ : List (Text × Text)) (key header : Option Text) (request : Request) (app : App)
      → load_api_key environ ≡ loaded key
      → lookup text_discrete (codes "STACKMIGRATE_ALLOW_NO_AUTH") environ ≢ some (codes "1")
      → is_open env fresh_id request ≡ false
      → header ≢ key
      → (handle env fresh_id key header request app ≡ (unauthorized, app))
        × ((k : Text) × (key ≡ some k) × (k ≢ []))
  unfolding load_api_key handle
  startup_fails_closed environ key header request app e opted closed other =
      let (k, is_k, filled) = loaded_key _ _ key e (opted_out_of _ opted) in
      (rw (closed, is_k, refused k header (λ h. other (h ∙ sym is_k))) refl, (k, is_k, filled))

  find-store_run :
      (q run_id : Text) (r : Answer × Option Machine) (app : App)
      → some run_id ≢ some q
      → find_run q (store_run run_id r app).1 ≡ find_run q app
  find-store_run q run_id (answer, none) app h = refl
  find-store_run q run_id (answer, some m) app h =
      lookup-set_item text_discrete run_id q m app.runs
      ∙ if_neg (text_discrete q run_id) (λ e. h (ap some (sym e))) _ _

  route-find :
      (q : Text) (request : Request) (app : App)
      → touched request ≢ some q
      → find_run q (route env fresh_id request app).1 ≡ find_run q app
  unfolding route
  route-find q healthz app h = refl
  route-find q (submit_migration payload) app h = refl
  route-find q (get_status run_id) app h = refl
  route-find q (approve_migration run_id feedback) app h = find-store_run q run_id _ app h
  route-find q (reject_migration run_id feedback) app h = find-store_run q run_id _ app h

  -- A request leaves every run as it is but the one that it decides; and a request that carries no
  -- decision leaves all.
  pub handle-find :
      (key header : Option Text) (request : Request) (app : App) (q : Text)
      → touched request ≢ some q
      → find_run q (handle env fresh_id key header request app).1 ≡ find_run q app
  unfolding handle
  handle-find key header request app q h =
      either (is_open env fresh_id request) (require_api_key key header)
    where
      either :
          (a b : Bool)
          → find_run q
              (if a
                then route env fresh_id request app
                else if b
                then route env fresh_id request app
                else (unauthorized, app)).1
            ≡ find_run q app
      either true b = route-find q request app h
      either false true = route-find q request app h
      either false false = refl
