-- ===== src/Api/Auth.antt =====
-- app/api/auth.py. The environment is the list of its variables; `secrets.compare_digest` on two
-- encoded texts says whether they are equal.
use stack_migrate.Base.{
  Bool, true, false, List, Option, none, some, ◌∷◌, Text, codes, lookup, text_discrete, ite,
}

-- What `load_api_key` returns, or its RuntimeError.
pub data LoadedKey : Type 0 where
  loaded : Option Text → LoadedKey
  not_configured : LoadedKey

abbrev pub is_opted_out : Option Text → Bool
is_opted_out none = false
is_opted_out (some v) = ite (text_discrete v (codes "1")) true false

abbrev pub without_key : Bool → LoadedKey
without_key true = loaded none
without_key false = not_configured

-- An empty key is no key.
abbrev pub with_key : Option Text → Bool → LoadedKey
with_key (some (c ∷ key)) opted_out = loaded (some (c ∷ key))
with_key _ opted_out = without_key opted_out

unfoldable pub load_api_key : List (Text × Text) → LoadedKey
load_api_key environ =
    with_key (lookup text_discrete (codes "STACKMIGRATE_API_KEY") environ)
      (is_opted_out (lookup text_discrete (codes "STACKMIGRATE_ALLOW_NO_AUTH") environ))

-- `require_api_key`: whether the request passes, for the app's key and the header of the request.
unfoldable pub require_api_key : Option Text → Option Text → Bool
require_api_key none header = true
require_api_key (some key) none = false
require_api_key (some key) (some header) = ite (text_discrete header key) true false
