-- ===== src/Base/Dict.antt =====
-- A Python dict as the list of its entries in insertion order: a write to a key that is there
-- keeps its place, any other goes to the end.
use mathlib.Core.Path.{◌≡◌, refl}
use mathlib.Core.Logic.{ite}
use mathlib.Core.Option.{some}
use mathlib.Core.List.{List, [], ◌∷◌, map, lookup}
use native.Mathlib.Omega.{arith}

abbrev pub keys {ℓ} : {K V : Type ℓ} → List (K × V) → List K
keys d = map (λ e. e.0) d

abbrev pub values {ℓ} : {K V : Type ℓ} → List (K × V) → List V
values d = map (λ e. e.1) d

module _ {ℓ} {K V : Type ℓ} (dec : Discrete K) where
  -- `d[k] = v`
  unfoldable pub set_item : K → V → List (K × V) → List (K × V)
  set_item k v [] = (k, v) ∷ []
  set_item k v ((j, w) ∷ d) = ite (dec k j) ((k, v) ∷ d) ((j, w) ∷ set_item k v d)

  -- `for v in vs: d[key(v)] = v`
  unfoldable pub set_items : (V → K) → List V → List (K × V) → List (K × V)
  unfolding set_item
  set_items key [] d = d
  set_items key (v ∷ vs) d = set_items key vs (set_item (key v) v d)

  pub lookup-set_item :
      (k q : K) (v : V) (d : List (K × V))
      → lookup dec q (set_item k v d) ≡ ite (dec q k) (some v) (lookup dec q d)
  unfolding lookup set_item
  lookup-set_item k q v [] = refl
  lookup-set_item k q v ((j, w) ∷ d) = ground (arith, lookup-set_item k q v d)
