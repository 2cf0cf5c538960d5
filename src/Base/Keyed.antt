-- ===== src/Base/Keyed.antt =====
-- Lists of values that carry their own key: what a dict built by `for v in vs: d[v.key] = v` holds.
use mathlib.Core.Path.{◌≡◌, refl, sym, ap, ◌∙◌}
use mathlib.Core.Logic.{◌≢◌, ◌⊎◌, inl, inr, ite, if_pos, if_neg}
use mathlib.Core.Option.{Option, none, some}
use mathlib.Core.List.{List, [], ◌∷◌, ◌++◌, map, lookup, Memᴰ, append-nil, append_assoc}
use native.Mathlib.Omega.{arith}
use stack_migrate.Base.Lists.{All, All-mem, Distinct}
use stack_migrate.Base.Dict.{values, set_item, set_items, lookup-set_item}

module _ {ℓ} {K V : Type ℓ} (dec : Discrete K) (key : V → K) where
  -- Replaces the value of the same key, or adds one at the end.
  unfoldable pub put : V → List V → List V
  put v [] = v ∷ []
  put v (w ∷ ws) = ite (dec (key v) (key w)) (v ∷ ws) (w ∷ put v ws)

  unfoldable pub puts : List V → List V → List V
  unfolding put
  puts [] ws = ws
  puts (v ∷ vs) ws = puts vs (put v ws)

  unfoldable pub find : K → List V → Option V
  find k [] = none
  find k (w ∷ ws) = ite (dec k (key w)) (some w) (find k ws)

  -- The last value of a key, or the one given.
  unfoldable pub last_or : Option V → K → List V → Option V
  last_or o k [] = o
  last_or o k (v ∷ vs) = last_or (ite (dec k (key v)) (some v) o) k vs

  abbrev pub IsKeyed : List (K × V) → Type ℓ
  IsKeyed d = All (λ e. e.0 ≡ key e.1) d

  set_item-IsKeyed : (v : V) (d : List (K × V)) → IsKeyed d → IsKeyed (set_item dec (key v) v d)
  unfolding set_item
  set_item-IsKeyed v [] h = (refl, tt)
  set_item-IsKeyed v (e ∷ d) h = ground (arith, set_item-IsKeyed v d h.1)

  values-set_item :
      (v : V) (d : List (K × V)) → IsKeyed d → values (set_item dec (key v) v d) ≡ put v (values d)
  unfolding set_item put
  values-set_item v [] h = refl
  values-set_item v (e ∷ d) h = ground (arith, values-set_item v d h.1)

  pub values-set_items :
      (vs : List V) (d : List (K × V))
      → IsKeyed d
      → values (set_items dec key vs d) ≡ puts vs (values d)
  unfolding set_items puts
  values-set_items [] d h = refl
  values-set_items (v ∷ vs) d h =
      values-set_items vs (set_item dec (key v) v d) (set_item-IsKeyed v d h)
      ∙ ap (puts vs) (values-set_item v d h)

  pub find-put :
      (q : K) (v : V) (ws : List V) → find q (put v ws) ≡ ite (dec q (key v)) (some v) (find q ws)
  unfolding find put
  find-put q v [] = refl
  find-put q v (w ∷ ws) = ground (arith, find-put q v ws)

  pub find-puts : (q : K) (vs ws : List V) → find q (puts vs ws) ≡ last_or (find q ws) q vs
  unfolding puts last_or
  find-puts q [] ws = refl
  find-puts q (v ∷ vs) ws = rw (find-puts q vs (put v ws), find-put q v ws)

  pub find-key : (q : K) (ws : List V) (w : V) → find q ws ≡ some w → key w ≡ q
  unfolding find
  find-key q [] w e = cc
  find-key q (v ∷ ws) w e = ground (arith, find-key q ws w)

  pub find-mem : (q : K) (ws : List V) (w : V) → find q ws ≡ some w → Memᴰ w ws
  unfolding find
  find-mem q [] w e = cc
  find-mem q (v ∷ ws) w e = elim (dec q (key v)) [
    | yes p ↦ Memᴰ.head (ground arith)
    | no p ↦ Memᴰ.tail (find-mem q ws w (ground arith))
  ]

  All-ne-put :
      (k : K) (v : V) (ws : List V)
      → key v ≢ k
      → All (λ j. j ≢ k) (map key ws)
      → All (λ j. j ≢ k) (map key (put v ws))
  unfolding put
  All-ne-put k v [] n h = (n, tt)
  All-ne-put k v (w ∷ ws) n h = elim (dec (key v) (key w)) [
    | yes p ↦ rw (if_pos _ p) (n, h.1)
    | no p ↦ rw (if_neg _ p) (h.0, All-ne-put k v ws n h.1)
  ]

  pub put-Distinct : (v : V) (ws : List V) → Distinct (map key ws) → Distinct (map key (put v ws))
  unfolding put
  put-Distinct v [] h = (tt, tt)
  put-Distinct v (w ∷ ws) h = elim (dec (key v) (key w)) [
    | yes p ↦ rw (if_pos _ p, p) h
    | no p ↦ rw (if_neg _ p) (All-ne-put (key w) v ws p h.0, put-Distinct v ws h.1)
  ]

  pub puts-Distinct : (vs ws : List V) → Distinct (map key ws) → Distinct (map key (puts vs ws))
  unfolding puts
  puts-Distinct [] ws h = h
  puts-Distinct (v ∷ vs) ws h = puts-Distinct vs (put v ws) (put-Distinct v ws h)

  set_items-IsKeyed :
      (vs : List V) (d : List (K × V)) → IsKeyed d → IsKeyed (set_items dec key vs d)
  unfolding set_items
  set_items-IsKeyed [] d h = h
  set_items-IsKeyed (v ∷ vs) d h =
      set_items-IsKeyed vs (set_item dec (key v) v d) (set_item-IsKeyed v d h)

  -- The values of a dict that is filled by two loops in turn.
  pub values-set_items_twice :
      (us vs : List V)
      → values (set_items dec key vs (set_items dec key us [])) ≡ puts vs (puts us [])
  values-set_items_twice us vs =
      values-set_items vs (set_items dec key us []) (set_items-IsKeyed us [] tt)
      ∙ ap (puts vs) (values-set_items us [] tt)

  put_append : (v : V) (ws : List V) → All (λ j. j ≢ key v) (map key ws) → put v ws ≡ ws ++ v ∷ []
  unfolding put
  put_append v [] h = refl
  put_append v (w ∷ ws) h = rw (if_neg _ (λ e. h.0 (sym e)), put_append v ws h.1)

  mem-keys : (w : V) (ws : List V) → Memᴰ w ws → Memᴰ (key w) (map key ws)
  mem-keys w [] m = elim m [ ]
  mem-keys w (v ∷ ws) (Memᴰ.head e) = Memᴰ.head (ap key e)
  mem-keys w (v ∷ ws) (Memᴰ.tail m) = Memᴰ.tail (mem-keys w ws m)

  -- Where no key occurs twice, a lookup finds each value by its key.
  pub find_of_mem :
      (w : V) (ws : List V) → Distinct (map key ws) → Memᴰ w ws → find (key w) ws ≡ some w
  unfolding find
  find_of_mem w [] d m = elim m [ ]
  find_of_mem w (v ∷ ws) d (Memᴰ.head e) = rw (if_pos _ (ap key e)) (ap some (sym e))
  find_of_mem w (v ∷ ws) d (Memᴰ.tail m) =
      rw (if_neg _ (All-mem (λ j. j ≢ key v) (key w) (map key ws) (mem-keys w ws m) d.0))
        (find_of_mem w ws d.1 m)

  pub find-none : (k : K) (ws : List V) → All (λ j. j ≢ k) (map key ws) → find k ws ≡ none
  unfolding find
  find-none k [] h = refl
  find-none k (w ∷ ws) h = rw (if_neg _ (λ e. h.0 (sym e))) (find-none k ws h.1)

  pub find-mem_keys : (k : K) (ws : List V) → Memᴰ k (map key ws) → find k ws ≢ none
  unfolding find
  find-mem_keys k [] m = elim m [ ]
  find-mem_keys k (w ∷ ws) (Memᴰ.head e) = rw (if_pos _ e) (λ n. cc)
  find-mem_keys k (w ∷ ws) (Memᴰ.tail m) = ground (arith, find-mem_keys k ws m)

  All-mid :
      (P : K → Type ℓ) (ws : List V) (v : V) (vs : List V)
      → All P (map key (ws ++ v ∷ vs))
      → P (key v)
  All-mid P [] v vs h = h.0
  All-mid P (w ∷ ws) v vs h = All-mid P ws v vs h.1

  Distinct-before :
      (ws : List V) (v : V) (vs : List V)
      → Distinct (map key (ws ++ v ∷ vs))
      → All (λ j. j ≢ key v) (map key ws)
  Distinct-before [] v vs h = tt
  Distinct-before (w ∷ ws) v vs h =
      (λ e. All-mid (λ j. j ≢ key w) ws v vs h.0 (sym e), Distinct-before ws v vs h.1)

  puts_append : (vs ws : List V) → Distinct (map key (ws ++ vs)) → puts vs ws ≡ ws ++ vs
  unfolding puts
  puts_append [] ws h = sym (append-nil ws)
  puts_append (v ∷ vs) ws h =
      ap (puts vs) (put_append v ws (Distinct-before ws v vs h))
      ∙ puts_append vs (ws ++ v ∷ []) (rw append_assoc h)
      ∙ append_assoc ws (v ∷ []) vs

  -- A list without a repeated key is what the dict of its values holds.
  pub puts_of_Distinct : (vs : List V) → Distinct (map key vs) → puts vs [] ≡ vs
  puts_of_Distinct vs h = puts_append vs [] h

  pub lookup-set_items :
      (q : K) (vs : List V) (d : List (K × V))
      → lookup dec q (set_items dec key vs d) ≡ last_or (lookup dec q d) q vs
  unfolding set_items last_or
  lookup-set_items q [] d = refl
  lookup-set_items q (v ∷ vs) d =
      lookup-set_items q vs (set_item dec (key v) v d)
      ∙ ap (λ o. last_or o q vs) (lookup-set_item dec (key v) q v d)

  last_or-cases :
      (o : Option V) (q : K) (vs : List V) (w : V)
      → last_or o q vs ≡ some w
      → (o ≡ some w) ⊎ (Memᴰ w vs × (key w ≡ q))
  unfolding last_or
  last_or-cases o q [] w e = inl e
  last_or-cases o q (v ∷ vs) w e = elim (last_or-cases (ite (dec q (key v)) (some v) o) q vs w e) [
    | inr (m, k) ↦ inr (Memᴰ.tail m, k)
    | inl h ↦ elim (dec q (key v)) [
      | yes p ↦ let s : v ≡ w = ground arith in inr (Memᴰ.head (sym s), ap key (sym s) ∙ sym p)
      | no p ↦ inl (ground arith)
    ]
  ]

  -- What a dict of values gives for a key is one of the values, and has the key.
  pub lookup-set_items_mem :
      (q : K) (vs : List V) (w : V)
      → lookup dec q (set_items dec key vs []) ≡ some w
      → Memᴰ w vs × (key w ≡ q)
  unfolding lookup
  lookup-set_items_mem q vs w e =
      elim (last_or-cases none q vs w (sym (lookup-set_items q vs []) ∙ e)) [
        | inl h ↦ absurd (cc)
        | inr h ↦ h
      ]
