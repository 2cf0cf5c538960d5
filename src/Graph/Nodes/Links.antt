-- ===== src/Graph/Nodes/Links.antt =====
-- What the resolved references of the units lead to.
use stack_migrate.Base.{
  ◌≡◌, ◌≢◌, refl, sym, ◌∙◌, ap, subst, ◌⊎◌, inl, inr, List, [], ◌∷◌, ◌++◌, map, Option, none, some,
  Text, text_discrete, lookup, if_pos, if_neg, lookup-set_item, All, Memᴰ, ℕ,
}
use stack_migrate.State.{SemanticUnit}
use stack_migrate.Vcs.Paths.{Unicode, lower}
use stack_migrate.Graph.Nodes.Comprehension.{run_comprehension}
use stack_migrate.Graph.Nodes.Comprehension.{DiscoveredFile, Extracted, PendingUnit}
use stack_migrate.Graph.Nodes.Comprehension.{
  name_table, entered, resolve_ref, not_found, resolve_refs, resolve_unit, resolve_units,
  referenced_names,
}

abbrev pub assigned_ids : List PendingUnit → List Text
assigned_ids ps = map (λ p. p.assigned_id) ps

abbrev pub unit_ids : List SemanticUnit → List Text
unit_ids us = map (λ u. u.id) us

-- Each dependency of the unit is the id of a unit of the list, and of another one.
abbrev pub IsLinked : List SemanticUnit → SemanticUnit → Type 0
IsLinked us u = All (λ dep. (dep ≢ u.id) × Memᴰ dep (unit_ids us)) u.depends_on_unit_ids

module _ (unicode : Unicode) where
  entered-lookup :
      (o : Option Text) (k key id found : Text) (d : List (Text × Text))
      → lookup text_discrete k (entered unicode o key id d) ≡ some found
      → (lookup text_discrete k d ≡ some found) ⊎ (found ≡ id)
  entered-lookup (some old) k key id found d e = inl e
  entered-lookup none k key id found d e = elim (text_discrete k key) [
    | yes p ↦
        let e' : some id ≡ some found =
          sym (if_pos (text_discrete k key) p (some id) (lookup text_discrete k d))
          ∙ sym (lookup-set_item text_discrete key k id d)
          ∙ e in
        inr (cc)
    | no p ↦ inl (
        sym (if_neg (text_discrete k key) p (some id) (lookup text_discrete k d))
        ∙ sym (lookup-set_item text_discrete key k id d)
        ∙ e)
  ]

  -- What the name table gives was in it before, or is the id of one of the units.
  name_table-lookup :
      (k found : Text) (ps : List PendingUnit) (d : List (Text × Text))
      → lookup text_discrete k (name_table unicode ps d) ≡ some found
      → (lookup text_discrete k d ≡ some found) ⊎ Memᴰ found (assigned_ids ps)
  unfolding name_table
  name_table-lookup k found [] d e = inl e
  name_table-lookup k found (p ∷ ps) d e = elim (name_table-lookup k found ps _ e) [
    | inr m ↦ inr (Memᴰ.tail m)
    | inl h ↦
        elim (entered-lookup (lookup text_discrete (lower unicode p.raw.name) d) k
          (lower unicode p.raw.name) p.assigned_id found d h) [
            | inl h' ↦ inl h'
            | inr same ↦ inr (Memᴰ.head same)
          ]
  ]

  -- Each of these ids is a unit's of the list, and not the given one.
  abbrev Others : List PendingUnit → Text → List Text → Type 0
  Others ps unit deps = All (λ dep. (dep ≢ unit) × Memᴰ dep (assigned_ids ps)) deps

  resolve_ref-Others :
      (ps : List PendingUnit) (unit ref : Text) (o : Option Text) (rest : List Text × List Text)
      → ((id : Text) → o ≡ some id → Memᴰ id (assigned_ids ps))
      → Others ps unit rest.0
      → Others ps unit (resolve_ref unicode o unit ref rest).0
  resolve_ref-Others ps unit ref none (deps, notes) k h = h
  resolve_ref-Others ps unit ref (some id) (deps, notes) k h = elim (text_discrete id unit) [
    | yes p ↦
        rw
          (if_pos {C = List Text × List Text} (text_discrete id unit) p
            (deps, not_found unicode unit ref ++ notes) (id ∷ deps, notes))
          h
    | no p ↦
        rw
          (if_neg {C = List Text × List Text} (text_discrete id unit) p
            (deps, not_found unicode unit ref ++ notes) (id ∷ deps, notes))
          ((p, k id refl), h)
  ]

  table_ids :
      (ps : List PendingUnit) (k id : Text)
      → lookup text_discrete k (name_table unicode ps []) ≡ some id
      → Memᴰ id (assigned_ids ps)
  unfolding lookup
  table_ids ps k id e = elim (name_table-lookup k id ps [] e) [ inl h ↦ absurd (cc) | inr m ↦ m ]

  resolve_refs-Others :
      (ps : List PendingUnit) (unit : Text) (refs : List Text)
      → Others ps unit (resolve_refs unicode (name_table unicode ps []) unit refs).0
  unfolding resolve_refs
  resolve_refs-Others ps unit [] = tt
  resolve_refs-Others ps unit (ref ∷ refs) =
      resolve_ref-Others ps unit ref _ (resolve_refs unicode (name_table unicode ps []) unit refs)
        (λ id e. table_ids ps (lower unicode ref) id e) (resolve_refs-Others ps unit refs)

  pub resolve_units-ids :
      (table : List (Text × Text)) (ps : List PendingUnit)
      → unit_ids (resolve_units unicode table ps).0 ≡ assigned_ids ps
  unfolding resolve_units resolve_unit
  resolve_units-ids table [] = refl
  resolve_units-ids table (p ∷ ps) = ap (λ ids. p.assigned_id ∷ ids) (resolve_units-ids table ps)

  -- Each unit of a part of the list has dependencies in the whole list.
  some_units-Others :
      (all ps : List PendingUnit)
      → All
          (λ u. Others all u.id u.depends_on_unit_ids)
          (resolve_units unicode (name_table unicode all []) ps).0
  unfolding resolve_units resolve_unit
  some_units-Others all [] = tt
  some_units-Others all (p ∷ ps) = (
    resolve_refs-Others all p.assigned_id (referenced_names unicode p.raw.payload),
    some_units-Others all ps,
  )

  resolve_units-IsLinked :
      (ps : List PendingUnit)
      → All
          (IsLinked (resolve_units unicode (name_table unicode ps []) ps).0)
          (resolve_units unicode (name_table unicode ps []) ps).0
  resolve_units-IsLinked ps =
      let us = (resolve_units unicode (name_table unicode ps []) ps).0 in
      subst (λ ids. All (λ u. All (λ dep. (dep ≢ u.id) × Memᴰ dep ids) u.depends_on_unit_ids) us)
        (sym (resolve_units-ids (name_table unicode ps []) ps)) (some_units-Others ps ps)

  -- Every dependency of a unit of the result of comprehension is the id of a unit of that result,
  -- and of another one, whatever the extractor answers.
  pub run_comprehension-IsLinked :
      (repo_root scope stack : Text) (remaining : ℕ) (files : List DiscoveredFile)
      (extract : DiscoveredFile → Extracted)
      → All
          (IsLinked
            (run_comprehension unicode repo_root scope stack remaining files extract).0.units)
          (run_comprehension unicode repo_root scope stack remaining files extract).0.units
  unfolding run_comprehension
  run_comprehension-IsLinked repo_root scope stack remaining files extract =
      resolve_units-IsLinked _
