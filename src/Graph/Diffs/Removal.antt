-- ===== src/Graph/Diffs/Removal.antt =====
-- Which paths are stale.
use stack_migrate.Base.{
  ◌≡◌, refl, sym, ◌∙◌, ap, ◌⊎◌, inl, inr, ◌↔◌, Bool, true, false, not, List, [], ◌∷◌, Text,
  contains, contains-mem, mem-contains, keep, Memᴰ, Bool-cases, arith, if◌then◌else◌,
}
use stack_migrate.State.{MigrationTask, EditorResult}
use stack_migrate.Graph.Diffs.Effective.{all_diffs, effective_diffs}
use stack_migrate.Graph.Diffs.Stale.{text_leb, insert_sorted, sorted_set, paths, stale_paths}

text_leb_antisym : (s t : Text) → text_leb s t ≡ true → text_leb t s ≡ true → s ≡ t
unfolding text_leb
text_leb_antisym [] [] h k = refl
text_leb_antisym [] (d ∷ t) h k = absurd (cc)
text_leb_antisym (c ∷ s) [] h k = absurd (cc)
text_leb_antisym (c ∷ s) (d ∷ t) h k = ground (arith, text_leb_antisym s t)

-- The list after an insertion, from the two comparisons with its head.
abbrev inserted : Bool → Bool → Text → Text → List Text → List Text → List Text
inserted a b t u us more = if a then if b then u ∷ us else u ∷ more else t ∷ u ∷ us

inserted_mem :
    (a b : Bool) (t u p : Text) (us more : List Text)
    → (Memᴰ p more → (p ≡ t) ⊎ Memᴰ p us)
    → Memᴰ p (inserted a b t u us more)
    → (p ≡ t) ⊎ Memᴰ p (u ∷ us)
inserted_mem true true t u p us more f m = inr m
inserted_mem true false t u p us more f (Memᴰ.head e) = inr (Memᴰ.head e)
inserted_mem true false t u p us more f (Memᴰ.tail m) = elim (f m) [
  | inl e ↦ inl e
  | inr m' ↦ inr (Memᴰ.tail m')
]
inserted_mem false b t u p us more f (Memᴰ.head e) = inl e
inserted_mem false b t u p us more f (Memᴰ.tail m) = inr m

mem_inserted :
    (a b : Bool) (t u p : Text) (us more : List Text)
    → (a ≡ true → b ≡ true → u ≡ t)
    → ((p ≡ t) ⊎ Memᴰ p us → Memᴰ p more)
    → (p ≡ t) ⊎ Memᴰ p (u ∷ us)
    → Memᴰ p (inserted a b t u us more)
mem_inserted true true t u p us more same f (inl e) = Memᴰ.head (e ∙ sym (same refl refl))
mem_inserted true true t u p us more same f (inr m) = m
mem_inserted true false t u p us more same f (inl e) = Memᴰ.tail (f (inl e))
mem_inserted true false t u p us more same f (inr (Memᴰ.head e)) = Memᴰ.head e
mem_inserted true false t u p us more same f (inr (Memᴰ.tail m)) = Memᴰ.tail (f (inr m))
mem_inserted false b t u p us more same f (inl e) = Memᴰ.head e
mem_inserted false b t u p us more same f (inr m) = Memᴰ.tail m

insert_mem : (t p : Text) (us : List Text) → Memᴰ p (insert_sorted t us) → (p ≡ t) ⊎ Memᴰ p us
unfolding insert_sorted
insert_mem t p [] (Memᴰ.head e) = inl e
insert_mem t p [] (Memᴰ.tail m) = elim m [ ]
insert_mem t p (u ∷ us) m =
    inserted_mem (text_leb u t) (text_leb t u) t u p us (insert_sorted t us) (insert_mem t p us) m

mem_insert : (t p : Text) (us : List Text) → (p ≡ t) ⊎ Memᴰ p us → Memᴰ p (insert_sorted t us)
unfolding insert_sorted
mem_insert t p [] (inl e) = Memᴰ.head e
mem_insert t p [] (inr m) = elim m [ ]
mem_insert t p (u ∷ us) h =
    mem_inserted (text_leb u t) (text_leb t u) t u p us (insert_sorted t us) (text_leb_antisym u t)
      (mem_insert t p us) h

pub sorted_set_mem : (p : Text) (ts : List Text) → Memᴰ p (sorted_set ts) ↔ Memᴰ p ts
unfolding sorted_set
sorted_set_mem p [] = (λ m. m, λ m. m)
sorted_set_mem p (t ∷ ts) = (
  λ m. elim (insert_mem t p (sorted_set ts) m) [
    | inl e ↦ Memᴰ.head e
    | inr m' ↦ Memᴰ.tail ((sorted_set_mem p ts).0 m')
  ],
  λ m.
      mem_insert t p (sorted_set ts)
        (elim m [ Memᴰ.head e ↦ inl e | Memᴰ.tail m' ↦ inr ((sorted_set_mem p ts).1 m') ]),
)

-- The elements that pass a filter are those of the list that pass its test.
module _ (q : Text → Bool) where
  kept :
      (t p : Text) (ts : List Text) (b : Bool)
      → (Memᴰ p (keep q ts) ↔ (Memᴰ p ts × (q p ≡ true)))
      → q t ≡ b
      → Memᴰ p (if b then t ∷ keep q ts else keep q ts) ↔ (Memᴰ p (t ∷ ts) × (q p ≡ true))
  kept t p ts true h e = (
    λ m. elim m [
      | Memᴰ.head same ↦ (Memᴰ.head same, ap q same ∙ e)
      | Memᴰ.tail m' ↦ (Memᴰ.tail (h.0 m').0, (h.0 m').1)
    ],
    λ m. elim m.0 [ Memᴰ.head same ↦ Memᴰ.head same | Memᴰ.tail m' ↦ Memᴰ.tail (h.1 (m', m.1)) ],
  )
  kept t p ts false h e = (
    λ m. (Memᴰ.tail (h.0 m).0, (h.0 m).1),
    λ m. elim m.0 [
      | Memᴰ.head same ↦ absurd (cc (m.1, ap q same, e))
      | Memᴰ.tail m' ↦ h.1 (m', m.1)
    ],
  )

  keep_mem : (p : Text) (ts : List Text) → Memᴰ p (keep q ts) ↔ (Memᴰ p ts × (q p ≡ true))
  unfolding keep
  keep_mem p [] = (λ m. elim m [ ], λ m. m.0)
  keep_mem p (t ∷ ts) = kept t p ts (q t) (keep_mem p ts) refl

not-contains : (p : Text) (ts : List Text) → (not (contains p ts) ≡ true) ↔ (¬ Memᴰ p ts)
not-contains p ts = (
  λ e m. absurd (cc (e, mem-contains p ts m)),
  λ n. elim (Bool-cases (contains p ts)) [
    | inl e ↦ absurd (n (contains-mem p ts e))
    | inr e ↦ ap not e
  ],
)

-- A path is stale exactly when some attempt wrote it and no effective diff does.
pub stale_paths_iff :
    (results : List EditorResult) (tasks : List MigrationTask) (p : Text)
    → Memᴰ p (stale_paths results tasks)
      ↔ (Memᴰ p (paths (all_diffs results)) × (¬ Memᴰ p (paths (effective_diffs results tasks))))
unfolding stale_paths
stale_paths_iff results tasks p =
    let now = paths (effective_diffs results tasks) in
    let ever = paths (all_diffs results) in
    let a = sorted_set_mem p (keep (λ p. not (contains p now)) ever) in
    let b = keep_mem (λ p. not (contains p now)) p ever in
    let c = not-contains p now in
    (λ m. ((b.0 (a.0 m)).0, c.0 (b.0 (a.0 m)).1), λ m. a.1 (b.1 (m.0, c.1 m.1)))
