-- ===== src/Graph/Nodes/Fresh.antt =====
-- The ids that comprehension assigns are different.
use stack_migrate.Base.{
  ℕ, zero, suc, ◌+◌, ◌≤◌, ◌<◌, ◌≡◌, ◌≢◌, refl, sym, ap, subst, inl, inr, Bool, true, false, List,
  [], ◌∷◌, ◌++◌, Text, codes, contains, contains-mem, mem-contains, Memᴰ, All, All-append,
  All-weaken, leb, Distinct, Distinct-snoc, length, length-append, length-le-of_mem, show, show_inj,
  Bool-cases, if◌then◌else◌, arith,
}
use stack_migrate.Graph.Nodes.Comprehension.{
  suffixed, next_free, assign_id, add_units, after_extract, stop_at, extract_files,
  run_comprehension, fresh, no_files, Progress, RawExtractedUnit, PendingUnit, DiscoveredFile,
  Extracted,
}
use stack_migrate.Graph.Nodes.Links.{assigned_ids, unit_ids, resolve_units-ids}
use stack_migrate.Vcs.Paths.{Unicode}
use stack_migrate.Graph.Nodes.Synthesis.{kind_value}
use stack_migrate.Core.Slug.{slugify}

length-suffixed : (base : Text) (j : ℕ) → length base < length (suffixed base j)
unfolding suffixed
length-suffixed base j =
    omega (arith, length-append (base ++ codes "_") (show j), length-append base (codes "_"))

suffixed-longer : (base : Text) (j : ℕ) → suffixed base j ≢ base
suffixed-longer base j e = absurd (omega (arith, ap length e, length-suffixed base j))

after_prefix : (p : Text) (s t : Text) → p ++ s ≡ p ++ t → s ≡ t
after_prefix [] s t e = e
after_prefix (c ∷ p) s t e = after_prefix p s t (cc e)

suffixed_inj : (base : Text) (i j : ℕ) → suffixed base i ≡ suffixed base j → i ≡ j
unfolding suffixed
suffixed_inj base i j e = show_inj i j (after_prefix (base ++ codes "_") (show i) (show j) e)

-- The ids that the loop tries.
unfoldable tried : ℕ → Text → Text → ℕ → List Text
tried zero base c k = c ∷ []
tried (suc f) base c k = c ∷ tried f base (suffixed base k) (k + 1)

length-tried : (f : ℕ) (base c : Text) (k : ℕ) → length (tried f base c k) ≡ suc f
unfolding tried
length-tried zero base c k = refl
length-tried (suc f) base c k = ap suc (length-tried f base (suffixed base k) (k + 1))

-- No suffix from here on gives the text.
abbrev IsBefore : Text → ℕ → Text → Type 0
IsBefore base k c = (j : ℕ) → k ≤ j → suffixed base j ≢ c

later_ids :
    (f : ℕ) (base c : Text) (i k : ℕ)
    → IsBefore base i c
    → i ≤ k
    → All (λ t. t ≢ c) (tried f base (suffixed base k) (k + 1))
unfolding tried
later_ids zero base c i k h l = (h k l, tt)
later_ids (suc f) base c i k h l = (h k l, later_ids f base c i (k + 1) h (omega arith))

tried-Distinct : (f : ℕ) (base c : Text) (k : ℕ) → IsBefore base k c → Distinct (tried f base c k)
unfolding tried
tried-Distinct zero base c k h = (tt, tt)
tried-Distinct (suc f) base c k h = (
  later_ids f base c k k h (omega arith),
  tried-Distinct f base (suffixed base k) (k + 1)
      (λ j l e. absurd (omega (arith, suffixed_inj base j k e))),
)

-- Where the loop ends at a used id, it has tried used ids only.
tried-used :
    (f : ℕ) (used : List Text) (base c : Text) (k : ℕ)
    → contains (next_free f used base c k) used ≡ true
    → All (λ t. Memᴰ t used) (tried f base c k)
unfolding tried next_free
tried-used zero used base c k h = (contains-mem c used h, tt)
tried-used (suc f) used base c k h =
    go (contains c used) refl h (tried-used f used base (suffixed base k) (k + 1))
  where
    later : Text
    later = next_free f used base (suffixed base k) (k + 1)

    go :
        (b : Bool)
        → contains c used ≡ b
        → contains (if b then later else c) used ≡ true
        → (contains later used ≡ true
            → All (λ t. Memᴰ t used) (tried f base (suffixed base k) (k + 1)))
        → Memᴰ c used × All (λ t. Memᴰ t used) (tried f base (suffixed base k) (k + 1))
    go true e h' rest = (contains-mem c used e, rest h')
    go false e h' rest = absurd (cc (e, h'))

-- The assigned id is not a used one: the fuel is enough.
assign_id-fresh :
    (kind name : Text) (used : List Text) → contains (assign_id kind name used) used ≡ false
unfolding assign_id
assign_id-fresh kind name used =
    let base = kind ++ codes "::" ++ slugify name in
    elim (Bool-cases (contains (next_free (length used) used base base 2) used)) [
      | inl e ↦ absurd (
          omega (
            arith,
            length-tried (length used) base base 2,
            length-le-of_mem (tried (length used) base base 2) used
                (tried-Distinct (length used) base base 2 (λ j l. suffixed-longer base j))
                (tried-used (length used) used base base 2 e),
          ))
      | inr e ↦ e
    ]

-- The ids of the pending units are used, and different.
record IsFresh (p : Progress) : Type 0 where
  used : All (λ id. Memᴰ id p.used_ids) (assigned_ids p.pending)
  distinct : Distinct (assigned_ids p.pending)

assigned_ids-snoc :
    (ps : List PendingUnit) (q : PendingUnit)
    → assigned_ids (ps ++ q ∷ []) ≡ assigned_ids ps ++ q.assigned_id ∷ []
assigned_ids-snoc [] q = refl
assigned_ids-snoc (p ∷ ps) q = ap (λ ids. p.assigned_id ∷ ids) (assigned_ids-snoc ps q)

not_used :
    (p : Progress) (q : Text)
    → contains q p.used_ids ≡ false
    → (id : Text) → Memᴰ id p.used_ids
    → q ≢ id
not_used p q new id m e =
    absurd (cc (new, mem-contains q p.used_ids (subst (λ t. Memᴰ t p.used_ids) (sym e) m)))

snoc-IsFresh :
    (p : Progress) (q : PendingUnit)
    → contains q.assigned_id p.used_ids ≡ false
    → IsFresh p
    → IsFresh (record p { used_ids = q.assigned_id ∷ p.used_ids; pending = p.pending ++ q ∷ [] })
snoc-IsFresh p q new h =
    let split = sym (assigned_ids-snoc p.pending q) in
    record {
      used = subst (All (λ id. Memᴰ id (q.assigned_id ∷ p.used_ids))) split (
          All-append (λ id. Memᴰ id (q.assigned_id ∷ p.used_ids)) (assigned_ids p.pending)
            (q.assigned_id ∷ [])
            (All-weaken _ (λ id. Memᴰ id (q.assigned_id ∷ p.used_ids)) _ (λ id m. Memᴰ.tail m)
              h.used)
            (Memᴰ.head refl, tt));
      distinct = subst Distinct split (
          Distinct-snoc (assigned_ids p.pending) q.assigned_id h.distinct
            (All-weaken _ (λ id. q.assigned_id ≢ id) _ (not_used p q.assigned_id new) h.used));
    }

add_units-IsFresh :
    (path : Text) (raws : List RawExtractedUnit) (p : Progress)
    → IsFresh p
    → IsFresh (add_units path raws p)
unfolding add_units
add_units-IsFresh path [] p h = h
add_units-IsFresh path (raw ∷ raws) p h = add_units-IsFresh path raws _ (
    snoc-IsFresh p
      (record {
        raw = raw;
        source_relative_path = path;
        assigned_id = assign_id (kind_value raw.kind) raw.name p.used_ids;
      })
      (assign_id-fresh (kind_value raw.kind) raw.name p.used_ids) h)

after_extract-IsFresh :
    (file : DiscoveredFile) (r : Extracted) (p : Progress)
    → IsFresh p
    → IsFresh (after_extract file r p)
unfolding after_extract
after_extract-IsFresh file (Extracted.raised exc) p h = record {
  used = h.used;
  distinct = h.distinct;
}
after_extract-IsFresh file (Extracted.response r) p h =
    add_units-IsFresh file.relative_path r.units _ (record { used = h.used; distinct = h.distinct })

extract_files-Distinct :
    (extract : DiscoveredFile → Extracted) (remaining : ℕ) (all files : List DiscoveredFile)
    (p : Progress)
    → IsFresh p
    → Distinct (assigned_ids (extract_files extract remaining all files p).pending)
unfolding extract_files stop_at
extract_files-Distinct extract remaining all [] p h = h.distinct
extract_files-Distinct extract remaining all (file ∷ files) p h =
    let rest =
      extract_files-Distinct extract remaining all files (after_extract file (extract file) p)
        (after_extract-IsFresh file (extract file) p h) in
    elim (Bool-cases (leb remaining p.total_cost)) [ inl e ↦ rw e h.distinct | inr e ↦ rw e rest ]

-- The units of the result of comprehension have different ids, whatever the extractor answers, and
-- however many of them share a kind and a name.
pub run_comprehension-Distinct :
    (unicode : Unicode) (repo_root scope stack : Text) (remaining : ℕ) (files : List DiscoveredFile)
    (extract : DiscoveredFile → Extracted)
    → Distinct
        (unit_ids (run_comprehension unicode repo_root scope stack remaining files extract).0.units)
unfolding run_comprehension
run_comprehension-Distinct unicode repo_root scope stack remaining files extract =
    subst Distinct (sym (resolve_units-ids unicode _ _)) (
      extract_files-Distinct extract remaining files files (fresh (no_files scope stack files))
        (record { used = tt; distinct = tt }))
