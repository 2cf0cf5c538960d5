-- ===== src/Vcs/Paths/Safety.antt =====
-- Where an accepted path leads.
use stack_migrate.Base.{
  ◌≡◌, refl, ◌⊎◌, inl, inr, Bool, true, false, List, [], ◌∷◌, ◌++◌, Option, none, some, Text, codes,
  not, contains, split_on, any_of, All, Bool-cases, arith, Memᴰ, mem-contains, map, last_of, ap,
  if◌then◌else◌,
}
use stack_migrate.Vcs.Paths.Checks.{
  Unicode, PathProblem, publishable_path_problem, newline, slash, lower, matches_safe_chars,
  matches_rest, is_safe_char, forbidden_segments, dot_segments, forbidden_files,
}

abbrev pub segments : Text → List Text
segments path = (split_on slash path).0 ∷ (split_on slash path).1

-- What a segment does to the directory that a path has reached.
pub data Move : Type 0 where
  stay climb enter : Move

unfoldable pub move_of : Text → Move
move_of seg =
    if contains seg ([] ∷ codes "." ∷ [])
    then stay
    else if contains seg (codes ".." ∷ [])
    then climb
    else enter

-- A move from a trail, and the walk that goes on from there.
abbrev moved : Move → List Text → Text → (List Text → Option (List Text)) → Option (List Text)
moved stay trail seg go_on = go_on trail
moved climb [] seg go_on = none
moved climb (dir ∷ trail) seg go_on = go_on trail
moved enter trail seg go_on = go_on (seg ∷ trail)

-- The directories entered and not left again, the innermost first; `none` is a climb out of the start.
unfoldable pub walk : List Text → List Text → Option (List Text)
walk trail [] = some trail
walk trail (seg ∷ segs) = moved (move_of seg) trail seg (λ t. walk t segs)

-- Some texts, the last first, before others.
abbrev pub onto : List Text → List Text → List Text
onto [] trail = trail
onto (seg ∷ segs) trail = onto segs (seg ∷ trail)

-- Every character is a safe one, but for a newline that may end the text.
abbrev pub IsPlain : Unicode → Text → Type 0
IsPlain unicode path =
    (stem : Text) × ((path ≡ stem) ⊎ (path ≡ stem ++ newline ∷ []))
    × All (λ c. is_safe_char unicode c ≡ true) stem

-- What holds of every path that the check accepts: it enters each of its segments in turn and never
-- climbs, its characters are plain, no segment is a forbidden directory in any case, and the last
-- is no forbidden file.
pub record IsPublishable (unicode : Unicode) (path : Text) : Type 0 where
  pub descends : walk [] (segments path) ≡ some (onto (segments path) [])
  pub plain : IsPlain unicode path
  pub no_git : All (λ seg. ¬ Memᴰ (lower unicode seg) forbidden_segments) (segments path)
  pub no_git_file :
      ¬ Memᴰ
        (last_of
          (lower unicode (split_on slash path).0)
          (map (lower unicode) (split_on slash path).1))
        forbidden_files

module _ {ℓ} {A : Type ℓ} (p : A → Bool) where
  any_of-false : (xs : List A) → any_of p xs ≡ false → All (λ x. p x ≡ false) xs
  unfolding any_of
  any_of-false [] h = tt
  any_of-false (x ∷ xs) h = (ground arith, any_of-false xs (ground arith))

not_mem : (t : Text) (ts : List Text) → contains t ts ≡ false → ¬ Memᴰ t ts
not_mem t ts h m = absurd (cc (h, mem-contains t ts m))

All-not_mem :
    (f : Text → Text) (ts segs : List Text)
    → All (λ seg. contains (f seg) ts ≡ false) segs
    → All (λ seg. ¬ Memᴰ (f seg) ts) segs
All-not_mem f ts [] h = tt
All-not_mem f ts (s ∷ ss) h = (not_mem (f s) ts h.0, All-not_mem f ts ss h.1)

enters : (seg : Text) → contains seg dot_segments ≡ false → move_of seg ≡ enter
unfolding move_of contains
enters seg h = ground arith

walk_descends :
    (trail segs : List Text)
    → All (λ seg. contains seg dot_segments ≡ false) segs
    → walk trail segs ≡ some (onto segs trail)
unfolding walk
walk_descends trail [] h = refl
walk_descends trail (s ∷ ss) h = rw (enters s h.0) (walk_descends (s ∷ trail) ss h.1)

module _ (unicode : Unicode) where
  rest-IsPlain : (s : Text) → matches_rest unicode s ≡ true → IsPlain unicode s
  unfolding matches_rest
  rest-IsPlain [] h = ([], inl refl, tt)
  rest-IsPlain (c ∷ []) h = elim (Bool-cases (is_safe_char unicode c)) [
    | inl e ↦ (c ∷ [], inl refl, (e, tt))
    | inr e ↦ ([], inr (ground arith), tt)
  ]
  rest-IsPlain (c ∷ d ∷ s) h =
      let (stem, same, safe) = rest-IsPlain (d ∷ s) (ground arith) in
      (
        c ∷ stem,
        elim same [ inl e ↦ inl (ap (λ t. c ∷ t) e) | inr e ↦ inr (ap (λ t. c ∷ t) e) ],
        (ground arith, safe),
      )

  path-IsPlain : (s : Text) → matches_safe_chars unicode s ≡ true → IsPlain unicode s
  unfolding matches_safe_chars
  path-IsPlain [] h = absurd (cc)
  path-IsPlain (c ∷ s) h =
      let (stem, same, safe) = rest-IsPlain s (ground arith) in
      (
        c ∷ stem,
        elim same [ inl e ↦ inl (ap (λ t. c ∷ t) e) | inr e ↦ inr (ap (λ t. c ∷ t) e) ],
        (ground arith, safe),
      )

  -- A chain of tests that answers `none` has failed each of them.
  all_tests_false :
      (a b c d e : Bool)
      → (if a
          then some PathProblem.empty_or_absolute
          else if b
          then some PathProblem.unsafe_characters
          else if c
          then some PathProblem.bad_segment
          else if d
          then some PathProblem.git_directory
          else if e
          then some PathProblem.git_file
          else none)
        ≡ none
      → (b ≡ false) × (c ≡ false) × (d ≡ false) × (e ≡ false)
  all_tests_false a b c d e h = ground arith

  not-false : (b : Bool) → not b ≡ false → b ≡ true
  not-false true h = refl
  not-false false h = absurd (cc)

  -- A path that the check accepts leads down through its own segments, to a file below the place
  -- where it is read. Its characters are plain, a newline at its end excepted; none of its segments
  -- is `.git` or `.github`, and its last is not `.gitmodules` or `.gitattributes`, in any case of
  -- letters.
  pub publishable_path_problem-IsPublishable :
      (path : Text) → publishable_path_problem unicode path ≡ none → IsPublishable unicode path
  unfolding publishable_path_problem
  publishable_path_problem-IsPublishable path h =
      let (b, c, d, e) = all_tests_false _ _ _ _ _ h in
      record {
        descends = walk_descends [] (segments path) (any_of-false _ (segments path) c);
        plain = path-IsPlain path (not-false _ b);
        no_git =
            All-not_mem (lower unicode) forbidden_segments (segments path)
              (any_of-false _ (segments path) d);
        no_git_file = not_mem _ forbidden_files e;
      }
