-- ===== src/Adapters/Springboot/Discovery.antt =====
-- Which files are discovered.
use stack_migrate.Base.{
  ◌≡◌, refl, sym, ap, subst, ◌↔◌, inl, inr, Bool, true, false, List, [], ◌∷◌, ◌++◌, Option, Text,
  Memᴰ, Bool-cases, if◌then◌else◌, mem_left, mem_right, mem_either,
}
use stack_migrate.Vcs.Paths.{Unicode}
use stack_migrate.Adapters.Springboot.{
  Directory, directory, Subdirectories, end, subdirectory, Candidate, child_path, is_java,
  candidate, java_files, is_skipped, walk, walk_subs,
}

-- A directory has this subdirectory.
pub data HasSub (name : Text) (d : Directory) : Subdirectories → Type 0 where
  first : {more : Subdirectories} → HasSub name d (subdirectory name d more)
  later :
      {other : Text} {e : Directory} {more : Subdirectories}
      → HasSub name d more
      → HasSub name d (subdirectory other e more)

-- A Java file below a directory, reached through directories that are not skipped.
pub data HasFile (unicode : Unicode) : Text → Text → Directory → Candidate → Type 0 where
  here :
      {full rel : Text} {files : List (Text × Option Text)} {subs : Subdirectories} {name : Text}
      {content : Option Text}
      → Memᴰ (name, content) files
      → is_java name ≡ true
      → HasFile unicode full rel (directory files subs) (candidate full rel name content)
  below :
      {full rel : Text} {files : List (Text × Option Text)} {subs : Subdirectories} {name : Text}
      {d : Directory} {c : Candidate}
      → HasSub name d subs
      → is_skipped unicode name ≡ false
      → HasFile unicode (child_path full name) (child_path rel name) d c
      → HasFile unicode full rel (directory files subs) c

java_files-mem :
    (files : List (Text × Option Text)) (full rel name : Text) (content : Option Text)
    → Memᴰ (name, content) files
    → is_java name ≡ true
    → Memᴰ (candidate full rel name content) (java_files files full rel)
unfolding java_files
java_files-mem [] full rel name content m h = elim m [ ]
java_files-mem ((n, c) ∷ files) full rel name content (Memᴰ.head e) h =
    rw (subst (λ f. is_java f.0 ≡ true) e h) (Memᴰ.head (ap (λ f. candidate full rel f.0 f.1) e))
java_files-mem ((n, c) ∷ files) full rel name content (Memᴰ.tail m) h =
    elim (Bool-cases (is_java n)) [
      | inl e ↦ rw e (Memᴰ.tail (java_files-mem files full rel name content m h))
      | inr e ↦ rw e (java_files-mem files full rel name content m h)
    ]

-- Where a candidate of some files comes from.
abbrev FromFiles : List (Text × Option Text) → Text → Text → Candidate → Type 0
FromFiles files full rel c =
    (name : Text) × (content : Option Text) × Memᴰ (name, content) files
    × (is_java name ≡ true)
    × (c ≡ candidate full rel name content)

of_mem-java_files :
    (files : List (Text × Option Text)) (full rel : Text) (c : Candidate)
    → Memᴰ c (java_files files full rel)
    → FromFiles files full rel c
unfolding java_files
of_mem-java_files [] full rel c m = elim m [ ]
of_mem-java_files ((n, o) ∷ files) full rel c m =
    go (is_java n) refl m (of_mem-java_files files full rel c)
  where
    weaken : FromFiles files full rel c → FromFiles ((n, o) ∷ files) full rel c
    weaken (name, content, l, j, e) = (name, content, Memᴰ.tail l, j, e)

    go :
        (b : Bool)
        → is_java n ≡ b
        → Memᴰ c (
            if b
            then candidate full rel n o ∷ java_files files full rel
            else java_files files full rel)
        → (Memᴰ c (java_files files full rel) → FromFiles files full rel c)
        → FromFiles ((n, o) ∷ files) full rel c
    go true h (Memᴰ.head e) rest = (n, o, Memᴰ.head refl, h, e)
    go true h (Memᴰ.tail l) rest = weaken (rest l)
    go false h l rest = weaken (rest l)

module _ (unicode : Unicode) where
  walk_subs-mem :
      (name : Text) (d : Directory) (subs : Subdirectories) (full rel : Text) (c : Candidate)
      → HasSub name d subs
      → is_skipped unicode name ≡ false
      → Memᴰ c (walk unicode d (child_path full name) (child_path rel name))
      → Memᴰ c (walk_subs unicode subs full rel)
  unfolding walk_subs
  walk_subs-mem name d end full rel c s h m = elim s [ ]
  walk_subs-mem name d (subdirectory n e more) full rel c first h m = rw h (mem_left c _ _ m)
  walk_subs-mem name d (subdirectory n e more) full rel c (later s) h m =
      let rest = walk_subs-mem name d more full rel c s h m in
      elim (Bool-cases (is_skipped unicode n)) [
        | inl skip ↦ rw skip rest
        | inr keep_it ↦
            rw keep_it (mem_right c (walk unicode e (child_path full n) (child_path rel n)) _ rest)
      ]

  walk-mem :
      {full rel : Text} {d : Directory} {c : Candidate}
      → HasFile unicode full rel d c
      → Memᴰ c (walk unicode d full rel)
  unfolding walk
  walk-mem (here {files = files} m h) = mem_left _ _ _ (java_files-mem files _ _ _ _ m h)
  walk-mem {full = full} {rel = rel} {c = c}
        (below {files = files} {subs = subs} {name = name} {d = d} s h w) =
      mem_right c (java_files files full rel) _ (
        walk_subs-mem name d subs full rel c s h
          (walk-mem {full = child_path full name} {rel = child_path rel name} w))

  -- Where a candidate of some subdirectories comes from.
  abbrev FromSubs : Subdirectories → Text → Text → Candidate → Type 0
  FromSubs subs full rel c =
      (name : Text) × (d : Directory) × HasSub name d subs
      × (is_skipped unicode name ≡ false)
      × HasFile unicode (child_path full name) (child_path rel name) d c

  from_later :
      (n : Text) (e : Directory) (more : Subdirectories) (full rel : Text) (c : Candidate)
      → FromSubs more full rel c
      → FromSubs (subdirectory n e more) full rel c
  from_later n e more full rel c (name, d, s, h, w) = (name, d, later s, h, w)

  from_either :
      (name : Text) (d : Directory) (more : Subdirectories) (full rel : Text) (c : Candidate)
      (own rest : List Candidate) (b : Bool)
      → is_skipped unicode name ≡ b
      → Memᴰ c (if b then rest else own ++ rest)
      → (Memᴰ c own → HasFile unicode (child_path full name) (child_path rel name) d c)
      → (Memᴰ c rest → FromSubs more full rel c)
      → FromSubs (subdirectory name d more) full rel c
  from_either name d more full rel c own rest true h m here_file below_files =
      from_later name d more full rel c (below_files m)
  from_either name d more full rel c own rest false h m here_file below_files =
      elim (mem_either c own rest m) [
        | inl l ↦ (name, d, first, h, here_file l)
        | inr r ↦ from_later name d more full rel c (below_files r)
      ]

  mutual
    unfolding walk

    of_mem-walk :
        (d : Directory) (full rel : Text) (c : Candidate)
        → Memᴰ c (walk unicode d full rel)
        → HasFile unicode full rel d c
    of_mem-walk (directory files subs) full rel c m =
        elim (mem_either c (java_files files full rel) _ m) [
          | inl l ↦
              let (name, content, n, h, e) = of_mem-java_files files full rel c l in
              subst (HasFile unicode full rel (directory files subs)) (sym e) (here n h)
          | inr r ↦ let (name, d, s, h, w) = of_mem-walk_subs subs full rel c r in below s h w
        ]

    of_mem-walk_subs :
        (subs : Subdirectories) (full rel : Text) (c : Candidate)
        → Memᴰ c (walk_subs unicode subs full rel)
        → FromSubs subs full rel c
    of_mem-walk_subs end full rel c m = elim m [ ]
    of_mem-walk_subs (subdirectory name d more) full rel c m =
        from_either name d more full rel c _ _ (is_skipped unicode name) refl m
          (of_mem-walk d (child_path full name) (child_path rel name) c)
          (of_mem-walk_subs more full rel c)

  -- A candidate of the walk is a Java file below the directory that is not under a skipped one, and
  -- conversely.
  pub walk_iff :
      (d : Directory) (full rel : Text) (c : Candidate)
      → Memᴰ c (walk unicode d full rel) ↔ HasFile unicode full rel d c
  walk_iff d full rel c = (of_mem-walk d full rel c, walk-mem)
