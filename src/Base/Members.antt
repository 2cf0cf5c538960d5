-- ===== src/Base/Members.antt =====
-- Members of appended, mapped and filtered lists.
use Prim.Native.Nat.{◌≤◌}
use mathlib.Core.Path.{◌≡◌, refl, sym, ap, ◌∙◌, subst}
use mathlib.Core.Logic.{◌⊎◌, inl, inr}
use mathlib.Core.Bool.{Bool, true, false}
use mathlib.Core.List.{List, [], ◌∷◌, ◌++◌, map, Memᴰ}
use stack_migrate.Base.Tests.{if◌then◌else◌, Bool-cases}
use native.Mathlib.Omega.{arith}
use stack_migrate.Base.Lists.{keep, All, Distinct, length, length-append, All-append}
use mathlib.Core.Logic.{◌≢◌}

module _ {ℓ} {A : Type ℓ} where
  pub mem_left : (x : A) (xs ys : List A) → Memᴰ x xs → Memᴰ x (xs ++ ys)
  mem_left x [] ys m = elim m [ ]
  mem_left x (z ∷ xs) ys (Memᴰ.head e) = Memᴰ.head e
  mem_left x (z ∷ xs) ys (Memᴰ.tail m) = Memᴰ.tail (mem_left x xs ys m)

  pub mem_right : (x : A) (xs ys : List A) → Memᴰ x ys → Memᴰ x (xs ++ ys)
  mem_right x [] ys m = m
  mem_right x (z ∷ xs) ys m = Memᴰ.tail (mem_right x xs ys m)

  pub mem_either : (x : A) (xs ys : List A) → Memᴰ x (xs ++ ys) → Memᴰ x xs ⊎ Memᴰ x ys
  mem_either x [] ys m = inr m
  mem_either x (z ∷ xs) ys (Memᴰ.head e) = inl (Memᴰ.head e)
  mem_either x (z ∷ xs) ys (Memᴰ.tail m) = elim (mem_either x xs ys m) [
    | inl l ↦ inl (Memᴰ.tail l)
    | inr r ↦ inr r
  ]

  pub mem-keep : (p : A → Bool) (x : A) (xs : List A) → Memᴰ x xs → p x ≡ true → Memᴰ x (keep p xs)
  unfolding keep
  mem-keep p x [] m h = elim m [ ]
  mem-keep p x (y ∷ ys) (Memᴰ.head e) h = rw (subst (λ z. p z ≡ true) e h) (Memᴰ.head e)
  mem-keep p x (y ∷ ys) (Memᴰ.tail m) h = elim (Bool-cases (p y)) [
    | inl e ↦ rw e (Memᴰ.tail (mem-keep p x ys m h))
    | inr e ↦ rw e (mem-keep p x ys m h)
  ]

  pub of_mem-keep :
      (p : A → Bool) (x : A) (xs : List A) → Memᴰ x (keep p xs) → Memᴰ x xs × (p x ≡ true)
  unfolding keep
  of_mem-keep p x [] m = elim m [ ]
  of_mem-keep p x (y ∷ ys) m = go (p y) refl m (of_mem-keep p x ys)
    where
      go :
          (b : Bool)
          → p y ≡ b
          → Memᴰ x (if b then y ∷ keep p ys else keep p ys)
          → (Memᴰ x (keep p ys) → Memᴰ x ys × (p x ≡ true))
          → Memᴰ x (y ∷ ys) × (p x ≡ true)
      go true h (Memᴰ.head e) rest = (Memᴰ.head e, ap p e ∙ h)
      go true h (Memᴰ.tail n) rest = let (l, q) = rest n in (Memᴰ.tail l, q)
      go false h n rest = let (l, q) = rest n in (Memᴰ.tail l, q)

module _ {ℓ} {A B : Type ℓ} (f : A → B) where
  pub mem-map : (x : A) (xs : List A) → Memᴰ x xs → Memᴰ (f x) (map f xs)
  mem-map x [] m = elim m [ ]
  mem-map x (y ∷ ys) (Memᴰ.head e) = Memᴰ.head (ap f e)
  mem-map x (y ∷ ys) (Memᴰ.tail m) = Memᴰ.tail (mem-map x ys m)

  pub of_mem-map : (y : B) (xs : List A) → Memᴰ y (map f xs) → (x : A) × Memᴰ x xs × (y ≡ f x)
  of_mem-map y [] m = elim m [ ]
  of_mem-map y (x ∷ xs) (Memᴰ.head e) = (x, Memᴰ.head refl, e)
  of_mem-map y (x ∷ xs) (Memᴰ.tail m) = let (z, l, e) = of_mem-map y xs m in (z, Memᴰ.tail l, e)

module _ {ℓ} {A : Type ℓ} where
  -- A list without one of its members.
  mem_split : (x : A) (ys : List A) → Memᴰ x ys → (l : List A) × (r : List A) × (ys ≡ l ++ x ∷ r)
  mem_split x [] m = elim m [ ]
  mem_split x (y ∷ ys) (Memᴰ.head e) = ([], ys, ap (λ z. z ∷ ys) (sym e))
  mem_split x (y ∷ ys) (Memᴰ.tail m) =
      let (l, r, e) = mem_split x ys m in (y ∷ l, r, ap (λ zs. y ∷ zs) e)

  mem_without : (x z : A) (l r : List A) → z ≢ x → Memᴰ z (l ++ x ∷ r) → Memᴰ z (l ++ r)
  mem_without x z [] r n (Memᴰ.head e) = absurd (n e)
  mem_without x z [] r n (Memᴰ.tail m) = m
  mem_without x z (y ∷ l) r n (Memᴰ.head e) = Memᴰ.head e
  mem_without x z (y ∷ l) r n (Memᴰ.tail m) = Memᴰ.tail (mem_without x z l r n m)

  members_without :
      (x : A) (l r zs : List A)
      → All (λ z. z ≢ x) zs
      → All (λ z. Memᴰ z (l ++ x ∷ r)) zs
      → All (λ z. Memᴰ z (l ++ r)) zs
  members_without x l r [] n h = tt
  members_without x l r (z ∷ zs) n h =
      (mem_without x z l r n.0 h.0, members_without x l r zs n.1 h.1)

  -- Different members of a list are no more than the list is long.
  pub length-le-of_mem :
      (xs ys : List A) → Distinct xs → All (λ x. Memᴰ x ys) xs → length xs ≤ length ys
  length-le-of_mem [] ys d h = omega arith
  length-le-of_mem (x ∷ xs) ys d h =
      let (l, r, e) = mem_split x ys h.0 in
      let shorter =
        length-le-of_mem xs (l ++ r) d.1
          (members_without x l r xs d.0 (subst (λ zs. All (λ z. Memᴰ z zs) xs) e h.1)) in
      omega (arith, shorter, length-append l r, length-append l (x ∷ r), ap length e)

  pub Distinct-snoc :
      (xs : List A) (y : A) → Distinct xs → All (λ x. y ≢ x) xs → Distinct (xs ++ y ∷ [])
  Distinct-snoc [] y d h = (tt, tt)
  Distinct-snoc (x ∷ xs) y d h =
      (All-append (λ z. z ≢ x) xs (y ∷ []) d.0 (h.0, tt), Distinct-snoc xs y d.1 h.1)
