-- ===== src/State/Order.antt =====
-- The order in which parallel branches report their tasks.
use stack_migrate.Base.{
  ◌≡◌, ◌≢◌, refl, sym, ◌∙◌, ap, subst, ◌⊎◌, inl, inr, List, [], ◌∷◌, Option, none, some, Text,
  text_discrete, if_neg, All, Distinct, last_or, find, puts_of_Distinct, find-puts,
}
use stack_migrate.State.Tasks.{MigrationTask}
use stack_migrate.State.Graph.{merge_task_lists}
use stack_migrate.State.Merge.{
  ids, find_task, last_task_or, merge_task_lists-Distinct, find-merge_task_lists,
}

-- No task of the first list has an id of the second.
abbrev pub Apart : List MigrationTask → List MigrationTask → Type 0
Apart xs ys = All (λ x. All (λ y. y.id ≢ x.id) ys) xs

-- Where no id occurs twice, the last task of an id is the first.
last-find :
    (q : Text) (ts : List MigrationTask)
    → Distinct (ids ts)
    → last_task_or none q ts ≡ find_task q ts
unfolding find
last-find q ts d =
    sym (find-puts text_discrete (λ t. t.id) q ts [])
    ∙ ap (find_task q) (puts_of_Distinct text_discrete (λ t. t.id) ts d)

last_of_absent :
    (o : Option MigrationTask) (q : Text) (ts : List MigrationTask)
    → All (λ t. t.id ≢ q) ts
    → last_task_or o q ts ≡ o
unfolding last_or
last_of_absent o q [] h = refl
last_of_absent o q (t ∷ ts) h =
    rw (if_neg (text_discrete q t.id) (λ e. h.0 (sym e)) (some t) o) (last_of_absent o q ts h.1)

-- Of two lists apart, an id is missing from one.
one_lacks :
    (q : Text) (xs ys : List MigrationTask)
    → Apart xs ys
    → All (λ t. t.id ≢ q) xs ⊎ All (λ t. t.id ≢ q) ys
one_lacks q [] ys h = inl tt
one_lacks q (x ∷ xs) ys h = elim (text_discrete x.id q) [
  | yes p ↦ inr (subst (λ i. All (λ t. t.id ≢ i) ys) p h.0)
  | no p ↦ elim (one_lacks q xs ys h.1) [ inl a ↦ inl (p, a) | inr b ↦ inr b ]
]

find-merge_twice :
    (q : Text) (existing xs ys : List MigrationTask)
    → find_task q (merge_task_lists (merge_task_lists existing xs) ys)
      ≡ last_task_or (last_task_or (last_task_or none q existing) q xs) q ys
find-merge_twice q existing xs ys =
    find-merge_task_lists q (merge_task_lists existing xs) ys
    ∙ ap (λ o. last_task_or o q ys)
        (last-find q (merge_task_lists existing xs) (merge_task_lists-Distinct existing xs)
          ∙ find-merge_task_lists q existing xs)

-- Let two branches report tasks, with no id in both reports. Whichever report is merged first, every id
-- names the same task afterwards.
pub merge_task_lists_order :
    (q : Text) (existing xs ys : List MigrationTask)
    → Apart xs ys
    → find_task q (merge_task_lists (merge_task_lists existing xs) ys)
      ≡ find_task q (merge_task_lists (merge_task_lists existing ys) xs)
merge_task_lists_order q existing xs ys h =
    find-merge_twice q existing xs ys
    ∙ elim (one_lacks q xs ys h) [
      | inl a ↦
          ap (λ o. last_task_or o q ys) (last_of_absent (last_task_or none q existing) q xs a)
          ∙ sym (last_of_absent (last_task_or (last_task_or none q existing) q ys) q xs a)
      | inr b ↦
          last_of_absent (last_task_or (last_task_or none q existing) q xs) q ys b
          ∙ ap (λ o. last_task_or o q xs)
              (sym (last_of_absent (last_task_or none q existing) q ys b))
    ]
    ∙ sym (find-merge_twice q existing ys xs)
