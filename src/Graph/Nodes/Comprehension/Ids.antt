-- ===== src/Graph/Nodes/Comprehension/Ids.antt =====
-- `_assign_id` of app/graph/nodes/comprehension.py.
use stack_migrate.Base.{
  ℕ, zero, suc, ◌+◌, List, ◌++◌, Text, codes, contains, show, length, if◌then◌else◌,
}
use stack_migrate.Core.Slug.{slugify}

-- `f"{base}_{suffix}"`
unfoldable pub suffixed : Text → ℕ → Text
suffixed base suffix = base ++ codes "_" ++ show suffix

-- The `while` loop, with fuel.
unfoldable pub next_free : ℕ → List Text → Text → Text → ℕ → Text
next_free zero used base candidate suffix = candidate
next_free (suc fuel) used base candidate suffix =
    let later = next_free fuel used base (suffixed base suffix) (suffix + 1) in
    if contains candidate used then later else candidate

-- One round more than there are used ids is enough.
unfoldable pub assign_id : Text → Text → List Text → Text
assign_id kind name used =
    let base = kind ++ codes "::" ++ slugify name in next_free (length used) used base base 2
