-- ===== src/Config/Tree.antt =====
-- The parsed configuration: `NginxConfig`, `NginxConfigStatement` and their `ToString`.
use ucla_cs130_googolplex.Prelude.{ℕ, zero, suc, Bytes, codes, [], ◌++◌}
use ucla_cs130_googolplex.Std.Vector.{Vector, nothing, push_back}

-- `statements_` is a vector from its back, `child_block_` a pointer that may be null.
mutual
  pub data NginxConfig : Type 0 where
    empty : NginxConfig
    emplace : NginxConfig → NginxConfigStatement → NginxConfig

  pub data NginxConfigStatement : Type 0 where
    statement : Vector Bytes → ChildBlock → NginxConfigStatement

  pub data ChildBlock : Type 0 where
    null : ChildBlock
    block : NginxConfig → ChildBlock

unfoldable pub indent : ℕ → Bytes
indent zero = []
indent (suc depth) = codes "  " ++ indent depth

-- The tokens with a space between two.
unfoldable pub joined : Vector Bytes → Bytes
joined nothing = []
joined (push_back nothing t) = t
joined (push_back ts t) = joined ts ++ codes " " ++ t

unfoldable mutual
  unfolding indent joined

  pub to_string : NginxConfig → ℕ → Bytes
  to_string empty depth = []
  to_string (emplace c s) depth = to_string c depth ++ statement_to_string s depth

  pub statement_to_string : NginxConfigStatement → ℕ → Bytes
  statement_to_string (statement ts child) depth =
      indent depth ++ (joined ts ++ (child_to_string child depth ++ codes "\n"))

  pub child_to_string : ChildBlock → ℕ → Bytes
  child_to_string null depth = codes ";"
  child_to_string (block c) depth =
      codes " {\n" ++ (to_string c (suc depth) ++ (indent depth ++ codes "}"))
