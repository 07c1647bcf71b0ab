-- ===== src/Config/Stack.antt =====
-- `config_stack` of `NginxConfigParser::Parse` in src/config_parser.cc: a stack of pointers into the tree
-- that is being built.
--
-- The list has the top first. Each pointer above another points to the child block of the back
-- statement of the one below, so an entry holds its own block, and the block of the entry above is
-- put into it when that is popped. `none` is undefined behaviour: `top` or `pop` of an empty stack,
-- or `back` of an empty vector.
use mathlib.Core.Option
use ucla_cs130_googolplex.Prelude.{
  Bytes, codes, equal, if◌then◌else◌, List, [], ◌∷◌, Option, none, some,
}
use ucla_cs130_googolplex.Std.Vector.{Vector, nothing, push_back}
use ucla_cs130_googolplex.Config.Tree.{NginxConfig, empty, emplace, statement, null, block}

-- `config_stack.top()->statements_.emplace_back(new NginxConfigStatement)`
unfoldable pub emplace_back : List NginxConfig → Option (List NginxConfig)
emplace_back [] = none
emplace_back (top ∷ below) = some (emplace top (statement nothing null) ∷ below)

-- `config_stack.top()->statements_.back().get()->tokens_`
unfoldable pub back_tokens : List NginxConfig → Option (Vector Bytes)
back_tokens [] = none
back_tokens (empty ∷ _) = none
back_tokens (emplace _ (statement tokens _) ∷ _) = some tokens

-- `config_stack.top()->statements_.back().get()->tokens_.push_back(token)`
unfoldable pub push_token : Bytes → List NginxConfig → Option (List NginxConfig)
push_token token [] = none
push_token token (empty ∷ _) = none
push_token token (emplace c (statement tokens child) ∷ below) =
    some (emplace c (statement (push_back tokens token) child) ∷ below)

-- `config_stack.top()->statements_.back().get()->child_block_.reset(new_config)` and the push of
-- `new_config`. A block that the statement had is destroyed.
unfoldable pub open_block : List NginxConfig → Option (List NginxConfig)
open_block [] = none
open_block (empty ∷ _) = none
open_block (emplace c (statement tokens _) ∷ below) =
    some (empty ∷ emplace c (statement tokens (block empty)) ∷ below)

-- `top` as the child block of the back statement of `parent`.
unfoldable pub plug : NginxConfig → NginxConfig → NginxConfig
plug top empty = empty
plug top (emplace c (statement tokens _)) = emplace c (statement tokens (block top))

-- The whole tree, as the caller's `config` shows it while the stack is not empty.
unfoldable pub close : NginxConfig → List NginxConfig → NginxConfig
close top [] = top
close top (parent ∷ below) = close (plug top parent) below

-- Where the three last tokens are `location`, a path and a handler type, the last two of them; two
-- empty strings otherwise.
unfoldable pub binding : Vector Bytes → Bytes × Bytes
binding (push_back (push_back (push_back _ word) location) handler_type) =
    if equal word (codes "location") then (location, handler_type) else ([], [])
binding _ = ([], [])

-- The binding of the statement that the top block belongs to: the top is popped, the parent's back
-- statement is read, and the top is pushed again.
unfoldable pub parent_binding : List NginxConfig → Option (Bytes × Bytes)
unfolding binding back_tokens
parent_binding [] = none
parent_binding (_ ∷ []) = some ([], [])
parent_binding (_ ∷ below) = Option.map binding (back_tokens below)
