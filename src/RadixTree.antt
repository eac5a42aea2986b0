-- ===== src/RadixTree.antt =====
-- core/router/radix_tree.go: the prefix tree of the HTTP router. Paths are lists of bytes, and a
-- child's key, `string(path[0])`, is its first byte.
pub mod Shadow
mod Tests
use muxcore.Common.{
  ℕ, suc, String, Bool, true, false, Option, none, some, List, [], ◌∷◌, ◌++◌, ◌==◌, if◌then◌else◌,
  length, take, drop,
}

mutual
  pub data RadixNode : Type 0 where
    node : List ℕ → Children → Bool → List String → RadixNode

  -- `map[string]*RadixNode`
  pub data Children : Type 0 where
    none_left : Children
    child : ℕ → RadixNode → Children → Children

-- `panic` is an index out of range.
pub data Outcome : Type 0 where
  done : RadixNode → Outcome
  panic : Outcome

pub new_radix_tree : RadixNode
new_radix_tree = node [] none_left false []

pub get_child : ℕ → Children → Option RadixNode
get_child k none_left = none
get_child k (child j n cs) = if j == k then some n else get_child k cs

pub put_child : ℕ → RadixNode → Children → Children
put_child k n none_left = child k n none_left
put_child k n (child j o cs) = if j == k then child j n cs else child j o (put_child k n cs)

-- The loop that both Insert and Search run over the two strings.
pub common_prefix_len : List ℕ → List ℕ → ℕ
common_prefix_len [] path = 0
common_prefix_len (a ∷ rest) [] = 0
common_prefix_len (a ∷ rest) (b ∷ bs) = if a == b then suc (common_prefix_len rest bs) else 0

abbrev is_empty {ℓ} : {A : Type ℓ} → List A → Bool
is_empty [] = true
is_empty (x ∷ xs) = false

abbrev pub leaf : List ℕ → List String → RadixNode
leaf path ids = node path none_left true ids

-- `children[string(path[0])] = &RadixNode{prefix: path, ...}`
pub add_leaf : List ℕ → List String → Children → Children
unfolding put_child
add_leaf [] ids cs = cs
add_leaf (b ∷ bs) ids cs = put_child b (leaf (b ∷ bs) ids) cs

-- The split: `old` is the rest of the prefix, `new` the rest of the path. The first byte of the
-- new node's prefix is read also where that prefix is empty.
pub split_node : List ℕ → List ℕ → List ℕ → Children → Bool → List String → List String → Outcome
split_node common (o ∷ old) (n ∷ new) cs is_leaf ids new_ids = done (
    node common
      (child o (node (o ∷ old) cs is_leaf ids) (child n (leaf (n ∷ new) new_ids) none_left)) false
      [])
split_node common _ _ cs is_leaf ids new_ids = panic

abbrev with_children : List ℕ → Bool → List String → Option Children → Outcome
with_children prefix is_leaf ids none = panic
with_children prefix is_leaf ids (some cs) = done (node prefix cs is_leaf ids)

abbrev into_child : ℕ → RadixNode → Children → Outcome → Option Children
into_child k old rest (done n) = some (child k n rest)
into_child k old rest panic = none

abbrev keep_child : ℕ → RadixNode → Option Children → Option Children
keep_child k n (some cs) = some (child k n cs)
keep_child k n none = none

-- The loop of Insert at the node `current`. Go changes the nodes in place and looks for the parent
-- of a node that it has split; here a call returns what the parent stores under the same key.
unfoldable mutual
  unfolding common_prefix_len split_node add_leaf

  pub insert_node : RadixNode → List ℕ → List String → Outcome
  insert_node (node prefix cs is_leaf ids) path new_ids =
      let n = common_prefix_len prefix path in
      let below = insert_child cs (drop n path) new_ids in
      if n == 0
      then done (node prefix (add_leaf path new_ids cs) is_leaf ids)
      else if n == length prefix
      then if is_empty (drop n path)
        then done (node prefix cs true new_ids)
        else with_children prefix is_leaf ids below
      else split_node (take n prefix) (drop n prefix) (drop n path) cs is_leaf ids new_ids

  pub insert_child : Children → List ℕ → List String → Option Children
  insert_child none_left rest new_ids = some (add_leaf rest new_ids none_left)
  insert_child (child k n cs) [] new_ids = some (child k n cs)
  insert_child (child k n cs) (b ∷ bs) new_ids =
      let here = insert_node n (b ∷ bs) new_ids in
      let there = insert_child cs (b ∷ bs) new_ids in
      if k == b then into_child k n cs here else keep_child k n there

-- Insert.
unfoldable pub insert : RadixNode → List ℕ → List String → Outcome
unfolding insert_node
insert t [] ids = done t
insert t (b ∷ bs) ids = insert_node t (b ∷ bs) ids

-- The loop of Search at the node `current`, with the best match so far; [] is Go's nil.
unfoldable mutual
  unfolding common_prefix_len

  pub search_node : RadixNode → List ℕ → List String → List String
  search_node (node prefix cs is_leaf ids) path best =
      let n = common_prefix_len prefix path in
      let best' = if is_leaf then ids else best in
      let below = search_child cs (drop n path) best' in
      if n == 0
      then best
      else if n == length prefix
      then if is_empty (drop n path) then best' else below
      else if n == length path
      then best
      else []

  pub search_child : Children → List ℕ → List String → List String
  search_child none_left rest best = best
  search_child (child k n cs) [] best = best
  search_child (child k n cs) (b ∷ bs) best =
      let here = search_node n (b ∷ bs) best in
      let there = search_child cs (b ∷ bs) best in if k == b then here else there

-- Search.
pub search_path : RadixNode → List ℕ → List String
unfolding search_node
search_path t [] = []
search_path t (b ∷ bs) = search_node t (b ∷ bs) []

-- Delete, which is a stub.
pub delete_path : RadixNode → List ℕ → RadixNode × Bool
delete_path t path = (t, false)

-- collectPaths, in the order of the children here; GetAllPaths begins at the root with "".
unfoldable mutual
  pub collect_node : RadixNode → List ℕ → List (List ℕ)
  collect_node (node prefix cs is_leaf ids) current =
      (if is_leaf then (current ++ prefix) ∷ [] else []) ++ collect_children cs (current ++ prefix)

  pub collect_children : Children → List ℕ → List (List ℕ)
  collect_children none_left current = []
  collect_children (child k n cs) current = collect_node n current ++ collect_children cs current

pub get_all_paths : RadixNode → List (List ℕ)
unfolding collect_node
get_all_paths t = collect_node t []
