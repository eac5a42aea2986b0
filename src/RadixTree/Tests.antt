-- ===== src/RadixTree/Tests.antt =====
-- Runs of core/router's prefix tree: the paths /a and /b share their first byte.
use muxcore.Common.{ℕ, String, ◌≡◌, refl, false, none, List, [], ◌∷◌}
use muxcore.RadixTree.{
  RadixNode, Children, node, none_left, child, done, panic, new_radix_tree, get_child, leaf,
  insert_node, insert, search_path, get_all_paths,
}
use muxcore.RadixTree.Shadow.{insert_all, last_leaf, insert_all-last, search-nothing}

abbrev calls : List (List ℕ × List String)
calls = (47 ∷ 97 ∷ [], "a" ∷ []) ∷ (47 ∷ 98 ∷ [], "b" ∷ []) ∷ []

abbrev built : RadixNode
built = node [] (child 47 (leaf (47 ∷ 98 ∷ []) ("b" ∷ [])) none_left) false []

calls_build : insert_all new_radix_tree calls ≡ done built
unfolding insert_all insert new_radix_tree
calls_build = refl

built_paths : get_all_paths built ≡ (47 ∷ 98 ∷ []) ∷ []
unfolding get_all_paths
built_paths = refl

-- A split below the root, as it would be if the root were passed.
split_below :
    insert_node (leaf (97 ∷ 98 ∷ []) []) (97 ∷ 99 ∷ []) []
    ≡ done (
        node
          (97 ∷ [])
          (child 98 (leaf (98 ∷ []) []) (child 99 (leaf (99 ∷ []) []) none_left))
          false
          [])
unfolding insert_node
split_below = refl

search-nothing_example :
    (t : RadixNode) × (insert_all new_radix_tree calls ≡ done t)
    × (search_path t (47 ∷ 98 ∷ []) ≡ [])
search-nothing_example = search-nothing calls (47 ∷ 98 ∷ [])

insert_all-last_example :
    (cs : Children) × (insert_all new_radix_tree calls ≡ done (node [] cs false []))
    × ((b : ℕ) → get_child b cs ≡ last_leaf b calls none)
insert_all-last_example = insert_all-last calls

-- A path that is the start of a stored one, below the root.
start_below : insert_node (leaf (97 ∷ 98 ∷ []) []) (97 ∷ []) [] ≡ panic
unfolding insert_node
start_below = refl
