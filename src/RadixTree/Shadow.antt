-- ===== src/RadixTree/Shadow.antt =====
-- core/router/radix_tree.go: what Insert and Search do with the empty prefix of the root.
use muxcore.Common.{
  ℕ, String, ◌≡◌, refl, ap, ◌∙◌, false, Option, none, some, List, [], ◌∷◌, arith, ◌==◌,
  if◌then◌else◌,
}
use muxcore.RadixTree.{
  RadixNode, node, Children, none_left, child, Outcome, done, panic, new_radix_tree, get_child,
  put_child, leaf, insert, search_path, add_leaf,
}

abbrev pub and_then : Outcome → (RadixNode → Outcome) → Outcome
and_then (done t) f = f t
and_then panic f = panic

-- A sequence of calls of Insert.
unfoldable pub insert_all : RadixNode → List (List ℕ × List String) → Outcome
insert_all t [] = done t
insert_all t ((path, ids) ∷ calls) = and_then (insert t path ids) λ t'. insert_all t' calls

-- The leaf of the last call whose path begins with the byte b; before the calls it was `old`.
pub last_leaf : ℕ → List (List ℕ × List String) → Option RadixNode → Option RadixNode
last_leaf b [] old = old
last_leaf b (([], ids) ∷ calls) old = last_leaf b calls old
last_leaf b ((c ∷ path, ids) ∷ calls) old =
    last_leaf b calls (if c == b then some (leaf (c ∷ path) ids) else old)

get_child-put_child :
    (k j : ℕ) (n : RadixNode) (cs : Children)
    → get_child j (put_child k n cs) ≡ (if k == j then some n else get_child j cs)
unfolding get_child put_child
get_child-put_child k j n none_left = refl
get_child-put_child k j n (child i o cs) = ground (arith, get_child-put_child k j n cs)

abbrev root : Children → RadixNode
root cs = node [] cs false []

insert_all-root :
    (calls : List (List ℕ × List String)) (cs : Children)
    → (cs' : Children) × (insert_all (root cs) calls ≡ done (root cs'))
      × ((b : ℕ) → get_child b cs' ≡ last_leaf b calls (get_child b cs))
unfolding insert_all last_leaf insert add_leaf
insert_all-root [] cs = (cs, refl, λ b. refl)
insert_all-root (([], ids) ∷ calls) cs = insert_all-root calls cs
insert_all-root ((c ∷ path, ids) ∷ calls) cs =
    let cs1 = put_child c (leaf (c ∷ path) ids) cs in
    let (cs', built, reads) = insert_all-root calls cs1 in
    (
      cs',
      built,
      λ b. reads b ∙ ap (last_leaf b calls) (get_child-put_child c b (leaf (c ∷ path) ids) cs),
    )

-- Whatever calls of Insert build the tree, they all succeed, the root keeps its empty prefix, and its child
-- for a byte is the leaf of the last path that begins with this byte, if one does.
pub insert_all-last :
    (calls : List (List ℕ × List String))
    → (cs : Children) × (insert_all new_radix_tree calls ≡ done (node [] cs false []))
      × ((b : ℕ) → get_child b cs ≡ last_leaf b calls none)
unfolding new_radix_tree get_child
insert_all-last calls = insert_all-root calls none_left

search-root : (cs : Children) (path : List ℕ) → search_path (root cs) path ≡ []
unfolding search_path
search-root cs [] = refl
search-root cs (b ∷ bs) = refl

-- Whatever calls of Insert build the tree, Search finds nothing in it, for any path.
pub search-nothing :
    (calls : List (List ℕ × List String)) (path : List ℕ)
    → (t : RadixNode) × (insert_all new_radix_tree calls ≡ done t) × (search_path t path ≡ [])
search-nothing calls path =
    let (cs, built, _) = insert_all-last calls in (root cs, built, search-root cs path)
