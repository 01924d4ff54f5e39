-- ===== src/Moderation/Match.antt =====
-- services/moderation-service/internal/mod/match.go: the Aho–Corasick automaton over a policy's
-- restricted words. A node's index is its position; `next` is an association list of runes.
mod Examples
use dabet.Prelude.{
  ◌≡◌, leb, ℕ, zero, suc, ◌+◌, ◌-◌, Runes, Bool, true, false, not, ◌&&◌, ◌||◌, Option, none, some,
  List, [], ◌∷◌, ◌++◌, length, get_elem?, set, any, map, ◌==◌, if◌then◌else◌,
}
use dabet.Prelude.Dict.{lookup, insert, nat_eq}
use dabet.Moderation.Normalize.{Unicode, normalize}

pub record Node : Type 0 where
  pub next : List (ℕ × ℕ)
  pub fail : ℕ
  pub outputs : List ℕ  -- rune lengths of the patterns that end here

pub record Matcher : Type 0 where
  pub nodes : List Node

abbrev pub new_node : Node
new_node = record { next = []; fail = 0; outputs = [] }

-- No index of the automaton is out of range; a missing node would be the empty one.
abbrev pub node_at : List Node → ℕ → Node
node_at nodes i = elim (get_elem? nodes i) [ none ↦ new_node | some n ↦ n ]

-- One rune of a pattern: the child, made if it is not there.
unfoldable pub child : List Node → ℕ → ℕ → List Node × ℕ
child nodes cur r = elim (lookup r (node_at nodes cur).next) [
  | some nxt ↦ (nodes, nxt)
  | none ↦
      let nxt = length nodes in
      let n = node_at nodes cur in
      (set (nodes ++ new_node ∷ []) cur (record n { next = insert r nxt n.next }), nxt)
]

unfoldable pub walk : List Node → ℕ → Runes → List Node × ℕ
unfolding child
walk nodes cur [] = (nodes, cur)
walk nodes cur (r ∷ rs) = let (nodes', nxt) = child nodes cur r in walk nodes' nxt rs

-- A pattern that is empty once it is normalised is dropped.
unfoldable pub add_pattern : List Node → Runes → List Node
unfolding walk
add_pattern nodes [] = nodes
add_pattern nodes (r ∷ rs) =
    let (nodes', cur) = walk nodes 0 (r ∷ rs) in
    let n = node_at nodes' cur in
    set nodes' cur (record n { outputs = n.outputs ++ length (r ∷ rs) ∷ [] })

unfoldable pub add_patterns : Unicode → List Node → List Runes → List Node
unfolding add_pattern normalize
add_patterns u nodes [] = nodes
add_patterns u nodes (p ∷ ps) = add_patterns u (add_pattern nodes (normalize u p)) ps

-- `for f != 0 { … f = fail }`: a fail link goes to a shorter text, so as many rounds as there are
-- nodes reach the end.
unfoldable pub follow : ℕ → List Node → ℕ → ℕ → ℕ
follow zero nodes r f = f
follow (suc fuel) nodes r f =
    let rest = follow fuel nodes r (node_at nodes f).fail in
    if f == 0 then f else elim (lookup r (node_at nodes f).next) [ some _ ↦ f | none ↦ rest ]

-- The fail link of the child `v` of a node whose own link is `f`, and the outputs that it adds.
unfoldable pub link : List Node → ℕ → ℕ → ℕ → List Node
unfolding follow
link nodes f r v =
    let f' = follow (length nodes) nodes r f in
    let target : ℕ = elim (lookup r (node_at nodes f').next) [
      | some w ↦ if not (w == v) then w else 0
      | none ↦ 0
    ] in
    let n = node_at nodes v in
    set nodes v (record n { fail = target; outputs = n.outputs ++ (node_at nodes target).outputs })

unfoldable pub link_children : List Node → ℕ → List (ℕ × ℕ) → List Node
unfolding link
link_children nodes f [] = nodes
link_children nodes f ((r, v) ∷ next) = link_children (link nodes f r v) f next

-- The breadth-first loop; every node but the root is queued once, so the number of nodes is enough
-- fuel.
unfoldable pub link_queue : ℕ → List Node → List ℕ → List Node
unfolding link_children
link_queue zero nodes queue = nodes
link_queue (suc fuel) nodes [] = nodes
link_queue (suc fuel) nodes (v ∷ queue) =
    let n = node_at nodes v in
    link_queue fuel (link_children nodes n.fail n.next) (queue ++ map (λ e. e.1) n.next)

unfoldable pub new_matcher : Unicode → List Runes → Matcher
unfolding add_patterns link_queue
new_matcher u patterns =
    let nodes = add_patterns u (new_node ∷ []) patterns in
    record { nodes = link_queue (length nodes) nodes (map (λ e. e.1) (node_at nodes 0).next) }

unfoldable pub is_token_rune : Unicode → ℕ → Bool
is_token_rune u r = u.is_letter r || u.is_digit r

-- The boundary tests, on the position before and after a match.
abbrev pub is_boundary : Unicode → Option ℕ → Bool
is_boundary u none = true
is_boundary u (some r) = not (is_token_rune u r)

unfoldable pub token_boundary_before : Unicode → Runes → ℕ → Bool
unfolding is_token_rune
token_boundary_before u runes zero = true
token_boundary_before u runes (suc before) = is_boundary u (get_elem? runes before)

unfoldable pub token_boundary_after : Unicode → Runes → ℕ → Bool
unfolding is_token_rune
token_boundary_after u runes last = is_boundary u (get_elem? runes (suc last))

-- The state after a rune.
unfoldable pub advance : List Node → ℕ → ℕ → ℕ
unfolding follow
advance nodes state r =
    let state' = follow (length nodes) nodes r state in
    elim (lookup r (node_at nodes state').next) [ some nxt ↦ nxt | none ↦ state' ]

-- The loop of `Match`, over the runes from position `i` on.
unfoldable pub match_loop : Unicode → List Node → Runes → ℕ → ℕ → Runes → Bool
unfolding advance token_boundary_before token_boundary_after
match_loop u nodes runes state i [] = false
match_loop u nodes runes state i (r ∷ rest) =
    let state' = advance nodes state r in
    any (λ plen. token_boundary_before u runes (suc i - plen) && token_boundary_after u runes i)
      (node_at nodes state').outputs
    || match_loop u nodes runes state' (suc i) rest

unfoldable pub match_runes : Unicode → Matcher → Runes → Bool
unfolding match_loop
match_runes u m normalized = match_loop u m.nodes normalized 0 0 normalized
