-- ===== src/Gcss/Enumerate.antt =====
-- Going through the nodes of a tree by index (common/gcss/gcss_item.cpp, gcss_formats.cpp).
use mathlib.Core.Option
use hardware_rockchip_camera.Base.{
  sym, ap, ◌∙◌, ℕ, zero, suc, ◌+◌, ◌≤◌, ◌<◌, ◌≡◌, ◌≢◌, refl, inl, inr, true, false, [], none, some,
  ◌==◌, leb, Bool-cases, Option-cases, ne-==, arith,
}
use hardware_rockchip_camera.Gcss.{
  GraphConfigItem, int_attribute, str_attribute, node, Items, nil, cons, descendant_count,
  named_node, advance, iterate_from, iterate_descendant_by_index, node_round, push_node,
  nodes_by_index, get_all_descendants,
}

leb-true : (a b : ℕ) → a ≤ b → leb a b ≡ true
leb-true a b h = ground arith

leb-false : (a b : ℕ) → b < a → leb a b ≡ false
leb-false a b h = ground arith

advance-suc :
    (i : ℕ) (g : Items) (k : ℕ) (x : GraphConfigItem) (rest : Items)
    → advance i g ≡ some (cons k x rest)
    → advance (suc i) g ≡ some rest
unfolding advance
advance-suc zero nil k x rest e = absurd (cc)
advance-suc zero (cons j y later) k x rest e = let same : cons j y later ≡ cons k x rest = cc in cc
advance-suc (suc i) nil k x rest e = absurd (cc)
advance-suc (suc i) (cons j y later) k x rest e = advance-suc i later k x rest e

module _ (k : ℕ) (g : Items) where
  -- One round, from an index that is not behind the end.
  one_round :
      (i fuel : ℕ) (rest : Items)
      → advance i g ≡ some rest
      → i ≤ descendant_count g
      → nodes_by_index k g (suc fuel) i
        ≡ node_round (nodes_by_index k g fuel) (some (iterate_from k rest i))
  unfolding nodes_by_index iterate_descendant_by_index
  one_round i fuel rest at h =
      rw (leb-true i (descendant_count g) h, nodes_by_index, iterate_descendant_by_index, at) refl

  ended : (i fuel : ℕ) → descendant_count g < i → nodes_by_index k g (suc fuel) i ≡ some []
  unfolding nodes_by_index
  ended i fuel h = rw (leb-false i (descendant_count g) h, nodes_by_index) refl

  -- The item at the index is no node under the key.
  skip_one :
      (i fuel j : ℕ) (x : GraphConfigItem) (rest : Items)
      → advance i g ≡ some (cons j x rest)
      → i + descendant_count (cons j x rest) ≡ descendant_count g
      → named_node k j x ≡ none
      → nodes_by_index k g (suc fuel) i ≡ nodes_by_index k g (suc fuel) (suc i)
  unfolding iterate_from descendant_count
  skip_one i fuel j x rest at count other =
      one_round i fuel (cons j x rest) at (omega arith)
      ∙ rw (other, iterate_from)
          (sym (one_round (suc i) fuel rest (advance-suc i g j x rest at) (omega arith)))

  -- The item at the index is the node `h` under the key.
  take_one :
      (i fuel j : ℕ) (x : GraphConfigItem) (rest h : Items)
      → advance i g ≡ some (cons j x rest)
      → i + descendant_count (cons j x rest) ≡ descendant_count g
      → named_node k j x ≡ some h
      → nodes_by_index k g (suc fuel) i
        ≡ Option.map (push_node (some h)) (nodes_by_index k g fuel (suc i))
  unfolding iterate_from descendant_count node_round
  take_one i fuel j x rest h at count this =
      one_round i fuel (cons j x rest) at (omega arith) ∙ rw (this, iterate_from) refl

get_all_descendants-cons :
    (k j : ℕ) (x : GraphConfigItem) (rest : Items)
    → k ≢ 0
    → get_all_descendants k (cons j x rest)
      ≡ push_node (named_node k j x) (get_all_descendants k rest)
unfolding get_all_descendants named_node push_node
get_all_descendants-cons k j (int_attribute n) rest named = refl
get_all_descendants-cons k j (str_attribute s) rest named = refl
get_all_descendants-cons k j (node g) rest named = elim (Bool-cases (j == k)) [
  | inl same ↦ rw (ne-== k 0 named, same) refl
  | inr other ↦ rw (ne-== k 0 named, other) refl
]

module _ (k : ℕ) (g : Items) (named : k ≢ 0) where
  go_through :
      (rest : Items) (i fuel : ℕ)
      → advance i g ≡ some rest
      → i + descendant_count rest ≡ descendant_count g
      → descendant_count rest + 1 < fuel
      → nodes_by_index k g fuel i ≡ some (get_all_descendants k rest)
  unfolding descendant_count push_node get_all_descendants iterate_from node_round
  go_through rest i zero at count enough = absurd (omega (arith, enough))
  go_through nil i (suc zero) at count enough = absurd (omega (arith, enough))
  go_through nil i (suc (suc fuel)) at count enough =
      one_round k g i (suc fuel) nil at (omega arith)
      ∙ ap (Option.map (push_node none)) (ended k g (suc i) fuel (omega arith))
  go_through (cons j x rest) i (suc fuel) at count enough =
      let at' = advance-suc i g j x rest at in
      elim (Option-cases (named_node k j x)) [
        | inl other ↦
            skip_one k g i fuel j x rest at count other
            ∙ go_through rest (suc i) (suc fuel) at' (omega arith) (omega arith)
            ∙ ap some (rw (get_all_descendants-cons k j x rest named, other) refl)
        | inr (h, this) ↦
            take_one k g i fuel j x rest h at count this
            ∙ ap (Option.map (push_node (some h)))
                (go_through rest (suc i) fuel at' (omega arith) (omega arith))
            ∙ ap some (rw (get_all_descendants-cons k j x rest named, this) refl)
      ]

-- Going through the nodes under a key by index, as parseFormats does, never moves an iterator behind the end and finds the nodes that getAllDescendants finds, in their order, within two rounds more than the node has items.
pub nodes_by_index-get_all_descendants :
    (k : ℕ) (g : Items) (fuel : ℕ)
    → k ≢ 0
    → descendant_count g + 1 < fuel
    → nodes_by_index k g fuel 0 ≡ some (get_all_descendants k g)
unfolding advance
nodes_by_index-get_all_descendants k g fuel named enough =
    go_through k g named g 0 fuel refl (omega arith) enough
