-- ===== src/Gcss.antt =====
-- The tree of settings of common/gcss/gcss_item.cpp and .h: nodes with attributes and nodes below
-- them, in a multimap by key. A tree is a value: mAncestor, which leads back to the node above, is
-- not kept. Strings are lists of characters.
pub mod Copy
pub mod Values
pub mod Paths
pub mod Strings
pub mod Enumerate
use mathlib.Core.Option
use hardware_rockchip_camera.Base.{
  ℕ, zero, suc, ◌+◌, Bool, true, false, not, ◌&&◌, ◌||◌, List, [], ◌∷◌, ◌++◌, Option, none, some,
  ◌==◌, ltb, leb, if◌then◌else◌,
}
use hardware_rockchip_camera.Base.Signed.{ℤ, eqb_ℤ}

-- css_err_t, without css_err_none.
pub data CssErr : Type 0 where
  err_general err_argument err_noentry err_full err_end : CssErr

-- A value with css_err_none, or another code.
pub data Got {ℓ} (A : Type ℓ) : Type ℓ where
  got : A → Got A
  failed : CssErr → Got A

-- The items of a node stand in the order of the multimap.
mutual
  pub data GraphConfigItem : Type 0 where
    int_attribute : ℤ → GraphConfigItem
    str_attribute : List ℕ → GraphConfigItem
    node : Items → GraphConfigItem

  pub data Items : Type 0 where
    nil : Items
    cons : ℕ → GraphConfigItem → Items → Items

-- multimap::insert puts an item behind those of the same key.
unfoldable pub insert_item : ℕ → GraphConfigItem → Items → Items
insert_item k x nil = cons k x nil
insert_item k x (cons j y rest) =
    let later = insert_item k x rest in if ltb k j then cons k x (cons j y rest) else cons j y later

-- Of items with one key, multimap::find answers the first.
unfoldable pub find_item : ℕ → Items → Option GraphConfigItem
find_item k nil = none
find_item k (cons j y rest) = let later = find_item k rest in if j == k then some y else later

unfoldable pub has_item : ℕ → Items → Bool
has_item k g = elim (find_item k g) [ none ↦ false | some x ↦ true ]

-- GraphConfigItem::getValue, and its overrides in the attributes.
unfoldable pub int_value : GraphConfigItem → Got ℤ
int_value (int_attribute n) = got n
int_value (str_attribute s) = failed err_noentry
int_value (node g) = failed err_noentry

unfoldable pub str_value : GraphConfigItem → Got (List ℕ)
str_value (int_attribute n) = failed err_noentry
str_value (str_attribute s) = got s
str_value (node g) = failed err_noentry

-- getAttrValue, and with it getValue of one key, by the getter of the value's type.
unfoldable pub get_attr_value {ℓ} : {A : Type ℓ} → (GraphConfigItem → Got A) → ℕ → Items → Got A
get_attr_value value k g = elim (find_item k g) [ none ↦ failed err_general | some x ↦ value x ]

node_of : GraphConfigItem → Got Items
node_of (int_attribute n) = failed err_argument
node_of (str_attribute s) = failed err_argument
node_of (node g) = got g

unfoldable pub get_descendant : ℕ → Items → Got Items
unfolding node_of
get_descendant k g = elim (find_item k g) [ none ↦ failed err_general | some x ↦ node_of x ]

current_or : Items → Option Items → Items
current_or this none = this
current_or this (some g) = g

-- In the last round the parent is the answer, in case the key is that of an attribute.
parent_if_last : Option Items → List ℕ → Option Items
parent_if_last current [] = current
parent_if_last current (k ∷ ks) = none

-- The loop of getDescendant over the keys of an ItemUID, with gcn_current.
descend_from : Items → Option Items → List ℕ → Option Items
unfolding current_or parent_if_last
descend_from this current [] = current
descend_from this current (k ∷ ks) = elim (get_descendant k (current_or this current)) [
  | got g ↦ descend_from this (some g) ks
  | failed e ↦ parent_if_last current ks
]

unfoldable pub get_descendant_of_uid : List ℕ → Items → Option Items
unfolding descend_from
get_descendant_of_uid uid this = descend_from this none uid

last_key : ℕ → List ℕ → ℕ
last_key i [] = i
last_key i (n ∷ ns) = last_key n ns

-- getValue of an ItemUID with the first key `k`; the code reads the last key of an empty one.
unfoldable pub get_value_of_uid {ℓ} :
    {A : Type ℓ} → (GraphConfigItem → Got A) → ℕ → List ℕ → Items → Got A
unfolding last_key
get_value_of_uid value k [] this = get_attr_value value k this
get_value_of_uid value k (j ∷ js) this = elim (get_descendant_of_uid (k ∷ j ∷ js) this) [
  | none ↦ failed err_argument
  | some g ↦ get_attr_value value (last_key j js) g
]

-- addValue: the new items, or the code of a refusal.
add_item : GraphConfigItem → ℕ → Items → Got Items
add_item x k g = if has_item k g then failed err_full else got (insert_item k x g)

unfoldable pub add_int_value : ℕ → ℤ → Items → Got Items
unfolding add_item
add_int_value k n g = add_item (int_attribute n) k g

unfoldable pub add_str_value : ℕ → List ℕ → Items → Got Items
unfolding add_item
add_str_value k s g = add_item (str_attribute s) k g

unfoldable mutual
  pub copy_item : GraphConfigItem → GraphConfigItem
  copy_item (int_attribute n) = int_attribute n
  copy_item (str_attribute s) = str_attribute s
  copy_item (node g) = node (copy_items nil g)

  -- The loop of GraphConfigNode::copy, with the items of the copy.
  pub copy_items : Items → Items → Items
  copy_items ret nil = ret
  copy_items ret (cons k x rest) = copy_items (insert_item k (copy_item x) ret) rest

-- The parts of a string between its colons.
prepend : ℕ → List (List ℕ) → List (List ℕ)
prepend c [] = (c ∷ []) ∷ []
prepend c (p ∷ ps) = (c ∷ p) ∷ ps

abbrev pub colon : ℕ
colon = 58

unfoldable pub split_string : List ℕ → List (List ℕ)
unfolding prepend
split_string [] = [] ∷ []
split_string (c ∷ cs) =
    let rest = split_string cs in if c == colon then [] ∷ rest else prepend c rest

-- The loop of getDescendantByString(str, retNode); the last part is looked up in the last round.
-- `str2key` is that of the key map.
descend_parts : (List ℕ → ℕ) → List (List ℕ) → Items → Got Items
descend_parts str2key [] g = failed err_argument
descend_parts str2key (p ∷ []) g = get_descendant (str2key p) g
descend_parts str2key (p ∷ q ∷ ps) g = elim (get_descendant (str2key p) g) [
  | got found ↦ descend_parts str2key (q ∷ ps) found
  | failed e ↦ failed e
]

unfoldable pub get_descendant_by_string : (List ℕ → ℕ) → List ℕ → Items → Got Items
unfolding descend_parts
get_descendant_by_string str2key str g = descend_parts str2key (split_string str) g

node_or_null : Got Items → Option Items
node_or_null (got g) = some g
node_or_null (failed e) = none

-- The loop of getDescendantByString(str), with its `node`.
find_parts : (List ℕ → ℕ) → Items → Option Items → List (List ℕ) → Option Items
unfolding node_or_null current_or
find_parts str2key this current [] = current
find_parts str2key this current (p ∷ ps) =
    elim (node_or_null (get_descendant (str2key p) (current_or this current))) [
      | none ↦ none
      | some g ↦ find_parts str2key this (some g) ps
    ]

unfoldable pub find_by_string : (List ℕ → ℕ) → List ℕ → Items → Option Items
unfolding find_parts
find_by_string str2key str this = find_parts str2key this none (split_string str)

unfoldable pub descendant_count : Items → ℕ
descendant_count nil = 0
descendant_count (cons k x rest) = suc (descendant_count rest)

-- The node under a key, for an item that stands under `j`.
named_node : ℕ → ℕ → GraphConfigItem → Option Items
named_node k j (int_attribute n) = none
named_node k j (str_attribute s) = none
named_node k j (node g) = if j == k then some g else none

-- std::advance from the first item; beyond the end it is undefined.
advance : ℕ → Items → Option Items
advance zero g = some g
advance (suc n) nil = none
advance (suc n) (cons k x rest) = advance n rest

-- The loop of iterateDescendantByIndex(attribute, index).
iterate_from : ℕ → Items → ℕ → Option Items × ℕ
unfolding named_node
iterate_from k nil index = (none, index)
iterate_from k (cons j x rest) index = elim (named_node k j x) [
  | none ↦ iterate_from k rest (suc index)
  | some g ↦ (some g, index)
]

unfoldable pub iterate_descendant_by_index : ℕ → ℕ → Items → Option (Option Items × ℕ)
unfolding advance iterate_from
iterate_descendant_by_index k index g = elim (advance index g) [
  | none ↦ none
  | some rest ↦ some (iterate_from k rest index)
]

push_node : Option Items → List Items → List Items
push_node none found = found
push_node (some g) found = g ∷ found

node_round : (ℕ → Option (List Items)) → Option (Option Items × ℕ) → Option (List Items)
unfolding push_node
node_round later none = none
node_round later (some (found, i)) = Option.map (push_node found) (later (suc i))

-- The loop by which parseFormats of gcss_formats.cpp goes through the nodes under a key, on fuel.
unfoldable pub nodes_by_index : ℕ → Items → ℕ → ℕ → Option (List Items)
unfolding node_round
nodes_by_index k g zero i = none
nodes_by_index k g (suc fuel) i = elim (leb i (descendant_count g)) [
  | true ↦ node_round (nodes_by_index k g fuel) (iterate_descendant_by_index k i g)
  | false ↦ some []
]

-- getAllDescendants; the key 0 stands for all.
unfoldable pub get_all_descendants : ℕ → Items → List Items
get_all_descendants k nil = []
get_all_descendants k (cons j (int_attribute n) rest) = get_all_descendants k rest
get_all_descendants k (cons j (str_attribute s) rest) = get_all_descendants k rest
get_all_descendants k (cons j (node g) rest) =
    let found = get_all_descendants k rest in if k == 0 || j == k then g ∷ found else found
