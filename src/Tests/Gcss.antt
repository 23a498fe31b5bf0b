-- ===== src/Tests/Gcss.antt =====
-- A tree of settings on concrete input (common/gcss/gcss_item.cpp).
use mathlib.Core.Logic.{◌↔◌}
use hardware_rockchip_camera.Base.{
  ℕ, ◌+◌, ◌≡◌, refl, List, [], ◌∷◌, some, map, ◌==◌, if◌then◌else◌, ◌<◌, arith,
}
use hardware_rockchip_camera.Base.Signed.{pos}
use hardware_rockchip_camera.Gcss.{
  int_attribute, str_attribute, node, Items, nil, cons, got, failed, err_full, int_value, str_value,
  add_int_value, add_str_value, copy_item, get_value_of_uid, find_by_string,
  get_descendant_by_string, nodes_by_index, get_all_descendants, descendant_count, find_item,
  get_descendant, has_item, split_string, get_attr_value, get_descendant_of_uid,
}
use hardware_rockchip_camera.Gcss.Copy.{IsOrdered, AreOrdered, copy_item_same}
use hardware_rockchip_camera.Gcss.Values.{Added, value_read_back}
use hardware_rockchip_camera.Gcss.Paths.{
  value_at, LeadsToAttribute, EndsAtAttribute, get_value_of_uid-value_at,
}
use hardware_rockchip_camera.Gcss.Strings.{join, Below, strings_follow_keys}
use hardware_rockchip_camera.Gcss.Enumerate.{nodes_by_index-get_all_descendants}

abbrev plane : ℕ → Items
plane n = cons 4 (int_attribute (pos n)) nil

-- Two nodes under the key 7, and an attribute between.
abbrev format_node : Items
format_node =
    cons 3 (str_attribute (b'N' ∷ b'V' ∷ []))
      (cons 7 (node (plane 8)) (cons 7 (node (plane 4)) nil))

abbrev formats : Items
formats = cons 2 (int_attribute (pos 1)) (cons 5 (node format_node) nil)

format_node-Ordered : AreOrdered format_node
unfolding IsOrdered
format_node-Ordered = omega arith

formats-Ordered : AreOrdered formats
unfolding IsOrdered
formats-Ordered = omega arith

copy_item_same_example : copy_item (node formats) ≡ node formats
copy_item_same_example = copy_item_same formats formats-Ordered

value_read_back_example :
    Added int_value
      (pos 9)
      (int_attribute (pos 9))
      6
      format_node
      (add_int_value 6 (pos 9) format_node)
    × Added str_value
        (b'x' ∷ [])
        (str_attribute (b'x' ∷ []))
        6
        format_node
        (add_str_value 6 (b'x' ∷ []) format_node)
value_read_back_example = value_read_back 6 (pos 9) (b'x' ∷ []) format_node format_node-Ordered

key_is_taken : add_int_value 3 (pos 9) format_node ≡ failed err_full
unfolding add_int_value has_item find_item
key_is_taken = refl

depth_path : LeadsToAttribute 5 (7 ∷ 4 ∷ []) formats
unfolding LeadsToAttribute EndsAtAttribute get_descendant find_item
depth_path = tt

get_value_of_uid-value_at_example :
    get_value_of_uid int_value 5 (7 ∷ 4 ∷ []) formats ≡ value_at int_value 5 (7 ∷ 4 ∷ []) formats
get_value_of_uid-value_at_example =
    get_value_of_uid-value_at int_value 5 (7 ∷ 4 ∷ []) formats depth_path

value_is_eight : get_value_of_uid int_value 5 (7 ∷ 4 ∷ []) formats ≡ got (pos 8)
unfolding get_value_of_uid get_attr_value get_descendant_of_uid get_descendant find_item int_value
value_is_eight = refl

-- The strings "F" and "P" have the keys 5 and 7, by their characters.
abbrev str2key : List ℕ → ℕ
str2key [] = 0
str2key (c ∷ cs) = if c == b'F' then 5 else 7

strings_follow_keys_example :
    ((get_descendant_by_string str2key (join ((b'F' ∷ []) ∷ (b'P' ∷ []) ∷ [])) formats
        ≡ got (plane 8))
      ↔ Below (map str2key ((b'F' ∷ []) ∷ (b'P' ∷ []) ∷ [])) formats (plane 8))
    × ((find_by_string str2key (join ((b'F' ∷ []) ∷ (b'P' ∷ []) ∷ [])) formats ≡ some (plane 8))
        ↔ Below (map str2key ((b'F' ∷ []) ∷ (b'P' ∷ []) ∷ [])) formats (plane 8))
strings_follow_keys_example =
    strings_follow_keys str2key (b'F' ∷ []) ((b'P' ∷ []) ∷ []) formats (plane 8)
      ((λ e. omega (arith, e), tt), ((λ e. omega (arith, e), tt), tt))

first_plane : find_by_string str2key (b'F' ∷ b':' ∷ b'P' ∷ []) formats ≡ some (plane 8)
unfolding find_by_string split_string get_descendant find_item
first_plane = refl

three_items : descendant_count format_node + 1 < 5
unfolding descendant_count
three_items = omega arith

nodes_by_index-get_all_descendants_example :
    nodes_by_index 7 format_node 5 0 ≡ some (get_all_descendants 7 format_node)
nodes_by_index-get_all_descendants_example =
    nodes_by_index-get_all_descendants 7 format_node 5 (λ e. omega (arith, e)) three_items
