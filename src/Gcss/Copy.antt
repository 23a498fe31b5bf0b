-- ===== src/Gcss/Copy.antt =====
-- Trees in the order of their keys, and their copies (common/gcss/gcss_item.cpp).
use hardware_rockchip_camera.Base.{
  sym, ap, ◌∙◌, ℕ, ◌≤◌, ◌≡◌, refl, inl, inr, true, false, ltb, Bool-cases, arith,
}
use hardware_rockchip_camera.Gcss.{
  GraphConfigItem, int_attribute, str_attribute, node, Items, nil, cons, insert_item, copy_item,
  copy_items,
}

-- Every key is at least, or at most, `k`.
abbrev pub AtLeast : ℕ → Items → Type 0
AtLeast k nil = Unit
AtLeast k (cons j y rest) = (k ≤ j) × AtLeast k rest

abbrev AtMost : ℕ → Items → Type 0
AtMost k nil = Unit
AtMost k (cons j y rest) = (j ≤ k) × AtMost k rest

-- At every level the keys ascend, as a multimap keeps them.
unfoldable mutual
  pub IsOrdered : GraphConfigItem → Type 0
  IsOrdered (int_attribute n) = Unit
  IsOrdered (str_attribute s) = Unit
  IsOrdered (node g) = AreOrdered g

  pub AreOrdered : Items → Type 0
  AreOrdered nil = Unit
  AreOrdered (cons k x rest) = AtLeast k rest × IsOrdered x × AreOrdered rest

-- Items, and behind them others.
append : Items → Items → Items
append nil g = g
append (cons k x rest) g = cons k x (append rest g)

append-nil : (g : Items) → append g nil ≡ g
unfolding append
append-nil nil = refl
append-nil (cons k x rest) = ap (cons k x) (append-nil rest)

append_assoc : (f g h : Items) → append (append f g) h ≡ append f (append g h)
unfolding append
append_assoc nil g h = refl
append_assoc (cons k x rest) g h = ap (cons k x) (append_assoc rest g h)

ltb-false : (a b : ℕ) → b ≤ a → ltb a b ≡ false
ltb-false a b h = ground arith

insert_item-append :
    (k : ℕ) (x : GraphConfigItem) (g : Items)
    → AtMost k g
    → insert_item k x g ≡ append g (cons k x nil)
unfolding insert_item append
insert_item-append k x nil h = refl
insert_item-append k x (cons j y rest) h =
    rw (ltb-false k j h.0) (ap (cons j y) (insert_item-append k x rest h.1))

-- Every key of the first items is at most every key of the second.
abbrev Under : Items → Items → Type 0
Under ret nil = Unit
Under ret (cons k x rest) = AtMost k ret × Under ret rest

AtMost-append :
    (j k : ℕ) (x : GraphConfigItem) (ret : Items)
    → AtMost j ret
    → k ≤ j
    → AtMost j (append ret (cons k x nil))
unfolding append
AtMost-append j k x nil h le = (le, tt)
AtMost-append j k x (cons i y rest) h le = (h.0, AtMost-append j k x rest h.1 le)

Under-append :
    (k : ℕ) (x : GraphConfigItem) (ret rest : Items)
    → Under ret rest
    → AtLeast k rest
    → Under (append ret (cons k x nil)) rest
Under-append k x ret nil u l = tt
Under-append k x ret (cons j y rest) u l =
    (AtMost-append j k x ret u.0 l.0, Under-append k x ret rest u.1 l.1)

Under-nil : (g : Items) → Under nil g
Under-nil nil = tt
Under-nil (cons k x rest) = (tt, Under-nil rest)

mutual
  unfolding copy_item IsOrdered append

  copy_same : (x : GraphConfigItem) → IsOrdered x → copy_item x ≡ x
  copy_same (int_attribute n) o = refl
  copy_same (str_attribute s) o = refl
  copy_same (node g) o = ap node (copy_behind nil g o (Under-nil g))

  copy_behind : (ret g : Items) → AreOrdered g → Under ret g → copy_items ret g ≡ append ret g
  copy_behind ret nil o u = sym (append-nil ret)
  copy_behind ret (cons k x rest) o u =
      rw (copy_same x o.1, insert_item-append k x ret u.0)
        (copy_behind (append ret (cons k x nil)) rest o.2 (Under-append k x ret rest u.1 o.0)
          ∙ append_assoc ret (cons k x nil) rest)

AtLeast-insert :
    (j k : ℕ) (x : GraphConfigItem) (g : Items)
    → AtLeast j g
    → j ≤ k
    → AtLeast j (insert_item k x g)
unfolding insert_item
AtLeast-insert j k x nil l le = (le, tt)
AtLeast-insert j k x (cons i y rest) l le = elim (Bool-cases (ltb k i)) [
  | inl before ↦ rw before (le, l)
  | inr after ↦ rw after (l.0, AtLeast-insert j k x rest l.1 le)
]

AtLeast-trans : (j k : ℕ) (g : Items) → j ≤ k → AtLeast k g → AtLeast j g
AtLeast-trans j k nil le l = tt
AtLeast-trans j k (cons i y rest) le l = (omega (arith, le, l.0), AtLeast-trans j k rest le l.1)

lt_of_ltb : (a b : ℕ) → ltb a b ≡ true → a ≤ b
lt_of_ltb a b h = ground arith

le_of_ltb : (a b : ℕ) → ltb a b ≡ false → b ≤ a
le_of_ltb a b h = ground arith

pub insert_item-AreOrdered :
    (k : ℕ) (x : GraphConfigItem) (g : Items)
    → AreOrdered g
    → IsOrdered x
    → AreOrdered (insert_item k x g)
unfolding insert_item IsOrdered
insert_item-AreOrdered k x nil o ox = (tt, ox, tt)
insert_item-AreOrdered k x (cons j y rest) o ox = elim (Bool-cases (ltb k j)) [
  | inl before ↦
      let le = lt_of_ltb k j before in rw before ((le, AtLeast-trans k j rest le o.0), ox, o)
  | inr after ↦ rw after (
    AtLeast-insert j k x rest o.0 (le_of_ltb k j after),
    o.1,
    insert_item-AreOrdered k x rest o.2 ox,
  )
]

-- Copying a node whose keys ascend at every level gives the same tree, with its items in the same order.
pub copy_item_same : (g : Items) → AreOrdered g → copy_item (node g) ≡ node g
unfolding IsOrdered
copy_item_same g o = copy_same (node g) o
