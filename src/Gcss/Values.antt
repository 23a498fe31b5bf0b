-- ===== src/Gcss/Values.antt =====
-- Values that are added to a node (common/gcss/gcss_item.cpp, addValue and getValue).
use hardware_rockchip_camera.Base.{
  sym, ◌∙◌, ℕ, ◌≡◌, refl, ◌⊎◌, inl, inr, true, false, List, none, some, ◌==◌, if◌then◌else◌,
  Bool-cases, Option-cases, ==-refl, ==-eq, ==-ne, ap, arith,
}
use hardware_rockchip_camera.Base.Signed.{ℤ}
use hardware_rockchip_camera.Gcss.{
  GraphConfigItem, int_attribute, str_attribute, Items, nil, cons, Got, got, failed, err_full,
  insert_item, find_item, has_item, int_value, str_value, get_attr_value, add_item, add_int_value,
  add_str_value,
}
use hardware_rockchip_camera.Gcss.Copy.{IsOrdered, AreOrdered, insert_item-AreOrdered}

find_item-insert_item :
    (i k : ℕ) (x : GraphConfigItem) (g : Items)
    → find_item k g ≡ none
    → find_item i (insert_item k x g) ≡ (if k == i then some x else find_item i g)
unfolding find_item insert_item
find_item-insert_item i k x nil e = refl
find_item-insert_item i k x (cons j y rest) e = ground (arith, find_item-insert_item i k x rest)

-- An item of the node stands under the key.
abbrev pub HasKey : ℕ → Items → Type 0
HasKey k nil = ⊥
HasKey k (cons j x rest) = (j ≡ k) ⊎ HasKey k rest

-- What adding the item `x`, with the value `v`, to the node `g` answers.
abbrev pub Added {ℓ} :
    {A : Type ℓ} → (GraphConfigItem → Got A) → A → GraphConfigItem → ℕ → Items → Got Items → Type ℓ
Added value v x k g r =
    (HasKey k g × (r ≡ failed err_full))
    ⊎ ((¬ (HasKey k g))
        × ((g' : Items) × (r ≡ got g')
            × (get_attr_value value k g' ≡ got v)
            × ((i : ℕ) → find_item i g' ≡ (if k == i then some x else find_item i g))
            × AreOrdered g'))

has_item-false : (k : ℕ) (g : Items) → has_item k g ≡ false → find_item k g ≡ none
unfolding has_item
has_item-false k g e = elim (Option-cases (find_item k g)) [
  | inl absent ↦ absent
  | inr (x, there) ↦ let holds : true ≡ false = sym (rw (there, has_item) refl) ∙ e in absurd (cc)
]

find_item-HasKey : (k : ℕ) (g : Items) (x : GraphConfigItem) → find_item k g ≡ some x → HasKey k g
unfolding find_item
find_item-HasKey k nil x e = absurd (cc)
find_item-HasKey k (cons j y rest) x e = elim (Bool-cases (j == k)) [
  | inl same ↦ inl (==-eq j k same)
  | inr other ↦
      inr (
        find_item-HasKey k rest x
          (sym (ap (λ b. if b then some y else find_item k rest) other) ∙ e))
]

HasKey-find_item : (k : ℕ) (g : Items) → HasKey k g → find_item k g ≡ none → ⊥
unfolding find_item
HasKey-find_item k nil h e = h
HasKey-find_item k (cons j y rest) h e = elim (Bool-cases (j == k)) [
  | inl same ↦
      let found : some y ≡ none = sym (ap (λ b. if b then some y else find_item k rest) same) ∙ e in
      absurd (cc)
  | inr other ↦
      let missing : find_item k rest ≡ none =
        sym (ap (λ b. if b then some y else find_item k rest) other) ∙ e in
      elim h [
        | inl first ↦ ==-ne j k other first
        | inr later ↦ HasKey-find_item k rest later missing
      ]
]

has_item-HasKey : (k : ℕ) (g : Items) → has_item k g ≡ true → HasKey k g
unfolding has_item
has_item-HasKey k g e = elim (Option-cases (find_item k g)) [
  | inl absent ↦ let lacks : false ≡ true = sym (rw (absent, has_item) refl) ∙ e in absurd (cc)
  | inr (x, there) ↦ find_item-HasKey k g x there
]

add_item-Added {ℓ} :
    {A : Type ℓ} (value : GraphConfigItem → Got A) (v : A) (x : GraphConfigItem) (k : ℕ) (g : Items)
    → AreOrdered g
    → IsOrdered x
    → value x ≡ got v
    → Added value v x k g (add_item x k g)
unfolding add_item get_attr_value
add_item-Added value v x k g o ox e = elim (Bool-cases (has_item k g)) [
  | inl there ↦ inl (has_item-HasKey k g there, rw there refl)
  | inr absent ↦
      let missing = has_item-false k g absent in
      let found : find_item k (insert_item k x g) ≡ some x =
        find_item-insert_item k k x g missing ∙ rw (==-refl k) refl in
      inr (
        λ h. HasKey-find_item k g h missing,
        (
          insert_item k x g,
          rw absent refl,
          rw (found, get_attr_value) e,
          λ i. find_item-insert_item i k x g missing,
          insert_item-AreOrdered k x g o ox,
        ),
      )
]

-- Adding an integer, and likewise a string, to a node whose keys ascend at every level is refused with css_err_full exactly where the key is there; else the value is read back under its key, the items under other keys are those of before, and the keys ascend.
pub value_read_back :
    (k : ℕ) (n : ℤ) (s : List ℕ) (g : Items)
    → AreOrdered g
    → Added int_value n (int_attribute n) k g (add_int_value k n g)
      × Added str_value s (str_attribute s) k g (add_str_value k s g)
unfolding add_int_value add_str_value int_value str_value IsOrdered
value_read_back k n s g o = (
  add_item-Added int_value n (int_attribute n) k g o tt refl,
  add_item-Added str_value s (str_attribute s) k g o tt refl,
)
