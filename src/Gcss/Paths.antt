-- ===== src/Gcss/Paths.antt =====
-- Values at the end of a path of keys (common/gcss/gcss_item.cpp, getValue of an ItemUID).
use hardware_rockchip_camera.Base.{
  subst, ◌∙◌, ℕ, ◌≡◌, refl, inl, inr, List, [], ◌∷◌, Option, none, some,
}
use hardware_rockchip_camera.Gcss.{
  GraphConfigItem, Items, Got, got, failed, err_argument, get_attr_value, get_descendant,
  current_or, descend_from, get_descendant_of_uid, last_key, get_value_of_uid,
}
use hardware_rockchip_camera.Gcss.Strings.{Got-cases}

-- The value under the last key, in the node that the keys before it lead to.
value_in {ℓ} : {A : Type ℓ} → (Items → Got A) → Got Items → Got A
value_in next (got m) = next m
value_in next (failed c) = failed err_argument

unfoldable pub value_at {ℓ} : {A : Type ℓ} → (GraphConfigItem → Got A) → ℕ → List ℕ → Items → Got A
unfolding value_in
value_at value k [] g = get_attr_value value k g
value_at value k (j ∷ js) g = value_in (value_at value j js) (get_descendant k g)

-- No node stands under the key, in a node that was found.
NoNodeIn : (Items → Type 0) → Got Items → Type 0
NoNodeIn next (got m) = next m
NoNodeIn next (failed c) = Unit

IsNoNode : Got Items → Type 0
IsNoNode (got m) = ⊥
IsNoNode (failed c) = Unit

-- From a node, where the keys lead, the last one is not that of a node.
unfoldable pub EndsAtAttribute : ℕ → List ℕ → Items → Type 0
unfolding NoNodeIn IsNoNode
EndsAtAttribute j [] g = IsNoNode (get_descendant j g)
EndsAtAttribute j (i ∷ is) g = NoNodeIn (EndsAtAttribute i is) (get_descendant j g)

-- The same for a whole path; that of one key is not followed.
unfoldable pub LeadsToAttribute : ℕ → List ℕ → Items → Type 0
unfolding NoNodeIn
LeadsToAttribute k [] g = Unit
LeadsToAttribute k (j ∷ js) g = NoNodeIn (EndsAtAttribute j js) (get_descendant k g)

value_below {ℓ} : {A : Type ℓ} → (GraphConfigItem → Got A) → ℕ → Option Items → Got A
value_below value k none = failed err_argument
value_below value k (some g) = get_attr_value value k g

module _ {ℓ} {A : Type ℓ} (value : GraphConfigItem → Got A) (this : Items) where
  value_below-descend_from :
      (j : ℕ) (js : List ℕ) (g : Items)
      → EndsAtAttribute j js g
      → value_below value (last_key j js) (descend_from this (some g) (j ∷ js))
        ≡ value_at value j js g
  unfolding value_below descend_from value_at last_key EndsAtAttribute current_or
  value_below-descend_from j [] g n = elim (Got-cases (get_descendant j g)) [
    | inl (m, e) ↦ absurd (subst IsNoNode e n)
    | inr (c, e) ↦ rw (e, descend_from) refl
  ]
  value_below-descend_from j (i ∷ is) g n = elim (Got-cases (get_descendant j g)) [
    | inl (m, e) ↦
        rw (e, descend_from)
          (value_below-descend_from i is m (subst (NoNodeIn (EndsAtAttribute i is)) e n))
    | inr (c, e) ↦ rw (e, descend_from) refl
  ]

  get_value_of_uid-value_below :
      (k j : ℕ) (js : List ℕ)
      → get_value_of_uid value k (j ∷ js) this
        ≡ value_below value (last_key j js) (descend_from this none (k ∷ j ∷ js))
  unfolding get_value_of_uid get_descendant_of_uid value_below
  get_value_of_uid-value_below k j js = refl

  first_key :
      (k j : ℕ) (js : List ℕ)
      → LeadsToAttribute k (j ∷ js) this
      → value_below value (last_key j js) (descend_from this none (k ∷ j ∷ js))
        ≡ value_at value k (j ∷ js) this
  unfolding value_below descend_from value_at LeadsToAttribute current_or
  first_key k j js n = elim (Got-cases (get_descendant k this)) [
    | inl (m, e) ↦
        rw (e, descend_from)
          (value_below-descend_from j js m (subst (NoNodeIn (EndsAtAttribute j js)) e n))
    | inr (c, e) ↦ rw (e, descend_from) refl
  ]

-- Where the last key of a path is not that of a node, getValue of the path answers what getAttrValue does for its last key in the node that the keys before it lead to, and css_err_argument where they lead to no node.
pub get_value_of_uid-value_at {ℓ} :
    {A : Type ℓ} (value : GraphConfigItem → Got A) (k : ℕ) (ks : List ℕ) (g : Items)
    → LeadsToAttribute k ks g
    → get_value_of_uid value k ks g ≡ value_at value k ks g
unfolding get_value_of_uid value_at
get_value_of_uid-value_at value k [] g n = refl
get_value_of_uid-value_at value k (j ∷ js) g n =
    get_value_of_uid-value_below value g k j js ∙ first_key value g k j js n
