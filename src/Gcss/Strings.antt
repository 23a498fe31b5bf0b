-- ===== src/Gcss/Strings.antt =====
-- Paths written as strings (common/gcss/gcss_item.cpp, getDescendantByString).

use mathlib.Core.Logic.{◌↔◌}
use hardware_rockchip_camera.Base.{
  sym, ap, ◌∙◌, ℕ, ◌≡◌, ◌≢◌, refl, ◌⊎◌, inl, inr, List, [], ◌∷◌, ◌++◌, Option, none, some, map, All,
  ne-==, Option-cases,
}
use hardware_rockchip_camera.Gcss.{
  GraphConfigItem, int_attribute, str_attribute, node, Items, Got, got, failed, CssErr, err_general,
  find_item, node_of, get_descendant, current_or, prepend, colon, split_string, descend_parts,
  get_descendant_by_string, node_or_null, find_parts, find_by_string,
}

-- Names with a colon between each two.
abbrev pub join : List (List ℕ) → List ℕ
join [] = []
join (p ∷ []) = p
join (p ∷ q ∷ ps) = p ++ colon ∷ join (q ∷ ps)

abbrev pub HasNoColon : List ℕ → Type 0
HasNoColon p = All (λ c. c ≢ colon) p

split_plain : (p : List ℕ) → HasNoColon p → split_string p ≡ p ∷ []
unfolding split_string prepend
split_plain [] h = refl
split_plain (c ∷ cs) h = rw (ne-== c colon h.0, split_plain cs h.1) refl

split_first :
    (p rest : List ℕ) → HasNoColon p → split_string (p ++ colon ∷ rest) ≡ p ∷ split_string rest
unfolding split_string prepend
split_first [] rest h = refl
split_first (c ∷ cs) rest h = rw (ne-== c colon h.0, split_first cs rest h.1) refl

pub split_string-join :
    (p : List ℕ) (ps : List (List ℕ))
    → All HasNoColon (p ∷ ps)
    → split_string (join (p ∷ ps)) ≡ p ∷ ps
split_string-join p [] h = split_plain p h.0
split_string-join p (q ∷ ps) h =
    split_first p (join (q ∷ ps)) h.0 ∙ ap (λ r. p ∷ r) (split_string-join q ps h.1)

-- The node `h` is reached from `g` by following the keys.
abbrev pub Below : List ℕ → Items → Items → Type 0
Below [] g h = g ≡ h
Below (k ∷ ks) g h = (m : Items) × (find_item k g ≡ some (node m)) × Below ks m h

get_descendant-found :
    (k : ℕ) (g m : Items) → find_item k g ≡ some (node m) → get_descendant k g ≡ got m
unfolding get_descendant node_of
get_descendant-found k g m e = rw (e, get_descendant) refl

node_of-got : (x : GraphConfigItem) (m : Items) → node_of x ≡ got m → x ≡ node m
unfolding node_of
node_of-got (int_attribute n) m e = absurd (cc)
node_of-got (str_attribute s) m e = absurd (cc)
node_of-got (node g) m e = cc

found-get_descendant :
    (k : ℕ) (g m : Items) → get_descendant k g ≡ got m → find_item k g ≡ some (node m)
unfolding get_descendant
found-get_descendant k g m e = elim (Option-cases (find_item k g)) [
  | inl missing ↦
      let none_there : failed err_general ≡ got m = sym (rw (missing, get_descendant) refl) ∙ e in
      absurd (cc)
  | inr (x, there) ↦
      let value : node_of x ≡ got m = sym (rw (there, get_descendant) refl) ∙ e in
      there ∙ ap some (node_of-got x m value)
]

pub Got-cases : (r : Got Items) → ((m : Items) × (r ≡ got m)) ⊎ ((c : CssErr) × (r ≡ failed c))
Got-cases (got m) = inl (m, refl)
Got-cases (failed c) = inr (c, refl)

module _ (str2key : List ℕ → ℕ) where
  parts_step :
      (p q : List ℕ) (ps : List (List ℕ)) (g m : Items)
      → get_descendant (str2key p) g ≡ got m
      → descend_parts str2key (p ∷ q ∷ ps) g ≡ descend_parts str2key (q ∷ ps) m
  unfolding descend_parts
  parts_step p q ps g m e = rw (e, descend_parts) refl

  parts_failed :
      (p q : List ℕ) (ps : List (List ℕ)) (g : Items) (c : CssErr)
      → get_descendant (str2key p) g ≡ failed c
      → descend_parts str2key (p ∷ q ∷ ps) g ≡ failed c
  unfolding descend_parts
  parts_failed p q ps g c e = rw (e, descend_parts) refl

  Below-descend_parts :
      (p : List ℕ) (ps : List (List ℕ)) (g h : Items)
      → Below (map str2key (p ∷ ps)) g h
      → descend_parts str2key (p ∷ ps) g ≡ got h
  unfolding descend_parts
  Below-descend_parts p [] g h (m, e, last) = get_descendant-found (str2key p) g m e ∙ ap got last
  Below-descend_parts p (q ∷ ps) g h (m, e, rest) =
      rw (get_descendant-found (str2key p) g m e, descend_parts) (Below-descend_parts q ps m h rest)

  descend_parts-Below :
      (p : List ℕ) (ps : List (List ℕ)) (g h : Items)
      → descend_parts str2key (p ∷ ps) g ≡ got h
      → Below (map str2key (p ∷ ps)) g h
  unfolding descend_parts
  descend_parts-Below p [] g h e = (h, found-get_descendant (str2key p) g h e, refl)
  descend_parts-Below p (q ∷ ps) g h e = elim (Got-cases (get_descendant (str2key p) g)) [
    | inl (m, found) ↦ (
      m,
      found-get_descendant (str2key p) g m found,
      descend_parts-Below q ps m h (sym (parts_step p q ps g m found) ∙ e),
    )
    | inr (c, missing) ↦
        let nothing : failed c ≡ got h = sym (parts_failed p q ps g c missing) ∙ e in absurd (cc)
  ]

  -- Both versions answer the same node.
  find_parts-descend_parts :
      (p : List ℕ) (ps : List (List ℕ)) (this : Items) (current : Option Items)
      → find_parts str2key this current (p ∷ ps)
        ≡ node_or_null (descend_parts str2key (p ∷ ps) (current_or this current))
  unfolding find_parts descend_parts node_or_null current_or
  find_parts-descend_parts p [] this current =
      elim (Got-cases (get_descendant (str2key p) (current_or this current))) [
        | inl (m, e) ↦ rw (e, find_parts) refl
        | inr (c, e) ↦ rw (e, find_parts) refl
      ]
  find_parts-descend_parts p (q ∷ ps) this current =
      elim (Got-cases (get_descendant (str2key p) (current_or this current))) [
        | inl (m, e) ↦
            rw (e, find_parts, descend_parts) (find_parts-descend_parts q ps this (some m))
        | inr (c, e) ↦ rw (e, find_parts, descend_parts) refl
      ]

node_or_null-some : (r : Got Items) (h : Items) → node_or_null r ≡ some h → r ≡ got h
unfolding node_or_null
node_or_null-some (got m) h e = cc
node_or_null-some (failed c) h e = absurd (cc)

-- With names that hold no colon, both versions of getDescendantByString, given the names with colons between them, answer a node exactly when it is reached by following the names' keys from the node, each to the first item under it.
pub strings_follow_keys :
    (str2key : List ℕ → ℕ) (p : List ℕ) (ps : List (List ℕ)) (g h : Items)
    → All HasNoColon (p ∷ ps)
    → ((get_descendant_by_string str2key (join (p ∷ ps)) g ≡ got h)
        ↔ Below (map str2key (p ∷ ps)) g h)
      × ((find_by_string str2key (join (p ∷ ps)) g ≡ some h) ↔ Below (map str2key (p ∷ ps)) g h)
unfolding get_descendant_by_string find_by_string node_or_null current_or
strings_follow_keys str2key p ps g h plain =
    let parts = split_string-join p ps plain in
    let up = Below-descend_parts str2key p ps g h in
    let down = descend_parts-Below str2key p ps g h in
    let same = find_parts-descend_parts str2key p ps g none in
    rw parts (
      (down, up),
      (
        λ e. down (node_or_null-some (descend_parts str2key (p ∷ ps) g) h (sym same ∙ e)),
        λ b. same ∙ ap node_or_null (up b),
      ),
    )
