-- ===== src/Post/Links/Served.antt =====
-- Each stream has a unit that takes its output buffers
-- (psl/rkisp1/workers/PostProcessPipeline.cpp).
use hardware_rockchip_camera.Base.{
  subst, sym, ap, ◌∙◌, ℕ, suc, ◌<◌, ◌≡◌, ◌≢◌, refl, inl, inr, Bool, true, false, List, [], ◌∷◌,
  Option, none, some, ◌==◌, if◌then◌else◌, Bool-cases, ==-refl, ==-eq, ==-ne, ne-==, arith,
}
use hardware_rockchip_camera.Post.Unit.{PostProcBufType, internal, external, construct_unit}
use hardware_rockchip_camera.Post.Sync.{set_entry}
use hardware_rockchip_camera.Post.Links.{Links, add_unit, find_last, stream_shifts, link_stream}

-- A stream has a unit with output buffers of its own.
pub record Serves (s : ℕ) (l : Links) : Type 0 where
  pub unit : ℕ
  pub is_made : unit < l.made
  pub found : l.stream_units s ≡ some unit
  pub takes : (l.unit_at unit).buf_type ≡ external

after_entry : Bool → ℕ → Links → ℕ → Option ℕ
unfolding set_entry
after_entry true s l = set_entry s (some l.made) l.stream_units
after_entry false s l = l.stream_units

add_unit_parts :
    (t : PostProcBufType) (last : Bool) (to : Option ℕ) (s : ℕ) (l : Links)
    → ((add_unit t last to s l).made ≡ suc l.made)
      × ((add_unit t last to s l).unit_at ≡ set_entry l.made (construct_unit t) l.unit_at)
      × ((add_unit t last to s l).stream_units ≡ after_entry last s l)
unfolding add_unit after_entry
add_unit_parts t true none s l = (refl, refl, refl)
add_unit_parts t true (some m) s l = (refl, refl, refl)
add_unit_parts t false none s l = (refl, refl, refl)
add_unit_parts t false (some m) s l = (refl, refl, refl)

new_unit :
    (t : PostProcBufType) (l : Links)
    → (set_entry l.made (construct_unit t) l.unit_at l.made).buf_type ≡ t
unfolding set_entry construct_unit
new_unit t l =
    ap (λ b. (if b then construct_unit t else l.unit_at l.made).buf_type) (==-refl l.made)

old_unit :
    (t : PostProcBufType) (l : Links) (n : ℕ)
    → n < l.made
    → (set_entry l.made (construct_unit t) l.unit_at n).buf_type ≡ (l.unit_at n).buf_type
unfolding set_entry
old_unit t l n h =
    ap (λ b. (if b then construct_unit t else l.unit_at n).buf_type)
      (ne-== n l.made (λ e. omega (arith, e, h)))

pub add_unit-Serves : (to : Option ℕ) (s : ℕ) (l : Links) → Serves s (add_unit external true to s l)
unfolding after_entry set_entry
add_unit-Serves to s l =
    let (more, units, streams) = add_unit_parts external true to s l in
    record {
      unit = l.made;
      is_made = subst (λ k. l.made < k) (sym more) (omega arith);
      found =
          ap (λ f. f s) streams ∙ ap (λ b. if b then some l.made else l.stream_units s) (==-refl s);
      takes = ap (λ f. (f l.made).buf_type) units ∙ new_unit external l;
    }

-- A new unit leaves a stream with a unit, also when it takes the place of the unit.
keeps_unit :
    (t : PostProcBufType) (last : Bool) (to : Option ℕ) (s s' : ℕ) (l : Links) (k : Serves s' l)
    → after_entry last s l s' ≡ some k.unit
    → Serves s' (add_unit t last to s l)
keeps_unit t last to s s' l k e =
    let (more, units, streams) = add_unit_parts t last to s l in
    record {
      unit = k.unit;
      is_made = subst (λ m. k.unit < m) (sym more) (omega (arith, k.is_made));
      found = ap (λ f. f s') streams ∙ e;
      takes = ap (λ f. (f k.unit).buf_type) units ∙ old_unit t l k.unit k.is_made ∙ k.takes;
    }

pub inner-Serves :
    (t : PostProcBufType) (to : Option ℕ) (s s' : ℕ) (l : Links)
    → Serves s' l
    → Serves s' (add_unit t false to s l)
unfolding after_entry
inner-Serves t to s s' l k = keeps_unit t false to s s' l k k.found

other-Serves :
    (t : PostProcBufType) (to : Option ℕ) (s s' : ℕ) (l : Links)
    → s' ≢ s
    → Serves s' l
    → Serves s' (add_unit t true to s l)
unfolding after_entry set_entry
other-Serves t to s s' l n k =
    keeps_unit t true to s s' l k
      (ap (λ b. if b then some l.made else l.stream_units s') (ne-== s' s n) ∙ k.found)

last-Serves :
    (to : Option ℕ) (s s' : ℕ) (l : Links) → Serves s' l → Serves s' (add_unit external true to s l)
last-Serves to s s' l k = elim (Bool-cases (s' == s)) [
  | inl e ↦
      subst (λ x. Serves x (add_unit external true to s l)) (sym (==-eq s' s e))
        (add_unit-Serves to s l)
  | inr e ↦ other-Serves external to s s' l (==-ne s' s e) k
]

-- The types of a stream that is neither raw nor mUvc.
pub data Ordinary : Type 0 where
  scaled encoded encoded_scaled copied dummy : Ordinary

abbrev pub types_of : Ordinary → List ℕ
types_of scaled = 17 ∷ []
types_of encoded = 18 ∷ []
types_of encoded_scaled = 18 ∷ 17 ∷ []
types_of copied = 19 ∷ []
types_of dummy = 22 ∷ []

unfoldable pub linked : List ℕ → ℕ → Links → Option ℕ → Links
linked types s l main =
    (link_stream types (find_last types stream_shifts none) s stream_shifts (l, main)).0

pub linked-Serves :
    (o : Ordinary) (s : ℕ) (l : Links) (main : Option ℕ) → Serves s (linked (types_of o) s l main)
unfolding linked link_stream find_last
linked-Serves scaled s l main = add_unit-Serves main s l
linked-Serves encoded s l main = add_unit-Serves main s l
linked-Serves encoded_scaled s l main =
    add_unit-Serves (some l.made) s (add_unit internal false main s l)
linked-Serves copied s l main = add_unit-Serves main s l
linked-Serves dummy s l main = add_unit-Serves main s l

pub linked-keeps :
    (o : Ordinary) (s s' : ℕ) (l : Links) (main : Option ℕ)
    → Serves s' l
    → Serves s' (linked (types_of o) s l main)
unfolding linked link_stream find_last
linked-keeps scaled s s' l main k = last-Serves main s s' l k
linked-keeps encoded s s' l main k = last-Serves main s s' l k
linked-keeps encoded_scaled s s' l main k =
    last-Serves (some l.made) s s' (add_unit internal false main s l)
      (inner-Serves internal main s s' l k)
linked-keeps copied s s' l main k = last-Serves main s s' l k
linked-keeps dummy s s' l main k = last-Serves main s s' l k

pub uvc-keeps :
    (s s' : ℕ) (l : Links) (main : Option ℕ)
    → s' ≢ s
    → Serves s' l
    → Serves s' (linked (20 ∷ []) s l main)
unfolding linked link_stream find_last
uvc-keeps s s' l main n k = other-Serves internal main s s' l n k
