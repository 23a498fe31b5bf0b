-- ===== src/Results/Transit.antt =====
-- The map mRequestsInTransit of AAL/ResultProcessor.h: lookups, updates and the pool slots it holds.
use mathlib.Core.List.Perm
use hardware_rockchip_camera.Base.{
  subst, ℕ, suc, ◌≤◌, ◌<◌, ◌≡◌, refl, ap, ◌≢◌, List, [], ◌∷◌, ◌++◌, map, none, some, Perm, arith,
  ◌==◌, ltb, length, Bool-cases, inl, inr, All, ==-ne,
}
use hardware_rockchip_camera.Results.State.{
  RequestState, find_state, insert_state, put_state, erase_state,
}

-- Keys ascend, and the first is at least `lo`.
abbrev pub Ascending : ℕ → List RequestState → Type 0
Ascending lo [] = Unit {0}
Ascending lo (s ∷ ss) = (lo ≤ s.req_id) × Ascending (suc s.req_id) ss

abbrev pub slots : List RequestState → List ℕ
slots = map λ s. s.slot

pub find_below :
    (id lo : ℕ) (ss : List RequestState) → Ascending lo ss → id < lo → find_state id ss ≡ none
unfolding find_state
find_below id lo [] a h = refl
find_below id lo (s ∷ ss) a h = ground (arith, find_below id (suc s.req_id) ss a.1)

pub find-key :
    (id : ℕ) (ss : List RequestState) (s : RequestState) → find_state id ss ≡ some s → s.req_id ≡ id
unfolding find_state
find-key id [] s e = cc
find-key id (t ∷ ss) s e = ground (arith, find-key id ss s)

pub put_below :
    (t : RequestState) (lo : ℕ) (ss : List RequestState)
    → Ascending lo ss
    → t.req_id < lo
    → put_state t ss ≡ ss
unfolding put_state
put_below t lo [] a h = refl
put_below t lo (s ∷ ss) a h = ground (arith, put_below t (suc s.req_id) ss a.1)

-- Writing back what was found changes nothing.
pub put-find :
    (id lo : ℕ) (ss : List RequestState) (s : RequestState)
    → Ascending lo ss
    → find_state id ss ≡ some s
    → put_state s ss ≡ ss
unfolding put_state find_state
put-find id lo [] s a e = refl
put-find id lo (t ∷ ss) s a e = ground (
  arith,
  put_below t (suc t.req_id) ss a.1,
  put-find id (suc t.req_id) ss s a.1,
  find-key id ss s,
)

pub put-put :
    (s t : RequestState) (ss : List RequestState)
    → s.req_id ≡ t.req_id
    → put_state t (put_state s ss) ≡ put_state t ss
unfolding put_state
put-put s t [] e = refl
put-put s t (r ∷ ss) e = ground (arith, put-put s t ss e)

pub find-put_self :
    (t s : RequestState) (ss : List RequestState)
    → find_state t.req_id ss ≡ some s
    → find_state t.req_id (put_state t ss) ≡ some t
unfolding put_state find_state
find-put_self t s [] e = cc
find-put_self t s (r ∷ ss) e = ground (arith, find-put_self t s ss)

pub find-put_ne :
    (id : ℕ) (t : RequestState) (ss : List RequestState)
    → id ≢ t.req_id
    → find_state id (put_state t ss) ≡ find_state id ss
unfolding put_state find_state
find-put_ne id t [] h = refl
find-put_ne id t (r ∷ ss) h = ground (arith, find-put_ne id t ss)

pub find-erase_ne :
    (id k : ℕ) (ss : List RequestState)
    → id ≢ k
    → find_state id (erase_state k ss) ≡ find_state id ss
unfolding erase_state find_state
find-erase_ne id k [] h = refl
find-erase_ne id k (r ∷ ss) h = ground (arith, find-erase_ne id k ss)

pub find-erase_self : (k : ℕ) (ss : List RequestState) → find_state k (erase_state k ss) ≡ none
unfolding erase_state find_state
find-erase_self k [] = refl
find-erase_self k (r ∷ ss) = ground (arith, find-erase_self k ss)

pub put-Ascending :
    (t : RequestState) (lo : ℕ) (ss : List RequestState)
    → Ascending lo ss
    → Ascending lo (put_state t ss)
unfolding put_state
put-Ascending t lo [] a = tt
put-Ascending t lo (s ∷ ss) a = ground (arith, put-Ascending t (suc s.req_id) ss a.1)

Ascending-mono :
    (lo lo' : ℕ) (ss : List RequestState) → lo' ≤ lo → Ascending lo ss → Ascending lo' ss
Ascending-mono lo lo' [] h a = tt
Ascending-mono lo lo' (s ∷ ss) h a = (omega arith, a.1)

pub erase-Ascending :
    (id lo : ℕ) (ss : List RequestState) → Ascending lo ss → Ascending lo (erase_state id ss)
unfolding erase_state
erase-Ascending id lo [] a = tt
erase-Ascending id lo (s ∷ ss) a = ground (
  arith,
  erase-Ascending id (suc s.req_id) ss a.1,
  Ascending-mono (suc s.req_id) lo (erase_state id ss),
)

pub insert-Ascending :
    (t : RequestState) (lo : ℕ) (ss : List RequestState)
    → Ascending lo ss
    → lo ≤ t.req_id
    → find_state t.req_id ss ≡ none
    → Ascending lo (insert_state t ss)
unfolding insert_state find_state
insert-Ascending t lo [] a h e = (h, tt)
insert-Ascending t lo (s ∷ ss) a h e = ground (arith, insert-Ascending t (suc s.req_id) ss a.1)

pub slots-insert :
    (t : RequestState) (ss : List RequestState)
    → Perm (slots (insert_state t ss)) (t.slot ∷ slots ss)
unfolding insert_state
slots-insert t [] = Perm.rfl
slots-insert t (s ∷ ss) = elim (Bool-cases (ltb s.req_id t.req_id)) [
  | inl e ↦
      rw e (Perm.trans (Perm.cons s.slot (slots-insert t ss)) (Perm.swap t.slot s.slot (slots ss)))
  | inr e ↦ rw e Perm.rfl
]

pub slots-put :
    (t s : RequestState) (lo : ℕ) (ss : List RequestState)
    → Ascending lo ss
    → find_state t.req_id ss ≡ some s
    → s.slot ≡ t.slot
    → slots (put_state t ss) ≡ slots ss
unfolding put_state find_state
slots-put t s lo [] a e q = refl
slots-put t s lo (r ∷ ss) a e q =
    ground (arith, put_below t (suc r.req_id) ss a.1, slots-put t s (suc r.req_id) ss a.1)

pub erase_below :
    (id lo : ℕ) (ss : List RequestState) → Ascending lo ss → id < lo → erase_state id ss ≡ ss
unfolding erase_state
erase_below id lo [] a h = refl
erase_below id lo (s ∷ ss) a h = ground (arith, erase_below id (suc s.req_id) ss a.1)

-- The slots around that of an erased request.
pub slots-erase :
    (id lo : ℕ) (ss : List RequestState) (s : RequestState)
    → Ascending lo ss
    → find_state id ss ≡ some s
    → (before : List ℕ) × (after : List ℕ) × (slots ss ≡ before ++ s.slot ∷ after)
      × (slots (erase_state id ss) ≡ before ++ after)
unfolding find_state erase_state
slots-erase id lo [] s a e = absurd (cc)
slots-erase id lo (r ∷ ss) s a e = elim (Bool-cases (r.req_id == id)) [
  | inl q ↦ ([], slots ss, ground arith, ground (arith, erase_below id (suc r.req_id) ss a.1))
  | inr q ↦
      let (before, after, f, g) = slots-erase id (suc r.req_id) ss s a.1 (ground arith) in
      (r.slot ∷ before, after, ap (◌∷◌ r.slot) f, rw q (ap (◌∷◌ r.slot) g))
]

pub length-slots : (ss : List RequestState) → length (slots ss) ≡ length ss
length-slots [] = refl
length-slots (s ∷ ss) = ap suc (length-slots ss)

module _ (P Q : RequestState → Type 0) where
  pub All-put :
      (s t : RequestState) (ss : List RequestState)
      → s.req_id ≡ t.req_id
      → ((r : RequestState) → r.req_id ≢ t.req_id → P r → Q r)
      → Q t
      → All P (put_state s ss)
      → All Q (put_state t ss)
  unfolding put_state
  All-put s t [] e f q h = tt
  All-put s t (r ∷ ss) e f q h = elim (Bool-cases (r.req_id == t.req_id)) [
    | inl k ↦ rw k (q, All-put s t ss e f q h.1)
    | inr k ↦ rw k (f r (==-ne _ _ k) (ground arith), All-put s t ss e f q h.1)
  ]

  pub All-erase :
      (id : ℕ) (ss : List RequestState)
      → ((r : RequestState) → r.req_id ≢ id → P r → Q r)
      → All P ss
      → All Q (erase_state id ss)
  unfolding erase_state
  All-erase id [] f h = tt
  All-erase id (r ∷ ss) f h = elim (Bool-cases (r.req_id == id)) [
    | inl k ↦ rw k (All-erase id ss f h.1)
    | inr k ↦ rw k (f r (==-ne _ _ k) h.0, All-erase id ss f h.1)
  ]

module _ (P : RequestState → Type 0) where
  pub All-insert :
      (t : RequestState) (ss : List RequestState) → P t → All P ss → All P (insert_state t ss)
  unfolding insert_state
  All-insert t [] q h = (q, tt)
  All-insert t (s ∷ ss) q h = elim (Bool-cases (ltb s.req_id t.req_id)) [
    | inl k ↦ rw k (h.0, All-insert t ss q h.1)
    | inr k ↦ rw k (q, h)
  ]

  pub All-find :
      (id : ℕ) (ss : List RequestState) (s : RequestState)
      → find_state id ss ≡ some s
      → All P ss
      → P s
  unfolding find_state
  All-find id [] s e h = absurd (cc)
  All-find id (r ∷ ss) s e h = elim (Bool-cases (r.req_id == id)) [
    | inl k ↦ subst P (ground arith) h.0
    | inr k ↦ All-find id ss s (ground arith) h.1
  ]
