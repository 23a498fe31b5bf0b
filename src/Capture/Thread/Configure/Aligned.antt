-- ===== src/Capture/Thread/Configure/Aligned.antt =====
-- mStreams and mLocalStreams of RequestThread (AAL/RequestThread.cpp) keep in step.
use mathlib.Core.Option
use hardware_rockchip_camera.Base.{
  sym, ap, ◌∙◌, ℕ, ◌≡◌, ◌≢◌, refl, ◌⊎◌, inl, inr, Bool, true, false, List, [], ◌∷◌, ◌++◌, none,
  some, All, All-append, Bool-cases, ne-==, ==-refl,
}
use hardware_rockchip_camera.Capture.Stream.{Heap, Stream3, update}
use hardware_rockchip_camera.Capture.Thread.Configure.{
  set_priv, is_deleted, clear_priv, keep_one, delete_loop,
}

-- Each stream points to the CameraStream at its index.
abbrev pub Aligned : (ℕ → Stream3) → List ℕ → List ℕ → Type 0
Aligned f [] [] = Unit
Aligned f [] (l ∷ ls) = ⊥
Aligned f (s ∷ ss) [] = ⊥
Aligned f (s ∷ ss) (l ∷ ls) = ((f s).priv ≡ some l) × Aligned f ss ls

abbrev pub Lacks : ℕ → List ℕ → Type 0
Lacks s ss = All (λ t. t ≢ s) ss

abbrev pub Distinct : List ℕ → Type 0
Distinct [] = Unit
Distinct (s ∷ ss) = Lacks s ss × Distinct ss

update-other : (s x : ℕ) (g : Stream3 → Stream3) (f : ℕ → Stream3) → x ≢ s → update s g f x ≡ f x
unfolding update
update-other s x g f n = rw (ne-== x s n) refl

pub update_self : (s : ℕ) (g : Stream3 → Stream3) (f : ℕ → Stream3) → update s g f s ≡ g (f s)
unfolding update
update_self s g f = rw (==-refl s) refl

pub Aligned-update :
    (f : ℕ → Stream3) (s : ℕ) (g : Stream3 → Stream3) (ss ls : List ℕ)
    → Lacks s ss
    → Aligned f ss ls
    → Aligned (update s g f) ss ls
Aligned-update f s g [] [] n a = tt
Aligned-update f s g [] (l ∷ ls) n a = absurd a
Aligned-update f s g (x ∷ ss) [] n a = absurd a
Aligned-update f s g (x ∷ ss) (l ∷ ls) n a =
    (ap (λ r. r.priv) (update-other s x g f n.0) ∙ a.0, Aligned-update f s g ss ls n.1 a.1)

pub Aligned-Lacks :
    (f : ℕ → Stream3) (s : ℕ) (ss ls : List ℕ) → (f s).priv ≡ none → Aligned f ss ls → Lacks s ss
Aligned-Lacks f s [] ls e a = tt
Aligned-Lacks f s (x ∷ ss) [] e a = absurd a
Aligned-Lacks f s (x ∷ ss) (l ∷ ls) e a = (
  λ same. let both : none ≡ some l = sym (ap (λ y. (f y).priv) same ∙ e) ∙ a.0 in cc,
  Aligned-Lacks f s ss ls e a.1,
)

pub Aligned-append :
    (f : ℕ → Stream3) (s l : ℕ) (ss ls : List ℕ)
    → Aligned f ss ls
    → (f s).priv ≡ some l
    → Aligned f (ss ++ s ∷ []) (ls ++ l ∷ [])
Aligned-append f s l [] [] a e = (e, tt)
Aligned-append f s l [] (m ∷ ls) a e = absurd a
Aligned-append f s l (x ∷ ss) [] a e = absurd a
Aligned-append f s l (x ∷ ss) (m ∷ ls) a e = (a.0, Aligned-append f s l ss ls a.1 e)

pub Distinct-append : (s : ℕ) (ss : List ℕ) → Distinct ss → Lacks s ss → Distinct (ss ++ s ∷ [])
Distinct-append s [] d n = (tt, tt)
Distinct-append s (x ∷ ss) d n =
    (All-append (λ t. t ≢ x) ss (s ∷ []) d.0 (λ e. n.0 (sym e), tt), Distinct-append s ss d.1 n.1)

-- What the loop of deleteStreams leaves.
pub record Deletes (only_inactive : Bool) (ss : List ℕ) (h : Heap) (r : List ℕ × List ℕ × Heap)
    : Type 0 where
  pub aligned : Aligned r.2.stream3s r.0 r.1
  pub distinct : Distinct r.0
  pub fewer : (x : ℕ) → Lacks x ss → Lacks x r.0
  pub untouched : (x : ℕ) → Lacks x ss → r.2.stream3s x ≡ h.stream3s x
  pub same_streams : r.2.streams ≡ h.streams
  pub active_left : only_inactive ≡ true → All (λ l. (h.streams l).active ≡ true) r.1
  pub none_left : only_inactive ≡ false → (r.0 ≡ []) × (r.1 ≡ [])

module _ (b : Bool) (s l : ℕ) (ss ls : List ℕ) (h : Heap) where
  delete_loop-deleted :
      is_deleted b h s ≡ some true
      → delete_loop b (s ∷ ss) (l ∷ ls) h ≡ delete_loop b ss ls (clear_priv s h)
  unfolding delete_loop
  delete_loop-deleted e = rw (e, delete_loop) refl

  delete_loop-kept :
      is_deleted b h s ≡ some false
      → delete_loop b (s ∷ ss) (l ∷ ls) h ≡ Option.map (keep_one s l) (delete_loop b ss ls h)
  unfolding delete_loop
  delete_loop-kept e = rw (e, delete_loop) refl

  Deletes-deleted :
      (r : List ℕ × List ℕ × Heap) → Deletes b ss (clear_priv s h) r → Deletes b (s ∷ ss) h r
  unfolding clear_priv
  Deletes-deleted r k = record {
    aligned = k.aligned;
    distinct = k.distinct;
    fewer = λ x n. k.fewer x n.1;
    untouched =
        λ x n. k.untouched x n.1 ∙ update-other s x (set_priv none) h.stream3s (λ e. n.0 (sym e));
    same_streams = k.same_streams;
    active_left = k.active_left;
    none_left = k.none_left;
  }

  Deletes-kept :
      (r : List ℕ × List ℕ × Heap)
      → (h.stream3s s).priv ≡ some l
      → Lacks s ss
      → (h.streams l).active ≡ true
      → b ≡ true
      → Deletes b ss h r
      → Deletes b (s ∷ ss) h (keep_one s l r)
  unfolding keep_one
  Deletes-kept r e n active only k = record {
    aligned = (ap (λ y. y.priv) (k.untouched s n) ∙ e, k.aligned);
    distinct = (k.fewer s n, k.distinct);
    fewer = λ x m. (m.0, k.fewer x m.1);
    untouched = λ x m. k.untouched x m.1;
    same_streams = k.same_streams;
    active_left = λ e'. (active, k.active_left e');
    none_left = λ e'. absurd cc;
  }

abbrev pub Loops : Bool → List ℕ → List ℕ → Heap → Type 0
Loops b ss ls h = (r : List ℕ × List ℕ × Heap) × (delete_loop b ss ls h ≡ some r) × Deletes b ss h r

-- The value of the test, with the stream at the same index.
test_known :
    (b : Bool) (s l : ℕ) (h : Heap)
    → (h.stream3s s).priv ≡ some l
    → (is_deleted b h s ≡ some true)
      ⊎ ((is_deleted b h s ≡ some false) × (b ≡ true) × ((h.streams l).active ≡ true))
unfolding is_deleted
test_known false s l h e = inl refl
test_known true s l h e = elim (Bool-cases (h.streams l).active) [
  | inl active ↦ inr (rw (e, active) refl, refl, active)
  | inr idle ↦ inl (rw (e, idle) refl)
]

pub delete_loop-Loops :
    (b : Bool) (ss ls : List ℕ) (h : Heap)
    → Aligned h.stream3s ss ls
    → Distinct ss
    → Loops b ss ls h
unfolding delete_loop clear_priv
delete_loop-Loops b [] [] h a d = (
  ([], [], h),
  refl,
  record {
    aligned = tt;
    distinct = tt;
    fewer = λ x n. n;
    untouched = λ x n. refl;
    same_streams = refl;
    active_left = λ e. tt;
    none_left = λ e. (refl, refl);
  },
)
delete_loop-Loops b [] (l ∷ ls) h a d = absurd a
delete_loop-Loops b (s ∷ ss) [] h a d = absurd a
delete_loop-Loops b (s ∷ ss) (l ∷ ls) h a d =
    let deleted =
      delete_loop-Loops b ss ls (clear_priv s h)
        (Aligned-update h.stream3s s (set_priv none) ss ls d.0 a.1) d.1 in
    let kept = delete_loop-Loops b ss ls h a.1 d.1 in
    elim (test_known b s l h a.0) [
      | inl e ↦
          let (r, e', k) = deleted in
          (r, delete_loop-deleted b s l ss ls h e ∙ e', Deletes-deleted b s l ss ls h r k)
      | inr (e, only, active) ↦
          let (r, e', k) = kept in
          (
            keep_one s l r,
            delete_loop-kept b s l ss ls h e ∙ ap (Option.map (keep_one s l)) e',
            Deletes-kept b s l ss ls h r a.0 d.0 active only k,
          )
    ]
