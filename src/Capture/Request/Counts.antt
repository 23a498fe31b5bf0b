-- ===== src/Capture/Request/Counts.antt =====
-- What Camera3Request::init (AAL/Camera3Request.cpp) does to the request and to the counters of its
-- streams.
use mathlib.Core.List.{append_assoc, append-nil}
use hardware_rockchip_camera.Base.{
  subst, sym, ap, ◌∙◌, ℕ, suc, ◌≡◌, refl, ◌⊎◌, inl, inr, List, [], ◌∷◌, ◌++◌, Option, none, some,
  arith, Bool, true, false, Option-cases, ◌==◌, if◌then◌else◌, if_rule,
}
use hardware_rockchip_camera.Base.Signed.{ℤ, pos, ◌+ℤ◌, +ℤ_parts, eq_of_parts}
use hardware_rockchip_camera.Status.{Status, ok, bad_value, is_ok}
use hardware_rockchip_camera.Capture.Stream.{
  Heap, Stream3, CameraStream, on_stream, update, inc_out_buffers_in_hal,
}
use hardware_rockchip_camera.Capture.Request.Order.{priv_streams}
use hardware_rockchip_camera.Capture.Request.{
  StreamBuffer, CameraBuffer, Camera3Request, Init, crashed, returned, wrap, add_output,
  init_outputs, de_init,
}

abbrev pub in_hal : Heap → ℕ → ℤ
in_hal h s = (h.streams s).output_buffers_in_hal

abbrev priv_count : Option ℕ → ℕ → ℕ → ℕ
priv_count none s n = n
priv_count (some t) s n = if s == t then suc n else n

-- How many of the buffers belong to the stream `s`.
abbrev pub buffers_of : (ℕ → Stream3) → ℕ → List StreamBuffer → ℕ
buffers_of stream3s s [] = 0
buffers_of stream3s s (b ∷ bs) = priv_count (stream3s b.stream).priv s (buffers_of stream3s s bs)

-- Every counter went up by the number of the buffers of its stream.
pub record CountsUp (h : Heap) (bs : List StreamBuffer) (h' : Heap) : Type 0 where
  pub same_streams : h'.stream3s ≡ h.stream3s
  pub counted : (s : ℕ) → in_hal h' s ≡ in_hal h s +ℤ pos (buffers_of h.stream3s s bs)

+ℤ_zero : (z : ℤ) → z ≡ z +ℤ pos 0
+ℤ_zero z = eq_of_parts z (z +ℤ pos 0) (omega (arith, +ℤ_parts z (pos 0)))

+ℤ_suc : (z : ℤ) (n : ℕ) → (z +ℤ pos 1) +ℤ pos n ≡ z +ℤ pos (suc n)
+ℤ_suc z n =
    eq_of_parts _ _
      (omega (arith, +ℤ_parts z (pos 1), +ℤ_parts (z +ℤ pos 1) (pos n), +ℤ_parts z (pos (suc n))))

pub CountsUp-none : (h : Heap) → CountsUp h [] h
CountsUp-none h = record { same_streams = refl; counted = λ s. +ℤ_zero (in_hal h s) }

inc_if :
    (b : Bool) (x : CameraStream)
    → (if b then inc_out_buffers_in_hal x else x).output_buffers_in_hal
      ≡ (if b then x.output_buffers_in_hal +ℤ pos 1 else x.output_buffers_in_hal)
unfolding inc_out_buffers_in_hal
inc_if true x = refl
inc_if false x = refl

in_hal-inc :
    (h : Heap) (t s : ℕ)
    → in_hal (on_stream t inc_out_buffers_in_hal h) s
      ≡ (if s == t then in_hal h s +ℤ pos 1 else in_hal h s)
unfolding on_stream update
in_hal-inc h t s = inc_if (s == t) (h.streams s)

count_if :
    (b : Bool) (z : ℤ) (n : ℕ)
    → (if b then z +ℤ pos 1 else z) +ℤ pos n ≡ z +ℤ pos (if b then suc n else n)
count_if true z n = +ℤ_suc z n
count_if false z n = refl

CountsUp-cons :
    (h : Heap) (b : StreamBuffer) (bs : List StreamBuffer) (t : ℕ) (h' : Heap)
    → (h.stream3s b.stream).priv ≡ some t
    → CountsUp (on_stream t inc_out_buffers_in_hal h) bs h'
    → CountsUp h (b ∷ bs) h'
unfolding on_stream
CountsUp-cons h b bs t h' e c = record {
  same_streams = c.same_streams;
  counted = λ s. rw e (
      c.counted s
      ∙ ap (λ z. z +ℤ pos (buffers_of h.stream3s s bs)) (in_hal-inc h t s)
      ∙ count_if (s == t) (in_hal h s) (buffers_of h.stream3s s bs));
}

wrap_owner : (register : ℕ → ℤ) (id handle s : ℕ) → (wrap register id handle s).0.owner ≡ s
unfolding wrap
wrap_owner register id handle s = ground arith

-- The request holds some more buffers.
pub record Taken (bs : List StreamBuffer) (r r' : Camera3Request) : Type 0 where
  pub out_taken : r'.out_buffers ≡ r.out_buffers ++ bs
  pub same_in_buffers : r'.in_buffers ≡ r.in_buffers
  pub same_in_streams : r'.in_streams ≡ r.in_streams
  pub same_out_streams : r'.out_streams ≡ r.out_streams

-- The counters went up for the first of the buffers, up to some point.
abbrev pub CountsUpPart : Heap → List StreamBuffer → Heap → Type 0
CountsUpPart h bs h' =
    (done : List StreamBuffer) × (rest : List StreamBuffer) × (bs ≡ done ++ rest)
    × CountsUp h done h'

abbrev pub OutputsDone : Heap → List StreamBuffer → Camera3Request → Init → Type 0
OutputsDone h bs r crashed = priv_streams h.stream3s bs ≡ none
OutputsDone h bs r (returned h' r' status) =
    ((status ≡ ok) × CountsUp h bs h' × Taken bs r r')
    ⊎ ((status ≡ bad_value) × (r'.initialized ≡ false) × CountsUpPart h bs h')

OutputsDone-cons :
    (h : Heap) (b : StreamBuffer) (bs : List StreamBuffer) (r : Camera3Request) (c : CameraBuffer)
    (i : Init)
    → (h.stream3s b.stream).priv ≡ some c.owner
    → OutputsDone (add_output h b c r).0 bs (add_output h b c r).1 i
    → OutputsDone h (b ∷ bs) r i
unfolding add_output on_stream priv_streams
OutputsDone-cons h b bs r c crashed e d = rw (e, d) refl
OutputsDone-cons h b bs r c (returned h' r' status) e (inl (s, up, t)) = inl (
  s,
  CountsUp-cons h b bs c.owner h' e up,
  record {
    out_taken = t.out_taken ∙ append_assoc r.out_buffers (b ∷ []) bs;
    same_in_buffers = t.same_in_buffers;
    same_in_streams = t.same_in_streams;
    same_out_streams = t.same_out_streams;
  },
)
OutputsDone-cons h b bs r c (returned h' r' status) e (inr (s, n, (done, rest, split, up))) =
    inr (s, n, (b ∷ done, rest, ap (λ xs. b ∷ xs) split, CountsUp-cons h b done c.owner h' e up))

module _ (register : ℕ → ℤ) (id : ℕ) (b : StreamBuffer) (bs : List StreamBuffer) (h : Heap)
    (r : Camera3Request) where
  abbrev wrapped_rest : CameraBuffer × Status → Init
  wrapped_rest (c, status) =
      if is_ok status
      then init_outputs register id bs (add_output h b c r).0 (add_output h b c r).1
      else returned h (de_init r) bad_value

  init_outputs-none :
      (h.stream3s b.stream).priv ≡ none → init_outputs register id (b ∷ bs) h r ≡ crashed
  unfolding init_outputs
  init_outputs-none e = rw (e, init_outputs) refl

  init_outputs-some :
      (s : ℕ)
      → (h.stream3s b.stream).priv ≡ some s
      → init_outputs register id (b ∷ bs) h r ≡ wrapped_rest (wrap register id b.handle s)
  unfolding init_outputs
  init_outputs-some s e = rw (e, init_outputs) refl

  wrapped_rest-Done :
      (s : ℕ) (w : CameraBuffer × Status)
      → (h.stream3s b.stream).priv ≡ some s
      → w.0.owner ≡ s
      → OutputsDone
          (add_output h b w.0 r).0
          bs
          (add_output h b w.0 r).1
          (init_outputs register id bs (add_output h b w.0 r).0 (add_output h b w.0 r).1)
      → OutputsDone h (b ∷ bs) r (wrapped_rest w)
  unfolding de_init
  wrapped_rest-Done s (c, status) e o d =
      if_rule (OutputsDone h (b ∷ bs) r) (is_ok status) _ _
        (λ _. OutputsDone-cons h b bs r c _ (e ∙ ap some (sym o)) d)
        (λ _. inr (refl, refl, ([], b ∷ bs, refl, CountsUp-none h)))

pub init_outputs-Done :
    (register : ℕ → ℤ) (id : ℕ) (bs : List StreamBuffer) (h : Heap) (r : Camera3Request)
    → OutputsDone h bs r (init_outputs register id bs h r)
unfolding init_outputs priv_streams
init_outputs-Done register id [] h r = inl (
  refl,
  CountsUp-none h,
  record {
    out_taken = sym (append-nil r.out_buffers);
    same_in_buffers = refl;
    same_in_streams = refl;
    same_out_streams = refl;
  },
)
init_outputs-Done register id (b ∷ bs) h r = elim (Option-cases (h.stream3s b.stream).priv) [
  | inl e ↦
      subst (OutputsDone h (b ∷ bs) r) (sym (init_outputs-none register id b bs h r e)) (rw e refl)
  | inr (s, e) ↦
      let w = wrap register id b.handle s in
      subst (OutputsDone h (b ∷ bs) r) (sym (init_outputs-some register id b bs h r s e)) (
        wrapped_rest-Done register id b bs h r s w e (wrap_owner register id b.handle s)
          (init_outputs-Done register id bs (add_output h b w.0 r).0 (add_output h b w.0 r).1))
]
