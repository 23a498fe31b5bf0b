-- ===== src/Capture/Thread/Configure/InStep.antt =====
-- handleConfigureStreams of AAL/RequestThread.cpp never goes through nullptr, and keeps mStreams and
-- mLocalStreams in step.
use mathlib.Core.Option
use hardware_rockchip_camera.Base.{
  subst, sym, ap, ℕ, zero, suc, ◌≡◌, refl, ◌⊎◌, inl, inr, Bool, true, false, List, [], ◌∷◌, Option,
  none, some, All, if_rule, Option-cases,
}
use hardware_rockchip_camera.Status.{Status, bad_value, is_ok}
use hardware_rockchip_camera.Capture.Stream.{Heap, CameraStream, on_stream, update, set_active}
use hardware_rockchip_camera.Capture.Thread.{
  RequestThread, Answers, wait_requests_drain, drain_all, release_request, wait_on, set_request,
}
use hardware_rockchip_camera.Capture.Thread.Configure.{
  HwAnswers, mark, mark_all_inactive, set_priv, create_stream, add_stream, add_streams,
  with_streams, delete_streams, configure_hw, accepted_streams, checked_streams, count_streams,
  handle_configure_streams,
}
use hardware_rockchip_camera.Capture.Thread.Configure.Unfit.{
  IsRefused, IsUnfit, count_streams-IsUnfit,
}
use hardware_rockchip_camera.Capture.Thread.Configure.Aligned.{
  Aligned, Distinct, delete_loop-Loops, Aligned-update, Aligned-Lacks, Aligned-append,
  Distinct-append, update_self,
}

-- The two vectors are in step, and no stream is listed twice.
pub record InStep (t : RequestThread) : Type 0 where
  pub aligned : Aligned t.heap.stream3s t.streams t.local_streams
  pub distinct : Distinct t.streams

abbrev pub AllActive : RequestThread → Type 0
AllActive t = All (λ l. (t.heap.streams l).active ≡ true) t.local_streams

abbrev pub HasNone : RequestThread → Type 0
HasNone t = (t.streams ≡ []) × (t.local_streams ≡ [])

Deleted : Bool → RequestThread → Type 0
Deleted b t =
    (t' : RequestThread) × (delete_streams b t ≡ some t')
    × InStep t'
    × (b ≡ true → AllActive t')
    × (b ≡ false → HasNone t')

delete_streams-Deleted : (b : Bool) (t : RequestThread) → InStep t → Deleted b t
unfolding Deleted delete_streams with_streams
delete_streams-Deleted b t o =
    let (r, e, k) = delete_loop-Loops b t.streams t.local_streams t.heap o.aligned o.distinct in
    (
      with_streams t r,
      ap (Option.map (with_streams t)) e,
      record { aligned = k.aligned; distinct = k.distinct },
      (λ only.
          subst (λ (f : ℕ → CameraStream). All (λ l. (f l).active ≡ true) r.1) (sym k.same_streams)
            (k.active_left only)),
      k.none_left,
    )

add_stream-InStep :
    (allocate : ℕ → ℕ) (s : ℕ) (t : RequestThread) → InStep t → InStep (add_stream allocate s t)
unfolding add_stream create_stream on_stream set_priv
add_stream-InStep allocate s t o = elim (Option-cases (t.heap.stream3s s).priv) [
  | inl e ↦
      let c = allocate t.stream_seq_no in
      let lacks = Aligned-Lacks t.heap.stream3s s t.streams t.local_streams e o.aligned in
      rw (e, add_stream)
        (record {
          aligned =
              Aligned-append (update s (set_priv (some c)) t.heap.stream3s) s c t.streams
                t.local_streams
                (Aligned-update t.heap.stream3s s (set_priv (some c)) t.streams t.local_streams
                  lacks o.aligned)
                (ap (λ r. r.priv) (update_self s (set_priv (some c)) t.heap.stream3s));
          distinct = Distinct-append s t.streams o.distinct lacks;
        })
  | inr (c, e) ↦ rw (e, add_stream) (record { aligned = o.aligned; distinct = o.distinct })
]

add_streams-InStep :
    (allocate : ℕ → ℕ) (ss : List ℕ) (t : RequestThread)
    → InStep t
    → InStep (add_streams allocate ss t)
unfolding add_streams
add_streams-InStep allocate [] t o = o
add_streams-InStep allocate (s ∷ ss) t o =
    add_streams-InStep allocate ss (add_stream allocate s t) (add_stream-InStep allocate s t o)

mark_all_inactive-Aligned :
    (ss ls : List ℕ) (h : Heap)
    → Aligned h.stream3s ss ls
    → (h' : Heap) × (mark_all_inactive ss h ≡ some h') × (h'.stream3s ≡ h.stream3s)
unfolding mark_all_inactive mark on_stream
mark_all_inactive-Aligned [] ls h a = (h, refl, refl)
mark_all_inactive-Aligned (s ∷ ss) [] h a = absurd a
mark_all_inactive-Aligned (s ∷ ss) (l ∷ ls) h a =
    let h1 = on_stream l (set_active false) h in
    let (h', e, same) = mark_all_inactive-Aligned ss ls h1 a.1 in
    (h', rw (a.0, mark_all_inactive) e, same)

-- Waiting for the active requests leaves the streams alone.
abbrev SameStreams : RequestThread → RequestThread → Type 0
SameStreams t t' =
    (t'.heap ≡ t.heap) × (t'.streams ≡ t.streams) × (t'.local_streams ≡ t.local_streams)

drain_all-SameStreams :
    (a : Answers) (xs : List ℕ) (t : RequestThread) → SameStreams t (drain_all a xs t)
unfolding drain_all release_request wait_on set_request
drain_all-SameStreams a [] t = (refl, refl, refl)
drain_all-SameStreams a (x ∷ xs) t =
    let rest = drain_all-SameStreams a xs (release_request x (wait_on a x t)) in rest

drained-SameStreams : (a : Answers) (t : RequestThread) → SameStreams t (wait_requests_drain a t)
unfolding wait_requests_drain
drained-SameStreams a t = drain_all-SameStreams a t.active_request t

InStep-same : (t t' : RequestThread) → SameStreams t t' → InStep t → InStep t'
InStep-same t t' (h, s, l) o = record {
  aligned = rw (h, s, l) o.aligned;
  distinct = rw s o.distinct;
}

AllActive-same : (t t' : RequestThread) → SameStreams t t' → AllActive t → AllActive t'
AllActive-same t t' (h, s, l) o = rw (h, l) o

abbrev Leads : HwAnswers → RequestThread → Type 0 → Option (RequestThread × Status) → Type 0
Leads hw t refused r =
    (t' : RequestThread) × (status : Status) × (r ≡ some (t', status))
    × InStep t'
    × ((refused
          × (status ≡ bad_value)
          × (t'.streams ≡ t.streams)
          × (t'.local_streams ≡ t.local_streams))
        ⊎ ((¬ refused)
            × (is_ok hw.config_streams ≡ false)
            × (status ≡ hw.config_streams)
            × HasNone t')
        ⊎ ((¬ refused)
            × (is_ok hw.config_streams ≡ true)
            × (status ≡ hw.bind_streams)
            × AllActive t'))

module _ (a : Answers) (hw : HwAnswers) (list : List ℕ) where
  configure_hw-Leads :
      (n : ℕ) (t0 t : RequestThread) → InStep t → AllActive t → Leads hw t0 ⊥ (configure_hw a hw t)
  unfolding configure_hw Deleted
  configure_hw-Leads n t0 t o active =
      let t' = wait_requests_drain a t in
      let same = drained-SameStreams a t in
      let o' = InStep-same t t' same o in
      let (u, e, left, _, empty) = delete_streams-Deleted false t' o' in
      if_rule (Leads hw t0 ⊥) (is_ok hw.config_streams) _ _
        (λ yes. (
          t',
          hw.bind_streams,
          refl,
          o',
          inr (inr (λ k. k, yes, refl, AllActive-same t t' same active)),
        ))
        (λ no. (
          u,
          hw.config_streams,
          ap (Option.map (λ v. (v, hw.config_streams))) e,
          left,
          inr (inl (λ k. k, no, refl, empty refl)),
        ))

  accepted_streams-Leads :
      (n : ℕ) (t : RequestThread) (h : Heap)
      → InStep t
      → h.stream3s ≡ t.heap.stream3s
      → Leads hw t ⊥ (accepted_streams a hw list t (some h))
  unfolding accepted_streams Deleted
  accepted_streams-Leads n t h o same =
      let t1 = record t { heap = h } in
      let o1 : InStep t1 = record { aligned = rw same o.aligned; distinct = o.distinct } in
      let t2 = add_streams hw.allocate list t1 in
      let o2 = add_streams-InStep hw.allocate list t1 o1 in
      let (u, e, left, active, _) = delete_streams-Deleted true t2 o2 in
      rw (e, accepted_streams) (configure_hw-Leads n t u left (active refl))

  checked_streams-Leads :
      (t : RequestThread) (count : Option ℕ)
      → InStep t
      → Leads hw t (IsRefused count) (checked_streams a hw list t count)
  unfolding checked_streams
  checked_streams-Leads t none o = (t, bad_value, refl, o, inl (tt, refl, refl, refl))
  checked_streams-Leads t (some zero) o = (t, bad_value, refl, o, inl (tt, refl, refl, refl))
  checked_streams-Leads t (some (suc n)) o =
      let (h, e, same) = mark_all_inactive-Aligned t.streams t.local_streams t.heap o.aligned in
      rw e (accepted_streams-Leads n t h o same)

abbrev pub Configured :
    HwAnswers → RequestThread → List ℕ → Option (RequestThread × Status) → Type 0
Configured hw t list r = Leads hw t (IsUnfit t.heap list) r

-- Two ways to say when a list is refused.
Leads-same :
    (hw : HwAnswers) (t : RequestThread) (P Q : Type 0) (r : Option (RequestThread × Status))
    → (P → Q)
    → (Q → P)
    → Leads hw t P r
    → Leads hw t Q r
Leads-same hw t P Q r f g (t', status, e, o, outcome) = (
  t',
  status,
  e,
  o,
  elim outcome [
    | inl q ↦ inl (f q.0, q.1, q.2, q.3)
    | inr (inl q) ↦ inr (inl (λ k. q.0 (g k), q.1, q.2, q.3))
    | inr (inr q) ↦ inr (inr (λ k. q.0 (g k), q.1, q.2, q.3))
  ],
)

-- With mStreams and mLocalStreams in step and no stream standing twice in mStreams, configuring streams never goes through nullptr nor erases behind the end, and they are in step again: with a list without output stream, with two input streams or more or with an unknown type (a bidirectional stream being both an input and an output) the code is BAD_VALUE and they are as they were; else, where the hardware refuses, the code is its answer and no stream is left; else every stream left is active and the code is that of bindStreams.
pub handle_configure_streams-Configured :
    (a : Answers) (hw : HwAnswers) (list : List ℕ) (t : RequestThread)
    → InStep t
    → Configured hw t list (handle_configure_streams a hw list t)
unfolding handle_configure_streams
handle_configure_streams-Configured a hw list t o =
    let (fits, refuses) = count_streams-IsUnfit t.heap list in
    Leads-same hw t (IsRefused (count_streams t.heap list 0 0)) (IsUnfit t.heap list)
      (handle_configure_streams a hw list t) fits refuses
      (checked_streams-Leads a hw list (record t { last_settings = none; waiting_request = none })
        (count_streams t.heap list 0 0) (record { aligned = o.aligned; distinct = o.distinct }))
