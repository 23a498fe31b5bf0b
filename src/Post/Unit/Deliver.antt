-- ===== src/Post/Unit/Deliver.antt =====
-- What a unit with output buffers of its streams delivers
-- (psl/rkisp1/workers/PostProcessPipeline.cpp).

use mathlib.Core.List.{append-nil, append_assoc}
use hardware_rockchip_camera.Base.{
  subst, sym, ap, ◌∙◌, ℕ, zero, suc, ◌≡◌, ◌≢◌, refl, ◌⊎◌, inl, inr, true, false, List, [], ◌∷◌,
  ◌++◌, Option, none, some, All, length, ◌==◌, if◌then◌else◌, Bool-cases, ==-refl, ne-==,
}
use hardware_rockchip_camera.Base.Signed.{pos, eqb_ℤ}
use hardware_rockchip_camera.Post.Unit.{
  PostProcBuffer, external, Notice, PostProcessUnit, UnitAnswers, need_next_input_frame,
  forward_to_next_unit, cleared, relayed, process_current, process_round, unit_event, round,
}

abbrev pub frame_requests : List (PostProcBuffer × ℕ) → List ℕ
frame_requests [] = []
frame_requests ((b, s) ∷ rest) = s ∷ frame_requests rest

-- A unit that fills buffers of its streams and is not in the middle of a frame.
pub record IsReady (u : PostProcessUnit) : Type 0 where
  pub fills_streams : u.buf_type ≡ external
  pub running : u.thread_running ≡ true
  pub no_output : u.cur_out ≡ none

-- Each frame is done in one round.
abbrev pub TakesOne : UnitAnswers → Type 0
TakesOne a =
    (b o : PostProcBuffer) (s : Option ℕ)
    → eqb_ℤ (a.process_frame b o s) need_next_input_frame ≡ false

abbrev delivery : UnitAnswers → PostProcBuffer → ℕ → PostProcBuffer → Notice
delivery a b s o = record {
  buffer = some o;
  settings = some s;
  err = if a.fence_signaled o then a.process_frame b o (some s) else pos 0;
}

-- A ready unit with its queues written out.
abbrev pub ready :
    PostProcessUnit
    → List (PostProcBuffer × ℕ)
    → List PostProcBuffer
    → Option PostProcBuffer
    → Option ℕ
    → List Notice
    → PostProcessUnit
ready u ins outs cur_in cur_settings notices = record u {
  buf_type = external;
  thread_running = true;
  in_buffers = ins;
  out_buffers = outs;
  cur_in = cur_in;
  cur_settings = cur_settings;
  cur_out = none;
  notices = notices;
}

pub IsReady-ready :
    (u : PostProcessUnit)
    → IsReady u
    → u ≡ ready u u.in_buffers u.out_buffers u.cur_in u.cur_settings u.notices
IsReady-ready u r = λ i. record u {
  buf_type = r.fills_streams i;
  thread_running = r.running i;
  cur_out = r.no_output i;
}

module _ (a : UnitAnswers) (u : PostProcessUnit) (b : PostProcBuffer) (s : ℕ)
    (ins : List (PostProcBuffer × ℕ)) (ci : Option PostProcBuffer) (cs : Option ℕ)
    (told : List Notice) where
  pub round-match :
      (o : PostProcBuffer) (os : List PostProcBuffer)
      → TakesOne a
      → s ≡ o.request_id
      → unit_event a round (ready u ((b, s) ∷ ins) (o ∷ os) ci cs told)
        ≡ ready u ins os none none (told ++ delivery a b s o ∷ [])
  unfolding unit_event process_round process_current cleared relayed
  round-match o os one e =
      let same : (s == o.request_id) ≡ true = rw e (==-refl o.request_id) in
      elim (Bool-cases (a.fence_signaled o)) [
        | inl signaled ↦
            elim (Bool-cases (eqb_ℤ (a.process_frame b o (some s)) forward_to_next_unit)) [
              | inl forward ↦ rw (same, unit_event, signaled, one b o (some s), forward) refl
              | inr other ↦ rw (same, unit_event, signaled, one b o (some s), other) refl
            ]
        | inr late ↦ rw (same, unit_event, late) refl
      ]

  pub round-miss :
      (o : PostProcBuffer) (os : List PostProcBuffer)
      → s ≢ o.request_id
      → unit_event a round (ready u ((b, s) ∷ ins) (o ∷ os) ci cs told)
        ≡ ready u ins (o ∷ os) (some b) (some s) told
  unfolding unit_event process_round process_current
  round-miss o os n = let e = ne-== s o.request_id n in rw (e, unit_event) refl

  pub round-spare :
      unit_event a round (ready u ((b, s) ∷ ins) [] ci cs told) ≡ ready u ins [] none none told
  unfolding unit_event process_round process_current cleared relayed
  round-spare = refl

-- The frames of the listed output buffers come in the order of the list.
abbrev pub Among : List PostProcBuffer → List (PostProcBuffer × ℕ) → Type 0
Among [] ins = Unit
Among (o ∷ os) [] = ⊥
Among (o ∷ os) ((b, s) ∷ ins) = ((s ≡ o.request_id) × Among os ins) ⊎ Among (o ∷ os) ins

-- No two frames are of one request.
abbrev pub Distinct : List ℕ → Type 0
Distinct [] = Unit
Distinct (s ∷ ss) = All (λ t. t ≢ s) ss × Distinct ss

-- One notice for each buffer, in order, with the settings of its request.
abbrev pub Hands : List PostProcBuffer → List Notice → Type 0
Hands [] [] = Unit
Hands [] (n ∷ ns) = ⊥
Hands (o ∷ os) [] = ⊥
Hands (o ∷ os) (n ∷ ns) = (n.buffer ≡ some o) × (n.settings ≡ some o.request_id) × Hands os ns

unfoldable pub rounds : UnitAnswers → ℕ → PostProcessUnit → PostProcessUnit
unfolding unit_event
rounds a zero u = u
rounds a (suc n) u = rounds a n (unit_event a round u)

pub record AllDelivered (u u' : PostProcessUnit) : Type 0 where
  pub no_frames : u'.in_buffers ≡ []
  pub no_buffers : u'.out_buffers ≡ []
  pub new_notices : List Notice
  pub told : u'.notices ≡ u.notices ++ new_notices
  pub handed : Hands u.out_buffers new_notices

Among-absent :
    (o : PostProcBuffer) (os : List PostProcBuffer) (ins : List (PostProcBuffer × ℕ))
    → All (λ t. t ≢ o.request_id) (frame_requests ins)
    → Among (o ∷ os) ins
    → ⊥
Among-absent o os [] h m = m
Among-absent o os ((b, s) ∷ ins) h (inl (e, _)) = h.0 e
Among-absent o os ((b, s) ∷ ins) h (inr m) = Among-absent o os ins h.1 m

-- A round that leaves the queues and notices as given, before rounds that deliver the rest.
module _ (a : UnitAnswers) (u v w w' : PostProcessUnit) (k : AllDelivered w w') where
  with_quiet_round : v.notices ≡ w.notices → v.out_buffers ≡ w.out_buffers → AllDelivered v w'
  with_quiet_round same left = record {
    no_frames = k.no_frames;
    no_buffers = k.no_buffers;
    new_notices = k.new_notices;
    told = k.told ∙ ap (λ ns. ns ++ k.new_notices) (sym same);
    handed = subst (λ os. Hands os k.new_notices) (sym left) k.handed;
  }

  with_delivery :
      (o : PostProcBuffer) (n : Notice)
      → v.out_buffers ≡ o ∷ w.out_buffers
      → w.notices ≡ v.notices ++ n ∷ []
      → n.buffer ≡ some o
      → n.settings ≡ some o.request_id
      → AllDelivered v w'
  with_delivery o n left more buffer settings = record {
    no_frames = k.no_frames;
    no_buffers = k.no_buffers;
    new_notices = n ∷ k.new_notices;
    told =
        k.told
        ∙ ap (λ ns. ns ++ k.new_notices) more
        ∙ append_assoc v.notices (n ∷ []) k.new_notices;
    handed = subst (λ os. Hands os (n ∷ k.new_notices)) (sym left) (buffer, settings, k.handed);
  }

module _ (a : UnitAnswers) (one : TakesOne a) (u : PostProcessUnit) where
  deliver :
      (ins : List (PostProcBuffer × ℕ)) (outs : List PostProcBuffer) (ci : Option PostProcBuffer)
      (cs : Option ℕ) (told : List Notice)
      → Distinct (frame_requests ins)
      → Among outs ins
      → AllDelivered
          (ready u ins outs ci cs told)
          (rounds a (length ins) (ready u ins outs ci cs told))
  unfolding rounds
  deliver [] [] ci cs told d m = record {
    no_frames = refl;
    no_buffers = refl;
    new_notices = [];
    told = sym (append-nil told);
    handed = tt;
  }
  deliver [] (o ∷ os) ci cs told d m = absurd m
  deliver ((b, s) ∷ ins) [] ci cs told d m =
      let v = ready u ((b, s) ∷ ins) [] ci cs told in
      subst (λ w. AllDelivered v (rounds a (length ins) w))
        (sym (round-spare a u b s ins ci cs told))
        (with_quiet_round a u v _ _ (deliver ins [] none none told d.1 tt) refl refl)
  deliver ((b, s) ∷ ins) (o ∷ os) ci cs told d (inl (e, m)) =
      let v = ready u ((b, s) ∷ ins) (o ∷ os) ci cs told in
      let n = delivery a b s o in
      subst (λ w. AllDelivered v (rounds a (length ins) w))
        (sym (round-match a u b s ins ci cs told o os one e))
        (with_delivery a u v _ _ (deliver ins os none none (told ++ n ∷ []) d.1 m) o n refl refl
          refl (ap some e))
  deliver ((b, s) ∷ ins) (o ∷ os) ci cs told d (inr m) =
      let v = ready u ((b, s) ∷ ins) (o ∷ os) ci cs told in
      let later = deliver ins (o ∷ os) (some b) (some s) told d.1 m in
      let other : s ≢ o.request_id =
        λ e. Among-absent o os ins (subst (λ t. All (λ x. x ≢ t) (frame_requests ins)) e d.0) m in
      subst (λ w. AllDelivered v (rounds a (length ins) w))
        (sym (round-miss a u b s ins ci cs told o os other))
        (with_quiet_round a u v _ _ later refl refl)

-- A ready unit of which each frame is done in one round, with frames of different requests, among which are those of its output buffers in their order, takes all frames in as many rounds and hands each buffer over once, in order and with the settings of its request.
pub rounds-AllDelivered :
    (a : UnitAnswers) (u : PostProcessUnit)
    → TakesOne a
    → IsReady u
    → Distinct (frame_requests u.in_buffers)
    → Among u.out_buffers u.in_buffers
    → AllDelivered u (rounds a (length u.in_buffers) u)
rounds-AllDelivered a u one r d m =
    subst (λ w. AllDelivered w (rounds a (length u.in_buffers) w)) (sym (IsReady-ready u r))
      (deliver a one u u.in_buffers u.out_buffers u.cur_in u.cur_settings u.notices d m)
