-- ===== src/Post/Unit/Forward.antt =====
-- What a unit with buffers of its own, or of the unit before it, passes on
-- (psl/rkisp1/workers/PostProcessPipeline.cpp).
use mathlib.Core.List.{append-nil, append_assoc}
use hardware_rockchip_camera.Base.{
  subst, sym, ap, ◌∙◌, ℕ, ◌≡◌, refl, ◌⊎◌, inl, inr, true, List, [], ◌∷◌, ◌++◌, Option, none, some,
  map, length, Bool-cases, Option-cases, if◌then◌else◌,
}
use hardware_rockchip_camera.Base.Signed.{eqb_ℤ}
use hardware_rockchip_camera.Post.Unit.{
  PostProcBuffer, PostProcBufType, internal, previous, external, Notice, PostProcessUnit,
  UnitAnswers, forward_to_next_unit, process_round, unit_event, round, cleared, relayed,
  process_current,
}
use hardware_rockchip_camera.Post.Unit.Deliver.{TakesOne, rounds}

-- A unit with its queues written out, and no output buffer taken.
abbrev pub passing :
    PostProcessUnit
    → PostProcBufType
    → List (PostProcBuffer × ℕ)
    → Option PostProcBuffer
    → Option ℕ
    → List Notice
    → PostProcessUnit
passing u t ins ci cs told = record u {
  buf_type = t;
  thread_running = true;
  in_buffers = ins;
  cur_in = ci;
  cur_settings = cs;
  cur_out = none;
  notices = told;
}

processed : UnitAnswers → PostProcBuffer → PostProcBuffer → ℕ → Notice
processed a b o s = record {
  buffer = some o;
  settings = some s;
  err = a.process_frame b o (some s);
}

-- The frame itself is passed on where the internal pool has no buffer left, and where processFrame
-- asks for that.
with_internal : UnitAnswers → PostProcBuffer → ℕ → Option PostProcBuffer → Notice
unfolding processed
with_internal a b s none = record { buffer = some b; settings = some s; err = forward_to_next_unit }
with_internal a b s (some o) =
    if eqb_ℤ (a.process_frame b o (some s)) forward_to_next_unit
    then record (processed a b o s) { buffer = some b }
    else processed a b o s

-- The notice for a frame.
unfoldable pub passed : UnitAnswers → PostProcBufType → PostProcBuffer × ℕ → Notice
unfolding with_internal
passed a internal (b, s) = with_internal a b s (a.internal_buffer s)
passed a previous (b, s) = processed a b b s
passed a external (b, s) = processed a b b s

module _ (a : UnitAnswers) (u : PostProcessUnit) (one : TakesOne a) (b : PostProcBuffer) (s : ℕ)
    (ins : List (PostProcBuffer × ℕ)) (ci : Option PostProcBuffer) (cs : Option ℕ)
    (told : List Notice) where
  round_internal :
      unit_event a round (passing u internal ((b, s) ∷ ins) ci cs told)
      ≡ passing u internal ins none none (told ++ passed a internal (b, s) ∷ [])
  unfolding unit_event process_round process_current cleared relayed passed
  round_internal = elim (Option-cases (a.internal_buffer s)) [
    | inl e ↦ rw (e, unit_event) refl
    | inr (o, e) ↦ elim (Bool-cases (eqb_ℤ (a.process_frame b o (some s)) forward_to_next_unit)) [
      | inl forward ↦ rw (e, unit_event, one b o (some s), forward) refl
      | inr other ↦ rw (e, unit_event, one b o (some s), other) refl
    ]
  ]

  round_previous :
      unit_event a round (passing u previous ((b, s) ∷ ins) ci cs told)
      ≡ passing u previous ins none none (told ++ passed a previous (b, s) ∷ [])
  unfolding unit_event process_round process_current cleared relayed passed
  round_previous = elim (Bool-cases (eqb_ℤ (a.process_frame b b (some s)) forward_to_next_unit)) [
    | inl forward ↦ rw (unit_event, one b b (some s), forward) refl
    | inr other ↦ rw (unit_event, one b b (some s), other) refl
  ]

-- A unit that passes buffers on and is not in the middle of a frame.
pub record Passes (u : PostProcessUnit) : Type 0 where
  pub not_external : (u.buf_type ≡ internal) ⊎ (u.buf_type ≡ previous)
  pub running : u.thread_running ≡ true
  pub no_output : u.cur_out ≡ none

-- No frame is left, and the notices are as given.
abbrev pub Ends : List Notice → PostProcessUnit → Type 0
Ends told u = (u.in_buffers ≡ []) × (u.notices ≡ told)

module _ (a : UnitAnswers) (one : TakesOne a) (u : PostProcessUnit) where
  round_passes :
      (t : PostProcBufType) (b : PostProcBuffer) (s : ℕ) (ins : List (PostProcBuffer × ℕ))
      (ci : Option PostProcBuffer) (cs : Option ℕ) (told : List Notice)
      → (t ≡ internal) ⊎ (t ≡ previous)
      → unit_event a round (passing u t ((b, s) ∷ ins) ci cs told)
        ≡ passing u t ins none none (told ++ passed a t (b, s) ∷ [])
  round_passes internal b s ins ci cs told k = round_internal a u one b s ins ci cs told
  round_passes previous b s ins ci cs told k = round_previous a u one b s ins ci cs told
  round_passes external b s ins ci cs told (inl e) = absurd (cc)
  round_passes external b s ins ci cs told (inr e) = absurd (cc)

  passes_all :
      (t : PostProcBufType) (ins : List (PostProcBuffer × ℕ)) (ci : Option PostProcBuffer)
      (cs : Option ℕ) (told : List Notice)
      → (t ≡ internal) ⊎ (t ≡ previous)
      → Ends (told ++ map (passed a t) ins) (rounds a (length ins) (passing u t ins ci cs told))
  unfolding rounds
  passes_all t [] ci cs told k = (refl, sym (append-nil told))
  passes_all t ((b, s) ∷ ins) ci cs told k =
      let n = passed a t (b, s) in
      let (empty, more) = passes_all t ins none none (told ++ n ∷ []) k in
      subst (λ w. Ends (told ++ map (passed a t) ((b, s) ∷ ins)) (rounds a (length ins) w))
        (sym (round_passes t b s ins ci cs told k))
        (empty, more ∙ append_assoc told (n ∷ []) (map (passed a t) ins))

-- A unit with buffers of its own or of the unit before it, of which each frame is done in one round, takes all frames in as many rounds and tells its listeners once for each, in order and with the settings of its request: the buffer is the frame's own where there is no other or where processFrame asks to forward the frame, and the processed one else.
pub rounds-Ends :
    (a : UnitAnswers) (u : PostProcessUnit)
    → TakesOne a
    → Passes u
    → Ends (u.notices ++ map (passed a u.buf_type) u.in_buffers) (rounds a (length u.in_buffers) u)
rounds-Ends a u one p =
    let here : u ≡ passing u u.buf_type u.in_buffers u.cur_in u.cur_settings u.notices =
      λ i. record u { thread_running = p.running i; cur_out = p.no_output i } in
    let told =
      passes_all a one u u.buf_type u.in_buffers u.cur_in u.cur_settings u.notices p.not_external in
    subst (Ends (u.notices ++ map (passed a u.buf_type) u.in_buffers))
      (ap (rounds a (length u.in_buffers)) (sym here)) told
