-- ===== src/Capture/Hal/Configured.antt =====
-- What Camera3HAL::configure_streams of AAL/Camera3HAL.cpp answers.
use mathlib.Core.Option
use hardware_rockchip_camera.Base.{
  ap, sym, subst, ◌∙◌, ℕ, ◌≡◌, refl, ◌⊎◌, inl, inr, true, false, List, [], ◌∷◌, Option, none, some,
  Option-cases, Bool-cases,
}
use hardware_rockchip_camera.Base.Signed.{ℤ, pos}
use hardware_rockchip_camera.Status.{Status, bad_value, is_ok}
use hardware_rockchip_camera.Capture.Thread.{RequestThread, Answers}
use hardware_rockchip_camera.Capture.Thread.Configure.{HwAnswers}
use hardware_rockchip_camera.Capture.Thread.Configure.Unfit.{IsUnfit}
use hardware_rockchip_camera.Capture.Thread.Configure.InStep.{
  InStep, AllActive, handle_configure_streams-Configured,
}
use hardware_rockchip_camera.Capture.Hal.{
  einval, all_set, listed_streams, configure_code, with_code, configure_listed, configure_streams,
}

-- An array of pointers of which none is nullptr.
abbrev pub pointers_to : List ℕ → List (Option ℕ)
pointers_to [] = []
pointers_to (s ∷ ss) = some s ∷ pointers_to ss

all_set-pointers_to : (ss : List ℕ) → all_set (pointers_to ss) ≡ some ss
unfolding all_set
all_set-pointers_to [] = refl
all_set-pointers_to (s ∷ ss) = rw (all_set-pointers_to ss) refl

some_set : (ps : List (Option ℕ)) (ss : List ℕ) → all_set ps ≡ some ss → ps ≡ pointers_to ss
unfolding all_set
some_set [] [] e = refl
some_set [] (s ∷ ss) e = absurd cc
some_set (none ∷ ps) ss e = absurd cc
some_set (some p ∷ ps) ss e = elim (Option-cases (all_set ps)) [
  | inl bad ↦ let e' : none ≡ some ss = sym (ap (Option.map (λ qs. p ∷ qs)) bad) ∙ e in absurd cc
  | inr (qs, good) ↦
      let same : some (p ∷ qs) ≡ some ss = sym (ap (Option.map (λ rs. p ∷ rs)) good) ∙ e in
      let listed : p ∷ qs ≡ ss = cc in
      ap (λ rs. some p ∷ rs) (some_set ps qs good) ∙ ap pointers_to listed
]

-- Streams that the thread accepts, with a hardware that accepts them.
abbrev AreAccepted : HwAnswers → RequestThread → List ℕ → Type 0
AreAccepted hw t ss =
    (¬ (IsUnfit t.heap ss)) × (is_ok hw.config_streams ≡ true) × (is_ok hw.bind_streams ≡ true)

abbrev Listed : HwAnswers → RequestThread → Option (List ℕ) → Type 0
Listed hw t none = ⊥
Listed hw t (some ss) = AreAccepted hw t ss

-- A list whose pointers are all set, to accepted streams.
abbrev pub Accepts : HwAnswers → RequestThread → Option (Option (List (Option ℕ))) → Type 0
Accepts hw t list = (ss : List ℕ) × (list ≡ some (some (pointers_to ss))) × AreAccepted hw t ss

Accepts-Listed :
    (hw : HwAnswers) (t : RequestThread) (list : Option (Option (List (Option ℕ))))
    → Accepts hw t list
    → Listed hw t (listed_streams list)
unfolding listed_streams
Accepts-Listed hw t list ([], e, k) = absurd (k.0 (inr (inr refl)))
Accepts-Listed hw t list (s ∷ ss, e, k) =
    let known : listed_streams list ≡ some (s ∷ ss) =
      ap listed_streams e ∙ all_set-pointers_to (s ∷ ss) in
    subst (Listed hw t) (sym known) k

Listed-Accepts :
    (hw : HwAnswers) (t : RequestThread) (list : Option (Option (List (Option ℕ))))
    → Listed hw t (listed_streams list)
    → Accepts hw t list
unfolding listed_streams
Listed-Accepts hw t none k = absurd k
Listed-Accepts hw t (some none) k = absurd k
Listed-Accepts hw t (some (some [])) k = absurd k
Listed-Accepts hw t (some (some (p ∷ ps))) k = elim (Option-cases (all_set (p ∷ ps))) [
  | inl e ↦ absurd (subst (Listed hw t) e k)
  | inr (ss, e) ↦ (ss, ap (λ qs. some (some qs)) (some_set (p ∷ ps) ss e), subst (Listed hw t) e k)
]

abbrev pub Answered :
    HwAnswers
    → RequestThread
    → Option (Option (List (Option ℕ)))
    → Option (RequestThread × ℤ)
    → Type 0
Answered hw t list r =
    (t' : RequestThread) × (code : ℤ) × (r ≡ some (t', code))
    × InStep t'
    × ((Accepts hw t list × (code ≡ pos 0) × AllActive t')
        ⊎ ((¬ (Accepts hw t list)) × (code ≡ einval)))

abbrev Replied : HwAnswers → RequestThread → Option (List ℕ) → Option (RequestThread × ℤ) → Type 0
Replied hw t listed r =
    (t' : RequestThread) × (code : ℤ) × (r ≡ some (t', code))
    × InStep t'
    × ((Listed hw t listed × (code ≡ pos 0) × AllActive t')
        ⊎ ((¬ (Listed hw t listed)) × (code ≡ einval)))

code_good : (s : Status) → is_ok s ≡ true → configure_code s ≡ pos 0
unfolding configure_code
code_good s e = rw e refl

code_bad : (s : Status) → is_ok s ≡ false → configure_code s ≡ einval
unfolding configure_code
code_bad s e = rw e refl

module _ (a : Answers) (hw : HwAnswers) (t : RequestThread) where
  configure_listed-Replied :
      (listed : Option (List ℕ)) → InStep t → Replied hw t listed (configure_listed a hw t listed)
  unfolding configure_listed with_code
  configure_listed-Replied none o = (t, einval, refl, o, inr (λ k. k, refl))
  configure_listed-Replied (some list) o =
      let (t', status, e, o', outcome) = handle_configure_streams-Configured a hw list t o in
      (
        t',
        configure_code status,
        ap (Option.map with_code) e,
        o',
        elim outcome [
          | inl (refused, is, _, _) ↦
              inr (λ k. k.0 refused, ap configure_code is ∙ code_bad bad_value refl)
          | inr (inl (_, failed, is, _)) ↦ inr (
            λ k. let both = k.1 in absurd cc,
            ap configure_code is ∙ code_bad hw.config_streams failed,
          )
          | inr (inr (fine, configured, is, active)) ↦ elim (Bool-cases (is_ok hw.bind_streams)) [
            | inl bound ↦ inl (
              (fine, configured, bound),
              ap configure_code is ∙ code_good hw.bind_streams bound,
              active,
            )
            | inr unbound ↦ inr (
              λ k. let both = k.2 in absurd cc,
              ap configure_code is ∙ code_bad hw.bind_streams unbound,
            )
          ]
        ],
      )

-- With mStreams and mLocalStreams in step and no stream standing twice in mStreams, configure_streams returns and they are in step again; it answers 0, with every stream left active, where the list and its array are there, no pointer of it is nullptr, RequestThread accepts the streams and the hardware configures and binds them, and -EINVAL in each other case.
pub configure_streams-Answered :
    (a : Answers) (hw : HwAnswers) (list : Option (Option (List (Option ℕ)))) (t : RequestThread)
    → InStep t
    → Answered hw t list (configure_streams a hw list t)
unfolding configure_streams
configure_streams-Answered a hw list t o =
    let (t', code, e, o', outcome) = configure_listed-Replied a hw t (listed_streams list) o in
    (
      t',
      code,
      e,
      o',
      elim outcome [
        | inl (k, is, active) ↦ inl (Listed-Accepts hw t list k, is, active)
        | inr (refused, is) ↦ inr (λ k. refused (Accepts-Listed hw t list k), is)
      ],
    )
