-- ===== src/Capture/Thread/Configure/Unfit.antt =====
-- The lists that handleConfigureStreams of AAL/RequestThread.cpp refuses.
use hardware_rockchip_camera.Base.{
  sym, ℕ, zero, suc, ◌+◌, ◌<◌, ◌≤◌, ◌≡◌, refl, ◌⊎◌, inl, inr, true, false, ◌||◌, List, [], ◌∷◌,
  Option, none, some, ltb, ◌==◌, if◌then◌else◌, if_rule, subst, ==-eq, ==-ne, arith,
}
use hardware_rockchip_camera.Capture.Stream.{Heap}
use hardware_rockchip_camera.Capture.Request.{stream_output, stream_input, stream_bidirectional}
use hardware_rockchip_camera.Capture.Thread.Configure.{counts_of, count_streams}

-- No number of output streams, or 0.
abbrev pub IsRefused : Option ℕ → Type 0
IsRefused none = Unit
IsRefused (some zero) = Unit
IsRefused (some (suc n)) = ⊥

-- The types that the code knows, and those of them with input and with output.
abbrev IsKnown : ℕ → Type 0
IsKnown type = (type ≡ stream_output) ⊎ (type ≡ stream_input) ⊎ (type ≡ stream_bidirectional)

abbrev input_of : ℕ → ℕ
input_of type = if type == stream_input || type == stream_bidirectional then 1 else 0

abbrev output_of : ℕ → ℕ
output_of type = if type == stream_output || type == stream_bidirectional then 1 else 0

-- Of a list: the streams with input, those with output, and whether there is one of no known type.
abbrev pub inputs_of : Heap → List ℕ → ℕ
inputs_of h [] = 0
inputs_of h (s ∷ ss) = input_of (h.stream3s s).stream_type + inputs_of h ss

abbrev pub outputs_of : Heap → List ℕ → ℕ
outputs_of h [] = 0
outputs_of h (s ∷ ss) = output_of (h.stream3s s).stream_type + outputs_of h ss

abbrev pub HasUnknown : Heap → List ℕ → Type 0
HasUnknown h [] = ⊥
HasUnknown h (s ∷ ss) = (¬ (IsKnown (h.stream3s s).stream_type)) ⊎ HasUnknown h ss

-- A list with a stream of unknown type, with two input streams or more, or without output stream.
abbrev pub IsUnfit : Heap → List ℕ → Type 0
IsUnfit h list = HasUnknown h list ⊎ (1 < inputs_of h list) ⊎ (outputs_of h list ≡ 0)

-- What the count of the streams behind `ins` inputs and `outs` outputs says.
abbrev Counts : Heap → List ℕ → ℕ → ℕ → Option ℕ → Type 0
Counts h ss ins outs none = HasUnknown h ss ⊎ (1 < ins + inputs_of h ss)
Counts h ss ins outs (some n) =
    (¬ (HasUnknown h ss)) × (ins + inputs_of h ss ≤ 1) × (n ≡ outs + outputs_of h ss)

abbrev TypeCounts : ℕ → Option (ℕ × ℕ) → Type 0
TypeCounts type none = ¬ (IsKnown type)
TypeCounts type (some (i, o)) = IsKnown type × (i ≡ input_of type) × (o ≡ output_of type)

counts_of-TypeCounts : (type : ℕ) → TypeCounts type (counts_of type)
unfolding counts_of
counts_of-TypeCounts type =
    if_rule (TypeCounts type) (type == stream_output) _ _
      (λ e.
        subst (λ t. TypeCounts t (some (0, 1))) (sym (==-eq type stream_output e))
          (inl refl, refl, refl))
      (λ out.
        if_rule (TypeCounts type) (type == stream_input) _ _
          (λ e.
            subst (λ t. TypeCounts t (some (1, 0))) (sym (==-eq type stream_input e))
              (inr (inl refl), refl, refl))
          (λ inp.
            if_rule (TypeCounts type) (type == stream_bidirectional) _ _
              (λ e.
                subst (λ t. TypeCounts t (some (1, 1))) (sym (==-eq type stream_bidirectional e))
                  (inr (inr refl), refl, refl))
              (λ both k. elim k [
                | inl e ↦ ==-ne type stream_output out e
                | inr (inl e) ↦ ==-ne type stream_input inp e
                | inr (inr e) ↦ ==-ne type stream_bidirectional both e
              ])))

counted_on :
    (h : Heap) (s : ℕ) (ss : List ℕ) (ins outs i o : ℕ) (r : Option ℕ)
    → TypeCounts (h.stream3s s).stream_type (some (i, o))
    → Counts h ss (ins + i) (outs + o) r
    → Counts h (s ∷ ss) ins outs r
counted_on h s ss ins outs i o none k c = elim c [
  | inl unknown ↦ inl (inr unknown)
  | inr two ↦ inr (omega (arith, two, k.1))
]
counted_on h s ss ins outs i o (some n) k c = (
  λ unknown. elim unknown [ inl this ↦ this k.0 | inr later ↦ c.0 later ],
  omega (arith, c.1, k.1),
  omega (arith, c.2, k.2),
)

ltb-lt : (a b : ℕ) → ltb a b ≡ true → a < b
ltb-lt a b e = ground arith

ltb_no-le : (a b : ℕ) → ltb a b ≡ false → b ≤ a
ltb_no-le a b e = ground arith

count_stream :
    (h : Heap) (s : ℕ) (ss : List ℕ) (ins outs : ℕ) (o : Option (ℕ × ℕ))
    → TypeCounts (h.stream3s s).stream_type o
    → ((i o : ℕ)
        → ins + i ≤ 1
        → Counts h ss (ins + i) (outs + o) (count_streams h ss (ins + i) (outs + o)))
    → Counts h (s ∷ ss) ins outs (elim o as (λ _. Option ℕ) [
      | none ↦ none
      | some (i, o) ↦ if ltb 1 (ins + i) then none else count_streams h ss (ins + i) (outs + o)
    ])
count_stream h s ss ins outs none k more = inl (inl k)
count_stream h s ss ins outs (some (i, o)) k more =
    if_rule (Counts h (s ∷ ss) ins outs) (ltb 1 (ins + i)) _ _
      (λ two.
        counted_on h s ss ins outs i o none k
          (inr (let t = ltb-lt 1 (ins + i) two in omega (arith, t))))
      (λ one.
        counted_on h s ss ins outs i o (count_streams h ss (ins + i) (outs + o)) k
          (more i o (ltb_no-le 1 (ins + i) one)))

count_streams-Counts :
    (h : Heap) (ss : List ℕ) (ins outs : ℕ)
    → ins ≤ 1
    → Counts h ss ins outs (count_streams h ss ins outs)
unfolding count_streams
count_streams-Counts h [] ins outs one = (λ k. k, omega (arith, one), omega arith)
count_streams-Counts h (s ∷ ss) ins outs one =
    count_stream h s ss ins outs (counts_of (h.stream3s s).stream_type)
      (counts_of-TypeCounts (h.stream3s s).stream_type)
      (λ i o few. count_streams-Counts h ss (ins + i) (outs + o) few)

Counts-IsUnfit :
    (h : Heap) (ss : List ℕ) (r : Option ℕ)
    → Counts h ss 0 0 r
    → (IsRefused r → IsUnfit h ss) × (IsUnfit h ss → IsRefused r)
Counts-IsUnfit h ss none c =
    (λ _. elim c [ inl unknown ↦ inl unknown | inr two ↦ inr (inl (omega (arith, two))) ], λ _. tt)
Counts-IsUnfit h ss (some zero) c = (λ _. inr (inr (omega (arith, c.2))), λ _. tt)
Counts-IsUnfit h ss (some (suc n)) c = (
  λ r. absurd r,
  λ unfit. elim unfit [
    | inl unknown ↦ c.0 unknown
    | inr (inl two) ↦ omega (arith, two, c.1)
    | inr (inr zero_outputs) ↦ omega (arith, zero_outputs, c.2)
  ],
)

pub count_streams-IsUnfit :
    (h : Heap) (ss : List ℕ)
    → (IsRefused (count_streams h ss 0 0) → IsUnfit h ss)
      × (IsUnfit h ss → IsRefused (count_streams h ss 0 0))
count_streams-IsUnfit h ss =
    Counts-IsUnfit h ss (count_streams h ss 0 0) (count_streams-Counts h ss 0 0 (omega arith))
