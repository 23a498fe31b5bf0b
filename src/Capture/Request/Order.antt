-- ===== src/Capture/Request/Order.antt =====
-- The order of the output streams that checkOutputStreams of AAL/Camera3Request.cpp builds.
use hardware_rockchip_camera.Base.{
  subst, sym, ℕ, ◌<◌, ◌≡◌, refl, ◌⊎◌, inl, inr, List, [], ◌∷◌, Option, none, some, arith, All,
  All-mono, ◌==◌, ltb, false, Bool, Option-cases, ◌&&◌, ◌||◌, false, ==-eq, ==-ne, if_rule, ◌≢◌,
}
use hardware_rockchip_camera.Status.{Status, ok, bad_value}
use hardware_rockchip_camera.Capture.Stream.{Heap, Stream3, area}
use hardware_rockchip_camera.Capture.Request.{StreamBuffer, insert_stream, check_output_streams}

-- Stream `s` is to come before `t`.
abbrev pub Before : Heap → ℕ → ℕ → Type 0
Before h s t =
    (area h t < area h s) ⊎ ((area h s ≡ area h t) × ((h.streams s).seq_no < (h.streams t).seq_no))

abbrev pub Sorted : Heap → List ℕ → Type 0
Sorted h [] = Unit
Sorted h (s ∷ ss) = All (Before h s) ss × Sorted h ss

-- Streams have their own numbers.
abbrev pub AreNumbered : Heap → Type 0
AreNumbered h = (s t : ℕ) → (h.streams s).seq_no ≡ (h.streams t).seq_no → s ≡ t

Before-trans : (h : Heap) (s t u : ℕ) → Before h s t → Before h t u → Before h s u
Before-trans h s t u p q = ground arith

abbrev pub contains : ℕ → List ℕ → Bool
contains u [] = false
contains u (s ∷ ss) = (u == s) || contains u ss

with_stream : Option ℕ → Option (List ℕ) → Option (List ℕ)
with_stream (some s) (some ss) = some (s ∷ ss)
with_stream _ _ = none

-- The streams of some buffers, where every buffer has one.
unfoldable pub priv_streams : (ℕ → Stream3) → List StreamBuffer → Option (List ℕ)
unfolding with_stream
priv_streams stream3s [] = some []
priv_streams stream3s (b ∷ bs) = with_stream (stream3s b.stream).priv (priv_streams stream3s bs)

abbrev pub Listed : Heap → List StreamBuffer → List ℕ → List ℕ × Status → Type 0
Listed h bs out r =
    ((priv_streams h.stream3s bs ≡ none) × (r.1 ≡ bad_value))
    ⊎ ((ss : List ℕ) × (priv_streams h.stream3s bs ≡ some ss)
        × (r.1 ≡ ok)
        × Sorted h r.0
        × ((u : ℕ) → contains u r.0 ≡ contains u ss || contains u out))

data Placed (h : Heap) (s t : ℕ) (ts : List ℕ) : List ℕ → Type 0 where
  there : t ≡ s → Placed h s t ts (t ∷ ts)
  before : Before h s t → Placed h s t ts (s ∷ t ∷ ts)
  after : Before h t s → Placed h s t ts (t ∷ insert_stream h s ts)

module _ (h : Heap) (numbered : AreNumbered h) where
  Before-total : (s t : ℕ) → t ≢ s → (Before h s t → ⊥) → Before h t s
  Before-total s t n b =
      let other = λ (e : (h.streams t).seq_no ≡ (h.streams s).seq_no). n (numbered t s e) in
      ground arith

  insert_stream-Placed : (s t : ℕ) (ts : List ℕ) → Placed h s t ts (insert_stream h s (t ∷ ts))
  unfolding insert_stream
  insert_stream-Placed s t ts =
      if_rule (Placed h s t ts) (t == s) _ _ (λ e. there (==-eq t s e))
        (λ n.
          if_rule (Placed h s t ts) (ltb (area h t) (area h s)) _ _ (λ l. before (ground arith))
            (λ l.
              if_rule (Placed h s t ts)
                ((area h s == area h t) && ltb (h.streams s).seq_no (h.streams t).seq_no) _ _
                (λ b. before (ground arith))
                (λ b. after (Before-total s t (==-ne t s n) (λ c. ground arith)))))

  placed_All :
      (P : ℕ → Type 0) (s t : ℕ) (ts xs : List ℕ)
      → Placed h s t ts xs
      → P s
      → All P (t ∷ ts)
      → All P (insert_stream h s ts)
      → All P xs
  placed_All P s t ts _ (there e) p a r = a
  placed_All P s t ts _ (before b) p a r = (p, a)
  placed_All P s t ts _ (after b) p a r = (a.0, r)

  insert_stream-All :
      (P : ℕ → Type 0) (s : ℕ) (ts : List ℕ) → P s → All P ts → All P (insert_stream h s ts)
  unfolding insert_stream
  insert_stream-All P s [] p a = (p, tt)
  insert_stream-All P s (t ∷ ts) p a =
      placed_All P s t ts _ (insert_stream-Placed s t ts) p a (insert_stream-All P s ts p a.1)

  placed_Sorted :
      (s t : ℕ) (ts xs : List ℕ)
      → Placed h s t ts xs
      → Sorted h (t ∷ ts)
      → Sorted h (insert_stream h s ts)
      → Sorted h xs
  placed_Sorted s t ts _ (there e) o r = o
  placed_Sorted s t ts _ (before b) o r =
      ((b, All-mono (Before h t) (Before h s) ts (λ u c. Before-trans h s t u b c) o.0), o)
  placed_Sorted s t ts _ (after b) o r = (insert_stream-All (Before h t) s ts b o.0, r)

  insert_stream-Sorted : (s : ℕ) (ts : List ℕ) → Sorted h ts → Sorted h (insert_stream h s ts)
  unfolding insert_stream
  insert_stream-Sorted s [] o = (tt, tt)
  insert_stream-Sorted s (t ∷ ts) o =
      placed_Sorted s t ts _ (insert_stream-Placed s t ts) o (insert_stream-Sorted s ts o.1)

  placed_contains :
      (s t : ℕ) (ts xs : List ℕ) (u : ℕ)
      → Placed h s t ts xs
      → contains u (insert_stream h s ts) ≡ (u == s) || contains u ts
      → contains u xs ≡ (u == s) || contains u (t ∷ ts)
  placed_contains s t ts _ u (there e) r = ground arith
  placed_contains s t ts _ u (before b) r = refl
  placed_contains s t ts _ u (after b) r = ground arith

  contains-insert_stream :
      (s u : ℕ) (ts : List ℕ) → contains u (insert_stream h s ts) ≡ (u == s) || contains u ts
  unfolding insert_stream
  contains-insert_stream s u [] = refl
  contains-insert_stream s u (t ∷ ts) =
      placed_contains s t ts _ u (insert_stream-Placed s t ts) (contains-insert_stream s u ts)

  Listed-cons :
      (b : StreamBuffer) (bs : List StreamBuffer) (s : ℕ) (out : List ℕ) (r : List ℕ × Status)
      → (h.stream3s b.stream).priv ≡ some s
      → Listed h bs (insert_stream h s out) r
      → Listed h (b ∷ bs) out r
  unfolding priv_streams
  Listed-cons b bs s out r e (inl (n, bad)) = inl (rw (e, n) refl, bad)
  Listed-cons b bs s out r e (inr (ss, p, good, sorted, m)) = inr (
    s ∷ ss,
    rw (e, p) refl,
    good,
    sorted,
    λ u. ground (arith, m u, contains-insert_stream s u out),
  )

  check_output_streams-cons :
      (b : StreamBuffer) (bs : List StreamBuffer) (out : List ℕ) (s : ℕ)
      → (h.stream3s b.stream).priv ≡ some s
      → check_output_streams h (b ∷ bs) out ≡ check_output_streams h bs (insert_stream h s out)
  unfolding check_output_streams
  check_output_streams-cons b bs out s e = rw (e, check_output_streams) refl

  check_output_streams-Listed :
      (bs : List StreamBuffer) (out : List ℕ)
      → Sorted h out
      → Listed h bs out (check_output_streams h bs out)
  unfolding check_output_streams priv_streams
  check_output_streams-Listed [] out o = inr ([], refl, refl, o, λ u. refl)
  check_output_streams-Listed (b ∷ bs) out o = elim (Option-cases (h.stream3s b.stream).priv) [
    | inl e ↦ inl (rw e refl, rw (e, check_output_streams) refl)
    | inr (s, e) ↦ subst (Listed h (b ∷ bs) out) (sym (check_output_streams-cons b bs out s e)) (
        Listed-cons b bs s out _ e
          (check_output_streams-Listed bs (insert_stream h s out) (insert_stream-Sorted s out o)))
  ]

-- The output streams that a request gets are those of its buffers, each once, larger ones first and of equal ones the older, where every buffer has a stream and streams have their own numbers; else the code is BAD_VALUE.
pub output_streams_sorted :
    (h : Heap) (bs : List StreamBuffer)
    → AreNumbered h
    → Listed h bs [] (check_output_streams h bs [])
output_streams_sorted h bs numbered = check_output_streams-Listed h numbered bs [] tt
