-- ===== src/Post/Links/Prepared.antt =====
-- What prepare_internal makes of the streams
-- (psl/rkisp1/workers/PostProcessPipeline.cpp).
use mathlib.Core.List.{map-append}
use hardware_rockchip_camera.Base.{
  subst, sym, ◌∙◌, ℕ, ◌≡◌, ◌≢◌, refl, ◌⊎◌, inl, inr, Bool, true, false, ◌&&◌, List, [], ◌∷◌, ◌++◌,
  Option, All, All-append, All-mono, if◌then◌else◌, map,
}
use hardware_rockchip_camera.Post.Types.{
  PostStream, PrepareAnswers, is_raw_stream, own_types, only_if, mirrored, tuned, stream_entries,
  all_entries, copy_if_none, no_types, is_scaled, is_blob, is_implementation_defined,
}
use hardware_rockchip_camera.Post.Links.{Links, link_streams}
use hardware_rockchip_camera.Post.Links.Served.{
  Serves, Ordinary, scaled, encoded, encoded_scaled, copied, dummy, types_of, linked, linked-Serves,
  linked-keeps, uvc-keeps,
}

-- An entry of a stream, or of mUvc.
abbrev pub Proper : ℕ → ℕ × List ℕ → Type 0
Proper u (s, types) = ((o : Ordinary) × (types ≡ types_of o)) ⊎ ((s ≡ u) × (types ≡ 20 ∷ []))

-- A stream that has an entry.
abbrev pub Listed : ℕ → List (ℕ × List ℕ) → Type 0
Listed s' [] = ⊥
Listed s' ((s, types) ∷ entries) = (s ≡ s') ⊎ Listed s' entries

link_streams-entry :
    (main : Option ℕ) (s : ℕ) (types : List ℕ) (entries : List (ℕ × List ℕ)) (l : Links)
    → link_streams main ((s, types) ∷ entries) l ≡ link_streams main entries (linked types s l main)
unfolding link_streams linked
link_streams-entry main s types entries l = refl

module _ (u s' : ℕ) (apart : s' ≢ u) where
  entry-keeps :
      (s : ℕ) (types : List ℕ) (l : Links) (main : Option ℕ)
      → Proper u (s, types)
      → Serves s' l
      → Serves s' (linked types s l main)
  entry-keeps s types l main (inl (o, e)) k =
      subst (λ t. Serves s' (linked t s l main)) (sym e) (linked-keeps o s s' l main k)
  entry-keeps s types l main (inr (e, e')) k =
      subst (λ t. Serves s' (linked t s l main)) (sym e')
        (uvc-keeps s s' l main (λ same. apart (same ∙ e)) k)

  entry-Serves :
      (s : ℕ) (types : List ℕ) (l : Links) (main : Option ℕ)
      → Proper u (s, types)
      → s ≡ s'
      → Serves s' (linked types s l main)
  entry-Serves s types l main (inl (o, e)) same =
      subst (λ x. Serves x (linked types s l main)) same
        (subst (λ t. Serves s (linked t s l main)) (sym e) (linked-Serves o s l main))
  entry-Serves s types l main (inr (e, e')) same = absurd (apart (sym same ∙ e))

  entries-keep :
      (main : Option ℕ) (entries : List (ℕ × List ℕ)) (l : Links)
      → All (Proper u) entries
      → Serves s' l
      → Serves s' (link_streams main entries l)
  unfolding link_streams linked
  entries-keep main [] l p k = k
  entries-keep main ((s, types) ∷ entries) l p k =
      entries-keep main entries (linked types s l main) p.1 (entry-keeps s types l main p.0 k)

  pub entries-Serve :
      (main : Option ℕ) (entries : List (ℕ × List ℕ)) (l : Links)
      → All (Proper u) entries
      → Listed s' entries
      → Serves s' (link_streams main entries l)
  unfolding link_streams linked
  entries-Serve main [] l p none_there = elim none_there [ ]
  entries-Serve main ((s, types) ∷ entries) l p (inl e) =
      entries-keep main entries (linked types s l main) p.1 (entry-Serves s types l main p.0 e)
  entries-Serve main ((s, types) ∷ entries) l p (inr rest) =
      entries-Serve main entries (linked types s l main) p.1 rest

-- What stream_entries is for a stream that is not raw.
abbrev pub entries_of : Bool → Bool → ℕ → ℕ → List ℕ → List (ℕ × List ℕ)
entries_of raw_input tunes u s types =
    if raw_input
    then (s, 22 ∷ []) ∷ []
    else (if tunes then (u, 20 ∷ []) ∷ [] else []) ++ (s, types) ∷ []

pub stream_entries-entries_of :
    (a : PrepareAnswers) (s : PostStream)
    → is_raw_stream s.format ≡ false
    → stream_entries a s
      ≡ entries_of a.raw_input
          (a.tuning_mode && is_implementation_defined s.format)
          a.uvc
          s.address
          (mirrored a.mirrors (only_if (is_blob s.format) 18 ++ only_if (is_scaled a s) 17))
unfolding stream_entries own_types tuned
stream_entries-entries_of a s e = rw e refl

-- The types of a stream, once a copy is added where there are none.
pub copied_types :
    (mirrors is_blob is_scaled : Bool)
    → (o : Ordinary) × ((copy_if_none
          (0, mirrored mirrors (only_if is_blob 18 ++ only_if is_scaled 17))).1
        ≡ types_of o)
unfolding copy_if_none mirrored only_if no_types
copied_types true true true = (encoded_scaled, refl)
copied_types true true false = (encoded, refl)
copied_types true false true = (scaled, refl)
copied_types true false false = (copied, refl)
copied_types false true true = (encoded_scaled, refl)
copied_types false true false = (encoded, refl)
copied_types false false true = (scaled, refl)
copied_types false false false = (copied, refl)

Listed-left : (x : ℕ) (xs ys : List (ℕ × List ℕ)) → Listed x xs → Listed x (xs ++ ys)
Listed-left x [] ys h = elim h [ ]
Listed-left x ((s, types) ∷ xs) ys (inl e) = inl e
Listed-left x ((s, types) ∷ xs) ys (inr h) = inr (Listed-left x xs ys h)

Listed-right : (x : ℕ) (xs ys : List (ℕ × List ℕ)) → Listed x ys → Listed x (xs ++ ys)
Listed-right x [] ys h = h
Listed-right x ((s, types) ∷ xs) ys h = inr (Listed-right x xs ys h)

-- Entries that are proper, the one of `x` among them.
abbrev Holds : ℕ → ℕ → List (ℕ × List ℕ) → Type 0
Holds u x entries = All (Proper u) entries × Listed x entries

entries_of-Holds :
    (raw_input tunes : Bool) (u s : ℕ) (types : List ℕ) (o : Ordinary)
    → (copy_if_none (s, types)).1 ≡ types_of o
    → Holds u s (map copy_if_none (entries_of raw_input tunes u s types))
unfolding copy_if_none no_types
entries_of-Holds true tunes u s types o e = ((inl (dummy, refl), tt), inl refl)
entries_of-Holds false true u s types o e = ((inr (refl, refl), (inl (o, e), tt)), inr (inl refl))
entries_of-Holds false false u s types o e = ((inl (o, e), tt), inl refl)

stream_entries-Holds :
    (a : PrepareAnswers) (s : PostStream)
    → is_raw_stream s.format ≡ false
    → Holds a.uvc s.address (map copy_if_none (stream_entries a s))
unfolding copy_if_none
stream_entries-Holds a s e =
    let (o, same) = copied_types a.mirrors (is_blob s.format) (is_scaled a s) in
    subst (λ es. Holds a.uvc s.address (map copy_if_none es))
      (sym (stream_entries-entries_of a s e))
      (entries_of-Holds a.raw_input (a.tuning_mode && is_implementation_defined s.format) a.uvc
        s.address (mirrored a.mirrors (only_if (is_blob s.format) 18 ++ only_if (is_scaled a s) 17))
        o same)

unfoldable pub copied_entries : PrepareAnswers → List PostStream → List (ℕ × List ℕ)
copied_entries a ss = map copy_if_none (all_entries a ss)

copied_entries-cons :
    (a : PrepareAnswers) (s : PostStream) (ss : List PostStream)
    → copied_entries a (s ∷ ss) ≡ map copy_if_none (stream_entries a s) ++ copied_entries a ss
unfolding copied_entries all_entries
copied_entries-cons a s ss = map-append copy_if_none (stream_entries a s) (all_entries a ss)

-- No stream of the list is raw.
abbrev pub NotRaw : PostStream → Type 0
NotRaw s = is_raw_stream s.format ≡ false

pub copied_entries-Proper :
    (a : PrepareAnswers) (ss : List PostStream)
    → All NotRaw ss
    → All (Proper a.uvc) (copied_entries a ss)
unfolding copied_entries all_entries
copied_entries-Proper a [] e = tt
copied_entries-Proper a (s ∷ ss) e = subst (All (Proper a.uvc)) (sym (copied_entries-cons a s ss)) (
    All-append (Proper a.uvc) (map copy_if_none (stream_entries a s)) (copied_entries a ss)
      (stream_entries-Holds a s e.0).0 (copied_entries-Proper a ss e.1))

pub copied_entries-Listed :
    (a : PrepareAnswers) (ss : List PostStream)
    → All NotRaw ss
    → All (λ s. Listed s.address (copied_entries a ss)) ss
copied_entries-Listed a [] e = tt
copied_entries-Listed a (s ∷ ss) e =
    subst (λ es. All (λ t. Listed t.address es) (s ∷ ss)) (sym (copied_entries-cons a s ss))
      (
        Listed-left s.address (map copy_if_none (stream_entries a s)) (copied_entries a ss)
            (stream_entries-Holds a s e.0).1,
        All-mono (λ t. Listed t.address (copied_entries a ss))
            (λ t. Listed t.address (map copy_if_none (stream_entries a s) ++ copied_entries a ss))
            ss
            (λ t h.
              Listed-right t.address (map copy_if_none (stream_entries a s)) (copied_entries a ss)
                h)
            (copied_entries-Listed a ss e.1),
      )
