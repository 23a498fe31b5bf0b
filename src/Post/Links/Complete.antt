-- ===== src/Post/Links/Complete.antt =====
-- After prepare_internal each stream has its unit
-- (psl/rkisp1/workers/PostProcessPipeline.cpp).
use hardware_rockchip_camera.Base.{
  subst, sym, ap, ℕ, suc, ◌≡◌, ◌≢◌, refl, inl, inr, Bool, true, false, not, ◌&&◌, ◌||◌, List, [],
  ◌∷◌, ◌++◌, Option, none, some, All, ltb, ◌==◌, if◌then◌else◌, if_rule, ◌⊎◌, length, map, arith,
}
use hardware_rockchip_camera.Post.Unit.{internal}
use hardware_rockchip_camera.Post.Types.{
  PostStream, PrepareAnswers, only_if, mirrored, stream_entries, common_types_of, all_entries,
  common_types, buffer_needed, copy_if_none, needs_copy, copies_added, no_types, is_scaled, is_blob,
  get_rotation_degrees, is_implementation_defined, all_types,
}
use hardware_rockchip_camera.Post.Links.{
  Links, add_unit, find_last, link_common, link_stream, link_streams, link_all, link_prepared,
  prepare_internal, last_common, common_shifts,
}
use hardware_rockchip_camera.Post.Links.Served.{
  Serves, add_unit-Serves, Ordinary, scaled, encoded, encoded_scaled, copied, dummy, types_of,
  linked, linked-Serves,
}
use hardware_rockchip_camera.Post.Links.Prepared.{
  Proper, Listed, entries-Serve, entries_of, stream_entries-entries_of, copied_types,
  copied_entries, copied_entries-Proper, copied_entries-Listed, NotRaw,
}

-- The links have a unit for each stream of the list.
abbrev pub ServesAll : List PostStream → Links → Type 0
ServesAll ss l = All (λ t. Serves t.address l) ss

link_streams-ServesAll :
    (u : ℕ) (main : Option ℕ) (entries : List (ℕ × List ℕ)) (l : Links) (ss : List PostStream)
    → All (Proper u) entries
    → All (λ t. Listed t.address entries) ss
    → All (λ t. t.address ≢ u) ss
    → ServesAll ss (link_streams main entries l)
link_streams-ServesAll u main entries l [] p h n = tt
link_streams-ServesAll u main entries l (t ∷ ss) p h n = (
  entries-Serve u t.address n.0 main entries l p h.0,
  link_streams-ServesAll u main entries l ss p h.1 n.1,
)

module _ (a : PrepareAnswers) (common : List ℕ) (x : ℕ) (l : Links) where
  copied-ServesAll :
      (ss : List PostStream)
      → needs_copy (all_entries a ss) common ≡ true
      → All NotRaw ss
      → All (λ t. t.address ≢ a.uvc) ss
      → ServesAll ss (link_all (copies_added (all_entries a ss) common) common x l)
  unfolding link_all copies_added copied_entries
  copied-ServesAll ss e raw apart =
      let entries : List (ℕ × List ℕ) = copied_entries a ss in
      let r : Links × Option ℕ =
        link_common common (last_common entries common) x common_shifts (l, none) in
      subst (λ b. ServesAll ss (link_all (if b then entries else all_entries a ss) common x l))
        (sym e)
        (link_streams-ServesAll a.uvc r.1 entries r.0 ss (copied_entries-Proper a ss raw)
          (copied_entries-Listed a ss raw) apart)

two_or_more : (n : ℕ) → ltb 1 (suc (suc n)) ≡ true
two_or_more n = ground arith

two_entries :
    (raw_input tunes tunes' : Bool) (u s s' : ℕ) (types types' : List ℕ) (rest : List (ℕ × List ℕ))
    → ltb 1 (
        length (
          entries_of raw_input tunes u s types
          ++ (entries_of raw_input tunes' u s' types' ++ rest)))
      ≡ true
two_entries true tunes tunes' u s s' types types' rest = two_or_more (length rest)
two_entries false true tunes' u s s' types types' rest =
    two_or_more (length (entries_of false tunes' u s' types' ++ rest))
two_entries false false true u s s' types types' rest = two_or_more (length ((s', types') ∷ rest))
two_entries false false false u s s' types types' rest = two_or_more (length rest)

several-needs_copy :
    (a : PrepareAnswers) (s t : PostStream) (ss : List PostStream) (common : List ℕ)
    → NotRaw s
    → NotRaw t
    → needs_copy (all_entries a (s ∷ t ∷ ss)) common ≡ true
unfolding needs_copy all_entries
several-needs_copy a s t ss common e e' =
    let own : PostStream → List ℕ =
      λ s. mirrored a.mirrors (only_if (is_blob s.format) 18 ++ only_if (is_scaled a s) 17) in
    let tunes : PostStream → Bool = λ s. a.tuning_mode && is_implementation_defined s.format in
    let two : ltb 1 (length (stream_entries a s ++ (stream_entries a t ++ all_entries a ss)))
        ≡ true =
      subst (λ es. ltb 1 (length (es ++ (stream_entries a t ++ all_entries a ss))) ≡ true)
        (sym (stream_entries-entries_of a s e))
        (subst
          (λ es.
            ltb 1 (
              length (
                entries_of a.raw_input (tunes s) a.uvc s.address (own s)
                ++ (es ++ all_entries a ss)))
            ≡ true)
          (sym (stream_entries-entries_of a t e'))
          (two_entries a.raw_input (tunes s) (tunes t) a.uvc s.address t.address (own s) (own t)
            (all_entries a ss))) in
    let entries : List (ℕ × List ℕ) = all_entries a (s ∷ t ∷ ss) in
    ap (λ b. b || (length entries == 1 && no_types (buffer_needed common))) two

-- The links of a single entry.
Alone : List (ℕ × List ℕ) → List ℕ → ℕ → Links → Type 0
Alone entries common x l = Serves x (link_all (copies_added entries common) common x l)

abbrev common_of : Bool → Bool → List ℕ
common_of rotates zooms = (only_if rotates 3 ++ only_if zooms 5) ++ []

entry-Alone :
    (rotates zooms : Bool) (x : ℕ) (l : Links) → Alone ((x, []) ∷ []) (common_of rotates zooms) x l
unfolding Alone link_all copies_added needs_copy copy_if_none no_types only_if buffer_needed
    last_common all_types link_common find_last link_streams link_stream
entry-Alone true true x l = add_unit-Serves (some l.made) x (add_unit internal false none x l)
entry-Alone true false x l = add_unit-Serves none x l
entry-Alone false true x l = add_unit-Serves none x l
entry-Alone false false x l = add_unit-Serves none x l

copy_if_none-types_of : (o : Ordinary) (x : ℕ) → copy_if_none (x, types_of o) ≡ (x, types_of o)
unfolding copy_if_none no_types
copy_if_none-types_of scaled x = refl
copy_if_none-types_of encoded x = refl
copy_if_none-types_of encoded_scaled x = refl
copy_if_none-types_of copied x = refl
copy_if_none-types_of dummy x = refl

entry_typed :
    (o : Ordinary) (common : List ℕ) (x : ℕ) (l : Links) → Alone ((x, types_of o) ∷ []) common x l
unfolding Alone link_all copies_added link_streams linked
entry_typed o common x l =
    let entries : List (ℕ × List ℕ) = (x, types_of o) ∷ [] in
    let same : copies_added entries common ≡ entries =
      if_rule (λ es. es ≡ entries) (needs_copy entries common) (map copy_if_none entries) entries
        (λ _. ap (λ e. e ∷ []) (copy_if_none-types_of o x)) (λ _. refl) in
    let r : Links × Option ℕ =
      link_common common (last_common entries common) x common_shifts (l, none) in
    subst (λ es. Serves x (link_all es common x l)) (sym same) (linked-Serves o x r.0 r.1)

own_cases :
    (mirrors is_blob is_scaled : Bool)
    → let types = mirrored mirrors (only_if is_blob 18 ++ only_if is_scaled 17) in
      (types ≡ []) ⊎ ((o : Ordinary) × (types ≡ types_of o))
unfolding mirrored only_if no_types
own_cases true true true = inr (encoded_scaled, refl)
own_cases true true false = inr (encoded, refl)
own_cases true false true = inr (scaled, refl)
own_cases true false false = inr (copied, refl)
own_cases false true true = inr (encoded_scaled, refl)
own_cases false true false = inr (encoded, refl)
own_cases false false true = inr (scaled, refl)
own_cases false false false = inl refl

module _ (u x : ℕ) (types : List ℕ) (l : Links) (rotates zooms : Bool)
    (forms : (types ≡ []) ⊎ ((o : Ordinary) × (types ≡ types_of o)))
    (copies : (o : Ordinary) × ((copy_if_none (0, types)).1 ≡ types_of o)) where
  tuned-Alone : (common : List ℕ) → Alone ((u, 20 ∷ []) ∷ (x, types) ∷ []) common x l
  unfolding Alone link_all copies_added needs_copy copy_if_none no_types linked link_streams
  tuned-Alone common =
      let entries : List (ℕ × List ℕ) = map copy_if_none ((u, 20 ∷ []) ∷ (x, types) ∷ []) in
      let r : Links × Option ℕ =
        link_common common (last_common entries common) x common_shifts (l, none) in
      subst (λ t. Serves x (linked t x (linked (20 ∷ []) u r.0 r.1) r.1)) (sym copies.1)
        (linked-Serves copies.0 x (linked (20 ∷ []) u r.0 r.1) r.1)

  plain-Alone : Alone ((x, types) ∷ []) (common_of rotates zooms) x l
  plain-Alone = elim forms [
    | inl e ↦
        subst (λ t. Alone ((x, t) ∷ []) (common_of rotates zooms) x l) (sym e)
          (entry-Alone rotates zooms x l)
    | inr (o, e) ↦
        subst (λ t. Alone ((x, t) ∷ []) (common_of rotates zooms) x l) (sym e)
          (entry_typed o (common_of rotates zooms) x l)
  ]

  entries_of-Alone :
      (raw_input tunes : Bool)
      → Alone
          (entries_of raw_input tunes u x types ++ [])
          ((if raw_input then [] else only_if rotates 3 ++ only_if zooms 5) ++ [])
          x
          l
  entries_of-Alone true tunes = entry_typed dummy [] x l
  entries_of-Alone false true = tuned-Alone (common_of rotates zooms)
  entries_of-Alone false false = plain-Alone

common_types-single :
    (a : PrepareAnswers) (s : PostStream)
    → NotRaw s
    → common_types a (s ∷ [])
      ≡ (if a.raw_input
          then []
          else only_if (not (get_rotation_degrees a s == 0)) 3 ++ only_if a.zooms 5)
        ++ []
unfolding common_types common_types_of
common_types-single a s e = rw e refl

stream-Alone :
    (a : PrepareAnswers) (s : PostStream) (l : Links)
    → NotRaw s
    → Alone (all_entries a (s ∷ [])) (common_types a (s ∷ [])) s.address l
unfolding all_entries
stream-Alone a s l e =
    let types : List ℕ =
      mirrored a.mirrors (only_if (is_blob s.format) 18 ++ only_if (is_scaled a s) 17) in
    subst (λ c. Alone (stream_entries a s ++ []) c s.address l) (sym (common_types-single a s e))
      (subst
        (λ es.
          Alone (es ++ [])
            ((if a.raw_input
                then []
                else only_if (not (get_rotation_degrees a s == 0)) 3 ++ only_if a.zooms 5)
              ++ [])
            s.address l)
        (sym (stream_entries-entries_of a s e))
        (entries_of-Alone a.uvc s.address types l (not (get_rotation_degrees a s == 0)) a.zooms
          (own_cases a.mirrors (is_blob s.format) (is_scaled a s))
          (copied_types a.mirrors (is_blob s.format) (is_scaled a s)) a.raw_input
          (a.tuning_mode && is_implementation_defined s.format)))

-- What prepare_internal makes has a unit for each stream.
abbrev pub Prepares : List PostStream → Option (Links × Bool) → Type 0
Prepares ss none = ⊥
Prepares ss (some (l, needs)) = ServesAll ss l

-- For streams of which none is raw and none is mUvc, one at least, prepare_internal returns, and then each of them has a unit that takes output buffers, whatever their sizes and formats, with a digital zoom, a rotation, mirroring and tuning or without.
pub prepare_internal-Prepares :
    (a : PrepareAnswers) (s : PostStream) (ss : List PostStream) (l : Links)
    → All NotRaw (s ∷ ss)
    → All (λ t. t.address ≢ a.uvc) (s ∷ ss)
    → Prepares (s ∷ ss) (prepare_internal a (s ∷ ss) l)
unfolding prepare_internal link_prepared Alone
prepare_internal-Prepares a s [] l raw apart =
    (stream-Alone a s (record l { may_need_sync = false }) raw.0, tt)
prepare_internal-Prepares a s (t ∷ ss) l raw apart =
    copied-ServesAll a (common_types a (s ∷ t ∷ ss)) s.address
      (record l { may_need_sync = ltb 1 (length (s ∷ t ∷ ss)) }) (s ∷ t ∷ ss)
      (several-needs_copy a s t ss (common_types a (s ∷ t ∷ ss)) raw.0 raw.1.0) raw apart
