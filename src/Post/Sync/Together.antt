-- ===== src/Post/Sync/Together.antt =====
-- Synchronised output buffers go back together (psl/rkisp1/workers/PostProcessPipeline.cpp).
use mathlib.Core.List.{append-nil, append_assoc}
use hardware_rockchip_camera.Base.{
  subst, sym, ap, ◌∙◌, ℕ, suc, ◌<◌, ◌≡◌, ◌≢◌, refl, inl, inr, true, false, ◌&&◌, ◌||◌, List, [],
  ◌∷◌, ◌++◌, Option, none, some, map, All, length, ◌==◌, ltb, if◌then◌else◌, Bool-cases, if_rule,
  ==-refl, ==-eq, ne-==, arith,
}
use hardware_rockchip_camera.Base.Signed.{ℤ, pos, ◌-ℤ◌, eqb_ℤ}
use hardware_rockchip_camera.Post.Unit.{PostProcBuffer, Notice}
use hardware_rockchip_camera.Post.Unit.Deliver.{Distinct}
use hardware_rockchip_camera.Post.Sync.{
  OutputBuffersHandler, set_entry, tell, tell_all, count_down, erase_entry, one_of_item,
  tell_if_last, handle_found, handle_output, is_output, enter_all, add_sync_buffers_if_need, Output,
  handle_outputs,
}

abbrev pub cambufs : List Output → List ℕ
cambufs [] = []
cambufs (o ∷ os) = o.buffer.cambuf ∷ cambufs os

-- The notices with which all buffers go back.
abbrev pub notices_of : Output → List PostProcBuffer → List Notice
notices_of l outs = map (λ b. record { buffer = some b; settings = l.settings; err = l.err }) outs

-- The item `n` waits for the CameraBuffers `left`.
record Waits (n : ℕ) (outs : List PostProcBuffer) (left : List ℕ) (h : OutputBuffersHandler)
    : Type 0 where
  syncs : h.may_need_sync ≡ true
  distinct : Distinct left
  entries : All (λ c. h.item_of c ≡ some n) left
  item : h.items n ≡ record { sync_buffers = outs; sync_nums = pos (length left) }

set_entry-other {ℓ} : {A : Type ℓ} (k x : ℕ) (v : A) (f : ℕ → A) → x ≢ k → set_entry k v f x ≡ f x
unfolding set_entry
set_entry-other k x v f n = rw (ne-== x k n) refl

set_entry_self {ℓ} : {A : Type ℓ} (k : ℕ) (v : A) (f : ℕ → A) → set_entry k v f k ≡ v
unfolding set_entry
set_entry_self k v f = rw (==-refl k) refl

pos_less : (k : ℕ) → pos (suc k) -ℤ pos 1 ≡ pos k
unfolding ◌-ℤ◌
pos_less k = ground arith

some_left : (k : ℕ) → eqb_ℤ (pos (suc k)) (pos 0) ≡ false
some_left k = ground arith

tell_all-told :
    (l : Output) (bs : List PostProcBuffer) (h : OutputBuffersHandler)
    → (tell_all l.settings l.err bs h).told ≡ h.told ++ notices_of l bs
unfolding tell_all tell
tell_all-told l [] h = sym (append-nil h.told)
tell_all-told l (b ∷ bs) h =
    tell_all-told l bs (tell l.settings l.err b h)
    ∙ append_assoc h.told (record { buffer = some b; settings = l.settings; err = l.err } ∷ [])
        (notices_of l bs)

handle_output-entry :
    (o : Output) (n : ℕ) (h : OutputBuffersHandler)
    → h.may_need_sync ≡ true
    → h.item_of o.buffer.cambuf ≡ some n
    → handle_output o.buffer o.settings o.err h
      ≡ erase_entry o.buffer.cambuf (one_of_item o.settings o.err n h)
unfolding handle_output handle_found
handle_output-entry o n h e f =
    ap
      (λ m.
        if m
        then handle_found o.buffer o.settings o.err (h.item_of o.buffer.cambuf) h
        else tell o.settings o.err o.buffer h)
      e
    ∙ ap (λ found. handle_found o.buffer o.settings o.err found h) f

-- Erasing another entry keeps these.
kept_entries :
    (k n : ℕ) (f : ℕ → Option ℕ) (cs : List ℕ)
    → All (λ c. c ≢ k) cs
    → All (λ c. f c ≡ some n) cs
    → All (λ c. set_entry k none f c ≡ some n) cs
kept_entries k n f [] other e = tt
kept_entries k n f (c ∷ cs) other e =
    (set_entry-other k c none f other.0 ∙ e.0, kept_entries k n f cs other.1 e.1)

module _ (n : ℕ) (outs : List PostProcBuffer) (o : Output) (h : OutputBuffersHandler) where
  counted : ℤ → OutputBuffersHandler
  counted k = record h {
    items = set_entry n (record { sync_buffers = outs; sync_nums = k }) h.items;
  }

  count_down-counted :
      (k : ℕ)
      → h.items n ≡ record { sync_buffers = outs; sync_nums = pos (suc k) }
      → count_down n (h.items n) h ≡ counted (pos k)
  unfolding count_down counted
  count_down-counted k e =
      ap (λ item. count_down n item h) e
      ∙ ap
          (λ z. record h {
            items = set_entry n (record { sync_buffers = outs; sync_nums = z }) h.items;
          })
          (pos_less k)

  told_by_item :
      (z : ℤ)
      → tell_if_last o.settings o.err ((counted z).items n) (counted z)
        ≡ tell_if_last o.settings o.err (record { sync_buffers = outs; sync_nums = z }) (counted z)
  unfolding counted
  told_by_item z =
      ap (λ item. tell_if_last o.settings o.err item (counted z))
        (set_entry_self n (record { sync_buffers = outs; sync_nums = z }) h.items)

  one_of_counted :
      (k : ℕ)
      → h.items n ≡ record { sync_buffers = outs; sync_nums = pos (suc k) }
      → one_of_item o.settings o.err n h
        ≡ tell_if_last o.settings o.err
            (record { sync_buffers = outs; sync_nums = pos k })
            (counted (pos k))
  unfolding one_of_item
  one_of_counted k e =
      ap (λ g. tell_if_last o.settings o.err (g.items n) g) (count_down-counted k e)
      ∙ told_by_item (pos k)

  one_of_more :
      (k : ℕ)
      → h.items n ≡ record { sync_buffers = outs; sync_nums = pos (suc (suc k)) }
      → one_of_item o.settings o.err n h ≡ counted (pos (suc k))
  unfolding tell_if_last
  one_of_more k e = one_of_counted (suc k) e ∙ rw (some_left k) refl

  last_of_item :
      h.items n ≡ record { sync_buffers = outs; sync_nums = pos 1 }
      → one_of_item o.settings o.err n h ≡ tell_all o.settings o.err outs (counted (pos 0))
  unfolding tell_if_last
  last_of_item e = one_of_counted 0 e

  -- With more than one buffer left, the next one only leaves the map.
  handle-Waits :
      (c : ℕ) (left : List ℕ)
      → Waits n outs (o.buffer.cambuf ∷ c ∷ left) h
      → Waits n outs (c ∷ left) (handle_output o.buffer o.settings o.err h)
        × ((handle_output o.buffer o.settings o.err h).told ≡ h.told)
  unfolding counted erase_entry
  handle-Waits c left w =
      let same : handle_output o.buffer o.settings o.err h
          ≡ erase_entry o.buffer.cambuf (counted (pos (suc (length left)))) =
        handle_output-entry o n h w.syncs w.entries.0
        ∙ ap (erase_entry o.buffer.cambuf) (one_of_more (length left) w.item) in
      subst (λ g. Waits n outs (c ∷ left) g × (g.told ≡ h.told)) (sym same)
        (
          record {
            syncs = w.syncs;
            distinct = w.distinct.1;
            entries = kept_entries o.buffer.cambuf n h.item_of (c ∷ left) w.distinct.0 w.entries.1;
            item =
                set_entry_self n
                  (record { sync_buffers = outs; sync_nums = pos (suc (length left)) }) h.items;
          },
          refl,
        )

  -- The last buffer sends all of them.
  handle-last :
      Waits n outs (o.buffer.cambuf ∷ []) h
      → (handle_output o.buffer o.settings o.err h).told ≡ h.told ++ notices_of o outs
  unfolding counted erase_entry
  handle-last w =
      ap (λ g. g.told)
        (handle_output-entry o n h w.syncs w.entries.0
          ∙ ap (erase_entry o.buffer.cambuf) (last_of_item w.item))
      ∙ tell_all-told o outs (counted (pos 0))

-- The first outputs say nothing, and the last one sends all.
arrive :
    (n : ℕ) (outs : List PostProcBuffer) (os : List Output) (l : Output) (h : OutputBuffersHandler)
    → Waits n outs (cambufs (os ++ l ∷ [])) h
    → ((handle_outputs os h).told ≡ h.told)
      × ((handle_outputs (os ++ l ∷ []) h).told ≡ h.told ++ notices_of l outs)
unfolding handle_outputs
arrive n outs [] l h w = (refl, handle-last n outs l h w)
arrive n outs (o ∷ []) l h w =
    let (w', same) = handle-Waits n outs o h l.buffer.cambuf [] w in
    let (quiet, sent) = arrive n outs [] l (handle_output o.buffer o.settings o.err h) w' in
    (quiet ∙ same, sent ∙ ap (λ ns. ns ++ notices_of l outs) same)
arrive n outs (o ∷ p ∷ os) l h w =
    let (w', same) = handle-Waits n outs o h p.buffer.cambuf (cambufs (os ++ l ∷ [])) w in
    let (quiet, sent) = arrive n outs (p ∷ os) l (handle_output o.buffer o.settings o.err h) w' in
    (quiet ∙ same, sent ∙ ap (λ ns. ns ++ notices_of l outs) same)

enter_all-kept :
    (n : ℕ) (outs : List PostProcBuffer) (f : ℕ → Option ℕ) (c : ℕ)
    → f c ≡ some n
    → enter_all n outs f c ≡ some n
unfolding enter_all set_entry
enter_all-kept n [] f c e = e
enter_all-kept n (o ∷ os) f c e =
    enter_all-kept n os (set_entry o.cambuf (some n) f) c
      (if_rule (λ r. r ≡ some n) (c == o.cambuf) (some n) (f c) (λ _. refl) (λ _. e))

enter_all-output :
    (n : ℕ) (outs : List PostProcBuffer) (f : ℕ → Option ℕ) (b : PostProcBuffer)
    → is_output b outs ≡ true
    → enter_all n outs f b.cambuf ≡ some n
unfolding enter_all is_output
enter_all-output n [] f b e = absurd (cc)
enter_all-output n (o ∷ os) f b e = elim (Bool-cases (o.cambuf == b.cambuf)) [
  | inl this ↦ enter_all-kept n os (set_entry o.cambuf (some n) f) b.cambuf (
      subst (λ c. set_entry o.cambuf (some n) f c ≡ some n) (==-eq o.cambuf b.cambuf this)
        (set_entry_self o.cambuf (some n) f))
  | inr other ↦
      enter_all-output n os (set_entry o.cambuf (some n) f) b
        (sym (ap (λ t. t || is_output b os) other) ∙ e)
]

entered :
    (n : ℕ) (outs : List PostProcBuffer) (f : ℕ → Option ℕ) (os : List Output)
    → All (λ o. is_output o.buffer outs ≡ true) os
    → All (λ c. enter_all n outs f c ≡ some n) (cambufs os)
entered n outs f [] e = tt
entered n outs f (o ∷ os) e = (enter_all-output n outs f o.buffer e.0, entered n outs f os e.1)

-- The handler with the item `n` for the output buffers.
synced : ℕ → List PostProcBuffer → OutputBuffersHandler → OutputBuffersHandler
synced n outs h = record h {
  item_of = enter_all n outs h.item_of;
  items = set_entry n (record { sync_buffers = outs; sync_nums = pos (length outs) }) h.items;
}

lt-ltb : (a b : ℕ) → a < b → ltb a b ≡ true
lt-ltb a b h = ground arith

length-cambufs : (os : List Output) → length (cambufs os) ≡ length os
length-cambufs [] = refl
length-cambufs (o ∷ os) = ap suc (length-cambufs os)

module _ (n : ℕ) (b : PostProcBuffer) (outs : List PostProcBuffer) (h : OutputBuffersHandler)
    (syncs : h.may_need_sync ≡ true) (several : 1 < length outs)
    (own : is_output b outs ≡ true) where
  added : add_sync_buffers_if_need n true b outs h ≡ synced n outs h
  unfolding add_sync_buffers_if_need synced
  added =
      let test : (h.may_need_sync && ltb 1 (length outs) && true && is_output b outs) ≡ true =
        rw (syncs, lt-ltb 1 (length outs) several, own) refl in
      ap (λ t. if t then synced n outs h else h) test

  synced-Waits :
      (os : List Output)
      → Distinct (cambufs os)
      → All (λ o. is_output o.buffer outs ≡ true) os
      → length os ≡ length outs
      → Waits n outs (cambufs os) (synced n outs h)
  unfolding synced
  synced-Waits os distinct outputs all_there = record {
    syncs = syncs;
    distinct = distinct;
    entries = entered n outs h.item_of os outputs;
    item =
        set_entry_self n (record { sync_buffers = outs; sync_nums = pos (length outs) }) h.items
        ∙ ap (λ k. record { sync_buffers = outs; sync_nums = pos k })
            (sym (length-cambufs os ∙ all_there));
  }

  -- Where outputs are synchronised and the buffer of a frame with a handle is one of its two output buffers or more, then, once each of them is handled, in whatever order, nothing goes to the listener of the pipeline before the last one, and with it all of them do, in their order and with its settings and error.
  pub sync_buffers_go_together :
      (os : List Output) (l : Output)
      → Distinct (cambufs (os ++ l ∷ []))
      → All (λ o. is_output o.buffer outs ≡ true) (os ++ l ∷ [])
      → length (os ++ l ∷ []) ≡ length outs
      → let h' = add_sync_buffers_if_need n true b outs h in
        ((handle_outputs os h').told ≡ h.told)
        × ((handle_outputs (os ++ l ∷ []) h').told ≡ h.told ++ notices_of l outs)
  unfolding synced
  sync_buffers_go_together os l distinct outputs all_there =
      subst
        (λ g.
          ((handle_outputs os g).told ≡ h.told)
          × ((handle_outputs (os ++ l ∷ []) g).told ≡ h.told ++ notices_of l outs))
        (sym added)
        (arrive n outs os l (synced n outs h)
          (synced-Waits (os ++ l ∷ []) distinct outputs all_there))
