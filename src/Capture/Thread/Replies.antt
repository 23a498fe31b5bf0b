-- ===== src/Capture/Thread/Replies.antt =====
-- The check of a blocked caller in handleReturnRequest of AAL/RequestThread.cpp.
use mathlib.Core.List.{append-nil}
use hardware_rockchip_camera.Base.{
  subst, sym, ap, ◌∙◌, ℕ, ◌+◌, ◌≡◌, refl, ◌⊎◌, inl, inr, List, [], ◌∷◌, ◌++◌, Option, none, some,
  Bool, true, false, if◌then◌else◌, length,
}
use hardware_rockchip_camera.Base.Signed.{ℤ, pos}
use hardware_rockchip_camera.Status.{Status, ok}
use hardware_rockchip_camera.Capture.Thread.{
  BlockAction, wait_all_and_fence, wait_all_previous, wait_one, RequestThread, Answers, blocked,
  are_all_streams_under_max_buffers,
}
use hardware_rockchip_camera.Capture.Thread.Loop.{
  Reply, capture_reply, retry, is_due, retry_waiting, told, reply_if_free, check_blocked,
}
use hardware_rockchip_camera.Capture.Thread.Books.{Books, waiting_list}
use hardware_rockchip_camera.Capture.Thread.Blocking.{Sent, retry-Sent}

abbrev pub Tells : Status → List Reply → Type 0
Tells status [] = ⊥
Tells status (r ∷ rs) = (r ≡ capture_reply status) ⊎ Tells status rs

-- No reply yet: the streams have no room, or the request still waits, which it does alone only if
-- the hardware blocks it alone.
abbrev pub Quiet : Answers → List ℕ → List ℕ → RequestThread → RequestThread → Type 0
Quiet a hal extra t t' =
    ((t'.waiting_request ≡ none) × (are_all_streams_under_max_buffers t ≡ false))
    ⊎ ((w : ℕ) × (t'.waiting_request ≡ some w)
        × (t.waiting_request ≡ some w)
        × (extra ≡ [])
        × (hal ≡ [] → (k : BlockAction) × (a.hardware w (pos 1) ≡ blocked k)))

-- The requests that the hardware got meanwhile: none, or the one that waited.
abbrev pub Sends : RequestThread → RequestThread → List ℕ → Type 0
Sends t t' extra =
    (extra ≡ [])
    ⊎ ((w : ℕ) × (t.waiting_request ≡ some w) × (t'.waiting_request ≡ none) × (extra ≡ w ∷ []))

-- What checking the blocked caller leads to, with the requests `hal` at the hardware.
pub record Checked (a : Answers) (hal : List ℕ) (t : RequestThread) (r : RequestThread × List Reply)
    : Type 0 where
  pub extra : List ℕ
  pub sends : Sends t r.0 extra
  pub books : Books r.0 (hal ++ extra)
  pub outcome :
      ((status : Status) × Tells status r.1
        × (r.0.block_action ≡ none)
        × (r.0.waiting_request ≡ none))
      ⊎ ((r.0.block_action ≡ t.block_action) × Quiet a hal extra t r.0)

is_due_alone : (action : BlockAction) → is_due action (pos 1) ≡ true
unfolding is_due
is_due_alone wait_one = refl
is_due_alone wait_all_previous = refl
is_due_alone wait_all_and_fence = refl

abbrev Alone : Answers → List ℕ → List ℕ → RequestThread → ℕ → Type 0
Alone a hal extra t w =
    (t.waiting_request ≡ some w)
    × (extra ≡ [])
    × (hal ≡ [] → (k : BlockAction) × (a.hardware w (pos 1) ≡ blocked k))

-- The state before the caller is checked for a reply.
record Before (a : Answers) (hal : List ℕ) (t s : RequestThread) : Type 0 where
  same_block : s.block_action ≡ t.block_action
  same_room : are_all_streams_under_max_buffers s ≡ are_all_streams_under_max_buffers t
  extra : List ℕ
  sends : Sends t s extra
  books : Books s (hal ++ extra)
  alone : (w : ℕ) → s.waiting_request ≡ some w → Alone a hal extra t w

pub none_or_some : (o : Option ℕ) (w : ℕ) → o ≡ none → o ≡ some w → ⊥
none_or_some o w n e = cc

count_alone :
    (t : RequestThread) (hal : List ℕ) (w : ℕ)
    → Books t hal
    → t.waiting_request ≡ some w
    → hal ≡ []
    → t.requests_in_hal ≡ pos 1
count_alone t hal w b e z =
    b.counted
    ∙ ap (λ xs. pos (length xs + length (waiting_list t.waiting_request))) z
    ∙ ap (λ o. pos (0 + length (waiting_list o))) e

not_due_alone : (action : BlockAction) (n : ℤ) → is_due action n ≡ false → n ≡ pos 1 → ⊥
not_due_alone action n d e = let due = ap (is_due action) e ∙ is_due_alone action in cc

module _ (a : Answers) (hal : List ℕ) (t : RequestThread) where
  unblocked-Books :
      (s : RequestThread) (xs : List ℕ)
      → s.waiting_request ≡ none
      → Books s xs
      → Books (record s { block_action = none }) xs
  unblocked-Books s xs e b = record { owns = b.owns; counted = b.counted; parked = λ _. e }

  told-Checked :
      (o : Option ℕ) (free : Bool) (s : RequestThread × Status)
      → s.0.waiting_request ≡ o
      → are_all_streams_under_max_buffers s.0 ≡ free
      → Before a hal t s.0
      → Checked a hal t (told o free s)
  unfolding told
  told-Checked none true s e room b = record {
    extra = b.extra;
    sends = b.sends;
    books = unblocked-Books s.0 (hal ++ b.extra) e b.books;
    outcome = inl (s.1, inl refl, refl, e);
  }
  told-Checked none false s e room b = record {
    extra = b.extra;
    sends = b.sends;
    books = b.books;
    outcome = inr (b.same_block, inl (e, sym b.same_room ∙ room));
  }
  told-Checked (some w) free s e room b = record {
    extra = b.extra;
    sends = b.sends;
    books = b.books;
    outcome = inr (b.same_block, inr (w, e, (b.alone w e).0, (b.alone w e).1, (b.alone w e).2));
  }

  reply_if_free-Checked :
      (s : RequestThread × Status) → Before a hal t s.0 → Checked a hal t (reply_if_free s)
  unfolding reply_if_free
  reply_if_free-Checked s b = told-Checked s.0.waiting_request _ s refl refl b

  unsent-Before :
      Books t hal → ((w : ℕ) → t.waiting_request ≡ some w → Alone a hal [] t w) → Before a hal t t
  unsent-Before b alone = record {
    same_block = refl;
    same_room = refl;
    extra = [];
    sends = inl refl;
    books = subst (Books t) (sym (append-nil hal)) b;
    alone = alone;
  }

  kept-Before :
      (w : ℕ) (s : RequestThread) (k : BlockAction)
      → Books t hal
      → t.waiting_request ≡ some w
      → a.hardware w t.requests_in_hal ≡ blocked k
      → s.waiting_request ≡ some w
      → Books s hal
      → s.block_action ≡ t.block_action
      → are_all_streams_under_max_buffers s ≡ are_all_streams_under_max_buffers t
      → Before a hal t s
  kept-Before w s k b e answer waits bs block room = record {
    same_block = block;
    same_room = room;
    extra = [];
    sends = inl refl;
    books = subst (Books s) (sym (append-nil hal)) bs;
    alone = λ v e'.
        let same : w ≡ v = cc in
        (
          e ∙ ap some same,
          refl,
          λ z. (
            k,
            subst (λ u. a.hardware u (pos 1) ≡ blocked k) same
                (subst (λ n. a.hardware w n ≡ blocked k) (count_alone t hal w b e z) answer),
          ),
        );
  }

  freed-Before :
      (s : RequestThread) (extra : List ℕ)
      → s.waiting_request ≡ none
      → Sends t s extra
      → Books s (hal ++ extra)
      → s.block_action ≡ t.block_action
      → are_all_streams_under_max_buffers s ≡ are_all_streams_under_max_buffers t
      → Before a hal t s
  freed-Before s extra n sends bs block room = record {
    same_block = block;
    same_room = room;
    extra = extra;
    sends = sends;
    books = bs;
    alone = λ v e. absurd (none_or_some s.waiting_request v n e);
  }

  sent-Before :
      (w : ℕ) (s : RequestThread × Status)
      → Books t hal
      → t.waiting_request ≡ some w
      → Sent a hal w t s
      → Before a hal t s.0
  sent-Before w s b e sent = elim sent.outcome [
    | inl (k, answer, waits, bs) ↦
        kept-Before w s.0 k b e answer waits bs sent.still_blocked sent.as_roomy
    | inr (n, inl bs) ↦
        freed-Before s.0 [] n (inl refl) (subst (Books s.0) (sym (append-nil hal)) bs)
          sent.still_blocked sent.as_roomy
    | inr (n, inr bs) ↦
        freed-Before s.0 (w ∷ []) n (inr (w, e, n, refl)) bs sent.still_blocked sent.as_roomy
  ]

  due-Before :
      (action : BlockAction) (w : ℕ) (due : Bool)
      → is_due action t.requests_in_hal ≡ due
      → Books t hal
      → t.waiting_request ≡ some w
      → Before a hal t (if due then retry a action w t else (t, ok)).0
  due-Before action w true d b e =
      sent-Before w (retry a action w t) b e (retry-Sent a hal w action t b e)
  due-Before action w false d b e = unsent-Before b (λ v e'. (
    e',
    refl,
    λ z. absurd (not_due_alone action t.requests_in_hal d (count_alone t hal w b e z)),
  ))

  retry_waiting-Before :
      (action : BlockAction) (o : Option ℕ)
      → t.waiting_request ≡ o
      → Books t hal
      → Before a hal t (retry_waiting a action o t).0
  unfolding retry_waiting
  retry_waiting-Before action none e b =
      unsent-Before b (λ v e'. absurd (none_or_some t.waiting_request v e e'))
  retry_waiting-Before action (some w) e b =
      due-Before action w (is_due action t.requests_in_hal) refl b e

  pub check_blocked-Checked :
      (action : BlockAction) → Books t hal → Checked a hal t (check_blocked a (some action) t)
  unfolding check_blocked
  check_blocked-Checked action b =
      reply_if_free-Checked (retry_waiting a action t.waiting_request t)
        (retry_waiting-Before action t.waiting_request refl b)
