-- ===== src/Capture/Thread/Process.antt =====
-- handleProcessCaptureRequest of AAL/RequestThread.cpp and the books.
use mathlib.Core.List.{append-nil, append_assoc}
use hardware_rockchip_camera.Base.{
  subst, sym, ap, ◌∙◌, ℕ, suc, ◌+◌, ◌≡◌, ◌≢◌, refl, ◌⊎◌, inl, inr, List, [], ◌∷◌, ◌++◌, Option,
  none, some, true, false, if_rule, length, arith,
}
use hardware_rockchip_camera.Base.Signed.{pos, ◌+ℤ◌, ◌-ℤ◌, eq_of_parts, +ℤ_parts}
use hardware_rockchip_camera.Status.{Status, ok, bad_value, unknown_error, is_ok}
use hardware_rockchip_camera.Pool.Items.{ItemPool, acquire_item}
use hardware_rockchip_camera.Pool.Items.Owned.{Owns, Acquires, acquire_item-Owns, release_item-Owns}
use hardware_rockchip_camera.Capture.Stream.{Heap}
use hardware_rockchip_camera.Capture.Request.{
  StreamBuffer, CaptureRequest, Camera3Request, Init, crashed, returned,
}
use hardware_rockchip_camera.Capture.Request.Order.{priv_streams}
use hardware_rockchip_camera.Capture.Request.Outcomes.{Outcome, init-Outcome}
use hardware_rockchip_camera.Capture.Thread.{
  BlockAction, wait_one, RequestThread, Answers, Capture, accepted, blocked, failed, Handled,
  handled, went_through_null, capture_request, are_all_streams_under_max_buffers, bad_request,
  release_request, set_request, captured, initialised, take_settings, with_settings, acquired,
  handle_process_capture_request,
}
use hardware_rockchip_camera.Capture.Thread.Accounts.{Heaped, capture_request-Heaped, Owns-front}
use hardware_rockchip_camera.Capture.Thread.Books.{Books, waiting_list, pos_suc}

-- Every buffer of the request belongs to a stream that was configured.
pub record IsConfigured (h : Heap) (req : CaptureRequest) : Type 0 where
  pub outputs : priv_streams h.stream3s req.output_buffers ≢ none
  pub input : (b : StreamBuffer) → req.input_buffer ≡ some b → (h.stream3s b.stream).priv ≢ none

abbrev pub Processed : List ℕ → Handled → Type 0
Processed hal went_through_null = ⊥
Processed hal (handled t status) =
    ((is_ok status ≡ false) × Books t hal × (t.block_action ≡ none))
    ⊎ ((x : ℕ) × (status ≡ ok)
        × (((t.waiting_request ≡ none) × Books t (x ∷ hal))
            ⊎ ((t.waiting_request ≡ some x) × (t.block_action ≢ none) × Books t hal)))

-- The request `x` has been taken from the pool for a caller.
record Holds (x : ℕ) (hal : List ℕ) (t : RequestThread) : Type 0 where
  owns : Owns t.requests_pool (x ∷ hal ++ t.active_request)
  counted : t.requests_in_hal ≡ pos (suc (length hal))
  not_waiting : t.waiting_request ≡ none
  not_blocked : t.block_action ≡ none

module _ (x : ℕ) (hal : List ℕ) where
  free-Books :
      (t : RequestThread) (xs : List ℕ)
      → t.waiting_request ≡ none
      → Owns t.requests_pool (xs ++ t.active_request)
      → t.requests_in_hal ≡ pos (length xs)
      → Books t xs
  free-Books t xs e o c = record {
    owns = rw (e, append-nil xs) o;
    counted = c ∙ ap pos (rw e (omega arith));
    parked = λ _. e;
  }

  bad_request-Books : (t : RequestThread) → Holds x hal t → Books (bad_request x t) hal
  unfolding bad_request release_request set_request
  bad_request-Books t k =
      let (q, e, owns, _, _) =
        release_item-Owns t.requests_pool [] (hal ++ t.active_request) x k.owns in
      free-Books (bad_request x t) hal k.not_waiting
        (subst (λ (r : ItemPool × Status). Owns r.0 (hal ++ t.active_request)) (sym e) owns)
        (ap (λ z. z -ℤ pos 1) k.counted ∙ pos_suc (length hal))

  bad_request-Processed :
      (t : RequestThread) (status : Status)
      → Holds x hal t
      → is_ok status ≡ false
      → Processed hal (handled (bad_request x t) status)
  unfolding bad_request release_request set_request
  bad_request-Processed t status k e = inl (e, bad_request-Books t k, k.not_blocked)

  accepted-Books :
      (t : RequestThread) (block : Option BlockAction)
      → Holds x hal t
      → Books (record t { block_action = block }) (x ∷ hal)
  accepted-Books t block k =
      free-Books (record t { block_action = block }) (x ∷ hal) k.not_waiting k.owns k.counted

  captured-Processed :
      (r : RequestThread × Capture) → Holds x hal r.0 → Processed hal (captured x r)
  unfolding captured
  captured-Processed (t, blocked k) holds = inr (
    x,
    refl,
    inr (
      refl,
      (λ e. cc),
      record {
        owns =
            subst (Owns t.requests_pool) (sym (append_assoc hal (x ∷ []) t.active_request))
              (Owns-front t.requests_pool x hal t.active_request holds.owns);
        counted = holds.counted ∙ ap pos (omega arith);
        parked = λ e. cc;
      },
    ),
  )
  captured-Processed (t, failed status) holds = bad_request-Processed t unknown_error holds refl
  captured-Processed (t, accepted) holds = inr (
    x,
    refl,
    inl (
        if_rule (λ (u : RequestThread). (u.waiting_request ≡ none) × Books u (x ∷ hal))
          (are_all_streams_under_max_buffers t) _ _
          (λ _. (holds.not_waiting, accepted-Books t t.block_action holds))
          (λ _. (holds.not_waiting, accepted-Books t (some wait_one) holds))),
  )

module _ (a : Answers) (req : CaptureRequest) (x : ℕ) (hal : List ℕ) where
  Holds-Heaped : (t u : RequestThread) → Heaped t u → Holds x hal t → Holds x hal u
  Holds-Heaped t u (h, e, c) k = subst (Holds x hal) (sym e) (record {
    owns = k.owns;
    counted = k.counted;
    not_waiting = k.not_waiting;
    not_blocked = k.not_blocked;
  })

  no_crash : (h : Heap) (r : Camera3Request) → IsConfigured h req → Outcome h req true r crashed → ⊥
  no_crash h r c (inl e) = c.outputs e
  no_crash h r c (inr (b, e, n)) = c.input b e n

  initialised-Processed :
      (t : RequestThread) (i : Init)
      → Holds x hal t
      → IsConfigured t.heap req
      → Outcome t.heap req true (t.requests x) i
      → Processed hal (initialised a x t i)
  unfolding initialised set_request
  initialised-Processed t crashed k c o = no_crash t.heap (t.requests x) c o
  initialised-Processed t (returned h r status) k c o =
      let t' = record (set_request x (λ _. r) t) { heap = h } in
      let holds : Holds x hal t' = record {
        owns = k.owns;
        counted = k.counted;
        not_waiting = k.not_waiting;
        not_blocked = k.not_blocked;
      } in
      if_rule (Processed hal) (is_ok status) _ _
        (λ _.
          captured-Processed x hal (capture_request a x t')
            (Holds-Heaped t' _ (capture_request-Heaped a x t') holds))
        (λ e. bad_request-Processed x hal t' status holds e)

  with_settings-Processed :
      (t : RequestThread) (settings : Option ℕ)
      → Holds x hal t
      → IsConfigured t.heap req
      → Processed hal (with_settings a req x t settings)
  unfolding with_settings
  with_settings-Processed t none k c = bad_request-Processed x hal t bad_value k refl
  with_settings-Processed t (some s) k c =
      initialised-Processed (record t { last_settings = some s }) _
        (record {
          owns = k.owns;
          counted = k.counted;
          not_waiting = k.not_waiting;
          not_blocked = k.not_blocked;
        })
        c
        (init-Outcome a.register_buffer (a.init_partial x) true req (some s) t.heap (t.requests x))

plus_one : (n : ℕ) → pos n +ℤ pos 1 ≡ pos (suc n)
plus_one n = eq_of_parts _ _ (omega (arith, +ℤ_parts (pos n) (pos 1)))

module _ (t : RequestThread) (hal : List ℕ) (b : Books t hal) (e : t.block_action ≡ none) where
  idle-Owns : Owns t.requests_pool (hal ++ t.active_request)
  idle-Owns =
      subst (λ xs. Owns t.requests_pool (xs ++ t.active_request)) (append-nil hal)
        (subst (λ o. Owns t.requests_pool ((hal ++ waiting_list o) ++ t.active_request))
          (b.parked e) b.owns)

  idle_counted : t.requests_in_hal ≡ pos (length hal)
  idle_counted =
      subst (λ o. t.requests_in_hal ≡ pos (length hal + length (waiting_list o))) (b.parked e)
        b.counted
      ∙ ap pos (omega arith)

  acquired-Processed :
      (a : Answers) (req : CaptureRequest) (r : ItemPool × Option ℕ × Status)
      → IsConfigured t.heap req
      → Acquires t.requests_pool (hal ++ t.active_request) r
      → Processed hal (acquired a req t r)
  unfolding acquired
  acquired-Processed a req r c (inl (full, e')) = rw e' (inl (refl, b, e))
  acquired-Processed a req r c (inr (room, (x, q, e', owns, size))) = rw e' (
      with_settings-Processed a req x hal
        (record t { requests_pool = q; requests_in_hal = t.requests_in_hal +ℤ pos 1 })
        (take_settings req t)
        (record {
          owns = owns;
          counted = ap (λ z. z +ℤ pos 1) idle_counted ∙ plus_one (length hal);
          not_waiting = b.parked e;
          not_blocked = e;
        })
        c)

-- A caller that is not blocked, with books that balance and a request whose streams are all configured, gets an answer: an error, and nothing is out of the pool that was not before; or OK, and one more request is either with the hardware or waits with a blocking action set. The books balance again.
pub handle_process_capture_request-Processed :
    (a : Answers) (req : CaptureRequest) (t : RequestThread) (hal : List ℕ)
    → Books t hal
    → t.block_action ≡ none
    → IsConfigured t.heap req
    → Processed hal (handle_process_capture_request a req t)
unfolding handle_process_capture_request
handle_process_capture_request-Processed a req t hal b e c =
    acquired-Processed t hal b e a req (acquire_item t.requests_pool false) c
      (acquire_item-Owns t.requests_pool (hal ++ t.active_request) (idle-Owns t hal b e))
