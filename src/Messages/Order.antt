-- ===== src/Messages/Order.antt =====
-- The queue of common/MessageQueue.cpp refines a first-in first-out list.
use mathlib.Core.List.{reverse, reverse-cons}
use hardware_rockchip_camera.Base.{
  zero, suc, ◌<◌, ◌≡◌, refl, sym, ap, ◌∙◌, ◌⊎◌, inl, inr, List, [], ◌∷◌, ◌++◌, Option, none, some,
  arith,
}
use hardware_rockchip_camera.Base.Signed.{ℤ, pos, negsuc}
use hardware_rockchip_camera.Status.{bad_value}
use hardware_rockchip_camera.Messages.{MessageQueue, returned, send, receive, unsnoc}

module _ {M : Type 0} where
  -- Oldest first.
  abbrev pub contents : MessageQueue M → List M
  contents q = reverse q.messages

  -- The reply ids that `send` takes: none, or an index of mReplyStatus.
  abbrev pub Valid : MessageQueue M → ℤ → Type 0
  Valid q (negsuc zero) = Unit {0}
  Valid q (negsuc (suc _)) = ⊥
  Valid q (pos i) = i < q.num_reply

  -- A message with a valid reply id goes behind all others; any other is refused with BAD_VALUE and
  -- changes nothing.
  pub contents-send :
      (q : MessageQueue M) (m : M) (id : ℤ)
      → (Valid q id → contents (send q m id).0 ≡ contents q ++ m ∷ [])
        × (¬ Valid q id → send q m id ≡ (q, returned bad_value))
  unfolding send
  contents-send q m (negsuc zero) = (λ _. reverse-cons m q.messages, λ h. absurd (h tt))
  contents-send q m (negsuc (suc n)) = (λ h. absurd h, λ _. refl)
  contents-send q m (pos i) = (λ h. ground (arith, reverse-cons m q.messages), λ h. ground arith)

  unsnoc-reverse :
      (m : M) (ms : List M) → reverse (m ∷ ms) ≡ (unsnoc m ms).0 ∷ reverse (unsnoc m ms).1
  unfolding unsnoc
  unsnoc-reverse m [] = refl
  unsnoc-reverse m (n ∷ ns) =
      reverse-cons m (n ∷ ns)
      ∙ ap (λ l. l ++ m ∷ []) (unsnoc-reverse n ns)
      ∙ ap (◌∷◌ (unsnoc n ns).0) (sym (reverse-cons m (unsnoc n ns).1))

  abbrev pub Receives : MessageQueue M → Option (M × MessageQueue M) → Type 0
  Receives q r =
      ((contents q ≡ []) × (r ≡ none))
      ⊎ ((m : M) × (q' : MessageQueue M) × (r ≡ some (m, q'))
          × (contents q ≡ m ∷ contents q')
          × (q'.reply_status ≡ q.reply_status))

  receive_from-Receives :
      (q : MessageQueue M) (ms : List M)
      → Receives (record q { messages = ms }) (receive (record q { messages = ms }))
  unfolding receive
  receive_from-Receives q [] = inl (refl, refl)
  receive_from-Receives q (m ∷ ms) =
      inr
        ((unsnoc m ms).0, record q { messages = (unsnoc m ms).1 }, refl, unsnoc-reverse m ms, refl)

  -- `receive` waits exactly while the queue is empty, and else takes the oldest message and no other.
  pub receive-Receives : (q : MessageQueue M) → Receives q (receive q)
  receive-Receives q = receive_from-Receives q q.messages
