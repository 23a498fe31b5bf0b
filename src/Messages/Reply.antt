-- ===== src/Messages/Reply.antt =====
-- The replies of common/MessageQueue.cpp.
use hardware_rockchip_camera.Base.{
  ℕ, ◌<◌, ◌≡◌, ◌≢◌, refl, ◌∙◌, false, ◌∷◌, none, some, arith, leb, ◌==◌, ◌||◌, length, set,
  length-set, get_elem?-set_self, get_elem?-set_ne,
}
use hardware_rockchip_camera.Base.Signed.{pos}
use hardware_rockchip_camera.Status.{Status, would_block}
use hardware_rockchip_camera.Messages.{MessageQueue, waits, send, answer, woken, reply}

answer_blocks : answer would_block ≡ none
unfolding answer
answer_blocks = refl

answer_lem : (st : Status) → st ≢ would_block → answer st ≡ some st
unfolding answer
answer_lem would_block h = absurd (h refl)
answer_lem st h = refl

accepted : (n i : ℕ) → i < n → (n == 0 || leb n i) ≡ false
accepted n i h = ground arith

module _ {M : Type 0} where
  -- The constructor allocates `num_reply` entries.
  abbrev pub IsAllocated : MessageQueue M → Type 0
  IsAllocated q = length q.reply_status ≡ q.num_reply

  -- A reply is written inside mReplyStatus or dropped, except under the id that equals the number of
  -- entries: that one passes the check and is written behind the end.
  pub reply_in_range :
      (q : MessageQueue M) (i : ℕ) (st : Status)
      → IsAllocated q
      → (i < q.num_reply
          → reply q (pos i) st ≡ some (record q { reply_status = set q.reply_status i st }))
        × (i ≡ q.num_reply → reply q (pos i) st ≡ none)
        × (q.num_reply < i → reply q (pos i) st ≡ some q)
  unfolding reply
  reply_in_range q i st h = (λ l. ground arith, λ l. ground arith, λ l. ground arith)

  woken-set_self :
      (q : MessageQueue M) (i : ℕ) (st : Status)
      → i < length q.reply_status
      → woken (record q { reply_status = set q.reply_status i st }) i ≡ answer st
  unfolding woken
  woken-set_self q i st l = rw (get_elem?-set_self q.reply_status i st l, woken)

  woken-set_ne :
      (q : MessageQueue M) (i j : ℕ) (st : Status)
      → j ≢ i
      → woken (record q { reply_status = set q.reply_status j st }) i ≡ woken q i
  unfolding woken
  woken-set_ne q i j st h = rw (get_elem?-set_ne q.reply_status j i st h, woken)

  -- A caller that sends with a valid reply id is blocked; replies under other ids leave it blocked,
  -- and a reply under its id with any status but WOULD_BLOCK wakes it with that status.
  pub send_blocks_until_reply :
      (q : MessageQueue M) (m : M) (i j : ℕ) (st other : Status)
      → IsAllocated q
      → i < q.num_reply
      → j < q.num_reply
      → j ≢ i
      → st ≢ would_block
      → let (sent, result) = send q m (pos i) in
        (result ≡ waits i)
        × (woken sent i ≡ none)
        × ((q' : MessageQueue M) × (reply sent (pos j) other ≡ some q') × (woken q' i ≡ none))
        × ((q' : MessageQueue M) × (reply sent (pos i) st ≡ some q') × (woken q' i ≡ some st))
  unfolding send
  send_blocks_until_reply q m i j st other h li lj ne nb =
      rw (accepted q.num_reply i li, send)
        (
          refl,
          blocked,
          (
            record sent { reply_status = set sent.reply_status j other },
            (reply_in_range sent j other (length-set q.reply_status i would_block ∙ h)).0 lj,
            woken-set_ne sent i j other ne ∙ blocked,
          ),
          (
            record sent { reply_status = set sent.reply_status i st },
            (reply_in_range sent i st (length-set q.reply_status i would_block ∙ h)).0 li,
            woken-set_self sent i st (omega (arith, length-set q.reply_status i would_block))
                ∙ answer_lem st nb,
          ),
        )
    where
      sent : MessageQueue M
      sent = record q { messages = m ∷ q.messages; reply_status = set q.reply_status i would_block }

      blocked : woken sent i ≡ none
      blocked =
          woken-set_self (record q { messages = m ∷ q.messages }) i would_block (omega arith)
          ∙ answer_blocks
