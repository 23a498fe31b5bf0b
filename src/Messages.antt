-- ===== src/Messages.antt =====
-- common/MessageQueue.h and common/MessageQueue.cpp: the queue between the threads of the HAL.
pub mod Order
pub mod Reply
use hardware_rockchip_camera.Base.{
  ℕ, zero, suc, Bool, true, false, ◌&&◌, ◌||◌, not, List, [], ◌∷◌, ◌++◌, Option, none, some, ◌==◌,
  ltb, leb, if◌then◌else◌, length, get_elem?, set,
}
use hardware_rockchip_camera.Base.Signed.{ℤ, pos, negsuc}
use hardware_rockchip_camera.Status.{Status, ok, bad_value, invalid_operation, would_block}

-- The head of `messages` is the front of mList. `reply_status` has `num_reply` entries.
pub record MessageQueue (M : Type 0) : Type 0 where
  pub messages : List M
  pub num_reply : ℕ
  pub reply_status : List Status

-- `send` with a reply id blocks until that entry of mReplyStatus is not WOULD_BLOCK.
pub data Sent : Type 0 where
  returned : Status → Sent
  waits : ℕ → Sent

-- The default argument of `send`.
abbrev pub no_reply : ℤ
no_reply = negsuc 0

unfoldable pub answer : Status → Option Status
answer would_block = none
answer st = some st

module _ {M : Type 0} where
  push : MessageQueue M → M → MessageQueue M
  push q m = record q { messages = m ∷ q.messages }

  unfoldable pub send : MessageQueue M → M → ℤ → MessageQueue M × Sent
  unfolding push
  send q m (negsuc zero) = (push q m, returned ok)
  send q m (negsuc (suc _)) = (q, returned bad_value)
  send q m (pos i) =
      if q.num_reply == 0 || leb q.num_reply i
      then (q, returned bad_value)
      else (record (push q m) { reply_status = set q.reply_status i would_block }, waits i)

  -- The loop of a blocked `send`: it goes on while its entry is WOULD_BLOCK.
  unfoldable pub woken : MessageQueue M → ℕ → Option Status
  unfolding answer
  woken q i = elim (get_elem? q.reply_status i) [ none ↦ none | some st ↦ answer st ]

  -- `none` is a write behind the end of mReplyStatus.
  unfoldable pub write_reply : MessageQueue M → ℕ → Status → Option (MessageQueue M)
  write_reply q i st =
      if ltb i (length q.reply_status)
      then some (record q { reply_status = set q.reply_status i st })
      else none

  unfoldable pub reply : MessageQueue M → ℤ → Status → Option (MessageQueue M)
  unfolding write_reply
  reply q (negsuc _) st = some q
  reply q (pos i) st = if ltb q.num_reply i then some q else write_reply q i st

  unsnoc : M → List M → M × List M
  unsnoc m [] = (m, [])
  unsnoc m (n ∷ ns) = let (last, rest) = unsnoc n ns in (last, m ∷ rest)

  -- `none` while the queue is empty, where the caller goes on waiting.
  receive_from : MessageQueue M → List M → Option (M × MessageQueue M)
  unfolding unsnoc
  receive_from q [] = none
  receive_from q (m ∷ ms) =
      let (last, rest) = unsnoc m ms in some (last, record q { messages = rest })

  unfoldable pub receive : MessageQueue M → Option (M × MessageQueue M)
  unfolding receive_from
  receive q = receive_from q q.messages

  -- The messages that `remove` keeps, and those that it hands to its caller.
  unfoldable pub split : (M → Bool) → List M → List M × List M
  split is_id [] = ([], [])
  split is_id (m ∷ ms) =
      let (kept, taken) = split is_id ms in if is_id m then (kept, m ∷ taken) else (m ∷ kept, taken)

  reply_removed : MessageQueue M → ℤ → Option (MessageQueue M)
  reply_removed q id = if ltb 0 q.num_reply then reply q id invalid_operation else some q

  -- `is_id` tests `msg.id == id`.
  remove_from : MessageQueue M → (M → Bool) → ℤ → List M → Option (MessageQueue M × List M)
  unfolding reply_removed
  remove_from q is_id id [] = some (q, [])
  remove_from q is_id id (m ∷ ms) =
      let (kept, taken) = split is_id (m ∷ ms) in
      elim (reply_removed (record q { messages = kept }) id) [
        | none ↦ none
        | some q' ↦ some (q', taken)
      ]

  unfoldable pub remove : MessageQueue M → (M → Bool) → ℤ → Option (MessageQueue M × List M)
  unfolding remove_from
  remove q is_id id = remove_from q is_id id q.messages
