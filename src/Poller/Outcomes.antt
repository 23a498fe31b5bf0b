-- ===== src/Poller/Outcomes.antt =====
-- What pollDevices (common/v4l2dev/v4l2devicebase.cpp) returns, and the rounds of a poll request
-- (common/PollerThread.cpp).
use hardware_rockchip_camera.Base.{
  ℕ, suc, ◌+◌, ◌≡◌, ◌⊎◌, Bool, true, false, not, List, [], ◌∷◌, ◌++◌, if◌then◌else◌, length,
}
use hardware_rockchip_camera.Base.Signed.{pos, negsuc, leb_ℤ}
use hardware_rockchip_camera.Poller.{PollAnswer, Polled, pollerr, has_event, is_flushed}

-- The devices whose index is kept, counted from `i` on.
abbrev pub selected : (ℕ → Bool) → ℕ → List ℕ → List ℕ
selected keep i [] = []
selected keep i (d ∷ ds) = let rest = selected keep (suc i) ds in if keep i then d ∷ rest else rest

abbrev pub NoneOf : (ℕ → Bool) → ℕ → List ℕ → Type 0
NoneOf bad i [] = Unit
NoneOf bad i (d ∷ ds) = (bad i ≡ false) × NoneOf bad (suc i) ds

abbrev pushed : Bool → ℕ → Polled → Polled
pushed b d r =
    if b then record r { active = d ∷ r.active } else record r { inactive = d ∷ r.inactive }

module _ (a : PollAnswer) (events : ℕ) where
  abbrev pub ready : ℕ → Bool
  ready i = has_event (a.revents i) events

  abbrev pub failing : ℕ → Bool
  failing i = has_event (a.revents i) pollerr

  -- The devices before `ds` split by the data they have.
  abbrev pub IsSplit : ℕ → List ℕ → Polled → Type 0
  IsSplit i ds r =
      NoneOf failing i ds
      × (r.active ≡ selected ready i ds)
      × (r.inactive ≡ selected (λ j. not (ready j)) i ds)

  abbrev pub SplitTo : ℕ → List ℕ → Polled → Type 0
  SplitTo i ds r =
      (IsSplit i ds r × (r.ret ≡ a.ret))
      ⊎ ((before : List ℕ) × (d : ℕ) × (after : List ℕ) × (ds ≡ before ++ d ∷ after)
          × (failing (length before + i) ≡ true)
          × IsSplit i before r
          × (r.ret ≡ negsuc 0))

module _ (devices active inactive : List ℕ) (flush_fd : Bool) (events : ℕ) (a : PollAnswer) where
  abbrev pub PollOutcome : Polled → Type 0
  PollOutcome r =
      ((leb_ℤ a.ret (pos 0) ≡ true)
        × (r ≡ record { active = active; inactive = inactive; ret = a.ret }))
      ⊎ ((leb_ℤ a.ret (pos 0) ≡ false)
          × (is_flushed flush_fd a ≡ true)
          × (r ≡ record { active = []; inactive = []; ret = a.ret }))
      ⊎ ((leb_ℤ a.ret (pos 0) ≡ false)
          × (is_flushed flush_fd a ≡ false)
          × SplitTo a events 0 devices r)
