-- ===== src/Results/Metadata.antt =====
-- handleMetadataDone of AAL/ResultProcessor.cpp keeps the accounts.
use hardware_rockchip_camera.Base.{
  ℕ, suc, ◌+◌, ◌<◌, ◌≡◌, refl, ◌∙◌, inr, Bool, true, false, ◌&&◌, List, [], ◌∷◌, ◌==◌, All-append,
  if_rule,
}
use hardware_rockchip_camera.Base.Signed.{ℤ, pos, negsuc}
use hardware_rockchip_camera.Status.{Status, ok}
use hardware_rockchip_camera.Results.State.{Buffer, Request, RequestState, get_settings, Processor}
use hardware_rockchip_camera.Results.Returns.{
  emit, must_wait, is_last_result, return_buffer, return_buffers, return_pending_buffers, finish,
}
use hardware_rockchip_camera.Results.Handlers.{
  return_partials_if, return_buffers_if_any, all_meta_received, return_stored_partials,
  stored_round, result_found, store_settings, then_stored, settings_found, metadata_found,
}
use hardware_rockchip_camera.Results.Accounts.{
  IsPresent, Returns, Returns-bind, Inv, Open, IsOpen, Open-step,
}
use hardware_rockchip_camera.Results.Deliver.{return_result-Open}
use hardware_rockchip_camera.Results.Recycle.{commit-Inv, finish-Inv}
use hardware_rockchip_camera.Results.State.{dec_out_buffers}
use hardware_rockchip_camera.Results.Invariant.{InvAfter, partials_if-Open, received-ne-nil}

-- What the code relies on when the settings of a request arrive as its metadata: they are there, and
-- the request before it has had a result or is gone.
abbrev pub MetadataReady : Processor → Request → ℤ → RequestState → Type 0
MetadataReady p req (pos _) s = Unit {0}
MetadataReady p req (negsuc _) s = (req.initialized ≡ true) × (must_wait p s ≡ false)

-- Handing buffers to the client changes nothing that `must_wait` reads.
return_buffer-must_wait :
    (p : Processor) (s : RequestState) (b : Buffer)
    → must_wait (return_buffer p s b).0 (return_buffer p s b).1 ≡ must_wait p s
unfolding return_buffer must_wait
return_buffer-must_wait p s b =
    if_rule
      (λ q.
        must_wait (emit (dec_out_buffers b.owner) q)
          (record s { buffers_returned = s.buffers_returned + 1 })
        ≡ must_wait p s)
      (is_last_result p s && p.request_has_error s.request.id) _ _ (λ _. refl) (λ _. refl)

return_buffers-must_wait :
    (bs : List Buffer) (p : Processor) (s : RequestState)
    → must_wait (return_buffers p s bs).0 (return_buffers p s bs).1 ≡ must_wait p s
unfolding return_buffers
return_buffers-must_wait [] p s = refl
return_buffers-must_wait (b ∷ bs) p s =
    return_buffers-must_wait bs _ _ ∙ return_buffer-must_wait p s b

cleared-must_wait :
    (p : Processor) (s : RequestState)
    → must_wait p (record s { pending_buffers = [] }) ≡ must_wait p s
unfolding must_wait
cleared-must_wait p s = refl

pub buffers_if_any-must_wait :
    (xs : List Buffer) (p : Processor) (s : RequestState)
    → must_wait (return_buffers_if_any p s xs).0 (return_buffers_if_any p s xs).1 ≡ must_wait p s
unfolding return_buffers_if_any return_pending_buffers
buffers_if_any-must_wait [] p s = refl
buffers_if_any-must_wait (_ ∷ _) p s =
    if_rule (λ (r : Processor × RequestState). must_wait r.0 r.1 ≡ must_wait p s)
      (s.buffers_returned == s.buffers_to_return) _ _ (λ _. refl)
      (λ _. cleared-must_wait _ _ ∙ return_buffers-must_wait s.pending_buffers p s)

pub MetadataReady-resp :
    (p q : Processor) (req : Request) (index : ℤ) (s t : RequestState)
    → must_wait q t ≡ must_wait p s
    → MetadataReady p req index s
    → MetadataReady q req index t
MetadataReady-resp p q req (pos _) s t e h = tt
MetadataReady-resp p q req (negsuc _) s t e h = (h.0, e ∙ h.1)

module _ (total : ℕ → ℕ) (partials : ℕ) (some_partials : 0 < partials) where
  nothing_stored :
      (k : ℕ) (b : Bool) (r : Processor × Status)
      → Inv total partials r.0
      → Returns (InvAfter total partials some_partials) (then_stored (suc k) b r)
  unfolding then_stored return_stored_partials
  nothing_stored k false r v = v
  nothing_stored k true r v = rw (v.none_waits, stored_round) v

  module _ (id : ℕ) where
    stored-Open :
        (p : Processor) (req : Request) (s : RequestState)
        → req.initialized ≡ true
        → must_wait p s ≡ false
        → Open total partials id p s
        → Open total partials id p (store_settings s req)
    unfolding must_wait store_settings get_settings
    stored-Open p req s i w o =
        Open-step total partials id p s _ p.log p.next_request_id o refl refl (λ k j h. refl)
          (record {
            shutters_told = o.mine.shutters_told;
            results_told = o.mine.results_told;
            buffers_told = o.mine.buffers_told;
            not_returned = o.mine.not_returned;
            total_known = o.mine.total_known;
            own_request = o.mine.own_request;
            settings_there =
                All-append IsPresent s.pending_partial_results _ o.mine.settings_there
                  (rw i (λ e. cc), tt);
          })
          (inr w)

    settings_found-Inv :
        (k : ℕ) (p : Processor) (req : Request) (s : RequestState)
        → req.id ≡ id
        → req.initialized ≡ true
        → must_wait p s ≡ false
        → Open total partials id p s
        → Returns (InvAfter total partials some_partials) (settings_found (suc k) p req s)
    unfolding settings_found
    settings_found-Inv k p req s e i w o =
        if_rule (Returns (InvAfter total partials some_partials)) s.is_shutter_done _ _
          (λ _.
            Returns-bind (IsOpen total partials id) (InvAfter total partials some_partials)
              (return_partials_if (all_meta_received p s1) p s1) _
              (partials_if-Open total partials some_partials id _ p s1 open_1
                (received-ne-nil total partials some_partials id p s1 open_1))
              (λ a oa.
                Returns-bind (InvAfter total partials some_partials)
                  (InvAfter total partials some_partials) (finish a.0 a.1 req ok) _
                  (finish-Inv total partials id a.0 a.1 oa req ok e)
                  (λ r v. nothing_stored k _ r v)))
          (λ _. commit-Inv total partials id p s1 open_1)
      where
        s1 : RequestState
        s1 = store_settings s req

        open_1 : Open total partials id p s1
        open_1 = stored-Open p req s i w o

    result_found-Inv :
        (p : Processor) (req : Request) (index : ℕ) (s : RequestState)
        → req.id ≡ id
        → Open total partials id p s
        → Returns (InvAfter total partials some_partials) (result_found p req index s)
    unfolding result_found
    result_found-Inv p req index s e o =
        finish-Inv total partials id _ _ (return_result-Open total partials id p s index o) req ok e

    pub metadata_found-Inv :
        (k : ℕ) (p : Processor) (req : Request) (index : ℤ) (s : RequestState)
        → req.id ≡ id
        → MetadataReady p req index s
        → Open total partials id p s
        → Returns (InvAfter total partials some_partials) (metadata_found (suc k) p req index s)
    unfolding metadata_found
    metadata_found-Inv k p req (pos index) s e h o = result_found-Inv p req index s e o
    metadata_found-Inv k p req (negsuc _) s e h o = settings_found-Inv k p req s e h.0 h.1 o
