-- ===== src/Protocol/Safra/Detection.antt =====
-- The announcement is right: the computation has terminated.
use scala_neko.Base.{
  ℕ, zero, suc, ◌<◌, ◌≡◌, ◌≢◌, refl, ap, ◌∙◌, ◌⊎◌, inl, inr, false, [], ◌==◌, arith,
}
use scala_neko.Base.Int.{pos, ◌+ℤ◌, int_laws}
use scala_neko.Protocol.Safra.{initial_token, new}
use scala_neko.Protocol.Safra.Network.{
  World, start, Step, sends, payload_arrives, holder_arrives, announce_arrives, Reach, here, next,
}
use scala_neko.Protocol.Safra.Counts.{total}
use scala_neko.Protocol.Safra.Invariant.{AllPassive, Silent, travelling, held, over}
use scala_neko.Protocol.Safra.Soundness.{IsSound, IsSound-payload}
use scala_neko.Protocol.Safra.Arrivals.{IsSound-holder, IsSound-announced}
use scala_neko.Protocol.Safra.Requests.{IsSound-submit}

total-new : (k : ℕ) → total k new ≡ pos 0
unfolding total new
total-new zero = refl
total-new (suc k) =
    let none_yet : pos 0 +ℤ pos 0 ≡ pos 0 = omega int_laws in
    ap (λ z. z +ℤ pos 0) (total-new k) ∙ none_yet

module _ {ℓ} {A : Type ℓ} (n : ℕ) where
  Step-IsSound : (w v : World A) → Step n w v → IsSound n w → IsSound n v
  Step-IsSound w _ (sends _ p req pn ds) h = IsSound-submit n w p req pn ds h
  Step-IsSound w _ (payload_arrives _ xs ys p m e) h = IsSound-payload n w xs ys p m e h
  Step-IsSound w _ (holder_arrives _ xs ys k e) h = IsSound-holder n w xs ys k e h
  Step-IsSound w _ (announce_arrives _ xs ys p e) h = IsSound-announced n w xs ys p e h

  start-IsSound : 0 < n → IsSound {A = A} n start
  unfolding new
  start-IsSound some_process = record {
    counted = total-new n;
    placed = tt;
    token =
        held 0 initial_token refl some_process refl refl
          (λ i ne. let other : (i == 0) ≡ false = ground arith in rw other refl)
          (λ ne. absurd (ne refl)) (refl, refl);
  }

  pub Reach-IsSound : 0 < n → (w : World A) → Reach n w → IsSound n w
  Reach-IsSound some_process _ here = start-IsSound some_process
  Reach-IsSound some_process _ (next w v r step) =
      Step-IsSound w v step (Reach-IsSound some_process w r)

  -- In every run of one process or more: when the layer above some process has been told of the
  -- termination, or an announcement of it is on its way, then every process is passive and no message
  -- is on its way.
  pub Reach-announced :
      (w : World A)
      → 0 < n
      → Reach n w
      → (w.announcements ≢ []) ⊎ (w.told ≢ [])
      → AllPassive n w.procs × (w.payloads ≡ [])
  Reach-announced w some_process r news = elim (Reach-IsSound some_process w r).token [
    | travelling t one to_n nobody knows silent ↦ absurd (nothing silent)
    | held q t no_holders qn holds is_active others knows silent ↦ absurd (nothing silent)
    | over no_holders nobody quiet no_payloads news ↦ (quiet, no_payloads)
  ]
    where
      nothing : Silent w.announcements w.told → ⊥
      nothing silent = elim news [ inl k ↦ k silent.0 | inr k ↦ k silent.1 ]
