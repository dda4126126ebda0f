-- ===== src/Protocol/Safra/Requests.antt =====
-- The steps of a system at the request of the layer above a process.
use scala_neko.Base.{
  none-some, some_inv, ℕ, ◌<◌, ◌≡◌, refl, ap, sym, subst, ◌∙◌, ◌⊎◌, inl, inr, Option, none, some,
  [], ◌∷◌, ◌==◌, ==_iff, length, Bool-cases, arith,
}
use scala_neko.Base.Int.{pos, ◌+ℤ◌}
use scala_neko.Protocol.Safra.{
  State, active, passive, Token, Request, initiate, become_passive, signal, message, send_signal,
  send_payload, threw, did, done, transmit_token, on_send,
}
use scala_neko.Protocol.Safra.Network.{World, put_all, become, settle, submit, IsAddressed}
use scala_neko.Protocol.Safra.Probe.{Probe}
use scala_neko.Protocol.Safra.Changes.{active≢passive}
use scala_neko.Protocol.Safra.Invariant.{travelling, held, over}
use scala_neko.Protocol.Safra.Soundness.{IsSound, IsSound-idle, IsSound-send, IsSound-transmit}

pub state-cases : (s : State) → (s ≡ active) ⊎ (s ≡ passive)
state-cases active = inl refl
state-cases passive = inr refl

module _ {ℓ} {A : Type ℓ} (n : ℕ) where
  IsSound-passive :
      (w : World A) (p : ℕ)
      → p < n
      → (w.procs p).state ≡ active
      → (o : Option Token) → (w.procs p).token ≡ o
      → IsSound n w
      → let r = transmit_token n p o (record (w.procs p) { state = passive }) in
        IsSound n (become n p r.0 r.1 w)
  unfolding transmit_token put_all
  IsSound-passive w p pn is_active none e h =
      IsSound-idle n w p (record (w.procs p) { state = passive; token = none }) refl refl (sym e)
        (λ t k. absurd (none-some t k)) (λ k. refl) h
  IsSound-passive w p pn is_active (some token) e h = elim h.token [
    | travelling k one to_n nobody knows silent ↦ absurd (none-some token (sym (nobody p) ∙ e))
    | over no_holders nobody quiet no_payloads news ↦
        absurd (active≢passive (sym is_active ∙ quiet p pn))
    | held q t no_holders qn holds working others knows silent ↦ elim (Bool-cases (q == p)) [
      | inr other ↦ absurd (none-some token (sym (others p (ground arith)) ∙ e))
      | inl same ↦
          let at = (==_iff q p).0 same in
          let mine : t ≡ token = some_inv _ _ (sym holds ∙ ap (λ j. (w.procs j).token) at ∙ e) in
          IsSound-transmit n w p token (record (w.procs p) { state = passive }) pn no_holders
            (λ ne.
              subst (Probe n w.procs p) mine
                (subst (λ j. Probe n w.procs j t) at (knows (λ z. ne (sym at ∙ z)))))
            (λ i ne. others i (λ z. ne (sym at ∙ z))) refl refl refl silent h.counted h.placed
    ]
  ]

  -- What a process does at the request of the layer above.
  pub IsSound-submit :
      (w : World A) (p : ℕ) (req : Request A)
      → p < n
      → IsAddressed n req
      → IsSound n w
      → IsSound n (submit n p req w)
  unfolding on_send settle put_all
  IsSound-submit w p initiate pn ds h =
      IsSound-idle n w p (w.procs p) refl refl refl (λ t e k. k) (λ k. k) h
  IsSound-submit w p become_passive pn ds h = elim (state-cases (w.procs p).state) [
    | inl e ↦
        subst
          (λ st. IsSound n (
            settle n p
              (elim st [
                | active ↦
                    done (
                      transmit_token n p (w.procs p).token (record (w.procs p) { state = passive }))
                | passive ↦ threw
              ])
              w))
          (sym e) (IsSound-passive w p pn e (w.procs p).token refl h)
    | inr e ↦ rw e h
  ]
  IsSound-submit w p (signal ie) pn ds h = elim (state-cases (w.procs p).state) [
    | inl e ↦
        subst
          (λ st. IsSound n (
            settle n p
              (elim st [ active ↦ did (w.procs p) (send_signal ie ∷ []) | passive ↦ threw ]) w))
          (sym e) (IsSound-idle n w p (w.procs p) refl refl refl (λ t e k. k) (λ k. k) h)
    | inr e ↦ rw e h
  ]
  IsSound-submit w p (message m) pn ds h = elim (state-cases (w.procs p).state) [
    | inl e ↦
        subst
          (λ st. IsSound n (
            settle n p
              (elim st [
                | active ↦
                    did
                      (record (w.procs p) {
                        msg_count = (w.procs p).msg_count +ℤ pos (length m.destinations);
                      })
                      (send_payload m ∷ [])
                | passive ↦ threw
              ])
              w))
          (sym e) (IsSound-send n w p m pn ds e h)
    | inr e ↦ rw e h
  ]
