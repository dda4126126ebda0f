-- ===== src/Protocol/Safra/Arrivals.antt =====
-- The steps of a system when a token or an announcement arrives.
use scala_neko.Base.{
  ℕ, zero, suc, ◌<◌, ◌≡◌, ◌≢◌, refl, ap, sym, subst, ◌∙◌, ◌⊎◌, inl, inr, true, false, none, some,
  List, [], ◌∷◌, ◌++◌, ◌==◌, ==_iff, update, length, All, if◌then◌else◌, Bool-cases, &&-eq-true,
  arith,
}
use scala_neko.Base.Int.{pos, ◌+ℤ◌, is_zero, is_zero-eq, pos_part}
use scala_neko.Protocol.Message.{Message}
use scala_neko.Protocol.Safra.{
  StateColor, black, white, State, active, passive, Token, TokenHolder, Safra, announce,
  token_holder, Output, send_announce, initiator, is_white, is_passive, has_terminated,
  transmit_token, on_token, on_receive,
}
use scala_neko.Protocol.Safra.Network.{World, all, put_all, become, arrive}
use scala_neko.Protocol.Safra.Counts.{total}
use scala_neko.Protocol.Safra.Probe.{Probe, update_self, update-all, total-same, Probe-detects}
use scala_neko.Protocol.Safra.Changes.{Probe-idle}
use scala_neko.Protocol.Safra.Invariant.{
  NoneHeld, AllPassive, Silent, Whereabouts, travelling, held, over,
}
use scala_neko.Protocol.Safra.Soundness.{IsSound, IsSound-transmit, not_nil}
use scala_neko.Protocol.Safra.Requests.{state-cases}

is_white-eq : (c : StateColor) → is_white c ≡ true → c ≡ white
is_white-eq white h = refl
is_white-eq black h = absurd (cc h)

is_passive-eq : (s : State) → is_passive s ≡ true → s ≡ passive
is_passive-eq passive h = refl
is_passive-eq active h = absurd (cc h)

length-zero {ℓ} : {A : Type ℓ} (xs : List A) → length xs ≡ 0 → xs ≡ []
length-zero [] h = refl
length-zero (x ∷ xs) h = absurd (omega arith)

singleton {ℓ} :
    {A : Type ℓ} (xs : List A) (x y : A) (ys : List A)
    → xs ++ x ∷ ys ≡ y ∷ []
    → (xs ++ ys ≡ []) × (x ≡ y)
singleton [] x y ys e =
    (ap (λ l. elim l [ [] ↦ [] | _ ∷ r ↦ r ]) e, ap (λ l. elim l [ [] ↦ x | z ∷ _ ↦ z ]) e)
singleton (z ∷ xs) x y ys e = absurd (not_nil xs x ys (ap (λ l. elim l [ [] ↦ [] | _ ∷ r ↦ r ]) e))

pub all-ne-nil : (n : ℕ) (rest : List ℕ) → 0 < n → (all n ++ rest) ≢ []
unfolding all
all-ne-nil zero rest h e = absurd (omega arith)
all-ne-nil (suc n) rest h e = cc e

module _ {ℓ} {A : Type ℓ} (n : ℕ) where
  pub on_token-announces :
      (me : ℕ) (token : Token) (s : Safra)
      → has_terminated me token s ≡ true
      → on_token {A = A} n me token s ≡ (s, send_announce ∷ [])
  unfolding on_token
  on_token-announces me token s e = rw e refl

  on_token-holds :
      (me : ℕ) (token : Token) (s : Safra)
      → has_terminated me token s ≡ false
      → s.state ≡ active
      → on_token {A = A} n me token s ≡ (record s { token = some token }, [])
  unfolding on_token
  on_token-holds me token s e k =
      ap (λ b. if b then (s, send_announce ∷ []) else on_state s.state) e ∙ ap on_state k
    where
      on_state : State → Safra × List (Output A)
      on_state st = elim st [
        | active ↦ (record s { token = some token }, [])
        | passive ↦ transmit_token n me (some token) s
      ]

  pub on_token-transmits :
      (me : ℕ) (token : Token) (s : Safra)
      → has_terminated me token s ≡ false
      → s.state ≡ passive
      → on_token {A = A} n me token s ≡ transmit_token n me (some token) s
  unfolding on_token
  on_token-transmits me token s e k =
      ap (λ b. if b then (s, send_announce ∷ []) else on_state s.state) e ∙ ap on_state k
    where
      on_state : State → Safra × List (Output A)
      on_state st = elim st [
        | active ↦ (record s { token = some token }, [])
        | passive ↦ transmit_token n me (some token) s
      ]

  -- The process is as it was, and all is over.
  over_still :
      (procs : ℕ → Safra) (p : ℕ) (holders : List TokenHolder) (payloads : List (ℕ × Message A))
      (announcements told : List ℕ)
      → holders ≡ []
      → NoneHeld procs
      → AllPassive n procs
      → payloads ≡ []
      → (announcements ≢ []) ⊎ (told ≢ [])
      → Whereabouts n (update procs p (procs p)) holders payloads announcements told
  over_still procs p holders payloads announcements told no_holders nobody quiet no_payloads news =
      over no_holders
        (λ i.
          update-all (λ i s. s.token ≡ none) procs p (procs p) i (λ e. nobody p) (λ ne. nobody i))
        (λ i ni.
          update-all (λ i s. s.state ≡ passive) procs p (procs p) i
            (λ e. subst (λ j. (procs j).state ≡ passive) (sym e) (quiet i ni)) (λ ne. quiet i ni))
        no_payloads news

  module _ (w : World A) (h : TokenHolder) (no_holders : w.holders ≡ []) (to_n : h.to < n)
      (nobody : NoneHeld w.procs) (knows : Probe n w.procs h.to h.token)
      (silent : Silent w.announcements w.told) (counted : total n w.procs ≡ pos (length w.payloads))
      (placed : All (λ k. k.0 < n) w.payloads) where
    abbrev receiver : Safra
    receiver = w.procs h.to

    -- The initiator announces.
    IsSound-announces :
        has_terminated h.to h.token receiver ≡ true
        → IsSound n (become n h.to receiver (send_announce ∷ []) w)
    unfolding put_all
    IsSound-announces e =
        let (token_white, e1) = &&-eq-true (is_white h.token.color) _ e in
        let (first, e2) = &&-eq-true (h.to == initiator) _ e1 in
        let (zero_sum, e3) = &&-eq-true (is_zero (receiver.msg_count +ℤ h.token.count)) _ e2 in
        let (own_white, own_passive) = &&-eq-true (is_white receiver.color) _ e3 in
        let at = (==_iff h.to initiator).0 first in
        let (quiet, none_left) =
          Probe-detects n w.procs h.token (omega arith) (is_white-eq _ token_white)
            (subst (λ j. (w.procs j).color ≡ white) at (is_white-eq _ own_white))
            (subst (λ j. (w.procs j).state ≡ passive) at (is_passive-eq _ own_passive))
            (subst (λ j. (w.procs j).msg_count +ℤ h.token.count ≡ pos 0) at (is_zero-eq _ zero_sum))
            (subst (λ j. Probe n w.procs j h.token) at knows) in
        record {
          counted = total-same n w.procs h.to receiver refl ∙ counted;
          placed = placed;
          token =
              over_still w.procs h.to w.holders w.payloads _ w.told no_holders nobody quiet
                (length-zero w.payloads (ap pos_part (sym counted ∙ none_left)))
                (inl (all-ne-nil n w.announcements (omega arith)));
        }

    -- An active process keeps the token.
    IsSound-holds :
        receiver.state ≡ active
        → IsSound n (become n h.to (record receiver { token = some h.token }) [] w)
    unfolding put_all
    IsSound-holds is_active =
        let s = record receiver { token = some h.token } in
        record {
          counted = total-same n w.procs h.to s refl ∙ counted;
          placed = placed;
          token =
              held h.to h.token no_holders to_n
                (ap (λ (x : Safra). x.token) (update_self w.procs h.to s))
                (ap (λ (x : Safra). x.state) (update_self w.procs h.to s) ∙ is_active)
                (λ i ne.
                  update-all (λ i s. s.token ≡ none) w.procs h.to s i (λ e. absurd (ne e))
                    (λ k. nobody i))
                (λ ne. Probe-idle n w.procs h.to h.token to_n h.to s refl refl (λ k. k) knows)
                silent;
        }

    -- The token arrives, and is then nowhere else.
    IsSound-token : IsSound n (arrive n h.to (token_holder h) w)
    unfolding on_receive
    IsSound-token = elim (Bool-cases (has_terminated h.to h.token receiver)) [
      | inl e ↦ moved (sym (on_token-announces h.to h.token receiver e)) (IsSound-announces e)
      | inr e ↦ elim (state-cases receiver.state) [
        | inl k ↦ moved (sym (on_token-holds h.to h.token receiver e k)) (IsSound-holds k)
        | inr k ↦ moved (sym (on_token-transmits h.to h.token receiver e k)) (
            IsSound-transmit n w h.to h.token receiver to_n no_holders (λ ne. knows)
              (λ i ne. nobody i) refl refl k silent counted placed)
      ]
    ]
      where
        moved :
            {r q : Safra × List (Output A)}
            → r ≡ q
            → IsSound n (become n h.to r.0 r.1 w)
            → IsSound n (become n h.to q.0 q.1 w)
        moved e k = subst (λ (r : Safra × List (Output A)). IsSound n (become n h.to r.0 r.1 w)) e k

  pub IsSound-holder :
      (w : World A) (xs ys : List TokenHolder) (k : TokenHolder)
      → w.holders ≡ xs ++ k ∷ ys
      → IsSound n w
      → IsSound n (arrive n k.to (token_holder k) (record w { holders = xs ++ ys }))
  IsSound-holder w xs ys k e h = elim h.token [
    | held q t no_holders qn holds is_active others knows silent ↦
        absurd (not_nil xs k ys (sym e ∙ no_holders))
    | over no_holders nobody quiet no_payloads news ↦ absurd (not_nil xs k ys (sym e ∙ no_holders))
    | travelling t one to_n nobody knows silent ↦
        let (rest, same) = singleton xs k t ys (sym e ∙ one) in
        IsSound-token (record w { holders = xs ++ ys }) k rest
          (subst (λ (t : TokenHolder). t.to < n) (sym same) to_n) nobody
          (subst (λ (t : TokenHolder). Probe n w.procs t.to t.token) (sym same) knows) silent
          h.counted h.placed
  ]

  pub IsSound-announced :
      (w : World A) (xs ys : List ℕ) (p : ℕ)
      → w.announcements ≡ xs ++ p ∷ ys
      → IsSound n w
      → IsSound n (arrive n p announce (record w { announcements = xs ++ ys }))
  unfolding on_receive put_all
  IsSound-announced w xs ys p e h = elim h.token [
    | held q t no_holders qn holds is_active others knows silent ↦
        absurd (not_nil xs p ys (sym e ∙ silent.0))
    | travelling t one to_n nobody knows silent ↦ absurd (not_nil xs p ys (sym e ∙ silent.0))
    | over no_holders nobody quiet no_payloads news ↦ record {
      counted = total-same n w.procs p (w.procs p) refl ∙ h.counted;
      placed = h.placed;
      token =
          over_still w.procs p w.holders w.payloads (xs ++ ys) (p ∷ w.told) no_holders nobody quiet
            no_payloads (inr (λ k. cc k));
    }
  ]
