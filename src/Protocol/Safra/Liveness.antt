-- ===== src/Protocol/Safra/Liveness.antt =====
-- Once the computation has terminated the token finds out, in three rounds at most.
use scala_neko.Base.{
  ℕ, zero, suc, ◌+◌, ◌-◌, ◌*◌, ◌≤◌, ◌<◌, ◌≡◌, ◌≢◌, refl, ap, sym, subst, ◌∙◌, ◌⊎◌, inl, inr, [],
  ◌∷◌, length, Bool-cases, arith,
}
use scala_neko.Base.Int.{ℤ, pos, ◌+ℤ◌, is_zero, int_laws}
use scala_neko.Protocol.Safra.{
  white, Token, TokenHolder, Safra, initial_token, is_white, is_passive, next_token, has_terminated,
}
use scala_neko.Protocol.Safra.Network.{World, Reach}
use scala_neko.Protocol.Safra.Counts.{total}
use scala_neko.Protocol.Safra.Probe.{update-all, total-pass}
use scala_neko.Protocol.Safra.Invariant.{
  AllPassive, travelling, held, over, without_token, next_process-zero,
}
use scala_neko.Protocol.Safra.Detection.{Reach-IsSound}
use scala_neko.Protocol.Safra.Changes.{active≢passive}
use scala_neko.Protocol.Safra.Hops.{
  AllWhite, all_true, plus_zero, hop, hops, IsAnnounced, IsQuiet, hops-still, Reach-hop, IsSentOn,
  hop-transmits, hop-announces, announced-after, announced-within, hop-down,
}

module _ {ℓ} {A : Type ℓ} (n : ℕ) where
  -- The token goes down to the initiator, and leaves white processes behind.
  record IsBack (high : ℕ) (v : World A) : Type ℓ where
    token : Token
    quiet : IsQuiet n v 0 token
    whites : AllWhite 0 high v.procs

  descend :
      (t high : ℕ) (w : World A) (token : Token)
      → IsQuiet n w t token
      → AllWhite t high w.procs
      → IsBack high (hops n t w)
  unfolding hops
  descend zero high w token q whites = record { token = token; quiet = q; whites = whites }
  descend (suc u) high w token q whites =
      let down = hop-down n w u token q in
      descend u high (hop n w) _ down.quiet (
        subst (AllWhite u high) (sym down.procs) (λ i ui ih.
          update-all (λ i s. s.color ≡ white) w.procs (suc u) (without_token (w.procs (suc u))) i
            (λ same. refl) (λ ne. whites i (omega arith) ih)))

  -- At the initiator.
  hop-first :
      (w : World A) (token : Token) (q : IsQuiet n w 0 token)
      → IsAnnounced n (hop n w) ⊎ IsSentOn n w (hop n w) 0 (n - 1) initial_token
  hop-first w token q = elim (Bool-cases (has_terminated 0 token (w.procs 0))) [
    | inl e ↦ inl (hop-announces n w 0 token q e)
    | inr e ↦ inr (
        subst (λ t. IsSentOn n w (hop n w) 0 t initial_token) (next_process-zero n q.below)
          (hop-transmits n w 0 token q e))
  ]

  -- The last round: the token will see that all is over.
  record IsClean (w : World A) (t : ℕ) (token : Token) : Type ℓ where
    quiet : IsQuiet n w t token
    is_white_token : token.color ≡ white
    sum : total (suc t) w.procs +ℤ token.count ≡ pos 0
    whites : (i : ℕ) → i ≤ t → (w.procs i).color ≡ white

  last_round :
      (t : ℕ) (w : World A) (token : Token) → IsClean w t token → IsAnnounced n (hops n (suc t) w)
  unfolding hops total
  last_round zero w token c =
      let zero_plus : (a : ℤ) → pos 0 +ℤ a ≡ a = λ a. omega int_laws in
      let zero_sum : (w.procs 0).msg_count +ℤ token.count ≡ pos 0 =
        ap (λ z. z +ℤ token.count) (sym (zero_plus (w.procs 0).msg_count)) ∙ c.sum in
      hop-announces n w 0 token c.quiet (
        all_true _ _ _ _ (ap is_white c.is_white_token) (ap is_zero zero_sum)
          (ap is_white (c.whites 0 (omega arith)))
          (ap is_passive (c.quiet.passives 0 c.quiet.below)))
  last_round (suc u) w token c =
      let down = hop-down n w u token c.quiet in
      let sent = next_token (w.procs (suc u)).color (w.procs (suc u)).msg_count token in
      last_round u (hop n w) sent (record {
        quiet = down.quiet;
        is_white_token =
            ap (λ k. (next_token k (w.procs (suc u)).msg_count token).color)
              (c.whites (suc u) (omega arith))
            ∙ c.is_white_token;
        sum =
            ap (λ procs. total (suc u) procs +ℤ sent.count) down.procs
            ∙ total-pass w.procs u token (without_token (w.procs (suc u)))
            ∙ c.sum;
        whites = λ i iu.
            subst (λ (procs : ℕ → Safra). (procs i).color ≡ white) (sym down.procs)
              (update-all (λ i s. s.color ≡ white) w.procs (suc u) (without_token (w.procs (suc u)))
                i (λ same. refl) (λ ne. c.whites i (omega arith)));
      })

  -- All is white but what the initiator does next.
  next_to_last :
      (w : World A) (token : Token)
      → IsQuiet n w 0 token
      → AllWhite 0 n w.procs
      → IsAnnounced n (hops n (1 + n) w)
  unfolding hops
  next_to_last w token q whites = elim (hop-first w token q) [
    | inl a ↦ announced-within n 1 (1 + n) w (omega arith) a
    | inr sent ↦
        let last : suc (n - 1) ≡ n = omega (arith, q.below) in
        let clean : IsClean (hop n w) (n - 1) initial_token = record {
          quiet = sent.quiet;
          is_white_token = refl;
          sum =
              plus_zero (total (suc (n - 1)) (hop n w).procs)
              ∙ ap (λ k. total k (hop n w).procs) last
              ∙ sent.quiet.sum;
          whites = λ i h.
              subst (λ (procs : ℕ → Safra). (procs i).color ≡ white) (sym sent.procs)
                (update-all (λ i s. s.color ≡ white) w.procs 0 (without_token (w.procs 0)) i
                  (λ same. refl) (λ ne. whites i (omega arith) (omega (arith, last))));
        } in
        announced-within n (1 + suc (n - 1)) (1 + n) w (omega arith)
          (announced-after n 1 (suc (n - 1)) w (last_round (n - 1) (hop n w) initial_token clean))
  ]

  -- When every process is passive and no message is on its way, the token arrives three times as
  -- often as there are processes at most until the termination is announced.
  pub hops-IsAnnounced :
      (w : World A) (h : TokenHolder)
      → AllPassive n w.procs
      → total n w.procs ≡ pos 0
      → w.holders ≡ h ∷ []
      → h.to < n
      → IsAnnounced n (hops n (3 * n) w)
  unfolding hops
  hops-IsAnnounced w h passives sum one below =
      let back =
        descend h.to 0 w h.token
          (record { passives = passives; sum = sum; from = h.from; one = one; below = below })
          (λ i a b. absurd (omega arith)) in
      elim (hop-first (hops n h.to w) back.token back.quiet) [
        | inl a ↦
            announced-within n (h.to + 1) (3 * n) w (omega arith) (announced-after n h.to 1 w a)
        | inr sent ↦
            let second = hop n (hops n h.to w) in
            let again =
              descend (n - 1) n second initial_token sent.quiet (λ i a b. absurd (omega arith)) in
            announced-within n (h.to + (1 + ((n - 1) + (1 + n)))) (3 * n) w (omega arith) (
              announced-after n h.to (1 + ((n - 1) + (1 + n))) w (
                announced-after n 1 ((n - 1) + (1 + n)) (hops n h.to w) (
                  announced-after n (n - 1) (1 + n) second
                    (next_to_last (hops n (n - 1) second) again.token again.quiet again.whites))))
      ]

  Reach-hops : (k : ℕ) (w : World A) → Reach n w → Reach n (hops n k w)
  unfolding hops
  Reach-hops zero w r = r
  Reach-hops (suc k) w r = Reach-hops k (hop n w) (Reach-hop n w r)

  -- In every run of one process or more: once every process is passive and no message is on its way,
  -- the token has to arrive at most three times as often as there are processes, and then the
  -- termination is or has been announced.
  pub Reach-finds :
      (w : World A)
      → 0 < n
      → Reach n w
      → AllPassive n w.procs
      → w.payloads ≡ []
      → Reach n (hops n (3 * n) w)
        × (((hops n (3 * n) w).announcements ≢ []) ⊎ ((hops n (3 * n) w).told ≢ []))
  Reach-finds w some_process r passives no_payloads =
      let h = Reach-IsSound n some_process w r in
      (
        Reach-hops (3 * n) w r,
        elim h.token [
          | travelling t one to_n nobody knows silent ↦
              let no_sum = h.counted ∙ ap (λ l. pos (length l)) no_payloads in
              inl (hops-IsAnnounced w t passives no_sum one to_n).news
          | held q t no_holders qn holds is_active others knows silent ↦
              absurd (active≢passive (sym is_active ∙ passives q qn))
          | over no_holders nobody quiet none_left news ↦
              subst (λ (v : World A). (v.announcements ≢ []) ⊎ (v.told ≢ []))
                (sym (hops-still n (3 * n) w no_holders)) news
        ],
      )
