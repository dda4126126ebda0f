-- ===== src/Protocol/Safra/Hops.antt =====
-- The token alone on its way: what one arrival does, and many.
use native.Mathlib.Nat.{mod-lt}
use scala_neko.Base.{
  ℕ, zero, suc, ◌+◌, ◌-◌, ◌≤◌, ◌<◌, ◌≡◌, ◌≢◌, refl, ap, sym, subst, ◌∙◌, inl, inr, Bool, true,
  false, ◌&&◌, List, [], ◌∷◌, List-cases, ◌==◌, update, if◌then◌else◌, arith,
}
use scala_neko.Base.Int.{ℤ, pos, ◌+ℤ◌, int_laws}
use scala_neko.Protocol.Safra.{
  white, passive, Token, TokenHolder, Safra, token_holder, Output, initial_token, initiator,
  is_white, next_token, next_process, has_terminated, transmit_token, on_receive,
}
use scala_neko.Protocol.Safra.Network.{
  World, all, put_all, become, arrive, Reach, next, holder_arrives,
}
use scala_neko.Protocol.Safra.Counts.{total}
use scala_neko.Protocol.Safra.Probe.{update-all, total-same}
use scala_neko.Protocol.Safra.Invariant.{AllPassive, without_token, next_process-suc}
use scala_neko.Protocol.Safra.Arrivals.{on_token-announces, on_token-transmits, all-ne-nil}

-- Process `p` of the family as it is once it has sent the token.
abbrev pub sent_by : ℕ → (ℕ → Safra) → ℕ → Safra
sent_by p procs = update procs p (without_token (procs p))

abbrev pub AllWhite : ℕ → ℕ → (ℕ → Safra) → Type 0
AllWhite low high procs = (i : ℕ) → low < i → i < high → (procs i).color ≡ white

pub passive_still :
    (n : ℕ) (procs : ℕ → Safra) (t : ℕ) → AllPassive n procs → AllPassive n (sent_by t procs)
passive_still n procs t h i ni =
    update-all (λ i s. s.state ≡ passive) procs t (without_token (procs t)) i
      (λ same. subst (λ j. (procs j).state ≡ passive) (sym same) (h i ni)) (λ ne. h i ni)

pub next_process-lt : (n t : ℕ) → t < n → next_process n t < n
unfolding next_process
next_process-lt n t h = mod-lt (t + n - 1) (omega arith)

pub and-false : (a : Bool) → (a && false) ≡ false
and-false a = ground arith

pub all_true :
    (a b c d : Bool)
    → a ≡ true
    → b ≡ true
    → c ≡ true
    → d ≡ true
    → (a && (true && (b && (c && d)))) ≡ true
all_true a b c d h k l m = ground arith

pub plus_zero : (a : ℤ) → a +ℤ pos 0 ≡ a
plus_zero a = omega int_laws

module _ {ℓ} {A : Type ℓ} (n : ℕ) where
  -- The token that is on its way arrives.
  unfoldable pub hop : World A → World A
  hop w = elim w.holders [
    | [] ↦ w
    | h ∷ rest ↦ arrive n h.to (token_holder h) (record w { holders = rest })
  ]

  unfoldable pub hops : ℕ → World A → World A
  hops zero w = w
  hops (suc k) w = hops k (hop w)

  pub record IsAnnounced (w : World A) : Type ℓ where
    pub no_holders : w.holders ≡ []
    pub news : w.announcements ≢ []

  -- All is over but the detection, and the token `token` is on its way to `t`.
  pub record IsQuiet (w : World A) (t : ℕ) (token : Token) : Type ℓ where
    pub passives : AllPassive n w.procs
    pub sum : total n w.procs ≡ pos 0
    pub from : ℕ
    pub one : w.holders ≡ record { from = from; to = t; token = token } ∷ []
    pub below : t < n

  pub hop-none : (w : World A) → w.holders ≡ [] → hop w ≡ w
  unfolding hop
  hop-none w e =
      ap
        (λ l. elim l [
          | [] ↦ w
          | h ∷ rest ↦ arrive n h.to (token_holder h) (record w { holders = rest })
        ])
        e

  pub hop-some :
      (w : World A) (h : TokenHolder) (rest : List TokenHolder)
      → w.holders ≡ h ∷ rest
      → hop w ≡ arrive n h.to (token_holder h) (record w { holders = rest })
  unfolding hop
  hop-some w h rest e =
      ap
        (λ l. elim l [
          | [] ↦ w
          | h ∷ rest ↦ arrive n h.to (token_holder h) (record w { holders = rest })
        ])
        e

  pub hops-still : (k : ℕ) (w : World A) → w.holders ≡ [] → hops k w ≡ w
  unfolding hops
  hops-still zero w e = refl
  hops-still (suc k) w e = ap (hops k) (hop-none w e) ∙ hops-still k w e

  pub Reach-hop : (w : World A) → Reach n w → Reach n (hop w)
  Reach-hop w r = elim (List-cases w.holders) [
    | inl e ↦ subst (Reach n) (sym (hop-none w e)) r
    | inr (h, rest, e) ↦
        subst (Reach n) (sym (hop-some w h rest e)) (next w _ r (holder_arrives w [] rest h e))
  ]

  pub hops-announced : (k : ℕ) (w : World A) → IsAnnounced w → IsAnnounced (hops k w)
  hops-announced k w h = subst IsAnnounced (sym (hops-still k w h.no_holders)) h

  -- A passive process that is not to announce sends the token on.
  pub record IsSentOn (w v : World A) (t to : ℕ) (token : Token) : Type ℓ where
    pub procs : v.procs ≡ sent_by t w.procs
    pub quiet : IsQuiet v to token

  pub hop-transmits :
      (w : World A) (t : ℕ) (token : Token) (q : IsQuiet w t token)
      → has_terminated t token (w.procs t) ≡ false
      → IsSentOn w (hop w) t (next_process n t) (
          if t == initiator
          then initial_token
          else next_token (w.procs t).color (w.procs t).msg_count token)
  unfolding transmit_token put_all on_receive
  hop-transmits w t token q e =
      let h : TokenHolder = record { from = q.from; to = t; token = token } in
      let moved = on_token-transmits {A = A} n t token (w.procs t) e (q.passives t q.below) in
      let result : hop w ≡ record w {
        procs = sent_by t w.procs;
        holders =
            record {
              from = t;
              to = next_process n t;
              token =
                  if t == initiator
                  then initial_token
                  else next_token (w.procs t).color (w.procs t).msg_count token;
            }
            ∷ [];
      } =
        hop-some w h [] q.one
        ∙ ap (λ (r : Safra × List (Output A)). become n t r.0 r.1 (record w { holders = [] }))
            moved in
      subst
        (λ v. IsSentOn w v t (next_process n t) (
          if t == initiator
          then initial_token
          else next_token (w.procs t).color (w.procs t).msg_count token))
        (sym result)
        (record {
          procs = refl;
          quiet = record {
            passives = passive_still n w.procs t q.passives;
            sum = total-same n w.procs t (without_token (w.procs t)) refl ∙ q.sum;
            from = t;
            one = refl;
            below = next_process-lt n t q.below;
          };
        })

  pub hop-announces :
      (w : World A) (t : ℕ) (token : Token) (q : IsQuiet w t token)
      → has_terminated t token (w.procs t) ≡ true
      → IsAnnounced (hop w)
  unfolding on_receive put_all all
  hop-announces w t token q e =
      let h : TokenHolder = record { from = q.from; to = t; token = token } in
      subst IsAnnounced
        (sym (
          hop-some w h [] q.one
          ∙ ap (λ (r : Safra × List (Output A)). become n t r.0 r.1 (record w { holders = [] }))
              (on_token-announces {A = A} n t token (w.procs t) e)))
        (record { no_holders = refl; news = all-ne-nil n w.announcements (omega (arith, q.below)) })

  pub hops-add : (a b : ℕ) (w : World A) → hops (a + b) w ≡ hops b (hops a w)
  unfolding hops
  hops-add zero b w = ap (λ k. hops k w) (the_sum b)
    where
      the_sum : (b : ℕ) → 0 + b ≡ b
      the_sum b = omega arith
  hops-add (suc a) b w =
      let shift : suc a + b ≡ suc (a + b) = omega arith in
      ap (λ k. hops k w) shift ∙ hops-add a b (hop w)

  pub announced-after :
      (a b : ℕ) (w : World A) → IsAnnounced (hops b (hops a w)) → IsAnnounced (hops (a + b) w)
  announced-after a b w h = subst IsAnnounced (sym (hops-add a b w)) h

  -- Fewer hops were enough.
  pub announced-within :
      (k m : ℕ) (w : World A) → k ≤ m → IsAnnounced (hops k w) → IsAnnounced (hops m w)
  announced-within k m w h a =
      let sum : k + (m - k) ≡ m = omega arith in
      subst IsAnnounced (sym (hops-add k (m - k) w) ∙ ap (λ j. hops j w) sum)
        (hops-announced (m - k) (hops k w) a)

  -- At a process other than the initiator.
  pub hop-down :
      (w : World A) (u : ℕ) (token : Token) (q : IsQuiet w (suc u) token)
      → IsSentOn w
          (hop w)
          (suc u)
          u
          (next_token (w.procs (suc u)).color (w.procs (suc u)).msg_count token)
  hop-down w u token q =
      let other : (suc u == 0) ≡ false = ground arith in
      let not_here : has_terminated (suc u) token (w.procs (suc u)) ≡ false =
        rw other (and-false (is_white token.color)) in
      subst
        (λ t.
          IsSentOn w (hop w) (suc u) t
            (next_token (w.procs (suc u)).color (w.procs (suc u)).msg_count token))
        (next_process-suc n u q.below)
        (subst
          (λ b. IsSentOn w (hop w) (suc u) (next_process n (suc u)) (
            if b
            then initial_token
            else next_token (w.procs (suc u)).color (w.procs (suc u)).msg_count token))
          other (hop-transmits w (suc u) token q not_here))
