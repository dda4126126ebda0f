-- ===== src/Protocol/Safra/Soundness.antt =====
-- What holds of a system in every run, and the steps of its processes.
use scala_neko.Base.{
  ℕ, suc, ◌+◌, ◌<◌, ◌≡◌, ◌≢◌, refl, ap, sym, subst, ◌∙◌, none, some, List, [], ◌∷◌, ◌++◌, ◌==◌,
  update, length, length-append, All, All-append, All-middle, if◌then◌else◌, arith,
}
use scala_neko.Base.Int.{pos, negsuc, ◌+ℤ◌, int_laws, IsPositive}
use scala_neko.Protocol.Message.{Message}
use scala_neko.Protocol.Safra.{
  black, active, passive, Token, Safra, payload, initial_token, initiator, is_passive, next_process,
  next_token, transmit_token, on_receive,
}
use scala_neko.Protocol.Safra.Network.{World, copies, put_all, become, arrive}
use scala_neko.Protocol.Safra.Counts.{total}
use scala_neko.Protocol.Safra.Probe.{Probe, update-all, total-change, total-same}
use scala_neko.Protocol.Safra.Changes.{Probe-send, Probe-receive, Probe-idle, active≢passive}
use scala_neko.Protocol.Safra.Invariant.{
  Silent, Whereabouts, Whereabouts-change, Whereabouts-transmit, without_token,
}

length-middle {ℓ} :
    {A : Type ℓ} (xs : List A) (x : A) (ys : List A)
    → length (xs ++ x ∷ ys) ≡ suc (length (xs ++ ys))
length-middle [] x ys = refl
length-middle (y ∷ xs) x ys = ap suc (length-middle xs x ys)

pub not_nil {ℓ} : {A : Type ℓ} (xs : List A) (x : A) (ys : List A) → ¬ (xs ++ x ∷ ys ≡ [])
not_nil [] x ys e = absurd (cc e)
not_nil (y ∷ xs) x ys e = absurd (cc e)

less : (k : ℕ) → pos (suc k) +ℤ negsuc 0 ≡ pos k
less k = omega int_laws

module _ {ℓ} {A : Type ℓ} (n : ℕ) where
  pub record IsSound (w : World A) : Type ℓ where
    pub counted : total n w.procs ≡ pos (length w.payloads)
    pub placed : All (λ k. k.0 < n) w.payloads
    pub token : Whereabouts n w.procs w.holders w.payloads w.announcements w.told

  -- A process that changes neither its count nor its color nor its token, and sends nothing.
  pub IsSound-idle :
      (w : World A) (p : ℕ) (s : Safra)
      → s.msg_count ≡ (w.procs p).msg_count
      → s.color ≡ (w.procs p).color
      → s.token ≡ (w.procs p).token
      → ((token : Token) → s.token ≡ some token → (w.procs p).state ≡ active → s.state ≡ active)
      → ((w.procs p).state ≡ passive → s.state ≡ passive)
      → IsSound w
      → IsSound (record w { procs = update w.procs p s })
  IsSound-idle w p s counts colors tokens alive states h = record {
    counted = total-same n w.procs p s counts ∙ h.counted;
    placed = h.placed;
    token =
        Whereabouts-change n w.procs p s w.holders w.payloads w.payloads w.announcements w.told
          tokens alive
          (λ t token below. Probe-idle n w.procs t token below p s counts colors states)
          (λ quiet no_payloads. (
            λ i ni.
                update-all (λ i s. s.state ≡ passive) w.procs p s i
                  (λ same.
                    states (subst (λ j. (w.procs j).state ≡ passive) (sym same) (quiet i ni)))
                  (λ ne. quiet i ni),
            no_payloads,
          ))
          h.token;
  }

  length-copies : (m : Message A) (ds : List ℕ) → length (copies m ds) ≡ length ds
  unfolding copies
  length-copies m [] = refl
  length-copies m (d ∷ ds) = ap suc (length-copies m ds)

  All-copies :
      (m : Message A) (ds : List ℕ) → All (λ d. d < n) ds → All (λ k. k.0 < n) (copies m ds)
  unfolding copies
  All-copies m [] h = tt
  All-copies m (d ∷ ds) h = (h.0, All-copies m ds h.1)

  -- An active process sends a message.
  pub IsSound-send :
      (w : World A) (p : ℕ) (m : Message A)
      → p < n
      → All (λ d. d < n) m.destinations
      → (w.procs p).state ≡ active
      → IsSound w
      → IsSound (record w {
        procs = update w.procs p (record (w.procs p) {
          msg_count = (w.procs p).msg_count +ℤ pos (length m.destinations);
        });
        payloads = copies m m.destinations ++ w.payloads;
      })
  IsSound-send w p m pn ds is_active h =
      let k = length m.destinations in
      let s = record (w.procs p) { msg_count = (w.procs p).msg_count +ℤ pos k } in
      let sum : (a b : ℕ) → pos a +ℤ pos b ≡ pos (b + a) = λ a b. omega int_laws in
      record {
        counted =
            total-change n w.procs p s (pos k) pn refl
            ∙ ap (λ z. z +ℤ pos k) h.counted
            ∙ sum (length w.payloads) k
            ∙ ap pos (
                sym (
                  length-append (copies m m.destinations) w.payloads
                  ∙ ap (λ z. z + length w.payloads) (length-copies m m.destinations)));
        placed = All-append _ (copies m m.destinations) _ (All-copies m m.destinations ds) h.placed;
        token =
            Whereabouts-change n w.procs p s w.holders w.payloads _ w.announcements w.told refl
              (λ t e k. k)
              (λ t token below. Probe-send n w.procs t token below p k s pn is_active refl refl)
              (λ quiet no_payloads. absurd (active≢passive (sym is_active ∙ quiet p pn))) h.token;
      }

  -- The message of a payload that is on its way arrives.
  pub IsSound-payload :
      (w : World A) (xs ys : List (ℕ × Message A)) (p : ℕ) (m : Message A)
      → w.payloads ≡ xs ++ (p, m) ∷ ys
      → IsSound w
      → IsSound (arrive n p (payload m) (record w { payloads = xs ++ ys }))
  unfolding on_receive put_all
  IsSound-payload w xs ys p m e h =
      let s = record (w.procs p) {
        color = black;
        state = active;
        msg_count = (w.procs p).msg_count +ℤ negsuc 0;
      } in
      let (pn, rest) =
        All-middle (λ k. k.0 < n) xs (p, m) ys (subst (All (λ k. k.0 < n)) e h.placed) in
      let size : length w.payloads ≡ suc (length (xs ++ ys)) =
        ap length e ∙ length-middle xs (p, m) ys in
      let sum = h.counted ∙ ap pos size in
      record {
        counted =
            total-change n w.procs p s (negsuc 0) pn refl
            ∙ ap (λ z. z +ℤ negsuc 0) sum
            ∙ less (length (xs ++ ys));
        placed = rest;
        token =
            Whereabouts-change n w.procs p s w.holders w.payloads (xs ++ ys) w.announcements w.told
              refl (λ t e k. refl)
              (λ t token below.
                Probe-receive n w.procs t token below p s pn
                  (subst IsPositive (sym sum) (omega arith)) refl)
              (λ quiet no_payloads. absurd (not_nil xs (p, m) ys (sym e ∙ no_payloads))) h.token;
      }

  -- The transmission of a token that is in no other place.
  pub IsSound-transmit :
      (w : World A) (p : ℕ) (token : Token) (s : Safra)
      → p < n
      → w.holders ≡ []
      → (p ≢ 0 → Probe n w.procs p token)
      → ((i : ℕ) → p ≢ i → (w.procs i).token ≡ none)
      → s.msg_count ≡ (w.procs p).msg_count
      → s.color ≡ (w.procs p).color
      → s.state ≡ passive
      → Silent w.announcements w.told
      → total n w.procs ≡ pos (length w.payloads)
      → All (λ k. k.0 < n) w.payloads
      → let r = transmit_token n p (some token) s in IsSound (become n p r.0 r.1 w)
  unfolding transmit_token put_all
  IsSound-transmit w p token s pn no_holders knows others counts colors is_passive silent counted
        placed =
      record {
        counted = total-same n w.procs p (without_token s) counts ∙ counted;
        placed = placed;
        token =
            subst
              (λ l.
                Whereabouts n (update w.procs p (without_token s))
                  (record {
                    from = p;
                    to = next_process n p;
                    token =
                        if p == initiator
                        then initial_token
                        else next_token s.color s.msg_count token;
                  }
                    ∷ l)
                  w.payloads w.announcements w.told)
              (sym no_holders)
              (Whereabouts-transmit n w.procs p token s w.payloads w.announcements w.told pn knows
                others counts colors is_passive silent);
      }
