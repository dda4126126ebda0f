-- ===== src/Protocol/Safra/Changes.antt =====
-- What sending, receiving and becoming passive do to the invariant of a token.
use native.Mathlib.Decide.{dec_lt}
use scala_neko.Base.{ℕ, suc, ◌<◌, ◌≡◌, ap, sym, subst, ◌∙◌, update, arith}
use scala_neko.Base.Int.{ℤ, pos, ◌+ℤ◌, int_laws, IsPositive}
use scala_neko.Protocol.Safra.{black, active, passive, Token, Safra}
use scala_neko.Protocol.Safra.Counts.{total, total-update_above}
use scala_neko.Protocol.Safra.Probe.{
  Probe, quiet, ahead, dark, tainted, update_self, update-all, total-change, total-same,
}

pub active≢passive : ¬ (active ≡ passive)
active≢passive e = absurd (cc e)

-- Both sums grow by what is sent.
quiet_sum : (a b q d a' b' : ℤ) → a +ℤ q ≡ b → a' ≡ a +ℤ d → b' ≡ b +ℤ d → a' +ℤ q ≡ b'
quiet_sum a b q d a' b' h e f = ap (λ z. z +ℤ q) e ∙ shift a q d ∙ ap (λ z. z +ℤ d) h ∙ sym f
  where
    shift : (a q d : ℤ) → (a +ℤ d) +ℤ q ≡ (a +ℤ q) +ℤ d
    shift a q d = omega int_laws

more-IsPositive : (a q : ℤ) (k : ℕ) → IsPositive (a +ℤ q) → IsPositive ((a +ℤ pos k) +ℤ q)
more-IsPositive a q k h = omega int_laws

module _ (n : ℕ) (procs : ℕ → Safra) (t : ℕ) (token : Token) (below : t < n) where
  -- A process takes in messages for `k` destinations.
  pub Probe-send :
      (p k : ℕ) (s : Safra)
      → p < n
      → (procs p).state ≡ active
      → s.msg_count ≡ (procs p).msg_count +ℤ pos k
      → s.color ≡ (procs p).color
      → Probe n procs t token
      → Probe n (update procs p s) t token
  Probe-send p k s pn is_active counts colors (quiet q e) = elim (dec_lt t p) [
    | yes above ↦ absurd (active≢passive (sym is_active ∙ q p above pn))
    | no low ↦
        quiet
          (λ i ti ni.
            update-all (λ i s. s.state ≡ passive) procs p s i (λ e. absurd (omega arith))
              (λ ne. q i ti ni))
          (quiet_sum _ _ token.count (pos k) _ _ e
            (total-change (suc t) procs p s (pos k) (omega arith) counts)
            (total-change n procs p s (pos k) pn counts))
  ]
  Probe-send p k s pn is_active counts colors (ahead h) = elim (dec_lt t p) [
    | yes above ↦ ahead (
        subst (λ z. IsPositive (z +ℤ token.count))
          (sym (total-update_above (suc t) procs p s (omega arith))) h)
    | no low ↦ ahead (
        subst (λ z. IsPositive (z +ℤ token.count))
          (sym (total-change (suc t) procs p s (pos k) (omega arith) counts))
          (more-IsPositive _ token.count k h))
  ]
  Probe-send p k s pn is_active counts colors (dark i it b) = dark i it (
      update-all (λ i s. s.color ≡ black) procs p s i
        (λ e. colors ∙ ap (λ j. (procs j).color) e ∙ b) (λ ne. b))
  Probe-send p k s pn is_active counts colors (tainted b) = tainted b

  -- A message that is on its way arrives, which the sums know.
  Probe-receive_above :
      (p : ℕ) (s : Safra)
      → p < n
      → t < p
      → IsPositive (total n procs)
      → Probe n procs t token
      → Probe n (update procs p s) t token
  Probe-receive_above p s pn above on_way h =
      let same = total-update_above (suc t) procs p s (omega arith) in
      elim h [
        | quiet q e ↦ ahead (
            subst (λ z. IsPositive (z +ℤ token.count)) (sym same) (subst IsPositive (sym e) on_way))
        | ahead k ↦ ahead (subst (λ z. IsPositive (z +ℤ token.count)) (sym same) k)
        | dark i it b ↦
            dark i it (
              update-all (λ i s. s.color ≡ black) procs p s i (λ e. absurd (omega arith)) (λ ne. b))
        | tainted b ↦ tainted b
      ]

  pub Probe-receive :
      (p : ℕ) (s : Safra)
      → p < n
      → IsPositive (total n procs)
      → s.color ≡ black
      → Probe n procs t token
      → Probe n (update procs p s) t token
  Probe-receive p s pn on_way is_black h = elim (dec_lt t p) [
    | no low ↦ dark p (omega arith) (ap (λ (x : Safra). x.color) (update_self procs p s) ∙ is_black)
    | yes above ↦ Probe-receive_above p s pn above on_way h
  ]

  -- A process changes its state to passive, or only its token.
  pub Probe-idle :
      (p : ℕ) (s : Safra)
      → s.msg_count ≡ (procs p).msg_count
      → s.color ≡ (procs p).color
      → ((procs p).state ≡ passive → s.state ≡ passive)
      → Probe n procs t token
      → Probe n (update procs p s) t token
  Probe-idle p s counts colors states h =
      let low = total-same (suc t) procs p s counts in
      elim h [
        | quiet q e ↦
            quiet
              (λ i ti ni.
                update-all (λ i s. s.state ≡ passive) procs p s i
                  (λ same. states (subst (λ j. (procs j).state ≡ passive) (sym same) (q i ti ni)))
                  (λ ne. q i ti ni))
              (ap (λ z. z +ℤ token.count) low ∙ e ∙ sym (total-same n procs p s counts))
        | ahead k ↦ ahead (subst (λ z. IsPositive (z +ℤ token.count)) (sym low) k)
        | dark i it b ↦ dark i it (
            update-all (λ i s. s.color ≡ black) procs p s i
              (λ e. colors ∙ ap (λ j. (procs j).color) e ∙ b) (λ ne. b))
        | tainted b ↦ tainted b
      ]
