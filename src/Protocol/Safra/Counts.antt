-- ===== src/Protocol/Safra/Counts.antt =====
-- The sum of the counts of the first processes.
use scala_neko.Base.{
  ℕ, zero, suc, ◌≤◌, ◌<◌, ◌≡◌, refl, ap, ◌∙◌, inl, inr, ◌==◌, ==_iff, update, Bool-cases, arith,
}
use scala_neko.Base.Int.{ℤ, pos, ◌+ℤ◌, int_laws}
use scala_neko.Protocol.Safra.{Safra}

unfoldable pub total : ℕ → (ℕ → Safra) → ℤ
total zero procs = pos 0
total (suc k) procs = total k procs +ℤ (procs k).msg_count

pub total-update_above :
    (k : ℕ) (procs : ℕ → Safra) (p : ℕ) (s : Safra)
    → k ≤ p
    → total k (update procs p s) ≡ total k procs
unfolding total
total-update_above zero procs p s h = refl
total-update_above (suc k) procs p s h =
    let rest = total-update_above k procs p s (omega arith) in ground (arith, rest)

swap : (a b c : ℤ) → (a +ℤ b) +ℤ c ≡ (a +ℤ c) +ℤ b
swap a b c = omega int_laws

trade : (a b x y c : ℤ) → a +ℤ x ≡ b +ℤ y → (a +ℤ c) +ℤ x ≡ (b +ℤ c) +ℤ y
trade a b x y c h = swap a c x ∙ ap (λ z. z +ℤ c) h ∙ swap b y c

-- A sum that has the process in it.
pub total-update :
    (k : ℕ) (procs : ℕ → Safra) (p : ℕ) (s : Safra)
    → p < k
    → total k (update procs p s) +ℤ (procs p).msg_count ≡ total k procs +ℤ s.msg_count
unfolding total
total-update zero procs p s h = absurd (omega arith)
total-update (suc k) procs p s h = elim (Bool-cases (p == k)) [
  | inl e ↦
      let same = (==_iff p k).0 e in
      let before = total-update_above k procs p s (omega arith) in
      rw (e, before, same) (swap (total k procs) s.msg_count (procs k).msg_count)
  | inr e ↦
      let below = total-update k procs p s (ground arith) in
      rw e (trade _ _ _ _ (procs k).msg_count below)
]
