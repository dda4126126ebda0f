-- ===== src/Protocol/Safra/Probe.antt =====
-- What a token knows of the processes: the invariant of the algorithm, for a token at process `t`.
use native.Mathlib.Decide.{dec_lt}
use scala_neko.Base.{
  ℕ, suc, ◌≤◌, ◌<◌, ◌≡◌, ◌≢◌, refl, ap, sym, subst, ◌∙◌, inl, inr, true, false, ◌==◌, ==_iff,
  update, Bool-cases, arith,
}
use scala_neko.Base.Int.{ℤ, pos, ◌+ℤ◌, int_laws, IsPositive, +ℤ-assoc, +ℤ-cancel, +ℤ-cancel_same}
use scala_neko.Protocol.Safra.{
  StateColor, black, white, passive, Token, Safra, initial_token, next_token,
}
use scala_neko.Protocol.Safra.Counts.{total, total-update_above, total-update}

-- The processes above `t` are those that the token has visited.
pub data Probe (n : ℕ) (procs : ℕ → Safra) (t : ℕ) (token : Token) : Type 0 where
  quiet :
      ((i : ℕ) → t < i → i < n → (procs i).state ≡ passive)
      → total (suc t) procs +ℤ token.count ≡ total n procs
      → Probe n procs t token
  ahead : IsPositive (total (suc t) procs +ℤ token.count) → Probe n procs t token
  dark : (i : ℕ) → i ≤ t → (procs i).color ≡ black → Probe n procs t token
  tainted : token.color ≡ black → Probe n procs t token

pub update_self : (procs : ℕ → Safra) (p : ℕ) (s : Safra) → update procs p s p ≡ s
update_self procs p s = let same : (p == p) ≡ true = ground arith in rw same refl

pub update_other : (procs : ℕ → Safra) (p i : ℕ) (s : Safra) → p ≢ i → update procs p s i ≡ procs i
update_other procs p i s h = let other : (p == i) ≡ false = ground arith in rw other refl

-- A property of all processes, after one has changed.
pub update-all :
    (P : ℕ → Safra → Type 0) (procs : ℕ → Safra) (p : ℕ) (s : Safra) (i : ℕ)
    → (p ≡ i → P i s)
    → (p ≢ i → P i (procs i))
    → P i (update procs p s i)
update-all P procs p s i f g = elim (Bool-cases (p == i)) [
  | inl e ↦ rw e (f ((==_iff p i).0 e))
  | inr e ↦ rw e (g (ground arith))
]

-- Sums after one process has changed its count by `d`.
pub total-change :
    (k : ℕ) (procs : ℕ → Safra) (p : ℕ) (s : Safra) (d : ℤ)
    → p < k
    → s.msg_count ≡ (procs p).msg_count +ℤ d
    → total k (update procs p s) ≡ total k procs +ℤ d
total-change k procs p s d h e =
    +ℤ-cancel _ _ (procs p).msg_count d
      (total-update k procs p s h ∙ ap (λ c. total k procs +ℤ c) e)

pub total-same :
    (k : ℕ) (procs : ℕ → Safra) (p : ℕ) (s : Safra)
    → s.msg_count ≡ (procs p).msg_count
    → total k (update procs p s) ≡ total k procs
total-same k procs p s e = elim (dec_lt p k) [
  | yes below ↦
      +ℤ-cancel_same _ _ (procs p).msg_count
        (total-update k procs p s below ∙ ap (λ c. total k procs +ℤ c) e)
  | no above ↦ total-update_above k procs p s (omega arith)
]

next_token-count :
    (c : StateColor) (k : ℤ) (token : Token) → (next_token c k token).count ≡ k +ℤ token.count
next_token-count white k token = refl
next_token-count black k token = refl

next_token-tainted :
    (c : StateColor) (k : ℤ) (token : Token)
    → token.color ≡ black
    → (next_token c k token).color ≡ black
next_token-tainted white k token h = h
next_token-tainted black k token h = refl

-- The token takes the count of the process along.
pub total-pass :
    (procs : ℕ → Safra) (u : ℕ) (token : Token) (s : Safra)
    → total (suc u) (update procs (suc u) s)
        +ℤ (next_token (procs (suc u)).color (procs (suc u)).msg_count token).count
      ≡ total (suc (suc u)) procs +ℤ token.count
unfolding total
total-pass procs u token s =
    let k = (procs (suc u)).msg_count in
    let sent = (next_token (procs (suc u)).color k token).count in
    ap (λ z. z +ℤ sent) (total-update_above (suc u) procs (suc u) s (omega arith))
    ∙ ap (λ z. total (suc u) procs +ℤ z) (next_token-count (procs (suc u)).color k token)
    ∙ sym (+ℤ-assoc (total (suc u) procs) k token.count)

-- Process `u + 1` is passive, and sends the token on to `u`.
pub Probe-pass :
    (n : ℕ) (procs : ℕ → Safra) (u : ℕ) (token : Token) (s : Safra)
    → suc u < n
    → s.msg_count ≡ (procs (suc u)).msg_count
    → s.state ≡ passive
    → Probe n procs (suc u) token
    → Probe n
        (update procs (suc u) s)
        u
        (next_token (procs (suc u)).color (procs (suc u)).msg_count token)
unfolding total
Probe-pass n procs u token s below counts is_passive h =
    let c = (procs (suc u)).color in
    let k = (procs (suc u)).msg_count in
    let after = update procs (suc u) s in
    let sums = total-pass procs u token s in
    elim h [
      | quiet q e ↦
          quiet
            (λ i ui ni.
              update-all (λ i s. s.state ≡ passive) procs (suc u) s i (λ same. is_passive)
                (λ ne. q i (omega arith) ni))
            (sums ∙ e ∙ sym (total-same n procs (suc u) s counts))
      | ahead p ↦ ahead (subst IsPositive (sym sums) p)
      | dark i it b ↦ elim (dec_lt u i) [
        | yes last ↦
            let at : i ≡ suc u = omega arith in
            tainted
              (ap (λ d. (next_token d k token).color) (subst (λ j. (procs j).color ≡ black) at b))
        | no lower ↦ dark i (omega arith) (
            update-all (λ i s. s.color ≡ black) procs (suc u) s i (λ e. absurd (omega arith))
              (λ ne. b))
      ]
      | tainted b ↦ tainted (next_token-tainted c k token b)
    ]

-- The initiator sends a new token to the last process.
pub Probe-restart : (n : ℕ) (procs : ℕ → Safra) (u : ℕ) → suc u ≡ n → Probe n procs u initial_token
Probe-restart n procs u e =
    quiet (λ i ui ni. absurd (omega arith)) (plus_zero _ ∙ ap (λ k. total k procs) e)
  where
    plus_zero : (a : ℤ) → a +ℤ pos 0 ≡ a
    plus_zero a = omega int_laws

-- What the initiator sees when it announces.
pub Probe-detects :
    (n : ℕ) (procs : ℕ → Safra) (token : Token)
    → 0 < n
    → token.color ≡ white
    → (procs 0).color ≡ white
    → (procs 0).state ≡ passive
    → (procs 0).msg_count +ℤ token.count ≡ pos 0
    → Probe n procs 0 token
    → ((i : ℕ) → i < n → (procs i).state ≡ passive) × (total n procs ≡ pos 0)
unfolding total
Probe-detects n procs token some_process is_white own_white own_passive zero_sum h =
    let zero_plus : (a : ℤ) → pos 0 +ℤ a ≡ a = λ a. omega int_laws in
    let first : total 1 procs +ℤ token.count ≡ pos 0 =
      ap (λ z. z +ℤ token.count) (zero_plus (procs 0).msg_count) ∙ zero_sum in
    elim h [
      | quiet q e ↦ (
        λ i ni. elim (dec_lt 0 i) [
          | yes above ↦ q i above ni
          | no below ↦
              let at : 0 ≡ i = omega arith in subst (λ j. (procs j).state ≡ passive) at own_passive
        ],
        sym e ∙ first,
      )
      | ahead p ↦ absurd (not_positive (subst IsPositive first p))
      | dark i it b ↦
          let at : i ≡ 0 = omega arith in
          absurd (white≢black (sym own_white ∙ subst (λ j. (procs j).color ≡ black) at b))
      | tainted b ↦ absurd (white≢black (sym is_white ∙ b))
    ]
  where
    not_positive : ¬ IsPositive (pos 0)
    not_positive h = absurd (omega arith)

    white≢black : ¬ (white ≡ black)
    white≢black e = absurd (cc e)
