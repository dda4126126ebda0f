-- ===== src/Protocol/Safra/Invariant.antt =====
-- Where the token is in every run, and what it knows.
use native.Mathlib.Nat.{mod-eq_of_lt, add-mod_right}
use Prim.Native.Nat.{◌%◌}
use scala_neko.Base.{
  ℕ, zero, suc, ◌+◌, ◌-◌, ◌<◌, ◌≡◌, ◌≢◌, refl, ap, sym, subst, ◌∙◌, ◌⊎◌, false, none, some, List,
  [], ◌∷◌, ◌==◌, update, if◌then◌else◌, arith,
}
use scala_neko.Protocol.Message.{Message}
use scala_neko.Protocol.Safra.{
  white, active, passive, Token, TokenHolder, Safra, initial_token, initiator, next_token,
  next_process,
}
use scala_neko.Protocol.Safra.Probe.{Probe, update-all, Probe-pass, Probe-restart}

abbrev pub NoneHeld : (ℕ → Safra) → Type 0
NoneHeld procs = (i : ℕ) → (procs i).token ≡ none

abbrev pub AllPassive : ℕ → (ℕ → Safra) → Type 0
AllPassive n procs = (i : ℕ) → i < n → (procs i).state ≡ passive

-- No termination has been announced.
abbrev pub Silent : List ℕ → List ℕ → Type 0
Silent announcements told = (announcements ≡ []) × (told ≡ [])

-- There is one token, on its way or held by a process, until the initiator has announced; what the
-- initiator holds is not used.
pub data Whereabouts {ℓ} {A : Type ℓ} (n : ℕ) (procs : ℕ → Safra) (holders : List TokenHolder)
    (payloads : List (ℕ × Message A)) (announcements told : List ℕ) : Type ℓ where
  travelling :
      (h : TokenHolder)
      → holders ≡ h ∷ []
      → h.to < n
      → NoneHeld procs
      → Probe n procs h.to h.token
      → Silent announcements told
      → Whereabouts n procs holders payloads announcements told
  held :
      (p : ℕ) (token : Token)
      → holders ≡ []
      → p < n
      → (procs p).token ≡ some token
      → (procs p).state ≡ active
      → ((i : ℕ) → p ≢ i → (procs i).token ≡ none)
      → (p ≢ 0 → Probe n procs p token)
      → Silent announcements told
      → Whereabouts n procs holders payloads announcements told
  over :
      holders ≡ []
      → NoneHeld procs
      → AllPassive n procs
      → payloads ≡ []
      → (announcements ≢ []) ⊎ (told ≢ [])
      → Whereabouts n procs holders payloads announcements told

-- A change of one process that leaves its token, and what any token knows.
pub Whereabouts-change {ℓ} :
    {A : Type ℓ} (n : ℕ) (procs : ℕ → Safra) (p : ℕ) (s : Safra) (holders : List TokenHolder)
    (before after : List (ℕ × Message A)) (announcements told : List ℕ)
    → s.token ≡ (procs p).token
    → ((token : Token) → s.token ≡ some token → (procs p).state ≡ active → s.state ≡ active)
    → ((t : ℕ) (token : Token) → t < n → Probe n procs t token → Probe n (update procs p s) t token)
    → (AllPassive n procs → before ≡ [] → AllPassive n (update procs p s) × (after ≡ []))
    → Whereabouts n procs holders before announcements told
    → Whereabouts n (update procs p s) holders after announcements told
Whereabouts-change n procs p s holders before after announcements told e alive keeps ended here =
    let none_of : (i : ℕ) → (procs i).token ≡ none → (update procs p s i).token ≡ none = λ i h.
      update-all (λ i s. s.token ≡ none) procs p s i
        (λ same. e ∙ ap (λ j. (procs j).token) same ∙ h) (λ ne. h) in
    elim here [
      | travelling h one to_n nobody knows silent ↦
          travelling h one to_n (λ i. none_of i (nobody i)) (keeps h.to h.token to_n knows) silent
      | held q token no_holders qn holds is_active others knows silent ↦
          held q token no_holders qn
            (update-all (λ i s. s.token ≡ some token) procs p s q
              (λ same. e ∙ ap (λ j. (procs j).token) same ∙ holds) (λ ne. holds))
            (update-all (λ i s. s.state ≡ active) procs p s q
              (λ same.
                alive token (e ∙ ap (λ j. (procs j).token) same ∙ holds)
                  (ap (λ j. (procs j).state) same ∙ is_active))
              (λ ne. is_active))
            (λ i ne. none_of i (others i ne)) (λ ne. keeps q token qn (knows ne)) silent
      | over no_holders nobody quiet no_payloads news ↦
          let (still, none_sent) = ended quiet no_payloads in
          over no_holders (λ i. none_of i (nobody i)) still none_sent news
    ]

pub next_process-zero : (n : ℕ) → 0 < n → next_process n 0 ≡ n - 1
unfolding next_process
next_process-zero n h =
    let same : 0 + n - 1 ≡ n - 1 = omega arith in ap (λ k. k % n) same ∙ mod-eq_of_lt (omega arith)

pub next_process-suc : (n u : ℕ) → suc u < n → next_process n (suc u) ≡ u
unfolding next_process
next_process-suc n u h =
    let same : suc u + n - 1 ≡ u + n = omega arith in
    ap (λ k. k % n) same ∙ add-mod_right u n ∙ mod-eq_of_lt (omega arith)

-- The token that process `p` sends.
abbrev sent : ℕ → Token → Safra → Token
sent p token s = if p == initiator then initial_token else next_token s.color s.msg_count token

abbrev pub without_token : Safra → Safra
without_token s = record s { color = white; token = none }

-- A passive process sends the token on.
pub Whereabouts-transmit {ℓ} :
    {A : Type ℓ} (n : ℕ) (procs : ℕ → Safra) (p : ℕ) (token : Token) (s : Safra)
    (payloads : List (ℕ × Message A)) (announcements told : List ℕ)
    → p < n
    → (p ≢ 0 → Probe n procs p token)
    → ((i : ℕ) → p ≢ i → (procs i).token ≡ none)
    → s.msg_count ≡ (procs p).msg_count
    → s.color ≡ (procs p).color
    → s.state ≡ passive
    → Silent announcements told
    → Whereabouts n
        (update procs p (without_token s))
        (record { from = p; to = next_process n p; token = sent p token s } ∷ [])
        payloads
        announcements
        told
Whereabouts-transmit n procs p token s payloads announcements told pn knows others counts colors
      is_passive silent =
    let after = update procs p (without_token s) in
    let nobody : NoneHeld after = λ i.
      update-all (λ i s. s.token ≡ none) procs p (without_token s) i (λ same. refl) (others i) in
    let (to_n, probe) = sent_probe p pn knows counts colors in
    travelling _ refl to_n nobody probe silent
  where
    sent_probe :
        (p : ℕ)
        → p < n
        → (p ≢ 0 → Probe n procs p token)
        → s.msg_count ≡ (procs p).msg_count
        → s.color ≡ (procs p).color
        → (next_process n p < n)
          × Probe n (update procs p (without_token s)) (next_process n p) (sent p token s)
    sent_probe zero pn knows counts colors =
        let last = next_process-zero n pn in
        (
          subst (λ k. k < n) (sym last) (omega arith),
          subst (λ k. Probe n (update procs 0 (without_token s)) k initial_token) (sym last)
              (Probe-restart n (update procs 0 (without_token s)) (n - 1) (omega arith)),
        )
    sent_probe (suc u) pn knows counts colors =
        let down = next_process-suc n u pn in
        let other : (suc u == 0) ≡ false = ground arith in
        let color = (procs (suc u)).color in
        let count = (procs (suc u)).msg_count in
        let same : next_token color count token ≡ sent (suc u) token s = sym (
          ap (λ b. if b then initial_token else next_token s.color s.msg_count token) other
          ∙ ap (λ c. next_token c s.msg_count token) colors
          ∙ ap (λ k. next_token color k token) counts) in
        let after = update procs (suc u) (without_token s) in
        let passed =
          Probe-pass n procs u token (without_token s) pn counts is_passive
            (knows (λ e. absurd (omega arith))) in
        (
          subst (λ k. k < n) (sym down) (omega arith),
          subst (λ k. Probe n after k (sent (suc u) token s)) (sym down)
              (subst (Probe n after u) same passed),
        )
