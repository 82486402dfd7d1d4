-- ===== src/Inet/Ntop6/Ahead.antt =====
-- What `inet_ntop6` keeps of the runs of zero words when a run ends.
use mongo_sgx_client.Base.{
  ℕ, ◌+◌, ◌≤◌, ◌<◌, ◌≡◌, sym, false, some, arith, ◌==◌, ltb, subst, ◌⊎◌, inl, inr, Bool-cases,
  ltb→ge, Option-cases,
}
use mongo_sgx_client.Inet.Ntop6.{Zeros, Search, keep_longer, search_word}

-- The run is no shorter, and begins no later if it is as long.
abbrev pub Ahead : Zeros → ℕ → ℕ → Type 0
Ahead z b n = (c : ℕ) × (z.base ≡ some c) × (n ≤ z.len) × (n ≡ z.len → c ≤ b)

-- The run is a part of the one that goes on.
abbrev pub InTail : Search → ℕ → ℕ → Type 0
InTail s b n = (c : ℕ) × (s.cur.base ≡ some c) × (c ≤ b) × (b + n ≤ c + s.cur.len)

-- The search has come to the word of this number: the run that goes on ends there, and the best one began
-- before it.
pub record IsAt (s : Search) (i : ℕ) : Type 0 where
  pub ends : (c : ℕ) → s.cur.base ≡ some c → c + s.cur.len ≡ i
  pub before : (b : ℕ) → s.best.base ≡ some b → b ≤ i
  pub order : (b c : ℕ) → s.best.base ≡ some b → s.cur.base ≡ some c → b ≤ c

Ahead-cur :
    (s : Search) (b n : ℕ) → keep_longer s ≡ s.cur → Ahead s.cur b n → Ahead (keep_longer s) b n
Ahead-cur s b n e = subst (λ z. Ahead z b n) (sym e)

Ahead-best :
    (s : Search) (b n : ℕ) → keep_longer s ≡ s.best → Ahead s.best b n → Ahead (keep_longer s) b n
Ahead-best s b n e = subst (λ z. Ahead z b n) (sym e)

tail-Ahead : (s : Search) (i b n : ℕ) → IsAt s i → InTail s b n → Ahead (keep_longer s) b n
unfolding keep_longer
tail-Ahead s i b n at (c, e, from, to) = elim (Option-cases s.best.base) [
  | inl none_yet ↦
      Ahead-cur s b n (ground (arith, e, none_yet)) (c, e, omega (arith, from, to), λ size. from)
  | inr (c', found) ↦ elim (Bool-cases (ltb s.best.len s.cur.len)) [
    | inl more ↦
        Ahead-cur s b n (ground (arith, e, found, more))
          (c, e, omega (arith, from, to), λ size. from)
    | inr less ↦
        let no_less : s.cur.len ≤ s.best.len = ltb→ge s.best.len s.cur.len less in
        Ahead-best s b n (ground (arith, e, found, less)) (
          c',
          found,
          omega (arith, from, to, no_less),
          λ size. omega (arith, from, at.order c' c found e),
        )
  ]
]

best-Ahead : (s : Search) (b n : ℕ) → Ahead s.best b n → Ahead (keep_longer s) b n
unfolding keep_longer
best-Ahead s b n (c, e, size, first) = elim (Option-cases s.cur.base) [
  | inl no_run ↦ Ahead-best s b n (ground (arith, no_run)) (c, e, size, first)
  | inr (c', run) ↦ elim (Bool-cases (ltb s.best.len s.cur.len)) [
    | inl more ↦
        let longer : s.best.len < s.cur.len = ground (arith, more) in
        Ahead-cur s b n (ground (arith, e, run, more))
          (c', run, omega (arith, size, longer), λ same. absurd (omega (arith, size, longer, same)))
    | inr less ↦ Ahead-best s b n (ground (arith, e, run, less)) (c, e, size, first)
  ]
]

pub keep_longer-Ahead :
    (s : Search) (i b n : ℕ)
    → IsAt s i
    → InTail s b n ⊎ (Ahead s.best b n × (b + n < i))
    → Ahead (keep_longer s) b n
keep_longer-Ahead s i b n at (inl tail) = tail-Ahead s i b n at tail
keep_longer-Ahead s i b n at (inr (ahead, to)) = best-Ahead s b n ahead

keep_longer-before : (s : Search) (i c : ℕ) → IsAt s i → (keep_longer s).base ≡ some c → c ≤ i
unfolding keep_longer
keep_longer-before s i c at e = elim (Option-cases s.cur.base) [
  | inl no_run ↦ at.before c (ground (arith, no_run, e))
  | inr (c', run) ↦ elim (Option-cases s.best.base) [
    | inl none_yet ↦
        let same : c' ≡ c = ground (arith, run, none_yet, e) in omega (arith, same, at.ends c' run)
    | inr (b, found) ↦ elim (Bool-cases (ltb s.best.len s.cur.len)) [
      | inl more ↦
          let same : c' ≡ c = ground (arith, run, found, more, e) in
          omega (arith, same, at.ends c' run)
      | inr less ↦ at.before c (ground (arith, run, found, less, e))
    ]
  ]
]

-- A word that is no zero ends the run that goes on.
pub other-IsAt :
    (s : Search) (i w : ℕ) → (w == 0) ≡ false → IsAt s i → IsAt (search_word i w s) (i + 1)
unfolding search_word
other-IsAt s i w e at =
    rw (search_word, e)
      (record {
        ends = λ c run. absurd (cc run);
        before = λ b found. omega (arith, keep_longer-before s i b at found);
        order = λ b c found run. absurd (cc run);
      })

pub zero-IsAt : (s : Search) (i : ℕ) → IsAt s i → IsAt (search_word i 0 s) (i + 1)
unfolding search_word
zero-IsAt s i at = elim (Option-cases s.cur.base) [
  | inl no_run ↦
      rw (search_word, no_run)
        (record {
          ends = λ c run. ground (arith, run);
          before = λ b found. omega (arith, at.before b found);
          order = λ b c found run. ground (arith, run, at.before b found);
        })
  | inr (c', on) ↦
      rw (search_word, on)
        (record {
          ends = λ c run. ground (arith, run, at.ends c' on);
          before = λ b found. omega (arith, at.before b found);
          order = λ b c found run. ground (arith, run, at.order b c' found on);
        })
]
