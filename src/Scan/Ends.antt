-- ===== src/Scan/Ends.antt =====
-- When `vsscanf` returns.
use mongo_sgx_client.Base.{
  ℕ, ◌≡◌, refl, Bool, true, false, ◌==◌, Bytes, List, [], ◌∷◌, ◌++◌, done, fault, arith, Run, ◌>>=◌,
}
use mongo_sgx_client.Scan.{Pointer, Stored, State, Move, stop, one, two, step, loop, vsscanf}
use mongo_sgx_client.Scan.Shorts.{IsShort, at_nul, at_digit, at_other, IsShort-IsRead}
use mongo_sgx_client.Scan.Rounds.{needs, HasNul, here, later, Rests, Moves, state, step-Moves}

IsFull : Bytes → Type 0
IsFull [] = ⊥
IsFull (c ∷ t) = Unit

IsShort-IsFull : {k : ℕ} {str : Bytes} → IsShort k str → IsFull str
unfolding IsFull
IsShort-IsFull at_nul = tt
IsShort-IsFull (at_digit e s) = tt
IsShort-IsFull (at_other e s) = tt

HasNul-IsFull : {r : Bytes} → HasNul r → IsFull r
unfolding IsFull
HasNul-IsFull here = tt
HasNul-IsFull (later h) = tt

rest-HasNul : (f : ℕ) (r : Bytes) → (f == 0) ≡ false → HasNul (f ∷ r) → HasNul r
rest-HasNul f r e here = absurd (cc e)
rest-HasNul f r e (later h) = h

abbrev Returns : Run State → Type 0
Returns fault = ⊥
Returns (done st) = Unit

branch :
    (b : Bool) (x y : Run State)
    → Returns x
    → (b ≡ false → Returns y)
    → Returns (elim b [ true ↦ x | false ↦ y ])
branch true x y h k = h
branch false x y h k = k refl

further :
    (P : Type 0) (ones twos : List Pointer) (r : Run Move) (next1 next2 : State → Run State)
    → Moves P ones twos r
    → ((s : State) → Rests ones s → Returns (next1 s))
    → ((s : State) → P → Rests twos s → Returns (next2 s))
    → Returns (elim r [
      | fault ↦ fault
      | done (stop s) ↦ done s
      | done (one s) ↦ next1 s
      | done (two s) ↦ next2 s
    ])
further P ones twos fault k l h p q = absurd h
further P ones twos (done (stop s)) k l h p q = tt
further P ones twos (done (one s)) k l h p q = p s h
further P ones twos (done (two s)) k l h p q = q s h.0 h.1

first_round :
    (f g : ℕ) (format str : Bytes) (args : List Pointer) (stored : List Stored) (n : ℕ)
    → (f == 0) ≡ false
    → HasNul (g ∷ format)
    → Rests (needs (f ∷ g ∷ format)) (state str args stored n)
    → Moves
        (HasNul format)
        (needs (g ∷ format))
        (needs format)
        (step f (g ∷ format) (state str args stored n))
unfolding IsFull
first_round f g format [] args stored n e0 nul h = absurd (IsShort-IsFull h.0.short)
first_round f g format (c ∷ t) args stored n e0 nul h =
    step-Moves (HasNul format) (needs (g ∷ format)) (needs format) h.1 f g format c t args stored n
      e0 (λ some. rest-HasNul g format (ground (arith, some)) nul) h.2 h.0

loop-Returns :
    (format : Bytes) (st : State)
    → HasNul format
    → Rests (needs format) st
    → Returns (loop format st)
unfolding loop IsFull
loop-Returns [] st nul h = absurd (HasNul-IsFull nul)
loop-Returns (f ∷ []) st nul h =
    branch (f == 0) _ _ tt (λ e. absurd (HasNul-IsFull (rest-HasNul f [] e nul)))
loop-Returns (f ∷ g ∷ format) st nul h = branch (f == 0) _ _ tt (λ e.
    let more : HasNul (g ∷ format) = rest-HasNul f (g ∷ format) e nul in
    further (HasNul format) (needs (g ∷ format)) (needs format) (step f (g ∷ format) st)
      (loop (g ∷ format)) (loop format)
      (first_round f g format st.str st.args st.stored st.val_cnt e more h)
      (λ s k. loop-Returns (g ∷ format) s more k) (λ s p k. loop-Returns format s p k))

-- There is an answer.
abbrev pub Returned : Run (ℕ × List Stored) → Type 0
Returned r = (n : ℕ) × (out : List Stored) × (r ≡ done (n, out))

answer : State → Run (ℕ × List Stored)
answer s = done (s.val_cnt, s.stored)

Returns-Returned : (r : Run State) → Returns r → Returned (r >>= answer)
unfolding answer
Returns-Returned fault h = absurd h
Returns-Returned (done s) h = (s.val_cnt, s.stored, refl)

-- For a text that ends in a NUL, with at most nine digits in a row before it, and a format that ends in
-- one, `vsscanf` returns, whatever else the two are, when the pointers are those that the conversions
-- of the format ask for, with any pointers behind: it never reads past either end, no number overflows
-- an int, and no pointer is missing or of another type.
pub vsscanf_returns :
    (str format : Bytes) (more : List Pointer)
    → IsShort 9 str
    → HasNul format
    → Returned (vsscanf str format (needs format ++ more))
unfolding vsscanf answer
vsscanf_returns str format more s nul =
    let st = state str (needs format ++ more) [] 0 in
    Returns-Returned (loop format st)
      (loop-Returns format st nul (IsShort-IsRead (omega arith) s, more, refl))
