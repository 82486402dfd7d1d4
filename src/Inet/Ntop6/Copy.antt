-- ===== src/Inet/Ntop6/Copy.antt =====
-- How `inet_ntop6` closes its text and copies it to `dst`.
use mongo_sgx_client.Base.{
  ℕ, ◌+◌, ◌-◌, ◌<◌, ◌≤◌, ◌≡◌, ◌≢◌, refl, sym, ◌∙◌, ap, false, Bytes, [], ◌∷◌, ◌++◌, append-nil,
  append_assoc, subst, Option, none, some, arith, ltb, if◌then◌else◌, length, get_elem?, drop,
  replicate, length-append, length-replicate, Bool-cases, inl, inr, Run, ◌>>=◌, done, fault,
  All-append, take-append-drop,
}
use mongo_sgx_client.Libc.{write, strncpy}
use mongo_sgx_client.Libc.Laws.{IsText, write_fits, write_overflow, strncpy_padded}
use mongo_sgx_client.Inet.Pton6.Groups.{AreWords}
use mongo_sgx_client.Inet.Ntop6.{
  Zeros, State, tmp_size, encapsulated, trailing, close, put_trailing, copy_out, words_of, best_run,
  inet_ntop6, after_loop,
}
use mongo_sgx_client.Inet.Ntop6.Text.{
  body, trailing_colon, presentation, Holds, put-Holds, loop-Holds, length-body, body-IsText,
}

-- The buffer when its text has been closed by a NUL.
closed : (u : State) (t : Bytes) → Holds u (t ++ 0 ∷ []) → (rest : Bytes) × (u.tmp ≡ t ++ 0 ∷ rest)
closed u t h =
    let rest = drop u.tp u.tmp in
    (
      rest,
      sym (take-append-drop u.tp u.tmp) ∙ ap (λ x. x ++ rest) h.part ∙ append_assoc t (0 ∷ []) rest,
    )

-- strncpy always stores as many bytes as the local buffer has.
abbrev pub stored : Bytes → Bytes → Run (Option Bytes)
stored dst t = write dst 0 (t ++ replicate (tmp_size - length t) 0) >>= λ m. done (some m)

put_trailing-Holds :
    (best : Zeros) (st : State) (t : Bytes)
    → Holds st t
    → length t < tmp_size
    → (s : State) × (put_trailing best st ≡ done s) × Holds s (t ++ trailing_colon best)
put_trailing-Holds best st t h k = elim (Bool-cases (trailing best)) [
  | inl yes_run ↦ rw yes_run (put-Holds b':' st t h k)
  | inr no_run ↦ rw no_run (st, refl, subst (Holds st) (sym (append-nil t)) h)
]

strncpy_closed :
    (dst t : Bytes) (u : State)
    → IsText t
    → length t < tmp_size
    → Holds u (t ++ 0 ∷ [])
    → strncpy dst 0 u.tmp tmp_size ≡ write dst 0 (t ++ replicate (tmp_size - length t) 0)
strncpy_closed dst t u plain k h =
    let (rest, e) = closed u t h in
    ap (λ m. strncpy dst 0 m tmp_size) e ∙ strncpy_padded dst t rest 0 tmp_size plain (omega arith)

copy_out-stored :
    (dst : Bytes) (size : ℕ) (st : State) (t : Bytes)
    → IsText t
    → Holds st t
    → length t < tmp_size
    → copy_out dst size st ≡ (if ltb size (length t + 1) then done none else stored dst t)
unfolding copy_out
copy_out-stored dst size st t plain h k =
    let (u, e, hu) = put-Holds 0 st t h k in
    let tp : u.tp ≡ length t + 1 = omega (arith, hu.at, length-append {0} t (0 ∷ [])) in
    let copy = strncpy_closed dst t u plain k hu in ground (arith, e, tp, copy)

-- NULL if the text and its NUL exceed `size`; else the copy.
pub close-stored :
    (best : Zeros) (dst : Bytes) (size : ℕ) (st : State) (t : Bytes)
    → IsText t
    → Holds st t
    → length t + 1 < tmp_size
    → let text = t ++ trailing_colon best in
      close best dst size st ≡ (if ltb size (length text + 1) then done none else stored dst text)
unfolding close
close-stored best dst size st t plain h k =
    let (s, e, hs) = put_trailing-Holds best st t h (omega arith) in
    let text = t ++ trailing_colon best in
    let colon : IsText (trailing_colon best) = ground arith in
    let short : length (trailing_colon best) ≤ 1 = ground arith in
    ap (λ r. r >>= λ x. copy_out dst size x) e
    ∙ copy_out-stored dst size s text (All-append (λ c. c ≢ 0) t (trailing_colon best) plain colon)
        hs (omega (arith, length-append {0} t (trailing_colon best)))

-- For eight 16-bit words that are not written as an encapsulated IPv4 address, and a local buffer
-- of 46 bytes, `inet_ntop6` returns NULL when the text of the words and its NUL exceed `size`,
-- and otherwise copies the text, filled up with NULs to 46 bytes, to `dst`. The text is described
-- by `presentation`, word by word.
pub inet_ntop6-stored :
    (src tmp junk dst : Bytes) (size : ℕ)
    → let ws = words_of src in
      let best = best_run ws in
      AreWords ws
      → length ws ≡ 8
      → length tmp ≡ tmp_size
      → encapsulated best (get_elem? ws 5) ≡ false
      → inet_ntop6 src tmp junk dst size ≡ (
          if ltb size (length (presentation best ws) + 1)
          then done none
          else stored dst (presentation best ws))
unfolding inet_ntop6
inet_ntop6-stored src tmp junk dst size small eight local plain =
    let ws = words_of src in
    let best = best_run ws in
    let st : State = record { tmp = tmp; tp = 0 } in
    let (s, e, hs) =
      loop-Holds src junk best (get_elem? ws 5) 0 ws st [] plain small
        (record { whole = local; at = refl; part = refl }) (omega arith) in
    ap (after_loop best dst size) e
    ∙ close-stored best dst size s (body best 0 ws) (body-IsText best 0 ws) hs
        (omega (arith, length-body best 0 ws small))

padded_length :
    (t : Bytes) → length t < tmp_size → length (t ++ replicate (tmp_size - length t) 0) ≡ tmp_size
padded_length t h = omega (
  arith,
  length-append {0} t (replicate (tmp_size - length t) 0),
  length-replicate {A = ℕ} (tmp_size - length t) 0,
)

-- The copy in a `dst` that has room for the whole local buffer,
pub stored_fits :
    (dst t : Bytes)
    → length t < tmp_size
    → tmp_size ≤ length dst
    → stored dst t ≡ done (some (t ++ replicate (tmp_size - length t) 0 ++ drop tmp_size dst))
stored_fits dst t h k =
    let bs : Bytes = t ++ replicate (tmp_size - length t) 0 in
    let size : 0 + length bs ≡ tmp_size = omega (arith, padded_length t h) in
    ap (λ r. r >>= λ m. done (some m))
      (write_fits dst bs 0 (omega arith) ∙ ap (λ n. done (bs ++ drop n dst)) size)

-- and in one that has not.
pub stored_overflow :
    (dst t : Bytes) → length t < tmp_size → length dst < tmp_size → stored dst t ≡ fault
stored_overflow dst t h k =
    ap (λ r. r >>= λ m. done (some m))
      (write_overflow dst (t ++ replicate (tmp_size - length t) 0) 0
        (omega (arith, padded_length t h)))
