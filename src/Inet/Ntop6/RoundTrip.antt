-- ===== src/Inet/Ntop6/RoundTrip.antt =====
-- What `inet_pton6` makes of the text of `inet_ntop6`.
use Prim.Native.Nat.{bit_or}
use mongo_sgx_client.Base.{
  ℕ, zero, suc, ◌+◌, ◌-◌, ◌*◌, ◌/◌, ◌%◌, ◌<◌, ◌≤◌, ◌≡◌, refl, sym, ◌∙◌, ap, ap₂, subst, false,
  Bytes, List, [], ◌∷◌, ◌++◌, append_assoc, Option, none, some, arith, ltb, if◌then◌else◌, length,
  replicate, length-append, length-replicate, get_elem?, ◌⊎◌, inl, inr, done, fault, drop, All-left,
  All-right, ge→ltb,
}
use mongo_sgx_client.Base.Bits.{or_byte}
use mongo_sgx_client.Inet.Pton4.Texts.{AreBytes}
use mongo_sgx_client.Inet.Pton6.{endp, inet_pton6}
use mongo_sgx_client.Inet.Pton6.Walk.{read_address, word_bytes}
use mongo_sgx_client.Inet.Pton6.Refines.{inet_pton6-read_address}
use mongo_sgx_client.Inet.Pton6.Groups.{AreWords, words_bytes, length-words_bytes}
use mongo_sgx_client.Inet.Pton6.Gaps.{read_full, read_compressed, filled}
use mongo_sgx_client.Inet.Ntop6.{tmp_size, words_of, best_run, encapsulated, inet_ntop6}
use mongo_sgx_client.Inet.Ntop6.Best.{IsRun, best_run-IsRun}
use mongo_sgx_client.Inet.Ntop6.Text.{presentation, body, trailing_colon, length-body}
use mongo_sgx_client.Inet.Ntop6.Copy.{stored, stored_fits, stored_overflow, inet_ntop6-stored}
use mongo_sgx_client.Inet.Ntop6.Shape.{run_at, presentation_run, presentation_none}

words_bytes-append : (xs ys : List ℕ) → words_bytes (xs ++ ys) ≡ words_bytes xs ++ words_bytes ys
words_bytes-append [] ys = refl
words_bytes-append (x ∷ xs) ys = ap (λ t. word_bytes x ++ t) (words_bytes-append xs ys)

words_bytes-zeros : (n : ℕ) → words_bytes (replicate n 0) ≡ replicate (2 * n) 0
words_bytes-zeros zero = refl
words_bytes-zeros (suc n) =
    let two : suc (suc (2 * n)) ≡ 2 * suc n = omega arith in
    ap (λ t. 0 ∷ 0 ∷ t) (words_bytes-zeros n) ∙ ap (λ k. replicate k 0) two

-- The zeros that :: stands for are those of the run.
filled_run :
    (len : ℕ) (hs ts : List ℕ)
    → length hs + len + length ts ≡ 8
    → filled (words_bytes hs) (words_bytes ts) ≡ words_bytes (hs ++ (replicate len 0 ++ ts))
filled_run len hs ts e =
    let front = words_bytes hs in
    let back = words_bytes ts in
    let zeros : endp - length (front ++ back) ≡ 2 * len =
      omega (arith, length-append {0} front back, length-words_bytes hs, length-words_bytes ts) in
    ap (λ k. front ++ replicate k 0 ++ back) zeros
    ∙ append_assoc front (replicate (2 * len) 0) back
    ∙ ap (λ t. front ++ (t ++ back)) (sym (words_bytes-zeros len))
    ∙ ap (λ t. front ++ t) (sym (words_bytes-append (replicate len 0) ts))
    ∙ sym (words_bytes-append hs (replicate len 0 ++ ts))

-- The text of any run is read back.
read_run :
    (ws : List ℕ) (o : Option ℕ) (len : ℕ)
    → AreWords ws
    → length ws ≡ 8
    → IsRun ws o len
    → (o ≡ none) ⊎ (2 ≤ len)
    → read_address (presentation (record { base = o; len = len }) ws) ≡ some (words_bytes ws)
read_run ws none len small eight is long =
    ap read_address (presentation_none len ws) ∙ read_full ws small eight
read_run ws (some b) len small eight is (inl e) = cc
read_run ws (some b) len small eight (hs, ts, e, at) (inr long) =
    let zeros : List ℕ = replicate len 0 in
    let parts : AreWords (hs ++ (zeros ++ ts)) = subst AreWords e small in
    let all : length hs + len + length ts ≡ 8 = omega (
      arith,
      ap length e,
      length-append {0} hs (zeros ++ ts),
      length-append {0} zeros ts,
      length-replicate {A = ℕ} len 0,
    ) in
    let IsWord = λ (w : ℕ). w < 65536 in
    let first = All-left IsWord hs (zeros ++ ts) parts in
    let last = All-right IsWord zeros ts (All-right IsWord hs (zeros ++ ts) parts) in
    ap₂ (λ x y. read_address (presentation (run_at x len) y)) (sym at) e
    ∙ ap read_address (presentation_run len hs ts (omega arith) all)
    ∙ read_compressed hs ts first last (omega arith)
    ∙ ap some (filled_run len hs ts all ∙ ap words_bytes (sym e))

pub read_presentation :
    (ws : List ℕ)
    → AreWords ws
    → length ws ≡ 8
    → read_address (presentation (best_run ws) ws) ≡ some (words_bytes ws)
read_presentation ws small eight =
    let (is, long) = best_run-IsRun ws in
    read_run ws (best_run ws).base (best_run ws).len small eight is long

-- The words of the bytes are in range, half as many, and have the bytes again.
abbrev IsSource : Bytes → ℕ → Type 0
IsSource src n =
    AreWords (words_of src) × (length (words_of src) ≡ n) × (words_bytes (words_of src) ≡ src)

words_of-IsSource : (n : ℕ) (src : Bytes) → AreBytes src → length src ≡ 2 * n → IsSource src n
unfolding words_of
words_of-IsSource zero [] h e = (tt, refl, refl)
words_of-IsSource (suc n) [] h e = absurd (omega arith)
words_of-IsSource zero (hi ∷ src) h e = absurd (omega arith)
words_of-IsSource (suc n) (hi ∷ []) h e = absurd (omega arith)
words_of-IsSource (suc n) (hi ∷ lo ∷ src) h e =
    let (small, count, back) = words_of-IsSource n src h.1.1 (omega arith) in
    let word : bit_or (hi * 256) lo ≡ hi * 256 + lo = or_byte hi lo h.0 h.1.0 in
    let high : bit_or (hi * 256) lo / 256 % 256 ≡ hi = omega (arith, h.0, h.1.0) in
    let low : bit_or (hi * 256) lo % 256 ≡ lo = omega (arith, h.1.0) in
    (
      (omega (arith, h.0, h.1.0), small),
      omega (arith, count),
      ap₂ (λ x y. x ∷ y ∷ words_bytes (words_of src)) high low ∙ ap (λ t. hi ∷ lo ∷ t) back,
    )

length-presentation :
    (ws : List ℕ) → AreWords ws → length ws ≡ 8 → length (presentation (best_run ws) ws) < tmp_size
length-presentation ws small eight =
    let best = best_run ws in
    let colon : length (trailing_colon best) ≤ 1 = ground arith in
    omega
      (arith, length-append {0} (body best 0 ws) (trailing_colon best), length-body best 0 ws small)

abbrev pub text_of : Bytes → Bytes
text_of src = presentation (best_run (words_of src)) (words_of src)

-- An address that is not written with an embedded IPv4 address.
abbrev pub IsPlain : Bytes → Type 0
IsPlain src = encapsulated (best_run (words_of src)) (get_elem? (words_of src) 5) ≡ false

module _ (src tmp junk junk4 dst : Bytes) (size : ℕ) (bytes : AreBytes src)
    (sixteen : length src ≡ 16) (local : length tmp ≡ tmp_size) (plain : IsPlain src) where
  ntop6 :
      inet_ntop6 src tmp junk dst size
      ≡ (if ltb size (length (text_of src) + 1) then done none else stored dst (text_of src))
  ntop6 =
      let (small, count, back) = words_of-IsSource 8 src bytes sixteen in
      inet_ntop6-stored src tmp junk dst size small count local plain

  -- For sixteen bytes that are not written as an encapsulated IPv4 address, a `dst` of at least
  -- 46 bytes, a `size` of at least 46, and any contents of the local buffers: `inet_ntop6` stores
  -- a text and NULs up to 46 bytes, leaves the rest of `dst` alone, and `inet_pton6` reads the
  -- sixteen bytes back from the text.
  pub inet_pton6-inet_ntop6 :
      tmp_size ≤ length dst
      → tmp_size ≤ size
      → length junk4 ≡ 4
      → (t : Bytes) × (inet_ntop6 src tmp junk dst size
          ≡ done (some (t ++ replicate (tmp_size - length t) 0 ++ drop tmp_size dst)))
        × (inet_pton6 t junk4 ≡ done (some src))
  inet_pton6-inet_ntop6 room fits four =
      let (small, count, back) = words_of-IsSource 8 src bytes sixteen in
      let t = text_of src in
      let short : length t < tmp_size = length-presentation (words_of src) small count in
      (
        t,
        ntop6
            ∙ ap (λ b. if b then done none else stored dst t)
                (ge→ltb size (length t + 1) (omega arith))
            ∙ stored_fits dst t short room,
        inet_pton6-read_address t junk4 four
            ∙ ap done (read_presentation (words_of src) small count ∙ ap some back),
      )

  -- For sixteen bytes that are not written as an encapsulated IPv4 address, and a `dst` of fewer
  -- than 46 bytes, `inet_ntop6` writes past the end of `dst` whenever `size` admits the text and
  -- its NUL, even if `dst` has `size` bytes: the copy always stores 46.
  pub inet_ntop6_overflow :
      length dst < tmp_size
      → length (text_of src) + 1 ≤ size
      → inet_ntop6 src tmp junk dst size ≡ fault
  inet_ntop6_overflow narrow fits =
      let (small, count, back) = words_of-IsSource 8 src bytes sixteen in
      let t = text_of src in
      ntop6
      ∙ ap (λ b. if b then done none else stored dst t) (ge→ltb size (length t + 1) fits)
      ∙ stored_overflow dst t (length-presentation (words_of src) small count) narrow
